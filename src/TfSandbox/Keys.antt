-- ===== src/TfSandbox/Keys.antt =====
-- pkg/tfsandbox/keys.go and pkg/pulumix/reserved.go: top-level keys of outputs and inputs.
use pulumi_terraform_module.Prelude.{
  String, ◌<>◌, Bool, true, false, ◌||◌, not, List, [], ◌∷◌, none, some, ◌==◌, if◌then◌else◌,
}
use pulumi_terraform_module.Prelude.Outcome.{Outcome, assert, ok, ◌>>◌, ◌>>=◌}
use pulumi_terraform_module.Prelude.Text.{before_underscore}
pub mod Laws

-- `slices.Contains`
abbrev pub contains : List String → String → Bool
contains [] s = false
contains (x ∷ xs) s = x == s || contains xs s

unfoldable pub is_reserved_keyword : String → Bool
is_reserved_keyword name = contains ("pulumi" ∷ []) name

unfoldable pub is_reserved_provider_property_name : String → Bool
unfolding is_reserved_keyword
is_reserved_provider_property_name name = contains ("version" ∷ []) name || is_reserved_keyword name

unfoldable pub is_reserved_component_resource_property_key : String → Bool
unfolding is_reserved_keyword
is_reserved_component_resource_property_key name =
    contains ("urn" ∷ []) name || is_reserved_keyword name

unfoldable pub is_reserved_custom_resource_property_key : String → Bool
is_reserved_custom_resource_property_key name = contains ("id" ∷ []) name

unfoldable pub is_valid_pulumi_top_level_key : String → Bool
unfolding is_reserved_custom_resource_property_key
is_valid_pulumi_top_level_key key =
    if is_reserved_custom_resource_property_key key then false else true

-- `PulumiTopLevelKey`
unfoldable pub pulumi_top_level_key : String → Outcome String
unfolding is_valid_pulumi_top_level_key
pulumi_top_level_key tf_key =
    if not (is_valid_pulumi_top_level_key tf_key)
    then (do assert (is_valid_pulumi_top_level_key (tf_key <> "_")); ok (tf_key <> "_"))
    else ok tf_key

-- `DecodePulumiTopLevelKey`
unfoldable pub decode_pulumi_top_level_key : String → String
unfolding is_valid_pulumi_top_level_key before_underscore
decode_pulumi_top_level_key s = elim (before_underscore s) [
  | none ↦ s
  | some p ↦ if not (is_valid_pulumi_top_level_key p) then p else s
]
