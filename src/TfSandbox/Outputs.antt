-- ===== src/TfSandbox/Outputs.antt =====
-- pkg/tfsandbox/details.go: what `Plan.Outputs` and `State.Outputs` share. An output `x` of the module
-- comes with an internal output that tells whether `x` is secret.
use pulumi_terraform_module.Prelude.{
  String, ◌<>◌, Bool, true, false, List, [], ◌∷◌, starts_with, if◌then◌else◌,
}
use pulumi_terraform_module.Prelude.Outcome.{Outcome, ok, ◌>>=◌}
use pulumi_terraform_module.Prelude.Dict.{Dict}
use pulumi_terraform_module.Pulumi.Json.{Json}
use pulumi_terraform_module.Pulumi.Value
use pulumi_terraform_module.Pulumi.Value.{PropertyValue, PropertyMap}
use pulumi_terraform_module.TfSandbox.Keys.{pulumi_top_level_key}
use pulumi_terraform_module.TfSandbox.Secrets.{make_secret_conservative}
pub mod Laws

abbrev pub is_secret_output_prefix : String
is_secret_output_prefix = "internal_output_is_secret_"

abbrev pub is_secret_key : String → String
is_secret_key name = is_secret_output_prefix <> name

-- `isInternalOutputResource`
abbrev pub is_internal_output_resource : String → Bool
is_internal_output_resource name = starts_with name is_secret_output_prefix

-- `isAfterUnknown`
abbrev pub is_after_unknown : Json → Bool
is_after_unknown Json.null = false
is_after_unknown (Json.bool b) = b
is_after_unknown _ = true

-- `if b, ok := v.(bool); ok { return b }; return false`
abbrev pub bool_or_false : Json → Bool
bool_or_false (Json.bool b) = b
bool_or_false _ = false

-- `if secret { val = resourceMakeSecretConservative(val) }`
abbrev pub mark : Bool → PropertyValue → PropertyValue
mark secret v = if secret then make_secret_conservative v else v

-- The loop over the raw outputs.
unfoldable pub output_loop {ℓ} :
    {O : Type ℓ} → (String → O → Outcome PropertyValue) → Dict O → PropertyMap → Outcome PropertyMap
unfolding Value.insert pulumi_top_level_key
output_loop value [] outputs = ok outputs
output_loop value ((name, o) ∷ rest) outputs = elim (is_internal_output_resource name) [
  | true ↦ output_loop value rest outputs
  | false ↦ do
    key ← pulumi_top_level_key name
    v ← value name o
    output_loop value rest (Value.insert key v outputs)
]
