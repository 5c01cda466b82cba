-- ===== src/ModProvider/Config.antt =====
-- pkg/modprovider/server.go: the configuration of Terraform's providers, from the configuration of the
-- Pulumi provider. `json.Unmarshal` into a map and `NewPropertyMapFromMap` are parameters.
use pulumi_terraform_module.Prelude.{
  String, Bool, true, false, not, ◌&&◌, ◌||◌, Option, none, some, List, [], ◌∷◌, ◌==◌, is_some,
  if◌then◌else◌,
}
use pulumi_terraform_module.Prelude.Outcome.{Outcome, ok, err, panic, ◌>>=◌}
use pulumi_terraform_module.Prelude.Dict.{Dict, lookup, insert}
use pulumi_terraform_module.Pulumi.Json.{Members}
use pulumi_terraform_module.Pulumi.Value
use pulumi_terraform_module.Pulumi.Value.{PropertyValue, string, secret, object, PropertyMap, entry}
use pulumi_terraform_module.TfSandbox.Keys.{contains}
pub mod Laws

abbrev pub module_executor_variable_name : String
module_executor_variable_name = "executor"

-- Not the configuration of a provider.
abbrev pub is_skipped : String → Bool
is_skipped key =
    key == "version" || key == "pluginDownloadURL" || key == module_executor_variable_name

-- `if v.IsSecret() { v = v.SecretValue().Element }`: one marker
abbrev pub without_secret : PropertyValue → PropertyValue
without_secret (secret v) = v
without_secret v = v

-- A map that is not empty.
abbrev pub unless_empty : (Members → PropertyMap) → Members → Option PropertyMap
unless_empty make Members.end = none
unless_empty make (Members.member k v m) = some (make (Members.member k v m))

module _ (unmarshal_map : String → Option Members) (new_property_map : Members → PropertyMap) where
  abbrev decoded : Option Members → Outcome (Option PropertyMap)
  decoded none = panic
  decoded (some m) = ok (unless_empty new_property_map m)

  -- One round of the loop, for a key that is not skipped: the configuration, if there is any
  abbrev pub provider_config : PropertyValue → Outcome (Option PropertyMap)
  provider_config (string text) = decoded (unmarshal_map text)
  provider_config (object m) = ok (some m)
  provider_config _ = panic

  abbrev add : String → Option PropertyMap → Dict PropertyMap → Dict PropertyMap
  add key none configs = configs
  add key (some m) configs = insert key m configs

  -- The loop of `cleanProvidersConfig`
  unfoldable pub clean_loop : PropertyMap → Dict PropertyMap → Outcome (Dict PropertyMap)
  unfolding insert
  clean_loop PropertyMap.end configs = ok configs
  clean_loop (entry key v rest) configs = elim (is_skipped key) [
    | true ↦ clean_loop rest configs
    | false ↦ do found ← provider_config (without_secret v); clean_loop rest (add key found configs)
  ]

  -- `cleanProvidersConfig`
  unfoldable pub clean_providers_config : PropertyMap → Outcome (Dict PropertyMap)
  unfolding clean_loop
  clean_providers_config config = clean_loop config []

-- The block that azurerm wants.
abbrev pub azure_features : PropertyMap
azure_features = entry "features" (object PropertyMap.end) PropertyMap.end

-- `fixupProvidersConfigForAzureResourceManager`, on the names of the providers' variables
unfoldable pub fixup_providers_config : Dict PropertyMap → List String → Dict PropertyMap
unfolding lookup insert
fixup_providers_config config [] = config
fixup_providers_config config (v ∷ vs) =
    if contains (v ∷ vs) "azurerm" && not (is_some (lookup "azurerm" config))
    then insert "azurerm" azure_features config
    else config
