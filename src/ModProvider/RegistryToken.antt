-- ===== src/ModProvider/RegistryToken.antt =====
-- pkg/modprovider/registry_token.go: the token of the module registry, for `tofu init`. URLs, host names,
-- the discovery of services and the environment are parameters.
use Prim.Native.Char.{code}
use pulumi_terraform_module.Prelude.{
  String, ◌<>◌, Bool, true, false, Option, none, some, List, [], ◌∷◌, ◌==◌, ◌||◌, if◌then◌else◌,
  eqb,
}
use pulumi_terraform_module.Prelude.Outcome.{Outcome, ok, err, panic, ◌>>=◌}
use pulumi_terraform_module.Prelude.Dict.{Dict, lookup, insert}
pub mod Hosts
pub mod Laws

-- `cloudRegistry`
pub record CloudRegistry : Type 0 where
  pub host : String
  pub token : String

-- What `DiscoverServiceURL` ends in: the host of the service's URL, a nil URL, an error that is
-- `ErrServiceNotProvided`, or any other error.
pub data Discovery : Type 0 where
  service_at : String → Discovery
  no_url not_provided : Discovery
  failed : String → Discovery

pub record Network : Type 0 where
  -- the host of `url.Parse`
  pub parse_host : String → Outcome String
  -- `svchost.ForComparison`
  pub for_comparison : String → Outcome String
  pub discover_service_url : String → Discovery

abbrev pub no_module_registry : String
no_module_registry = "no module registry"

module _ (net : Network) where
  -- The end of `discoverCloudRegistryWith`
  abbrev pub registry_of : String → Discovery → Outcome (Option CloudRegistry)
  registry_of token (failed e) = err e
  registry_of token not_provided = err no_module_registry
  registry_of token no_url = err no_module_registry
  registry_of token (service_at host) = net.for_comparison host >>= λ registry_host.
      ok (some (record { host = registry_host; token = token }))

  abbrev pub require_host : String → Outcome String
  require_host host = if host == "" then err "backend address has no host" else ok host

  -- `discoverCloudRegistryWith`
  unfoldable pub discover_cloud_registry : String → String → Outcome (Option CloudRegistry)
  discover_cloud_registry api_address token =
      if api_address == "" || token == ""
      then ok none
      else (net.parse_host api_address >>= λ parsed. require_host parsed >>= λ host.
          net.for_comparison host >>= λ api_host.
          registry_of token (net.discover_service_url api_host))

-- `strings.ReplaceAll(host, "-", "__")`
unfoldable pub replace_dashes : String → String
replace_dashes String.[] = String.[]
replace_dashes (String.◌∷◌ c s) =
    let rest = replace_dashes s in
    if eqb (code c) b'-' then String.◌∷◌ "_" (String.◌∷◌ "_" rest) else String.◌∷◌ c rest

-- `strings.ReplaceAll(key, ".", "_")`
unfoldable pub replace_dots : String → String
replace_dots String.[] = String.[]
replace_dots (String.◌∷◌ c s) =
    let rest = replace_dots s in
    if eqb (code c) b'.' then String.◌∷◌ "_" rest else String.◌∷◌ c rest

-- `tfTokenEnvKey`
unfoldable pub tf_token_env_key : String → String
unfolding replace_dashes replace_dots
tf_token_env_key host = "TF_TOKEN_" <> replace_dots (replace_dashes host)

-- `os.Getenv(key) == ""`
abbrev pub is_unset : Option String → Bool
is_unset none = true
is_unset (some value) = value == ""

-- `injectRegistryToken`: whether it warns, and the environment afterwards
unfoldable pub inject_registry_token :
    Outcome (Option CloudRegistry) → Dict String → Outcome (Bool × Dict String)
unfolding tf_token_env_key
inject_registry_token (err e) env = ok (true, env)
inject_registry_token panic env = panic
inject_registry_token (ok none) env = ok (false, env)
inject_registry_token (ok (some reg)) env = ok (
  false,
  if is_unset (lookup (tf_token_env_key reg.host) env)
      then insert (tf_token_env_key reg.host) reg.token env
      else env,
)

-- `credentialsForRegistry`: the tokens by host, or nil
unfoldable pub credentials_for_registry : Option CloudRegistry → Option (Dict String)
credentials_for_registry none = none
credentials_for_registry (some reg) = some ((reg.host, reg.token) ∷ [])

-- `cloudRegistryCredentials`: an error counts as no registry.
unfoldable pub cloud_registry_credentials : Outcome (Option CloudRegistry) → Option (Dict String)
unfolding credentials_for_registry
cloud_registry_credentials (ok reg) = credentials_for_registry reg
cloud_registry_credentials _ = credentials_for_registry none
