-- ===== src/ModProvider/Parameters.antt =====
-- pkg/modprovider/server.go: the parameters of the provider, from the arguments of
-- `pulumi package add terraform-module` or from the JSON of a generated SDK. The file system, the
-- registry, the parsing of versions and URLs, and JSON are parameters; `V` is the type of versions and
-- `C` that of configurations.
use pulumi_terraform_module.Prelude.{
  String, Bool, true, false, not, ◌||◌, Option, none, some, List, [], ◌∷◌, ◌==◌, if◌then◌else◌,
}
use pulumi_terraform_module.Prelude.Outcome.{Outcome, ok, err, panic, ◌>>=◌}
use pulumi_terraform_module.ModProvider.Schema.Versions.{Registry, latest_module_version}
pub mod Laws

-- `ParameterizeArgs`
pub record ParameterizeArgs (C : Type 0) : Type 0 where
  pub module_source : String
  pub module_version : String
  pub package_name : String
  pub config : Option C

-- `ParameterizeRequest`: arguments, a value, or neither
pub data ParameterizeRequest : Type 0 where
  args_of : List String → ParameterizeRequest
  value_of : String → ParameterizeRequest
  malformed : ParameterizeRequest

-- What the code asks of others.
pub record Surroundings (V C : Type 0) : Type 0 where
  pub dir_exists : String → Bool
  pub is_valid_version : String → Bool
  pub referenced_version_in_url : String → Option String
  pub registry : Registry V
  -- `Version.String`
  pub version_string : V → String
  -- `unmarshallConfigFile`
  pub unmarshal_config_file : String → String → Outcome C
  pub unmarshal_args : String → Outcome (ParameterizeArgs C)

abbrev pub is_config_flag : String → Bool
is_config_flag arg = arg == "--config" || arg == "-c"

-- `extractConfigParamFromArgs`: the arguments before the flag, and the one after it
unfoldable pub extract_config_param : List String → List String × Option String
extract_config_param [] = ([], none)
extract_config_param (arg ∷ []) = (arg ∷ [], none)
extract_config_param (arg ∷ next ∷ rest) =
    let found = extract_config_param (next ∷ rest) in
    if is_config_flag arg then ([], some next) else (arg ∷ found.0, found.1)

module _ {V C : Type 0} (env : Surroundings V C) where
  -- `applyConfigWhenAvailable`
  unfoldable pub with_config :
      Option String → String → String → String → Outcome (ParameterizeArgs C)
  with_config none source version name = ok (record {
    module_source = source;
    module_version = version;
    package_name = name;
    config = none;
  })
  with_config (some file) source version name = do
    config ← env.unmarshal_config_file file name
    ok (record {
      module_source = source;
      module_version = version;
      package_name = name;
      config = some config;
    })

  -- The version in the URL, if it is valid
  abbrev pub valid_reference : Option String → Option String
  valid_reference none = none
  valid_reference (some version) = if env.is_valid_version version then some version else none

  -- The version of a remote module that is given without one
  unfoldable pub remote_version : String → Outcome String
  unfolding latest_module_version
  remote_version source = elim (valid_reference (env.referenced_version_in_url source)) [
    | some version ↦ ok version
    | none ↦ do v ← latest_module_version env.registry source; ok (env.version_string v)
  ]

  -- The case of two arguments
  unfoldable pub parse_two : Option String → String → String → Outcome (ParameterizeArgs C)
  unfolding with_config remote_version
  parse_two file source name =
      if env.dir_exists source
      then with_config file source "" name
      else if not (env.is_valid_version name)
      then (do version ← remote_version source; with_config file source version name)
      else err "package name argument is required"

  unfoldable pub parse_positional : Option String → List String → Outcome (ParameterizeArgs C)
  unfolding parse_two with_config
  parse_positional file (source ∷ name ∷ []) = parse_two file source name
  parse_positional file (source ∷ version ∷ name ∷ []) = with_config file source version name
  parse_positional file args = err "expected 2 or 3 arguments"

  -- `parseParameterizeRequest`
  unfoldable pub parse_parameterize_request : ParameterizeRequest → Outcome (ParameterizeArgs C)
  unfolding extract_config_param parse_positional
  parse_parameterize_request (args_of args) =
      parse_positional ((extract_config_param args).1) ((extract_config_param args).0)
  parse_parameterize_request (value_of text) = do
    args ← env.unmarshal_args text
    if args.module_source == "" then err "module parameter cannot be empty" else ok args
  parse_parameterize_request malformed = panic
