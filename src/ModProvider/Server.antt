-- ===== src/ModProvider/Server.antt =====
-- pkg/modprovider/server.go: the state of the provider, and how requests change it. Requests come with what
-- the decoding of their arguments ends in, and the handlers of the module's resource (`ModProvider/Handlers`)
-- are an argument, `serve`.
use pulumi_terraform_module.Prelude.{
  String, ◌<>◌, Bool, true, false, Option, none, some, List, [], ◌∷◌, ◌==◌, if◌then◌else◌,
}
use pulumi_terraform_module.Prelude.Outcome.{Outcome, ok, err, panic, ◌>>=◌}
use pulumi_terraform_module.Prelude.Dict.{Dict}
use pulumi_terraform_module.Pulumi.Json.{Members}
use pulumi_terraform_module.Pulumi.Value
use pulumi_terraform_module.Pulumi.Value.{PropertyValue, PropertyMap}
use pulumi_terraform_module.ModProvider.Config.{
  module_executor_variable_name, clean_providers_config, fixup_providers_config,
}
use pulumi_terraform_module.ModProvider.Overrides.{ModuleSchemaOverride}
use pulumi_terraform_module.ModProvider.Parameters.{ParameterizeArgs}
use pulumi_terraform_module.ModProvider.Schema.Infer.{InferredModuleSchema, PropertySpec}
use pulumi_terraform_module.ModProvider.Schema.Combine.{
  PackageSpec, pulumi_schema_for_module, infer_package_version,
}
pub mod Reachable

-- The configuration of a package: `Config.InferredModuleSchema`, which may be nil
abbrev pub Params : Type 0
Params = ParameterizeArgs (Option InferredModuleSchema)

-- `server`
pub record Server : Type 0 where
  pub params : Option Params
  pub package_name : String
  pub package_version : String
  pub inferred_module_schema : Option InferredModuleSchema
  pub provider_config : PropertyMap
  pub module_executor : String
  pub supports_views : Bool

-- `StartServer`
abbrev pub start_server : Server
start_server = record {
  params = none;
  package_name = "";
  package_version = "";
  inferred_module_schema = none;
  provider_config = PropertyMap.end;
  module_executor = "";
  supports_views = false;
}

-- `Handshake`
unfoldable pub handshake : Bool → Server → Outcome (Unit {0}) × Server
handshake false s = (err "requires views support", record s { supports_views = false })
handshake true s = (ok tt, record s { supports_views = true })

abbrev pub keep_config : Outcome PropertyMap → Server → Outcome (Unit {0}) × Server
keep_config (ok config) s = (ok tt, record s { provider_config = config })
keep_config (err e) s = (err e, s)
keep_config panic s = (panic, s)

-- `CheckConfig`, of properties that decode to `config`
unfoldable pub check_config : Outcome PropertyMap → Server → Outcome (Unit {0}) × Server
check_config config s =
    if s.supports_views then keep_config config s else (err "requires views support", s)

-- The executor that a configuration names: one that has a value (`HasValue` of the SDK) takes effect if it
-- is a string, and otherwise the variable of the environment does.
abbrev pub text_or : PropertyValue → String → String
text_or (PropertyValue.string executor) old = executor
text_or other old = old

abbrev pub executor_of : (PropertyValue → Bool) → Option PropertyValue → String → String → String
executor_of has_value none env_executor old = env_executor
executor_of has_value (some v) env_executor old =
    if has_value v then text_or v old else env_executor

-- `Configure`, of properties that decode to `config`
unfoldable pub configure :
    (PropertyValue → Bool) → Outcome PropertyMap → String → Server → Outcome (Unit {0}) × Server
configure has_value (ok config) env_executor s = (
  ok tt,
  record s {
    provider_config = config;
    module_executor =
        executor_of has_value (Value.find module_executor_variable_name config) env_executor
          s.module_executor;
  },
)
configure has_value (err e) env_executor s = (err e, s)
configure has_value panic env_executor s = (panic, s)

-- The parameters are kept before the schema is inferred.
abbrev pub with_params : Params → Server → Server
with_params p s = record s {
  params = some p;
  package_name = p.package_name;
  package_version = infer_package_version p.module_version;
}

abbrev pub keep_schema : Outcome InferredModuleSchema → Server → Outcome (String × String) × Server
keep_schema (ok schema) s =
    (ok (s.package_name, s.package_version), record s { inferred_module_schema = some schema })
keep_schema (err e) s = (err e, s)
keep_schema panic s = (panic, s)

-- `Parameterize`: `infer` is the inference of the schema, with an executor, for a package and a source
unfoldable pub parameterize :
    Outcome Params
    → (String → Params → Outcome InferredModuleSchema)
    → String
    → Server
    → Outcome (String × String) × Server
parameterize (err e) infer env_executor s = (err e, s)
parameterize panic infer env_executor s = (panic, s)
parameterize (ok p) infer env_executor s =
    keep_schema (infer (if s.module_executor == "" then env_executor else s.module_executor) p)
      (with_params p s)

module _ {V : Type 0} (new_version : String → Option V) (less_than greater_than : V → V → Bool)
    (overrides : String → Outcome (List (ModuleSchemaOverride (Option InferredModuleSchema)))) where
  abbrev pub supplied : Params → Option InferredModuleSchema
  supplied p = elim p.config [ none ↦ none | some schema ↦ schema ]

  abbrev pub answer_schema :
      Outcome (PackageSpec × InferredModuleSchema) → Server → Outcome PackageSpec × Server
  answer_schema (ok (spec, schema)) s = (ok spec, record s { inferred_module_schema = some schema })
  answer_schema (err e) s = (err e, s)
  answer_schema panic s = (panic, s)

  -- The fields of a nil schema cannot be read.
  abbrev pub schema_of :
      Params → Option InferredModuleSchema → Outcome (PackageSpec × InferredModuleSchema)
  schema_of p none = panic
  schema_of p (some schema) = overrides p.package_name >>= λ built_in.
      pulumi_schema_for_module new_version less_than greater_than p.module_source p.module_version
        p.package_name (supplied p) built_in schema

  abbrev pub get_schema_with : Option Params → Server → Outcome PackageSpec × Server
  get_schema_with none s = (err "expected Parameterize() call before a GetSchema() call", s)
  get_schema_with (some p) s = answer_schema (schema_of p s.inferred_module_schema) s

  -- `GetSchema`
  unfoldable pub get_schema : Server → Outcome PackageSpec × Server
  get_schema s = get_schema_with s.params s

abbrev pub keys_of : Dict PropertySpec → List String
keys_of [] = []
keys_of ((key, p) ∷ rest) = key ∷ keys_of rest

-- `moduleTypeToken`
abbrev pub module_type_token : String → String
module_type_token package_name = package_name <> ":index:Module"

module _ {A : Type 0} (unmarshal_map : String → Option Members)
    (new_property_map : Members → PropertyMap)
    (serve : String
      → String
      → Dict PropertyMap
      → InferredModuleSchema
      → String
      → String
      → Outcome A) where
  -- The call of a handler: nil parameters and a nil schema cannot be read.
  abbrev pub serve_with :
      Option Params → Option InferredModuleSchema → Dict PropertyMap → Server → Outcome A
  serve_with params none providers s = panic
  serve_with none (some schema) providers s = panic
  serve_with (some p) (some schema) providers s =
      serve p.module_source p.module_version
        (fixup_providers_config providers (keys_of schema.providers_config)) schema s.package_name
        s.module_executor

  -- The body of the requests for resources, which differ in the handler.
  unfoldable pub dispatch : String → Server → Outcome A
  unfolding clean_providers_config fixup_providers_config
  dispatch type s =
      if type == module_type_token s.package_name
      then (clean_providers_config unmarshal_map new_property_map s.provider_config >>= λ providers.
          serve_with s.params s.inferred_module_schema providers s)
      else err "type is not supported yet"

  -- `Diff`
  unfoldable pub handle_diff : String → Server → Outcome A
  unfolding dispatch
  handle_diff type s = dispatch type s

  -- `Create`
  unfoldable pub handle_create : String → Server → Outcome A
  unfolding dispatch
  handle_create type s = dispatch type s

  -- `Update`
  unfoldable pub handle_update : String → Server → Outcome A
  unfolding dispatch
  handle_update type s = dispatch type s

  -- `Delete`
  unfoldable pub handle_delete : String → Server → Outcome A
  unfolding dispatch
  handle_delete type s = dispatch type s

  -- `Read`
  unfoldable pub handle_read : String → Server → Outcome A
  unfolding dispatch
  handle_read type s = dispatch type s

-- `Check`, which passes on the schema as it is
unfoldable pub handle_check {ℓ} :
    {A : Type ℓ} → (Option InferredModuleSchema → Outcome A) → String → Server → Outcome A
handle_check serve type s =
    if type == module_type_token s.package_name
    then serve s.inferred_module_schema
    else err "type is not supported yet"

-- `Construct`
abbrev pub construct : String → Outcome (Unit {0})
construct type = err ("unsupported type: " <> type)
