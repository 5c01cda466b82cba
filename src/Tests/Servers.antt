-- ===== src/Tests/Servers.antt =====
-- The state of the provider at concrete requests.
use pulumi_terraform_module.Prelude.{
  String, ◌<>◌, ◌≡◌, refl, Bool, true, false, Option, none, some, List, [],
}
use pulumi_terraform_module.Prelude.Outcome.{Outcome, ok, err, panic}
use pulumi_terraform_module.Prelude.Dict.{Dict}
use pulumi_terraform_module.Pulumi.Value.{PropertyMap, string, entry, find}
use pulumi_terraform_module.ModProvider.Config.{
  clean_providers_config, clean_loop, fixup_providers_config,
}
use pulumi_terraform_module.ModProvider.Overrides.{ModuleSchemaOverride}
use pulumi_terraform_module.ModProvider.Schema.Infer.{InferredModuleSchema, empty_schema}
use pulumi_terraform_module.ModProvider.Schema.Combine.{infer_package_version}
use pulumi_terraform_module.ModProvider.Server.{
  Params, Server, start_server, handshake, configure, parameterize, get_schema, dispatch, keys_of,
  module_type_token,
}
use pulumi_terraform_module.ModProvider.Server.Reachable.{
  Reached, started, next, shook, configured, parameterized, IsConsistent, Reached-IsConsistent,
  dispatch-Reached,
}

abbrev vpc : Params
vpc = record { module_source = "aws/vpc"; module_version = ""; package_name = "vpc"; config = none }

abbrev settings : PropertyMap
settings = entry "executor" (string "opentofu") PropertyMap.end

abbrev no_overrides : String → Outcome (List (ModuleSchemaOverride (Option InferredModuleSchema)))
no_overrides name = ok []

abbrev never : String → String → Bool
never a b = false

abbrev infer : String → Params → Outcome InferredModuleSchema
infer executor p = ok empty_schema

abbrev ready : Server
ready = record {
  params = some vpc;
  package_name = "vpc";
  package_version = "0.0.1";
  inferred_module_schema = some empty_schema;
  provider_config = settings;
  module_executor = "opentofu";
  supports_views = true;
}

ready-Reached : Reached some never never no_overrides ready
unfolding handshake configure parameterize infer_package_version find
ready-Reached =
    next (next (next started (shook true)) (configured (λ v. true) (ok settings) ""))
      (parameterized (ok vpc) infer "")

Reached-IsConsistent_example : IsConsistent ready
Reached-IsConsistent_example = Reached-IsConsistent some never never no_overrides ready-Reached

clean_run : clean_providers_config (λ text. none) (λ m. PropertyMap.end) settings ≡ ok []
unfolding clean_providers_config clean_loop
clean_run = refl

abbrev serve :
    String → String → Dict PropertyMap → InferredModuleSchema → String → String → Outcome String
serve source version providers schema package_name executor = ok (source <> " by " <> executor)

dispatch-Reached_example :
    (p : Params) × (some vpc ≡ some p)
    × (dispatch (λ text. none) (λ m. PropertyMap.end) serve (module_type_token p.package_name) ready
        ≡ serve p.module_source p.module_version
            (fixup_providers_config [] (keys_of empty_schema.providers_config))
            empty_schema
            p.package_name
            "opentofu")
dispatch-Reached_example =
    dispatch-Reached some never never no_overrides (λ text. none) (λ m. PropertyMap.end) serve ready
      empty_schema [] ready-Reached refl clean_run

-- After an inference that failed, the schema cannot be read.
get_schema_run :
    (get_schema some never never no_overrides
      ((parameterize (ok vpc) (λ executor p. err "inference") "" start_server).1)).0
    ≡ panic
unfolding get_schema parameterize
get_schema_run = refl
