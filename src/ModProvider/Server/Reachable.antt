-- ===== src/ModProvider/Server/Reachable.antt =====
-- The states that requests lead to.
use pulumi_terraform_module.Prelude.{
  String, ◌≡◌, refl, sym, ◌∙◌, Bool, true, false, Option, none, some, some-injective, List,
  if◌then◌else◌, eq_refl,
}
use pulumi_terraform_module.Prelude.Outcome.{Outcome, ok, err, panic}
use pulumi_terraform_module.Prelude.Dict.{Dict}
use pulumi_terraform_module.Pulumi.Json.{Members}
use pulumi_terraform_module.Pulumi.Value.{PropertyValue, PropertyMap}
use pulumi_terraform_module.ModProvider.Config.{clean_providers_config, fixup_providers_config}
use pulumi_terraform_module.ModProvider.Overrides.{ModuleSchemaOverride}
use pulumi_terraform_module.ModProvider.Schema.Infer.{InferredModuleSchema}
use pulumi_terraform_module.ModProvider.Schema.Combine.{PackageSpec, infer_package_version}
use pulumi_terraform_module.ModProvider.Server.{
  Params, Server, start_server, handshake, check_config, configure, keep_config, parameterize,
  keep_schema, with_params, get_schema, get_schema_with, answer_schema, dispatch, keys_of,
  module_type_token,
}

module _ {V : Type 0} (new_version : String → Option V) (less_than greater_than : V → V → Bool)
    (overrides : String → Outcome (List (ModuleSchemaOverride (Option InferredModuleSchema)))) where
  -- A request, whatever it ends in. The handlers of resources do not change the state.
  pub data Requested (s : Server) : Server → Type 0 where
    shook : (views : Bool) → Requested s ((handshake views s).1)
    checked : (config : Outcome PropertyMap) → Requested s ((check_config config s).1)
    configured :
        (has_value : PropertyValue → Bool) (config : Outcome PropertyMap) (env_executor : String)
        → Requested s ((configure has_value config env_executor s).1)
    parameterized :
        (p : Outcome Params) (infer : String → Params → Outcome InferredModuleSchema)
        (env_executor : String)
        → Requested s ((parameterize p infer env_executor s).1)
    asked : Requested s ((get_schema new_version less_than greater_than overrides s).1)

  pub data Reached : Server → Type 0 where
    started : Reached start_server
    next : {s t : Server} → Reached s → Requested s t → Reached t

-- A schema comes with parameters, and the package is that of the parameters.
pub record IsConsistent (s : Server) : Type 0 where
  pub schema_has_params :
      (schema : InferredModuleSchema)
      → s.inferred_module_schema ≡ some schema
      → (p : Params) × (s.params ≡ some p)
  pub package_of_params :
      (p : Params)
      → s.params ≡ some p
      → (s.package_name ≡ p.package_name)
        × (s.package_version ≡ infer_package_version p.module_version)

-- A change of the other fields.
same_fields :
    (s t : Server)
    → t.params ≡ s.params
    → t.inferred_module_schema ≡ s.inferred_module_schema
    → t.package_name ≡ s.package_name
    → t.package_version ≡ s.package_version
    → IsConsistent s
    → IsConsistent t
same_fields s t params schema name version h = record {
  schema_has_params = λ x has. rw params (h.schema_has_params x (sym schema ∙ has));
  package_of_params = λ p has. rw (name, version) (h.package_of_params p (sym params ∙ has));
}

with_params-IsConsistent : (p : Params) (s : Server) → IsConsistent (with_params p s)
with_params-IsConsistent p s = record {
  schema_has_params = λ x has. (p, refl);
  package_of_params = λ q has. rw (some-injective p q has) (refl, refl);
}

keep_schema-IsConsistent :
    (inferred : Outcome InferredModuleSchema) (p : Params) (s : Server)
    → IsConsistent ((keep_schema inferred (with_params p s)).1)
keep_schema-IsConsistent (ok schema) p s = record {
  schema_has_params = λ x has. (p, refl);
  package_of_params = λ q has. rw (some-injective p q has) (refl, refl);
}
keep_schema-IsConsistent (err e) p s = with_params-IsConsistent p s
keep_schema-IsConsistent panic p s = with_params-IsConsistent p s

parameterize-IsConsistent :
    (p : Outcome Params) (infer : String → Params → Outcome InferredModuleSchema)
    (env_executor : String) (s : Server)
    → IsConsistent s
    → IsConsistent ((parameterize p infer env_executor s).1)
unfolding parameterize
parameterize-IsConsistent (ok p) infer env_executor s h = keep_schema-IsConsistent _ p s
parameterize-IsConsistent (err e) infer env_executor s h = h
parameterize-IsConsistent panic infer env_executor s h = h

check_config-IsConsistent :
    (config : Outcome PropertyMap) (s : Server)
    → IsConsistent s
    → IsConsistent ((check_config config s).1)
unfolding check_config
check_config-IsConsistent config s h = by_views s.supports_views
  where
    kept : (c : Outcome PropertyMap) → IsConsistent ((keep_config c s).1)
    kept (ok c) = same_fields s _ refl refl refl refl h
    kept (err e) = h
    kept panic = h

    by_views :
        (b : Bool)
        → IsConsistent ((if b then keep_config config s else (err "requires views support", s)).1)
    by_views true = kept config
    by_views false = h

configure-IsConsistent :
    (has_value : PropertyValue → Bool) (config : Outcome PropertyMap) (env_executor : String)
    (s : Server)
    → IsConsistent s
    → IsConsistent ((configure has_value config env_executor s).1)
unfolding configure
configure-IsConsistent has_value (ok config) env_executor s h =
    same_fields s _ refl refl refl refl h
configure-IsConsistent has_value (err e) env_executor s h = h
configure-IsConsistent has_value panic env_executor s h = h

handshake-IsConsistent :
    (views : Bool) (s : Server) → IsConsistent s → IsConsistent ((handshake views s).1)
unfolding handshake
handshake-IsConsistent true s h = same_fields s _ refl refl refl refl h
handshake-IsConsistent false s h = same_fields s _ refl refl refl refl h

module _ {V : Type 0} (new_version : String → Option V) (less_than greater_than : V → V → Bool)
    (overrides : String → Outcome (List (ModuleSchemaOverride (Option InferredModuleSchema)))) where
  answer_schema-IsConsistent :
      (p : Params) (result : Outcome (PackageSpec × InferredModuleSchema)) (s : Server)
      → s.params ≡ some p
      → IsConsistent s
      → IsConsistent ((answer_schema new_version less_than greater_than overrides result s).1)
  answer_schema-IsConsistent p (ok (spec, schema)) s known h = record {
    schema_has_params = λ x has. (p, known);
    package_of_params = h.package_of_params;
  }
  answer_schema-IsConsistent p (err e) s known h = h
  answer_schema-IsConsistent p panic s known h = h

  get_schema-IsConsistent :
      (s : Server)
      → IsConsistent s
      → IsConsistent ((get_schema new_version less_than greater_than overrides s).1)
  unfolding get_schema
  get_schema-IsConsistent s h = by_params s.params refl
    where
      by_params :
          (params : Option Params)
          → s.params ≡ params
          → IsConsistent ((get_schema_with new_version less_than greater_than overrides params s).1)
      by_params none e = h
      by_params (some p) e = answer_schema-IsConsistent p _ s e h

  Requested-IsConsistent :
      {s t : Server}
      → Requested new_version less_than greater_than overrides s t
      → IsConsistent s
      → IsConsistent t
  Requested-IsConsistent {s} (shook views) h = handshake-IsConsistent views s h
  Requested-IsConsistent {s} (checked config) h = check_config-IsConsistent config s h
  Requested-IsConsistent {s} (configured has_value config env_executor) h =
      configure-IsConsistent has_value config env_executor s h
  Requested-IsConsistent {s} (parameterized p infer env_executor) h =
      parameterize-IsConsistent p infer env_executor s h
  Requested-IsConsistent {s} asked h = get_schema-IsConsistent s h

  -- In every state that requests lead to, whatever they ended in, a schema comes with parameters, and the
  -- name and the version of the package are those of the parameters.
  pub Reached-IsConsistent :
      {s : Server} → Reached new_version less_than greater_than overrides s → IsConsistent s
  Reached-IsConsistent started = record {
    schema_has_params = λ x has. cc;
    package_of_params = λ p has. cc;
  }
  Reached-IsConsistent (next r step) = Requested-IsConsistent step (Reached-IsConsistent r)

  -- In every state that requests lead to and that has a schema, a request for the module's resource reaches
  -- its handler, with the source and the version of the parameters, whose package it is, and with the
  -- configuration of the providers, if that can be read.
  pub dispatch-Reached :
      {A : Type 0} (unmarshal_map : String → Option Members)
      (new_property_map : Members → PropertyMap)
      (serve : String
        → String
        → Dict PropertyMap
        → InferredModuleSchema
        → String
        → String
        → Outcome A)
      (s : Server) (schema : InferredModuleSchema) (providers : Dict PropertyMap)
      → Reached new_version less_than greater_than overrides s
      → s.inferred_module_schema ≡ some schema
      → clean_providers_config unmarshal_map new_property_map s.provider_config ≡ ok providers
      → (p : Params) × (s.params ≡ some p)
        × (dispatch unmarshal_map new_property_map serve (module_type_token p.package_name) s
            ≡ serve p.module_source p.module_version
                (fixup_providers_config providers (keys_of schema.providers_config))
                schema
                p.package_name
                s.module_executor)
  unfolding dispatch
  dispatch-Reached unmarshal_map new_property_map serve s schema providers r has clean =
      let h = Reached-IsConsistent r in
      let (p, known) = h.schema_has_params schema has in
      let (name, version) = h.package_of_params p known in
      (p, known, rw (name, eq_refl (module_type_token p.package_name), clean, known, has) refl)
