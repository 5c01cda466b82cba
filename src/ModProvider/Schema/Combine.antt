-- ===== src/ModProvider/Schema/Combine.antt =====
-- pkg/modprovider/tfmodules.go and pkg/modprovider/schema.go: a partial schema over an inferred one, and the
-- schema of the package. A pointer in a map may be nil, and an assignment through a nil one panics.
use pulumi_terraform_module.Prelude.{
  String, ◌<>◌, Bool, true, false, not, ◌||◌, Option, none, some, List, [], ◌∷◌, ◌==◌,
  if◌then◌else◌,
}
use pulumi_terraform_module.Prelude.Outcome.{Outcome, ok, err, panic, ◌>>=◌}
use pulumi_terraform_module.Prelude.Dict.{Dict, insert, lookup}
use pulumi_terraform_module.ModProvider.Config.{module_executor_variable_name}
use pulumi_terraform_module.ModProvider.Overrides.{
  ModuleSchemaOverride, has_builtin_overrides, add_required,
}
use pulumi_terraform_module.ModProvider.Schema.{
  TypeSpec, make_type, Nested, nil, spec, ComplexTypeSpec, SupportingTypes, string_type,
}
use pulumi_terraform_module.ModProvider.Schema.Infer.{PropertySpec, InferredModuleSchema}
pub mod Laws

-- A loop of `combineInferredModuleSchema` over the entries of the partial map.
unfoldable pub combine_with {ℓ} :
    {A : Type ℓ}
    → (Option A → Option A → Outcome (Option A))
    → Dict (Option A)
    → Dict (Option A)
    → Outcome (Dict (Option A))
combine_with merge [] existing = ok existing
combine_with merge ((name, p) ∷ rest) existing = elim (lookup name existing) [
  | none ↦ combine_with merge rest (insert name p existing)
  | some e ↦ merge e p >>= λ merged. combine_with merge rest (insert name merged existing)
]

abbrev pub or_old : String → String → String
or_old old new = if new == "" then old else new

-- `if input.Items != nil { ... }; if input.AdditionalProperties != nil { ... }`: the element types
abbrev pub merged_items : Nested → Nested → Nested → Nested
merged_items old items (spec additional) = nil
merged_items old (spec item) nil = spec item
merged_items old nil nil = old

abbrev pub merged_additional : Nested → Nested → Nested → Nested
merged_additional old items (spec additional) = spec additional
merged_additional old (spec item) nil = nil
merged_additional old nil nil = old

abbrev pub is_nil : Nested → Bool
is_nil nil = true
is_nil (spec t) = false

abbrev pub merged_input_type : TypeSpec → TypeSpec → TypeSpec
merged_input_type (make_type type ref items additional) (make_type type' ref' items' additional') =
    make_type (or_old type type') (or_old ref ref') (merged_items items items' additional')
      (merged_additional additional items' additional')

-- `if output.Ref != "" { ... }`
abbrev pub output_ref : String → TypeSpec → TypeSpec
output_ref ref' (make_type type ref items additional) =
    if ref' == "" then make_type type ref items additional else make_type "" ref' nil nil

-- `if output.Type != "" { ... }`
abbrev pub output_type : String → TypeSpec → TypeSpec
output_type type' (make_type type ref items additional) =
    if type' == "" then make_type type ref items additional else make_type type' "" items additional

-- The element types, either of which clears the reference.
abbrev pub output_elements : Nested → Nested → TypeSpec → TypeSpec
output_elements items' additional' (make_type type ref items additional) =
    make_type type (if is_nil items' then (if is_nil additional' then ref else "") else "")
      (merged_items items items' additional') (merged_additional additional items' additional')

abbrev pub merged_output_type : TypeSpec → TypeSpec → TypeSpec
merged_output_type old (make_type type' ref' items' additional') =
    output_elements items' additional' (output_type type' (output_ref ref' old))

-- Whether a partial property assigns anything.
abbrev pub type_touches : TypeSpec → Bool
type_touches (make_type type ref items additional) =
    not (type == "") || not (ref == "") || not (is_nil items) || not (is_nil additional)

abbrev pub touches : PropertySpec → Bool
touches p = not (p.description == "") || p.hides || type_touches p.spec

abbrev pub merge_property :
    (TypeSpec → TypeSpec → TypeSpec)
    → Option PropertySpec
    → Option PropertySpec
    → Outcome (Option PropertySpec)
merge_property merged e none = panic
merge_property merged none (some p) = if touches p then panic else ok none
merge_property merged (some e) (some p) = ok (
    some (record e {
      description = or_old e.description p.description;
      hides = if p.hides then true else e.hides;
      spec = merged e.spec p.spec;
    }))

abbrev pub merge_types :
    Option ComplexTypeSpec → Option ComplexTypeSpec → Outcome (Option ComplexTypeSpec)
merge_types e none = panic
merge_types none (some c) = if c.type == "" then ok none else panic
merge_types (some e) (some c) = ok (some (record e { type = or_old e.type c.type }))

-- `combineInferredModuleSchema`
unfoldable pub combine_schema :
    InferredModuleSchema → Option InferredModuleSchema → Outcome InferredModuleSchema
unfolding combine_with add_required
combine_schema s none = ok s
combine_schema s (some p) =
    combine_with (merge_property merged_input_type) p.inputs s.inputs >>= λ inputs.
    combine_with (merge_property merged_output_type) p.outputs s.outputs >>= λ outputs.
    combine_with merge_types p.supporting_types s.supporting_types >>= λ types. ok (record s {
      inputs = inputs;
      outputs = outputs;
      supporting_types = types;
      required_inputs = add_required s.required_inputs p.required_inputs;
      non_nil_outputs = add_required s.non_nil_outputs p.non_nil_outputs;
    })

-- `inferPackageVersion`
unfoldable pub infer_package_version : String → String
infer_package_version version = if version == "" then "0.0.1" else version

-- The values that are not nil.
unfoldable pub non_nil {ℓ} : {A : Type ℓ} → Dict (Option A) → Dict A
non_nil [] = []
non_nil ((key, none) ∷ rest) = non_nil rest
non_nil ((key, some a) ∷ rest) = (key, a) ∷ non_nil rest

-- `schema.PackageSpec`, as far as it depends on the module
pub record PackageSpec : Type 0 where
  pub name : String
  pub version : String
  pub types : Dict ComplexTypeSpec
  pub provider_inputs : Dict PropertySpec
  pub resource_token : String
  pub inputs : Dict PropertySpec
  pub required_inputs : List String
  pub outputs : Dict PropertySpec
  pub required_outputs : List String

abbrev pub module_executor_variable : PropertySpec
module_executor_variable = record {
  description = "Sets the executor used to run the module.";
  hides = false;
  spec = string_type;
  environment = "PULUMI_TERRAFORM_MODULE_EXECUTOR" ∷ [];
}

-- The variable for the executor joins those of the providers.
abbrev pub with_executor_variable : InferredModuleSchema → InferredModuleSchema
with_executor_variable s = record s {
  providers_config =
      insert module_executor_variable_name module_executor_variable s.providers_config;
}

unfoldable pub package_spec : String → String → InferredModuleSchema → PackageSpec
unfolding non_nil infer_package_version
package_spec name version s = record {
  name = name;
  version = infer_package_version version;
  types = non_nil s.supporting_types;
  provider_inputs = s.providers_config;
  resource_token = name <> ":index:Module";
  inputs = non_nil s.inputs;
  required_inputs = s.required_inputs;
  outputs = non_nil s.outputs;
  required_outputs = s.non_nil_outputs;
}

-- The partial schema: the one that is supplied, or else that of an override, or else none
abbrev pub partial_schema :
    Option InferredModuleSchema → Option (Option InferredModuleSchema) → Option InferredModuleSchema
partial_schema (some supplied) override = some supplied
partial_schema none none = none
partial_schema none (some override) = override

module _ {V : Type 0} (new_version : String → Option V)
    (less_than greater_than : V → V → Bool) where
  -- `pulumiSchemaForModule`: the schema of the package, and what the call makes of the inferred one;
  -- `overrides` are those of `parseModuleSchemaOverrides`
  unfoldable pub pulumi_schema_for_module :
      String
      → String
      → String
      → Option InferredModuleSchema
      → List (ModuleSchemaOverride (Option InferredModuleSchema))
      → InferredModuleSchema
      → Outcome (PackageSpec × InferredModuleSchema)
  unfolding combine_schema package_spec
  pulumi_schema_for_module source version name supplied overrides inferred =
      has_builtin_overrides new_version less_than greater_than source version overrides
      >>= λ override. combine_schema inferred (partial_schema supplied override) >>= λ s.
          ok (package_spec name version (with_executor_variable s), with_executor_variable s)
