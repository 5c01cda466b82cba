-- ===== src/ModProvider/Schema/Infer.antt =====
-- pkg/modprovider/tfmodules.go: the schema of a module, from its variables and outputs. The content of
-- the module, as its loader gives it, is an argument.
use Prim.Native.Char.{code}
use pulumi_terraform_module.Prelude.{
  String, ◌<>◌, Bool, true, false, not, ◌||◌, ◌&&◌, Option, none, some, List, [], ◌∷◌, ◌++◌, ◌==◌,
  if◌then◌else◌, eqb,
}
use pulumi_terraform_module.Prelude.Outcome.{Outcome, ok, err, panic, ◌>>=◌}
use pulumi_terraform_module.Prelude.Dict.{Dict, insert, lookup}
use pulumi_terraform_module.TfSandbox.Keys.{pulumi_top_level_key}
use pulumi_terraform_module.ModProvider.Schema.{
  CtyType, TypeSpec, SupportingTypes, ComplexTypeSpec, convert_type, string_type, any_type,
  array_type, map_type,
}
use pulumi_terraform_module.ModProvider.Schema.Expressions.{
  Expression, infer_expression_type, is_variable_reference,
}
pub mod Laws
pub mod Returns

pub record Variable : Type 0 where
  pub type : CtyType
  pub description : String
  pub sensitive : Bool
  pub nullable_set : Bool
  pub nullable : Bool
  pub has_default : Bool

pub record OutputDecl : Type 0 where
  pub expr : Expression
  pub description : String
  pub sensitive : Bool

-- `configs.Module`
pub record Module : Type 0 where
  pub required_providers : Option (List String)
  pub variables : Dict Variable
  pub outputs : Dict OutputDecl

-- `schema.PropertySpec`, with the variables of the environment that it has a default from
pub record PropertySpec : Type 0 where
  pub description : String
  pub hides : Bool
  pub spec : TypeSpec
  pub environment : List String

-- `InferredModuleSchema`, with its field mappings. A value of a map may be nil.
pub record InferredModuleSchema : Type 0 where
  pub inputs : Dict (Option PropertySpec)
  pub outputs : Dict (Option PropertySpec)
  pub supporting_types : SupportingTypes
  pub required_inputs : List String
  pub non_nil_outputs : List String
  pub providers_config : Dict PropertySpec
  pub provider_field_mappings : Dict String
  pub input_field_mappings : Dict String
  pub output_field_mappings : Dict String

abbrev pub empty_schema : InferredModuleSchema
empty_schema = record {
  inputs = [];
  outputs = [];
  supporting_types = [];
  required_inputs = [];
  non_nil_outputs = [];
  providers_config = [];
  provider_field_mappings = [];
  input_field_mappings = [];
  output_field_mappings = [];
}

-- `containsDash`
unfoldable pub contains_dash : String → Bool
contains_dash String.[] = false
contains_dash (String.◌∷◌ c s) = eqb (code c) b'-' || contains_dash s

-- `strings.ReplaceAll(_, "-", "_")`
unfoldable pub undash : String → String
undash String.[] = String.[]
undash (String.◌∷◌ c s) =
    let rest = undash s in if eqb (code c) b'-' then String.◌∷◌ "_" rest else String.◌∷◌ c rest

-- The name in Pulumi, and the mapping that is recorded for it.
abbrev pub pulumi_name : String → String
pulumi_name name = if contains_dash name then undash name else name

abbrev pub record_mapping : String → Dict String → Dict String
record_mapping name mappings =
    if contains_dash name then insert (undash name) name mappings else mappings

-- The loop over the required providers.
unfoldable pub infer_providers : List String → InferredModuleSchema → InferredModuleSchema
unfolding contains_dash undash
infer_providers [] s = s
infer_providers (name ∷ rest) s = infer_providers rest (record s {
  provider_field_mappings = record_mapping name s.provider_field_mappings;
  providers_config =
      insert (pulumi_name name)
        (record {
          description = "provider configuration for " <> pulumi_name name;
          hides = false;
          spec = map_type any_type;
          environment = [];
        })
        s.providers_config;
})

abbrev pub optionally : Option (List String) → List String
optionally none = []
optionally (some names) = names

abbrev pub is_optional : Variable → Bool
is_optional v = v.has_default || (v.nullable_set && v.nullable)

module _ (title : String → String) (pkg : String) where
  -- The input of a variable, under its key
  abbrev pub add_input :
      String
      → Variable
      → String
      → TypeSpec × SupportingTypes
      → InferredModuleSchema
      → InferredModuleSchema
  add_input name v key (t, types) s = record s {
    input_field_mappings = record_mapping name s.input_field_mappings;
    supporting_types = types;
    inputs =
        insert key
          (some (record {
            description = v.description;
            hides = v.sensitive;
            spec = t;
            environment = [];
          }))
          s.inputs;
    required_inputs = if is_optional v then s.required_inputs else s.required_inputs ++ (key ∷ []);
  }

  -- The loop over the variables.
  unfoldable pub infer_inputs : Dict Variable → InferredModuleSchema → Outcome InferredModuleSchema
  unfolding convert_type pulumi_top_level_key
  infer_inputs [] s = ok s
  infer_inputs ((name, v) ∷ rest) s = pulumi_top_level_key (pulumi_name name) >>= λ key.
      infer_inputs rest (
        add_input name v key (convert_type title pkg v.type (pulumi_name name) s.supporting_types)
          s)

-- `Inputs[_].TypeSpec`: a missing key reads as a nil pointer, and panics.
abbrev pub type_of : Option (Option PropertySpec) → Outcome TypeSpec
type_of none = panic
type_of (some none) = panic
type_of (some (some p)) = ok p.spec

-- The type of an output that refers to a variable, or of another one
abbrev pub output_type_by : Option String → Expression → InferredModuleSchema → Outcome TypeSpec
output_type_by (some variable) e s =
    pulumi_top_level_key variable >>= λ key. type_of (lookup (undash key) s.inputs)
output_type_by none e s = ok (infer_expression_type e)

abbrev pub add_output :
    String → OutputDecl → TypeSpec → String → InferredModuleSchema → InferredModuleSchema
add_output name o t key s = record s {
  output_field_mappings = record_mapping name s.output_field_mappings;
  outputs =
      insert key
        (some
          (record { description = o.description; hides = o.sensitive; spec = t; environment = [] }))
        s.outputs;
}

-- The loop over the outputs.
unfoldable pub infer_outputs : Dict OutputDecl → InferredModuleSchema → Outcome InferredModuleSchema
unfolding infer_expression_type is_variable_reference
infer_outputs [] s = ok s
infer_outputs ((name, o) ∷ rest) s = output_type_by (is_variable_reference o.expr) o.expr s >>= λ t.
    pulumi_top_level_key (pulumi_name name) >>= λ key.
    infer_outputs rest (add_output name o t key s)

-- `inferModuleSchema`, of a module that was loaded
unfoldable pub infer_module_schema :
    (String → String) → String → Module → Outcome InferredModuleSchema
unfolding infer_providers infer_inputs infer_outputs
infer_module_schema title pkg module_content =
    infer_inputs title pkg module_content.variables
      (infer_providers (optionally module_content.required_providers) empty_schema)
    >>= λ s. infer_outputs module_content.outputs s
