-- ===== src/ModProvider/Schema/Infer/Laws.antt =====
-- An inferred schema is well formed.
use pulumi_terraform_module.Prelude.{
  String, ◌≡◌, refl, Bool, true, false, ◌||◌, Option, none, some, some-injective, List, [], ◌∷◌,
  ◌++◌, ◌==◌, Bool-cases, inl, inr, if◌then◌else◌, is_some,
}
use pulumi_terraform_module.Prelude.Outcome.{ok, >>=-eq-ok, ok-injective}
use pulumi_terraform_module.Prelude.Dict.{Dict, insert, lookup, lookup-insert}
use pulumi_terraform_module.TfSandbox.Keys.{contains, pulumi_top_level_key}
use pulumi_terraform_module.ModProvider.Schema.{TypeSpec, SupportingTypes, convert_type}
use pulumi_terraform_module.ModProvider.Schema.Closed.{
  IsClosed, TypesClosed, Keeps, IsClosed-Keeps, convert_type-Converts,
}
use pulumi_terraform_module.ModProvider.Schema.Expressions.{Expression, is_variable_reference}
use pulumi_terraform_module.ModProvider.Schema.Expressions.Closed.{infer_expression_type-IsClosed}
use pulumi_terraform_module.ModProvider.Schema.Infer.{
  Variable, OutputDecl, Module, PropertySpec, InferredModuleSchema, empty_schema, infer_providers,
  infer_inputs, add_input, infer_outputs, add_output, output_type_by, type_of, infer_module_schema,
  optionally, pulumi_name, is_optional, undash,
}

abbrev pub PropsClosed : SupportingTypes → Dict (Option PropertySpec) → Type 0
PropsClosed types props =
    (key : String) (p : PropertySpec) → lookup key props ≡ some (some p) → IsClosed types p.spec

-- Every reference of the package's own has its type, and every required input is an input.
pub record IsSchema (s : InferredModuleSchema) : Type 0 where
  pub types_closed : TypesClosed s.supporting_types
  pub inputs_closed : PropsClosed s.supporting_types s.inputs
  pub outputs_closed : PropsClosed s.supporting_types s.outputs
  pub required_found :
      (key : String) → contains s.required_inputs key ≡ true → is_some (lookup key s.inputs) ≡ true

PropsClosed-insert :
    (types : SupportingTypes) (key : String) (p : PropertySpec) (props : Dict (Option PropertySpec))
    → IsClosed types p.spec
    → PropsClosed types props
    → PropsClosed types (insert key (some p) props)
PropsClosed-insert types key p props closed others wanted q has =
    elim (Bool-cases (key == wanted)) [
      | inl e ↦
          let same : some p ≡ some q =
            some-injective _ _ (rw (lookup-insert key wanted (some p) props, e) at has) in
          rw (← some-injective p q same) closed
      | inr e ↦ others wanted q (rw (lookup-insert key wanted (some p) props, e) at has)
    ]

PropsClosed-Keeps :
    (types types' : SupportingTypes) (props : Dict (Option PropertySpec))
    → Keeps types types'
    → PropsClosed types props
    → PropsClosed types' props
PropsClosed-Keeps types types' props kept all key p has =
    IsClosed-Keeps types types' p.spec kept (all key p has)

not_last : (b c : Bool) → (b || c) ≡ true → c ≡ false → b ≡ true
not_last true c h e = refl
not_last false c h e = cc

contains-append_one :
    (names : List String) (last key : String)
    → contains (names ++ (last ∷ [])) key ≡ true
    → (contains names key || (last == key)) ≡ true
contains-append_one [] last key h = elim (Bool-cases (last == key)) [
  | inl e ↦ e
  | inr e ↦ cc (rw e at h)
]
contains-append_one (name ∷ names) last key h = elim (Bool-cases (name == key)) [
  | inl e ↦ rw e refl
  | inr e ↦ rw e (contains-append_one names last key (rw e at h))
]

-- An input that is added stays found, and it is the only one that may be newly required.
required_after :
    (optional : Bool) (names : List String) (key wanted : String) (p : Option PropertySpec)
    (props : Dict (Option PropertySpec))
    → ((k : String) → contains names k ≡ true → is_some (lookup k props) ≡ true)
    → contains (if optional then names else names ++ (key ∷ [])) wanted ≡ true
    → is_some (lookup wanted (insert key p props)) ≡ true
required_after optional names key wanted p props found has = elim (Bool-cases (key == wanted)) [
  | inl e ↦ rw (lookup-insert key wanted p props, e) refl
  | inr e ↦ rw (lookup-insert key wanted p props, e) (found wanted (before optional has e))
]
  where
    before :
        (o : Bool)
        → contains (if o then names else names ++ (key ∷ [])) wanted ≡ true
        → (key == wanted) ≡ false
        → contains names wanted ≡ true
    before true h e = h
    before false h e =
        not_last (contains names wanted) (key == wanted) (contains-append_one names key wanted h) e

infer_providers-keeps :
    (names : List String) (s : InferredModuleSchema)
    → IsSchema s
    → IsSchema (infer_providers names s)
unfolding infer_providers
infer_providers-keeps [] s h = h
infer_providers-keeps (name ∷ rest) s h = infer_providers-keeps rest _ (record {
  types_closed = h.types_closed;
  inputs_closed = h.inputs_closed;
  outputs_closed = h.outputs_closed;
  required_found = h.required_found;
})

module _ (title : String → String) (pkg : String) where
  add_input-IsSchema :
      (name key : String) (v : Variable) (s : InferredModuleSchema)
      → IsSchema s
      → IsSchema (
          add_input title pkg name v key
            (convert_type title pkg v.type (pulumi_name name) s.supporting_types)
            s)
  add_input-IsSchema name key v s h =
      let (closed, types_closed, kept) =
        convert_type-Converts title pkg v.type (pulumi_name name) s.supporting_types
          h.types_closed in
      let types = (convert_type title pkg v.type (pulumi_name name) s.supporting_types).1 in
      record {
        types_closed = types_closed;
        inputs_closed =
            PropsClosed-insert types key _ s.inputs closed
              (PropsClosed-Keeps s.supporting_types types s.inputs kept h.inputs_closed);
        outputs_closed = PropsClosed-Keeps s.supporting_types types s.outputs kept h.outputs_closed;
        required_found = λ wanted has.
            required_after (is_optional v) s.required_inputs key wanted _ s.inputs h.required_found
              has;
      }

  infer_inputs-IsSchema :
      (variables : Dict Variable) (s out : InferredModuleSchema)
      → IsSchema s
      → infer_inputs title pkg variables s ≡ ok out
      → IsSchema out
  unfolding infer_inputs
  infer_inputs-IsSchema [] s out h returned = rw (← ok-injective s out returned) h
  infer_inputs-IsSchema ((name, v) ∷ rest) s out h returned =
      let (key, named, more) = >>=-eq-ok (pulumi_top_level_key (pulumi_name name)) _ returned in
      infer_inputs-IsSchema rest _ out (add_input-IsSchema name key v s h) more

-- The type of an output is that of an input, or refers to nothing of the package's own.
output_type_by-IsClosed :
    (reference : Option String) (e : Expression) (s : InferredModuleSchema) (t : TypeSpec)
    → IsSchema s
    → output_type_by reference e s ≡ ok t
    → IsClosed s.supporting_types t
output_type_by-IsClosed none e s t h returned =
    rw (← ok-injective _ t returned) (infer_expression_type-IsClosed s.supporting_types e)
output_type_by-IsClosed (some variable) e s t h returned =
    let (key, named, more) = >>=-eq-ok (pulumi_top_level_key variable) _ returned in
    input_type (undash key) (lookup (undash key) s.inputs) refl more
  where
    input_type :
        (key : String) (found : Option (Option PropertySpec))
        → lookup key s.inputs ≡ found
        → type_of found ≡ ok t
        → IsClosed s.supporting_types t
    input_type key none e r = cc
    input_type key (some none) e r = cc
    input_type key (some (some p)) e r = rw (← ok-injective p.spec t r) (h.inputs_closed key p e)

infer_outputs-IsSchema :
    (outputs : Dict OutputDecl) (s out : InferredModuleSchema)
    → IsSchema s
    → infer_outputs outputs s ≡ ok out
    → IsSchema out
unfolding infer_outputs
infer_outputs-IsSchema [] s out h returned = rw (← ok-injective s out returned) h
infer_outputs-IsSchema ((name, o) ∷ rest) s out h returned =
    let (t, typed, next) =
      >>=-eq-ok (output_type_by (is_variable_reference o.expr) o.expr s) _ returned in
    let (key, named, more) = >>=-eq-ok (pulumi_top_level_key (pulumi_name name)) _ next in
    infer_outputs-IsSchema rest (add_output name o t key s) out
      (record {
        types_closed = h.types_closed;
        inputs_closed = h.inputs_closed;
        outputs_closed =
            PropsClosed-insert s.supporting_types key _ s.outputs
              (output_type_by-IsClosed (is_variable_reference o.expr) o.expr s t h typed)
              h.outputs_closed;
        required_found = h.required_found;
      })
      more

empty-IsSchema : IsSchema empty_schema
unfolding lookup
empty-IsSchema = record {
  types_closed = λ token c. cc;
  inputs_closed = λ key p. cc;
  outputs_closed = λ key p. cc;
  required_found = λ key h. cc;
}

-- A schema that is inferred is well formed: every reference to a type of the package, in the inputs, the
-- outputs and the supporting types, is to one of the supporting types, and every required input is one of
-- the inputs.
pub infer_module_schema-IsSchema :
    (title : String → String) (pkg : String) (module_content : Module) (out : InferredModuleSchema)
    → infer_module_schema title pkg module_content ≡ ok out
    → IsSchema out
unfolding infer_module_schema
infer_module_schema-IsSchema title pkg module_content out returned =
    let start = infer_providers (optionally module_content.required_providers) empty_schema in
    let (s, inferred, more) =
      >>=-eq-ok (infer_inputs title pkg module_content.variables start) _ returned in
    infer_outputs-IsSchema module_content.outputs s out
      (infer_inputs-IsSchema title pkg module_content.variables start s
        (infer_providers-keeps (optionally module_content.required_providers) empty_schema
          empty-IsSchema)
        inferred)
      more
