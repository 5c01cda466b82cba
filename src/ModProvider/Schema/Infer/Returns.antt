-- ===== src/ModProvider/Schema/Infer/Returns.antt =====
-- The inference of a schema returns.
use Prim.Native.Char.{Char, code}
use pulumi_terraform_module.Prelude.{
  String, ◌≡◌, refl, ap, sym, ◌∙◌, true, false, Option, none, some, [], ◌∷◌, ◌==◌, eq_iff, eq_refl,
  Bool-cases, inl, inr, is_some, eqb,
}
use pulumi_terraform_module.Prelude.Outcome.{ok}
use pulumi_terraform_module.Prelude.Dict.{Dict, insert, lookup, lookup-insert}
use pulumi_terraform_module.TfSandbox.Keys.Laws.{encode, top_level_key_lem}
use pulumi_terraform_module.ModProvider.Schema.{TypeSpec, convert_type}
use pulumi_terraform_module.ModProvider.Schema.Expressions.{Expression, is_variable_reference}
use pulumi_terraform_module.ModProvider.Schema.Infer.{
  Variable, OutputDecl, Module, PropertySpec, InferredModuleSchema, infer_providers, infer_inputs,
  add_input, infer_outputs, add_output, output_type_by, infer_module_schema, optionally,
  pulumi_name, undash, contains_dash, empty_schema,
}

undash_no_dash : (name : String) → contains_dash name ≡ false → undash name ≡ name
unfolding undash contains_dash
undash_no_dash String.[] h = refl
undash_no_dash (String.◌∷◌ c s) h = elim (Bool-cases (eqb (code c) b'-')) [
  | inl e ↦ cc (rw e at h)
  | inr e ↦ rw e (ap (λ t. String.◌∷◌ c t) (undash_no_dash s (rw e at h)))
]

pulumi_name-undash : (name : String) → pulumi_name name ≡ undash name
pulumi_name-undash name = elim (Bool-cases (contains_dash name)) [
  | inl e ↦ rw e refl
  | inr e ↦ rw e (sym (undash_no_dash name e))
]

undash_empty : (name : String) → undash name ≡ String.[] → name ≡ String.[]
unfolding undash
undash_empty String.[] h = refl
undash_empty (String.◌∷◌ c s) h = elim (Bool-cases (eqb (code c) b'-')) [
  | inl e ↦ cc (rw e at h)
  | inr e ↦ cc (rw e at h)
]

-- A character that is not an underscore stands for itself.
undash_first :
    (name : String) (d : Char) (t : String)
    → eqb (code d) b'_' ≡ false
    → undash name ≡ String.◌∷◌ d t
    → (s : String) × (name ≡ String.◌∷◌ d s) × (undash s ≡ t)
unfolding undash
undash_first String.[] d t free h = cc
undash_first (String.◌∷◌ c s) d t free h = elim (Bool-cases (eqb (code c) b'-')) [
  | inl e ↦ let same : "_" ≡ d = cc (rw e at h) in cc (rw (← same) at free)
  | inr e ↦
      let same : c ≡ d = cc (rw e at h) in
      let rest : undash s ≡ t = cc (rw e at h) in (s, ap (λ x. String.◌∷◌ x s) same, rest)
]

-- No name but `id` becomes `id` without its dashes.
undash_id : (name : String) → undash name ≡ "id" → name ≡ "id"
undash_id name h =
    let (s, e, more) = undash_first name "i" "d" refl h in
    let (t, e', last) = undash_first s "d" "" refl more in
    e ∙ ap (λ x. String.◌∷◌ "i" x) (e' ∙ ap (λ x. String.◌∷◌ "d" x) (undash_empty t last))

undash_other : (name : String) → ("id" == name) ≡ false → ("id" == undash name) ≡ false
undash_other name h = elim (Bool-cases ("id" == undash name)) [
  | inr e ↦ e
  | inl e ↦
      cc ((eq_iff "id" name).1 (sym (undash_id name (sym ((eq_iff "id" (undash name)).0 e)))), h)
]

undash-encode : (name : String) → undash (encode name) ≡ encode (undash name)
unfolding undash
undash-encode name = elim (Bool-cases ("id" == name)) [
  | inl e ↦ rw (← (eq_iff "id" name).0 e) refl
  | inr e ↦ rw (e, undash_other name e) refl
]

-- The key is there, and its value is not nil.
abbrev Present : String → Dict (Option PropertySpec) → Type 0
Present key props = (p : PropertySpec) × (lookup key props ≡ some (some p))

subst_key :
    (a b : String) (props : Dict (Option PropertySpec)) → a ≡ b → Present a props → Present b props
subst_key a b props e (p, has) = (p, rw (← e) has)

Present-insert :
    (key wanted : String) (p : PropertySpec) (props : Dict (Option PropertySpec))
    → Present wanted props
    → Present wanted (insert key (some p) props)
Present-insert key wanted p props (q, has) = elim (Bool-cases (key == wanted)) [
  | inl e ↦ (p, rw (lookup-insert key wanted (some p) props, e) refl)
  | inr e ↦ (q, rw (lookup-insert key wanted (some p) props, e) has)
]

Present-insert_here :
    (key : String) (p : PropertySpec) (props : Dict (Option PropertySpec))
    → Present key (insert key (some p) props)
Present-insert_here key p props = (p, rw (lookup-insert key key (some p) props, eq_refl key) refl)

module _ (title : String → String) (pkg : String) where
  -- The loop over the variables returns, and has an input for each.
  infer_inputs_total :
      (variables : Dict Variable) (s : InferredModuleSchema)
      → (out : InferredModuleSchema) × (infer_inputs title pkg variables s ≡ ok out)
        × ((key : String) → Present key s.inputs → Present key out.inputs)
        × ((name : String)
            → is_some (lookup name variables) ≡ true
            → Present (encode (undash name)) out.inputs)
  unfolding infer_inputs lookup
  infer_inputs_total [] s = (s, refl, (λ key p. p), λ name. cc)
  infer_inputs_total ((name, v) ∷ rest) s =
      let key = encode (pulumi_name name) in
      let converted = convert_type title pkg v.type (pulumi_name name) s.supporting_types in
      let (out, returned, kept, found) =
        infer_inputs_total rest (add_input title pkg name v key converted s) in
      (
        out,
        rw (top_level_key_lem (pulumi_name name)) returned,
        (λ other p. kept other (Present-insert key other _ s.inputs p)),
        λ wanted has. elim (Bool-cases (name == wanted)) [
          | inr e ↦ found wanted (rw e at has)
          | inl e ↦
              subst_key key (encode (undash wanted)) out.inputs
                (ap encode (pulumi_name-undash name)
                  ∙ ap (λ n. encode (undash n)) ((eq_iff name wanted).0 e))
                (kept key (Present-insert_here key _ s.inputs))
        ],
      )

abbrev pub Declared : Option String → Dict Variable → Type 0
Declared none variables = Unit
Declared (some name) variables = is_some (lookup name variables) ≡ true

-- Every output that refers to a variable refers to one that the module declares.
abbrev pub AllDeclared : Dict OutputDecl → Dict Variable → Type 0
AllDeclared [] variables = Unit
AllDeclared ((name, o) ∷ rest) variables =
    Declared (is_variable_reference o.expr) variables × AllDeclared rest variables

output_type_by_total :
    (reference : Option String) (e : Expression) (variables : Dict Variable)
    (s : InferredModuleSchema)
    → Declared reference variables
    → ((name : String)
        → is_some (lookup name variables) ≡ true
        → Present (encode (undash name)) s.inputs)
    → (t : TypeSpec) × (output_type_by reference e s ≡ ok t)
output_type_by_total none e variables s declared found = (_, refl)
output_type_by_total (some name) e variables s declared found =
    let (p, has) = found name declared in
    (p.spec, rw (top_level_key_lem name) (rw (undash-encode name, has) refl))

infer_outputs_total :
    (outputs : Dict OutputDecl) (variables : Dict Variable) (s : InferredModuleSchema)
    → AllDeclared outputs variables
    → ((name : String)
        → is_some (lookup name variables) ≡ true
        → Present (encode (undash name)) s.inputs)
    → (out : InferredModuleSchema) × (infer_outputs outputs s ≡ ok out)
unfolding infer_outputs
infer_outputs_total [] variables s declared found = (s, refl)
infer_outputs_total ((name, o) ∷ rest) variables s (first, more) found =
    let (t, typed) =
      output_type_by_total (is_variable_reference o.expr) o.expr variables s first found in
    let key = encode (pulumi_name name) in
    let (out, returned) =
      infer_outputs_total rest variables (add_output name o t key s) more found in
    (out, rw (typed, top_level_key_lem (pulumi_name name)) returned)

-- The inference of a schema returns, if every output that is a reference to a variable refers to one that
-- the module declares.
pub infer_module_schema_total :
    (title : String → String) (pkg : String) (module_content : Module)
    → AllDeclared module_content.outputs module_content.variables
    → (out : InferredModuleSchema) × (infer_module_schema title pkg module_content ≡ ok out)
unfolding infer_module_schema
infer_module_schema_total title pkg module_content declared =
    let start = infer_providers (optionally module_content.required_providers) empty_schema in
    let (s, inferred, kept, found) = infer_inputs_total title pkg module_content.variables start in
    let (out, returned) =
      infer_outputs_total module_content.outputs module_content.variables s declared found in
    (out, rw inferred returned)
