-- ===== src/TfSandbox/SeedFile/Declared.antt =====
-- The outputs that the seed file declares.
use pulumi_terraform_module.Prelude.{
  ◌<>◌, String, ◌≡◌, refl, true, false, some, List, [], ◌∷◌, ◌==◌, eq_iff, eq_refl, Bool-cases, inl,
  inr, or_right, ◌∙◌,
}
use pulumi_terraform_module.Prelude.Text.{starts_with-append}
use pulumi_terraform_module.Prelude.Dict.{Dict, lookup}
use pulumi_terraform_module.Pulumi.Json.{Json}
use pulumi_terraform_module.TfSandbox.Keys.{contains}
use pulumi_terraform_module.TfSandbox.Outputs.{
  is_secret_key, is_secret_output_prefix, is_internal_output_resource,
}
use pulumi_terraform_module.TfSandbox.SeedFile.{
  object_of, declare_outputs, value_of_module, flag_of_module,
}
use pulumi_terraform_module.TfSandbox.SeedFile.Laws.{
  lookup-insert_other, lookup-insert_same, not_same,
}
use text.Mathlib.TextLemmas.{append_cancel_left}

-- No output of the module has a name of the provider's own.
abbrev pub AreOwn : List String → Type 0
AreOwn [] = Unit
AreOwn (o ∷ rest) = (is_internal_output_resource o ≡ false) × AreOwn rest

own :
    (outputs : List String) (o : String)
    → AreOwn outputs
    → contains outputs o ≡ true
    → is_internal_output_resource o ≡ false
own [] o h has = cc
own (x ∷ rest) o h has = elim (Bool-cases (x == o)) [
  | inl e ↦ rw (← (eq_iff x o).0 e) h.0
  | inr e ↦ own rest o h.1 (rw e at has)
]

not_flag : (o x : String) → is_internal_output_resource o ≡ false → (is_secret_key x == o) ≡ false
not_flag o x h =
    not_same (is_secret_key x) o
      λ e. cc (rw (← e) at h, starts_with-append is_secret_output_prefix x)

or_later :
    (x y : String) (rest : List String) → contains rest y ≡ true → contains (x ∷ rest) y ≡ true
or_later x y rest h = or_right (x == y) (contains rest y) h

first_of :
    (x o : String) (rest : List String)
    → contains (x ∷ rest) o ≡ true
    → contains rest o ≡ false
    → x ≡ o
first_of x o rest has absent = elim (Bool-cases (x == o)) [
  | inl e ↦ (eq_iff x o).0 e
  | inr e ↦ cc (rw e at has, absent)
]

-- An output that none of `rest` is, and its flag, are no key that `rest` declares.
away_from :
    (o y : String) (rest : List String)
    → AreOwn rest
    → is_internal_output_resource o ≡ false
    → contains rest o ≡ false
    → contains rest y ≡ true
    → ((y == o) ≡ false)
      × ((is_secret_key y == is_secret_key o) ≡ false)
      × ((y == is_secret_key o) ≡ false)
away_from o y rest h free absent has = (
  not_same y o (λ e. cc (rw e at has, absent)),
  not_same (is_secret_key y) (is_secret_key o)
      (λ e. cc (rw (append_cancel_left is_secret_output_prefix y o e) at has, absent)),
  not_same y (is_secret_key o)
      (λ e. cc (rw e at (own rest y h has), starts_with-append is_secret_output_prefix o)),
)

module _ (name : String) where
  -- Later outputs leave alone what was declared before, unless they have the same name.
  declare_outputs_elsewhere :
      (outputs : List String) (key : String) (file : Dict Json)
      → ((x : String)
          → contains outputs x ≡ true
          → ((x == key) ≡ false) × ((is_secret_key x == key) ≡ false))
      → lookup key (declare_outputs name outputs file) ≡ lookup key file
  unfolding declare_outputs
  declare_outputs_elsewhere [] key file away = refl
  declare_outputs_elsewhere (x ∷ rest) key file away =
      let (a, b) = away x (rw (eq_refl x) refl) in
      declare_outputs_elsewhere rest key _ (λ y has. away y (or_later x y rest has))
      ∙ lookup-insert_other (is_secret_key x) key _ _ b
      ∙ lookup-insert_other x key _ file a

  -- The loop over the outputs declares, for every output of the module, one output with its value, which
  -- is not sensitive, and an output `internal_output_is_secret_<name>` that tells whether the value is
  -- sensitive, if no output of the module has a name with that prefix.
  pub lookup-declare_outputs :
      (outputs : List String) (o : String) (file : Dict Json)
      → AreOwn outputs
      → contains outputs o ≡ true
      → (lookup o (declare_outputs name outputs file)
          ≡ some (
              object_of (
                (
                  "value",
                  Json.string (
                      "${jsondecode(nonsensitive(jsonencode(module." <> name <> "." <> o <> ")))}"),
                )
                ∷ [])))
        × (lookup ("internal_output_is_secret_" <> o) (declare_outputs name outputs file)
            ≡ some (
                object_of (
                  (
                    "value",
                    Json.string (
                        "${jsondecode(issensitive(jsonencode(module." <> name <> "." <> o
                        <> ")))}"),
                  )
                  ∷ [])))
  unfolding declare_outputs
  lookup-declare_outputs [] o file h has = cc
  lookup-declare_outputs (x ∷ rest) o file h has = elim (Bool-cases (contains rest o)) [
    | inl later ↦ lookup-declare_outputs rest o _ h.1 later
    | inr absent ↦
        let same : x ≡ o = first_of x o rest has absent in
        let free = own (x ∷ rest) o h has in
        (
          declare_outputs_elsewhere rest o _
                (λ y there. ((away_from o y rest h.1 free absent there).0, not_flag o y free))
              ∙ lookup-insert_other (is_secret_key x) o _ _ (not_flag o x free)
              ∙ rw (← same) (lookup-insert_same x (object_of (value_of_module name x)) file),
          declare_outputs_elsewhere rest (is_secret_key o) _
                (λ y there. let (a, b, c) = away_from o y rest h.1 free absent there in (c, b))
              ∙ rw (← same)
                  (lookup-insert_same (is_secret_key x) (object_of (flag_of_module name x)) _),
        )
  ]
