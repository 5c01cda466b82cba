-- ===== src/ModProvider/Schema/Combine/Laws.antt =====
-- A partial schema over an inferred one.
use pulumi_terraform_module.Prelude.{
  String, ◌≡◌, refl, ap, sym, ◌∙◌, Option, none, some, [], ◌∷◌, ◌==◌, eq_iff, eq_refl, Bool-cases,
  Option-cases, inl, inr,
}
use pulumi_terraform_module.Prelude.Outcome.{Outcome, ok, >>=-eq-ok, ok-injective}
use pulumi_terraform_module.Prelude.Dict.{Dict, insert, lookup, lookup-insert, NodupKeys}
use pulumi_terraform_module.ModProvider.Schema.Infer.{InferredModuleSchema}
use pulumi_terraform_module.ModProvider.Schema.Combine.{
  combine_with, merge_property, merged_input_type, merged_output_type, merge_types, combine_schema,
}

module _ {ℓ} {A : Type ℓ} (merge : Option A → Option A → Outcome (Option A)) where
  -- What a key holds afterwards, from what it held and what the partial map has for it.
  abbrev pub Merged : Option (Option A) → Option (Option A) → Option (Option A) → Type ℓ
  Merged old none new = new ≡ old
  Merged none (some p) new = new ≡ some p
  Merged (some e) (some p) new = (m : Option A) × (merge e p ≡ ok m) × (new ≡ some m)

  -- Later entries leave a key alone that none of them has.
  combine_with-elsewhere :
      (rest existing out : Dict (Option A)) (key : String)
      → lookup key rest ≡ none
      → combine_with merge rest existing ≡ ok out
      → lookup key out ≡ lookup key existing
  unfolding combine_with lookup
  combine_with-elsewhere [] existing out key absent h =
      ap (lookup key) (sym (ok-injective existing out h))
  combine_with-elsewhere ((name, p) ∷ rest) existing out key absent h =
      elim (Bool-cases (name == key)) [
        | inl e ↦ cc (rw e at absent)
        | inr e ↦ elim (Option-cases (lookup name existing)) [
          | inl none_old ↦
              combine_with-elsewhere rest _ out key (rw e at absent)
                (rw (none_old, combine_with) at h)
              ∙ lookup-insert name key p existing
              ∙ rw e refl
          | inr (old, has) ↦
              let (m, merged, more) = >>=-eq-ok (merge old p) _ (rw (has, combine_with) at h) in
              combine_with-elsewhere rest _ out key (rw e at absent) more
              ∙ lookup-insert name key m existing
              ∙ rw e refl
        ]
      ]

  first_entry :
      (name : String) (p : Option A) (rest existing out : Dict (Option A))
      → lookup name rest ≡ none
      → combine_with merge ((name, p) ∷ rest) existing ≡ ok out
      → Merged (lookup name existing) (some p) (lookup name out)
  unfolding combine_with
  first_entry name p rest existing out absent h = elim (Option-cases (lookup name existing)) [
    | inl none_old ↦ rw none_old (
        combine_with-elsewhere rest (insert name p existing) out name absent
          (rw (none_old, combine_with) at h)
        ∙ lookup-insert name name p existing
        ∙ rw (eq_refl name) refl)
    | inr (old, has) ↦
        let (m, merged, more) = >>=-eq-ok (merge old p) _ (rw (has, combine_with) at h) in
        rw has (
          m,
          merged,
          combine_with-elsewhere rest (insert name m existing) out name absent more
              ∙ lookup-insert name name m existing
              ∙ rw (eq_refl name) refl,
        )
  ]

  combine_with-Merged :
      (partial existing out : Dict (Option A)) (key : String)
      → NodupKeys partial
      → combine_with merge partial existing ≡ ok out
      → Merged (lookup key existing) (lookup key partial) (lookup key out)
  unfolding combine_with lookup
  combine_with-Merged [] existing out key nodup h =
      ap (lookup key) (sym (ok-injective existing out h))
  combine_with-Merged ((name, p) ∷ rest) existing out key nodup h =
      elim (Bool-cases (name == key)) [
        | inl e ↦ rw (e, ← (eq_iff name key).0 e) (first_entry name p rest existing out nodup.0 h)
        | inr e ↦ rw e (elim (Option-cases (lookup name existing)) [
          | inl none_old ↦
              rw (lookup-insert name key p existing, e) at
                (combine_with-Merged rest (insert name p existing) out key nodup.1
                  (rw (none_old, combine_with) at h))
          | inr (old, has) ↦
              let (m, merged, more) = >>=-eq-ok (merge old p) _ (rw (has, combine_with) at h) in
              rw (lookup-insert name key m existing, e) at
                (combine_with-Merged rest (insert name m existing) out key nodup.1 more)
        ])
      ]

-- A combined schema has, under each key of its inputs, its outputs and its supporting types: what was
-- there, if the partial schema has no such key; what the partial schema has, if it was not there;
-- otherwise the two merged. (The keys of a Go map are distinct.)
pub combine_schema-Merged :
    (s p out : InferredModuleSchema) (key : String)
    → NodupKeys p.inputs
    → NodupKeys p.outputs
    → NodupKeys p.supporting_types
    → combine_schema s (some p) ≡ ok out
    → Merged
        (merge_property merged_input_type)
        (lookup key s.inputs)
        (lookup key p.inputs)
        (lookup key out.inputs)
      × Merged
          (merge_property merged_output_type)
          (lookup key s.outputs)
          (lookup key p.outputs)
          (lookup key out.outputs)
      × Merged merge_types
          (lookup key s.supporting_types)
          (lookup key p.supporting_types)
          (lookup key out.supporting_types)
unfolding combine_schema
combine_schema-Merged s p out key first second third h =
    let (inputs, ei, hi) =
      >>=-eq-ok (combine_with (merge_property merged_input_type) p.inputs s.inputs) _ h in
    let (outputs, eo, ho) =
      >>=-eq-ok (combine_with (merge_property merged_output_type) p.outputs s.outputs) _ hi in
    let (types, et, last) =
      >>=-eq-ok (combine_with merge_types p.supporting_types s.supporting_types) _ ho in
    rw (← ok-injective _ out last) (
      combine_with-Merged (merge_property merged_input_type) p.inputs s.inputs inputs key first ei,
      combine_with-Merged (merge_property merged_output_type) p.outputs s.outputs outputs key second
          eo,
      combine_with-Merged merge_types p.supporting_types s.supporting_types types key third et,
    )
