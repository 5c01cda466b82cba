-- ===== src/TfSandbox/Locals/Returns.antt =====
-- `decode` returns, and what it returns stands for the value.
use pulumi_terraform_module.Prelude.{
  ℕ, zero, suc, ◌<◌, ◌≡◌, refl, String, true, false, some, arith, ◌∙◌, sym, ap,
}
use pulumi_terraform_module.Prelude.Outcome.{Outcome, ok, ok-injective}
use pulumi_terraform_module.Prelude.Dict.{Dict, lookup}
use pulumi_terraform_module.Pulumi.Json.{Json, Items, Members}
use pulumi_terraform_module.Pulumi.Value.{
  PropertyValue, PropertyMap, Values, make_output, asset, archive, resource_reference, computed,
  secret, output,
}
use pulumi_terraform_module.TfSandbox.Locals.{
  Sdk, Locals, sensitive_local, decode, layers, layers_of, layers_in, create_local, decode_fields,
  hide,
}
use pulumi_terraform_module.TfSandbox.Locals.Numbered.{
  IsDecimal, IsNumbered, Extends, create_local-IsNumbered, create_local-Extends,
  create_local-lookup,
}
use pulumi_terraform_module.TfSandbox.Locals.Seeded.{
  Seeded, SeededItems, SeededFields, IsMapRepl, map_items, map_fields,
}
use pulumi_terraform_module.TfSandbox.Locals.Kept.{
  is_encodable, fields_encodable, both_true, Seeded-Extends,
}

-- The call returns, what it returns stands for the value, and the locals stay numbered.
module _ {A B : Type 0} where
  abbrev Writes :
      Sdk → (Locals → A → B → Type 0) → (A → Locals → Outcome (B × Locals)) → A → Locals → Type 0
  Writes sdk Stands each v l =
      (j : B) × (l' : Locals) × (each v l ≡ ok (j, l'))
      × Stands l' v j
      × IsNumbered sdk l'
      × Extends l l'

module _ (sdk : Sdk) (distinct : IsDecimal sdk) (law : IsMapRepl sdk) where
  abbrev WritesValue : ℕ → PropertyValue → Locals → Type 0
  WritesValue n = Writes sdk (λ l. Seeded sdk l.entries) (sdk.map_repl (decode sdk n))

  -- A value that is hidden in a local.
  hide_lem :
      (n : ℕ) (v w : PropertyValue) (l : Locals)
      → decode sdk (suc n) w l ≡ hide sdk (sdk.map_repl (decode sdk n) v l)
      → ((e : Dict Json) (j : Json) (key : String)
          → lookup key e ≡ some j
          → Seeded sdk e v j
          → Seeded sdk e w (Json.string (sensitive_local key)))
      → WritesValue n v l
      → WritesValue (suc n) w l
  unfolding create_local
  hide_lem n v w l step relate (j, l', e, h, numbered, kept) =
      let added = create_local-Extends sdk distinct j l' numbered in
      (
        Json.string (sensitive_local ((create_local sdk j l').0)),
        (create_local sdk j l').1,
        law.replaced (decode sdk (suc n)) w l _ _ (step ∙ rw e refl),
        relate _ j _ (create_local-lookup sdk distinct j l') (Seeded-Extends sdk added h),
        create_local-IsNumbered sdk distinct j l' numbered,
        λ key x has. added key x (kept key x has),
      )

  mutual
    unfolding decode layers is_encodable

    value_lem :
        (n : ℕ) (v : PropertyValue) (l : Locals)
        → is_encodable v ≡ true
        → layers v < n
        → IsNumbered sdk l
        → WritesValue n v l
    value_lem zero v l good enough h = absurd (omega (arith, enough))
    value_lem (suc n) (asset a) l good enough h = cc
    value_lem (suc n) (archive a) l good enough h = cc
    value_lem (suc n) (resource_reference r) l good enough h = cc
    value_lem (suc n) PropertyValue.null l good enough h =
        (_, l, law.at_null (decode sdk (suc n)) l l refl, Seeded.null, h, λ key x has. has)
    value_lem (suc n) (PropertyValue.bool b) l good enough h =
        (_, l, law.at_bool (decode sdk (suc n)) b l l refl, Seeded.bool, h, λ key x has. has)
    value_lem (suc n) (PropertyValue.number x) l good enough h =
        (_, l, law.at_number (decode sdk (suc n)) x l l refl, Seeded.number, h, λ key x has. has)
    value_lem (suc n) (PropertyValue.string s) l good enough h =
        (_, l, law.at_string (decode sdk (suc n)) s l l refl, Seeded.string, h, λ key x has. has)
    value_lem (suc n) (PropertyValue.array xs) l good enough h =
        let (js, l', e, stands, numbered, kept) = items_lem (suc n) xs l good enough h in
        (
          Json.array js,
          l',
          law.at_array (decode sdk (suc n)) xs l l refl ∙ rw e refl,
          Seeded.array stands,
          numbered,
          kept,
        )
    value_lem (suc n) (PropertyValue.object m) l good enough h =
        let (js, l', e, stands, numbered, kept) = fields_lem (suc n) m l good enough h in
        (
          Json.object js,
          l',
          law.at_object (decode sdk (suc n)) m l l refl ∙ rw e refl,
          Seeded.object stands,
          numbered,
          kept,
        )
    value_lem (suc n) (computed v) l good enough h = (
      _,
      l,
      law.replaced (decode sdk (suc n)) (computed v) l l _ refl,
      Seeded.unknown,
      h,
      λ key x has. has,
    )
    value_lem (suc n) (secret v) l good enough h =
        hide_lem n v (secret v) l refl (λ e j key. Seeded.hidden key)
          (value_lem n v l good (omega (arith, enough)) h)
    value_lem (suc n) (output (make_output v false s deps)) l good enough h = (
      _,
      l,
      law.replaced (decode sdk (suc n)) _ l l _ refl,
      Seeded.unknown_output,
      h,
      λ key x has. has,
    )
    value_lem (suc n) (output (make_output v true true deps)) l good enough h =
        hide_lem n v _ l refl (λ e j key. Seeded.hidden_output key)
          (value_lem n v l good (omega (arith, enough)) h)
    value_lem (suc n) (output (make_output v true false deps)) l good enough h =
        let (j, l', e, stands, numbered, kept) = value_lem n v l good (omega (arith, enough)) h in
        (
          j,
          l',
          law.replaced (decode sdk (suc n)) _ l l' j (rw e refl),
          Seeded.known_output stands,
          numbered,
          kept,
        )

    items_lem :
        (n : ℕ) (xs : Values) (l : Locals)
        → is_encodable (PropertyValue.array xs) ≡ true
        → layers_of xs < n
        → IsNumbered sdk l
        → Writes sdk (λ l. SeededItems sdk l.entries) (map_items (sdk.map_repl (decode sdk n))) xs l
    items_lem n Values.nil l good enough h = (_, l, refl, SeededItems.nil, h, λ key x has. has)
    items_lem n (Values.cons x xs) l good enough h =
        let (here, later) =
          both_true (is_encodable x) (is_encodable (PropertyValue.array xs)) good in
        let (j, l', e, stands, numbered, kept) = value_lem n x l here (omega (arith, enough)) h in
        let (js, l'', e', stands', numbered', kept') =
          items_lem n xs l' later (omega (arith, enough)) numbered in
        (
          Items.cons j js,
          l'',
          rw (e, e') refl,
          SeededItems.cons (Seeded-Extends sdk kept' stands) stands',
          numbered',
          λ key x has. kept' key x (kept key x has),
        )

    pub fields_lem :
        (n : ℕ) (m : PropertyMap) (l : Locals)
        → fields_encodable m ≡ true
        → layers_in m < n
        → IsNumbered sdk l
        → Writes sdk
            (λ l. SeededFields sdk l.entries)
            (map_fields (sdk.map_repl (decode sdk n)))
            m
            l
    fields_lem n PropertyMap.end l good enough h =
        (_, l, refl, SeededFields.end, h, λ key x has. has)
    fields_lem n (PropertyMap.entry k v m) l good enough h =
        let (here, later) = both_true (is_encodable v) (fields_encodable m) good in
        let (j, l', e, stands, numbered, kept) = value_lem n v l here (omega (arith, enough)) h in
        let (js, l'', e', stands', numbered', kept') =
          fields_lem n m l' later (omega (arith, enough)) numbered in
        (
          Members.member k j js,
          l'',
          rw (e, e') refl,
          SeededFields.entry (Seeded-Extends sdk kept' stands) stands',
          numbered',
          λ key x has. kept' key x (kept key x has),
        )

  -- `MapRepl` with `decode` returns on a map without assets, archives and references, and writes texts
  -- that stand for its values: a secret is only there as a reference, marked as sensitive, to the local
  -- that holds its text, and an unknown value as a reference to the proxy.
  pub decode_fields-Seeded :
      (m : PropertyMap) (l : Locals)
      → fields_encodable m ≡ true
      → IsNumbered sdk l
      → (js : Members) × (l' : Locals) × (decode_fields sdk m l ≡ ok (js, l'))
        × SeededFields sdk l'.entries m js
  unfolding decode_fields
  decode_fields-Seeded m l good h =
      let (js, l', e, stands, numbered, kept) =
        fields_lem (suc (layers_in m)) m l good (omega arith) h in
      (js, l', law.at_fields (decode sdk (suc (layers_in m))) m l ∙ e, stands)

  -- A call of `MapRepl` with `decode`, on a map without assets, archives and references, leaves the locals
  -- numbered, one for each count with the next keys free, and keeps every local that was there.
  pub decode_fields-IsNumbered :
      (m : PropertyMap) (l l' : Locals) (js : Members)
      → fields_encodable m ≡ true
      → IsNumbered sdk l
      → decode_fields sdk m l ≡ ok (js, l')
      → IsNumbered sdk l' × Extends l l'
  unfolding decode_fields
  decode_fields-IsNumbered m l l' js good h returned =
      let (ks, k, e, stands, numbered, kept) =
        fields_lem (suc (layers_in m)) m l good (omega arith) h in
      let same : (ks, k) ≡ (js, l') =
        ok-injective _ _
          (sym (law.at_fields (decode sdk (suc (layers_in m))) m l ∙ e) ∙ returned) in
      rw (← ap (λ p. p.1) same) (numbered, kept)
