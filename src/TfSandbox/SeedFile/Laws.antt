-- ===== src/TfSandbox/SeedFile/Laws.antt =====
-- What the seed file holds.
use pulumi_terraform_module.Prelude.{
  String, ◌≡◌, refl, true, false, Option, none, some, some-injective, [], ◌∷◌, ◌==◌, eq_iff,
  eq_refl, Bool-cases, inl, inr, is_some, ◌∙◌,
}
use pulumi_terraform_module.Prelude.Outcome.{ok}
use pulumi_terraform_module.Prelude.Dict.{Dict, insert, lookup, NodupKeys, lookup-insert}
use pulumi_terraform_module.Pulumi.Json.{Json, Members}
use pulumi_terraform_module.Pulumi.Value.{PropertyValue, PropertyMap, find, NodupMap}
use pulumi_terraform_module.TfSandbox.Locals.{Locals}
use pulumi_terraform_module.TfSandbox.Locals.Numbered.{IsDecimal, IsNumbered, Extends}
use pulumi_terraform_module.TfSandbox.Locals.Seeded.{Seeded, SeededFields, IsMapRepl}
use pulumi_terraform_module.TfSandbox.Locals.Kept.{fields_encodable, SeededFields-Extends}
use pulumi_terraform_module.TfSandbox.Locals.Returns.{
  decode_fields-Seeded, decode_fields-IsNumbered,
}
use pulumi_terraform_module.TfSandbox.SeedFile.{
  Library, pass_inputs, section, object_of, seed_providers,
}

unfoldable pub AreEncodable : Dict PropertyMap → Type 0
AreEncodable [] = Unit
AreEncodable ((name, config) ∷ rest) = (fields_encodable config ≡ true) × AreEncodable rest

pub lookup-insert_other :
    (key other : String) (v : Json) (m : Dict Json)
    → (key == other) ≡ false
    → lookup other (insert key v m) ≡ lookup other m
lookup-insert_other key other v m away = rw (lookup-insert key other v m, away) refl

pub lookup-insert_same :
    (key : String) (v : Json) (m : Dict Json) → lookup key (insert key v m) ≡ some v
lookup-insert_same key v m = rw (lookup-insert key key v m, eq_refl key) refl

pub lookup-section_other :
    (key other : String) (m file : Dict Json)
    → (key == other) ≡ false
    → lookup other (section key m file) ≡ lookup other file
lookup-section_other key other [] file away = refl
lookup-section_other key other (first ∷ m) file away =
    lookup-insert_other key other (object_of (first ∷ m)) file away

-- What a section that is left out when it is empty holds.
abbrev pub unless_none : Dict Json → Option Json
unless_none [] = none
unless_none (first ∷ m) = some (object_of (first ∷ m))

pub lookup-section :
    (key : String) (m file : Dict Json)
    → lookup key file ≡ none
    → lookup key (section key m file) ≡ unless_none m
lookup-section key [] file free = free
lookup-section key (first ∷ m) file free = lookup-insert_same key (object_of (first ∷ m)) file

pub not_same : (a b : String) → ((a ≡ b) → (false ≡ true)) → (a == b) ≡ false
not_same a b h = elim (Bool-cases (a == b)) [ inr e ↦ e | inl e ↦ cc (h ((eq_iff a b).0 e)) ]

later_key :
    (j k : String) (v : PropertyValue) (m : PropertyMap)
    → is_some (find j m) ≡ true
    → is_some (find j (PropertyMap.entry k v m)) ≡ true
unfolding find
later_key j k v m h = elim (Bool-cases (k == j)) [ inl e ↦ rw e refl | inr e ↦ rw e h ]

first_key :
    (k : String) (v : PropertyValue) (m : PropertyMap)
    → is_some (find k (PropertyMap.entry k v m)) ≡ true
unfolding find
first_key k v m = rw (eq_refl k) refl

-- No input but `k` has its name in Terraform.
abbrev pub IsUnique : Library → String → PropertyMap → Type 0
IsUnique lib k m =
    (j : String) → is_some (find j m) ≡ true → lib.terraform_name j ≡ lib.terraform_name k → j ≡ k

module _ (lib : Library) (entries : Dict Json) where
  pass_inputs_elsewhere :
      {m : PropertyMap} {js : Members}
      → SeededFields lib.sdk entries m js
      → (key : String) (props : Dict Json)
      → ((j : String) → is_some (find j m) ≡ true → (lib.terraform_name j == key) ≡ false)
      → lookup key (pass_inputs lib js props) ≡ lookup key props
  unfolding pass_inputs
  pass_inputs_elsewhere SeededFields.end key props away = refl
  pass_inputs_elsewhere (SeededFields.entry {k} {v} {j} {m} {js} h hs) key props away =
      pass_inputs_elsewhere hs key _ (λ i has. away i (later_key i k v m has))
      ∙ lookup-insert_other (lib.terraform_name k) key j props (away k (first_key k v m))

  pub pass_inputs-find :
      {m : PropertyMap} {js : Members}
      → SeededFields lib.sdk entries m js
      → (k : String) (v : PropertyValue) (props : Dict Json) → NodupMap m
      → find k m ≡ some v
      → IsUnique lib k m
      → (j : Json) × (lookup (lib.terraform_name k) (pass_inputs lib js props) ≡ some j)
        × Seeded lib.sdk entries v j
  unfolding pass_inputs find
  pass_inputs-find SeededFields.end k v props nodup has only = cc
  pass_inputs-find (SeededFields.entry {k = i} {v = w} {j} {m} {js} h hs) k v props nodup has only =
      elim (Bool-cases (i == k)) [
        | inr e ↦
            pass_inputs-find hs k v _ nodup.1 (rw (e, find) at has)
              λ x there. only x (later_key x i w m there)
        | inl e ↦
            let same : i ≡ k = (eq_iff i k).0 e in
            let value : w ≡ v = some-injective w v (rw (e, find) at has) in
            (
              j,
              pass_inputs_elsewhere hs (lib.terraform_name k) _ (λ x there.
                    not_same (lib.terraform_name x) (lib.terraform_name k) λ clash.
                      cc (rw same at nodup.0, only x (later_key x i w m there) clash, there))
                  ∙ rw (← same) (lookup-insert_same (lib.terraform_name i) j props),
              rw (← value) h,
            )
      ]

module _ (lib : Library) (distinct : IsDecimal lib.sdk) (law : IsMapRepl lib.sdk) where
  -- What the loop over the configurations has written: each as its provider, and no other one.
  abbrev Provides : Dict PropertyMap → Dict Json → Dict Json → Locals → Type 0
  Provides configs old new l =
      ((name : String) (config : PropertyMap)
        → lookup name configs ≡ some config
        → (js : Members) × (lookup name new ≡ some (Json.object js))
          × SeededFields lib.sdk l.entries config js)
      × ((name : String) → lookup name configs ≡ none → lookup name new ≡ lookup name old)

  Provides-cons :
      (name : String) (config : PropertyMap) (rest : Dict PropertyMap) (js : Members)
      (old new : Dict Json) (l : Locals)
      → lookup name rest ≡ none
      → SeededFields lib.sdk l.entries config js
      → Provides rest (insert name (Json.object js) old) new l
      → Provides ((name, config) ∷ rest) old new l
  unfolding lookup
  Provides-cons name config rest js old new l fresh stands (each, others) = (
    λ key wanted has. elim (Bool-cases (name == key)) [
      | inr e ↦ each key wanted (rw e at has)
      | inl e ↦
          let same : name ≡ key = (eq_iff name key).0 e in
          let value : config ≡ wanted = some-injective config wanted (rw e at has) in
          (
            js,
            rw (← same) (others name fresh ∙ lookup-insert_same name (Json.object js) old),
            rw (← value) stands,
          )
    ],
    λ key absent. elim (Bool-cases (name == key)) [
      | inl e ↦ cc (rw e at absent)
      | inr e ↦ others key (rw e at absent) ∙ lookup-insert_other name key (Json.object js) old e
    ],
  )

  pub seed_providers_lem :
      (configs : Dict PropertyMap) (old : Dict Json) (l : Locals)
      → NodupKeys configs
      → AreEncodable configs
      → IsNumbered lib.sdk l
      → (new : Dict Json) × (l' : Locals) × (seed_providers lib configs old l ≡ ok (new, l'))
        × Provides configs old new l'
        × Extends l l'
  unfolding seed_providers AreEncodable lookup
  seed_providers_lem [] old l nodup good h =
      (old, l, refl, ((λ name config has. cc), λ name absent. refl), λ key x has. has)
  seed_providers_lem ((name, config) ∷ rest) old l nodup good h =
      let (js, l', e, stands) = decode_fields-Seeded lib.sdk distinct law config l good.0 h in
      let (numbered, kept) =
        decode_fields-IsNumbered lib.sdk distinct law config l l' js good.0 h e in
      let (new, l'', e', provides, kept') =
        seed_providers_lem rest (insert name (Json.object js) old) l' nodup.1 good.1 numbered in
      (
        new,
        l'',
        rw (e, e') refl,
        Provides-cons name config rest js old new l'' nodup.0
            (SeededFields-Extends lib.sdk kept' stands) provides,
        λ key x has. kept' key x (kept key x has),
      )
