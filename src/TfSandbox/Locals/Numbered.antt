-- ===== src/TfSandbox/Locals/Numbered.antt =====
-- The locals of the seed file are numbered from one on, and a new one never replaces another.
use pulumi_terraform_module.Prelude.{
  ℕ, suc, ◌<◌, ◌≡◌, refl, String, false, none, some, ◌==◌, eq_iff, arith, Bool-cases, inl, inr, [],
  ◌∷◌, sym, ap, ◌∙◌, eq_refl, length,
}
use pulumi_terraform_module.Prelude.Dict.{Dict, lookup, insert, lookup-insert}
use pulumi_terraform_module.Pulumi.Json.{Json}
use pulumi_terraform_module.TfSandbox.Locals.{Sdk, Locals, local_key, create_local}
use text.Mathlib.TextLemmas.{append_cancel_left}

-- `%d` writes distinct numbers differently.
abbrev pub IsDecimal : Sdk → Type 0
IsDecimal sdk = (i j : ℕ) → sdk.decimal i ≡ sdk.decimal j → i ≡ j

-- There are as many locals as were counted, and the next keys are free.
pub record IsNumbered (sdk : Sdk) (l : Locals) : Type 0 where
  pub counted : length l.entries ≡ l.counter
  pub next_free : (i : ℕ) → l.counter < i → lookup (local_key sdk i) l.entries ≡ none

-- Every local is kept.
abbrev pub Keeps : Dict Json → Dict Json → Type 0
Keeps e e' = (key : String) (v : Json) → lookup key e ≡ some v → lookup key e' ≡ some v

abbrev pub Extends : Locals → Locals → Type 0
Extends l l' = Keeps l.entries l'.entries

length-insert :
    (key : String) (v : Json) (m : Dict Json)
    → lookup key m ≡ none
    → length (insert key v m) ≡ suc (length m)
unfolding lookup insert
length-insert key v [] h = refl
length-insert key v ((at, w) ∷ m) h = elim (Bool-cases (at == key)) [
  | inl e ↦ cc (rw e at h)
  | inr e ↦ rw e (ap suc (length-insert key v m (rw e at h)))
]

module _ (sdk : Sdk) (distinct : IsDecimal sdk) where
  local_key-eq : (i j : ℕ) → local_key sdk i ≡ local_key sdk j → i ≡ j
  local_key-eq i j h = distinct i j (append_cancel_left "local" (sdk.decimal i) (sdk.decimal j) h)

  other_key : (i j : ℕ) → i < j → (local_key sdk i == local_key sdk j) ≡ false
  other_key i j h = elim (Bool-cases (local_key sdk i == local_key sdk j)) [
    | inl e ↦
        absurd
          (omega (arith, h, local_key-eq i j ((eq_iff (local_key sdk i) (local_key sdk j)).0 e)))
    | inr e ↦ e
  ]

  pub create_local-IsNumbered :
      (v : Json) (l : Locals) → IsNumbered sdk l → IsNumbered sdk ((create_local sdk v l).1)
  unfolding create_local
  create_local-IsNumbered v l h = record {
    counted =
        length-insert (local_key sdk (suc l.counter)) v l.entries
          (h.next_free (suc l.counter) (omega arith))
        ∙ ap suc h.counted;
    next_free = λ i above.
        rw
          (
            lookup-insert (local_key sdk (suc l.counter)) (local_key sdk i) v l.entries,
            other_key (suc l.counter) i above,
          )
          (h.next_free i (omega (arith, above)));
  }

  pub create_local-Extends :
      (v : Json) (l : Locals) → IsNumbered sdk l → Extends l ((create_local sdk v l).1)
  unfolding create_local
  create_local-Extends v l h key w has = elim (Bool-cases (local_key sdk (suc l.counter) == key)) [
    | inr e ↦ rw (lookup-insert (local_key sdk (suc l.counter)) key v l.entries, e) has
    | inl e ↦ cc (
      rw (sym ((eq_iff (local_key sdk (suc l.counter)) key).0 e)) at has,
      h.next_free (suc l.counter) (omega arith),
    )
  ]

  pub create_local-lookup :
      (v : Json) (l : Locals)
      → lookup (local_key sdk (suc l.counter)) ((create_local sdk v l).1).entries ≡ some v
  unfolding create_local
  create_local-lookup v l =
      rw
        (
          lookup-insert (local_key sdk (suc l.counter)) (local_key sdk (suc l.counter)) v l.entries,
          eq_refl (local_key sdk (suc l.counter)),
        )
        refl
