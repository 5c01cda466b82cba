-- ===== src/ModProvider/Remap/Laws.antt =====
-- What the loop over the inputs leaves.
use pulumi_terraform_module.Prelude.{
  String, ◌≡◌, refl, ◌∙◌, Bool, true, false, ◌||◌, Option, none, some, List, [], ◌∷◌, ◌==◌, eq_iff,
  eq_refl, ◌⊎◌, or_else, Bool-cases, Option-cases, inl, inr, arith,
}
use pulumi_terraform_module.Prelude.Dict.{Dict, lookup}
use pulumi_terraform_module.Pulumi.Value.{PropertyMap, find, find-insert, find-erase}
use pulumi_terraform_module.ModProvider.Remap.{rename_turn, rename_inputs}

abbrev pub visits : List String → String → Bool
visits [] k = false
visits (j ∷ ks) k = j == k || visits ks k

-- The key `k` has the new name `t`, which no other key has, and no new name is a key that is renamed.
pub record Renames (mappings : Dict String) (k t : String) : Type 0 where
  pub maps : lookup k mappings ≡ some t
  pub alone : (j : String) → lookup j mappings ≡ some t → j ≡ k
  pub apart : (j u : String) → lookup j mappings ≡ some u → lookup u mappings ≡ none

abbrev step : Dict String → String → PropertyMap → PropertyMap
step mappings j m = rename_turn mappings j (find j m) m

none_some {ℓ} : {A B : Type ℓ} {o : Option A} {a : A} → o ≡ none → o ≡ some a → B
none_some e f = cc

module _ (mappings : Dict String) (k t : String) (r : Renames mappings k t) where
  t_not_k : (k == t) ≡ false
  t_not_k = elim (Bool-cases (k == t)) [
    | inr e ↦ e
    | inl e ↦ none_some (r.apart k t r.maps) (rw ((eq_iff k t).0 e) at (r.maps))
  ]

  -- The turn of another key changes nothing at `k` and `t`.
  find-step :
      (j i : String) (m : PropertyMap)
      → (j == i) ≡ false ⊎ (lookup j mappings ≡ none)
      → ((u : String) → lookup j mappings ≡ some u → (u == i) ≡ false)
      → find i (step mappings j m) ≡ find i m
  find-step j i m other never = elim (Option-cases (find j m)) [
    | inl e ↦ rw e refl
    | inr (v, e) ↦ elim (Option-cases (lookup j mappings)) [
      | inl free ↦ rw (e, free) refl
      | inr (u, to) ↦ elim other [
        | inl away ↦ rw (e, to, find-erase, find-insert, away, never u to) refl
        | inr free ↦ none_some free to
      ]
    ]
  ]

  find_k-step :
      (j : String) (m : PropertyMap) → (j == k) ≡ false → find k (step mappings j m) ≡ find k m
  find_k-step j m away = find-step j k m (inl away) λ u to. elim (Bool-cases (u == k)) [
    | inr e ↦ e
    | inl e ↦ none_some (r.apart j u to) (rw (← (eq_iff u k).0 e) at (r.maps))
  ]

  t_turn : (j : String) → ((j == t) ≡ false) ⊎ (lookup j mappings ≡ none)
  t_turn j = elim (Bool-cases (j == t)) [
    | inr e ↦ inl e
    | inl e ↦ inr (rw ((eq_iff j t).0 e) (r.apart k t r.maps))
  ]

  find_t-step :
      (j : String) (m : PropertyMap) → (j == k) ≡ false → find t (step mappings j m) ≡ find t m
  find_t-step j m away = find-step j t m (t_turn j) λ u to. elim (Bool-cases (u == t)) [
    | inr e ↦ e
    | inl e ↦ ground (arith, r.alone j (rw ((eq_iff u t).0 e) at to), eq_iff j k)
  ]

  -- The turn of `k` moves its value to `t`.
  find-step_self :
      (m : PropertyMap)
      → (find k (step mappings k m) ≡ none)
        × (find t (step mappings k m) ≡ or_else (find k m) (find t m))
  find-step_self m = elim (Option-cases (find k m)) [
    | inl e ↦ (rw e e, rw e refl)
    | inr (v, e) ↦
        rw
          (
            e,
            r.maps,
            find-erase,
            find-erase,
            find-insert,
            find-insert,
            t_not_k,
            eq_refl k,
            eq_refl t,
          )
          (refl, refl)
  ]

  -- Once `k` is gone, nothing happens at `k` and `t`.
  find-rename_inputs_gone :
      (ks : List String) (m : PropertyMap)
      → find k m ≡ none
      → (find k (rename_inputs mappings ks m) ≡ none)
        × (find t (rename_inputs mappings ks m) ≡ find t m)
  unfolding rename_inputs
  find-rename_inputs_gone [] m gone = (gone, refl)
  find-rename_inputs_gone (j ∷ ks) m gone = elim (Bool-cases (j == k)) [
    | inl e ↦ rw ((eq_iff j k).0 e, gone) (find-rename_inputs_gone ks m gone)
    | inr away ↦
        let (a, b) = find-rename_inputs_gone ks (step mappings j m) (find_k-step j m away ∙ gone) in
        (a, b ∙ find_t-step j m away)
  ]

  -- The renaming in `prepSandbox`, whatever the order of the visit: if `t` is the new name of `k` alone,
  -- and no new name is a key that is renamed, then `k` is gone and `t` has the value of `k`, or, if there
  -- was none, the value that it had.
  pub find-rename_inputs :
      (ks : List String) (m : PropertyMap)
      → visits ks k ≡ true
      → (find k (rename_inputs mappings ks m) ≡ none)
        × (find t (rename_inputs mappings ks m) ≡ or_else (find k m) (find t m))
  unfolding rename_inputs
  find-rename_inputs [] m h = cc
  find-rename_inputs (j ∷ ks) m h = elim (Bool-cases (j == k)) [
    | inl e ↦
        let (gone, moved) = find-step_self m in
        let (a, b) = find-rename_inputs_gone ks (step mappings k m) gone in
        rw ((eq_iff j k).0 e) (a, b ∙ moved)
    | inr away ↦
        let (a, b) = find-rename_inputs ks (step mappings j m) (rw away at h) in
        (a, b ∙ (rw (find_k-step j m away, find_t-step j m away) refl))
  ]
