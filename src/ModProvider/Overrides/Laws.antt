-- ===== src/ModProvider/Overrides/Laws.antt =====
-- The loops against their descriptions.
use pulumi_terraform_module.Prelude.{
  ℕ, suc, String, ◌≡◌, refl, ◌∙◌, Bool, true, false, not, ◌||◌, Option, none, some, List, [], ◌∷◌,
  ◌++◌, ◌==◌, eq_iff, arith, Bool-cases, Option-cases, inl, inr, is_some, if◌then◌else◌,
}
use pulumi_terraform_module.Prelude.Outcome.{Outcome, ok, err}
use pulumi_terraform_module.TfSandbox.Keys.{contains}
use pulumi_terraform_module.ModProvider.Overrides.{
  Entry, count_matches, by_count, find_resolved_module_dir, ModuleSchemaOverride,
  has_builtin_overrides, add_required, reaches_minimum, not_above, round,
}

-- The directories of the modules with the key.
abbrev pub dirs_of : String → List Entry → List String
dirs_of key [] = []
dirs_of key (m ∷ ms) = if m.key == key then m.dir ∷ dirs_of key ms else dirs_of key ms

abbrev pub only_one : List String → Outcome String
only_one [] = err "no module resolution in modules.json"
only_one (dir ∷ []) = ok dir
only_one (dir ∷ other ∷ dirs) = err "ambiguous resolution in modules.json"

count_many :
    (key : String) (ms : List Entry) (n : ℕ) (hit : String)
    → by_count (count_matches key ms (suc (suc n)) hit) ≡ err "ambiguous resolution in modules.json"
unfolding count_matches
count_many key [] n hit = refl
count_many key (m ∷ ms) n hit = elim (Bool-cases (m.key == key)) [
  | inl e ↦ rw e (count_many key ms (suc n) m.dir)
  | inr e ↦ rw e (count_many key ms n hit)
]

count_one :
    (key : String) (ms : List Entry) (hit : String)
    → by_count (count_matches key ms 1 hit) ≡ only_one (hit ∷ dirs_of key ms)
unfolding count_matches
count_one key [] hit = refl
count_one key (m ∷ ms) hit = elim (Bool-cases (m.key == key)) [
  | inl e ↦ rw e (count_many key ms 0 m.dir)
  | inr e ↦ rw e (count_one key ms hit)
]

count_none :
    (key : String) (ms : List Entry) (hit : String)
    → by_count (count_matches key ms 0 hit) ≡ only_one (dirs_of key ms)
unfolding count_matches
count_none key [] hit = refl
count_none key (m ∷ ms) hit = elim (Bool-cases (m.key == key)) [
  | inl e ↦ rw e (count_one key ms m.dir)
  | inr e ↦ rw e (count_none key ms hit)
]

-- `findResolvedModuleDir` gives the directory of the one module with the key, and an error if there is
-- none or more than one.
pub find_resolved_module_dir-only_one :
    (modules : List Entry) (key : String)
    → find_resolved_module_dir (some modules) key ≡ only_one (dirs_of key modules)
unfolding find_resolved_module_dir
find_resolved_module_dir-only_one modules key = count_none key modules ""

contains-append :
    (xs ys : List String) (k : String) → contains (xs ++ ys) k ≡ (contains xs k || contains ys k)
contains-append [] ys k = refl
contains-append (x ∷ xs) ys k = ground (arith, contains-append xs ys k)

-- Each name once.
abbrev pub is_nodup : List String → Bool
is_nodup [] = true
is_nodup (x ∷ xs) = if contains xs x then false else is_nodup xs

is_nodup-append :
    (xs : List String) (k : String)
    → contains xs k ≡ false
    → is_nodup xs ≡ true
    → is_nodup (xs ++ (k ∷ [])) ≡ true
is_nodup-append [] k h u = refl
is_nodup-append (x ∷ xs) k h u =
    ground (arith, is_nodup-append xs k, contains-append xs (k ∷ []) x, eq_iff k x, eq_iff x k)

-- The combined list has the names of both, and each once if that was so before.
pub add_required_lem :
    (existing names : List String) (k : String)
    → is_nodup existing ≡ true
    → (contains (add_required existing names) k ≡ (contains existing k || contains names k))
      × (is_nodup (add_required existing names) ≡ true)
unfolding add_required
add_required_lem existing [] k u = (ground arith, u)
add_required_lem existing (name ∷ names) k u = elim (Bool-cases (contains existing name)) [
  | inl e ↦
      let (a, b) = add_required_lem existing names k u in
      rw e (a ∙ ground (arith, eq_iff name k), b)
  | inr e ↦
      let (a, b) =
        add_required_lem (existing ++ (name ∷ [])) names k (is_nodup-append existing name e u) in
      rw e (a ∙ ground (arith, contains-append existing (name ∷ []) k), b)
]

module _ {V : Type 0} (new_version : String → Option V)
    (less_than greater_than : V → V → Bool) where
  abbrev pub is_at_least : V → Option V → Bool
  is_at_least v none = false
  is_at_least v (some least) = not (less_than v least)

  abbrev pub is_at_most : V → Option V → Bool
  is_at_most v none = false
  is_at_most v (some most) = not (greater_than v most)

  abbrev pub reaches : V → Option String → Bool
  reaches v none = true
  reaches v (some text) = is_at_least v (new_version text)

  abbrev pub is_in_range : {S : Type 0} → Option V → ModuleSchemaOverride S → Bool
  is_in_range none o = false
  is_in_range (some v) o =
      if reaches v o.minimum_version then is_at_most v (new_version o.maximum_version) else false

  -- The first override for the source whose bounds admit the version.
  abbrev pub first_for : {S : Type 0} → String → Option V → List (ModuleSchemaOverride S) → Option S
  first_for source v [] = none
  first_for source v (o ∷ os) =
      if source == o.source
      then (if is_in_range v o then some o.partial_schema else first_for source v os)
      else first_for source v os

  abbrev pub is_optional_version : Option String → Bool
  is_optional_version none = true
  is_optional_version (some text) = is_some (new_version text)

  -- The bounds are versions, which `parseModuleSchemaOverrides` sees to.
  abbrev pub are_valid : {S : Type 0} → List (ModuleSchemaOverride S) → Bool
  are_valid [] = true
  are_valid (o ∷ os) =
      if is_some (new_version o.maximum_version)
      then (if is_optional_version o.minimum_version then are_valid os else false)
      else false

  reaches_minimum-ok :
      (v : V) (m : Option String)
      → is_optional_version m ≡ true
      → reaches_minimum new_version less_than greater_than v m ≡ ok (reaches v m)
  reaches_minimum-ok v none h = refl
  reaches_minimum-ok v (some text) h = elim (Option-cases (new_version text)) [
    | inl e ↦ cc (rw e at h)
    | inr (least, e) ↦ rw e refl
  ]

  not_above-ok :
      (v : V) (m : Option V)
      → is_some m ≡ true
      → not_above new_version less_than greater_than v m ≡ ok (is_at_most v m)
  not_above-ok v none h = cc
  not_above-ok v (some most) h = refl

  round_lem :
      {S : Type 0} (v : Option V) (o : ModuleSchemaOverride S) (later : Option S)
      → is_some (new_version o.maximum_version) ≡ true
      → is_optional_version o.minimum_version ≡ true
      → round new_version less_than greater_than v o (ok later)
        ≡ ok (if is_in_range v o then some o.partial_schema else later)
  round_lem none o later most least = refl
  round_lem (some v) o later most least =
      rw (not_above-ok v _ most, reaches_minimum-ok v _ least) (ground arith)

  -- `hasBuiltinModuleSchemaOverrides` never panics on overrides whose bounds are versions, and gives the
  -- first one for the source whose bounds, both included, admit the version.
  pub has_builtin_overrides-first_for :
      {S : Type 0} (source version : String) (overrides : List (ModuleSchemaOverride S))
      → are_valid overrides ≡ true
      → has_builtin_overrides new_version less_than greater_than source version overrides
        ≡ ok (first_for source (new_version version) overrides)
  unfolding has_builtin_overrides
  has_builtin_overrides-first_for source version [] h = refl
  has_builtin_overrides-first_for source version (o ∷ os) h =
      let ih = has_builtin_overrides-first_for source version os (ground arith) in
      elim (Bool-cases (source == o.source)) [
        | inr e ↦ rw e ih
        | inl e ↦ rw (e, ih) (round_lem (new_version version) o _ (ground arith) (ground arith))
      ]
