-- ===== src/ModProvider/Overrides.antt =====
-- pkg/modprovider/tfmodules.go: the directory of a resolved module, the override of a schema that
-- applies to a version, and the lists of required names. Versions (`V`) and their parsing and order are
-- parameters, as are schemas (`S`).
use pulumi_terraform_module.Prelude.{
  ℕ, zero, suc, String, Bool, true, false, not, Option, none, some, List, [], ◌∷◌, ◌++◌, ◌==◌,
  if◌then◌else◌,
}
use pulumi_terraform_module.Prelude.Outcome.{Outcome, ok, err, panic}
use pulumi_terraform_module.TfSandbox.Keys.{contains}
pub mod Laws

-- `modulesJSONEntry`
pub record Entry : Type 0 where
  pub key : String
  pub source : String
  pub dir : String

-- The loop of `findResolvedModuleDir`, with `matchCount` and `hit`.
unfoldable pub count_matches : String → List Entry → ℕ → String → ℕ × String
count_matches key [] count hit = (count, hit)
count_matches key (m ∷ ms) count hit =
    count_matches key ms (if m.key == key then suc count else count)
      (if m.key == key then m.dir else hit)

abbrev by_count : ℕ × String → Outcome String
by_count (zero, hit) = err "no module resolution in modules.json"
by_count (suc zero, hit) = ok hit
by_count (suc (suc n), hit) = err "ambiguous resolution in modules.json"

-- `findResolvedModuleDir`; a nil document fails the assertion.
unfoldable pub find_resolved_module_dir : Option (List Entry) → String → Outcome String
unfolding count_matches
find_resolved_module_dir none key = panic
find_resolved_module_dir (some modules) key = by_count (count_matches key modules 0 "")

-- `ModuleSchemaOverride`
pub record ModuleSchemaOverride (S : Type 0) : Type 0 where
  pub source : String
  pub partial_schema : S
  pub minimum_version : Option String
  pub maximum_version : String

-- Whether both bounds admit the version. An invalid bound panics (`version.Must`), the maximum first.
abbrev pub both : Outcome Bool → Outcome Bool → Outcome Bool
both (ok most) (ok least) = ok (if least then most else false)
both (ok most) failed = failed
both failed least = failed

-- The result of a round: this override, or those after it
abbrev pub chosen : {S : Type 0} → Outcome Bool → S → Outcome (Option S) → Outcome (Option S)
chosen (ok true) schema later = ok (some schema)
chosen (ok false) schema later = later
chosen (err e) schema later = err e
chosen panic schema later = panic

module _ {V : Type 0} (new_version : String → Option V)
    (less_than greater_than : V → V → Bool) where
  abbrev pub not_below : V → Option V → Outcome Bool
  not_below v none = panic
  not_below v (some least) = ok (not (less_than v least))

  abbrev pub reaches_minimum : V → Option String → Outcome Bool
  reaches_minimum v none = ok true
  reaches_minimum v (some text) = not_below v (new_version text)

  abbrev pub not_above : V → Option V → Outcome Bool
  not_above v none = panic
  not_above v (some most) = ok (not (greater_than v most))

  -- The rest of a round, for an override of the source: a version that is not valid has none.
  abbrev pub round :
      {S : Type 0} → Option V → ModuleSchemaOverride S → Outcome (Option S) → Outcome (Option S)
  round none o later = later
  round (some v) o later =
      chosen
        (both (not_above v (new_version o.maximum_version)) (reaches_minimum v o.minimum_version))
        o.partial_schema later

  -- `hasBuiltinModuleSchemaOverrides`
  unfoldable pub has_builtin_overrides :
      {S : Type 0} → String → String → List (ModuleSchemaOverride S) → Outcome (Option S)
  has_builtin_overrides source version [] = ok none
  has_builtin_overrides source version (o ∷ os) =
      let later = has_builtin_overrides source version os in
      if not (source == o.source) then later else round (new_version version) o later

-- The loops over `NonNilOutputs` and `RequiredInputs` in `combineInferredModuleSchema`
unfoldable pub add_required : List String → List String → List String
add_required existing [] = existing
add_required existing (name ∷ names) =
    add_required (if contains existing name then existing else existing ++ (name ∷ [])) names
