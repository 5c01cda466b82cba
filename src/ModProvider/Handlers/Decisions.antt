-- ===== src/ModProvider/Handlers/Decisions.antt =====
-- What `Diff` and `Check` decide.
use pulumi_terraform_module.Prelude.{
  String, ◌≡◌, refl, sym, ◌∙◌, Bool, true, false, not, ◌||◌, Option, none, some, [], ◌∷◌, ◌==◌,
  eq_iff, arith, Option-cases, Bool-cases, ap, inl, inr, if◌then◌else◌,
}
use pulumi_terraform_module.Prelude.Outcome.{Outcome, ok, err, panic, ok-injective}
use pulumi_terraform_module.Prelude.Dict.{Dict, lookup, lookup-insert}
use pulumi_terraform_module.Pulumi.Value.{PropertyMap}
use pulumi_terraform_module.TfSandbox.Resources.{Change}
use pulumi_terraform_module.TfSandbox.Plan.{ChangeKind, ResourcePlan, Plan, change_kind}
use pulumi_terraform_module.ModProvider.Run.{Run, call}
use pulumi_terraform_module.ModProvider.Run.Laws.{all, result->>=}
use pulumi_terraform_module.ModProvider.Module.{Env, ModuleSchema, plan_no_refresh}
use pulumi_terraform_module.ModProvider.Handlers.{
  Request, is_no_op, or_changed, Autonaming, AutonamingMode, enforce, propose, disable, proposed,
  named_by, autonamed, checked, check, resources_changed, outputs_changed, diff, diff_by_plan,
}

-- The plan leaves the resource as it is.
abbrev is_no_op_kind : Outcome ChangeKind → Bool
is_no_op_kind (ok kind) = is_no_op kind
is_no_op_kind _ = false

abbrev pub is_unchanged : String × ResourcePlan → Bool
is_unchanged (a, p) = is_no_op_kind (change_kind p)

abbrev pub is_same_output : String × Change → Bool
is_same_output (name, c) = c.actions.no_op

all-outputs_changed :
    (changes : Dict Change) → outputs_changed changes ≡ not (all is_same_output changes)
unfolding outputs_changed
all-outputs_changed [] = refl
all-outputs_changed ((name, c) ∷ rest) = ground (arith, all-outputs_changed rest)

or_changed_lem :
    (kind : Outcome ChangeKind) (more : Outcome Bool) {b : Bool}
    → or_changed kind more ≡ ok b
    → (c : Bool) × (more ≡ ok c) × (b ≡ (not (is_no_op_kind kind) || c))
or_changed_lem (ok kind) (ok c) h = (c, refl, sym (ok-injective _ _ h))
or_changed_lem (ok kind) (err e) h = cc
or_changed_lem (ok kind) panic h = cc
or_changed_lem (err e) more h = cc
or_changed_lem panic more h = cc

all-resources_changed :
    (plans : Dict ResourcePlan) {b : Bool}
    → resources_changed plans ≡ ok b
    → b ≡ not (all is_unchanged plans)
unfolding resources_changed
all-resources_changed [] h = ground arith
all-resources_changed ((a, p) ∷ rest) h =
    let (c, e, same) = or_changed_lem (change_kind p) (resources_changed rest) h in
    same ∙ rw (all-resources_changed rest e) (ground arith)

-- The name for a resource that has none: the one that the engine proposes, unless autonaming is
-- disabled, and otherwise the unique one.
abbrev pub new_name : Option Autonaming → Option String → Option String
new_name none unique = unique
new_name (some a) unique = elim a.mode [
  | enforce ↦ some a.proposed_name
  | propose ↦ some a.proposed_name
  | disable ↦ unique
]

autonamed-eq-ok :
    (auto : Option Autonaming) (unique : Option String) {name : String}
    → autonamed auto unique ≡ ok name
    → new_name auto unique ≡ some name
autonamed-eq-ok none none h = cc
autonamed-eq-ok (some a) none h = cc
autonamed-eq-ok none (some u) h = ap some (ok-injective u _ h)
autonamed-eq-ok (some a) (some u) h = by_mode a.mode h
  where
    by_proposed :
        {name : String} → proposed a.proposed_name ≡ ok name → some a.proposed_name ≡ some name
    by_proposed h = elim (Bool-cases (a.proposed_name == "")) [
      | inl e ↦ cc (rw (e, proposed) at h)
      | inr e ↦ ap some (ok-injective _ _ (rw (e, proposed) at h))
    ]

    by_mode :
        (mode : AutonamingMode) {name : String}
        → named_by a u mode ≡ ok name
        → (elim mode [
          | enforce ↦ some a.proposed_name
          | propose ↦ some a.proposed_name
          | disable ↦ some u
        ])
          ≡ some name
    by_mode enforce h = by_proposed h
    by_mode propose h = by_proposed h
    by_mode disable h = ap some (ok-injective u _ h)

module _ {V : Type 0} (new_string : String → V) where
  -- What the entry `name` becomes.
  abbrev pub name_input : Bool → Option String → Option V → Option V → Option V
  name_input has_name_input fresh old (some given) = some given
  name_input false fresh old none = none
  name_input true fresh (some before) none = some before
  name_input true none none none = none
  name_input true (some name) none none = some (new_string name)

  -- `Check` changes no input but `name`, and that only if it is not given and the schema has it as a
  -- string: then it takes the value that it had before, or else the name that the engine proposes or,
  -- without a proposal or with autonaming disabled, the unique name.
  pub lookup-check :
      (has_name_input : Bool) (auto : Option Autonaming) (unique : Option String)
      (olds news : Dict V) (k : String) {inputs : Dict V}
      → check new_string has_name_input auto unique olds news ≡ ok inputs
      → lookup k inputs ≡ (
          if "name" == k
          then name_input has_name_input
              (new_name auto unique)
              (lookup "name" olds)
              (lookup "name" news)
          else lookup k news)
  unfolding check
  lookup-check false auto unique olds news k {inputs} h =
      rw (← ok-injective news inputs h) (elim (Bool-cases ("name" == k)) [
        | inr e ↦ rw e refl
        | inl e ↦ rw (e, ← (eq_iff "name" k).0 e) (unnamed (lookup "name" news))
      ])
    where
      unnamed :
          (given : Option V)
          → given ≡ name_input false (new_name auto unique) (lookup "name" olds) given
      unnamed none = refl
      unnamed (some v) = refl
  lookup-check true auto unique olds news k {inputs} h = elim (Option-cases (lookup "name" news)) [
    | inr (v, given) ↦
        rw (given, ← ok-injective news inputs (rw (given, check) at h))
          (ground (arith, eq_iff "name" k))
    | inl missing ↦ elim (Option-cases (lookup "name" olds)) [
      | inr (v, before) ↦
          rw (missing, before, ← ok-injective _ inputs (rw (missing, before, check) at h))
            (lookup-insert "name" k v news)
      | inl new ↦ named (autonamed auto unique) refl missing new (rw (missing, new, check) at h)
    ]
  ]
    where
      named :
          (o : Outcome String)
          → autonamed auto unique ≡ o
          → lookup "name" news ≡ none
          → lookup "name" olds ≡ none
          → checked new_string news none o ≡ ok inputs
          → lookup k inputs ≡ (
              if "name" == k
              then name_input true (new_name auto unique) (lookup "name" olds) (lookup "name" news)
              else lookup k news)
      named (ok name) e missing new h =
          rw (missing, new, autonamed-eq-ok auto unique e, ← ok-injective _ inputs h)
            (lookup-insert "name" k (new_string name) news)
      named (err m) e missing new h = cc
      named panic e missing new h = cc

from_not : (b : Bool) → not b ≡ false → b ≡ true
from_not true h = refl
from_not false h = sym h

neither : (b c : Bool) → (b || c) ≡ false → (b ≡ false) × (c ≡ false)
neither false c h = (refl, h)
neither true c h = cc

not_different :
    {Struct : Type 0} (b : Bool) (later : Run Struct Bool)
    → (if not b then call (ok true) else later).result ≡ ok false
    → (b ≡ true) × (later.result ≡ ok false)
not_different true later h = (refl, h)
not_different false later h = cc

module _ {Struct : Type 0} (env : Env Struct) where
  -- What a `Diff` without changes rests on.
  pub record Unchanged (req : Request) : Type 0 where
    pub old_inputs : PropertyMap
    pub new_inputs : PropertyMap
    pub plan : Plan
    pub are_read : (req.old_inputs ≡ ok old_inputs) × (req.inputs ≡ ok new_inputs)
    pub are_equal : env.deep_equals old_inputs new_inputs ≡ true
    pub is_planned : (plan_no_refresh env).result ≡ ok plan
    pub keeps_resources : all is_unchanged plan.by_address ≡ true
    pub keeps_outputs : all is_same_output plan.raw_plan.output_changes ≡ true

  -- `Diff` reports no changes only if the inputs are equal, and the plan that terraform then makes
  -- leaves every resource and every output as it is.
  pub diff-Unchanged :
      (schema : ModuleSchema) (version : String) (providers : Dict PropertyMap) (req : Request)
      → (diff env schema version providers req).result ≡ ok false
      → Unchanged req
  unfolding diff diff_by_plan
  diff-Unchanged schema version providers req h =
      let (old_inputs, a, h₁, _) = result->>= _ _ h in
      let (new_inputs, b, h₂, _) = result->>= _ _ h₁ in
      let (same, later) = not_different (env.deep_equals old_inputs new_inputs) _ h₂ in
      let (old, _, h₃, _) = result->>= _ _ later in
      let (renamed, _, h₄, _) = result->>= _ _ h₃ in
      let (plan, planned, h₅, _) = result->>= _ _ h₄ in
      let (changed, visited, h₆, _) = result->>= _ _ h₅ in
      let (no_resource, no_output) =
        neither changed (outputs_changed plan.raw_plan.output_changes) (ok-injective _ _ h₆) in
      record {
        old_inputs = old_inputs;
        new_inputs = new_inputs;
        plan = plan;
        are_read = (a, b);
        are_equal = same;
        is_planned = planned;
        keeps_resources =
            from_not _ (sym (all-resources_changed plan.by_address visited) ∙ no_resource);
        keeps_outputs =
            from_not _ (sym (all-outputs_changed plan.raw_plan.output_changes) ∙ no_output);
      }
