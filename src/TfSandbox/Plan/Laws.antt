-- ===== src/TfSandbox/Plan/Laws.antt =====
-- What a plan shows of its resources and outputs.
use pulumi_terraform_module.Prelude.{
  String, ◌≡◌, refl, sym, ap, ◌∙◌, Bool, false, not, ◌&&◌, Option, none, some, List, [], ◌∷◌, ◌++◌,
  ◌==◌, eq_iff, or_else, or_else-none, arith, if◌then◌else◌, Bool-cases, Option-cases,
  some-injective, inl, inr, starts_with, ◌<>◌, true,
}
use pulumi_terraform_module.Prelude.Outcome.{ok, ok-injective}
use pulumi_terraform_module.Prelude.Dict.{Dict, lookup, lookup-insert, NodupKeys}
use pulumi_terraform_module.Pulumi.Json.{Json}
use pulumi_terraform_module.Pulumi.Value
use pulumi_terraform_module.Pulumi.Value.{PropertyValue, PropertyMap}
use pulumi_terraform_module.TfSandbox.Keys.Laws.{encode}
use pulumi_terraform_module.TfSandbox.Secrets.{make_secret_conservative}
use pulumi_terraform_module.TfSandbox.State.Laws.{is_true}
use pulumi_terraform_module.TfSandbox.Resources.{
  StateResources, new_state_resources, Change, ResourceChange, unknown,
}
use pulumi_terraform_module.TfSandbox.Outputs.{is_secret_key, is_after_unknown, mark, bool_or_false}
use pulumi_terraform_module.TfSandbox.Outputs.Laws.{find-output_loop}
use pulumi_terraform_module.TfSandbox.Plan.{
  ResourcePlan, RawPlan, Plan, is_empty, add_changes, new_plan, find_resource_plan,
  plan_output_is_secret, plan_output_value, plan_outputs,
}

-- The last change at the address that is not of a data source.
abbrev pub last_change : String → List ResourceChange → Option ResourceChange
last_change a [] = none
last_change a (ch ∷ rest) =
    or_else (last_change a rest) (if not ch.is_data && (ch.address == a) then some ch else none)

address-last_change :
    (a : String) (changes : List ResourceChange) {ch : ResourceChange}
    → last_change a changes ≡ some ch
    → ch.address ≡ a
address-last_change a [] h = cc
address-last_change a (c ∷ rest) h = elim (Option-cases (last_change a rest)) [
  | inl e ↦ ground (arith, eq_iff c.address a)
  | inr (q, e) ↦ address-last_change a rest (e ∙ rw (e) at h)
]

-- The plan of a resource, for a change at the address `a`.
abbrev pub planned_change :
    StateResources → Bool → String → Option ResourceChange → Option ResourcePlan
planned_change planned drift a none = none
planned_change planned drift a (some ch) =
    some (record { resource_change = ch; planned_state = lookup a planned; drift = drift })

lookup-add_changes :
    (planned : StateResources) (drift : Bool) (changes : List ResourceChange) (a : String)
    (plans : Dict ResourcePlan)
    → lookup a (add_changes planned drift changes plans)
      ≡ or_else (planned_change planned drift a (last_change a changes)) (lookup a plans)
unfolding add_changes
lookup-add_changes planned drift [] a plans = refl
lookup-add_changes planned drift (ch ∷ rest) a plans =
    rw (lookup-add_changes planned drift rest a) (
      ground (
        arith,
        eq_iff ch.address a,
        lookup-insert ch.address a
            (record {
              resource_change = ch;
              planned_state = lookup ch.address planned;
              drift = drift;
            })
            plans,
      ))

-- A plan that `NewPlan` accepts has no changes beside drift, and in it an address has the last change
-- for it that is not of a data source, the planned state found at that address, and the drift flag
-- exactly when the plan is one of drift.
pub new_plan-find :
    (raw : RawPlan) (a : String) {p : Plan}
    → new_plan raw ≡ ok p
    → ((not (is_empty raw.resource_drift) && not (is_empty raw.resource_changes)) ≡ false)
      × (find_resource_plan p a
          ≡ planned_change
              (new_state_resources raw.planned_values)
              (not (is_empty raw.resource_drift))
              a
              (last_change a (raw.resource_changes ++ raw.resource_drift)))
unfolding new_plan find_resource_plan
new_plan-find raw a {p} h =
    elim (Bool-cases (not (is_empty raw.resource_drift) && not (is_empty raw.resource_changes))) [
      | inl both ↦ cc (rw (both, new_plan) at h)
      | inr one ↦
          let same = ok-injective _ p (rw (one, new_plan) at h) in
          (
            one,
            ap (λ q. lookup a q.by_address) (sym same)
                ∙ (lookup-add_changes (new_state_resources raw.planned_values)
                      (not (is_empty raw.resource_drift))
                      (raw.resource_changes ++ raw.resource_drift) a []
                    ∙ or_else-none _),
          )
    ]

-- In the plan, a resource's plan stands at its own address.
pub address-find_resource_plan :
    (raw : RawPlan) (a : String) {p : Plan} {rp : ResourcePlan}
    → new_plan raw ≡ ok p
    → find_resource_plan p a ≡ some rp
    → rp.resource_change.address ≡ a
address-find_resource_plan raw a {rp} h f =
    elim (Option-cases (last_change a (raw.resource_changes ++ raw.resource_drift))) [
      | inl e ↦ cc (f, rw e at ((new_plan-find raw a h).1))
      | inr (ch, e) ↦
          let same = some-injective _ rp (sym (rw e at ((new_plan-find raw a h).1)) ∙ f) in
          ap (λ q. q.resource_change.address) (sym same)
          ∙ address-last_change a (raw.resource_changes ++ raw.resource_drift) e
    ]

-- `after_unknown` names no part that is not known.
abbrev pub knows_all : Json → Bool
knows_all Json.null = true
knows_all (Json.bool b) = not b
knows_all _ = false

-- The internal output is known to be `true`.
abbrev pub is_set : Option Change → Bool
is_set none = false
is_set (some c) = knows_all c.after_unknown && is_true (some c.after)

not-is_after_unknown : (u : Json) → knows_all u ≡ not (is_after_unknown u)
not-is_after_unknown Json.null = refl
not-is_after_unknown (Json.bool b) = refl
not-is_after_unknown _ = refl

flag_is_set :
    (flag : Change)
    → (if is_after_unknown flag.after_unknown then false else bool_or_false flag.after)
      ≡ is_set (some flag)
flag_is_set flag =
    rw (not-is_after_unknown flag.after_unknown) (ground (arith, bool_or_false_lem flag.after))
  where
    bool_or_false_lem : (v : Json) → bool_or_false v ≡ is_true (some v)
    bool_or_false_lem (Json.bool b) = refl
    bool_or_false_lem _ = refl

module _ (new_value : Json → PropertyValue) (p : Plan) where
  abbrev pub shown : String → Change → PropertyValue
  shown k o =
      if not (knows_all o.after_unknown)
      then unknown
      else if is_set (lookup ("internal_output_is_secret_" <> k) p.raw_plan.output_changes)
      then make_secret_conservative (new_value o.after)
      else new_value o.after

  plan_output_value-eq-ok :
      (k : String) (o : Change) (v : PropertyValue)
      → plan_output_value new_value p k o ≡ ok v
      → v ≡ shown k o
  unfolding plan_output_value
  plan_output_value-eq-ok k o v h = elim (Bool-cases (is_after_unknown o.after_unknown)) [
    | inl hidden ↦
        rw (not-is_after_unknown o.after_unknown, hidden)
          (sym (ok-injective unknown v (rw (hidden, plan_output_value) at h)))
    | inr shows ↦ elim (Option-cases (lookup (is_secret_key k) p.raw_plan.output_changes)) [
      | inl e ↦ cc (rw (shows, plan_output_value, plan_output_is_secret, e) at h)
      | inr (flag, e) ↦
          rw (not-is_after_unknown o.after_unknown, shows, e)
            (sym (ok-injective _ v (rw (shows, plan_output_value, plan_output_is_secret, e) at h))
              ∙ ap (λ b. mark b (new_value o.after)) (flag_is_set flag))
    ]
  ]

  -- `Plan.Outputs` shows every output of the module under its Pulumi key: as unknown, unless the plan
  -- knows all of it, and otherwise hidden as a secret exactly when the internal output
  -- `internal_output_is_secret_<name>` is known to be `true`. It shows no output whose name begins with
  -- that prefix. (No output is named `id_`.)
  pub plan_outputs-find :
      (k : String) (o : Change) {m : PropertyMap}
      → NodupKeys p.raw_plan.output_changes
      → lookup "id_" p.raw_plan.output_changes ≡ none
      → lookup k p.raw_plan.output_changes ≡ some o
      → plan_outputs new_value p ≡ ok m
      → Value.find (encode k) m ≡ (
          if starts_with k "internal_output_is_secret_"
          then none
          else some (
              if not (knows_all o.after_unknown)
              then unknown
              else if is_set (lookup ("internal_output_is_secret_" <> k) p.raw_plan.output_changes)
              then make_secret_conservative (new_value o.after)
              else new_value o.after))
  unfolding plan_outputs
  plan_outputs-find k o u reserved has h =
      find-output_loop (plan_output_value new_value p) p.raw_plan.output_changes k o _ u reserved
        has (λ v made. plan_output_value-eq-ok k o v made) h
