-- ===== src/TfSandbox/Plan.antt =====
-- pkg/tfsandbox/details.go: `ResourcePlan` and `Plan`.
use pulumi_terraform_module.Prelude.{
  String, Bool, true, false, not, ◌&&◌, Option, none, some, List, [], ◌∷◌, ◌++◌, if◌then◌else◌,
}
use pulumi_terraform_module.Prelude.Outcome.{Outcome, ok, panic, ◌>>=◌}
use pulumi_terraform_module.Prelude.Dict.{Dict, lookup, insert}
use pulumi_terraform_module.Pulumi.Json
use pulumi_terraform_module.Pulumi.Json.{Json}
use pulumi_terraform_module.Pulumi.Value.{PropertyValue, PropertyMap, object}
use pulumi_terraform_module.TfSandbox.Secrets.{make_secret_conservative}
use pulumi_terraform_module.TfSandbox.Resources.{
  StateResource, StateModule, StateResources, new_state_resources, Actions, Change, ResourceChange,
  unknown, from_plan, from_attribute_values, update_unless_null, object_value,
}
use pulumi_terraform_module.TfSandbox.Outputs.{
  is_secret_key, is_after_unknown, bool_or_false, mark, output_loop,
}
pub mod Laws

-- `unset` is the zero `ChangeKind`, which is none of the declared ones.
pub data ChangeKind : Type 0 where
  unset no_op update replace replace_destroy_before_create create delete read forget : ChangeKind

pub record ResourcePlan : Type 0 where
  pub resource_change : ResourceChange
  pub planned_state : Option StateResource
  pub drift : Bool

unfoldable pub kind_of : Actions → ChangeKind
kind_of a =
    if a.no_op
    then no_op
    else if a.update
    then update
    else if a.create_before_destroy
    then replace
    else if a.destroy_before_create
    then replace_destroy_before_create
    else if a.create
    then create
    else if a.read
    then read
    else if a.delete
    then delete
    else if a.forget
    then forget
    else unset

-- `ResourcePlan.ChangeKind`
unfoldable pub change_kind : ResourcePlan → Outcome ChangeKind
unfolding kind_of
change_kind p = elim p.resource_change.change [ none ↦ panic | some c ↦ ok (kind_of c.actions) ]

-- `tfjson.Plan`, where `planned_values` is `PlannedValues.RootModule`
pub record RawPlan : Type 0 where
  pub planned_values : Option StateModule
  pub resource_drift : List ResourceChange
  pub resource_changes : List ResourceChange
  pub output_changes : Dict Change

pub record Plan : Type 0 where
  pub raw_plan : RawPlan
  pub by_address : Dict ResourcePlan
  pub has_drift : Bool

abbrev pub is_empty {ℓ} : {A : Type ℓ} → List A → Bool
is_empty [] = true
is_empty (x ∷ xs) = false

-- The loop over `append(rawPlan.ResourceChanges, rawPlan.ResourceDrift...)`.
unfoldable pub add_changes :
    StateResources → Bool → List ResourceChange → Dict ResourcePlan → Dict ResourcePlan
add_changes planned drift [] plans = plans
add_changes planned drift (ch ∷ rest) plans = add_changes planned drift rest (
    if ch.is_data
    then plans
    else insert ch.address
        (record { resource_change = ch; planned_state = lookup ch.address planned; drift = drift })
        plans)

-- `NewPlan`
unfoldable pub new_plan : RawPlan → Outcome Plan
unfolding add_changes new_state_resources insert lookup
new_plan raw =
    if not (is_empty raw.resource_drift) && not (is_empty raw.resource_changes)
    then panic
    else ok (record {
      raw_plan = raw;
      by_address =
          add_changes (new_state_resources raw.planned_values) (not (is_empty raw.resource_drift))
            (raw.resource_changes ++ raw.resource_drift) [];
      has_drift = not (is_empty raw.resource_drift);
    })

-- `FindResourcePlan`
unfoldable pub find_resource_plan : Plan → String → Option ResourcePlan
unfolding lookup
find_resource_plan p addr = lookup addr p.by_address

-- `Plan.outputIsSecret`
unfoldable pub plan_output_is_secret : Plan → String → Outcome Bool
unfolding lookup
plan_output_is_secret p name = elim (lookup (is_secret_key name) p.raw_plan.output_changes) [
  | none ↦ panic
  | some flag ↦ ok (if is_after_unknown flag.after_unknown then false else bool_or_false flag.after)
]

module _ (new_value : Json → PropertyValue) where
  -- `PlannedValues`
  unfoldable pub planned_values : ResourcePlan → Outcome (Option PropertyMap)
  unfolding from_plan
  planned_values p = elim p.planned_state [
    | none ↦ ok none
    | some r ↦ do m ← from_plan new_value r p.resource_change; ok (some m)
  ]

  -- `Before`
  unfoldable pub before : ResourcePlan → Outcome (Option PropertyMap)
  unfolding from_attribute_values update_unless_null make_secret_conservative
  before p = elim p.resource_change.change [
    | none ↦ ok none
    | some c ↦ elim c.before [
      | Json.object m ↦ do
        v ←
            update_unless_null make_secret_conservative c.before_sensitive
              (object (from_attribute_values new_value m))
        w ← object_value v
        ok (some w)
      | _ ↦ ok none
    ]
  ]

  -- One round of the loop in `Plan.Outputs`.
  unfoldable pub plan_output_value : Plan → String → Change → Outcome PropertyValue
  unfolding plan_output_is_secret make_secret_conservative
  plan_output_value p name o = elim (is_after_unknown o.after_unknown) [
    | true ↦ ok unknown
    | false ↦ do secret ← plan_output_is_secret p name; ok (mark secret (new_value o.after))
  ]

  -- `Plan.Outputs`
  unfoldable pub plan_outputs : Plan → Outcome PropertyMap
  unfolding output_loop plan_output_value
  plan_outputs p = output_loop (plan_output_value p) p.raw_plan.output_changes PropertyMap.end
