-- ===== src/ModProvider/Views.antt =====
-- pkg/modprovider/views.go and child.go: the steps that are reported for the resources of a module.
-- `plugin.MarshalProperties` and the names of the operations (`op.String()`) are parameters.
use pulumi_terraform_module.Prelude.{
  String, ◌<>◌, Bool, true, false, not, Option, none, some, List, [], ◌∷◌, ◌++◌, ◌==◌, is_some,
  if◌then◌else◌,
}
use pulumi_terraform_module.Prelude.Outcome.{Outcome, ok, panic, ◌>>=◌}
use pulumi_terraform_module.Prelude.Dict.{Dict}
use pulumi_terraform_module.Pulumi.Json.{Json}
use pulumi_terraform_module.Pulumi.Value.{PropertyValue, PropertyMap}
use pulumi_terraform_module.TfSandbox.Resources.{StateResource, unknown_proxy_resource_type}
use pulumi_terraform_module.TfSandbox.Plan.{
  ChangeKind, unset, no_op, update, replace, replace_destroy_before_create, create, delete, read,
  forget, ResourcePlan, Plan, change_kind, planned_values, before, find_resource_plan,
}
use pulumi_terraform_module.TfSandbox.State.{State, attribute_values, find_resource_state}
pub mod Ops
pub mod Errors
pub mod Coverage

-- `pulumirpc.ViewStep_Op`
pub data Op : Type 0 where
  same updated created deleted create_replacement replaced delete_replaced : Op

-- `viewStepOp`
unfoldable pub view_step_op : ChangeKind → Outcome (List Op)
view_step_op no_op = ok (same ∷ [])
view_step_op update = ok (updated ∷ [])
view_step_op replace = ok (create_replacement ∷ replaced ∷ delete_replaced ∷ [])
view_step_op replace_destroy_before_create =
    ok (delete_replaced ∷ replaced ∷ create_replacement ∷ [])
view_step_op create = ok (created ∷ [])
view_step_op delete = ok (deleted ∷ [])
view_step_op forget = panic
view_step_op read = panic
view_step_op unset = panic

abbrev pub is_create_replacement : Op → Bool
is_create_replacement create_replacement = true
is_create_replacement _ = false

abbrev pub is_delete_replaced : Op → Bool
is_delete_replaced delete_replaced = true
is_delete_replaced _ = false

-- `childResourceTypeToken`
abbrev pub child_resource_type_token : String → String → String
child_resource_type_token package_name tf_type = package_name <> ":" <> "tf" <> ":" <> tf_type

abbrev pub failed : String
failed = "resource operation failed: "

module _ (op_name : Op → String) where
  abbrev pub missing : Op → Option String
  missing op = some (failed <> op_name op <> " missing final state")

  abbrev pub left_over : Op → Option String
  left_over op = some (failed <> op_name op <> " left resource in state")

  -- `viewStepStatusCheck`; the flag tells whether there is a final state.
  unfoldable pub view_step_status_check : Op → ChangeKind → Bool → Option String
  view_step_status_check op create present = if present then none else missing op
  view_step_status_check op no_op present = if present then none else missing op
  view_step_status_check op update present = if present then none else missing op
  view_step_status_check op replace present =
      if is_create_replacement op then (if present then none else missing op) else none
  view_step_status_check op replace_destroy_before_create present =
      if is_create_replacement op then (if present then none else missing op) else none
  view_step_status_check op delete present = if present then left_over op else none
  view_step_status_check op forget present = if present then left_over op else none
  view_step_status_check op read present = none
  view_step_status_check op unset present = none

-- `pulumirpc.ViewStepState`
pub record ViewStepState {ℓ} (Struct : Type ℓ) : Type ℓ where
  pub name : String
  pub type_token : String
  pub inputs : Struct

-- `pulumirpc.ViewStep`; a step with no error has none.
pub record ViewStep {ℓ} (Struct : Type ℓ) : Type ℓ where
  pub op : Op
  pub name : String
  pub type_token : String
  pub old : Option (ViewStepState Struct)
  pub new : Option (ViewStepState Struct)
  pub error : Option String

module _ {Struct : Type 0} (op_name : Op → String) where
  -- The body of the loop over the operations of a resource.
  unfoldable pub make_steps :
      String
      → ResourcePlan
      → ChangeKind
      → Bool
      → Bool
      → Option (ViewStepState Struct)
      → Option (ViewStepState Struct)
      → List Op
      → List (ViewStep Struct)
  unfolding view_step_status_check
  make_steps package_name rplan kind present preview old new [] = []
  make_steps package_name rplan kind present preview old new (op ∷ ops) =
      record {
        op = op;
        name = rplan.resource_change.address;
        type_token = child_resource_type_token package_name rplan.resource_change.type_name;
        old = old;
        new = if is_delete_replaced op then none else new;
        error = if not preview then view_step_status_check op_name op kind present else none;
      }
      ∷ make_steps package_name rplan kind present preview old new ops

module _ {Struct : Type 0} (new_value : Json → PropertyValue) (unmarshal : String → Option Json)
    (marshal_properties : PropertyMap → Option Struct) (op_name : Op → String) where
  -- `viewStruct`
  unfoldable pub view_struct : PropertyMap → Outcome Struct
  view_struct props = elim (marshal_properties props) [ none ↦ panic | some s ↦ ok s ]

  -- `viewStepState`
  unfoldable pub view_step_state :
      String → String → String → PropertyMap → Outcome (ViewStepState Struct)
  unfolding view_struct
  view_step_state package_name addr tf_type values = do
    inputs ← view_struct values
    ok (record {
      name = addr;
      type_token = child_resource_type_token package_name tf_type;
      inputs = inputs;
    })

  abbrev state_of_option :
      String → String → String → Option PropertyMap → Outcome (Option (ViewStepState Struct))
  state_of_option package_name addr tf_type none = ok none
  state_of_option package_name addr tf_type (some values) = do
    s ← view_step_state package_name addr tf_type values
    ok (some s)

  -- `viewStepForSameResource`
  unfoldable pub view_step_for_same_resource : String → StateResource → Outcome (ViewStep Struct)
  unfolding attribute_values view_step_state
  view_step_for_same_resource package_name r = do
    values ← attribute_values new_value unmarshal r
    s ← view_step_state package_name r.address r.type_name values
    ok (record {
      op = same;
      name = r.address;
      type_token = child_resource_type_token package_name r.type_name;
      old = some s;
      new = some s;
      error = none;
    })

  abbrev values_to_show : ResourcePlan → Option StateResource → Outcome (Option PropertyMap)
  values_to_show rplan none = planned_values new_value rplan
  values_to_show rplan (some r) = do m ← attribute_values new_value unmarshal r; ok (some m)

  -- `viewStepsForResource`
  unfoldable pub view_steps_for_resource :
      String → ResourcePlan → Option StateResource → Bool → Outcome (List (ViewStep Struct))
  unfolding attribute_values planned_values before change_kind view_step_op view_step_state
      make_steps
  view_steps_for_resource package_name rplan final preview = do
    shown ← values_to_show rplan final
    new ←
        state_of_option package_name rplan.resource_change.address rplan.resource_change.type_name
          shown
    was ← before new_value rplan
    old ←
        state_of_option package_name rplan.resource_change.address rplan.resource_change.type_name
          was
    kind ← change_kind rplan
    ops ← view_step_op kind
    ok (make_steps op_name package_name rplan kind (is_some final) preview old new ops)

  abbrev final_of : Option State → String → Option StateResource
  final_of none addr = none
  final_of (some s) addr = find_resource_state s addr

  -- The loop over the planned resources. The stand-in for unknown values is skipped.
  unfoldable pub planned_steps :
      String → Option State → Bool → Dict ResourcePlan → Outcome (List (ViewStep Struct))
  unfolding view_steps_for_resource find_resource_state
  planned_steps package_name final preview [] = ok []
  planned_steps package_name final preview ((_, rplan) ∷ rest) = do
    steps ←
        if rplan.resource_change.type_name == unknown_proxy_resource_type
        then ok []
        else view_steps_for_resource package_name rplan
            (final_of final rplan.resource_change.address) preview
    more ← planned_steps package_name final preview rest
    ok (steps ++ more)

  -- The loop over the resources of the final state. Those that have a plan are skipped.
  unfoldable pub same_steps : String → Plan → Dict StateResource → Outcome (List (ViewStep Struct))
  unfolding view_step_for_same_resource find_resource_plan
  same_steps package_name plan [] = ok []
  same_steps package_name plan ((_, r) ∷ rest) = do
    steps ←
        if is_some (find_resource_plan plan r.address)
        then ok []
        else (do s ← view_step_for_same_resource package_name r; ok (s ∷ []))
    more ← same_steps package_name plan rest
    ok (steps ++ more)

  -- `viewStepsGeneric`
  unfoldable pub view_steps_generic :
      String → Plan → Option State → Bool → Outcome (List (ViewStep Struct))
  unfolding planned_steps same_steps
  view_steps_generic package_name plan none preview =
      planned_steps package_name none preview plan.by_address
  view_steps_generic package_name plan (some final) preview = do
    steps ← planned_steps package_name (some final) preview plan.by_address
    more ← same_steps package_name plan final.by_address
    ok (steps ++ more)

  abbrev pub view_steps_plan : String → Plan → Outcome (List (ViewStep Struct))
  view_steps_plan package_name plan = view_steps_generic package_name plan none true

  abbrev pub view_steps_after_apply : String → Plan → State → Outcome (List (ViewStep Struct))
  view_steps_after_apply package_name plan applied =
      view_steps_generic package_name plan (some applied) false

  abbrev pub view_steps_after_refresh : String → Plan → State → Outcome (List (ViewStep Struct))
  view_steps_after_refresh package_name plan refreshed =
      view_steps_generic package_name plan (some refreshed) false

  -- `viewStepsAfterDestroy`: the loop over the resources of the state before
  unfoldable pub view_steps_after_destroy :
      String → Dict StateResource → Outcome (List (ViewStep Struct))
  unfolding attribute_values view_step_state
  view_steps_after_destroy package_name [] = ok []
  view_steps_after_destroy package_name ((_, r) ∷ rest) = do
    values ← attribute_values new_value unmarshal r
    s ← view_step_state package_name r.address r.type_name values
    more ← view_steps_after_destroy package_name rest
    ok (
        record {
          op = deleted;
          name = r.address;
          type_token = child_resource_type_token package_name r.type_name;
          old = some s;
          new = none;
          error = none;
        }
        ∷ more)
