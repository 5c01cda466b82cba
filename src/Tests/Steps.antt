-- ===== src/Tests/Steps.antt =====
-- The reported steps at concrete plans and states.
use pulumi_terraform_module.Prelude.{
  String, ◌≡◌, refl, sym, ap, some-injective, true, false, ◌==◌, Option, none, some, [], ◌∷◌,
}
use pulumi_terraform_module.Prelude.Outcome.{ok}
use pulumi_terraform_module.Prelude.Dict.{insert}
use pulumi_terraform_module.Pulumi.Value
use pulumi_terraform_module.Pulumi.Value.{PropertyMap, string, secret, entry}
use pulumi_terraform_module.TfSandbox.Plan.{
  replace, create, ResourcePlan, change_kind, find_resource_plan,
}
use pulumi_terraform_module.TfSandbox.Resources.{unknown_proxy_resource_type}
use pulumi_terraform_module.TfSandbox.State.{make_state, new_state, find_resource_state}
use pulumi_terraform_module.ModProvider.Views.{
  Op, created, deleted, create_replacement, replaced, delete_replaced, view_step_op, ViewStepState,
  ViewStep, view_steps_for_resource, view_steps_generic, view_steps_after_destroy,
}
use pulumi_terraform_module.ModProvider.Views.Ops.{apply_ops, view_step_op-apply_ops}
use pulumi_terraform_module.ModProvider.Views.Errors.{has_error, view_steps_for_resource-has_error}
use pulumi_terraform_module.ModProvider.Views.Coverage.{names, names-view_steps_generic}
use pulumi_terraform_module.Tests.Documents.{
  new_value, unmarshal, database, database_change, raw, plan, new_plan_run, values,
}

view_step_op_run : view_step_op replace ≡ ok (create_replacement ∷ replaced ∷ delete_replaced ∷ [])
unfolding view_step_op
view_step_op_run = refl

view_step_op-apply_ops_example :
    apply_ops 1 2 (create_replacement ∷ replaced ∷ delete_replaced ∷ []) 1 ≡ some 1
view_step_op-apply_ops_example = view_step_op-apply_ops replace _ view_step_op_run

abbrev marshal_properties : PropertyMap → Option PropertyMap
marshal_properties m = some m

abbrev op_name : Op → String
op_name op = "op"

abbrev shown : ViewStepState PropertyMap
shown = record {
  name = "db.main";
  type_token = "pkg:tf:db";
  inputs = entry "port" (string "1") (entry "password" (secret (string "x")) Value.end);
}

abbrev planned : ResourcePlan
planned = record { resource_change = database_change; planned_state = some database; drift = false }

abbrev step :
    Op
    → Option (ViewStepState PropertyMap)
    → Option (ViewStepState PropertyMap)
    → ViewStep PropertyMap
step op old new = record {
  op = op;
  name = "db.main";
  type_token = "pkg:tf:db";
  old = old;
  new = new;
  error = none;
}

steps_run :
    view_steps_for_resource new_value unmarshal marshal_properties op_name "pkg" planned
      (some database)
      false
    ≡ ok (step created none (some shown) ∷ [])
unfolding view_steps_for_resource
steps_run = refl

kind_run : change_kind planned ≡ ok create
unfolding change_kind
kind_run = refl

view_steps_for_resource-has_error_example : has_error (step created none (some shown) ∷ []) ≡ false
view_steps_for_resource-has_error_example =
    view_steps_for_resource-has_error new_value unmarshal marshal_properties op_name "pkg" planned
      (some database) false kind_run steps_run

generic_run :
    view_steps_generic new_value unmarshal marshal_properties op_name "pkg" plan
      (some (new_state (make_state (some values))))
      false
    ≡ ok (step created none (some shown) ∷ [])
unfolding view_steps_generic new_state insert
generic_run = refl

database_there :
    find_resource_state (new_state (make_state (some values))) "db.main" ≡ some database
unfolding find_resource_state new_state insert
database_there = refl

database_is_real :
    (rp : ResourcePlan)
    → find_resource_plan plan "db.main" ≡ some rp
    → (rp.resource_change.type_name == unknown_proxy_resource_type) ≡ false
unfolding find_resource_plan
database_is_real rp h =
    ap (λ q. q.resource_change.type_name == unknown_proxy_resource_type)
      (sym (some-injective planned rp h))

names-view_steps_generic_example : names "db.main" (step created none (some shown) ∷ []) ≡ true
names-view_steps_generic_example =
    names-view_steps_generic new_value unmarshal marshal_properties op_name "pkg" raw
      (make_state (some values)) false "db.main" database new_plan_run database_there
      database_is_real generic_run

destroy_run :
    view_steps_after_destroy new_value unmarshal marshal_properties op_name "pkg"
      (("db.main", database) ∷ [])
    ≡ ok (step deleted (some shown) none ∷ [])
unfolding view_steps_after_destroy
destroy_run = refl
