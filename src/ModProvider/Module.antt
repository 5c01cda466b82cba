-- ===== src/ModProvider/Module.antt =====
-- pkg/modprovider/module.go: `prepSandbox` and `applyModuleOperation`, and the operations of
-- pkg/tfsandbox (plan.go, apply.go, refresh.go, destroy.go, show.go, init.go) that they call. What the
-- subprocess and the engine answer is in `Env`.
use pulumi_terraform_module.Prelude.{
  String, Bool, true, false, not, ◌&&◌, ◌||◌, Option, none, some, List, [], ◌∷◌, map, if◌then◌else◌,
}
use pulumi_terraform_module.Prelude.Outcome.{Outcome, ok, err, panic}
use pulumi_terraform_module.Prelude.Dict.{Dict, lookup}
use pulumi_terraform_module.Pulumi.Json.{Json}
use pulumi_terraform_module.Pulumi.Value.{PropertyValue, PropertyMap}
use pulumi_terraform_module.TfSandbox.Keys.{decode_pulumi_top_level_key}
use pulumi_terraform_module.TfSandbox.Plan.{RawPlan, Plan, new_plan, plan_outputs}
use pulumi_terraform_module.TfSandbox.State
use pulumi_terraform_module.TfSandbox.State.{RawState, State, new_state}
use pulumi_terraform_module.TfSandbox.Files.{Disk, push_state_and_lock_file}
use pulumi_terraform_module.ModProvider.Meta.{Recorded, get_state, outputs, needs_init_upgrade}
use pulumi_terraform_module.ModProvider.Views.{
  Op, ViewStep, view_steps_plan, view_steps_after_apply, view_steps_generic,
}
use pulumi_terraform_module.ModProvider.Remap.{rename_inputs, rename_providers, rename_outputs}
use pulumi_terraform_module.ModProvider.Run.{
  Event, seeded, pushed, initialized, planned, applied, refreshed, destroyed, shown, Run, ◌>>=◌,
  ◌>>◌, call, emit,
}
pub mod Quiet
pub mod Prepared
pub mod Results

-- What is outside the provider: the SDK, the subprocess, the files and the engine. An `Option String`
-- is Go's `error`, none for nil.
pub record Env (Struct : Type 0) : Type 0 where
  pub new_value : Json → PropertyValue
  pub unmarshal : String → Option Json
  pub marshal_properties : PropertyMap → Option Struct
  pub op_name : Op → String
  pub deep_equals : PropertyMap → PropertyMap → Bool
  pub acquire : Outcome (Unit {0})
  pub pick_module_runtime : Outcome (Unit {0})
  pub create_tf_file : Outcome (Unit {0})
  -- the orders in which the loops over maps go
  pub input_order : PropertyMap → List String
  pub provider_order : Dict PropertyMap → List String
  pub output_order : PropertyMap → List String
  -- the working directory as `prepSandbox` finds it, and as the operation leaves it
  pub disk : Disk
  pub disk_after : Disk
  pub init_json : Bool → Outcome (Unit {0})
  pub plan_no_refresh_json : Outcome RawPlan
  pub plan_refresh_only_json : Outcome RawPlan
  pub apply_json : Option String
  pub refresh_json : Outcome (Unit {0})
  pub destroy_json : Option String
  -- `Show` after an apply or a refresh, before a destroy, and after it
  pub show : Outcome RawState
  pub show_before : Outcome RawState
  pub show_after : Outcome RawState
  pub publish_view_steps : Outcome (Unit {0})

-- What the handlers read of `InferredModuleSchema`; mappings that are not there map nothing.
pub record ModuleSchema : Type 0 where
  pub outputs : List String
  pub input_field_mappings : Dict String
  pub output_field_mappings : Dict String
  pub provider_field_mappings : Dict String

abbrev pub or_self : String → Option String → String
or_self name none = name
or_self name (some other) = other

-- `outputSpecs` of `prepSandbox`
unfoldable pub output_spec : Dict String → String → String
unfolding lookup decode_pulumi_top_level_key
output_spec mappings name = decode_pulumi_top_level_key (or_self name (lookup name mappings))

-- The results of `applyModuleOperation`: outputs, views, and the error with its properties.
pub record Applied (Struct : Type 0) : Type 0 where
  pub outputs : PropertyMap
  pub views : List (ViewStep Struct)
  pub failure : Option (String × Struct)

module _ {Struct : Type 0} (env : Env Struct) where
  -- `PlanNoRefresh` and `PlanRefreshOnly`
  unfoldable pub plan_no_refresh : Run Struct Plan
  unfolding new_plan
  plan_no_refresh = do emit planned; raw ← call env.plan_no_refresh_json; call (new_plan raw)

  unfoldable pub plan_refresh_only : Run Struct Plan
  unfolding new_plan
  plan_refresh_only = do emit planned; raw ← call env.plan_refresh_only_json; call (new_plan raw)

  -- `apply`: the state is nil if it cannot be shown.
  abbrev pub shown_state : Option String → Outcome RawState → Outcome (RawState × Option String)
  shown_state failure (ok raw) = ok (raw, failure)
  shown_state failure (err e) = ok (State.nil, some e)
  shown_state failure panic = panic

  -- `Apply`: `NewState` returns a state for a nil one.
  unfoldable pub apply : Run Struct (Option State × Option String)
  unfolding new_state
  apply = do
    emit applied
    r ← call (shown_state env.apply_json env.show)
    call (ok (some (new_state r.0), r.1))

  -- `Refresh`
  unfoldable pub refresh : Run Struct State
  unfolding new_state
  refresh = do emit refreshed; call env.refresh_json; raw ← call env.show; call (ok (new_state raw))

  -- `Show`
  unfoldable pub show_state : Outcome RawState → Run Struct State
  unfolding new_state
  show_state answer = do emit shown; raw ← call answer; call (ok (new_state raw))

  -- The old outputs are pushed unless they are nil; the result is the version that they record.
  unfoldable pub push_old_outputs : Option PropertyMap → Run Struct String
  unfolding get_state push_state_and_lock_file
  push_old_outputs none = call (ok "")
  push_old_outputs (some old) = do
    recorded ← call (get_state old)
    emit (pushed recorded)
    call ((push_state_and_lock_file recorded.state recorded.lock env.disk).1)
    call (ok recorded.version)

  -- `prepSandbox`; the result is the map of the inputs, which it changes in place.
  unfoldable pub prep_sandbox :
      ModuleSchema
      → PropertyMap
      → Option PropertyMap
      → String
      → Dict PropertyMap
      → Run Struct PropertyMap
  unfolding rename_inputs rename_providers output_spec push_old_outputs needs_init_upgrade
  prep_sandbox schema inputs old_outputs version providers = do
    call env.pick_module_runtime
    let renamed = rename_inputs schema.input_field_mappings (env.input_order inputs) inputs
    let configs =
        rename_providers schema.provider_field_mappings (env.provider_order providers) providers
    emit (seeded renamed (map (output_spec schema.output_field_mappings) schema.outputs) configs)
    call env.create_tf_file
    previous ← push_old_outputs old_outputs
    let upgrade = needs_init_upgrade old_outputs previous version
    emit (initialized upgrade)
    call (env.init_json upgrade)
    call (ok renamed)

  -- `initializationError`, if there is an error
  unfoldable pub initialization_error :
      PropertyMap → Option String → Outcome (Option (String × Struct))
  initialization_error m none = ok none
  initialization_error m (some reason) = elim (env.marshal_properties m) [
    | none ↦ panic
    | some props ↦ ok (some (reason, props))
  ]

  -- The preview and the real operation, after the plan.
  unfoldable pub preview_plan :
      String → Plan → Run Struct (PropertyMap × List (ViewStep Struct) × Option String)
  unfolding view_steps_generic plan_outputs
  preview_plan package_name plan = do
    views ← call (
        view_steps_plan env.new_value env.unmarshal env.marshal_properties env.op_name package_name
          plan)
    m ← call (plan_outputs env.new_value plan)
    call (ok (m, views, none))

  unfoldable pub show_applied :
      String
      → String
      → Plan
      → Option State × Option String
      → Run Struct (PropertyMap × List (ViewStep Struct) × Option String)
  unfolding view_steps_generic outputs
  show_applied package_name version plan (none, some reason) = call (err reason)
  show_applied package_name version plan (none, none) = call panic
  show_applied package_name version plan (some state, failure) = do
    views ← call (
        view_steps_after_apply env.new_value env.unmarshal env.marshal_properties env.op_name
          package_name plan state)
    m ← call (outputs env.new_value env.disk_after state version)
    call (ok (m, views, failure))

  unfoldable pub apply_plan :
      String → String → Plan → Run Struct (PropertyMap × List (ViewStep Struct) × Option String)
  unfolding apply show_applied
  apply_plan package_name version plan = do r ← apply; show_applied package_name version plan r

  -- `applyModuleOperation`
  unfoldable pub apply_module_operation :
      ModuleSchema
      → String
      → PropertyMap
      → Option PropertyMap
      → String
      → Dict PropertyMap
      → Bool
      → Run Struct (Applied Struct)
  unfolding prep_sandbox plan_no_refresh preview_plan apply_plan initialization_error rename_outputs
  apply_module_operation schema package_name inputs old_outputs version providers preview = do
    renamed ← prep_sandbox schema inputs old_outputs version providers
    plan ← plan_no_refresh
    r ← if preview then preview_plan package_name plan else apply_plan package_name version plan
    failure ← call (initialization_error r.0 r.2)
    call (
        ok (record {
          outputs = rename_outputs schema.output_field_mappings (env.output_order r.0) r.0;
          views = r.1;
          failure = failure;
        }))
