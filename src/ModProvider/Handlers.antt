-- ===== src/ModProvider/Handlers.antt =====
-- pkg/modprovider/module.go: `Check`, `Diff`, `Create`, `Update`, `Delete` and `Read` of the module's
-- resource. A request holds the results of `plugin.UnmarshalProperties`.
use pulumi_terraform_module.Prelude.{
  String, ◌<>◌, Bool, true, false, not, ◌&&◌, ◌||◌, Option, none, some, List, [], ◌∷◌, ◌==◌,
  is_some, if◌then◌else◌,
}
use pulumi_terraform_module.Prelude.Outcome.{Outcome, ok, err, panic}
use pulumi_terraform_module.Prelude.Dict.{Dict, lookup, insert}
use pulumi_terraform_module.Pulumi.Value.{PropertyMap}
use pulumi_terraform_module.TfSandbox.Resources.{Change}
use pulumi_terraform_module.TfSandbox.Plan.{
  ChangeKind, no_op, ResourcePlan, Plan, change_kind, plan_outputs,
}
use pulumi_terraform_module.TfSandbox.State.{State}
use pulumi_terraform_module.ModProvider.Meta.{outputs}
use pulumi_terraform_module.ModProvider.Views.{
  ViewStep, view_steps_after_refresh, view_steps_generic, view_steps_after_destroy,
}
use pulumi_terraform_module.ModProvider.Run.{
  published, destroyed, Run, ◌>>=◌, ◌>>◌, call, emit, with_lease,
}
use pulumi_terraform_module.ModProvider.Module.{
  Env, ModuleSchema, Applied, plan_no_refresh, plan_refresh_only, refresh, show_state, prep_sandbox,
  apply_module_operation,
}
pub mod Leases
pub mod Results
pub mod Decisions

-- The fields of the requests; `has_inputs` tells whether the inputs of `Read` are not nil.
pub record Request : Type 0 where
  pub has_inputs : Bool
  pub inputs : Outcome PropertyMap
  pub old_inputs : Outcome PropertyMap
  pub old_outputs : Outcome PropertyMap
  pub preview : Bool

-- A response with its properties, or the error with the details `ErrorResourceInitFailed`.
pub data Reply (Struct : Type 0) : Type 0 where
  done : Struct → Reply Struct
  init_failed : String → Struct → Reply Struct

abbrev pub is_empty : {A : Type 0} → List A → Bool
is_empty [] = true
is_empty (x ∷ xs) = false

abbrev pub is_no_op : ChangeKind → Bool
is_no_op no_op = true
is_no_op _ = false

-- `CheckRequest_AutonamingOptions`
pub data AutonamingMode : Type 0 where
  propose enforce disable : AutonamingMode

pub record Autonaming : Type 0 where
  pub mode : AutonamingMode
  pub proposed_name : String

abbrev proposed : String → Outcome String
proposed name = if name == "" then panic else ok name

abbrev named_by : Autonaming → String → AutonamingMode → Outcome String
named_by a autoname enforce = proposed a.proposed_name
named_by a autoname propose = proposed a.proposed_name
named_by a autoname disable = ok autoname

-- The name that the engine asks for, or else the unique one; `NewUniqueName` has to succeed.
abbrev pub autonamed : Option Autonaming → Option String → Outcome String
autonamed auto none = panic
autonamed none (some autoname) = ok autoname
autonamed (some a) (some autoname) = named_by a autoname a.mode

module _ {V : Type 0} (new_string : String → V) where
  abbrev checked : Dict V → Option V → Outcome String → Outcome (Dict V)
  checked news (some previous) name = ok (insert "name" previous news)
  checked news none (ok name) = ok (insert "name" (new_string name) news)
  checked news none (err e) = err e
  checked news none panic = panic

  -- `Check`; `has_name_input` tells whether the schema has an input `name` of type string.
  unfoldable pub check :
      Bool → Option Autonaming → Option String → Dict V → Dict V → Outcome (Dict V)
  unfolding lookup insert
  check has_name_input auto unique olds news =
      if has_name_input && not (is_some (lookup "name" news))
      then checked news (lookup "name" olds) (autonamed auto unique)
      else ok news

-- Whether the visitor of `Diff` finds a change: the resource of the turn, and the others
abbrev pub or_changed : Outcome ChangeKind → Outcome Bool → Outcome Bool
or_changed (ok kind) (ok more) = ok (not (is_no_op kind) || more)
or_changed (ok kind) failed = failed
or_changed (err e) more = err e
or_changed panic more = panic

unfoldable pub resources_changed : Dict ResourcePlan → Outcome Bool
unfolding change_kind
resources_changed [] = ok false
resources_changed ((_, p) ∷ rest) = or_changed (change_kind p) (resources_changed rest)

unfoldable pub outputs_changed : Dict Change → Bool
outputs_changed [] = false
outputs_changed ((_, c) ∷ rest) = if c.actions.no_op then outputs_changed rest else true

module _ {Struct : Type 0} (env : Env Struct) where
  -- `statusClient.PublishViewSteps`
  abbrev pub publish : List (ViewStep Struct) → Run Struct (Unit {0})
  publish steps = do emit (published steps); call env.publish_view_steps

  abbrev pub marshal : PropertyMap → Outcome Struct
  marshal m = elim (env.marshal_properties m) [ none ↦ panic | some s ↦ ok s ]

  -- The end of `Create` and `Update`: the views are published unless they are nil, then the error of
  -- the operation is returned, if there is one.
  unfoldable pub reply : Option (String × Struct) → PropertyMap → Run Struct (Reply Struct)
  reply (some detail) m = call (ok (init_failed detail.0 detail.1))
  reply none m = do s ← call (marshal m); call (ok (done s))

  abbrev pub publish_views : List (ViewStep Struct) → Run Struct (Unit {0})
  publish_views [] = call (ok tt)
  publish_views (v ∷ vs) = publish (v ∷ vs)

  unfoldable pub finish : Applied Struct → Run Struct (Reply Struct)
  unfolding reply
  finish r = do publish_views r.views; reply r.failure r.outputs

  -- `Create`
  unfoldable pub create_module :
      ModuleSchema → String → String → Dict PropertyMap → Request → Run Struct (Reply Struct)
  unfolding apply_module_operation finish
  create_module schema package_name version providers req = with_lease env.acquire (do
    inputs ← call req.inputs
    r ← apply_module_operation env schema package_name inputs none version providers req.preview
    finish r)

  -- `Update`, which reads the request before it acquires a client
  unfoldable pub update_module :
      ModuleSchema → String → String → Dict PropertyMap → Request → Run Struct (Reply Struct)
  unfolding apply_module_operation finish
  update_module schema package_name version providers req = do
    inputs ← call req.inputs
    old ← call req.old_outputs
    with_lease env.acquire (do
      r ←
          apply_module_operation env schema package_name inputs (some old) version providers
            req.preview
      finish r)

  abbrev pub answer_of : Option String → Outcome (Unit {0})
  answer_of none = ok tt
  answer_of (some e) = err e

  -- `Delete`; an error of the destruction is returned after the views were published.
  unfoldable pub delete_module :
      ModuleSchema → String → String → Dict PropertyMap → Request → Run Struct (Unit {0})
  unfolding prep_sandbox show_state view_steps_after_destroy
  delete_module schema package_name version providers req = with_lease env.acquire (do
    inputs ← call req.old_inputs
    old ← call req.old_outputs
    renamed ← prep_sandbox env schema inputs (some old) version providers
    before ← show_state env env.show_before
    emit destroyed
    final ← show_state env env.show_after
    steps ← call (
        view_steps_after_destroy env.new_value env.unmarshal env.marshal_properties env.op_name
          package_name before.by_address)
    publish steps
    call (answer_of env.destroy_json))

  -- `plugin.MarshalProperties` where `Read` returns its error
  abbrev pub marshal_or_fail : PropertyMap → Outcome Struct
  marshal_or_fail m = elim (env.marshal_properties m) [
    | none ↦ err "failed to marshal"
    | some s ↦ ok s
  ]

  -- What `Read` does with its client: the fresh outputs, and the inputs as `prepSandbox` left them
  unfoldable pub read_with_client :
      ModuleSchema → String → String → Dict PropertyMap → Request → Run Struct (Struct × Struct)
  unfolding prep_sandbox plan_refresh_only refresh outputs view_steps_generic
  read_with_client schema package_name version providers req = do
    inputs ← call req.inputs
    old ← call req.old_outputs
    renamed ← prep_sandbox env schema inputs (some old) version providers
    plan ← plan_refresh_only env
    state ← refresh env
    m ← call (outputs env.new_value env.disk_after state version)
    steps ← call (
        view_steps_after_refresh env.new_value env.unmarshal env.marshal_properties env.op_name
          package_name plan state)
    publish steps
    properties ← call (marshal_or_fail m)
    fresh ← call (marshal_or_fail renamed)
    call (ok (properties, fresh))

  -- `Read`
  unfoldable pub read_module :
      ModuleSchema → String → String → Dict PropertyMap → Request → Run Struct (Struct × Struct)
  unfolding read_with_client
  read_module schema package_name version providers req =
      if req.has_inputs
      then with_lease env.acquire (read_with_client schema package_name version providers req)
      else call (err "Read() is currently only supported for pulumi refresh")

  -- `Diff` for equal inputs: whether a plan has changes
  unfoldable pub diff_by_plan :
      ModuleSchema → String → Dict PropertyMap → Request → PropertyMap → Run Struct Bool
  unfolding prep_sandbox plan_no_refresh resources_changed outputs_changed
  diff_by_plan schema version providers req old_inputs = do
    old ← call req.old_outputs
    renamed ← prep_sandbox env schema old_inputs (some old) version providers
    plan ← plan_no_refresh env
    changed ← call (resources_changed plan.by_address)
    call (ok (changed || outputs_changed plan.raw_plan.output_changes))

  -- `Diff`: whether there are changes
  unfoldable pub diff : ModuleSchema → String → Dict PropertyMap → Request → Run Struct Bool
  unfolding diff_by_plan
  diff schema version providers req = do
    old_inputs ← call req.old_inputs
    new_inputs ← call req.inputs
    if not (env.deep_equals old_inputs new_inputs)
        then call (ok true)
        else diff_by_plan schema version providers req old_inputs
