-- ===== src/ModProvider/Module/Quiet.antt =====
-- The events that the steps of a handler may cause.
use pulumi_terraform_module.Prelude.{
  String, ◌≡◌, refl, Bool, true, false, Option, none, some, [], ◌∷◌, if◌then◌else◌,
}
use pulumi_terraform_module.Prelude.Outcome.{Outcome}
use pulumi_terraform_module.Prelude.Dict.{Dict}
use pulumi_terraform_module.Pulumi.Value.{PropertyMap}
use pulumi_terraform_module.TfSandbox.Plan.{Plan}
use pulumi_terraform_module.TfSandbox.State.{RawState, State}
use pulumi_terraform_module.ModProvider.Run.{
  Event, seeded, pushed, initialized, planned, applied, refreshed, shown,
}
use pulumi_terraform_module.ModProvider.Run.Laws.{all, all->>=}
use pulumi_terraform_module.ModProvider.Module.{
  Env, ModuleSchema, plan_no_refresh, plan_refresh_only, apply, refresh, show_state,
  push_old_outputs, prep_sandbox, preview_plan, show_applied, apply_plan, apply_module_operation,
}

-- An event of a preparation or of a plan.
abbrev pub is_preparation : {Struct : Type 0} → Event Struct → Bool
is_preparation (seeded i o c) = true
is_preparation (pushed r) = true
is_preparation (initialized u) = true
is_preparation planned = true
is_preparation _ = false

module _ {Struct : Type 0} (env : Env Struct) (p : Event Struct → Bool)
    (accepts : (e : Event Struct) → is_preparation e ≡ true → p e ≡ true) where
  one : (e : Event Struct) → is_preparation e ≡ true → all p (e ∷ []) ≡ true
  one e h = rw (accepts e h) refl

  pub all-plan_no_refresh : all p ((plan_no_refresh env).events) ≡ true
  unfolding plan_no_refresh
  all-plan_no_refresh = all->>= p _ _ (one planned refl) λ u. all->>= p _ _ refl λ raw. refl

  pub all-plan_refresh_only : all p ((plan_refresh_only env).events) ≡ true
  unfolding plan_refresh_only
  all-plan_refresh_only = all->>= p _ _ (one planned refl) λ u. all->>= p _ _ refl λ raw. refl

  all-push_old_outputs :
      (old : Option PropertyMap) → all p ((push_old_outputs env old).events) ≡ true
  unfolding push_old_outputs
  all-push_old_outputs none = refl
  all-push_old_outputs (some m) =
      all->>= p _ _ refl λ r. all->>= p _ _ (one (pushed r) refl) λ u. all->>= p _ _ refl λ v. refl

  pub all-prep_sandbox :
      (schema : ModuleSchema) (inputs : PropertyMap) (old : Option PropertyMap) (version : String)
      (providers : Dict PropertyMap)
      → all p ((prep_sandbox env schema inputs old version providers).events) ≡ true
  unfolding prep_sandbox
  all-prep_sandbox schema inputs old version providers = all->>= p _ _ refl λ u.
      all->>= p _ _ (one _ refl) λ v. all->>= p _ _ refl λ w.
        all->>= p _ _ (all-push_old_outputs old)
          λ previous. all->>= p _ _ (one _ refl) λ x. all->>= p _ _ refl λ y. refl

  pub all-preview_plan :
      (package_name : String) (plan : Plan)
      → all p ((preview_plan env package_name plan).events) ≡ true
  unfolding preview_plan
  all-preview_plan package_name plan = all->>= p _ _ refl λ views. all->>= p _ _ refl λ m. refl

  all-show_applied :
      (package_name version : String) (plan : Plan) (r : Option State × Option String)
      → all p ((show_applied env package_name version plan r).events) ≡ true
  unfolding show_applied
  all-show_applied package_name version plan (none, none) = refl
  all-show_applied package_name version plan (none, some reason) = refl
  all-show_applied package_name version plan (some state, failure) =
      all->>= p _ _ refl λ views. all->>= p _ _ refl λ m. refl

  pub all-apply_plan :
      (package_name version : String) (plan : Plan)
      → p applied ≡ true
      → all p ((apply_plan env package_name version plan).events) ≡ true
  unfolding apply_plan apply
  all-apply_plan package_name version plan h =
      all->>= p _ _ (all->>= p _ _ (rw h refl) λ u. all->>= p _ _ refl λ r. refl)
        λ r. all-show_applied package_name version plan r

  all-operation :
      (package_name version : String) (plan : Plan) (preview : Bool)
      → (preview ≡ false → p applied ≡ true)
      → all p (
          (if preview
            then preview_plan env package_name plan
            else apply_plan env package_name version plan).events)
        ≡ true
  all-operation package_name version plan true h = all-preview_plan package_name plan
  all-operation package_name version plan false h =
      all-apply_plan package_name version plan (h refl)

  pub all-apply_module_operation :
      (schema : ModuleSchema) (package_name : String) (inputs : PropertyMap)
      (old : Option PropertyMap) (version : String) (providers : Dict PropertyMap) (preview : Bool)
      → (preview ≡ false → p applied ≡ true)
      → all p (
          (apply_module_operation env schema package_name inputs old version providers
            preview).events)
        ≡ true
  unfolding apply_module_operation
  all-apply_module_operation schema package_name inputs old version providers preview h =
      all->>= p _ _ (all-prep_sandbox schema inputs old version providers) λ renamed.
        all->>= p _ _ all-plan_no_refresh λ plan.
          all->>= p _ _ (all-operation package_name version plan preview h)
            λ r. all->>= p _ _ refl λ failure. refl

  pub all-refresh : p refreshed ≡ true → all p ((refresh env).events) ≡ true
  unfolding refresh
  all-refresh h =
      all->>= p _ _ (rw h refl) λ u. all->>= p _ _ refl λ v. all->>= p _ _ refl λ raw. refl

  pub all-show_state :
      (answer : Outcome RawState) → p shown ≡ true → all p ((show_state env answer).events) ≡ true
  unfolding show_state
  all-show_state answer h = all->>= p _ _ (rw h refl) λ u. all->>= p _ _ refl λ raw. refl
