-- ===== src/ModProvider/Views/Errors.antt =====
-- The errors in the steps of a resource, and the resources that the steps name.
use pulumi_terraform_module.Prelude.{
  String, ◌≡◌, sym, ◌∙◌, Bool, true, false, not, ◌||◌, Option, List, [], ◌∷◌, is_some, arith,
  if◌then◌else◌,
}
use pulumi_terraform_module.Prelude.Outcome.{ok, >>=-eq-ok, ok-injective}
use pulumi_terraform_module.Pulumi.Json.{Json}
use pulumi_terraform_module.Pulumi.Value.{PropertyValue, PropertyMap}
use pulumi_terraform_module.TfSandbox.Resources.{StateResource}
use pulumi_terraform_module.TfSandbox.Plan.{
  ChangeKind, no_op, update, replace, replace_destroy_before_create, create, delete, forget,
  ResourcePlan, change_kind, before,
}
use pulumi_terraform_module.ModProvider.Views.{
  Op, view_step_op, ViewStepState, ViewStep, make_steps, values_to_show, state_of_option,
  view_steps_for_resource,
}

abbrev pub has_error {ℓ} : {Struct : Type ℓ} → List (ViewStep Struct) → Bool
has_error [] = false
has_error (s ∷ steps) = is_some s.error || has_error steps

-- The resource is there once the change has succeeded.
abbrev pub survives : ChangeKind → Bool
survives delete = false
survives forget = false
survives _ = true

module _ {Struct : Type 0} (new_value : Json → PropertyValue) (unmarshal : String → Option Json)
    (marshal_properties : PropertyMap → Option Struct) (op_name : Op → String) where
  -- What the steps of a resource are made of.
  pub data Steps (package_name : String) (rplan : ResourcePlan) (final : Option StateResource)
      (preview : Bool) (steps : List (ViewStep Struct)) : Type 0 where
    made_of :
        (kind : ChangeKind) (ops : List Op) (old new : Option (ViewStepState Struct))
        → change_kind rplan ≡ ok kind
        → view_step_op kind ≡ ok ops
        → steps ≡ make_steps op_name package_name rplan kind (is_some final) preview old new ops
        → Steps package_name rplan final preview steps

  pub view_steps_for_resource-eq-ok :
      (package_name : String) (rplan : ResourcePlan) (final : Option StateResource) (preview : Bool)
      {steps : List (ViewStep Struct)}
      → view_steps_for_resource new_value unmarshal marshal_properties op_name package_name rplan
          final preview
        ≡ ok steps
      → Steps package_name rplan final preview steps
  unfolding view_steps_for_resource
  view_steps_for_resource-eq-ok package_name rplan final preview h =
      let (shown, _, h₁) =
        >>=-eq-ok (values_to_show new_value unmarshal marshal_properties op_name rplan final) _ h in
      let (new, _, h₂) =
        >>=-eq-ok
          (state_of_option new_value unmarshal marshal_properties op_name package_name
            rplan.resource_change.address rplan.resource_change.type_name shown)
          _ h₁ in
      let (was, _, h₃) = >>=-eq-ok (before new_value rplan) _ h₂ in
      let (old, _, h₄) =
        >>=-eq-ok
          (state_of_option new_value unmarshal marshal_properties op_name package_name
            rplan.resource_change.address rplan.resource_change.type_name was)
          _ h₃ in
      let (kind, e, h₅) = >>=-eq-ok (change_kind rplan) _ h₄ in
      let (ops, f, h₆) = >>=-eq-ok (view_step_op kind) _ h₅ in
      made_of kind ops old new e f (sym (ok-injective _ _ h₆))

  -- The errors of the steps that are made for the operations of a kind.
  has_error-make_steps :
      (package_name : String) (rplan : ResourcePlan) (kind : ChangeKind) (present preview : Bool)
      (old new : Option (ViewStepState Struct)) (ops : List Op)
      → view_step_op kind ≡ ok ops
      → has_error (make_steps op_name package_name rplan kind present preview old new ops)
        ≡ (if preview then false else if survives kind then not present else present)
  unfolding make_steps view_step_op
  has_error-make_steps package_name rplan no_op present preview old new ops h =
      rw (← ok-injective _ ops h) (ground arith)
  has_error-make_steps package_name rplan update present preview old new ops h =
      rw (← ok-injective _ ops h) (ground arith)
  has_error-make_steps package_name rplan replace present preview old new ops h =
      rw (← ok-injective _ ops h) (ground arith)
  has_error-make_steps package_name rplan replace_destroy_before_create present preview old new ops
        h =
      rw (← ok-injective _ ops h) (ground arith)
  has_error-make_steps package_name rplan create present preview old new ops h =
      rw (← ok-injective _ ops h) (ground arith)
  has_error-make_steps package_name rplan delete present preview old new ops h =
      rw (← ok-injective _ ops h) (ground arith)
  has_error-make_steps package_name rplan _ present preview old new ops h = cc

  -- After an operation, the steps of a planned resource carry an error exactly when the final state
  -- contradicts the change: the resource is missing though it should be there, or there though it should
  -- be gone. In a preview they carry none.
  pub view_steps_for_resource-has_error :
      (package_name : String) (rplan : ResourcePlan) (final : Option StateResource) (preview : Bool)
      {kind : ChangeKind} {steps : List (ViewStep Struct)}
      → change_kind rplan ≡ ok kind
      → view_steps_for_resource new_value unmarshal marshal_properties op_name package_name rplan
          final preview
        ≡ ok steps
      → has_error steps
        ≡ (if preview then false else if survives kind then not (is_some final) else is_some final)
  view_steps_for_resource-has_error package_name rplan final preview {kind} e h =
      elim (view_steps_for_resource-eq-ok package_name rplan final preview h) [
        | made_of k ops old new e' f made ↦
            rw (made, ok-injective kind k (sym e ∙ e'))
              (has_error-make_steps package_name rplan k (is_some final) preview old new ops f)
      ]
