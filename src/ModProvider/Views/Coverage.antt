-- ===== src/ModProvider/Views/Coverage.antt =====
-- Which resources the steps report.
use pulumi_terraform_module.Prelude.{
  String, ◌≡◌, refl, ap, Bool, true, false, not, ◌||◌, ◌&&◌, Option, none, some, List, [], ◌∷◌,
  ◌++◌, ◌==◌, eq_refl, is_some, some-injective, or_left, or_right, map, arith, if◌then◌else◌,
  Bool-cases, Option-cases, inl, inr,
}
use pulumi_terraform_module.Prelude.Outcome.{Outcome, ok, ◌>>=◌, >>=-eq-ok, ok-injective}
use pulumi_terraform_module.Prelude.Dict.{Dict, lookup}
use pulumi_terraform_module.Pulumi.Json.{Json}
use pulumi_terraform_module.Pulumi.Value.{PropertyValue, PropertyMap}
use pulumi_terraform_module.TfSandbox.Resources.{StateResource, unknown_proxy_resource_type}
use pulumi_terraform_module.TfSandbox.Plan.{
  ChangeKind, no_op, ResourcePlan, Plan, RawPlan, new_plan, find_resource_plan,
}
use pulumi_terraform_module.TfSandbox.State.{
  State, RawState, new_state, find_resource_state, attribute_values,
}
use pulumi_terraform_module.TfSandbox.Plan.Laws.{address-find_resource_plan}
use pulumi_terraform_module.TfSandbox.State.Laws.{address-find_resource_state}
use pulumi_terraform_module.ModProvider.Views.{
  Op, deleted, view_step_op, ViewStepState, ViewStep, make_steps, view_steps_for_resource, final_of,
  planned_steps, view_step_for_same_resource, same_steps, view_steps_generic,
  view_steps_after_destroy, view_step_state,
}
use pulumi_terraform_module.ModProvider.Views.Errors.{made_of, view_steps_for_resource-eq-ok}

abbrev pub is_delete : Op → Bool
is_delete deleted = true
is_delete _ = false

abbrev pub step_name {ℓ} : {Struct : Type ℓ} → ViewStep Struct → String
step_name s = s.name

abbrev pub resource_address : String × StateResource → String
resource_address (_, r) = r.address

abbrev pub all_deleted {ℓ} : {Struct : Type ℓ} → List (ViewStep Struct) → Bool
all_deleted [] = true
all_deleted (s ∷ steps) =
    is_delete s.op && is_some s.old && not (is_some s.new) && all_deleted steps

-- Some step is for the resource at the address.
abbrev pub names {ℓ} : {Struct : Type ℓ} → String → List (ViewStep Struct) → Bool
names a [] = false
names a (s ∷ steps) = s.name == a || names a steps

names-append {ℓ} :
    {Struct : Type ℓ} (a : String) (xs ys : List (ViewStep Struct))
    → names a (xs ++ ys) ≡ (names a xs || names a ys)
names-append a [] ys = refl
names-append a (x ∷ xs) ys = ground (arith, names-append a xs ys)

module _ {Struct : Type 0} (new_value : Json → PropertyValue) (unmarshal : String → Option Json)
    (marshal_properties : PropertyMap → Option Struct) (op_name : Op → String) where
  names-make_steps :
      (package_name : String) (rplan : ResourcePlan) (kind : ChangeKind) (present preview : Bool)
      (old new : Option (ViewStepState Struct)) (ops : List Op)
      → view_step_op kind ≡ ok ops
      → names rplan.resource_change.address
          (make_steps op_name package_name rplan kind present preview old new ops)
        ≡ true
  unfolding make_steps view_step_op
  names-make_steps package_name rplan no_op present preview old new [] h = cc
  names-make_steps package_name rplan _ present preview old new [] h = cc
  names-make_steps package_name rplan kind present preview old new (op ∷ ops) h =
      rw (eq_refl rplan.resource_change.address)

  names-view_steps_for_resource :
      (package_name : String) (rplan : ResourcePlan) (final : Option StateResource) (preview : Bool)
      {steps : List (ViewStep Struct)}
      → view_steps_for_resource new_value unmarshal marshal_properties op_name package_name rplan
          final preview
        ≡ ok steps
      → names rplan.resource_change.address steps ≡ true
  names-view_steps_for_resource package_name rplan final preview h =
      elim (view_steps_for_resource-eq-ok new_value unmarshal marshal_properties op_name
        package_name rplan final preview h) [
          | made_of kind ops old new _ f made ↦
              rw made
                (names-make_steps package_name rplan kind (is_some final) preview old new ops f)
        ]

  names-one_plan :
      (package_name : String) (rplan : ResourcePlan) (final : Option StateResource) (preview : Bool)
      {steps : List (ViewStep Struct)}
      → (rplan.resource_change.type_name == unknown_proxy_resource_type) ≡ false
      → (if rplan.resource_change.type_name == unknown_proxy_resource_type
          then ok []
          else view_steps_for_resource new_value unmarshal marshal_properties op_name package_name
              rplan final preview)
        ≡ ok steps
      → names rplan.resource_change.address steps ≡ true
  names-one_plan package_name rplan final preview real h =
      names-view_steps_for_resource package_name rplan final preview (rw real at h)

  names-planned_steps :
      (package_name : String) (final : Option State) (preview : Bool) (plans : Dict ResourcePlan)
      (a : String) (rp : ResourcePlan) {steps : List (ViewStep Struct)}
      → lookup a plans ≡ some rp
      → (rp.resource_change.type_name == unknown_proxy_resource_type) ≡ false
      → planned_steps new_value unmarshal marshal_properties op_name package_name final preview
          plans
        ≡ ok steps
      → names rp.resource_change.address steps ≡ true
  unfolding planned_steps lookup
  names-planned_steps package_name final preview [] a rp has real h = cc
  names-planned_steps package_name final preview ((k, q) ∷ rest) a rp {steps} has real h =
      let (xs, e, h') =
        >>=-eq-ok
          (if q.resource_change.type_name == unknown_proxy_resource_type
            then ok []
            else view_steps_for_resource new_value unmarshal marshal_properties op_name package_name
                q
                (final_of new_value unmarshal marshal_properties op_name final
                  q.resource_change.address)
                preview)
          _ h in
      let (ys, f, h'') =
        >>=-eq-ok
          (planned_steps new_value unmarshal marshal_properties op_name package_name final preview
            rest)
          _ h' in
      rw (← ok-injective _ steps h'', names-append rp.resource_change.address xs ys)
        (elim (Bool-cases (k == a)) [
          | inl here ↦
              let same = some-injective q rp (rw (here, lookup) at has) in
              or_left _ _ (
                rw same at (
                  names-one_plan package_name q _ preview
                    (rw (ap (λ x. x.resource_change.type_name) same) real) e))
          | inr there ↦ or_right _ _ (
              names-planned_steps package_name final preview rest a rp (rw (there, lookup) at has)
                real f)
        ])

  abbrev one_same : String → Plan → StateResource → Outcome (List (ViewStep Struct))
  one_same package_name plan r = if is_some (find_resource_plan plan r.address) then ok [] else do
    s ← view_step_for_same_resource new_value unmarshal marshal_properties op_name package_name r
    ok (s ∷ [])

  names-one_same :
      (package_name : String) (plan : Plan) (r : StateResource) {steps : List (ViewStep Struct)}
      → find_resource_plan plan r.address ≡ none
      → one_same package_name plan r ≡ ok steps
      → names r.address steps ≡ true
  unfolding view_step_for_same_resource
  names-one_same package_name plan r {steps} unplanned h =
      let (s, e, h') =
        >>=-eq-ok
          (view_step_for_same_resource new_value unmarshal marshal_properties op_name package_name
            r)
          _ (rw unplanned at h) in
      let (values, _, e') = >>=-eq-ok (attribute_values new_value unmarshal r) _ e in
      let (x, _, e'') =
        >>=-eq-ok
          (view_step_state new_value unmarshal marshal_properties op_name package_name r.address
            r.type_name values)
          _ e' in
      rw (← ok-injective _ steps h', ← ok-injective _ s e'') (rw (eq_refl r.address))

  names-same_steps :
      (package_name : String) (plan : Plan) (resources : Dict StateResource) (a : String)
      (r : StateResource) {steps : List (ViewStep Struct)}
      → lookup a resources ≡ some r
      → find_resource_plan plan r.address ≡ none
      → same_steps new_value unmarshal marshal_properties op_name package_name plan resources
        ≡ ok steps
      → names r.address steps ≡ true
  unfolding same_steps lookup
  names-same_steps package_name plan [] a r has unplanned h = cc
  names-same_steps package_name plan ((k, q) ∷ rest) a r {steps} has unplanned h =
      let (xs, e, h') = >>=-eq-ok (one_same package_name plan q) _ h in
      let (ys, f, h'') =
        >>=-eq-ok (same_steps new_value unmarshal marshal_properties op_name package_name plan rest)
          _ h' in
      rw (← ok-injective _ steps h'', names-append r.address xs ys)
        (elim (Bool-cases (k == a)) [
          | inl here ↦
              let same = some-injective q r (rw (here, lookup) at has) in
              or_left _ _ (rw same at (names-one_same package_name plan q (rw same unplanned) e))
          | inr there ↦
              or_right _ _ (
                names-same_steps package_name plan rest a r (rw (there, lookup) at has) unplanned f)
        ])

  -- Every resource of the final state is reported by a step, planned or not, unless its plan is of the
  -- stand-in for unknown values. (The plan and the state are those that `NewPlan` and `NewState` build.)
  pub names-view_steps_generic :
      (package_name : String) (raw : RawPlan) (raw_state : RawState) (preview : Bool) (a : String)
      (r : StateResource) {plan : Plan} {steps : List (ViewStep Struct)}
      → new_plan raw ≡ ok plan
      → find_resource_state (new_state raw_state) a ≡ some r
      → ((rp : ResourcePlan)
          → find_resource_plan plan a ≡ some rp
          → (rp.resource_change.type_name == unknown_proxy_resource_type) ≡ false)
      → view_steps_generic new_value unmarshal marshal_properties op_name package_name plan
          (some (new_state raw_state))
          preview
        ≡ ok steps
      → names a steps ≡ true
  unfolding view_steps_generic find_resource_state find_resource_plan
  names-view_steps_generic package_name raw raw_state preview a r {plan} {steps} made there real h =
      let final = new_state raw_state in
      let (xs, e, h') =
        >>=-eq-ok
          (planned_steps new_value unmarshal marshal_properties op_name package_name (some final)
            preview plan.by_address)
          _ h in
      let (ys, f, h'') =
        >>=-eq-ok
          (same_steps new_value unmarshal marshal_properties op_name package_name plan
            final.by_address)
          _ h' in
      let at_a = address-find_resource_state raw_state a there in
      rw (← ok-injective _ steps h'', names-append a xs ys)
        (elim (Option-cases (find_resource_plan plan a)) [
          | inl unplanned ↦ or_right _ _ (
              rw at_a at (
                names-same_steps package_name plan final.by_address a r there (rw at_a unplanned)
                  f))
          | inr (rp, planned) ↦ or_left _ _ (
              rw (address-find_resource_plan raw a made planned) at (
                names-planned_steps package_name (some final) preview plan.by_address a rp planned
                  (real rp planned) e))
        ])

  -- After a destroy, each resource of the state before it is reported once, in the order of the visit,
  -- as deleted: with an old state, and with no new one.
  pub view_steps_after_destroy_lem :
      (package_name : String) (resources : Dict StateResource) {steps : List (ViewStep Struct)}
      → view_steps_after_destroy new_value unmarshal marshal_properties op_name package_name
          resources
        ≡ ok steps
      → (map step_name steps ≡ map resource_address resources) × (all_deleted steps ≡ true)
  unfolding view_steps_after_destroy
  view_steps_after_destroy_lem package_name [] {steps} h =
      rw (← ok-injective _ steps h) (refl, refl)
  view_steps_after_destroy_lem package_name ((k, r) ∷ rest) {steps} h =
      let (values, _, h') = >>=-eq-ok (attribute_values new_value unmarshal r) _ h in
      let (x, _, h'') =
        >>=-eq-ok
          (view_step_state new_value unmarshal marshal_properties op_name package_name r.address
            r.type_name values)
          _ h' in
      let (more, e, h₃) =
        >>=-eq-ok
          (view_steps_after_destroy new_value unmarshal marshal_properties op_name package_name
            rest)
          _ h'' in
      let (same, gone) = view_steps_after_destroy_lem package_name rest e in
      rw (← ok-injective _ steps h₃) (ap (λ t. r.address ∷ t) same, gone)
