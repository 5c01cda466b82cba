-- ===== src/ModProvider/Module/Results.antt =====
-- What `applyModuleOperation` returns after an apply.
use pulumi_terraform_module.Prelude.{
  String, ◌≡◌, refl, sym, ap, ◌∙◌, Bool, true, false, ◌||◌, Option, none, some, List, [], ◌∷◌, ◌==◌,
  eq_iff, arith, Bool-cases, Option-cases, some-injective, inl, inr, if◌then◌else◌,
}
use pulumi_terraform_module.Prelude.Outcome.{ok, ok-injective}
use pulumi_terraform_module.Prelude.Dict.{Dict}
use pulumi_terraform_module.Pulumi.Value.{PropertyValue, PropertyMap, find, find-insert, find-erase}
use pulumi_terraform_module.TfSandbox.Plan.{Plan}
use pulumi_terraform_module.TfSandbox.State.{RawState, State}
use pulumi_terraform_module.ModProvider.Meta.{
  state_prop_name, lock_prop_name, version_prop_name, recorded_text, get_state, outputs,
}
use pulumi_terraform_module.ModProvider.Remap.{rename_output, rename_outputs}
use pulumi_terraform_module.ModProvider.Views.{ViewStep}
use pulumi_terraform_module.ModProvider.Run.Laws.{result->>=}
use pulumi_terraform_module.ModProvider.Module.{
  Env, ModuleSchema, Applied, apply, shown_state, show_applied, apply_plan, preview_plan,
  initialization_error, apply_module_operation,
}

-- A mapping has the name on one of its sides.
abbrev pub is_mentioned : String → Dict String → Bool
is_mentioned name [] = false
is_mentioned name ((pulumi_name, tf_name) ∷ mappings) =
    pulumi_name == name || tf_name == name || is_mentioned name mappings

find-rename_output :
    (name k : String) (v : PropertyValue) (mappings : Dict String) (m : PropertyMap)
    → is_mentioned name mappings ≡ false
    → find name (rename_output k v mappings m) ≡ find name m
unfolding rename_output
find-rename_output name k v [] m h = refl
find-rename_output name k v ((p, t) ∷ mappings) m h = elim (Bool-cases (k == t)) [
  | inr e ↦ rw e (find-rename_output name k v mappings m (ground arith))
  | inl e ↦ rw e (
      find-rename_output name k v mappings _ (ground arith)
      ∙ rw (find-erase, find-insert) (ground (arith, eq_iff k t, eq_iff k name, eq_iff t name)))
]

-- The renaming leaves an output alone that no mapping mentions.
find-rename_outputs :
    (name : String) (mappings : Dict String) (ks : List String) (m : PropertyMap)
    → is_mentioned name mappings ≡ false
    → find name (rename_outputs mappings ks m) ≡ find name m
unfolding rename_outputs
find-rename_outputs name mappings [] m h = refl
find-rename_outputs name mappings (k ∷ ks) m h = elim (Option-cases (find k m)) [
  | inl e ↦ rw e (find-rename_outputs name mappings ks m h)
  | inr (v, e) ↦
      rw e (find-rename_outputs name mappings ks _ h ∙ find-rename_output name k v mappings m h)
]

-- The mappings leave the three properties alone that the provider adds.
abbrev pub is_meta_free : Dict String → Bool
is_meta_free mappings =
    if is_mentioned state_prop_name mappings
    then false
    else if is_mentioned lock_prop_name mappings
    then false
    else if is_mentioned version_prop_name mappings
    then false
    else true

recorded_text-rename_outputs :
    (name : String) (mappings : Dict String) (ks : List String) (m : PropertyMap)
    → is_mentioned name mappings ≡ false
    → recorded_text name (rename_outputs mappings ks m) ≡ recorded_text name m
unfolding recorded_text
recorded_text-rename_outputs name mappings ks m h =
    rw (find-rename_outputs name mappings ks m h, recorded_text) refl

pub get_state-rename_outputs :
    (mappings : Dict String) (ks : List String) (m : PropertyMap)
    → is_meta_free mappings ≡ true
    → get_state (rename_outputs mappings ks m) ≡ get_state m
unfolding get_state
get_state-rename_outputs mappings ks m h =
    rw
      (
        find-rename_outputs state_prop_name mappings ks m (ground arith),
        recorded_text-rename_outputs lock_prop_name mappings ks m (ground arith),
        recorded_text-rename_outputs version_prop_name mappings ks m (ground arith),
      )
      refl

module _ {Struct : Type 0} (env : Env Struct) where
  -- Where the result of an operation that is no preview comes from.
  pub record FromApply (schema : ModuleSchema) (version : String) (r : Applied Struct)
      : Type 0 where
    pub raw : RawState
    pub state : State
    pub failure : Option String
    pub base : PropertyMap
    pub is_shown : shown_state env env.apply_json env.show ≡ ok (raw, failure)
    pub has_outputs : outputs env.new_value env.disk_after state version ≡ ok base
    pub is_wrapped : initialization_error env base failure ≡ ok r.failure
    pub is_renamed :
        r.outputs ≡ rename_outputs schema.output_field_mappings (env.output_order base) base

  -- An apply whose result is shown.
  record Shown (version : String) (t : PropertyMap × List (ViewStep Struct) × Option String)
      : Type 0 where
    raw : RawState
    state : State
    is_shown : shown_state env env.apply_json env.show ≡ ok (raw, t.2)
    has_outputs : outputs env.new_value env.disk_after state version ≡ ok t.0

  result-apply :
      {r : Option State × Option String}
      → (apply env).result ≡ ok r
      → (raw : RawState) × (state : State) × (shown_state env env.apply_json env.show
          ≡ ok (raw, r.1))
        × (r.0 ≡ some state)
  unfolding apply
  result-apply {r} h =
      let (u, _, h₁, _) = result->>= _ _ h in
      let (x, e, h₂, _) = result->>= _ _ h₁ in
      let same = ok-injective _ r h₂ in
      (x.0, _, e ∙ ap (λ y. ok (x.0, y.1)) same, sym (ap (λ y. y.0) same))

  result-show_applied :
      (package_name version : String) (plan : Plan) (r : Option State × Option String)
      {t : PropertyMap × List (ViewStep Struct) × Option String} (state : State)
      → r.0 ≡ some state
      → (show_applied env package_name version plan r).result ≡ ok t
      → (outputs env.new_value env.disk_after state version ≡ ok t.0) × (r.1 ≡ t.2)
  unfolding show_applied
  result-show_applied package_name version plan (none, failure) state e h = cc
  result-show_applied package_name version plan (some s, failure) {t} state e h =
      let (views, _, h₁, _) = result->>= _ _ h in
      let (m, made, h₂, _) = result->>= _ _ h₁ in
      let same = ok-injective _ t h₂ in
      (rw (some-injective s state e) at made ∙ ap (λ y. ok y.0) same, ap (λ y. y.2) same)

  result-apply_plan :
      (package_name version : String) (plan : Plan)
      {t : PropertyMap × List (ViewStep Struct) × Option String}
      → (apply_plan env package_name version plan).result ≡ ok t
      → Shown version t
  unfolding apply_plan
  result-apply_plan package_name version plan {t} h =
      let (r, e, h₁, _) = result->>= _ _ h in
      let (raw, state, s, has) = result-apply e in
      let (made, fails) = result-show_applied package_name version plan r state has h₁ in
      record {
        raw = raw;
        state = state;
        is_shown = s ∙ ap (λ f. ok (raw, f)) fails;
        has_outputs = made;
      }

  result-operation :
      (package_name version : String) (plan : Plan) (preview : Bool)
      {t : PropertyMap × List (ViewStep Struct) × Option String}
      → preview ≡ false
      → (if preview
          then preview_plan env package_name plan
          else apply_plan env package_name version plan).result
        ≡ ok t
      → Shown version t
  result-operation package_name version plan true real h = cc
  result-operation package_name version plan false real h =
      result-apply_plan package_name version plan h

  pub result-apply_module_operation :
      (schema : ModuleSchema) (package_name : String) (inputs : PropertyMap)
      (old : Option PropertyMap) (version : String) (providers : Dict PropertyMap) (preview : Bool)
      {r : Applied Struct}
      → preview ≡ false
      → (apply_module_operation env schema package_name inputs old version providers preview).result
        ≡ ok r
      → FromApply schema version r
  unfolding apply_module_operation
  result-apply_module_operation schema package_name inputs old version providers preview {r} real
        h =
      let (renamed, _, h₁, _) = result->>= _ _ h in
      let (plan, _, h₂, _) = result->>= _ _ h₁ in
      let (t, e, h₃, _) = result->>= _ _ h₂ in
      let (failure, wrapped, h₄, _) = result->>= _ _ h₃ in
      let s = result-operation package_name version plan preview real e in
      let same = ok-injective _ r h₄ in
      record {
        raw = s.raw;
        state = s.state;
        failure = t.2;
        base = t.0;
        is_shown = s.is_shown;
        has_outputs = s.has_outputs;
        is_wrapped = wrapped ∙ ap (λ a. ok a.failure) same;
        is_renamed = sym (ap (λ a. a.outputs) same);
      }
