-- ===== src/ModProvider/Handlers/Results.antt =====
-- What `Create` and `Update` have done once they report success.
use pulumi_terraform_module.Prelude.{
  String, ◌≡◌, refl, ap, ◌∙◌, true, false, Option, none, some, Option-cases, inl, inr,
}
use pulumi_terraform_module.Prelude.Outcome.{Outcome, ok, err, panic, ok-injective}
use pulumi_terraform_module.Prelude.Dict.{Dict}
use pulumi_terraform_module.Pulumi.Value.{PropertyMap}
use pulumi_terraform_module.TfSandbox.Files.{pull_state_and_lock_file}
use pulumi_terraform_module.TfSandbox.State.{RawState}
use pulumi_terraform_module.ModProvider.Meta.{get_state, or_empty}
use pulumi_terraform_module.ModProvider.Meta.Laws.{get_state-outputs}
use pulumi_terraform_module.ModProvider.Run.{Run, with_lease}
use pulumi_terraform_module.ModProvider.Run.Laws.{result->>=}
use pulumi_terraform_module.ModProvider.Module.{
  Env, ModuleSchema, Applied, shown_state, initialization_error,
}
use pulumi_terraform_module.ModProvider.Module.Results.{
  FromApply, is_meta_free, get_state-rename_outputs, result-apply_module_operation,
}
use pulumi_terraform_module.ModProvider.Handlers.{
  Request, done, marshal, reply, finish, create_module, update_module,
}

result-with_lease :
    {Struct A : Type 0} (o : Outcome (Unit {0})) (body : Run Struct A) {a : A}
    → (with_lease o body).result ≡ ok a
    → body.result ≡ ok a
result-with_lease (ok u) body h = h
result-with_lease (err e) body h = cc
result-with_lease panic body h = cc

module _ {Struct : Type 0} (env : Env Struct) where
  marshal-eq-ok :
      (m : PropertyMap) {s : Struct} → marshal env m ≡ ok s → env.marshal_properties m ≡ some s
  marshal-eq-ok m {s} h = elim (Option-cases (env.marshal_properties m)) [
    | inl e ↦ cc (rw (e, marshal) at h)
    | inr (t, e) ↦ e ∙ ap some (ok-injective t s (rw (e, marshal) at h))
  ]

  reply-done :
      (failure : Option (String × Struct)) (m : PropertyMap) {s : Struct}
      → (reply env failure m).result ≡ ok (done s)
      → (failure ≡ none) × (env.marshal_properties m ≡ some s)
  unfolding reply
  reply-done (some detail) m h = cc
  reply-done none m {s} h =
      let (t, e, h₁, _) = result->>= _ _ h in
      (refl, marshal-eq-ok m (rw (done-injective t s (ok-injective _ _ h₁)) at e))
    where
      done-injective : (t s : Struct) → done t ≡ done s → t ≡ s
      done-injective t s h = cc

  finish-done :
      (r : Applied Struct) {s : Struct}
      → (finish env r).result ≡ ok (done s)
      → (r.failure ≡ none) × (env.marshal_properties r.outputs ≡ some s)
  unfolding finish
  finish-done r h = let (u, _, h₁, _) = result->>= _ _ h in reply-done r.failure r.outputs h₁

  unwrapped :
      (m : PropertyMap) (failure : Option String)
      → initialization_error env m failure ≡ ok none
      → failure ≡ none
  unfolding initialization_error
  unwrapped m none h = refl
  unwrapped m (some reason) h = elim (Option-cases (env.marshal_properties m)) [
    | inl e ↦ cc (rw (e, initialization_error) at h)
    | inr (t, e) ↦ cc (rw (e, initialization_error) at h)
  ]

  shown_without_failure :
      (failure : Option String) (answer : Outcome RawState) (raw : RawState)
      → shown_state env failure answer ≡ ok (raw, none)
      → failure ≡ none
  shown_without_failure failure (ok r) raw h = ap (λ x. x.1) (ok-injective _ _ h)
  shown_without_failure failure (err e) raw h = cc
  shown_without_failure failure panic raw h = cc

  -- What a successful end of an operation shows.
  success :
      (schema : ModuleSchema) (version state : String) (lock : Option String) (r : Applied Struct)
      {s : Struct}
      → is_meta_free schema.output_field_mappings ≡ true
      → pull_state_and_lock_file env.disk_after ≡ ok (state, lock)
      → FromApply env schema version r
      → (finish env r).result ≡ ok (done s)
      → (env.apply_json ≡ none)
        × (m : PropertyMap) × (env.marshal_properties m ≡ some s)
        × (get_state m
            ≡ ok (record { state = state; lock = some (or_empty lock); version = version }))
  success schema version state lock r free pulled from h =
      let (fine, marshals) = finish-done r h in
      let clean = unwrapped from.base from.failure (rw fine at (from.is_wrapped)) in
      (
        shown_without_failure env.apply_json env.show from.raw (rw clean at (from.is_shown)),
        r.outputs,
        marshals,
        ap get_state from.is_renamed
            ∙ (get_state-rename_outputs schema.output_field_mappings _ from.base free
                ∙ get_state-outputs env.new_value env.disk_after from.state version state lock
                    pulled from.has_outputs),
      )

  -- `Create` that is not a preview reports success only if terraform's apply has not failed. Then the
  -- properties that it returns record the state and the lock file that the apply left in the working
  -- directory, if they can be read, and the version of the module: the next operation reads them back. (A
  -- missing lock file is read back as an empty one, and the mappings of outputs do not mention the
  -- properties that the provider adds.)
  pub create_module-done :
      (schema : ModuleSchema) (package_name version state : String) (lock : Option String)
      (providers : Dict PropertyMap) (req : Request) {s : Struct}
      → req.preview ≡ false
      → is_meta_free schema.output_field_mappings ≡ true
      → pull_state_and_lock_file env.disk_after ≡ ok (state, lock)
      → (create_module env schema package_name version providers req).result ≡ ok (done s)
      → (env.apply_json ≡ none)
        × (m : PropertyMap) × (env.marshal_properties m ≡ some s)
        × (get_state m
            ≡ ok (record { state = state; lock = some (or_empty lock); version = version }))
  unfolding create_module
  create_module-done schema package_name version state lock providers req real free pulled h =
      let (inputs, _, h₁, _) = result->>= _ _ (result-with_lease env.acquire _ h) in
      let (r, e, h₂, _) = result->>= _ _ h₁ in
      success schema version state lock r free pulled
        (result-apply_module_operation env schema package_name inputs none version providers
          req.preview real e)
        h₂

  -- `Update` that is not a preview reports success only if terraform's apply has not failed. Then its
  -- properties record the state and the lock file that the apply left in the working directory, if they
  -- can be read, and the version of the module. (A missing lock file is read back as an empty one, and the
  -- mappings of outputs do not mention the properties that the provider adds.)
  pub update_module-done :
      (schema : ModuleSchema) (package_name version state : String) (lock : Option String)
      (providers : Dict PropertyMap) (req : Request) {s : Struct}
      → req.preview ≡ false
      → is_meta_free schema.output_field_mappings ≡ true
      → pull_state_and_lock_file env.disk_after ≡ ok (state, lock)
      → (update_module env schema package_name version providers req).result ≡ ok (done s)
      → (env.apply_json ≡ none)
        × (m : PropertyMap) × (env.marshal_properties m ≡ some s)
        × (get_state m
            ≡ ok (record { state = state; lock = some (or_empty lock); version = version }))
  unfolding update_module
  update_module-done schema package_name version state lock providers req real free pulled h =
      let (inputs, _, h₁, _) = result->>= _ _ h in
      let (old, _, h₂, _) = result->>= _ _ h₁ in
      let (r, e, h₃, _) = result->>= _ _ (result-with_lease env.acquire _ h₂) in
      success schema version state lock r free pulled
        (result-apply_module_operation env schema package_name inputs (some old) version providers
          req.preview real e)
        h₃
