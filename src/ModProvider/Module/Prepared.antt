-- ===== src/ModProvider/Module/Prepared.antt =====
-- What `prepSandbox` has done once it returns.
use pulumi_terraform_module.Prelude.{
  String, ◌≡◌, refl, sym, ap, ◌∙◌, Bool, false, not, Option, none, some, List, [], ◌∷◌, ◌++◌, ◌==◌,
  map,
}
use pulumi_terraform_module.Prelude.Outcome
use pulumi_terraform_module.Prelude.Outcome.{Outcome, ok, err, panic, ok-injective}
use pulumi_terraform_module.Prelude.Dict.{Dict}
use pulumi_terraform_module.Pulumi.Value.{PropertyMap}
use pulumi_terraform_module.ModProvider.Meta.{Recorded, get_state, needs_init_upgrade}
use pulumi_terraform_module.ModProvider.Remap.{rename_inputs, rename_providers}
use pulumi_terraform_module.ModProvider.Run.{Event, seeded, pushed, initialized}
use pulumi_terraform_module.ModProvider.Run.Laws.{result->>=}
use pulumi_terraform_module.ModProvider.Module.{
  Env, ModuleSchema, output_spec, push_old_outputs, prep_sandbox,
}

-- What the old outputs record, if there are any.
abbrev pub recorded_in : Option PropertyMap → Outcome (Option Recorded)
recorded_in none = ok none
recorded_in (some m) = Outcome.◌>>=◌ (get_state m) λ r. ok (some r)

abbrev pub push_events : {Struct : Type 0} → Option Recorded → List (Event Struct)
push_events none = []
push_events (some r) = pushed r ∷ []

-- Another version of the module is recorded.
abbrev pub is_other_version : Option Recorded → String → Bool
is_other_version none version = false
is_other_version (some r) version = not (r.version == version)

module _ {Struct : Type 0} (env : Env Struct) where
  events-push_old_outputs :
      (old : Option PropertyMap) (recorded : Option Recorded) (current : String) {version : String}
      → recorded_in old ≡ ok recorded
      → (push_old_outputs env old).result ≡ ok version
      → ((push_old_outputs env old).events ≡ push_events recorded)
        × (needs_init_upgrade old version current ≡ is_other_version recorded current)
  unfolding push_old_outputs needs_init_upgrade
  events-push_old_outputs none recorded current e h =
      rw (← ok-injective none recorded e) (refl, refl)
  events-push_old_outputs (some m) recorded current {version} e h =
      let (r, has, h₁, e₁) = result->>= _ _ h in
      let (u, _, h₂, e₂) = result->>= _ _ h₁ in
      let (v, _, h₃, e₃) = result->>= _ _ h₂ in
      let same = ok-injective _ recorded (rw has at e) in
      rw (← same) (e₁ ∙ (e₂ ∙ ap (λ es. pushed r ∷ es) e₃), rw (← ok-injective _ version h₃) refl)

  -- When `prepSandbox` returns, it has written the seed file with the renamed inputs, outputs and
  -- providers, then pushed the state and the lock file that the old outputs record (none in `Create`),
  -- and then run init, with `-upgrade` exactly when these record another version of the module.
  pub events-prep_sandbox :
      (schema : ModuleSchema) (inputs : PropertyMap) (old : Option PropertyMap) (version : String)
      (providers : Dict PropertyMap) (recorded : Option Recorded) {renamed : PropertyMap}
      → recorded_in old ≡ ok recorded
      → (prep_sandbox env schema inputs old version providers).result ≡ ok renamed
      → ((prep_sandbox env schema inputs old version providers).events
          ≡ seeded
                (rename_inputs schema.input_field_mappings (env.input_order inputs) inputs)
                (map (output_spec schema.output_field_mappings) schema.outputs)
                (rename_providers schema.provider_field_mappings
                  (env.provider_order providers)
                  providers)
              ∷ push_events recorded
            ++ (initialized (is_other_version recorded version) ∷ []))
        × (renamed ≡ rename_inputs schema.input_field_mappings (env.input_order inputs) inputs)
  unfolding prep_sandbox
  events-prep_sandbox schema inputs old version providers recorded {renamed} e h =
      let (u, _, h₁, e₁) = result->>= _ _ h in
      let (v, _, h₂, e₂) = result->>= _ _ h₁ in
      let (w, _, h₃, e₃) = result->>= _ _ h₂ in
      let (previous, pushes, h₄, e₄) = result->>= _ _ h₃ in
      let (x, _, h₅, e₅) = result->>= _ _ h₄ in
      let (y, _, h₆, e₆) = result->>= _ _ h₅ in
      let (a, b) = events-push_old_outputs old recorded version e pushes in
      (rw (e₁, e₂, e₃, e₄, a, e₅, e₆, b) refl, sym (ok-injective _ renamed h₆))
