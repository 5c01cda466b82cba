-- ===== src/ModProvider/Handlers/Leases.antt =====
-- The client that a handler acquires, and what a preview leaves alone.
use pulumi_terraform_module.Prelude.{
  String, ◌≡◌, refl, Bool, true, false, ◌&&◌, List, [], ◌∷◌, ◌++◌, none, some, Option, Bool-cases,
  inl, inr,
}
use pulumi_terraform_module.Prelude.Outcome.{Outcome, ok, err, panic}
use pulumi_terraform_module.Prelude.Dict.{Dict}
use pulumi_terraform_module.Pulumi.Value.{PropertyMap}
use pulumi_terraform_module.ModProvider.Views.{ViewStep}
use pulumi_terraform_module.ModProvider.Run.{
  Event, acquired, released, applied, refreshed, destroyed, published, Run, with_lease, call, ◌>>=◌,
}
use pulumi_terraform_module.ModProvider.Run.Laws.{all, all-append, all->>=}
use pulumi_terraform_module.ModProvider.Module.{Env, ModuleSchema, Applied, apply_module_operation}
use pulumi_terraform_module.ModProvider.Module.Quiet.{
  is_preparation, all-plan_refresh_only, all-prep_sandbox, all-apply_module_operation, all-refresh,
  all-show_state,
}
use pulumi_terraform_module.ModProvider.Handlers.{
  Request, is_empty, publish, publish_views, reply, finish, create_module, update_module,
  delete_module, read_with_client, read_module,
}

-- No event of a lease.
abbrev pub is_inner : {Struct : Type 0} → Event Struct → Bool
is_inner acquired = false
is_inner released = false
is_inner _ = true

-- The rest of the events, once a lease is held: the release is the last one, and the only one.
abbrev pub is_closed : {Struct : Type 0} → List (Event Struct) → Bool
is_closed [] = false
is_closed (released ∷ es) = is_empty es
is_closed (e ∷ es) = is_inner e && is_closed es

-- Nothing, or one lease around everything.
abbrev pub is_bracketed : {Struct : Type 0} → List (Event Struct) → Bool
is_bracketed [] = true
is_bracketed (acquired ∷ es) = is_closed es
is_bracketed (e ∷ es) = false

is_closed-append :
    {Struct : Type 0} (es : List (Event Struct))
    → all is_inner es ≡ true
    → is_closed (es ++ (released ∷ [])) ≡ true
is_closed-append [] h = refl
is_closed-append (acquired ∷ es) h = cc
is_closed-append (released ∷ es) h = cc
is_closed-append (_ ∷ es) h = is_closed-append es h

is_bracketed-with_lease :
    {Struct A : Type 0} (o : Outcome (Unit {0})) (body : Run Struct A)
    → all is_inner body.events ≡ true
    → is_bracketed ((with_lease o body).events) ≡ true
is_bracketed-with_lease (ok u) body h = is_closed-append body.events h
is_bracketed-with_lease (err e) body h = refl
is_bracketed-with_lease panic body h = refl

is_bracketed-call :
    {Struct A B : Type 0} (o : Outcome A) (f : A → Run Struct B)
    → ((a : A) → is_bracketed ((f a).events) ≡ true)
    → is_bracketed ((call o >>= f).events) ≡ true
unfolding ◌>>=◌
is_bracketed-call (ok a) f h = h a
is_bracketed-call (err e) f h = refl
is_bracketed-call panic f h = refl

is_inner-preparation :
    {Struct : Type 0} (e : Event Struct) → is_preparation e ≡ true → is_inner e ≡ true
is_inner-preparation acquired h = h
is_inner-preparation released h = h
is_inner-preparation _ h = refl

module _ {Struct : Type 0} (env : Env Struct) (p : Event Struct → Bool)
    (publishes : (steps : List (ViewStep Struct)) → p (published steps) ≡ true) where
  all-publish : (steps : List (ViewStep Struct)) → all p ((publish env steps).events) ≡ true
  all-publish steps = all->>= p _ _ (rw (publishes steps) refl) λ u. refl

  all-publish_views :
      (steps : List (ViewStep Struct)) → all p ((publish_views env steps).events) ≡ true
  all-publish_views [] = refl
  all-publish_views (v ∷ vs) = all-publish (v ∷ vs)

  all-reply :
      (failure : Option (String × Struct)) (m : PropertyMap)
      → all p ((reply env failure m).events) ≡ true
  unfolding reply
  all-reply (some detail) m = refl
  all-reply none m = all->>= p _ _ refl λ s. refl

  pub all-finish : (r : Applied Struct) → all p ((finish env r).events) ≡ true
  unfolding finish
  all-finish r = all->>= p _ _ (all-publish_views r.views) λ u. all-reply r.failure r.outputs

module _ {Struct : Type 0} (env : Env Struct) (schema : ModuleSchema)
    (package_name version : String) (providers : Dict PropertyMap) (req : Request) where
  is_bracketed-create :
      is_bracketed ((create_module env schema package_name version providers req).events) ≡ true
  unfolding create_module
  is_bracketed-create = is_bracketed-with_lease env.acquire _ (
      all->>= is_inner _ _ refl λ inputs.
        all->>= is_inner _ _
          (all-apply_module_operation env is_inner is_inner-preparation schema package_name inputs
            none version providers req.preview (λ h. refl))
          λ r. all-finish env is_inner (λ steps. refl) r)

  is_bracketed-update :
      is_bracketed ((update_module env schema package_name version providers req).events) ≡ true
  unfolding update_module
  is_bracketed-update = is_bracketed-call _ _ λ inputs. is_bracketed-call _ _ λ old.
      is_bracketed-with_lease env.acquire _ (
        all->>= is_inner _ _
          (all-apply_module_operation env is_inner is_inner-preparation schema package_name inputs
            (some old) version providers req.preview (λ h. refl))
          λ r. all-finish env is_inner (λ steps. refl) r)

  is_bracketed-delete :
      is_bracketed ((delete_module env schema package_name version providers req).events) ≡ true
  unfolding delete_module
  is_bracketed-delete = is_bracketed-with_lease env.acquire _ (
      all->>= is_inner _ _ refl λ inputs. all->>= is_inner _ _ refl λ old.
        all->>= is_inner _ _
          (all-prep_sandbox env is_inner is_inner-preparation schema inputs (some old) version
            providers)
          λ renamed.
            all->>= is_inner _ _
              (all-show_state env is_inner is_inner-preparation env.show_before refl)
              λ before. all->>= is_inner _ _ refl λ u.
                all->>= is_inner _ _
                  (all-show_state env is_inner is_inner-preparation env.show_after refl)
                  λ final. all->>= is_inner _ _ refl λ steps.
                    all->>= is_inner _ _ (all-publish env is_inner (λ x. refl) steps) λ v. refl)

  all-read_with_client :
      all is_inner ((read_with_client env schema package_name version providers req).events) ≡ true
  unfolding read_with_client
  all-read_with_client = all->>= is_inner _ _ refl λ inputs. all->>= is_inner _ _ refl λ old.
      all->>= is_inner _ _
        (all-prep_sandbox env is_inner is_inner-preparation schema inputs (some old) version
          providers)
        λ renamed.
          all->>= is_inner _ _ (all-plan_refresh_only env is_inner is_inner-preparation) λ plan.
            all->>= is_inner _ _ (all-refresh env is_inner is_inner-preparation refl) λ state.
              all->>= is_inner _ _ refl λ m. all->>= is_inner _ _ refl λ steps.
                all->>= is_inner _ _ (all-publish env is_inner (λ x. refl) steps)
                  λ u. all->>= is_inner _ _ refl λ s. all->>= is_inner _ _ refl λ t. refl

  is_bracketed-read :
      is_bracketed ((read_module env schema package_name version providers req).events) ≡ true
  unfolding read_module
  is_bracketed-read = elim (Bool-cases req.has_inputs) [
    | inl e ↦ rw e (is_bracketed-with_lease env.acquire _ all-read_with_client)
    | inr e ↦ rw e refl
  ]

  -- `Create`, `Update`, `Delete` and `Read` either acquire no client, and then cause no event, or acquire
  -- it first and release it once, last, however they end, by a panic or an error included.
  pub is_bracketed-handlers :
      (is_bracketed ((create_module env schema package_name version providers req).events) ≡ true)
      × (is_bracketed ((update_module env schema package_name version providers req).events) ≡ true)
      × (is_bracketed ((delete_module env schema package_name version providers req).events) ≡ true)
      × (is_bracketed ((read_module env schema package_name version providers req).events) ≡ true)
  is_bracketed-handlers =
      (is_bracketed-create, is_bracketed-update, is_bracketed-delete, is_bracketed-read)

-- Not a change of the real resources.
abbrev pub is_harmless : {Struct : Type 0} → Event Struct → Bool
is_harmless applied = false
is_harmless refreshed = false
is_harmless destroyed = false
is_harmless _ = true

is_harmless-preparation :
    {Struct : Type 0} (e : Event Struct) → is_preparation e ≡ true → is_harmless e ≡ true
is_harmless-preparation applied h = h
is_harmless-preparation refreshed h = h
is_harmless-preparation destroyed h = h
is_harmless-preparation _ h = refl

all-with_lease :
    {Struct A : Type 0} (o : Outcome (Unit {0})) (body : Run Struct A)
    → all is_harmless body.events ≡ true
    → all is_harmless ((with_lease o body).events) ≡ true
all-with_lease (ok u) body h = all-append is_harmless body.events _ h refl
all-with_lease (err e) body h = refl
all-with_lease panic body h = refl

module _ {Struct : Type 0} (env : Env Struct) (schema : ModuleSchema)
    (package_name version : String) (providers : Dict PropertyMap) (req : Request) where
  preview_operation :
      (inputs : PropertyMap) (old : Option PropertyMap)
      → req.preview ≡ true
      → all is_harmless (
          (apply_module_operation env schema package_name inputs old version providers
            req.preview).events)
        ≡ true
  preview_operation inputs old on =
      all-apply_module_operation env is_harmless is_harmless-preparation schema package_name inputs
        old version providers req.preview (λ off. cc)

  -- In a preview, `Create` and `Update` never apply, refresh or destroy.
  pub all-is_harmless_preview :
      req.preview ≡ true
      → (all is_harmless ((create_module env schema package_name version providers req).events)
          ≡ true)
        × (all is_harmless ((update_module env schema package_name version providers req).events)
            ≡ true)
  unfolding create_module update_module
  all-is_harmless_preview on = (
    all-with_lease env.acquire _ (
        all->>= is_harmless _ _ refl λ inputs.
          all->>= is_harmless _ _ (preview_operation inputs none on)
            λ r. all-finish env is_harmless (λ steps. refl) r),
    all->>= is_harmless _ _ refl λ inputs. all->>= is_harmless _ _ refl λ old.
        all-with_lease env.acquire _ (
          all->>= is_harmless _ _ (preview_operation inputs (some old) on)
            λ r. all-finish env is_harmless (λ steps. refl) r),
  )
