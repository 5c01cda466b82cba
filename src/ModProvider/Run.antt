-- ===== src/ModProvider/Run.antt =====
-- A handler of the provider as the events that it causes, in order, and what it ends in.
use pulumi_terraform_module.Prelude.{String, ◌≡◌, ap, Bool, true, false, ◌&&◌, List, [], ◌∷◌, ◌++◌}
use pulumi_terraform_module.Prelude.Outcome.{Outcome, ok, err, panic}
use pulumi_terraform_module.Prelude.Dict.{Dict}
use pulumi_terraform_module.Pulumi.Value.{PropertyMap}
use pulumi_terraform_module.ModProvider.Meta.{Recorded}
use pulumi_terraform_module.ModProvider.Views.{ViewStep}
pub mod Laws

pub data Event (Struct : Type 0) : Type 0 where
  acquired released : Event Struct
  -- the seed file: the inputs, the outputs and the providers
  seeded : PropertyMap → List String → Dict PropertyMap → Event Struct
  pushed : Recorded → Event Struct
  -- whether with `-upgrade`
  initialized : Bool → Event Struct
  planned applied refreshed destroyed shown : Event Struct
  published : List (ViewStep Struct) → Event Struct

pub record Run (Struct A : Type 0) : Type 0 where
  pub events : List (Event Struct)
  pub result : Outcome A

module _ {Struct : Type 0} where
  abbrev pub after : {A : Type 0} → List (Event Struct) → Run Struct A → Run Struct A
  after es r = record { events = es ++ r.events; result = r.result }

  abbrev pub continue :
      {A B : Type 0} → List (Event Struct) → Outcome A → (A → Run Struct B) → Run Struct B
  continue es (ok a) f = after es (f a)
  continue es (err e) f = record { events = es; result = err e }
  continue es panic f = record { events = es; result = panic }

  infixl 5 ◌>>=◌ ◌>>◌
  unfoldable pub ◌>>=◌ : {A B : Type 0} → Run Struct A → (A → Run Struct B) → Run Struct B
  m >>= f = continue m.events m.result f

  abbrev pub ◌>>◌ : {B : Type 0} → Run Struct (Unit {0}) → Run Struct B → Run Struct B
  first >> second = first >>= λ _. second

  -- A call that causes no event.
  abbrev pub call : {A : Type 0} → Outcome A → Run Struct A
  call o = record { events = []; result = o }

  abbrev pub emit : Event Struct → Run Struct (Unit {0})
  emit e = record { events = e ∷ []; result = ok tt }

  -- `lease, err := pool.Acquire(...); defer lease.Release()`: a deferred call runs on a panic, too.
  abbrev pub with_lease : {A : Type 0} → Outcome (Unit {0}) → Run Struct A → Run Struct A
  with_lease (ok u) body = record {
    events = acquired ∷ body.events ++ (released ∷ []);
    result = body.result;
  }
  with_lease (err e) body = record { events = []; result = err e }
  with_lease panic body = record { events = []; result = panic }
