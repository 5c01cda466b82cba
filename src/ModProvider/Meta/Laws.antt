-- ===== src/ModProvider/Meta/Laws.antt =====
-- What the resource records is what the next operation starts from.
use pulumi_terraform_module.Prelude.{String, ◌≡◌, ◌∙◌, refl, sym, Option, some}
use pulumi_terraform_module.Prelude.Outcome.{ok, >>=-eq-ok, ok-injective}
use pulumi_terraform_module.Pulumi.Json.{Json}
use pulumi_terraform_module.Pulumi.Value.{
  PropertyValue, PropertyMap, string, secret, find, find-insert,
}
use pulumi_terraform_module.TfSandbox.Files.{Disk, pull_state_and_lock_file}
use pulumi_terraform_module.TfSandbox.State.{State, state_outputs}
use pulumi_terraform_module.ModProvider.Meta.{
  state_prop_name, lock_prop_name, version_prop_name, recorded_text, get_state, or_empty, with_meta,
  outputs,
}

find_state :
    (state : String) (lock : Option String) (version : String) (m : PropertyMap)
    → find state_prop_name (with_meta state lock version m) ≡ some (secret (string state))
unfolding with_meta
find_state state lock version m = rw (find-insert, find-insert, find-insert) refl

find_lock :
    (state : String) (lock : Option String) (version : String) (m : PropertyMap)
    → find lock_prop_name (with_meta state lock version m) ≡ some (string (or_empty lock))
unfolding with_meta
find_lock state lock version m = rw (find-insert, find-insert) refl

find_version :
    (state : String) (lock : Option String) (version : String) (m : PropertyMap)
    → find version_prop_name (with_meta state lock version m) ≡ some (string version)
unfolding with_meta
find_version state lock version m = rw find-insert refl

-- `getState` reads back what was recorded, whatever the outputs are.
pub get_state-with_meta :
    (state : String) (lock : Option String) (version : String) (m : PropertyMap)
    → get_state (with_meta state lock version m)
      ≡ ok (record { state = state; lock = some (or_empty lock); version = version })
unfolding get_state
get_state-with_meta state lock version m =
    rw
      (
        find_state state lock version m,
        find_lock state lock version m,
        find_version state lock version m,
        get_state,
        recorded_text,
      )
      refl

-- From the outputs that an operation records, `getState` reads the state and the lock file that were in
-- its directory, and the version of the module. (A missing lock file is read back as an empty one.)
pub get_state-outputs :
    (new_value : Json → PropertyValue) (d : Disk) (tf_state : State) (version state : String)
    (lock : Option String) {m : PropertyMap}
    → pull_state_and_lock_file d ≡ ok (state, lock)
    → outputs new_value d tf_state version ≡ ok m
    → get_state m ≡ ok (record { state = state; lock = some (or_empty lock); version = version })
unfolding outputs
get_state-outputs new_value d tf_state version state lock {m} pulled h =
    let (p, e, h') = >>=-eq-ok (pull_state_and_lock_file d) _ h in
    let (base, _, h'') = >>=-eq-ok (state_outputs new_value tf_state) _ h' in
    let same : p ≡ (state, lock) = ok-injective _ _ (sym e ∙ pulled) in
    rw (← ok-injective _ m h'', same) (get_state-with_meta state lock version base)
