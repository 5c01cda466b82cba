-- ===== src/TfSandbox/Files/Laws.antt =====
-- What is pulled after a push.
use pulumi_terraform_module.Prelude.{String, ◌≡◌, refl, true, Option, none, some}
use pulumi_terraform_module.Prelude.Outcome.{ok, ◌>>=◌}
use pulumi_terraform_module.TfSandbox.Files.{
  Disk, pull_lock_file, pull_state_and_lock_file, push_state_and_lock_file,
}

-- Pushing a state and a lock file to a directory that can be written succeeds, and pulling gives both
-- back. Without a lock file to push, the one that is in the directory is pulled.
pub pull-push_state_and_lock_file :
    (state : String) (lock : Option String) (d : Disk)
    → d.state_writable ≡ true
    → d.lock_writable ≡ true
    → ((push_state_and_lock_file state lock d).1 ≡ ok tt)
      × (pull_state_and_lock_file ((push_state_and_lock_file state lock d).0) ≡ elim lock [
        | none ↦ (do old ← pull_lock_file d; ok (state, old))
        | some text ↦ ok (state, some text)
      ])
unfolding push_state_and_lock_file pull_state_and_lock_file
pull-push_state_and_lock_file state none d w v = rw w (refl, refl)
pull-push_state_and_lock_file state (some text) d w v = rw (w, v) (refl, refl)
