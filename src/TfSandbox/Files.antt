-- ===== src/TfSandbox/Files.antt =====
-- pkg/tfsandbox/state.go: the state file and the lock file of the working directory. An error keeps the
-- text that the code puts before the cause.
use pulumi_terraform_module.Prelude.{String, Bool, Option, none, some, if◌then◌else◌}
use pulumi_terraform_module.Prelude.Outcome.{Outcome, ok, err, ◌>>=◌}
pub mod Laws

-- What `os.ReadFile` finds: nothing, a content, or an error other than `os.IsNotExist`.
pub data File : Type 0 where
  missing : File
  holds : String → File
  broken : File

-- The two files, and whether `os.WriteFile` can write each.
pub record Disk : Type 0 where
  pub state : File
  pub lock : File
  pub state_writable : Bool
  pub lock_writable : Bool

-- `pullState`
unfoldable pub pull_state : Disk → Outcome String
pull_state d = elim d.state [
  | missing ↦ err "default tfstate file not found"
  | broken ↦ err "failed to read the default tfstate file"
  | holds text ↦ ok text
]

-- `pullLockFile`; no content is a nil slice.
unfoldable pub pull_lock_file : Disk → Outcome (Option String)
pull_lock_file d = elim d.lock [
  | missing ↦ ok none
  | broken ↦ err "failed to read the default lock file"
  | holds text ↦ ok (some text)
]

-- `PullStateAndLockFile`
unfoldable pub pull_state_and_lock_file : Disk → Outcome (String × Option String)
unfolding pull_state pull_lock_file
pull_state_and_lock_file d = do state ← pull_state d; lock ← pull_lock_file d; ok (state, lock)

-- `pushState`: the directory afterwards, and the result
unfoldable pub push_state : String → Disk → Disk × Outcome (Unit {0})
push_state text d =
    if d.state_writable
    then (
      record {
        state = holds text;
        lock = d.lock;
        state_writable = d.state_writable;
        lock_writable = d.lock_writable;
      },
      ok tt,
    )
    else (d, err "failed to write the default tfstate file")

-- `pushLockFile`
unfoldable pub push_lock_file : Option String → Disk → Disk × Outcome (Unit {0})
push_lock_file none d = (d, ok tt)
push_lock_file (some text) d =
    if d.lock_writable
    then (
      record {
        state = d.state;
        lock = holds text;
        state_writable = d.state_writable;
        lock_writable = d.lock_writable;
      },
      ok tt,
    )
    else (d, err "failed to write the default lock file")

-- The second write follows the first unless that failed.
abbrev and_push_lock_file : Option String → Disk × Outcome (Unit {0}) → Disk × Outcome (Unit {0})
and_push_lock_file lock (d, ok u) = push_lock_file lock d
and_push_lock_file lock (d, failed) = (d, failed)

-- `PushStateAndLockFile`
unfoldable pub push_state_and_lock_file : String → Option String → Disk → Disk × Outcome (Unit {0})
unfolding push_state push_lock_file
push_state_and_lock_file state lock d = and_push_lock_file lock (push_state state d)
