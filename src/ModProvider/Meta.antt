-- ===== src/ModProvider/Meta.antt =====
-- pkg/modprovider/module.go: the state, the lock file and the version that the module's resource keeps
-- in its outputs (`outputs`, `getState`), and the choice of `init` (`needsInitUpgrade`).
use pulumi_terraform_module.Prelude.{
  String, Bool, true, false, not, Option, none, some, ◌==◌, if◌then◌else◌,
}
use pulumi_terraform_module.Prelude.Outcome.{Outcome, ok, panic, ◌>>=◌}
use pulumi_terraform_module.Pulumi.Json.{Json}
use pulumi_terraform_module.Pulumi.Value.{PropertyValue, PropertyMap, string, secret, find, insert}
use pulumi_terraform_module.TfSandbox.Files.{Disk, pull_state_and_lock_file}
use pulumi_terraform_module.TfSandbox.State.{State, state_outputs}
pub mod Laws

abbrev pub state_prop_name : String
state_prop_name = "__state"

abbrev pub lock_prop_name : String
lock_prop_name = "__lock"

abbrev pub version_prop_name : String
version_prop_name = "__moduleVersion"

-- `for v.IsSecret() { v = v.SecretValue().Element }`
unfoldable pub strip_secrets : PropertyValue → PropertyValue
strip_secrets (secret v) = strip_secrets v
strip_secrets v = v

-- `StringValue` after the assertion `IsString`
abbrev pub string_value : PropertyValue → Outcome String
string_value (string s) = ok s
string_value _ = panic

-- What `getState` returns. No state is empty, as no lock file is nil.
pub record Recorded : Type 0 where
  pub state : String
  pub lock : Option String
  pub version : String

-- `if lock, ok := props[...]; ok { ... }`
unfoldable pub recorded_text : String → PropertyMap → Outcome (Option String)
unfolding find strip_secrets
recorded_text name props = elim (find name props) [
  | none ↦ ok none
  | some v ↦ do text ← string_value (strip_secrets v); ok (some text)
]

abbrev pub or_empty : Option String → String
or_empty none = ""
or_empty (some s) = s

-- `getState`, from what is found under the three names: without a state, the others are not read.
abbrev pub recorded_from :
    Option PropertyValue → Outcome (Option String) → Outcome (Option String) → Outcome Recorded
recorded_from none locks versions = ok (record { state = ""; lock = none; version = "" })
recorded_from (some v) locks versions = do
  state ← string_value (strip_secrets v)
  lock ← locks
  version ← versions
  ok (record { state = state; lock = lock; version = or_empty version })

unfoldable pub get_state : PropertyMap → Outcome Recorded
unfolding find strip_secrets recorded_text
get_state props =
    recorded_from (find state_prop_name props) (recorded_text lock_prop_name props)
      (recorded_text version_prop_name props)

-- The three assignments at the end of `outputs`; `string(rawLockFile)` is empty for a nil slice.
unfoldable pub with_meta : String → Option String → String → PropertyMap → PropertyMap
unfolding insert
with_meta state lock version m = insert version_prop_name (string version) (
    insert lock_prop_name (string (or_empty lock))
      (insert state_prop_name (secret (string state)) m))

module _ (new_value : Json → PropertyValue) where
  -- `outputs`
  unfoldable pub outputs : Disk → State → String → Outcome PropertyMap
  unfolding pull_state_and_lock_file state_outputs with_meta
  outputs d tf_state version = do
    pulled ← pull_state_and_lock_file d
    m ← state_outputs new_value tf_state
    ok (with_meta pulled.0 pulled.1 version m)

-- `versionOrUnknown`
unfoldable pub version_or_unknown : String → String
version_or_unknown v = if v == "" then "unknown" else v

-- `needsInitUpgrade`; no old outputs is a nil map.
unfoldable pub needs_init_upgrade : Option PropertyMap → String → String → Bool
needs_init_upgrade none previous current = false
needs_init_upgrade (some m) previous current = not (previous == current)
