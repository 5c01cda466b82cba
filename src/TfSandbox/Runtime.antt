-- ===== src/TfSandbox/Runtime.antt =====
-- pkg/tfsandbox/runtime.go: the executor of a module, and the options of its commands. The subprocess,
-- the search for terraform and the parsing of versions are parameters.
use Prim.Native.Char.{code}
use pulumi_terraform_module.Prelude.{
  String, ◌<>◌, Bool, true, false, ◌||◌, Option, none, some, List, [], ◌∷◌, ◌++◌, if◌then◌else◌,
  eqb, starts_with,
}
use pulumi_terraform_module.Prelude.Outcome.{Outcome, ok, err, panic, ◌>>=◌}
use pulumi_terraform_module.Prelude.Text.{split_on}
use pulumi_terraform_module.Prelude.Dict.{Dict, insert}
use pulumi_terraform_module.TfSandbox.Workdir.{Machine, file_exists, workdir_get_or_create}
use pulumi_terraform_module.TofuResolver.Installer.{Faults, Files}
use pulumi_terraform_module.TofuResolver.Resolver.{System, resolve}
pub mod Laws

-- `ModuleRuntime`; `Reattach` is how terraform finds the auxiliary provider.
pub record ModuleRuntime (Reattach : Type 0) : Type 0 where
  pub working_dir : String
  pub executable : String
  pub reattach : Option Reattach
  pub description : String

-- An option of a command: one that the caller gives, or the auxiliary provider.
pub data Opt (Given Reattach : Type 0) : Type 0 where
  given : Given → Opt Given Reattach
  reattached : Reattach → Opt Given Reattach

-- What the code asks of others.
pub record Tools : Type 0 where
  pub machine : Machine
  -- what `tofuresolver.Resolve` meets: the system, the calls that fail, and the files in the directory for
  -- a version
  pub system : System
  pub faults : Faults
  pub files : Option String → Files
  -- the search for terraform
  pub find_terraform : Outcome String
  -- `tfexec.NewTerraform` of a directory and a binary
  pub can_execute : String → String → Bool
  -- `semver.Parse`
  pub parse_version : String → Outcome String
  -- the number that a directory is named after when there is no name
  pub random_dir : String

-- `strings.Split(s, "@")`
unfoldable pub split_at_sign : String → List String
unfolding split_on
split_at_sign = split_on b'@'

module _ {Given Reattach : Type 0} where
  -- `if t.reattach != nil { opts = append(opts, tfexec.Reattach(*t.reattach)) }`
  abbrev pub and_reattach : Option Reattach → List (Opt Given Reattach) → List (Opt Given Reattach)
  and_reattach none opts = opts
  and_reattach (some r) opts = opts ++ (reattached r ∷ [])

  abbrev pub given_all : List Given → List (Opt Given Reattach)
  given_all [] = []
  given_all (o ∷ os) = given o ∷ given_all os

  -- `applyOptions`
  unfoldable pub apply_options : ModuleRuntime Reattach → List Given → List (Opt Given Reattach)
  apply_options t opts = and_reattach t.reattach (given_all opts)

  -- `planOptions`
  unfoldable pub plan_options : ModuleRuntime Reattach → List Given → List (Opt Given Reattach)
  plan_options t opts = and_reattach t.reattach (given_all opts)

  -- `showOptions`
  unfoldable pub show_options : ModuleRuntime Reattach → List Given → List (Opt Given Reattach)
  show_options t opts = and_reattach t.reattach (given_all opts)

  -- `initOptions`
  unfoldable pub init_options : ModuleRuntime Reattach → List (Opt Given Reattach)
  init_options t = and_reattach t.reattach []

  -- `destroyOptions`
  unfoldable pub destroy_options : ModuleRuntime Reattach → List (Opt Given Reattach)
  destroy_options t = and_reattach t.reattach []

  -- `refreshCmdOptions`
  unfoldable pub refresh_cmd_options : ModuleRuntime Reattach → List (Opt Given Reattach)
  refresh_cmd_options t = and_reattach t.reattach []

abbrev pub describe : Option String → String
describe none = "Tofu CLI"
describe (some version) = "Tofu CLI " <> version

abbrev pub or_empty : Option (List String) → List String
or_empty none = []
or_empty (some workdir) = workdir

abbrev pub is_tofu : String → Bool
is_tofu executor = starts_with executor "opentofu" || starts_with executor "tofu"

module _ (tools : Tools) where
  -- `if workdir == nil`
  abbrev pub or_random : Option (List String) → List String
  or_random none = tools.random_dir ∷ []
  or_random (some workdir) = workdir

  -- `tofuresolver.Resolve`
  abbrev pub resolve_tofu : Option String → Outcome String
  resolve_tofu version = (resolve tools.system tools.faults version (tools.files version)).0

  -- `resolveOptions`
  abbrev pub requested_version : List String → Outcome (Option String)
  requested_version (name ∷ version ∷ []) =
      tools.parse_version version >>= λ parsed. ok (some parsed)
  requested_version _ = ok none

module _ {Reattach : Type 0} (tools : Tools) where
  -- `tfexec.NewTerraform`, and the runtime
  abbrev pub executor_in :
      Option Reattach → String → String → String → Outcome (ModuleRuntime Reattach)
  executor_in aux description path work_dir =
      if tools.can_execute work_dir path
      then ok (record {
        working_dir = work_dir;
        executable = path;
        reattach = aux;
        description = description;
      })
      else err "error creating a tofu executor"

  -- `NewTofu`
  unfoldable pub new_tofu :
      Option (List String) → Option Reattach → Option String → Outcome (ModuleRuntime Reattach)
  new_tofu workdir aux version = resolve_tofu tools version >>= λ path.
      (workdir_get_or_create tools.machine (or_random tools workdir)).1 >>= λ work_dir.
      executor_in aux (describe version) path work_dir

  -- `NewTerraform`
  unfoldable pub new_terraform :
      Option (List String) → Option Reattach → Outcome (ModuleRuntime Reattach)
  new_terraform workdir aux = tools.find_terraform >>= λ path.
      (workdir_get_or_create tools.machine (or_random tools workdir)).1 >>= λ work_dir.
      executor_in aux "Terraform CLI" path work_dir

  -- `NewRuntimeFromExecutable`; a nil directory has no parts.
  unfoldable pub new_runtime_from_executable :
      Option (List String) → Option Reattach → String → Outcome (ModuleRuntime Reattach)
  new_runtime_from_executable workdir aux executor =
      (workdir_get_or_create tools.machine (or_empty workdir)).1 >>= λ work_dir.
      executor_in aux ("module runtime from executable " <> executor) executor work_dir

  -- `PickModuleRuntime`
  unfoldable pub pick_module_runtime :
      Option (List String) → Option Reattach → String → Outcome (ModuleRuntime Reattach)
  unfolding new_runtime_from_executable split_at_sign new_tofu new_terraform
  pick_module_runtime workdir aux executor =
      if file_exists tools.machine executor
      then new_runtime_from_executable workdir aux executor
      else if is_tofu executor
      then (requested_version tools (split_at_sign executor) >>= λ version.
          new_tofu workdir aux version)
      else new_terraform workdir aux

-- `strings.SplitN(ev, "=", 2)`, at the first `=`
unfoldable pub split_first : String → String × String
split_first String.[] = ("", "")
split_first (String.◌∷◌ c s) =
    let later = split_first s in
    if eqb (code c) b'=' then ("", s) else (String.◌∷◌ c (later.0), later.1)

-- `envMap`
unfoldable pub env_map : List String → Dict String → Dict String
unfolding split_first
env_map [] env = env
env_map (ev ∷ rest) env = env_map rest (insert ((split_first ev).0) ((split_first ev).1) env)
