-- ===== src/TfSandbox/Workdir.antt =====
-- pkg/tfsandbox/workdir.go: the working directories. Escapes, hashes, paths and the file system are
-- parameters.
use Prim.Native.String.{len, slice}
use pulumi_terraform_module.Prelude.{
  ℕ, ◌-◌, String, ◌<>◌, Bool, true, false, List, [], ◌∷◌, ◌++◌, ◌==◌, if◌then◌else◌, leb,
}
use pulumi_terraform_module.Prelude.Outcome.{Outcome, ok, err, panic, ◌>>=◌}
pub mod Bounds
pub mod Cleaning

-- What `os.Stat` finds.
pub data Stat : Type 0 where
  not_exist directory file stat_error : Stat

pub record Machine : Type 0 where
  -- `url.PathEscape`, and the hexadecimal SHA-256 of a text
  pub path_escape : String → String
  pub sum_hex : String → String
  -- `strings.TrimSuffix(filepath.Base(_), filepath.Ext(_))`
  pub base_name : String → String
  -- `filepath.Join` and `os.TempDir`
  pub join : List String → String
  pub temp_dir : String
  pub stat : String → Stat
  -- whether `os.RemoveAll` and `os.MkdirAll` succeed
  pub removable : String → Bool
  pub creatable : String → Bool

-- What is changed in the file system.
pub data Change : Type 0 where
  removed made : String → Change

abbrev pub max_path_component_len : ℕ
max_path_component_len = 200

abbrev pub exists : Stat → Bool
exists not_exist = false
exists stat_error = false
exists _ = true

module _ (env : Machine) where
  -- `"-" + hex.EncodeToString(sum[:])[:16]`
  abbrev pub suffix : String → String
  suffix s = "-" <> slice (env.sum_hex s) 0 16

  -- `safePathComponent`
  unfoldable pub safe_path_component : String → String
  safe_path_component s =
      if leb (len (env.path_escape s)) max_path_component_len
      then env.path_escape s
      else slice (env.path_escape s) 0 (max_path_component_len - len (suffix s)) <> suffix s

  -- `fileExists`, in pkg/tfsandbox/runtime.go
  abbrev pub file_exists : String → Bool
  file_exists path = exists (env.stat path)

  -- `WithExecutor`
  unfoldable pub with_executor : String → List String → List String
  with_executor executor workdir =
      if executor == ""
      then workdir
      else (if file_exists executor then env.base_name executor else executor) ∷ workdir

  -- `ModuleInstanceWorkdir`
  unfoldable pub module_instance_workdir : String → String → List String
  unfolding safe_path_component with_executor
  module_instance_workdir executor urn =
      with_executor executor ("by-urn" ∷ safe_path_component urn ∷ [])

  -- `ModuleWorkdir`
  unfoldable pub module_workdir : String → String → List String
  unfolding safe_path_component
  module_workdir source version =
      if version == ""
      then "by-module-source" ∷ safe_path_component source ∷ []
      else "by-module-source-and-version"
        ∷ safe_path_component source
        ∷ safe_path_component version
        ∷ []

  -- `workdirPath`
  unfoldable pub workdir_path : List String → String
  workdir_path workdir = env.join (env.temp_dir ∷ "pulumi-terraform-module" ∷ "workdirs" ∷ workdir)

  -- `dirExists`
  abbrev pub is_directory : Stat → Outcome Bool
  is_directory directory = ok true
  is_directory file = panic
  is_directory not_exist = ok false
  is_directory stat_error = panic

  abbrev pub dir_exists : String → Outcome Bool
  dir_exists path = is_directory (env.stat path)

  -- The loop of `workdirClean`: what it removes, and the paths of its errors
  unfoldable pub clean_loop : List String → List Change × List String
  clean_loop [] = ([], [])
  clean_loop (path ∷ rest) =
      let later = clean_loop rest in
      if env.removable path
      then (removed path ∷ (later.0), later.1)
      else (later.0, path ∷ (later.1))

  -- The files that do not outlive a run.
  abbrev pub transient : String → List String
  transient dir =
      env.join (dir ∷ "pulumi.tf.json" ∷ [])
      ∷ env.join (dir ∷ "terraform.tfstate" ∷ [])
      ∷ env.join (dir ∷ "plan.out" ∷ [])
      ∷ []

  -- `errors.Join`
  abbrev pub joined : List String → Outcome (Unit {0})
  joined [] = ok tt
  joined (path ∷ rest) = err path

  -- `workdirClean`
  unfoldable pub workdir_clean : String → List Change × Outcome (Unit {0})
  unfolding clean_loop
  workdir_clean dir = let cleaned = clean_loop (transient dir) in (cleaned.0, joined (cleaned.1))

  abbrev pub reuse : String → List Change × Outcome (Unit {0}) → List Change × Outcome String
  reuse path (changes, result) = (changes, result >>= λ u. ok path)

  unfoldable pub get_or_create : String → Outcome Bool → List Change × Outcome String
  unfolding workdir_clean
  get_or_create path panic = ([], panic)
  get_or_create path (err e) = ([], err e)
  get_or_create path (ok true) = reuse path (workdir_clean path)
  get_or_create path (ok false) =
      if env.creatable path then (made path ∷ [], ok path) else ([], err "error creating workdir")

  -- `workdirGetOrCreate`
  unfoldable pub workdir_get_or_create : List String → List Change × Outcome String
  unfolding workdir_path get_or_create
  workdir_get_or_create workdir =
      get_or_create (workdir_path workdir) (dir_exists (workdir_path workdir))
