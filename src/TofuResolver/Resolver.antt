-- ===== src/TofuResolver/Resolver.antt =====
-- pkg/tofuresolver/resolver.go: the tofu binary that is used. The search is a parameter; it sees what
-- earlier installations left in the directory for the version.
use pulumi_terraform_module.Prelude.{
  String, ◌<>◌, Bool, true, false, Option, none, some, if◌then◌else◌,
}
use pulumi_terraform_module.Prelude.Outcome.{Outcome, ok, err, panic, ◌>>=◌}
use pulumi_terraform_module.TofuResolver.Installer.{Faults, Files, install_tool}
pub mod Laws

pub record System : Type 0 where
  -- `workspace.GetPulumiPath("tf-modules")`
  pub pulumi_path : Outcome String
  -- `filepath.Join` and `filepath.Dir`
  pub join : String → String → String
  pub dir : String → String
  pub is_windows : Bool
  -- `AnyVersion.Find` for tofu, on the PATH and in the directory given, which holds these files
  pub find_tofu : String → Files → Outcome String

module _ (env : System) where
  -- `installDir`
  abbrev pub install_dir : Option String → String
  install_dir none = "tofu"
  install_dir (some version) = "tofu-" <> version

  -- `binaryPath`
  abbrev pub binary_path : String → String
  binary_path final_dir =
      if env.is_windows then env.join final_dir "tofu" <> ".exe" else env.join final_dir "tofu"

  abbrev pub installed_at : String → Outcome (Unit {0}) × Files → Outcome (String × Bool) × Files
  installed_at path (ok u, files) = (ok (path, false), files)
  installed_at path (err e, files) = (err e, files)
  installed_at path (panic, files) = (panic, files)

  -- `findExistingTofu`, and the installation if there is none
  unfoldable pub find_or_install :
      Outcome String → Faults → String → Files → Outcome (String × Bool) × Files
  find_or_install (ok found) faults path files = (ok (found, true), files)
  find_or_install _ faults path files = installed_at path (install_tool faults false files)

  unfoldable pub get_tofu_in :
      Outcome String → Faults → Option String → Files → Outcome (String × Bool) × Files
  unfolding find_or_install
  get_tofu_in panic faults version files = (panic, files)
  get_tofu_in (err e) faults version files = (err e, files)
  get_tofu_in (ok root) faults version files =
      find_or_install
        (env.find_tofu (env.dir (binary_path (env.join root (install_dir version)))) files) faults
        (binary_path (env.join root (install_dir version))) files

  -- `tryGetTofuExecutable`: the path and whether it was found, and the files of the installation
  unfoldable pub try_get_tofu_executable :
      Faults → Option String → Files → Outcome (String × Bool) × Files
  unfolding get_tofu_in
  try_get_tofu_executable = get_tofu_in env.pulumi_path

  -- `Resolve`
  unfoldable pub resolve : Faults → Option String → Files → Outcome String × Files
  unfolding try_get_tofu_executable
  resolve faults version files =
      let tried = try_get_tofu_executable faults version files in
      (tried.0 >>= λ found. ok (found.0), tried.1)
