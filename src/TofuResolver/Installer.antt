-- ===== src/TofuResolver/Installer.antt =====
-- pkg/tofuresolver/installer.go: the installation of the tofu binary, which other processes may have
-- begun and not finished. An attempt that is cut short leaves what a failure of its next call to the
-- file system would leave, so `Faults` stands for both.
use pulumi_terraform_module.Prelude.{
  String, ◌≡◌, refl, Bool, true, false, not, ◌&&◌, ◌||◌, List, [], ◌∷◌, if◌then◌else◌,
}
use pulumi_terraform_module.Prelude.Outcome.{Outcome, ok, err}
pub mod Laws

-- The binary in the directory: none, a part of it, or all of it.
pub data Content : Type 0 where
  absent torn whole : Content

-- `finalDir`, `finalPath` and the file with the suffix `.partial`.
pub record Files : Type 0 where
  pub dir : Bool
  pub binary : Content
  pub partial : Bool

-- Which calls fail, and what a call that fails leaves behind.
pub record Faults : Type 0 where
  pub download : Bool
  pub lock : Bool
  pub stat_dir : Bool
  pub stat_partial : Bool
  pub remove_dir : Bool
  pub write_partial : Bool
  pub make_dir : Bool
  pub write_binary : Bool
  pub remove_partial : Bool
  pub remove_dir_leaves : Content
  pub write_partial_leaves : Bool
  pub make_dir_leaves : Bool
  pub write_binary_leaves : Content

-- The calls that write, from the partial file on.
unfoldable pub install_fresh : Faults → Files → Outcome (Unit {0}) × Files
install_fresh f files =
    if f.write_partial
    then (
      err "partial file",
      record {
        dir = files.dir;
        binary = files.binary;
        partial = files.partial || f.write_partial_leaves;
      },
    )
    else if f.make_dir
    then (
      err "directory",
      record { dir = files.dir || f.make_dir_leaves; binary = files.binary; partial = true },
    )
    else if f.write_binary
    then (
      err "error writing binary",
      record { dir = true; binary = f.write_binary_leaves; partial = true },
    )
    else if f.remove_partial
    then (err "partial file", record { dir = true; binary = whole; partial = true })
    else (ok tt, record { dir = true; binary = whole; partial = false })

-- The directory is removed, and everything in it.
unfoldable pub replace_dir : Faults → Files → Outcome (Unit {0}) × Files
unfolding install_fresh
replace_dir f files =
    if f.remove_dir
    then (
      err "remove",
      record { dir = true; binary = f.remove_dir_leaves; partial = files.partial },
    )
    else install_fresh f (record { dir = false; binary = absent; partial = files.partial })

-- `installTool`
unfoldable pub install_tool : Faults → Bool → Files → Outcome (Unit {0}) × Files
unfolding replace_dir install_fresh
install_tool f reinstall files =
    if f.download
    then (err "download", files)
    else if f.lock
    then (err "lock", files)
    else if f.stat_dir
    then (err "stat", files)
    else if files.dir
    then (if files.partial
        then (if f.stat_partial then (err "stat", files) else replace_dir f files)
        else if f.stat_partial
        then (err "stat", files)
        else if not reinstall
        then (ok tt, files)
        else replace_dir f files)
    else install_fresh f files
