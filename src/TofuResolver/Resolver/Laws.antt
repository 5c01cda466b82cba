-- ===== src/TofuResolver/Resolver/Laws.antt =====
-- What the resolver finds or installs.
use pulumi_terraform_module.Prelude.{
  String, ◌≡◌, refl, ◌⊎◌, inl, inr, Bool, true, false, Option, List,
}
use pulumi_terraform_module.Prelude.Outcome.{Outcome, ok, err, panic}
use pulumi_terraform_module.TofuResolver.Installer.{Faults, Files}
use pulumi_terraform_module.TofuResolver.Installer.Laws.{
  after_attempts, nothing, is_installed, is_installed-after_attempts,
}
use pulumi_terraform_module.TofuResolver.Resolver.{
  System, find_or_install, get_tofu_in, try_get_tofu_executable, installed_at, binary_path,
  install_dir,
}

module _ (env : System) where
  -- The search took the binary, or it is the installed one, and whole.
  abbrev pub IsUsable : Outcome String → String → Files → String → Bool → Type 0
  IsUsable search target files path was_found =
      ((was_found ≡ true) × (search ≡ ok path))
      ⊎ ((was_found ≡ false) × (path ≡ target) × (is_installed files ≡ true))

  installed_at-ok :
      (target path : String) (was_found : Bool) (result : Outcome (Unit {0})) (files : Files)
      → (installed_at env target (result, files)).0 ≡ ok (path, was_found)
      → (was_found ≡ false)
        × (path ≡ target)
        × (result ≡ ok tt)
        × ((installed_at env target (result, files)).1 ≡ files)
  installed_at-ok target path was_found (ok u) files h = (cc h, cc h, refl, refl)
  installed_at-ok target path was_found (err e) files h = cc
  installed_at-ok target path was_found panic files h = cc

  find_or_install-IsUsable :
      (search : Outcome String) (fs : List Faults) (f : Faults) (target path : String)
      (was_found : Bool)
      → (find_or_install env search f target (after_attempts fs nothing)).0 ≡ ok (path, was_found)
      → IsUsable search target
          ((find_or_install env search f target (after_attempts fs nothing)).1)
          path
          was_found
  unfolding find_or_install
  find_or_install-IsUsable (ok found) fs f target path was_found h = inl (cc h, cc h)
  find_or_install-IsUsable (err e) fs f target path was_found h =
      let (a, b, done, kept) = installed_at-ok target path was_found _ _ h in
      inr (a, b, rw kept (is_installed-after_attempts fs f done))
  find_or_install-IsUsable panic fs f target path was_found h =
      let (a, b, done, kept) = installed_at-ok target path was_found _ _ h in
      inr (a, b, rw kept (is_installed-after_attempts fs f done))

  -- The tofu binary that the resolver returns, after any installations that failed or crashed at any call,
  -- is what the search takes, or it is the one in the directory for the version, and that is whole. (What the
  -- search takes in that directory need not be whole.)
  pub try_get_tofu_executable-IsUsable :
      (root : String) (fs : List Faults) (f : Faults) (version : Option String) (path : String)
      (was_found : Bool)
      → env.pulumi_path ≡ ok root
      → (try_get_tofu_executable env f version (after_attempts fs nothing)).0 ≡ ok (path, was_found)
      → IsUsable
          (env.find_tofu
            (env.dir (binary_path env (env.join root (install_dir env version))))
            (after_attempts fs nothing))
          (binary_path env (env.join root (install_dir env version)))
          ((try_get_tofu_executable env f version (after_attempts fs nothing)).1)
          path
          was_found
  unfolding try_get_tofu_executable get_tofu_in
  try_get_tofu_executable-IsUsable root fs f version path was_found home h =
      rw home (find_or_install-IsUsable _ fs f _ path was_found (rw home at h))
