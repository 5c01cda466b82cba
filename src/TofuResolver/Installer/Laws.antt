-- ===== src/TofuResolver/Installer/Laws.antt =====
-- An installation that was cut short is never taken for a finished one.
use pulumi_terraform_module.Prelude.{
  ◌≡◌, refl, Bool, true, false, not, ◌&&◌, ◌||◌, List, [], ◌∷◌, arith, Bool-cases, inl, inr,
  if◌then◌else◌,
}
use pulumi_terraform_module.Prelude.Outcome.{ok}
use pulumi_terraform_module.TofuResolver.Installer.{
  Content, absent, whole, Files, Faults, install_fresh, replace_dir, install_tool,
}

abbrev pub is_whole : Content → Bool
is_whole whole = true
is_whole _ = false

-- A directory without the partial file holds the whole binary.
abbrev pub is_sound : Files → Bool
is_sound files = if files.dir then (if files.partial then true else is_whole files.binary) else true

abbrev pub is_installed : Files → Bool
is_installed files = files.dir && not files.partial && is_whole files.binary

is_sound-install_fresh :
    (f : Faults) (files : Files) → files.dir ≡ false → is_sound ((install_fresh f files).1) ≡ true
unfolding install_fresh
is_sound-install_fresh f files h = ground arith

is_installed-install_fresh :
    (f : Faults) (files : Files)
    → (install_fresh f files).0 ≡ ok tt
    → is_installed ((install_fresh f files).1) ≡ true
unfolding install_fresh
is_installed-install_fresh f files h = ground arith

is_sound-replace_dir :
    (f : Faults) (files : Files) → files.partial ≡ true → is_sound ((replace_dir f files).1) ≡ true
unfolding replace_dir
is_sound-replace_dir f files h = elim (Bool-cases f.remove_dir) [
  | inl e ↦ rw (e, h) refl
  | inr e ↦ rw e (is_sound-install_fresh f _ refl)
]

is_sound-install_tool :
    (f : Faults) (files : Files)
    → is_sound files ≡ true
    → is_sound ((install_tool f false files).1) ≡ true
unfolding install_tool
is_sound-install_tool f files h =
    ground (arith, is_sound-install_fresh f files, is_sound-replace_dir f files)

is_installed-replace_dir :
    (f : Faults) (files : Files)
    → (replace_dir f files).0 ≡ ok tt
    → is_installed ((replace_dir f files).1) ≡ true
unfolding replace_dir
is_installed-replace_dir f files h = elim (Bool-cases f.remove_dir) [
  | inl e ↦ cc (rw (e, replace_dir) at h)
  | inr e ↦ rw e (is_installed-install_fresh f _ (rw (e, replace_dir) at h))
]

is_installed-install_tool :
    (f : Faults) (files : Files)
    → is_sound files ≡ true
    → (install_tool f false files).0 ≡ ok tt
    → is_installed ((install_tool f false files).1) ≡ true
unfolding install_tool
is_installed-install_tool f files sound h =
    ground (arith, is_installed-install_fresh f files, is_installed-replace_dir f files)

-- What attempts leave that start with nothing.
abbrev pub after_attempts : List Faults → Files → Files
after_attempts [] files = files
after_attempts (f ∷ fs) files = after_attempts fs ((install_tool f false files).1)

abbrev pub nothing : Files
nothing = record { dir = false; binary = absent; partial = false }

is_sound-after_attempts :
    (fs : List Faults) (files : Files)
    → is_sound files ≡ true
    → is_sound (after_attempts fs files) ≡ true
is_sound-after_attempts [] files h = h
is_sound-after_attempts (f ∷ fs) files h =
    is_sound-after_attempts fs _ (is_sound-install_tool f files h)

abbrev pub is_faultless : Faults → Bool
is_faultless f =
    if f.download || f.lock || f.stat_dir || f.stat_partial
    then false
    else not (f.remove_dir || f.write_partial || f.make_dir || f.write_binary || f.remove_partial)

install_fresh-ok :
    (f : Faults) (files : Files) → is_faultless f ≡ true → (install_fresh f files).0 ≡ ok tt
unfolding install_fresh
install_fresh-ok f files h = ground arith

replace_dir-ok :
    (f : Faults) (files : Files) → is_faultless f ≡ true → (replace_dir f files).0 ≡ ok tt
unfolding replace_dir
replace_dir-ok f files h = elim (Bool-cases f.remove_dir) [
  | inl e ↦ ground arith
  | inr e ↦ rw e (install_fresh-ok f _ h)
]

-- An installation without faults succeeds, whatever earlier attempts have left, crashed ones included.
pub install_tool-ok :
    (f : Faults) (reinstall : Bool) (files : Files)
    → is_faultless f ≡ true
    → (install_tool f reinstall files).0 ≡ ok tt
unfolding install_tool
install_tool-ok f reinstall files h =
    ground (arith, install_fresh-ok f files h, replace_dir-ok f files h)

-- After any attempts from nothing on, each of which may fail or crash at any call, an attempt that
-- reports success leaves the whole binary in the directory, and no partial file.
pub is_installed-after_attempts :
    (fs : List Faults) (f : Faults)
    → (install_tool f false (after_attempts fs nothing)).0 ≡ ok tt
    → is_installed ((install_tool f false (after_attempts fs nothing)).1) ≡ true
is_installed-after_attempts fs f h =
    is_installed-install_tool f _ (is_sound-after_attempts fs nothing refl) h
