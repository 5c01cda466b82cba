-- ===== src/TfSandbox/Workdir/Cleaning.antt =====
-- What a working directory that is handed out has been through.
use pulumi_terraform_module.Prelude.{
  String, ◌≡◌, refl, ap, sym, ◌∙◌, ◌⊎◌, inl, inr, List, [], ◌∷◌, map, Bool-cases,
}
use pulumi_terraform_module.Prelude.Outcome.{ok}
use pulumi_terraform_module.TfSandbox.Workdir.{
  Machine, Change, removed, made, clean_loop, transient, joined, reuse, workdir_clean, Stat,
  directory, file, not_exist, stat_error, is_directory, get_or_create, workdir_get_or_create,
  workdir_path,
}

module _ (env : Machine) where
  -- Without an error, every path was removed.
  clean_loop-removed :
      (paths : List String)
      → (clean_loop env paths).1 ≡ []
      → (clean_loop env paths).0 ≡ map removed paths
  unfolding clean_loop
  clean_loop-removed [] h = refl
  clean_loop-removed (path ∷ rest) h = elim (Bool-cases (env.removable path)) [
    | inl e ↦ rw e (ap (λ cs. removed path ∷ cs) (clean_loop-removed rest (rw e at h)))
    | inr e ↦ cc (rw e at h)
  ]

  joined-ok : (paths : List String) → joined env paths ≡ ok tt → paths ≡ []
  joined-ok [] h = refl
  joined-ok (path ∷ rest) h = cc

  Ready : String → Stat → List Change → Type 0
  Ready path found changes =
      ((found ≡ directory) × (changes ≡ map removed (transient env path)))
      ⊎ ((found ≡ not_exist) × (changes ≡ made path ∷ []))

  reuse-ok :
      (path given : String) (changes : List Change) (failed : List String) (cleaned : List Change)
      → reuse env given (cleaned, joined env failed) ≡ (changes, ok path)
      → (given ≡ path) × (cleaned ≡ changes) × (failed ≡ [])
  reuse-ok path given changes [] cleaned h = (cc, cc, refl)
  reuse-ok path given changes (one ∷ more) cleaned h = cc

  get_or_create-ok :
      (given path : String) (found : Stat) (changes : List Change)
      → get_or_create env given (is_directory env found) ≡ (changes, ok path)
      → (given ≡ path) × Ready given found changes
  unfolding get_or_create workdir_clean Ready
  get_or_create-ok given path file changes h = cc
  get_or_create-ok given path stat_error changes h = cc
  get_or_create-ok given path directory changes h =
      let (same, cleaned, none_failed) = reuse-ok path given changes _ _ h in
      (same, inl (refl, sym cleaned ∙ clean_loop-removed (transient env given) none_failed))
  get_or_create-ok given path not_exist changes h = elim (Bool-cases (env.creatable given)) [
    | inl e ↦ (cc (rw e at h), inr (refl, cc (rw e at h)))
    | inr e ↦ cc (rw e at h)
  ]

  -- A working directory that `workdirGetOrCreate` returns is the one at the path of the project. Either it
  -- was not there and was created, or it was a directory and the files `pulumi.tf.json`,
  -- `terraform.tfstate` and `plan.out` in it were removed, in this order. Nothing else was changed.
  pub workdir_get_or_create-ok :
      (workdir : List String) (path : String) (changes : List Change)
      → workdir_get_or_create env workdir ≡ (changes, ok path)
      → (env.join (env.temp_dir ∷ "pulumi-terraform-module" ∷ "workdirs" ∷ workdir) ≡ path)
        × (((env.stat path ≡ directory)
              × (changes
                  ≡ removed (env.join (path ∷ "pulumi.tf.json" ∷ []))
                    ∷ removed (env.join (path ∷ "terraform.tfstate" ∷ []))
                    ∷ removed (env.join (path ∷ "plan.out" ∷ []))
                    ∷ []))
            ⊎ ((env.stat path ≡ not_exist) × (changes ≡ made path ∷ [])))
  unfolding workdir_get_or_create workdir_path Ready
  workdir_get_or_create-ok workdir path changes h =
      let (same, ready) =
        get_or_create-ok (workdir_path env workdir) path (env.stat (workdir_path env workdir))
          changes h in
      (same, rw (← same) ready)
