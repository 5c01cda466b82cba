-- ===== src/TfSandbox/Runtime/Laws.antt =====
-- The executor that is picked.
use pulumi_terraform_module.Prelude.{
  String, ◌<>◌, ◌≡◌, refl, true, Option, List, Bool-cases, inl, inr, if◌then◌else◌,
}
use pulumi_terraform_module.Prelude.Outcome.{Outcome, ok, ◌>>=◌, >>=-eq-ok, ok-injective}
use pulumi_terraform_module.TfSandbox.Workdir.{file_exists, workdir_get_or_create}
use pulumi_terraform_module.TfSandbox.Runtime.{
  ModuleRuntime, Tools, split_at_sign, executor_in, new_tofu, new_terraform, or_random, or_empty,
  describe, new_runtime_from_executable, requested_version, is_tofu, resolve_tofu,
  pick_module_runtime,
}

-- The binary of the executor: a path itself, the tofu that is resolved for the version after the `@`, or
-- terraform.
unfoldable pub binary_of : Tools → String → Outcome String
binary_of tools executor =
    if file_exists tools.machine executor
    then ok executor
    else if is_tofu executor
    then (requested_version tools (split_at_sign executor) >>= resolve_tofu tools)
    else tools.find_terraform

module _ {Reattach : Type 0} (tools : Tools) where
  -- The runtime has the binary and the auxiliary provider, and the binary could be used in its directory.
  abbrev pub Runs : Option Reattach → Outcome String → ModuleRuntime Reattach → Type 0
  Runs aux binary r =
      (binary ≡ ok r.executable)
      × (r.reattach ≡ aux)
      × (tools.can_execute r.working_dir r.executable ≡ true)

  executor_in-Runs :
      (aux : Option Reattach) (description path work_dir : String) (binary : Outcome String)
      (r : ModuleRuntime Reattach)
      → binary ≡ ok path
      → executor_in tools aux description path work_dir ≡ ok r
      → Runs aux binary r
  executor_in-Runs aux description path work_dir binary r found h =
      elim (Bool-cases (tools.can_execute work_dir path)) [
        | inr e ↦ cc (rw e at h)
        | inl e ↦
            let same : record {
              working_dir = work_dir;
              executable = path;
              reattach = aux;
              description = description;
            }
                ≡ r =
              ok-injective _ _ (rw e at h) in
            rw (← same) (found, refl, e)
      ]

  -- The binary first, then the directory.
  with_binary :
      (aux : Option Reattach) (description : String) (binary dir : Outcome String)
      (r : ModuleRuntime Reattach)
      → (binary >>= λ path. dir >>= λ work_dir. executor_in tools aux description path work_dir)
        ≡ ok r
      → Runs aux binary r
  with_binary aux description binary dir r h =
      let (path, found, more) = >>=-eq-ok binary _ h in
      let (work_dir, made, last) = >>=-eq-ok dir _ more in
      executor_in-Runs aux description path work_dir binary r found last

  -- A runtime that `PickModuleRuntime` returns runs the binary that the executor names: itself, if it is a
  -- path of a file; the tofu that is resolved for the version after the `@`, or for none, if its name
  -- begins like tofu's; otherwise terraform. It knows of the auxiliary provider that was given, and the binary can run in its directory.
  pub pick_module_runtime-Runs :
      (workdir : Option (List String)) (aux : Option Reattach) (executor : String)
      (r : ModuleRuntime Reattach)
      → pick_module_runtime tools workdir aux executor ≡ ok r
      → Runs aux (binary_of tools executor) r
  unfolding pick_module_runtime binary_of new_tofu new_terraform new_runtime_from_executable
  pick_module_runtime-Runs workdir aux executor r h =
      elim (Bool-cases (file_exists tools.machine executor)) [
        | inl e ↦ rw e (
            with_binary aux ("module runtime from executable " <> executor) (ok executor)
              ((workdir_get_or_create tools.machine (or_empty workdir)).1) r (rw e at h))
        | inr e ↦ elim (Bool-cases (is_tofu executor)) [
          | inl t ↦
              let (version, asked, more) =
                >>=-eq-ok (requested_version tools (split_at_sign executor))
                  (new_tofu tools workdir aux) (rw (e, t) at h) in
              rw (e, t, asked)
                (with_binary aux (describe version) (resolve_tofu tools version)
                  ((workdir_get_or_create tools.machine (or_random tools workdir)).1) r more)
          | inr t ↦
              rw (e, t)
                (with_binary aux "Terraform CLI" tools.find_terraform
                  ((workdir_get_or_create tools.machine (or_random tools workdir)).1) r
                  (rw (e, t) at h))
        ]
      ]
