-- ===== src/TfSandbox/Commands.antt =====
-- pkg/tfsandbox/plan.go, apply.go, refresh.go, show.go, init.go and destroy.go: the options of the commands,
-- and what becomes of their answers. The subprocess is a parameter; `J` is the type of decoded documents.
use pulumi_terraform_module.Prelude.{String, Bool, true, false, List, [], ◌∷◌, ◌++◌, if◌then◌else◌}
use pulumi_terraform_module.Prelude.Outcome.{Outcome, ok, err, panic, ◌>>=◌}
use pulumi_terraform_module.TfSandbox.Runtime.{
  ModuleRuntime, Opt, given, plan_options, apply_options, show_options, init_options,
  destroy_options, refresh_cmd_options,
}

-- An option that the code gives.
pub data Flag : Type 0 where
  out : String → Flag
  refresh refresh_only json_number upgrade : Bool → Flag

abbrev pub Options : Type 0 → Type 0
Options R = List (Opt Flag R)

-- The answers of the subprocess.
pub record Subprocess (R J : Type 0) : Type 0 where
  pub plan_json : Options R → Outcome (Unit {0})
  pub show_plan_file : String → Options R → Outcome J
  pub show_plan_file_raw : String → Options R → Outcome String
  pub apply_json : Options R → Outcome (Unit {0})
  pub refresh_json : Options R → Outcome (Unit {0})
  pub show : Options R → Outcome J
  pub init_json : Options R → Outcome (Unit {0})
  pub destroy_json : Options R → Outcome (Unit {0})
  -- `json.MarshalIndent`, and `path.Join`
  pub marshal_indent : J → Outcome String
  pub join : String → String → String

module _ {R J : Type 0} (tf : Subprocess R J) (t : ModuleRuntime R) where
  abbrev pub json_options : Options R
  json_options = show_options t (json_number true ∷ [])

  -- `errors.Join(planErr, humanPlanErr)`: the plan, if neither failed
  abbrev pub both_shown : Outcome J → Outcome String → Outcome J
  both_shown (ok plan) (ok human) = ok plan
  both_shown (ok plan) (err e) = err e
  both_shown (ok plan) panic = panic
  both_shown (err e) panic = panic
  both_shown (err e) _ = err e
  both_shown panic _ = panic

  -- `planWithOptions`
  unfoldable pub plan_with_options : Options R → Outcome J
  plan_with_options options =
      let plan_file = tf.join t.working_dir "plan.out" in
      tf.plan_json (plan_options t (out plan_file ∷ []) ++ options) >>= λ u.
      both_shown (tf.show_plan_file plan_file json_options)
        (tf.show_plan_file_raw plan_file json_options)
      >>= λ plan. tf.marshal_indent plan >>= λ text. ok plan

  -- `plan`
  unfoldable pub run_plan : Outcome J
  unfolding plan_with_options plan_options
  run_plan = plan_with_options (plan_options t [])

  -- `planRefreshOnly`
  unfoldable pub run_plan_refresh_only : Outcome J
  unfolding plan_with_options plan_options
  run_plan_refresh_only = plan_with_options (plan_options t (refresh_only true ∷ []))

  -- `planNoRefresh`
  unfoldable pub run_plan_no_refresh : Outcome J
  unfolding plan_with_options plan_options
  run_plan_no_refresh = plan_with_options (plan_options t (refresh false ∷ []))

  -- `apply`: the state that is there afterwards, and the result of the command; an error to read the state
  -- comes first.
  abbrev pub refresh_flags : Bool → Bool → List Flag
  refresh_flags no_refresh only =
      (if no_refresh then refresh false ∷ [] else [])
      ++ (if only then refresh_only true ∷ [] else [])

  unfoldable pub run_apply : Bool → Bool → Outcome (J × Outcome (Unit {0}))
  unfolding apply_options show_options
  run_apply no_refresh only =
      let applied = tf.apply_json (apply_options t (refresh_flags no_refresh only)) in
      tf.show json_options >>= λ state. ok (state, applied)

  -- `refresh`, which does not ask for exact numbers
  unfoldable pub run_refresh : Outcome J
  unfolding refresh_cmd_options show_options
  run_refresh = tf.refresh_json (refresh_cmd_options t) >>= λ u. tf.show (show_options t [])

  -- `Init` and `InitUpgrade`
  unfoldable pub run_init : Bool → Outcome (Unit {0})
  unfolding init_options
  run_init false = tf.init_json (init_options t)
  run_init true = tf.init_json (init_options t ++ (given (upgrade true) ∷ []))

  -- `Destroy`
  unfoldable pub run_destroy : Outcome (Unit {0})
  unfolding destroy_options
  run_destroy = tf.destroy_json (destroy_options t)
