-- ===== src/Tests/Commands.antt =====
-- Commands and messages at concrete values.
use pulumi_terraform_module.Prelude.{String, ◌<>◌, ◌≡◌, refl, true, false, some, [], ◌∷◌}
use pulumi_terraform_module.Prelude.Outcome.{Outcome, ok, err}
use pulumi_terraform_module.TfSandbox.Runtime.{
  ModuleRuntime, given, reattached, plan_options, show_options, apply_options,
}
use pulumi_terraform_module.TfSandbox.Commands.{
  json_number, Options, Subprocess, plan_with_options, run_plan_no_refresh, run_apply,
}
use pulumi_terraform_module.ModProvider.Logging
use pulumi_terraform_module.ModProvider.Logging.{
  JsonLog, LogCall, logged, status, handle_message, log_pipe, message_of, malformed, Severity,
  Shown, resource_log_status, resource_log, as_severity, is_missing_credentials_error_from_aws,
}

abbrev runtime : ModuleRuntime String
runtime = record {
  working_dir = "/w";
  executable = "/bin/terraform";
  reattach = some "aux";
  description = "Terraform CLI";
}

-- A subprocess that accepts the options that it is expected to get.
abbrev same : Options String → Outcome (Options String)
same options = ok options

abbrev subprocess : Subprocess String (Options String)
subprocess = record {
  plan_json = λ options. ok tt;
  show_plan_file = λ path options. same options;
  show_plan_file_raw = λ path options. ok "Plan: 1 to add";
  apply_json = λ options. err "failed";
  refresh_json = λ options. ok tt;
  show = same;
  init_json = λ options. ok tt;
  destroy_json = λ options. ok tt;
  marshal_indent = λ j. ok "{}";
  join = λ a b. a <> "/" <> b;
}

plan_run :
    run_plan_no_refresh subprocess runtime ≡ ok (given (json_number true) ∷ reattached "aux" ∷ [])
unfolding run_plan_no_refresh plan_with_options plan_options show_options
plan_run = refl

-- The state is read after an apply that failed.
apply_run :
    run_apply subprocess runtime true false
    ≡ ok (given (json_number true) ∷ reattached "aux" ∷ [], err "failed")
unfolding run_apply apply_options show_options
apply_run = refl

-- Terraform's error is a message that stays, and the output after a text that is no message is dropped.
log_pipe_run :
    log_pipe (
      message_of (record {
        type = Logging.diagnostic;
        level = Logging.error;
        message = "";
        diagnostic_text = "no such file";
      })
      ∷ malformed "not JSON"
      ∷ [])
    ≡ (logged Logging.error "no such file" ∷ logged Logging.debug "not JSON" ∷ [], true)
unfolding log_pipe handle_message
log_pipe_run = refl

status_run :
    resource_log_status (λ text part. false) "no credentials" true Logging.warn "deprecated"
    ≡ record { ephemeral = false; severity = Severity.warning; text = "deprecated" } ∷ []
unfolding resource_log_status resource_log as_severity is_missing_credentials_error_from_aws
status_run = refl
