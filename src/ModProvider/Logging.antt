-- ===== src/ModProvider/Logging.antt =====
-- pkg/tfsandbox/log.go and pkg/modprovider/logger.go: what of terraform's messages the user is shown. The
-- texts of diagnostics and the search in a text are parameters, and so is what the decoder reads.
use pulumi_terraform_module.Prelude.{
  String, Bool, true, false, ◌&&◌, ◌||◌, Option, none, some, List, [], ◌∷◌, ◌++◌, if◌then◌else◌,
}
pub mod Laws

-- `LogLevel`; any other text is no level that the code knows.
pub data LogLevel : Type 0 where
  debug info warn error unnamed : LogLevel

-- The type of a message, as far as the code tells it apart.
pub data MessageType : Type 0 where
  apply_start apply_complete refresh_start refresh_complete provision_start provision_complete
        resource_drift diagnostic change_summary other :
      MessageType

-- `JSONLog`
pub record JsonLog : Type 0 where
  pub type : MessageType
  pub level : LogLevel
  pub message : String
  -- `DiagnosticPlainFromJSON` of the diagnostic
  pub diagnostic_text : String

-- A call of a `Logger`: `Log` or `LogStatus`
pub data LogCall : Type 0 where
  logged status : LogLevel → String → LogCall

-- `handleMessage`
unfoldable pub handle_message : JsonLog → List LogCall
handle_message log = elim log.type [
  | apply_start ↦ status log.level log.message ∷ []
  | apply_complete ↦ status log.level log.message ∷ []
  | refresh_start ↦ status log.level log.message ∷ []
  | refresh_complete ↦ status log.level log.message ∷ []
  | provision_start ↦ status log.level log.message ∷ []
  | provision_complete ↦ status log.level log.message ∷ []
  | resource_drift ↦ status log.level log.message ∷ []
  | diagnostic ↦ logged log.level log.diagnostic_text ∷ []
  | change_summary ↦ status info log.message ∷ []
  | other ↦ []
]

-- What a round of the loop in `newJSONLogPipe` meets: a message, the end, a text that is no message, or a
-- context that was cancelled.
pub data Decoded : Type 0 where
  message_of : JsonLog → Decoded
  at_end cancelled : Decoded
  malformed : String → Decoded

-- The loop of `newJSONLogPipe`: what it logs, and whether it drains the rest of the output
unfoldable pub log_pipe : List Decoded → List LogCall × Bool
unfolding handle_message
log_pipe [] = ([], false)
log_pipe (message_of log ∷ rest) =
    let later = log_pipe rest in (handle_message log ++ (later.0), later.1)
log_pipe (at_end ∷ rest) = ([], false)
log_pipe (cancelled ∷ rest) = ([], false)
log_pipe (malformed e ∷ rest) = (logged debug e ∷ [], true)

-- `diag.Severity`, and a message to the user: whether it is a status message that disappears, its severity
-- and its text
pub data Severity : Type 0 where
  debug info warning error : Severity

pub record Shown : Type 0 where
  pub ephemeral : Bool
  pub severity : Severity
  pub text : String

abbrev pub show : Bool → Severity → String → List Shown
show ephemeral severity text =
    record { ephemeral = ephemeral; severity = severity; text = text } ∷ []

-- `asSeverity`
unfoldable pub as_severity : LogLevel → Severity
as_severity debug = Severity.debug
as_severity info = Severity.info
as_severity warn = Severity.warning
as_severity error = Severity.error
as_severity unnamed = Severity.info

abbrev pub is_error : Severity → Bool
is_error Severity.error = true
is_error _ = false

-- `strings.Contains`
module _ (contains_text : String → String → Bool) (aws_message : String) where
  -- `isMissingCredentialsErrorFromAWS`
  unfoldable pub is_missing_credentials_error_from_aws : String → Bool
  is_missing_credentials_error_from_aws message =
      (contains_text message "No valid credential sources found"
        || contains_text message "Invalid provider configuration")
      && contains_text message "hashicorp/aws"

  -- `resourceLogger.Log`, with a host or without one
  unfoldable pub resource_log : Bool → LogLevel → String → List Shown
  unfolding as_severity is_missing_credentials_error_from_aws
  resource_log false level message = []
  resource_log true level message =
      if is_error (as_severity level) && is_missing_credentials_error_from_aws message
      then show false (as_severity level) aws_message
      else show false (as_severity level) message

  -- `resourceLogger.LogStatus`
  unfoldable pub resource_log_status : Bool → LogLevel → String → List Shown
  unfolding resource_log
  resource_log_status false level message = []
  resource_log_status true warn message = resource_log true warn message
  resource_log_status true error message = resource_log true error message
  resource_log_status true level message = show true (as_severity level) message

  abbrev pub resource_call : Bool → LogCall → List Shown
  resource_call host (logged level message) = resource_log host level message
  resource_call host (status level message) = resource_log_status host level message

-- `componentLogger.Log`, with a log or without one
unfoldable pub component_log : Bool → LogLevel → String → List Shown
component_log false level message = []
component_log true debug message = show false Severity.debug message
component_log true info message = show false Severity.info message
component_log true warn message = show false Severity.warning message
component_log true error message = show false Severity.error message
component_log true unnamed message = []

-- `componentLogger.LogStatus`
unfoldable pub component_log_status : Bool → LogLevel → String → List Shown
component_log_status false level message = []
component_log_status true debug message = show true Severity.debug message
component_log_status true info message = show true Severity.info message
component_log_status true warn message = show false Severity.warning message
component_log_status true error message = show false Severity.error message
component_log_status true unnamed message = []

abbrev pub component_call : Bool → LogCall → List Shown
component_call present (logged level message) = component_log present level message
component_call present (status level message) = component_log_status present level message
