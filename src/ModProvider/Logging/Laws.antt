-- ===== src/ModProvider/Logging/Laws.antt =====
-- What the user is shown stays.
use pulumi_terraform_module.Prelude.{
  String, ◌≡◌, refl, Bool, true, false, ◌&&◌, List, [], ◌∷◌, ◌++◌, Bool-cases, inl, inr,
  if◌then◌else◌,
}
use pulumi_terraform_module.ModProvider.Logging.{
  LogLevel, LogCall, logged, status, Severity, Shown, show, as_severity, is_error, resource_log,
  resource_log_status, resource_call, component_log, component_log_status, component_call,
  is_missing_credentials_error_from_aws, Decoded, log_pipe,
}
use pulumi_terraform_module.ModProvider.Logging

-- A message that disappears is neither a warning nor an error.
abbrev pub is_lasting : Shown → Bool
is_lasting s = if s.ephemeral then is_minor s.severity else true
  where
    is_minor : Severity → Bool
    is_minor Severity.debug = true
    is_minor Severity.info = true
    is_minor _ = false

abbrev pub all_lasting : List Shown → Bool
all_lasting [] = true
all_lasting (s ∷ rest) = is_lasting s && all_lasting rest

abbrev pub shown_by : (LogCall → List Shown) → List LogCall → List Shown
shown_by logger [] = []
shown_by logger (call ∷ calls) = logger call ++ shown_by logger calls

all_lasting-append :
    (xs ys : List Shown)
    → all_lasting xs ≡ true
    → all_lasting ys ≡ true
    → all_lasting (xs ++ ys) ≡ true
all_lasting-append [] ys h k = k
all_lasting-append (x ∷ xs) ys h k = elim (Bool-cases (is_lasting x)) [
  | inl e ↦ rw e (all_lasting-append xs ys (rw e at h) k)
  | inr e ↦ cc (rw e at h)
]

all_lasting-shown_by :
    (logger : LogCall → List Shown)
    → ((call : LogCall) → all_lasting (logger call) ≡ true)
    → (calls : List LogCall) → all_lasting (shown_by logger calls) ≡ true
all_lasting-shown_by logger each [] = refl
all_lasting-shown_by logger each (call ∷ calls) =
    all_lasting-append (logger call) (shown_by logger calls) (each call)
      (all_lasting-shown_by logger each calls)

component_lasting :
    (present : Bool) (call : LogCall) → all_lasting (component_call present call) ≡ true
unfolding component_log component_log_status
component_lasting false (logged level message) = refl
component_lasting false (status level message) = refl
component_lasting true (logged Logging.debug message) = refl
component_lasting true (logged Logging.info message) = refl
component_lasting true (logged Logging.warn message) = refl
component_lasting true (logged Logging.error message) = refl
component_lasting true (logged Logging.unnamed message) = refl
component_lasting true (status Logging.debug message) = refl
component_lasting true (status Logging.info message) = refl
component_lasting true (status Logging.warn message) = refl
component_lasting true (status Logging.error message) = refl
component_lasting true (status Logging.unnamed message) = refl

module _ (contains_text : String → String → Bool) (aws_message : String) where
  not_ephemeral :
      (b : Bool) (severity : Severity) (text : String)
      → all_lasting (if b then show false severity aws_message else show false severity text) ≡ true
  not_ephemeral true severity text = refl
  not_ephemeral false severity text = refl

  resource_log_lasting :
      (host : Bool) (level : LogLevel) (message : String)
      → all_lasting (resource_log contains_text aws_message host level message) ≡ true
  unfolding resource_log
  resource_log_lasting false level message = refl
  resource_log_lasting true level message =
      not_ephemeral
        (is_error (as_severity level)
          && is_missing_credentials_error_from_aws contains_text aws_message message)
        (as_severity level) message

  resource_lasting :
      (host : Bool) (call : LogCall)
      → all_lasting (resource_call contains_text aws_message host call) ≡ true
  unfolding resource_log_status as_severity
  resource_lasting host (logged level message) = resource_log_lasting host level message
  resource_lasting false (status level message) = refl
  resource_lasting true (status Logging.warn message) =
      resource_log_lasting true Logging.warn message
  resource_lasting true (status Logging.error message) =
      resource_log_lasting true Logging.error message
  resource_lasting true (status Logging.debug message) = refl
  resource_lasting true (status Logging.info message) = refl
  resource_lasting true (status Logging.unnamed message) = refl

  -- Whatever a command of terraform writes, neither logger shows a warning or an error of it as a status
  -- message, which disappears.
  pub all_lasting-log_pipe :
      (host present : Bool) (output : List Decoded)
      → (all_lasting (shown_by (resource_call contains_text aws_message host) ((log_pipe output).0))
          ≡ true)
        × (all_lasting (shown_by (component_call present) ((log_pipe output).0)) ≡ true)
  all_lasting-log_pipe host present output = (
    all_lasting-shown_by (resource_call contains_text aws_message host) (resource_lasting host)
        ((log_pipe output).0),
    all_lasting-shown_by (component_call present) (component_lasting present) ((log_pipe output).0),
  )
