-- ===== src/Network/Errors.antt =====
-- The classes of errors and their handler: internal/network/error_handler.go. A message is the list
-- of its bytes, the time of a call is an argument, and the float arithmetic on delays is a record of
-- functions. Logging is left out.
pub mod Keywords
pub mod Handling
pub mod History
pub mod Retrying
use t_chat.Base.{
  ℕ, zero, suc, ◌+◌, ◌-◌, ◌*◌, ◌≡◌, Bool, true, false, not, ◌&&◌, ◌||◌, Option, none, some, List,
  [], ◌∷◌, ◌++◌, String, Bytes, string_comparable, ◌==◌, ltb, leb, if◌then◌else◌, GoMap, lookup,
  store, length, drop, map, modify,
}
use t_chat.Network.Errors.Keywords.{contains, codes}

abbrev pub ErrorCategory : Type 0
ErrorCategory = String

abbrev pub ErrorSeverity : Type 0
ErrorSeverity = ℕ

abbrev pub ErrorAction : Type 0
ErrorAction = String

abbrev pub network : ErrorCategory
network = "network"

abbrev pub timeout : ErrorCategory
timeout = "timeout"

abbrev pub protocol : ErrorCategory
protocol = "protocol"

abbrev pub validation : ErrorCategory
validation = "validation"

abbrev pub permission : ErrorCategory
permission = "permission"

abbrev pub resource : ErrorCategory
resource = "resource"

abbrev pub system : ErrorCategory
system = "system"

abbrev pub unknown : ErrorCategory
unknown = "unknown"

abbrev pub severity_low : ErrorSeverity
severity_low = 0

abbrev pub severity_medium : ErrorSeverity
severity_medium = 1

abbrev pub severity_high : ErrorSeverity
severity_high = 2

abbrev pub severity_critical : ErrorSeverity
severity_critical = 3

abbrev pub action_retry : ErrorAction
action_retry = "retry"

abbrev pub action_fallback : ErrorAction
action_fallback = "fallback"

abbrev pub action_ignore : ErrorAction
action_ignore = "ignore"

abbrev pub action_escalate : ErrorAction
action_escalate = "escalate"

-- The texts among the values of the metadata: no other value equals a text.
abbrev pub Metadata : Type 0
Metadata = GoMap String String

pub record DetailedError : Type 0 where
  pub code : ℕ
  pub message : Bytes
  pub category : ErrorCategory
  pub severity : ErrorSeverity
  pub cause : Option Bytes
  pub context : String
  pub timestamp : ℕ
  pub retry_count : ℕ
  pub max_retries : ℕ
  pub retry_after : ℕ
  pub action : ErrorAction
  pub metadata : Metadata

unfoldable pub is_retryable : DetailedError → Bool
is_retryable e = (e.action == action_retry) && ltb e.retry_count e.max_retries

unfoldable pub should_escalate : DetailedError → Bool
should_escalate e = leb severity_high e.severity || e.action == action_escalate

-- `backoff n` is the product of BaseDelay, n and BackoffFactor as a duration.
pub record RetryPolicy : Type 0 where
  pub max_retries : ℕ
  pub base_delay : ℕ
  pub max_delay : ℕ
  pub backoff : ℕ → ℕ
  pub jitter : Bool

-- `jittered now delay` is the delay with the shift that depends on the time of the call.
unfoldable pub calculate_delay : (ℕ → ℕ → ℕ) → ℕ → ℕ → RetryPolicy → ℕ
calculate_delay jittered now attempt rp =
    let delay : ℕ =
      if ltb rp.max_delay (rp.backoff attempt) then rp.max_delay else rp.backoff attempt in
    if rp.jitter then jittered now delay else delay

pub record ErrorStats : Type 0 where
  pub total_count : ℕ
  pub recent_count : ℕ
  pub last_occurred : ℕ
  pub first_occurred : ℕ
  pub retry_count : ℕ
  pub success_count : ℕ

pub record ErrorHandler : Type 0 where
  pub retry_policy : RetryPolicy
  pub error_stats : GoMap ErrorCategory ErrorStats
  pub error_history : List DetailedError
  pub max_history : ℕ

unfoldable pub new_error_handler : RetryPolicy → ErrorHandler
new_error_handler default_policy = record {
  retry_policy = default_policy;
  error_stats = [];
  error_history = [];
  max_history = 1000;
}

-- The numbers of ErrCodeConnectionFailed, ErrCodeTimeout, ErrCodeInvalidMessage and
-- ErrCodeServiceNotFound.
abbrev pub connection_failed : ℕ
connection_failed = 1001

abbrev pub timed_out : ℕ
timed_out = 1002

abbrev pub invalid_message : ℕ
invalid_message = 1003

abbrev pub service_not_found : ℕ
service_not_found = 1005

unfoldable pub categorize_error : Bytes → ErrorCategory × ℕ
categorize_error text =
    if contains text (
      codes "EOF"
      ∷ codes "io.ReadFull Initial: EOF"
      ∷ codes "connection reset"
      ∷ codes "broken pipe"
      ∷ codes "forcibly closed"
      ∷ [])
    then (network, connection_failed)
    else if contains text
        (codes "connection" ∷ codes "network" ∷ codes "dial" ∷ codes "connect" ∷ [])
    then (network, connection_failed)
    else if contains text
        (codes "timeout" ∷ codes "deadline" ∷ codes "context deadline exceeded" ∷ [])
    then (timeout, timed_out)
    else if contains text
        (codes "protocol" ∷ codes "invalid message" ∷ codes "decode" ∷ codes "encode" ∷ [])
    then (protocol, invalid_message)
    else if contains text (codes "validation" ∷ codes "invalid" ∷ codes "malformed" ∷ [])
    then (validation, invalid_message)
    else if contains text (codes "permission" ∷ codes "unauthorized" ∷ codes "forbidden" ∷ [])
    then (permission, service_not_found)
    else if contains text (codes "resource" ∷ codes "memory" ∷ codes "disk" ∷ codes "file" ∷ [])
    then (resource, service_not_found)
    else (unknown, service_not_found)

unfoldable pub determine_severity : ErrorCategory → ErrorSeverity
determine_severity category =
    if category == network
    then severity_medium
    else if category == timeout
    then severity_low
    else if category == protocol
    then severity_high
    else if category == validation
    then severity_medium
    else if category == permission
    then severity_high
    else if category == resource
    then severity_critical
    else if category == system
    then severity_critical
    else severity_medium

unfoldable pub determine_action : ErrorCategory → ErrorSeverity → ErrorAction
determine_action category severity =
    if leb severity_critical severity
    then action_escalate
    else if category == network || category == timeout
    then action_retry
    else if category == protocol
    then action_fallback
    else if leb severity severity_low
    then action_ignore
    else action_retry
