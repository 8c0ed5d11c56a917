-- ===== src/Network/Retries.antt =====
-- The retries of file transfers: internal/network/retry_manager.go. The time of a call is an
-- argument. A context has a deadline and may have been canceled. The delay of an attempt, which
-- the code computes with floats, is a function of the configuration.
pub mod Limits
use t_chat.Base.{
  ℕ, suc, ◌+◌, ◌-◌, Bool, true, false, ◌&&◌, ◌||◌, not, Option, none, some, List, [], ◌∷◌, String,
  string_comparable, ltb, leb, if◌then◌else◌, min, GoMap, lookup, store, remove, modify,
  keep_values,
}

-- The fields of FileTransferConfig that are used. `backoff n` is
-- `RetryDelay * math.Pow(BackoffFactor, n)` as a duration.
pub record RetryConfig : Type 0 where
  pub retry_count : ℕ
  pub retry_delay : ℕ
  pub max_retry_delay : ℕ
  pub timeout : ℕ
  pub backoff : ℕ → ℕ

pub record RetryInfo : Type 0 where
  pub file_id : String
  pub attempts : ℕ
  pub last_attempt : ℕ
  pub next_attempt : ℕ
  pub delay : ℕ
  pub max_attempts : ℕ
  pub operation : String
  pub deadline : ℕ
  pub canceled : Bool

pub record RetryManager : Type 0 where
  pub config : RetryConfig
  pub retries : GoMap String RetryInfo

unfoldable pub new_retry_manager : RetryConfig → RetryManager
new_retry_manager config = record { config = config; retries = [] }

abbrev pub new_retry_info : ℕ → String → String → RetryConfig → RetryInfo
new_retry_info now file_id operation config = record {
  file_id = file_id;
  attempts = 0;
  last_attempt = 0;
  next_attempt = now;
  delay = config.retry_delay;
  max_attempts = config.retry_count;
  operation = operation;
  deadline = now + config.timeout;
  canceled = false;
}

unfoldable pub create_retry_info : ℕ → String → String → RetryManager → RetryManager
create_retry_info now file_id operation rm = record rm {
  retries = store file_id (new_retry_info now file_id operation rm.config) rm.retries;
}

unfoldable pub should_retry : ℕ → String → String → RetryManager → RetryManager × Bool
unfolding create_retry_info
should_retry now file_id operation rm = elim (lookup file_id rm.retries) [
  | none ↦ (create_retry_info now file_id operation rm, true)
  | some info ↦
      if leb info.max_attempts info.attempts
      then (rm, false)
      else if ltb now info.next_attempt
      then (rm, false)
      else (rm, true)
]

-- The delay after a number of earlier attempts.
abbrev pub capped_delay : RetryConfig → ℕ → ℕ
capped_delay config n =
    if ltb config.max_retry_delay (config.backoff n)
    then config.max_retry_delay
    else config.backoff n

abbrev pub recorded : ℕ → RetryConfig → RetryInfo → RetryInfo
recorded now config info = record info {
  attempts = suc info.attempts;
  last_attempt = now;
  delay = capped_delay config info.attempts;
  next_attempt = now + capped_delay config info.attempts;
}

unfoldable pub record_retry : ℕ → String → RetryManager → RetryManager
record_retry now file_id rm = elim (lookup file_id rm.retries) [
  | none ↦ rm
  | some info ↦ record rm { retries = store file_id (recorded now rm.config info) rm.retries }
]

unfoldable pub get_retry_info : String → RetryManager → Option RetryInfo
get_retry_info file_id rm = lookup file_id rm.retries

unfoldable pub remove_retry : String → RetryManager → RetryManager
remove_retry file_id rm = record rm { retries = remove file_id rm.retries }

unfoldable pub cancel_retry : String → RetryManager → RetryManager
cancel_retry file_id rm = record rm {
  retries = modify file_id (λ info. record info { canceled = true }) rm.retries;
}

abbrev pub is_done : ℕ → RetryInfo → Bool
is_done now info = info.canceled || leb info.deadline now

-- One hour, in nanoseconds.
abbrev pub is_stale : ℕ → RetryInfo → Bool
is_stale now info =
    is_done now info
    || (leb info.max_attempts info.attempts && ltb 3_600_000_000_000 (now - info.last_attempt))

unfoldable pub cleanup_retries : ℕ → RetryManager → RetryManager
cleanup_retries now rm = record rm {
  retries = keep_values (λ info. not (is_stale now info)) rm.retries;
}
