-- ===== src/Network/Errors/Handling.antt =====
-- What the handler does with an error, its records of the errors, and the retries of an operation:
-- internal/network/error_handler.go.
use t_chat.Base.{
  ℕ, zero, suc, ◌-◌, ◌*◌, Bool, not, ◌||◌, Option, none, some, List, [], ◌∷◌, ◌++◌, String, Bytes,
  string_comparable, ◌==◌, ltb, leb, eqb, if◌then◌else◌, GoMap, lookup, store, length, drop, modify,
}
use t_chat.Network.Errors.{
  ErrorCategory, Metadata, DetailedError, RetryPolicy, ErrorStats, ErrorHandler, network,
  categorize_error, determine_severity, determine_action, is_retryable, calculate_delay,
}

-- An error value: a detailed one, or another, of which the text is used.
pub data Failure : Type 0 where
  plain : Bytes → Failure
  detailed : DetailedError → Failure

unfoldable pub create_detailed_error : ℕ → Bytes → String → Metadata → ErrorHandler → DetailedError
create_detailed_error now text context metadata eh =
    let (category, code) = categorize_error text in
    let severity = determine_severity category in
    record {
      code = code;
      message = text;
      category = category;
      severity = severity;
      cause = some text;
      context = context;
      timestamp = now;
      retry_count = 0;
      max_retries = eh.retry_policy.max_retries;
      retry_after = eh.retry_policy.base_delay;
      action = determine_action category severity;
      metadata = metadata;
    }

abbrev pub no_stats : ℕ → ErrorStats
no_stats now = record {
  total_count = 0;
  recent_count = 0;
  last_occurred = 0;
  first_occurred = now;
  retry_count = 0;
  success_count = 0;
}

abbrev pub counted : DetailedError → ErrorStats → ErrorStats
counted err stats = record stats {
  total_count = suc stats.total_count;
  recent_count = suc stats.recent_count;
  last_occurred = err.timestamp;
  retry_count = if ltb 0 err.retry_count then suc stats.retry_count else stats.retry_count;
}

abbrev pub stats_of : ErrorCategory → ℕ → GoMap ErrorCategory ErrorStats → ErrorStats
stats_of category now stats = elim (lookup category stats) [ none ↦ no_stats now | some s ↦ s ]

unfoldable pub update_stats :
    DetailedError → GoMap ErrorCategory ErrorStats → GoMap ErrorCategory ErrorStats
update_stats err stats =
    store err.category (counted err (stats_of err.category err.timestamp stats)) stats

-- The last entries of a list, as many as the number says.
abbrev pub last_entries : {A : Type 0} → ℕ → List A → List A
last_entries n xs = drop (length xs - n) xs

unfoldable pub add_to_history : DetailedError → ErrorHandler → List DetailedError
add_to_history err eh =
    let history = eh.error_history ++ (err ∷ []) in
    if ltb eh.max_history (length history) then last_entries eh.max_history history else history

unfoldable pub process_error : DetailedError → ErrorHandler → ErrorHandler
process_error err eh = record eh {
  error_stats = update_stats err eh.error_stats;
  error_history = add_to_history err eh;
}

-- The error that HandleError processes and returns.
unfoldable pub detail : ℕ → Failure → String → Metadata → ErrorHandler → DetailedError
detail now (plain text) context metadata eh = create_detailed_error now text context metadata eh
detail now (detailed err) context metadata eh = err

unfoldable pub handle_error :
    ℕ → Option Failure → String → Metadata → ErrorHandler → ErrorHandler × Option DetailedError
handle_error now none context metadata eh = (eh, none)
handle_error now (some err) context metadata eh =
    let e = detail now err context metadata eh in (process_error e eh, some e)

-- How RetryWithPolicy ends.
pub data RetryAnswer : Type 0 where
  succeeded : RetryAnswer
  canceled : RetryAnswer
  gave_up : Option DetailedError → RetryAnswer

pub record RetryRun : Type 0 where
  pub handler : ErrorHandler
  pub answer : RetryAnswer
  pub calls : ℕ

abbrev pub succeed : ErrorStats → ErrorStats
succeed stats = record stats { success_count = suc stats.success_count }

abbrev pub credit : Option DetailedError → ErrorHandler → ErrorHandler
credit none eh = eh
credit (some err) eh = record eh { error_stats = modify err.category succeed eh.error_stats }

-- What the operation returns at its calls, the time of each, whether the handler has been stopped
-- before a delay after an attempt is over, and the shift of a delay.
pub record Surroundings : Type 0 where
  pub operation : ℕ → Option Failure
  pub clock : ℕ → ℕ
  pub stopped : ℕ → ℕ → Bool
  pub jittered : ℕ → ℕ → ℕ

abbrev pub delay_after : Surroundings → ℕ → DetailedError → ErrorHandler → ℕ
delay_after around attempt err eh =
    let delay =
      calculate_delay around.jittered (around.clock attempt) (suc attempt) eh.retry_policy in
    if err.category == network then delay * 2 else delay

-- The loop: the number of rounds that are left, the attempt, and the last error.
unfoldable pub retry_from :
    Surroundings → String → Metadata → ℕ → ℕ → ℕ → Option DetailedError → ErrorHandler → RetryRun
retry_from around context metadata max zero attempt last eh = record {
  handler = eh;
  answer = gave_up last;
  calls = attempt;
}
retry_from around context metadata max (suc n) attempt last eh = elim (around.operation attempt) [
  | none ↦ record { handler = credit last eh; answer = succeeded; calls = suc attempt }
  | some failure ↦
      let err = detail (around.clock attempt) failure context metadata eh in
      let eh' = process_error err eh in
      let err' : DetailedError = record err { retry_count = attempt } in
      let rest = retry_from around context metadata max n (suc attempt) (some err') eh' in
      if not (is_retryable err') || leb max attempt
      then record { handler = eh'; answer = gave_up (some err'); calls = suc attempt }
      else if around.stopped attempt (delay_after around attempt err' eh')
      then record { handler = eh'; answer = canceled; calls = suc attempt }
      else rest
]

unfoldable pub max_attempts : Metadata → ErrorHandler → ℕ
max_attempts metadata eh = elim (lookup "error_type" metadata) [
  | none ↦ eh.retry_policy.max_retries
  | some kind ↦
      if kind == "connection" then eh.retry_policy.max_retries * 2 else eh.retry_policy.max_retries
]

unfoldable pub retry_with_policy : Surroundings → String → Metadata → ErrorHandler → RetryRun
retry_with_policy around context metadata eh =
    let max = max_attempts metadata eh in retry_from around context metadata max (suc max) 0 none eh

-- The copy that GetErrorStats returns has the same entries.
unfoldable pub get_error_stats : ErrorHandler → GoMap ErrorCategory ErrorStats
get_error_stats eh = eh.error_stats

-- A limit that is not positive is 0 here.
unfoldable pub get_recent_errors : ℕ → ErrorHandler → List DetailedError
get_recent_errors limit eh =
    if eqb limit 0 || ltb (length eh.error_history) limit
    then last_entries (length eh.error_history) eh.error_history
    else last_entries limit eh.error_history

abbrev pub forget_recent : GoMap ErrorCategory ErrorStats → GoMap ErrorCategory ErrorStats
forget_recent [] = []
forget_recent ((category, stats) ∷ rest) =
    (category, record stats { recent_count = 0 }) ∷ forget_recent rest

unfoldable pub clear_stats : ErrorHandler → ErrorHandler
clear_stats eh = record eh { error_stats = forget_recent eh.error_stats }

unfoldable pub set_retry_policy : RetryPolicy → ErrorHandler → ErrorHandler
set_retry_policy policy eh = record eh { retry_policy = policy }
