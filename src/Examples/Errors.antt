-- ===== src/Examples/Errors.antt =====
-- A message that is searched, a handler with two errors, and an operation that fails twice:
-- internal/network/error_handler.go.
use t_chat.Base.{
  ℕ, zero, suc, ◌*◌, ◌≤◌, ◌<◌, ◌≡◌, ◌↔◌, refl, true, false, none, some, [], ◌∷◌, Bytes, arith,
  string_comparable, bytes_eq,
}
use t_chat.Network.Errors.{
  RetryPolicy, ErrorHandler, DetailedError, categorize_error, determine_severity, determine_action,
  new_error_handler, action_retry,
}
use t_chat.Network.Errors.Keywords.{contains, found_from, codes, contains_iff, AnyOf, Occurs}
use t_chat.Network.Errors.Handling.{
  plain, detail, handle_error, get_recent_errors, last_entries, Surroundings, retry_with_policy,
  succeeded,
}
use t_chat.Network.Errors.History.{Handled, get_recent_errors-Handled}
use t_chat.Network.Errors.Retrying.{
  IsPlain, retry_with_policy-le, retry_with_policy-succeeded, action_for,
}

contains_iff_example :
    (contains (codes "read: EOF") (codes "timeout" ∷ codes "EOF" ∷ []) ≡ true)
    ↔ AnyOf (λ keyword. Occurs keyword (codes "read: EOF")) (codes "timeout" ∷ codes "EOF" ∷ [])
contains_iff_example = contains_iff (codes "read: EOF") (codes "timeout" ∷ codes "EOF" ∷ [])

abbrev policy : RetryPolicy
policy = record {
  max_retries = 3;
  base_delay = 100;
  max_delay = 5000;
  backoff = λ n. 200 * n;
  jitter = false;
}

abbrev fresh : ErrorHandler
fresh = new_error_handler policy

abbrev reset_by_peer : Bytes
reset_by_peer = codes "connection reset"

abbrev after_one : ErrorHandler
after_one = (handle_error 5 (some (plain reset_by_peer)) "send" [] fresh).0

abbrev after_two : ErrorHandler
after_two = (handle_error 6 (some (plain (codes "disk full"))) "save" [] after_one).0

abbrev first_error : DetailedError
first_error = detail 5 (plain reset_by_peer) "send" [] fresh

abbrev second_error : DetailedError
second_error = detail 6 (plain (codes "disk full")) "save" [] after_one

two_given : Handled policy (first_error ∷ second_error ∷ []) after_two
two_given =
    Handled.handled 6 (plain (codes "disk full")) "save" []
      (Handled.handled 5 (plain reset_by_peer) "send" [] Handled.created)

get_recent_errors-Handled_example :
    get_recent_errors 1 after_two ≡ last_entries 1 (first_error ∷ second_error ∷ [])
get_recent_errors-Handled_example = get_recent_errors-Handled 1 two_given (omega arith)

-- It fails twice with a broken connection.
abbrev around : Surroundings
around = record {
  operation = λ n. elim n [
    | zero ↦ some (plain reset_by_peer)
    | suc zero ↦ some (plain reset_by_peer)
    | suc (suc k) ↦ none
  ];
  clock = λ n. n;
  stopped = λ n d. false;
  jittered = λ now d. d;
}

two_failures : (j : ℕ) → j < 2 → around.operation j ≡ some (plain reset_by_peer)
two_failures zero h = refl
two_failures (suc zero) h = refl
two_failures (suc (suc j)) h = absurd (omega arith)

retried : action_for reset_by_peer ≡ action_retry
unfolding categorize_error determine_severity determine_action contains found_from bytes_eq
retried = refl

retry_with_policy-succeeded_example :
    ((retry_with_policy around "send" [] fresh).answer ≡ succeeded)
    × ((retry_with_policy around "send" [] fresh).calls ≡ 3)
unfolding new_error_handler
retry_with_policy-succeeded_example =
    retry_with_policy-succeeded around "send" [] 2 (λ j. reset_by_peer) (λ j d. refl) two_failures
      (λ j h. retried) refl fresh (omega arith)

no_details : (j : ℕ) → IsPlain (around.operation j)
no_details zero = tt
no_details (suc zero) = tt
no_details (suc (suc j)) = tt

retry_with_policy-le_example :
    (retry_with_policy around "send" (("error_type", "connection") ∷ []) fresh).calls ≤ 4
unfolding new_error_handler
retry_with_policy-le_example =
    retry_with_policy-le around "send" (("error_type", "connection") ∷ []) fresh no_details
