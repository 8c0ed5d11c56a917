-- ===== src/Network/Errors/Retrying.antt =====
-- How often RetryWithPolicy of internal/network/error_handler.go calls its operation.
use t_chat.Base.{
  ℕ, zero, suc, ◌+◌, ◌≤◌, ◌<◌, ◌≡◌, refl, ap, false, Option, none, some, String, Bytes,
  string_comparable, lookup, arith, Option-cases, inl, inr,
}
use text.Mathlib.TextEquality.{eq_iff}
use t_chat.Network.Errors.{
  ErrorAction, Metadata, DetailedError, ErrorHandler, is_retryable, categorize_error,
  determine_severity, determine_action, action_retry,
}
use t_chat.Network.Errors.Handling.{
  Failure, plain, detailed, Surroundings, succeeded, detail, create_detailed_error, process_error,
  max_attempts, retry_from, retry_with_policy, delay_after,
}

-- An operation whose errors are not detailed ones.
abbrev pub IsPlain : Option Failure → Type 0
IsPlain none = Unit
IsPlain (some (plain text)) = Unit
IsPlain (some (detailed e)) = ⊥

-- The action that HandleError assigns to a message.
abbrev pub action_for : Bytes → ErrorAction
action_for text =
    let category = (categorize_error text).0 in
    determine_action category (determine_severity category)

limits :
    (now : ℕ) (failure : Failure) (context : String) (metadata : Metadata) (eh : ErrorHandler)
    → IsPlain (some failure)
    → (detail now failure context metadata eh).max_retries ≡ eh.retry_policy.max_retries
unfolding detail create_detailed_error
limits now (plain text) context metadata eh h = refl
limits now (detailed e) context metadata eh h = absurd h

policy_kept :
    (e : DetailedError) (eh : ErrorHandler) → (process_error e eh).retry_policy ≡ eh.retry_policy
unfolding process_error
policy_kept e eh = refl

max_attempts-ge :
    (metadata : Metadata) (eh : ErrorHandler)
    → eh.retry_policy.max_retries ≤ max_attempts metadata eh
unfolding max_attempts
max_attempts-ge metadata eh = elim (Option-cases (lookup "error_type" metadata)) [
  | inl e ↦ rw (e, max_attempts) (omega arith)
  | inr (kind, e) ↦ rw (e, max_attempts) (ground arith)
]

retry_from-le :
    (around : Surroundings) (context : String) (metadata : Metadata) (max n attempt : ℕ)
    (last : Option DetailedError) (eh : ErrorHandler)
    → ((j : ℕ) → IsPlain (around.operation j))
    → attempt ≤ eh.retry_policy.max_retries
    → (retry_from around context metadata max n attempt last eh).calls
      ≤ suc eh.retry_policy.max_retries
unfolding retry_from is_retryable
retry_from-le around context metadata max zero attempt last eh errors h = omega arith
retry_from-le around context metadata max (suc n) attempt last eh errors h =
    elim (Option-cases (around.operation attempt)) [
      | inl e ↦ rw (e, retry_from) (omega arith)
      | inr (failure, e) ↦
          let err = detail (around.clock attempt) failure context metadata eh in
          let err' : DetailedError = record err { retry_count = attempt } in
          let limit =
            limits (around.clock attempt) failure context metadata eh (rw e at (errors attempt)) in
          let kept = ap (λ p. p.max_retries) (policy_kept err eh) in
          let rest =
            retry_from-le around context metadata max n (suc attempt) (some err')
              (process_error err eh) errors in
          rw (e, retry_from) (ground (arith, rest, limit, kept))
    ]

-- When all errors of the operation are of other types than DetailedError, RetryWithPolicy calls the
-- operation at most once more than the policy's retries, for connection errors too.
pub retry_with_policy-le :
    (around : Surroundings) (context : String) (metadata : Metadata) (eh : ErrorHandler)
    → ((j : ℕ) → IsPlain (around.operation j))
    → (retry_with_policy around context metadata eh).calls ≤ suc eh.retry_policy.max_retries
unfolding retry_with_policy
retry_with_policy-le around context metadata eh errors =
    retry_from-le around context metadata (max_attempts metadata eh)
      (suc (max_attempts metadata eh)) 0 none eh errors (omega arith)

module _ (around : Surroundings) (context : String) (metadata : Metadata) (k : ℕ) (text : ℕ → Bytes)
    (running : (j d : ℕ) → around.stopped j d ≡ false)
    (fails : (j : ℕ) → j < k → around.operation j ≡ some (plain (text j)))
    (retries : (j : ℕ) → j < k → action_for (text j) ≡ action_retry)
    (ends : around.operation k ≡ none) where
  retry_from-succeeded :
      (max n m i : ℕ) (last : Option DetailedError) (eh : ErrorHandler)
      → i + m ≡ k
      → k ≤ eh.retry_policy.max_retries
      → k ≤ max
      → m < n
      → let run = retry_from around context metadata max n i last eh in
        (run.answer ≡ succeeded) × (run.calls ≡ suc k)
  unfolding detail create_detailed_error is_retryable retry_from
  retry_from-succeeded max zero m i last eh at most rounds fuel = absurd (omega arith)
  retry_from-succeeded max (suc n) zero i last eh at most rounds fuel =
      let here : i ≡ k = omega arith in
      let end : around.operation i ≡ none = rw here ends in rw (end, retry_from) (refl, omega arith)
  retry_from-succeeded max (suc n) (suc m) i last eh at most rounds fuel =
      let failure = fails i (omega arith) in
      let action = retries i (omega arith) in
      let err = detail (around.clock i) (plain (text i)) context metadata eh in
      let err' : DetailedError = record err { retry_count = i } in
      let eh' = process_error err eh in
      let kept = ap (λ p. p.max_retries) (policy_kept err eh) in
      let rest =
        retry_from-succeeded max n m (suc i) (some err') eh' (omega arith) (omega (arith, kept))
          rounds (omega arith) in
      let going = running i (delay_after around i err' eh') in
      rw (failure, retry_from)
        (ground (arith, rest, action, going, eq_iff (action_for (text i)) action_retry))

  -- When the first calls of the operation fail with errors of other types than DetailedError, whose
  -- action is to retry, and the next one succeeds, and these failures are at most as many as the
  -- policy's retries, and the handler is not stopped, RetryWithPolicy succeeds, after that call.
  pub retry_with_policy-succeeded :
      (eh : ErrorHandler)
      → k ≤ eh.retry_policy.max_retries
      → let run = retry_with_policy around context metadata eh in
        (run.answer ≡ succeeded) × (run.calls ≡ suc k)
  unfolding retry_with_policy
  retry_with_policy-succeeded eh most =
      let enough : k ≤ max_attempts metadata eh = enough in
      retry_from-succeeded (max_attempts metadata eh) (suc (max_attempts metadata eh)) k 0 none eh
        (omega arith) most enough (omega (arith, enough))
    where
      enough : k ≤ max_attempts metadata eh
      enough = omega (arith, max_attempts-ge metadata eh)
