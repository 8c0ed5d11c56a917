-- ===== src/Network/Retries/Limits.antt =====
-- How often internal/network/retry_manager.go lets an operation be retried.
use t_chat.Base.{
  ℕ, suc, ◌-◌, ◌≤◌, ◌≡◌, inl, inr, not, none, some, List, [], ◌∷◌, String, string_comparable,
  if◌then◌else◌, max, GoMap, lookup, store, lookup-store, arith, Option-cases, DistinctKeys,
  lookup-keep_values,
}
use t_chat.Network.Retries.{
  RetryInfo, RetryManager, new_retry_info, create_retry_info, should_retry, recorded, record_retry,
  get_retry_info, cleanup_retries, is_stale,
}

-- A caller that asks at each of some times, and records the attempt when it may: how many
-- attempts it makes.
unfoldable pub granted : String → String → List ℕ → RetryManager → ℕ
unfolding should_retry record_retry
granted file_id operation [] rm = 0
granted file_id operation (now ∷ times) rm =
    let (rm', ok) = should_retry now file_id operation rm in
    let later = granted file_id operation times (record_retry now file_id rm') in
    let refused = granted file_id operation times rm' in if ok then suc later else refused

module _ (file_id operation : String) where
  granted-found :
      (times : List ℕ) (rm : RetryManager) (info : RetryInfo)
      → lookup file_id rm.retries ≡ some info
      → granted file_id operation times rm ≤ info.max_attempts - info.attempts
  unfolding granted should_retry record_retry
  granted-found [] rm info found = omega arith
  granted-found (now ∷ times) rm info found = ground (
    arith,
    found,
    lookup-store file_id file_id (recorded now rm.config info) rm.retries,
    string_comparable.equals_iff file_id file_id,
    granted-found times rm info found,
    granted-found times
        (record rm { retries = store file_id (recorded now rm.config info) rm.retries })
        (recorded now rm.config info),
  )

  granted-new :
      (times : List ℕ) (rm : RetryManager)
      → lookup file_id rm.retries ≡ none
      → granted file_id operation times rm ≤ max 1 rm.config.retry_count
  unfolding granted should_retry record_retry create_retry_info
  granted-new [] rm new = omega arith
  granted-new (now ∷ times) rm new =
      let info : RetryInfo = new_retry_info now file_id operation rm.config in
      let created : GoMap String RetryInfo = store file_id info rm.retries in
      let once : GoMap String RetryInfo = store file_id (recorded now rm.config info) created in
      ground (
        arith,
        new,
        string_comparable.equals_iff file_id file_id,
        lookup-store file_id file_id info rm.retries,
        lookup-store file_id file_id (recorded now rm.config info) created,
        granted-found times (record rm { retries = once }) (recorded now rm.config info),
      )

  -- However often and whenever the caller asks, it makes at most as many attempts as are left of
  -- the configured number, and at most the configured number, or one if that is 0, for an
  -- operation that has not failed before.
  pub granted-le :
      (times : List ℕ) (rm : RetryManager)
      → granted file_id operation times rm ≤ elim (lookup file_id rm.retries) [
        | none ↦ max 1 rm.config.retry_count
        | some info ↦ info.max_attempts - info.attempts
      ]
  granted-le times rm = elim (Option-cases (lookup file_id rm.retries)) [
    | inr (info, found) ↦ rw found (granted-found times rm info found)
    | inl new ↦ rw new (granted-new times rm new)
  ]

-- If the map has distinct keys, `Cleanup` drops the retry information of a file exactly if its
-- context is done, or its attempts are used up and the last one is more than an hour ago.
pub get_retry_info-cleanup_retries :
    (now : ℕ) (file_id : String) (rm : RetryManager)
    → DistinctKeys rm.retries
    → get_retry_info file_id (cleanup_retries now rm) ≡ elim (get_retry_info file_id rm) [
      | none ↦ none
      | some info ↦ if is_stale now info then none else some info
    ]
unfolding get_retry_info cleanup_retries
get_retry_info-cleanup_retries now file_id rm d =
    ground (arith, lookup-keep_values (λ info. not (is_stale now info)) file_id rm.retries d)
