-- ===== src/Examples/Retry.antt =====
-- A transfer that may be retried twice: internal/network/retry_manager.go.
use t_chat.Base.{ℕ, ◌+◌, ◌*◌, ◌≤◌, ◌≡◌, refl, List, [], ◌∷◌, string_comparable, lookup, store}
use t_chat.Network.Retries.{
  RetryConfig, RetryManager, new_retry_manager, new_retry_info, recorded, should_retry,
  record_retry, create_retry_info,
}
use t_chat.Network.Retries.Limits.{granted, granted-le}

abbrev config : RetryConfig
config = record {
  retry_count = 2;
  retry_delay = 10;
  max_retry_delay = 15;
  timeout = 1000;
  backoff = λ n. 10 * (n + 1);
}

-- The second call comes too early, and the last one when the attempts are used up.
abbrev times : List ℕ
times = 0 ∷ 5 ∷ 10 ∷ 40 ∷ []

granted-le_example : granted "f" "send" times (new_retry_manager config) ≤ 2
unfolding new_retry_manager lookup
granted-le_example = granted-le "f" "send" times (new_retry_manager config)

two_attempts : granted "f" "send" times (new_retry_manager config) ≡ 2
unfolding granted should_retry record_retry create_retry_info new_retry_manager lookup store
two_attempts = refl

abbrev tried : RetryManager
tried = record {
  config = config;
  retries = ("f", recorded 0 config (new_retry_info 0 "f" "send" config)) ∷ [];
}
