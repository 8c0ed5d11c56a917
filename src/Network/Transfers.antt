-- ===== src/Network/Transfers.antt =====
-- The manager of the states of file transfers: internal/network/transfer_state_manager.go. The
-- time of a call is an argument. A float64 and a metadata value are of types that the records
-- take; `notices` lists
-- the calls of `notifyStateChange` that have been started.
pub mod History
pub mod Cleanup
use t_chat.Base.{
  ℕ, suc, ◌-◌, Bool, true, false, ◌&&◌, ◌||◌, not, Option, none, some, List, [], ◌∷◌, ◌++◌, map,
  ltb, eqb, if◌then◌else◌, Comparable, ◌==◌, String, string_comparable, GoMap, lookup, store,
  remove, keep, keep_values,
}
use t_chat.Network.TransferStates.{
  TransferState, state_idle, state_eq, is_valid_state_transition, state_name, is_ended,
}

-- The floats: which are below which, and 0 and 1.
pub record Floats : Type 1 where
  pub Float : Type 0
  pub less : Float → Float → Bool
  pub zero_float : Float
  pub one_float : Float

unfoldable pub clamp : (F : Floats) → F.Float → F.Float
clamp F progress =
    if F.less progress F.zero_float
    then F.zero_float
    else if F.less F.one_float progress
    then F.one_float
    else progress

pub record TransferStateInfo (F : Floats) (V : Type 0) : Type 0 where
  pub file_id : String
  pub state : TransferState
  pub previous_state : TransferState
  pub created_at : ℕ
  pub updated_at : ℕ
  pub from_addr : String
  pub to_addr : String
  pub file_name : String
  pub file_size : ℕ
  pub progress : F.Float
  pub error_message : String
  pub retry_count : ℕ
  pub last_retry_time : ℕ
  pub metadata : GoMap String V

pub record Notice : Type 0 where
  pub file_id : String
  pub old_state : TransferState
  pub new_state : TransferState

pub record Manager (F : Floats) (V : Type 0) : Type 0 where
  pub states : GoMap String (TransferStateInfo F V)
  pub notices : List Notice
  pub state_retention : ℕ

pub data Error : Type 0 where
  transfer_not_found key_not_found : Error
  invalid_transition : TransferState → TransferState → Error

module _ {F : Floats} {V : Type 0} where
  -- 24 hours, in nanoseconds.
  unfoldable pub new_transfer_state_manager : Manager F V
  new_transfer_state_manager = record {
    states = [];
    notices = [];
    state_retention = 86400000000000;
  }

  unfoldable pub new_transfer : ℕ → String → String → String → String → ℕ → TransferStateInfo F V
  new_transfer now file_id from_addr to_addr file_name file_size = record {
    file_id = file_id;
    state = state_idle;
    previous_state = state_idle;
    created_at = now;
    updated_at = now;
    from_addr = from_addr;
    to_addr = to_addr;
    file_name = file_name;
    file_size = file_size;
    progress = F.zero_float;
    error_message = "";
    retry_count = 0;
    last_retry_time = 0;
    metadata = [];
  }

  unfoldable pub create_transfer :
      ℕ → String → String → String → String → ℕ → Manager F V → Manager F V
  unfolding new_transfer
  create_transfer now file_id from_addr to_addr file_name file_size tsm = record tsm {
    states =
        store file_id (new_transfer now file_id from_addr to_addr file_name file_size) tsm.states;
  }

  unfoldable pub get_transfer_info : String → Manager F V → Option (TransferStateInfo F V)
  get_transfer_info file_id tsm = lookup file_id tsm.states

  unfoldable pub get_state : String → Manager F V → Option TransferState
  get_state file_id tsm = elim (lookup file_id tsm.states) [
    | none ↦ none
    | some info ↦ some info.state
  ]

  -- What a method does to the transfer it is called with, if the map holds it.
  unfoldable pub on_transfer :
      String
      → (TransferStateInfo F V → TransferStateInfo F V)
      → Manager F V
      → Manager F V × Option Error
  on_transfer file_id change tsm = elim (lookup file_id tsm.states) [
    | none ↦ (tsm, some transfer_not_found)
    | some info ↦ (record tsm { states = store file_id (change info) tsm.states }, none)
  ]

  abbrev pub changed_to : ℕ → TransferState → TransferStateInfo F V → TransferStateInfo F V
  changed_to now new_state info = record info {
    previous_state = info.state;
    state = new_state;
    updated_at = now;
  }

  -- `SetState` on the transfer that it has found.
  unfoldable pub set_found :
      ℕ → String → TransferState → TransferStateInfo F V → Manager F V → Manager F V × Option Error
  unfolding is_valid_state_transition
  set_found now file_id new_state info tsm =
      if state_eq info.state new_state
      then (tsm, none)
      else if is_valid_state_transition info.state new_state
      then (
        record tsm {
          states = store file_id (changed_to now new_state info) tsm.states;
          notices =
              tsm.notices
              ++ (record { file_id = file_id; old_state = info.state; new_state = new_state } ∷ []);
        },
        none,
      )
      else (tsm, some (invalid_transition info.state new_state))

  unfoldable pub set_state : ℕ → String → TransferState → Manager F V → Manager F V × Option Error
  unfolding set_found
  set_state now file_id new_state tsm = elim (lookup file_id tsm.states) [
    | none ↦ (tsm, some transfer_not_found)
    | some info ↦ set_found now file_id new_state info tsm
  ]

  unfoldable pub update_progress : ℕ → String → F.Float → Manager F V → Manager F V × Option Error
  unfolding on_transfer clamp
  update_progress now file_id progress tsm =
      on_transfer file_id (λ info. record info { progress = clamp F progress; updated_at = now })
        tsm

  unfoldable pub set_error : ℕ → String → String → Manager F V → Manager F V × Option Error
  unfolding on_transfer
  set_error now file_id message tsm =
      on_transfer file_id (λ info. record info { error_message = message; updated_at = now }) tsm

  -- `RetryCount` is an int, taken not to overflow.
  unfoldable pub increment_retry_count : ℕ → String → Manager F V → Manager F V × Option Error
  unfolding on_transfer
  increment_retry_count now file_id tsm =
      on_transfer file_id
        (λ info. record info {
          retry_count = suc info.retry_count;
          last_retry_time = now;
          updated_at = now;
        })
        tsm

  unfoldable pub set_metadata : ℕ → String → String → V → Manager F V → Manager F V × Option Error
  unfolding on_transfer
  set_metadata now file_id key value tsm =
      on_transfer file_id
        (λ info. record info { metadata = store key value info.metadata; updated_at = now }) tsm

  unfoldable pub get_metadata : String → String → Manager F V → Option V
  get_metadata file_id key tsm = elim (lookup file_id tsm.states) [
    | none ↦ none
    | some info ↦ lookup key info.metadata
  ]

  unfoldable pub remove_transfer : String → Manager F V → Manager F V × Option Error
  remove_transfer file_id tsm = elim (lookup file_id tsm.states) [
    | none ↦ (tsm, some transfer_not_found)
    | some info ↦ (record tsm { states = remove file_id tsm.states }, none)
  ]

  unfoldable pub get_transfers_by_state : TransferState → Manager F V → List (TransferStateInfo F V)
  get_transfers_by_state s tsm =
      map (λ kv. kv.1) (keep_values (λ info. state_eq info.state s) tsm.states)

  abbrev pub is_outdated : ℕ → ℕ → TransferStateInfo F V → Bool
  is_outdated now retention info = is_ended info.state && ltb retention (now - info.updated_at)

  unfoldable pub cleanup : ℕ → Manager F V → Manager F V
  cleanup now tsm = record tsm {
    states = keep_values (λ info. not (is_outdated now tsm.state_retention info)) tsm.states;
  }

  -- The loop of `GetStats`.
  unfoldable pub count_states :
      GoMap String (TransferStateInfo F V) → GoMap String ℕ → GoMap String ℕ
  unfolding state_name
  count_states [] stats = stats
  count_states ((file_id, info) ∷ rest) stats =
      let name = state_name info.state in
      count_states rest
        (store name (suc (elim (lookup name stats) [ none ↦ 0 | some n ↦ n ])) stats)

  unfoldable pub get_stats : Manager F V → GoMap String ℕ
  unfolding count_states
  get_stats tsm = count_states tsm.states []
