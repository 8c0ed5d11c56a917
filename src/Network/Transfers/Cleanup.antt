-- ===== src/Network/Transfers/Cleanup.antt =====
-- The answers of internal/network/transfer_state_manager.go after a state is set, after metadata
-- is set, and after `cleanup`.
use t_chat.Base.{
  ℕ, ◌≡◌, not, ◌&&◌, none, some, String, string_comparable, ◌==◌, lookup, store, lookup-store,
  if◌then◌else◌, arith, DistinctKeys, lookup-keep_values,
}
use t_chat.Network.TransferStates.{TransferState, state_eq, is_valid_state_transition}
use t_chat.Network.Transfers.{
  Floats, TransferStateInfo, Manager, get_transfer_info, get_state, on_transfer, set_found,
  set_state, set_metadata, get_metadata, cleanup, is_outdated, invalid_transition, changed_to,
}

module _ {F : Floats} {V : Type 0} where
  -- After `SetState` on a transfer that exists, each transfer has the state it had, but this one
  -- the new state if the table allows it or it is the old one; an error is returned exactly when
  -- it does not.
  pub get_state-set_state :
      (now : ℕ) (file_id k : String) (s : TransferState) (info : TransferStateInfo F V)
      (m : Manager F V)
      → lookup file_id m.states ≡ some info
      → (get_state k (set_state now file_id s m).0 ≡ (
          if file_id == k
          then some (if is_valid_state_transition info.state s then s else info.state)
          else get_state k m))
        × ((set_state now file_id s m).1 ≡ (
            if state_eq info.state s
            then none
            else if is_valid_state_transition info.state s
            then none
            else some (invalid_transition info.state s)))
  unfolding get_state set_state set_found
  get_state-set_state now file_id k s info m found = ground (
    arith,
    found,
    string_comparable.equals_iff file_id k,
    lookup-store file_id k (changed_to now s info) m.states,
  )

  -- What `SetMetadata` stores for a transfer that exists, `GetMetadata` gives back, and the other
  -- keys and transfers keep theirs.
  pub get_metadata-set_metadata :
      (now : ℕ) (file_id k key other : String) (value : V) (info : TransferStateInfo F V)
      (m : Manager F V)
      → lookup file_id m.states ≡ some info
      → get_metadata k other (set_metadata now file_id key value m).0
        ≡ (if file_id == k && key == other then some value else get_metadata k other m)
  unfolding get_metadata set_metadata on_transfer
  get_metadata-set_metadata now file_id k key other value info m found = ground (
    arith,
    found,
    string_comparable.equals_iff file_id k,
    lookup-store file_id k
        (record info { metadata = store key value info.metadata; updated_at = now }) m.states,
    lookup-store key other value info.metadata,
  )

  -- If the map has distinct keys, `cleanup` drops a transfer exactly if it has ended and was not
  -- updated for longer than the retention, and keeps every other as it is.
  pub get_transfer_info-cleanup :
      (now : ℕ) (k : String) (m : Manager F V)
      → DistinctKeys m.states
      → get_transfer_info k (cleanup now m) ≡ elim (get_transfer_info k m) [
        | none ↦ none
        | some info ↦ if is_outdated now m.state_retention info then none else some info
      ]
  unfolding get_transfer_info cleanup
  get_transfer_info-cleanup now k m d = ground (
    arith,
    lookup-keep_values (λ info. not (is_outdated now m.state_retention info)) k m.states d,
  )
