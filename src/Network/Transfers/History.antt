-- ===== src/Network/Transfers/History.antt =====
-- What can happen to the states of internal/network/transfer_state_manager.go over a sequence of
-- calls.
use t_chat.Base.{
  ℕ, ◌≡◌, refl, ◌⊎◌, inl, inr, true, some, String, string_comparable, lookup, Values, Values-store,
  Values-remove, Values-lookup, All-keep, arith, Bool-cases, Option-cases,
}
use t_chat.Network.TransferStates.{
  TransferState, state_idle, waiting_confirmation, pending_user_confirmation, confirmed, rejected,
  transferring, completed, failed, canceled, state_eq, is_valid_state_transition,
}
use t_chat.Network.Transfers.{
  Floats, TransferStateInfo, Manager, new_transfer_state_manager, new_transfer, create_transfer,
  get_transfer_info, on_transfer, set_found, set_state, update_progress, set_error,
  increment_retry_count, set_metadata, remove_transfer, cleanup,
}

module _ {F : Floats} {V : Type 0} where
  -- The managers that the methods make.
  pub data Reachable : Manager F V → Type 0 where
    started : Reachable new_transfer_state_manager
    created :
        {m : Manager F V}
        → (now : ℕ) → (file_id from_addr to_addr file_name : String) → (file_size : ℕ) → Reachable m
        → Reachable (create_transfer now file_id from_addr to_addr file_name file_size m)
    state_set :
        {m : Manager F V}
        → (now : ℕ) → (file_id : String) → (s : TransferState) → Reachable m
        → Reachable (set_state now file_id s m).0
    progress_updated :
        {m : Manager F V}
        → (now : ℕ) → (file_id : String) → (progress : F.Float) → Reachable m
        → Reachable (update_progress now file_id progress m).0
    error_set :
        {m : Manager F V}
        → (now : ℕ) → (file_id message : String) → Reachable m
        → Reachable (set_error now file_id message m).0
    retried :
        {m : Manager F V}
        → (now : ℕ) → (file_id : String) → Reachable m
        → Reachable (increment_retry_count now file_id m).0
    metadata_set :
        {m : Manager F V}
        → (now : ℕ) → (file_id key : String) → (value : V) → Reachable m
        → Reachable (set_metadata now file_id key value m).0
    removed :
        {m : Manager F V}
        → (file_id : String) → Reachable m
        → Reachable (remove_transfer file_id m).0
    cleaned : {m : Manager F V} → (now : ℕ) → Reachable m → Reachable (cleanup now m)

  -- The step from the previous state is in the table, or the transfer is new.
  abbrev pub IsLegal : TransferStateInfo F V → Type 0
  IsLegal info =
      (is_valid_state_transition info.previous_state info.state ≡ true)
      ⊎ ((info.previous_state ≡ state_idle) × (info.state ≡ state_idle))

  on_transfer-Values :
      (P : TransferStateInfo F V → Type 0) (file_id : String)
      (change : TransferStateInfo F V → TransferStateInfo F V) (m : Manager F V)
      → ((info : TransferStateInfo F V) → P info → P (change info))
      → Values P m.states
      → Values P (on_transfer file_id change m).0.states
  unfolding on_transfer
  on_transfer-Values P file_id change m h hs = elim (Option-cases (lookup file_id m.states)) [
    | inl gone ↦ rw (gone, on_transfer) hs
    | inr (info, found) ↦
        rw (found, on_transfer)
          (Values-store P file_id (change info) m.states
            (h info (Values-lookup P file_id m.states hs found)) hs)
  ]

  set_found-IsLegal :
      (now : ℕ) (file_id : String) (s : TransferState) (info : TransferStateInfo F V)
      (m : Manager F V)
      → Values IsLegal m.states
      → Values IsLegal (set_found now file_id s info m).0.states
  unfolding set_found
  set_found-IsLegal now file_id s info m hs = elim (Bool-cases (state_eq info.state s)) [
    | inl same ↦ rw same hs
    | inr other ↦ elim (Bool-cases (is_valid_state_transition info.state s)) [
      | inl valid ↦ rw (other, valid) (Values-store IsLegal file_id _ m.states (inl valid) hs)
      | inr invalid ↦ rw (other, invalid) hs
    ]
  ]

  set_state-IsLegal :
      (now : ℕ) (file_id : String) (s : TransferState) (m : Manager F V)
      → Values IsLegal m.states
      → Values IsLegal (set_state now file_id s m).0.states
  unfolding set_state
  set_state-IsLegal now file_id s m hs = elim (Option-cases (lookup file_id m.states)) [
    | inl gone ↦ rw (gone, set_state) hs
    | inr (info, found) ↦ rw (found, set_state) (set_found-IsLegal now file_id s info m hs)
  ]

  remove_transfer-Values :
      (P : TransferStateInfo F V → Type 0) (file_id : String) (m : Manager F V)
      → Values P m.states
      → Values P (remove_transfer file_id m).0.states
  unfolding remove_transfer
  remove_transfer-Values P file_id m hs = elim (Option-cases (lookup file_id m.states)) [
    | inl gone ↦ rw (gone, remove_transfer) hs
    | inr (info, found) ↦ rw (found, remove_transfer) (Values-remove P file_id m.states hs)
  ]

  Reachable-IsLegal : (m : Manager F V) → Reachable m → Values IsLegal m.states
  unfolding new_transfer_state_manager create_transfer new_transfer update_progress set_error
      increment_retry_count set_metadata cleanup
  Reachable-IsLegal m started = tt
  Reachable-IsLegal m (created {m = n} now id a b c d r) =
      Values-store IsLegal id _ n.states (inr (refl, refl)) (Reachable-IsLegal n r)
  Reachable-IsLegal m (state_set {m = n} now id s r) =
      set_state-IsLegal now id s n (Reachable-IsLegal n r)
  Reachable-IsLegal m (progress_updated {m = n} now id x r) =
      on_transfer-Values IsLegal id _ n (λ i h. h) (Reachable-IsLegal n r)
  Reachable-IsLegal m (error_set {m = n} now id x r) =
      on_transfer-Values IsLegal id _ n (λ i h. h) (Reachable-IsLegal n r)
  Reachable-IsLegal m (retried {m = n} now id r) =
      on_transfer-Values IsLegal id _ n (λ i h. h) (Reachable-IsLegal n r)
  Reachable-IsLegal m (metadata_set {m = n} now id k x r) =
      on_transfer-Values IsLegal id _ n (λ i h. h) (Reachable-IsLegal n r)
  Reachable-IsLegal m (removed {m = n} id r) =
      remove_transfer-Values IsLegal id n (Reachable-IsLegal n r)
  Reachable-IsLegal m (cleaned {m = n} now r) = All-keep _ _ n.states (Reachable-IsLegal n r)

before_completed :
    (p : TransferState) → is_valid_state_transition p completed ≡ true → p ≡ transferring
unfolding is_valid_state_transition
before_completed state_idle h = ground arith
before_completed waiting_confirmation h = ground arith
before_completed pending_user_confirmation h = ground arith
before_completed confirmed h = ground arith
before_completed rejected h = ground arith
before_completed transferring h = refl
before_completed completed h = ground arith
before_completed failed h = ground arith
before_completed canceled h = ground arith

before_transferring :
    (p : TransferState)
    → is_valid_state_transition p transferring ≡ true
    → (p ≡ confirmed) ⊎ (p ≡ pending_user_confirmation)
unfolding is_valid_state_transition
before_transferring state_idle h = ground arith
before_transferring waiting_confirmation h = ground arith
before_transferring pending_user_confirmation h = inr refl
before_transferring confirmed h = inl refl
before_transferring rejected h = ground arith
before_transferring transferring h = ground arith
before_transferring completed h = ground arith
before_transferring failed h = ground arith
before_transferring canceled h = ground arith

-- Whatever calls made the manager, a transfer that it holds as completed was transferring before.
pub Reachable-completed :
    {F : Floats} {V : Type 0} (m : Manager F V) (file_id : String) (info : TransferStateInfo F V)
    → Reachable m
    → get_transfer_info file_id m ≡ some info
    → info.state ≡ completed
    → info.previous_state ≡ transferring
unfolding get_transfer_info
Reachable-completed m file_id info r found now =
    elim (Values-lookup IsLegal file_id m.states (Reachable-IsLegal m r) found) [
      | inl valid ↦ before_completed info.previous_state (rw now at valid)
      | inr fresh ↦ ground arith
    ]

-- Whatever calls made the manager, a transfer that it holds as transferring had just been
-- confirmed, or was waiting for the user's confirmation.
pub Reachable-transferring :
    {F : Floats} {V : Type 0} (m : Manager F V) (file_id : String) (info : TransferStateInfo F V)
    → Reachable m
    → get_transfer_info file_id m ≡ some info
    → info.state ≡ transferring
    → (info.previous_state ≡ confirmed) ⊎ (info.previous_state ≡ pending_user_confirmation)
unfolding get_transfer_info
Reachable-transferring m file_id info r found now =
    elim (Values-lookup IsLegal file_id m.states (Reachable-IsLegal m r) found) [
      | inl valid ↦ before_transferring info.previous_state (rw now at valid)
      | inr fresh ↦ ground arith
    ]
