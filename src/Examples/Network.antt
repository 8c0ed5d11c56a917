-- ===== src/Examples/Network.antt =====
-- A transfer that is confirmed and completed: internal/network/transfer_state_manager.go.
use t_chat.Base.{ℕ, ◌≡◌, refl, some, String, string_comparable, ltb, lookup, store}
use t_chat.Network.TransferStates.{
  pending_user_confirmation, transferring, completed, is_valid_state_transition,
}
use t_chat.Network.Transfers.{
  Floats, TransferStateInfo, Manager, new_transfer_state_manager, new_transfer, create_transfer,
  get_transfer_info, set_state, set_found, changed_to,
}
use t_chat.Network.Transfers.History.{Reachable, started, created, state_set, Reachable-completed}

-- Percentages as the floats.
abbrev percents : Floats
percents = record { Float = ℕ; less = ltb; zero_float = 0; one_float = 100 }

abbrev moving : Manager percents String
moving =
    (set_state 3 "f" transferring
      (set_state 2 "f" pending_user_confirmation
        (create_transfer 1 "f" "ann" "bob" "photo" 9 new_transfer_state_manager)).0).0

abbrev moved : Manager percents String
moved = (set_state 4 "f" completed moving).0

moving-Reachable : Reachable moving
moving-Reachable =
    state_set 3 "f" transferring
      (state_set 2 "f" pending_user_confirmation (created 1 "f" "ann" "bob" "photo" 9 started))

abbrev photo : TransferStateInfo percents String
photo = record (new_transfer 1 "f" "ann" "bob" "photo" 9) {
  state = transferring;
  previous_state = pending_user_confirmation;
  updated_at = 3;
}

moving-photo : lookup "f" moving.states ≡ some photo
unfolding lookup store create_transfer new_transfer set_state set_found is_valid_state_transition
    new_transfer_state_manager
moving-photo = refl

moved-photo : get_transfer_info "f" moved ≡ some (changed_to 4 completed photo)
unfolding get_transfer_info lookup store create_transfer new_transfer set_state set_found
    is_valid_state_transition new_transfer_state_manager
moved-photo = refl

Reachable-completed_example : transferring ≡ transferring
unfolding new_transfer
Reachable-completed_example =
    Reachable-completed moved "f" (changed_to 4 completed photo)
      (state_set 4 "f" completed moving-Reachable) moved-photo refl
