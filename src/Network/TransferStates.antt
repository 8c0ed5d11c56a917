-- ===== src/Network/TransferStates.antt =====
-- The states of a file transfer: the type TransferState of
-- internal/network/user_confirmation_handler.go, and which may follow which, from
-- internal/network/transfer_state_manager.go.
use t_chat.Base.{ℕ, Bool, true, false, ◌||◌, List, [], ◌∷◌, String, eqb, if◌then◌else◌}

pub data TransferState : Type 0 where
  state_idle : TransferState
  waiting_confirmation pending_user_confirmation confirmed rejected : TransferState
  transferring completed failed canceled : TransferState

-- The number that `iota` gives.
abbrev pub number : TransferState → ℕ
number state_idle = 0
number waiting_confirmation = 1
number pending_user_confirmation = 2
number confirmed = 3
number rejected = 4
number transferring = 5
number completed = 6
number failed = 7
number canceled = 8

abbrev pub state_eq : TransferState → TransferState → Bool
state_eq s t = eqb (number s) (number t)

unfoldable pub state_name : TransferState → String
state_name state_idle = "idle"
state_name waiting_confirmation = "waiting_confirmation"
state_name pending_user_confirmation = "pending_user_confirmation"
state_name confirmed = "confirmed"
state_name rejected = "rejected"
state_name transferring = "transferring"
state_name completed = "completed"
state_name failed = "failed"
state_name canceled = "canceled"

-- `validTransitions` of `isValidStateTransition`.
abbrev pub valid_transitions : TransferState → List TransferState
valid_transitions state_idle =
    waiting_confirmation ∷ pending_user_confirmation ∷ failed ∷ canceled ∷ []
valid_transitions waiting_confirmation = confirmed ∷ rejected ∷ failed ∷ canceled ∷ []
valid_transitions pending_user_confirmation =
    confirmed ∷ rejected ∷ transferring ∷ failed ∷ canceled ∷ []
valid_transitions confirmed = transferring ∷ failed ∷ canceled ∷ []
valid_transitions rejected = state_idle ∷ failed ∷ canceled ∷ []
valid_transitions transferring = completed ∷ failed ∷ canceled ∷ []
valid_transitions completed = state_idle ∷ []
valid_transitions failed = state_idle ∷ canceled ∷ []
valid_transitions canceled = state_idle ∷ []

abbrev pub has_state : TransferState → List TransferState → Bool
has_state to [] = false
has_state to (allowed ∷ rest) = if state_eq allowed to then true else has_state to rest

unfoldable pub is_valid_state_transition : TransferState → TransferState → Bool
is_valid_state_transition from to = has_state to (valid_transitions from)

-- The states that `cleanup` looks for.
abbrev pub is_ended : TransferState → Bool
is_ended s = state_eq s completed || state_eq s failed || state_eq s canceled
