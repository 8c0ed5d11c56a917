-- ===== src/Examples/Confirmations.antt =====
-- Two requests for one file, the first of which times out before the user has answered:
-- internal/network/user_confirmation_handler.go.
use mathlib.Core.List.{Memᴰ}
use t_chat.Base.{
  ℕ, ◌≡◌, Bool, ◌++◌, store, remove, refl, true, false, Option, none, some, List, [], ◌∷◌, String,
  string_comparable, lookup,
}
use t_chat.Network.Confirmations.{
  FileTransferRequest, ConfirmationResponse, ConfirmationRequest, ConfirmationHandler,
  timeout_response, new_confirmation_handler, open_request, send_response, send_timeout,
  cleanup_request, close_request, close, try_send, receive, cleanup_all, cleanup_each,
  new_confirmation_request,
}
use t_chat.Network.Confirmations.System.{Thread, Program, new_program, Move, Call, Step, Steps}
use t_chat.Network.Confirmations.Stopping.{Refuses, stop-IsStuck}
use t_chat.Network.Confirmations.Consent.{returned-approved}
use t_chat.Network.Confirmations.Owners.{owners, owners_lem}

abbrev offer : ℕ → FileTransferRequest
offer size = record {
  file_id = "a";
  sender_id = "ann";
  receiver_id = "bob";
  file_name = "a.txt";
  file_size = size;
  file_path = "";
  chunk_count = 1;
  from_addr = "";
  from_user = "ann";
  checksum = "";
  encrypted = false;
  request_time = 0;
}

abbrev yes_response : ConfirmationResponse
yes_response = record { accepted = true; reason = ""; error = none }

abbrev a_request : ℕ → Option ConfirmationResponse → Option (Unit {0}) → Bool → ConfirmationRequest
a_request size response timeout closed = record {
  file_id = "a";
  request = offer size;
  response_ch = record { buffer = response; is_closed = closed };
  timeout_ch = record { buffer = timeout; is_closed = closed };
  created_at = size;
}

abbrev handler_with : List (String × ℕ) → List ConfirmationRequest → ConfirmationHandler
handler_with pending requests = record {
  has_callback = true;
  pending_requests = pending;
  requests = requests;
  confirmation_timeout = 30000000000;
  is_stopped = false;
}

abbrev program_with :
    ConfirmationHandler
    → List FileTransferRequest
    → List (FileTransferRequest × Option ConfirmationResponse)
    → Program
program_with h approved returned = record {
  handler = h;
  is_locked = false;
  refusals = [];
  has_crashed = false;
  approved = approved;
  returned = returned;
}

abbrev first_open : ConfirmationHandler
first_open = handler_with (("a", 0) ∷ []) (a_request 1 none none false ∷ [])

abbrev first_late : ConfirmationHandler
first_late = handler_with (("a", 0) ∷ []) (a_request 1 none (some tt) false ∷ [])

abbrev first_closed : ConfirmationHandler
first_closed = handler_with [] (a_request 1 none none true ∷ [])

abbrev second_open : ConfirmationHandler
second_open =
    handler_with (("a", 1) ∷ []) (a_request 1 none none true ∷ a_request 2 none none false ∷ [])

abbrev second_answered : ConfirmationHandler
second_answered =
    handler_with (("a", 1) ∷ [])
      (a_request 1 none none true ∷ a_request 2 (some yes_response) none false ∷ [])

abbrev second_closed : ConfirmationHandler
second_closed = handler_with [] (a_request 1 none none true ∷ a_request 2 none none true ∷ [])

abbrev late : List (FileTransferRequest × Option ConfirmationResponse)
late = (offer 1, some timeout_response) ∷ []

abbrev others : List Thread
others = Thread.timing "a" ∷ Thread.asking (offer 2) ∷ []

-- The first request is pending.
first_asked :
    Steps
      (new_program true)
      []
      (program_with first_open [] [])
      (Thread.timing "a" ∷ Thread.asking (offer 1) ∷ Thread.waiting (offer 1) 0 ∷ [])
unfolding new_program new_confirmation_handler open_request new_confirmation_request lookup store
first_asked =
    Steps.further Steps.here (Step.calls [] refl (Call.requests 1 (offer 1) first_open refl refl))

-- It times out, and the user is still asked.
first_returned :
    Steps (new_program true) [] (program_with first_closed [] late) (Thread.asking (offer 1) ∷ [])
unfolding send_timeout try_send receive cleanup_request close_request close lookup remove
first_returned =
    Steps.further
      (Steps.further
        (Steps.further
          (Steps.further first_asked (
            Step.moves [] (Thread.asking (offer 1) ∷ Thread.waiting (offer 1) 0 ∷ []) refl
              (Move.fires "a" 0 refl refl)))
          (Step.moves [] (Thread.asking (offer 1) ∷ Thread.waiting (offer 1) 0 ∷ []) refl
            (Move.signals 0 first_late refl)))
        (Step.moves (Thread.asking (offer 1) ∷ []) [] refl
          (Move.times_out (offer 1) 0 (a_request 1 none (some tt) false) (some tt) _ refl refl)))
      (Step.moves (Thread.asking (offer 1) ∷ []) [] refl
        (Move.cleans (offer 1) (some timeout_response) first_closed refl refl))

-- The user accepts the first request, and the second one is answered.
second_returned :
    Steps
      (new_program true)
      []
      (program_with second_closed (offer 1 ∷ []) ((offer 2, some yes_response) ∷ late))
      others
unfolding open_request new_confirmation_request send_response try_send receive cleanup_request
    close_request close lookup store remove
second_returned =
    Steps.further
      (Steps.further
        (Steps.further
          (Steps.further
            (Steps.further
              (Steps.further first_returned (
                Step.calls (Thread.asking (offer 1) ∷ []) refl
                  (Call.requests 2 (offer 2) second_open refl refl)))
              (Step.moves (others ++ (Thread.waiting (offer 2) 1 ∷ [])) [] refl
                (Move.answers (offer 1) yes_response)))
            (Step.moves (others ++ (Thread.waiting (offer 2) 1 ∷ [])) [] refl
              (Move.finds "a" yes_response true 1 refl refl)))
          (Step.moves (others ++ (Thread.waiting (offer 2) 1 ∷ [])) [] refl
            (Move.sends "a" 1 yes_response true second_answered refl)))
        (Step.moves others [] refl (
          Move.hears (offer 2) 1 (a_request 2 (some yes_response) none false) (some yes_response) _
            refl refl)))
      (Step.moves others [] refl
        (Move.cleans (offer 2) (some yes_response) second_closed refl refl))

returned-approved_example : (q : FileTransferRequest) × Memᴰ q (offer 1 ∷ []) × (q.file_id ≡ "a")
returned-approved_example =
    returned-approved true
      (program_with second_closed (offer 1 ∷ []) ((offer 2, some yes_response) ∷ late)) others
      (offer 2) yes_response second_returned (Memᴰ.head refl) refl

owners_lem_example :
    owners "a" (Thread.timing "a" ∷ Thread.asking (offer 1) ∷ Thread.waiting (offer 1) 0 ∷ [])
    ≡ elim (lookup "a" first_open.pending_requests) [ none ↦ 0 | some i ↦ 1 ]
owners_lem_example = owners_lem true "a" (program_with first_open [] []) _ first_asked refl

-- `Stop` has the lock, and then the user answers.
abbrev stuck : List FileTransferRequest → Program
stuck approved = record (program_with first_open approved late) { is_locked = true }

stop-IsStuck_example :
    ((stuck (offer 1 ∷ [])).returned ≡ late)
    × ((stuck (offer 1 ∷ [])).is_locked ≡ true)
    × Refuses (program_with first_open [] late) (stuck (offer 1 ∷ []))
unfolding cleanup_all cleanup_each cleanup_request
stop-IsStuck_example =
    stop-IsStuck (program_with first_open [] late) (stuck []) (stuck (offer 1 ∷ [])) []
      (Thread.asking (offer 1) ∷ []) (Thread.answering "a" yes_response true ∷ []) (λ e. cc)
      (Move.stop_waits refl refl)
      (Steps.further Steps.here (Step.moves [] [] refl (Move.answers (offer 1) yes_response)))
