-- ===== src/File/Session.antt =====
-- A transfer session: internal/file/session.go, with the progress of internal/file/progress.go.
-- The time of a call is an argument. `cancel_chan` says whether the cancel channel, whose buffer
-- holds one value, is full. Printed and logged progress is not modelled.
use t_chat.Base.{ℕ, Bool, true, false, Bytes, ltb, if◌then◌else◌}
use t_chat.File.Window.{SlidingWindow, new_sliding_window, reset}

pub data SessionStatus : Type 0 where
  idle starting running paused complete failed canceled accepted rejected : SessionStatus

pub SessionStatus-discrete : Discrete SessionStatus
SessionStatus-discrete = hlevel

pub record Progress : Type 0 where
  pub total : ℕ
  pub completed : ℕ
  pub start_time : ℕ

unfoldable pub new_progress : ℕ → ℕ → Progress
new_progress now total = record { total = total; completed = 0; start_time = now }

unfoldable pub progress_update : ℕ → Progress → Progress
progress_update completed p = record p { completed = completed }

unfoldable pub set_total : ℕ → Progress → Progress
set_total total p = record p { total = total }

pub record TransferSession : Type 0 where
  pub file_id : Bytes
  pub window : SlidingWindow
  pub progress : Progress
  pub start_time : ℕ
  pub last_update : ℕ
  pub status : SessionStatus
  pub accepted : Bool
  pub rejected : Bool
  pub cancel_chan : Bool

unfoldable pub new_transfer_session : ℕ → Bytes → ℕ → TransferSession
unfolding new_progress
new_transfer_session now file_id window_size = record {
  file_id = file_id;
  window = new_sliding_window window_size;
  progress = new_progress now 0;
  start_time = now;
  last_update = now;
  status = idle;
  accepted = false;
  rejected = false;
  cancel_chan = false;
}

unfoldable pub start : ℕ → TransferSession → TransferSession
start now ts = record ts { status = starting; start_time = now; last_update = now }

unfoldable pub set_running : ℕ → TransferSession → TransferSession
set_running now ts = record ts { status = running; last_update = now }

unfoldable pub set_paused : ℕ → TransferSession → TransferSession
set_paused now ts = record ts { status = paused; last_update = now }

unfoldable pub set_complete : ℕ → TransferSession → TransferSession
set_complete now ts = record ts { status = complete; last_update = now }

unfoldable pub set_failed : ℕ → TransferSession → TransferSession
set_failed now ts = record ts { status = failed; last_update = now }

unfoldable pub set_canceled : ℕ → TransferSession → TransferSession
set_canceled now ts = record ts { status = canceled; last_update = now }

unfoldable pub set_accepted : TransferSession → TransferSession
set_accepted ts = record ts { accepted = true; status = accepted }

unfoldable pub set_rejected : TransferSession → TransferSession
set_rejected ts = record ts { rejected = true; status = rejected }

-- The send to the cancel channel is dropped if the channel is full.
unfoldable pub cancel : TransferSession → TransferSession
cancel ts = record ts { status = canceled; cancel_chan = true }

unfoldable pub update_progress : ℕ → ℕ → ℕ → TransferSession → TransferSession
unfolding progress_update set_total
update_progress now completed total ts = record ts {
  progress =
      progress_update completed (if ltb 0 total then set_total total ts.progress else ts.progress);
  last_update = now;
}

unfoldable pub reset_session : ℕ → TransferSession → TransferSession
unfolding new_progress
reset_session now ts = record ts {
  status = idle;
  start_time = now;
  last_update = now;
  window = reset ts.window;
  progress = new_progress now 0;
}

unfoldable pub is_active : TransferSession → Bool
is_active ts = elim ts.status [ starting ↦ true | running ↦ true | _ ↦ false ]

unfoldable pub is_complete_session : TransferSession → Bool
is_complete_session ts = elim ts.status [ complete ↦ true | _ ↦ false ]

unfoldable pub is_failed : TransferSession → Bool
is_failed ts = elim ts.status [ failed ↦ true | _ ↦ false ]

unfoldable pub is_canceled : TransferSession → Bool
is_canceled ts = elim ts.status [ canceled ↦ true | _ ↦ false ]

unfoldable pub mark_chunk_acked : ℕ → ℕ → TransferSession → TransferSession
mark_chunk_acked now chunk_index ts = record ts { last_update = now }

unfoldable pub mark_chunk_failed : ℕ → ℕ → TransferSession → TransferSession
mark_chunk_failed now chunk_index ts = record ts { last_update = now }
