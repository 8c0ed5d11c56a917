-- ===== src/File/Transfer.antt =====
-- The transfer loops: internal/file/transfer_helpers.go, and of internal/file/transmission.go the
-- functions that they call. A connection is the list of what its reads return, up to the time
-- limit of the last one: when the list is at its end, reading fails. So with the writes. The
-- clock of the session is fixed at the start of the call.
pub mod Sending
pub mod Receiving
pub mod Files
pub mod Offers
use t_chat.Base.{
  ℕ, zero, suc, ◌+◌, ◌-◌, ◌≡◌, Bool, true, false, Option, none, some, List, [], ◌∷◌, ◌++◌, Bytes,
  ltb, leb, eqb, bytes_eq, if◌then◌else◌,
}
use t_chat.File.Chunks.{Chunk, ChunkManager, Result, ok, err, panic, eof, next_chunk, verify_chunk}
use t_chat.File.Chunks
use t_chat.File.Window.{is_window_full, is_all_acked, add_chunk}
use t_chat.File.Session.{TransferSession, start, set_complete, set_failed, update_progress}
use t_chat.File.Protocol.{
  Json, ChunkAck, TransferComplete, message_type_ack, message_type_chunk, decode_message,
  encode_chunk, decode_chunk, encode_ack, decode_ack, encode_complete,
}
use t_chat.File.Receiver.{Receiver, receive_chunk}

-- `none` in `reads` is a read that fails; `written` is what has been sent, newest last.
pub record Conn : Type 0 where
  pub reads : List (Option Bytes)
  pub writes : List Bool
  pub written : List Bytes

pub data Error : Type 0 where
  io_failed bad_message wrong_type chunk_refused encode_failed crashed : Error
  chunk_error : Chunks.Error → Error

abbrev newline : Bytes
newline = 10 ∷ []

unfoldable pub conn_read : Conn → Conn × Option Bytes
conn_read c = elim c.reads [ [] ↦ (c, none) | r ∷ rs ↦ (record c { reads = rs }, r) ]

unfoldable pub conn_write : Bytes → Conn → Conn × Bool
conn_write bytes c = elim c.writes [
  | [] ↦ (c, false)
  | w ∷ ws ↦
      (record c { writes = ws; written = if w then c.written ++ (bytes ∷ []) else c.written }, w)
]

-- Encode, add a newline, write.
unfoldable pub send_encoded : Option Bytes → Conn → Conn × Option Error
unfolding conn_write
send_encoded none c = (c, some encode_failed)
send_encoded (some bytes) c =
    let (c', done) = conn_write (bytes ++ newline) c in (c', if done then none else some io_failed)

module _ (j : Json) where
  unfoldable pub send_chunk : Chunk → Conn → Conn × Option Error
  unfolding send_encoded encode_chunk
  send_chunk chunk = send_encoded (encode_chunk j chunk)

  unfoldable pub send_ack : ChunkAck → Conn → Conn × Option Error
  unfolding send_encoded encode_ack
  send_ack ack = send_encoded (encode_ack j ack)

  unfoldable pub send_transfer_complete : ℕ → Bytes → Conn → Conn × Option Error
  unfolding send_encoded encode_complete
  send_transfer_complete now file_id =
      send_encoded (encode_complete j (record { file_id = file_id; time = now }))

  -- `receiveAck` on what one read returned.
  unfoldable pub parse_ack : Option Bytes → Option ChunkAck
  unfolding decode_message decode_ack
  parse_ack none = none
  parse_ack (some message) = elim (decode_message message) [
    | none ↦ none
    | some (t, json) ↦ if bytes_eq t message_type_ack then decode_ack j json else none
  ]

  -- `waitForAck` on what one read returned: whether it returns no error.
  unfoldable pub is_good_ack : Option Bytes → Bool
  unfolding parse_ack
  is_good_ack r = elim (parse_ack r) [ none ↦ false | some ack ↦ ack.success ]

  -- The loop of `waitForWindowSpace` and the first one of `finalizeTransfer`: wait for one ack
  -- after another while the test says so. The window is not touched.
  unfoldable pub wait_while : Bool → List (Option Bytes) → List (Option Bytes) × Bool
  unfolding is_good_ack
  wait_while again [] = ([], if again then false else true)
  wait_while again (r ∷ rs) =
      let rest = wait_while again rs in
      if again then (if is_good_ack r then rest else (rs, false)) else (r ∷ rs, true)

  unfoldable pub wait_for_window_space : TransferSession → Conn → Conn × Bool
  unfolding wait_while
  wait_for_window_space s c =
      let (rs, done) = wait_while (is_window_full s.window) c.reads in
      (record c { reads = rs }, done)

  unfoldable pub wait_until_acked : TransferSession → Conn → Conn × Bool
  unfolding wait_while
  wait_until_acked s c =
      let (rs, done) = wait_while (if is_all_acked s.window then false else true) c.reads in
      (record c { reads = rs }, done)
