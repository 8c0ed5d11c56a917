-- ===== src/File/Transfer/Receiving.antt =====
-- `ReceiveChunksWithAck` of internal/file/transfer_helpers.go. What the disk does with a write is
-- a function of the number of chunks that are still to come.
pub mod Answers
pub mod Arrivals
use t_chat.Base.{
  ℕ, zero, suc, Bool, true, false, Option, none, some, List, [], ◌∷◌, Bytes, if◌then◌else◌,
  bytes_eq,
}
use t_chat.File.Chunks.{Chunk, verify_chunk}
use t_chat.File.Chunks
use t_chat.File.Protocol.{Json, ChunkAck, message_type_chunk, decode_message, decode_chunk}
use t_chat.File.Receiver.{Receiver, receive_chunk}
use t_chat.File.Transfer.{
  Conn, Error, io_failed, bad_message, wrong_type, chunk_error, conn_read, send_ack,
}

-- What the receiving loop works on.
pub record Inbox : Type 0 where
  pub receiver : Receiver
  pub conn : Conn

-- The messages of the acks: the check failed, saving failed, received.
abbrev pub check_failed : Bytes
check_failed =
    229 ∷ 136 ∷ 134 ∷ 231 ∷ 137 ∷ 135 ∷ 230 ∷ 160 ∷ 161 ∷ 233 ∷ 170 ∷ 140 ∷ 229 ∷ 164 ∷ 177 ∷ 232
    ∷ 180 ∷ 165 ∷ []

abbrev pub saving_failed : Bytes
saving_failed =
    228 ∷ 191 ∷ 157 ∷ 229 ∷ 173 ∷ 152 ∷ 229 ∷ 136 ∷ 134 ∷ 231 ∷ 137 ∷ 135 ∷ 229 ∷ 164 ∷ 177 ∷ 232
    ∷ 180 ∷ 165 ∷ []

abbrev pub received : Bytes
received =
    229 ∷ 136 ∷ 134 ∷ 231 ∷ 137 ∷ 135 ∷ 230 ∷ 142 ∷ 165 ∷ 230 ∷ 148 ∷ 182 ∷ 230 ∷ 136 ∷ 144 ∷ 229
    ∷ 138 ∷ 159 ∷ []

unfoldable pub answer : ℕ → Bool → Bytes → Chunk → ChunkAck
answer now success message chunk = record {
  file_id = [];
  chunk_index = chunk.index;
  success = success;
  message = message;
  timestamp = now;
}

-- `receiveChunk` on what one read returned.
unfoldable pub parse_chunk : Json → Option Bytes → Option Chunk
unfolding decode_message decode_chunk
parse_chunk j none = none
parse_chunk j (some message) = elim (decode_message message) [
  | none ↦ none
  | some (t, json) ↦ if bytes_eq t message_type_chunk then decode_chunk j json else none
]

module _ (sha256 : Bytes → Bytes) (j : Json) (now : ℕ) where
  -- `processReceivedChunk` when `ReceiveChunk` has returned.
  unfoldable pub after_saving : Chunk → Option Chunks.Error → Inbox → Inbox × Option Error
  unfolding answer send_ack
  after_saving chunk (some e) st =
      let (conn, ignored) = send_ack j (answer now false saving_failed chunk) st.conn in
      (record st { conn = conn }, some (chunk_error e))
  after_saving chunk none st =
      let (conn, e) = send_ack j (answer now true received chunk) st.conn in
      (record st { conn = conn }, e)

  unfoldable pub process_received_chunk : Bool → Chunk → Inbox → Inbox × Option Error
  unfolding after_saving
  process_received_chunk write_ok chunk st =
      if verify_chunk sha256 chunk
      then (let (receiver, e) = receive_chunk sha256 write_ok chunk st.receiver in
          after_saving chunk e (record st { receiver = receiver }))
      else (let (conn, e) = send_ack j (answer now false check_failed chunk) st.conn in
          (record st { conn = conn }, e))

  -- A round of the loop after the chunk is processed, and after it is read; `again` is the rest.
  unfoldable pub after_processing :
      (Inbox → Inbox × Option Error) → Option Error → Inbox → Inbox × Option Error
  after_processing again (some e) st = (st, some e)
  after_processing again none st = again st

  unfoldable pub after_reading :
      (Inbox → Inbox × Option Error) → Bool → Option Chunk → Inbox → Inbox × Option Error
  unfolding process_received_chunk after_processing
  after_reading again write_ok none st = (st, some bad_message)
  after_reading again write_ok (some chunk) st =
      let (st', e) = process_received_chunk write_ok chunk st in after_processing again e st'

  -- The loop, on `totalChunks - receivedChunks`.
  unfoldable pub receive_chunks_with_ack : (ℕ → Bool) → ℕ → Inbox → Inbox × Option Error
  unfolding conn_read parse_chunk after_reading
  receive_chunks_with_ack disk zero st = (st, none)
  receive_chunks_with_ack disk (suc left) st =
      let (conn, r) = conn_read st.conn in
      after_reading (receive_chunks_with_ack disk left) (disk left) (parse_chunk j r)
        (record st { conn = conn })
