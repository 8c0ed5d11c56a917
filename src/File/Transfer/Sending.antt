-- ===== src/File/Transfer/Sending.antt =====
-- `SendChunksWithWindow` of internal/file/transfer_helpers.go.
pub mod Acks
use t_chat.Base.{ℕ, zero, suc, ◌-◌, Bool, true, false, Option, none, some, Bytes, if◌then◌else◌}
use t_chat.File.Chunks.{Chunk, ChunkManager, Result, ok, err, panic, eof, next_chunk}
use t_chat.File.Window.{add_chunk}
use t_chat.File.Session.{TransferSession, start, set_complete, set_failed, update_progress}
use t_chat.File.Protocol.{Json}
use t_chat.File.Transfer.{
  Conn, Error, io_failed, chunk_error, crashed, send_chunk, send_transfer_complete,
  wait_for_window_space, wait_until_acked,
}

-- What the sending loop works on.
pub record Sender : Type 0 where
  pub manager : ChunkManager
  pub session : TransferSession
  pub conn : Conn

pub data Sent : Type 0 where
  more finished : Sent
  send_error : Error → Sent

module _ (j : Json) (now : ℕ) where
  -- `sendNextChunk` when the write of the chunk has returned.
  unfoldable pub sent_chunk : Chunk → Sender → Conn → Option Error → Sender × Sent
  sent_chunk chunk st conn (some x) = (record st { conn = conn }, send_error x)
  sent_chunk chunk st conn none = (
    record st {
      session = record (st.session) { window = add_chunk chunk st.session.window };
      conn = conn;
    },
    more,
  )

  -- `sendNextChunk` when the chunk has been read.
  unfoldable pub send_read_chunk : Sender → Result Chunk → Sender × Sent
  unfolding sent_chunk
  send_read_chunk st (err eof) = (st, finished)
  send_read_chunk st (err e) = (st, send_error (chunk_error e))
  send_read_chunk st panic = (st, send_error crashed)
  send_read_chunk st (ok chunk) =
      let (conn, e) = send_chunk j chunk st.conn in sent_chunk chunk st conn e

  unfoldable pub update_transfer_progress : Sender → Sender
  update_transfer_progress st = record st {
    session = update_progress now st.manager.current_chunk st.manager.total_chunks st.session;
  }

  unfoldable pub handle_transfer_error : Error → Sender → Sender × Option Error
  handle_transfer_error e st = (record st { session = set_failed now st.session }, some e)

  -- `finalizeTransfer` when the completion has been written.
  unfoldable pub sent_complete : Option Error → Sender → Sender × Option Error
  unfolding handle_transfer_error
  sent_complete (some x) st = handle_transfer_error x st
  sent_complete none st = (record st { session = set_complete now st.session }, none)

  -- `finalizeTransfer` when the wait for the acks has ended.
  unfoldable pub after_acks : Bool → Sender → Sender × Option Error
  unfolding sent_complete
  after_acks false st = handle_transfer_error io_failed st
  after_acks true st =
      let (conn, e) = send_transfer_complete j now st.manager.file_id st.conn in
      sent_complete e (record st { conn = conn })

  unfoldable pub finalize_transfer : Sender → Sender × Option Error
  unfolding after_acks
  finalize_transfer st =
      let (conn, acked) = wait_until_acked j st.session st.conn in
      after_acks acked (record st { conn = conn })

module _ (sha256 : Bytes → Bytes) (j : Json) (now : ℕ) where
  unfoldable pub send_next_chunk : Sender → Sender × Sent
  unfolding send_read_chunk
  send_next_chunk st =
      let (manager, r) = next_chunk sha256 st.manager in
      send_read_chunk j now (record st { manager = manager }) r

  -- A round of the `for` loop after the chunk has been sent, and after the wait for space in the
  -- window; `again` is the rest of the loop.
  unfoldable pub after_round :
      (Sender → Option (Sender × Option Error)) → Sent → Sender → Option (Sender × Option Error)
  unfolding finalize_transfer handle_transfer_error update_transfer_progress
  after_round again (send_error e) st = some (handle_transfer_error j now e st)
  after_round again finished st = some (finalize_transfer j now st)
  after_round again more st = again (update_transfer_progress j now st)

  unfoldable pub send_round :
      (Sender → Option (Sender × Option Error)) → Bool → Sender → Option (Sender × Option Error)
  unfolding after_round send_next_chunk
  send_round again false st = some (handle_transfer_error j now io_failed st)
  send_round again true st = let (st', sent) = send_next_chunk st in after_round again sent st'

  -- The `for` loop with fuel, `none` if it runs out.
  unfoldable pub send_loop : ℕ → Sender → Option (Sender × Option Error)
  unfolding send_round
  send_loop zero st = none
  send_loop (suc fuel) st =
      let (conn, space) = wait_for_window_space j st.session st.conn in
      send_round (send_loop fuel) space (record st { conn = conn })

  -- One round for each chunk that is left, and one for the end of the file.
  unfoldable pub send_chunks_with_window : Sender → Option (Sender × Option Error)
  unfolding send_loop
  send_chunks_with_window st =
      send_loop (suc (st.manager.total_chunks - st.manager.current_chunk))
        (record st { session = start now st.session })
