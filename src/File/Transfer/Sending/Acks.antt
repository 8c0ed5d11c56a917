-- ===== src/File/Transfer/Sending/Acks.antt =====
-- The acks in `SendChunksWithWindow` of internal/file/transfer_helpers.go: `waitForAck` reads
-- them, but nothing calls `MarkAcked`.
use t_chat.Base.{
  ℕ, zero, suc, ◌-◌, ◌≤◌, ◌<◌, ◌≡◌, ◌⊎◌, inl, inr, refl, Bool, true, false, Option, none, some,
  List, [], ◌∷◌, Bytes, arith, eqb, store, GoMap, nat_comparable, length, leb→le,
}
use t_chat.File.Chunks.{Chunk, ChunkManager, Result, ok, err, panic, eof, next_chunk}
use t_chat.File.Window.{add_chunk, is_all_acked}
use t_chat.File.Session.{failed, start, set_failed, update_progress}
use t_chat.File.Protocol.{Json}
use t_chat.File.Transfer.{
  Conn, Error, send_chunk, wait_for_window_space, wait_until_acked, wait_while,
}
use t_chat.File.Transfer.Sending.{
  Sender, sent_chunk, send_read_chunk, after_round, send_round, send_loop, send_next_chunk,
  send_chunks_with_window, finalize_transfer, update_transfer_progress, handle_transfer_error, Sent,
  more, finished, send_error,
}

-- The call returns an error, and the session is marked as failed.
abbrev pub Fails : Option (Sender × Option Error) → Type 0
Fails none = ⊥
Fails (some (st, none)) = ⊥
Fails (some (st, some e)) = st.session.status ≡ failed

wait_while-true : (j : Json) (rs : List (Option Bytes)) → (wait_while j true rs).1 ≡ false
unfolding wait_while
wait_while-true j [] = refl
wait_while-true j (r ∷ rs) = ground (arith, wait_while-true j rs)

store-ne-nil : (c : Chunk) (m : GoMap ℕ Chunk) → eqb (length (store c.index c m)) 0 ≡ false
unfolding store
store-ne-nil c [] = ground arith
store-ne-nil c ((k, v) ∷ m) = ground arith

-- Something is waiting for its ack, or is still to be sent.
abbrev IsUnacked : Sender → Type 0
IsUnacked st =
    (is_all_acked st.session.window ≡ false) ⊎ (st.manager.current_chunk < st.manager.total_chunks)

module _ (j : Json) (now : ℕ) where
  finalize_transfer-Fails :
      (st : Sender)
      → is_all_acked st.session.window ≡ false
      → Fails (some (finalize_transfer j now st))
  unfolding finalize_transfer wait_until_acked handle_transfer_error set_failed
  finalize_transfer-Fails st h = rw (h, wait_while-true j st.conn.reads) refl

-- What one round does: it fails, or finds the end of the file, or leaves a chunk in the window.
abbrev Round : Sender → Sender → Sent → Type 0
Round st st' (send_error e) = Unit
Round st st' finished =
    (st.manager.total_chunks ≤ st.manager.current_chunk) × (st'.session ≡ st.session)
Round st st' more =
    (st.manager.current_chunk < st.manager.total_chunks)
    × (st'.manager.current_chunk ≡ suc st.manager.current_chunk)
    × (st'.manager.total_chunks ≡ st.manager.total_chunks)
    × (is_all_acked st'.session.window ≡ false)

-- What one read of the file does.
abbrev Read : ChunkManager → ChunkManager → Result Chunk → Type 0
Read m m' panic = Unit
Read m m' (err eof) = m.total_chunks ≤ m.current_chunk
Read m m' (err e) = Unit
Read m m' (ok chunk) =
    (m.current_chunk < m.total_chunks)
    × (m'.current_chunk ≡ suc m.current_chunk)
    × (m'.total_chunks ≡ m.total_chunks)

next_chunk-Read :
    (sha256 : Bytes → Bytes)
    → (m : ChunkManager) → Read m (next_chunk sha256 m).0 (next_chunk sha256 m).1
unfolding next_chunk
next_chunk-Read sha256 m = ground (arith, leb→le m.total_chunks m.current_chunk)

module _ (j : Json) (now : ℕ) where
  sent_chunk-Round :
      (chunk : Chunk)
      → (st st' : Sender) → (conn : Conn) → (e : Option Error)
      → Read st.manager st'.manager (ok chunk)
      → Round st (sent_chunk j now chunk st' conn e).0 (sent_chunk j now chunk st' conn e).1
  unfolding sent_chunk add_chunk is_all_acked
  sent_chunk-Round chunk st st' conn (some x) h = tt
  sent_chunk-Round chunk st st' conn none h =
      (h.0, h.1, h.2, store-ne-nil chunk st'.session.window.sent_chunks)

  send_read_chunk-Round :
      (st st' : Sender)
      → (r : Result Chunk) → st'.session ≡ st.session
      → Read st.manager st'.manager r
      → Round st (send_read_chunk j now st' r).0 (send_read_chunk j now st' r).1
  unfolding send_read_chunk
  send_read_chunk-Round st st' (ok chunk) e h =
      sent_chunk-Round chunk st st' (send_chunk j chunk st'.conn).0 (send_chunk j chunk st'.conn).1
        h
  send_read_chunk-Round st st' panic e h = tt
  send_read_chunk-Round st st' (err eof) e h = (h, e)
  send_read_chunk-Round st st' (err x) e h = tt

module _ (sha256 : Bytes → Bytes) (j : Json) (now : ℕ) where
  send_next_chunk-Round :
      (st : Sender)
      → Round st (send_next_chunk sha256 j now st).0 (send_next_chunk sha256 j now st).1
  unfolding send_next_chunk
  send_next_chunk-Round st =
      send_read_chunk-Round j now st (record st { manager = (next_chunk sha256 st.manager).0 })
        (next_chunk sha256 st.manager).1 refl (next_chunk-Read sha256 st.manager)

  after_round-Fails :
      (again : Sender → Option (Sender × Option Error))
      → (st st' : Sender) → (sent : Sent) → IsUnacked st
      → Round st st' sent
      → ((u : Sender)
          → IsUnacked u
          → u.manager.total_chunks - u.manager.current_chunk
            < st.manager.total_chunks - st.manager.current_chunk
          → Fails (again u))
      → Fails (after_round sha256 j now again sent st')
  unfolding after_round handle_transfer_error set_failed update_transfer_progress update_progress
  after_round-Fails again st st' (send_error e) h r f = refl
  after_round-Fails again st st' finished (inl h) r f =
      finalize_transfer-Fails j now st' (rw (r.1) h)
  after_round-Fails again st st' finished (inr h) r f = ground arith
  after_round-Fails again st st' more h r f = f _ (inl r.3) (rw (r.1, r.2) (omega (arith, r.0)))

  send_round-Fails :
      (again : Sender → Option (Sender × Option Error))
      → (space : Bool) → (st : Sender) → IsUnacked st
      → ((u : Sender)
          → IsUnacked u
          → u.manager.total_chunks - u.manager.current_chunk
            < st.manager.total_chunks - st.manager.current_chunk
          → Fails (again u))
      → Fails (send_round sha256 j now again space st)
  unfolding send_round handle_transfer_error set_failed
  send_round-Fails again false st h f = refl
  send_round-Fails again true st h f = after_round-Fails again st _ _ h (send_next_chunk-Round st) f

  send_loop-Fails :
      (fuel : ℕ)
      → (st : Sender) → st.manager.total_chunks - st.manager.current_chunk < fuel
      → IsUnacked st
      → Fails (send_loop sha256 j now fuel st)
  unfolding send_loop wait_for_window_space
  send_loop-Fails zero st k h = omega arith
  send_loop-Fails (suc fuel) st k h =
      send_round-Fails (send_loop sha256 j now fuel) _ _ h
        (λ u hu less. send_loop-Fails fuel u (omega (arith, k, less)) hu)

  -- When the file has chunks left, sending them ends with an error and the session marked as
  -- failed, whatever finite sequence of acks arrives.
  pub send_chunks_with_window-Fails :
      (st : Sender)
      → st.manager.current_chunk < st.manager.total_chunks
      → Fails (send_chunks_with_window sha256 j now st)
  unfolding send_chunks_with_window start
  send_chunks_with_window-Fails st h =
      send_loop-Fails (suc (st.manager.total_chunks - st.manager.current_chunk)) _ (omega arith)
        (inr h)
