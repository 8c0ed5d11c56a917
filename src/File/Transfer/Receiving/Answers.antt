-- ===== src/File/Transfer/Receiving/Answers.antt =====
-- The answers of `ReceiveChunksWithAck` (internal/file/transfer_helpers.go) to the chunks that
-- arrive.
use t_chat.Base.{
  ℕ, suc, ◌≡◌, refl, ap, sym, ◌∙◌, Bool, true, false, Option, none, some, List, [], ◌∷◌, ◌++◌, map,
  Bytes, if◌then◌else◌, length, replicate, All, append_assoc, append-nil, inl, inr, Bool-cases,
  bytes_eq,
}
use t_chat.File.Chunks.{Chunk, verify_chunk}
use t_chat.File.Protocol.{
  Json, ChunkAck, message_type_chunk, message_type_ack, decode_message, decode_chunk,
  encode_message, encode_ack,
}
use t_chat.File.Receiver.{Receiver, receive_chunk, write_chunk}
use t_chat.File.Receiver.Order.{receive_all}
use t_chat.File.Transfer.{Error, newline, send_ack, send_encoded, conn_write, conn_read}
use t_chat.File.Transfer.Receiving.{
  Inbox, answer, check_failed, received, parse_chunk, after_saving, after_reading,
  process_received_chunk, after_processing, receive_chunks_with_ack,
}

-- A chunk message on the wire, with the JSON of the chunk.
abbrev pub chunk_wire : (Chunk → Bytes) → Chunk → Bytes
chunk_wire json c = message_type_chunk ++ (b':' ∷ (json c ++ newline))

abbrev pub ack_wire : (ChunkAck → Bytes) → ChunkAck → Bytes
ack_wire json a = (message_type_ack ++ (b':' ∷ json a)) ++ newline

-- The ack for a chunk that the disk takes.
abbrev pub ack_for : (Bytes → Bytes) → ℕ → Chunk → ChunkAck
ack_for sha256 now c =
    let ok = verify_chunk sha256 c in
    record {
      file_id = [];
      chunk_index = c.index;
      success = ok;
      message = if ok then received else check_failed;
      timestamp = now;
    }

module _ (sha256 : Bytes → Bytes) (j : Json) (now : ℕ) (json : Chunk → Bytes)
    (ack_json : ChunkAck → Bytes)
    (marshals : (a : ChunkAck) → j.marshal_ack a ≡ some (ack_json a)) where
  parse_chunk_wire :
      (c : Chunk)
      → j.unmarshal_chunk (json c ++ newline) ≡ some c
      → parse_chunk j (some (chunk_wire json c)) ≡ some c
  unfolding parse_chunk decode_chunk decode_message bytes_eq
  parse_chunk_wire c e = e

  send_ack_lem :
      (a : ChunkAck) (reads : List (Option Bytes)) (ws : List Bool) (written : List Bytes)
      → send_ack j a (record { reads = reads; writes = true ∷ ws; written = written }) ≡ (
        record { reads = reads; writes = ws; written = written ++ (ack_wire ack_json a ∷ []) },
        none,
      )
  unfolding send_ack encode_ack encode_message send_encoded conn_write
  send_ack_lem a reads ws written = rw (marshals a) refl

  process_received_chunk_lem :
      (c : Chunk) (r : Receiver) (reads : List (Option Bytes)) (ws : List Bool)
      (written : List Bytes)
      → process_received_chunk sha256 j now true c (record {
        receiver = r;
        conn = record { reads = reads; writes = true ∷ ws; written = written };
      })
        ≡ (
          record {
            receiver = (receive_chunk sha256 true c r).0;
            conn = record {
              reads = reads;
              writes = ws;
              written = written ++ (ack_wire ack_json (ack_for sha256 now c) ∷ []);
            };
          },
          none,
        )
  unfolding process_received_chunk receive_chunk write_chunk after_saving answer
  process_received_chunk_lem c r reads ws written = elim (Bool-cases (verify_chunk sha256 c)) [
    | inl e ↦ rw (e, send_ack_lem (answer now true received c) reads ws written) refl
    | inr e ↦ rw (e, send_ack_lem (answer now false check_failed c) reads ws written) refl
  ]

  abbrev box : Receiver → List (Option Bytes) → List Bool → List Bytes → Inbox
  box r reads ws written = record {
    receiver = r;
    conn = record { reads = reads; writes = ws; written = written };
  }

  receive_step :
      (c : Chunk) (left : ℕ) (r : Receiver) (reads : List (Option Bytes)) (ws : List Bool)
      (written : List Bytes)
      → j.unmarshal_chunk (json c ++ newline) ≡ some c
      → receive_chunks_with_ack sha256 j now
          (λ i. true)
          (suc left)
          (box r (some (chunk_wire json c) ∷ reads) (true ∷ ws) written)
        ≡ receive_chunks_with_ack sha256 j now
            (λ i. true)
            left
            (box
              (receive_chunk sha256 true c r).0
              reads
              ws
              (written ++ (ack_wire ack_json (ack_for sha256 now c) ∷ [])))
  unfolding receive_chunks_with_ack conn_read after_reading after_processing
  receive_step c left r reads ws written e =
      rw (parse_chunk_wire c e, process_received_chunk_lem c r reads ws written) refl

  abbrev acks : List Chunk → List Bytes
  acks cs = map (λ c. ack_wire ack_json (ack_for sha256 now c)) cs

  rounds_end :
      (c : Chunk) (cs : List Chunk) (r : Receiver) (written : List Bytes)
      → ◌≡◌ {A = Inbox × Option Error}
          (
            box
                (receive_all sha256 cs (receive_chunk sha256 true c r).0)
                []
                []
                ((written ++ (ack_wire ack_json (ack_for sha256 now c) ∷ [])) ++ acks cs),
            none,
          )
          (box (receive_all sha256 (c ∷ cs) r) [] [] (written ++ acks (c ∷ cs)), none)
  unfolding receive_all
  rounds_end c cs r written =
      ap (λ w. (box (receive_all sha256 cs (receive_chunk sha256 true c r).0) [] [] w, none))
        (append_assoc written (ack_wire ack_json (ack_for sha256 now c) ∷ []) (acks cs))

  pub receive_chunks_with_ack_rounds :
      (cs : List Chunk) (r : Receiver) (written : List Bytes)
      → All (λ c. j.unmarshal_chunk (json c ++ newline) ≡ some c) cs
      → receive_chunks_with_ack sha256 j now
          (λ i. true)
          (length cs)
          (box r (map (λ c. some (chunk_wire json c)) cs) (replicate (length cs) true) written)
        ≡ (
          box
              (receive_all sha256 cs r)
              []
              []
              (written ++ map (λ c. ack_wire ack_json (ack_for sha256 now c)) cs),
          none,
        )
  receive_chunks_with_ack_rounds [] r written h =
      unfold receive_chunks_with_ack receive_all in
      ap (λ w. (box r [] [] w, none)) (sym (append-nil written))
  receive_chunks_with_ack_rounds (c ∷ cs) r written h =
      receive_step c (length cs) r (map (λ c. some (chunk_wire json c)) cs)
        (replicate (length cs) true) written h.0
      ∙ receive_chunks_with_ack_rounds cs (receive_chunk sha256 true c r).0
          (written ++ (ack_wire ack_json (ack_for sha256 now c) ∷ [])) h.1
      ∙ rounds_end c cs r written
