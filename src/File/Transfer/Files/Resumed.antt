-- ===== src/File/Transfer/Files/Resumed.antt =====
-- `ReceiveFile` of internal/file/transmission.go on a file of which a part is there.
use mathlib.Core.List.{Memᴰ}
use t_chat.Base.{
  ℕ, ◌*◌, ◌/◌, ◌≤◌, ◌<◌, ◌≡◌, refl, ◌⊎◌, Bool, true, Option, none, some, List, [], ◌∷◌, ◌++◌, map,
  Bytes, length, replicate, All, get_elem?, bytes_eq,
}
use t_chat.File.Chunks.{Chunk}
use t_chat.File.Protocol.{ChunkAck, encode_message, decode_message}
use t_chat.File.Receiver.{Receiver}
use t_chat.File.Receiver.Order.{arrivals, receive_all_lem}
use t_chat.File.Transfer.{newline, conn_write, send_encoded}
use t_chat.File.Transfer.Receiving.Answers.{
  chunk_wire, ack_wire, ack_for, receive_chunks_with_ack_rounds,
}
use t_chat.File.Transfer.Files.{
  TransferRequest, TransferResponse, Outside, Place, Download, message_type_transfer_request,
  message_type_transfer_response, parse_request, decode_transfer_request, encode_transfer_response,
  send_response, take_chunks,
}

-- A file system on which everything works.
abbrev pub good_place : Bytes → Place
good_place save_path = record {
  save_path = save_path;
  can_stat = true;
  can_mkdir = true;
  can_open = true;
  writes_ok = λ i. true;
  can_read = true;
}

abbrev pub request_wire : Bytes → Bytes
request_wire json = (message_type_transfer_request ++ (b':' ∷ json)) ++ newline

abbrev pub response_wire : Bytes → Bytes
response_wire json = (message_type_transfer_response ++ (b':' ∷ json)) ++ newline

abbrev pub on : List (Option Bytes) → List Bool → List Bytes → Option Bytes → Download
on reads writes written saved = record {
  conn = record { reads = reads; writes = writes; written = written };
  saved = saved;
}

module _ (o : Outside) (now : ℕ) where
  pub parse_request_wire :
      (json : Bytes) (q : TransferRequest)
      → o.unmarshal_request (json ++ newline) ≡ some q
      → parse_request o (some (request_wire json)) ≡ some q
  unfolding parse_request decode_transfer_request decode_message bytes_eq
  parse_request_wire json q e = e

  pub send_response_lem :
      (response : TransferResponse) (json : Bytes) (reads : List (Option Bytes)) (ws : List Bool)
      (written : List Bytes) (saved : Option Bytes)
      → o.marshal_response response ≡ some json
      → send_response o response (on reads (true ∷ ws) written saved)
        ≡ (on reads ws (written ++ (response_wire json ∷ [])) saved, none)
  unfolding send_response encode_transfer_response encode_message send_encoded conn_write
  send_response_lem response json reads ws written saved e = rw e refl

  -- The chunks of a file, taken into a receiver that lacks no other bytes of it.
  pub take_chunks-arrivals :
      (json : Chunk → Bytes) (ack_json : ChunkAck → Bytes) (save_path : Bytes) (content : Bytes)
      (is : List ℕ) (r : Receiver) (written : List Bytes) (saved : Option Bytes)
      → ((a : ChunkAck) → o.json.marshal_ack a ≡ some (ack_json a))
      → All
          (λ c. o.json.unmarshal_chunk (json c ++ newline) ≡ some c)
          (arrivals o.sha256 content r.chunk_size is)
      → 0 < r.chunk_size
      → r.file_size ≡ length content
      → length r.file ≤ length content
      → All (λ i. i * r.chunk_size < length content) is
      → ((j : ℕ)
          → j < length content
          → Memᴰ (j / r.chunk_size) is ⊎ (get_elem? r.file j ≡ get_elem? content j))
      → take_chunks o now
          (good_place save_path)
          (length (arrivals o.sha256 content r.chunk_size is))
          r
          (on
            (map (λ c. some (chunk_wire json c)) (arrivals o.sha256 content r.chunk_size is))
            (replicate (length (arrivals o.sha256 content r.chunk_size is)) true)
            written
            saved)
        ≡ (
          on [] []
              (written
                ++ map
                    (λ c. ack_wire ack_json (ack_for o.sha256 now c))
                    (arrivals o.sha256 content r.chunk_size is))
              (some content),
          none,
        )
  unfolding take_chunks
  take_chunks-arrivals json ack_json save_path content is r written saved marshals brings_back pos
        whole short inside all =
      rw
        (
          receive_chunks_with_ack_rounds o.sha256 o.json now json ack_json marshals
              (arrivals o.sha256 content r.chunk_size is) r written brings_back,
          (receive_all_lem o.sha256 content r.chunk_size is r pos refl whole short inside all).0,
        )
        refl

-- The download of which a part is there, when the request and then chunks come in.
abbrev pub arriving :
    (o : Outside) → Bytes → (Chunk → Bytes) → Bytes → ℕ → List ℕ → Option Bytes → Download
arriving o request_json json content chunk_size is saved =
    on
      (some (request_wire request_json)
        ∷ map (λ c. some (chunk_wire json c)) (arrivals o.sha256 content chunk_size is))
      (true ∷ replicate (length (arrivals o.sha256 content chunk_size is)) true) [] saved
