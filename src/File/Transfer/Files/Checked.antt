-- ===== src/File/Transfer/Files/Checked.antt =====
-- What `ReceiveFile` of internal/file/transmission.go checks of a file when it is whole.
use t_chat.Base.{
  ℕ, ◌-◌, ◌/◌, ◌≤◌, ◌<◌, ◌≡◌, refl, Bool, true, false, Option, none, some, List, [], ◌∷◌, ◌++◌,
  Bytes, length, arith, eqb, bytes_comparable,
}
use t_chat.File.Receiver.{new_receiver, receiver_set_resume_point}
use t_chat.File.Transfer.{newline, conn_read}
use t_chat.File.Transfer.Receiving.{receive_chunks_with_ack}
use t_chat.File.Transfer.Files.{
  TransferRequest, TransferResponse, Outside, Download, transfer_response, take_chunks, resume_from,
  handle_resume_transfer, receive_file,
}
use t_chat.File.Transfer.Files.Resumed.{
  good_place, request_wire, response_wire, on, parse_request_wire, send_response_lem,
}

-- The file is there and has the checksum that was asked for.
abbrev pub IsChecked : Outside → TransferRequest → Download → Type 0
IsChecked o q d =
    (content : Bytes) × (d.saved ≡ some content) × (o.hex (o.sha256 content) ≡ q.checksum)

-- When a file is there with as many whole chunks as the request has, ReceiveFile ends without an
-- error and leaves the file as it is, whatever the checksum of the request is.
pub receive_file-unchecked :
    (o : Outside) (now : ℕ) (save_path request_json : Bytes)
    (response_json : TransferResponse → Bytes) (q : TransferRequest) (existing : Bytes)
    (reads : List (Option Bytes)) (ws : List Bool)
    → o.unmarshal_request (request_json ++ newline) ≡ some q
    → ((r : TransferResponse) → o.marshal_response r ≡ some (response_json r))
    → 0 < q.chunk_size
    → q.chunk_count ≤ length existing / q.chunk_size
    → receive_file o now
        (good_place save_path)
        (on (some (request_wire request_json) ∷ reads) (true ∷ ws) [] (some existing))
      ≡ (
        on reads ws
            (response_wire (
                response_json (
                  transfer_response now
                    (good_place save_path)
                    q
                    (o.resumed_text (length existing / q.chunk_size))
                    (length existing / q.chunk_size)))
              ∷ [])
            (some existing),
        none,
      )
unfolding receive_file handle_resume_transfer resume_from take_chunks receive_chunks_with_ack
    new_receiver receiver_set_resume_point conn_read
receive_file-unchecked o now save_path request_json response_json q existing reads ws request
      marshals_response pos enough =
    rw
      (
        parse_request_wire o now request_json q request,
        nonzero,
        send_response_lem o now reply (response_json reply) reads ws [] (some existing)
            (marshals_response reply),
        nothing_left,
        receive_file,
        handle_resume_transfer,
      )
      refl
  where
    reply : TransferResponse
    reply =
        transfer_response now (good_place save_path) q
          (o.resumed_text (length existing / q.chunk_size)) (length existing / q.chunk_size)

    nonzero : eqb q.chunk_size 0 ≡ false
    nonzero = ground arith

    nothing_left : q.chunk_count - length existing / q.chunk_size ≡ 0
    nothing_left = omega arith
