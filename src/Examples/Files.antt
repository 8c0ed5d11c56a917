-- ===== src/Examples/Files.antt =====
-- A file that arrives whole, one of which a part is there, and one that is not checked:
-- internal/file/transmission.go.
use t_chat.Base.{
  ◌<◌, ◌≡◌, refl, true, none, some, [], ◌∷◌, ◌++◌, map, Bytes, arith, bytes_eq, subst,
}
use t_chat.File.Chunks.{Source}
use t_chat.File.Protocol.{decode_message}
use t_chat.File.Transfer.Offers.{
  OutsideSend, Upload, OfferError, calculate_adaptive_chunk_size, parse_response, send_file,
}
use t_chat.File.Transfer.Offers.Unfinished.{send_file-Failing}
use t_chat.File.Receiver.Order.{arrivals}
use t_chat.File.Transfer.{conn_read}
use t_chat.File.Transfer.Receiving.Answers.{ack_wire, ack_for}
use t_chat.File.Transfer.Files.{
  TransferRequest, TransferResponse, Outside, Download, transfer_response, receive_file,
}
use t_chat.File.Transfer.Files.Checked.{receive_file-unchecked}
use t_chat.File.Transfer.Files.Resumed.{good_place, request_wire, response_wire, on}
use t_chat.Examples.Transfer.{checksum, photo, ack_json, by_number}

abbrev photo_request : TransferRequest
photo_request = record {
  file_id = 7 ∷ [];
  file_name = 8 ∷ [];
  file_size = 5;
  chunk_size = 2;
  chunk_count = 3;
  checksum = 1 ∷ 2 ∷ [];
  encrypted = true;
  public_key = [];
  request_time = 4;
  resume_point = 0;
}

abbrev response_json : TransferResponse → Bytes
response_json r = r.resume_point ∷ []

abbrev outside : Outside
outside = record {
  sha256 = checksum;
  hex = λ b. b;
  json = by_number;
  unmarshal_request = λ b. some photo_request;
  marshal_response = λ r. some (response_json r);
  accepted_text = [];
  resumed_text = λ n. [];
}

-- The first three bytes are there.
abbrev part : Bytes
part = 1 ∷ 2 ∷ 3 ∷ []

-- Another file, as long as the one that is asked for.
abbrev other : Bytes
other = 9 ∷ 9 ∷ 9 ∷ 9 ∷ 9 ∷ 9 ∷ []

receive_file-unchecked_example :
    receive_file outside 9
      (good_place [])
      (on (some (request_wire []) ∷ []) (true ∷ []) [] (some other))
    ≡ (on [] [] (response_wire (3 ∷ []) ∷ []) (some other), none)
unfolding transfer_response
receive_file-unchecked_example =
    receive_file-unchecked outside 9 [] [] response_json photo_request other [] [] refl (λ r. refl)
      (omega arith) (omega arith)

abbrev done : Download
done =
    on [] []
      ((response_wire (0 ∷ []) ∷ [])
        ++ map (λ c. ack_wire ack_json (ack_for checksum 9 c))
            (arrivals checksum photo 2 (1 ∷ 2 ∷ 0 ∷ [])))
      (some photo)

-- An offer of the photo that is accepted.
abbrev accepted : TransferResponse
accepted = record {
  file_id = 7 ∷ [];
  accepted = true;
  message = [];
  chunk_size = 12288;
  save_path = [];
  response_time = 4;
  resume_point = 0;
}

abbrev outside_send : OutsideSend
outside_send = record { marshal_request = λ q. some []; unmarshal_response = λ b. some accepted }

abbrev offering : Upload
offering = record {
  conn = record {
    reads = some (response_wire (0 ∷ [])) ∷ [];
    writes = true ∷ true ∷ [];
    written = [];
  };
  manager = record { sessions = [] };
}

abbrev photo_file : Source
photo_file = record { can_open = true; can_stat = true; content = photo; reads_ok = λ offset. true }

send_file-Failing_example :
    (u : Upload) × (e : OfferError) × (send_file outside outside_send 9
        (7 ∷ [])
        (8 ∷ [])
        photo_file
        true
        4096
        offering
      ≡ some (u, some e))
unfolding parse_response conn_read decode_message bytes_eq calculate_adaptive_chunk_size
send_file-Failing_example =
    send_file-Failing outside outside_send 9 (7 ∷ []) (8 ∷ []) photo_file true 4096 offering (λ r e.
      let same : some accepted ≡ some r = e in
      let point : accepted ≡ r = cc in
      subst (λ (x : TransferResponse). x.resume_point < 1) point (omega arith))
