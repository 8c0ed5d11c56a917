-- ===== src/Examples/Transfer.antt =====
-- Sending a file and receiving one: internal/file/transfer_helpers.go.
use t_chat.Base.{true, Option, none, some, [], ◌∷◌, Bytes, take, eqb, if◌then◌else◌}
use t_chat.File.Chunks.{Chunk}
use t_chat.File.Chunks.Split.{chunk_at}
use t_chat.File.Session.{new_transfer_session}
use t_chat.File.Protocol.{Json, ChunkAck}
use t_chat.File.Receiver.{Receiver}
use t_chat.File.Transfer.Sending.{Sender}
use t_chat.File.Transfer.Receiving.Answers.{ack_wire, ack_for}

abbrev pub checksum : Bytes → Bytes
checksum xs = take 2 xs

abbrev pub photo : Bytes
photo = 1 ∷ 2 ∷ 3 ∷ 4 ∷ 5 ∷ []

-- A chunk, and one whose bytes were damaged on the way.
abbrev good : Chunk
good = chunk_at checksum photo 2 1

abbrev damaged : Chunk
damaged = record good { chunk_data = 7 ∷ [] }

-- A format for these two chunks, by the first byte of their data, and one for acks.
abbrev chunk_json : Chunk → Bytes
chunk_json c = take 1 c.chunk_data

abbrev parse : Bytes → Option Chunk
parse [] = none
parse (b ∷ rest) = if eqb b 3 then some good else some damaged

abbrev pub ack_json : ChunkAck → Bytes
ack_json a = a.chunk_index ∷ a.message

abbrev json : Json
json = record {
  marshal_chunk = λ c. some (chunk_json c);
  unmarshal_chunk = parse;
  marshal_ack = λ a. some (ack_json a);
  unmarshal_ack = λ b.
      some (record { file_id = []; chunk_index = 0; success = true; message = b; timestamp = 0 });
  marshal_complete = λ c. some [];
}

abbrev receiver : Receiver
receiver = record { file_id = []; file_size = 5; chunk_size = 2; resume_point = 0; file = [] }

abbrev sender : Sender
sender = record {
  manager = record {
    file_id = [];
    chunk_size = 2;
    total_chunks = 1;
    current_chunk = 0;
    file = record { can_open = true; can_stat = true; content = 1 ∷ []; reads_ok = λ offset. true };
  };
  session = new_transfer_session 0 [] 10;
  conn = record {
    reads = some (ack_wire ack_json (ack_for checksum 8 good)) ∷ [];
    writes = true ∷ true ∷ [];
    written = [];
  };
}

-- Acks as before, and of a chunk only its number.
abbrev numbered : Bytes → Option Chunk
numbered [] = none
numbered (i ∷ rest) = some (chunk_at checksum photo 2 i)

abbrev pub number_json : Chunk → Bytes
number_json c = c.index ∷ []

abbrev pub by_number : Json
by_number = record json { unmarshal_chunk = numbered }
