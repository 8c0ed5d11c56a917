-- ===== src/File/Transfer/Offers.antt =====
-- Sending a whole file: `SendFile` of internal/file/transmission.go with what it calls, and the table
-- of sessions. The id of the file, which depends on the clock, and its base name are arguments.
pub mod Unfinished
use t_chat.Base.{
  ℕ, ◌+◌, ◌-◌, ◌*◌, ◌/◌, Bool, true, false, Option, none, some, List, [], ◌∷◌, Bytes,
  bytes_comparable, length, ltb, bytes_eq, if◌then◌else◌, GoMap, lookup, store, modify, map,
}
use t_chat.File.Chunks.{Source, ChunkManager, new_chunk_manager, set_resume_point}
use t_chat.File.Protocol.{encode_message, decode_message}
use t_chat.File.Session.{TransferSession, new_transfer_session, set_canceled}
use t_chat.File.Transfer.{Conn, Error, conn_read, send_encoded}
use t_chat.File.Transfer
use t_chat.File.Transfer.Sending.{Sender, send_chunks_with_window}
use t_chat.File.Transfer.Files.{
  TransferRequest, TransferResponse, Outside, message_type_transfer_request,
  message_type_transfer_response, calculate_checksum,
}

-- JSON of the other direction.
pub record OutsideSend : Type 0 where
  pub marshal_request : TransferRequest → Option Bytes
  pub unmarshal_response : Bytes → Option TransferResponse

pub record TransmissionManager : Type 0 where
  pub sessions : GoMap Bytes TransferSession

pub data OfferError : Type 0 where
  open_failed stat_failed checksum_failed request_failed response_failed rejected panicked :
      OfferError
  transfer_failed : Error → OfferError

-- The connection and the sessions.
pub record Upload : Type 0 where
  pub conn : Conn
  pub manager : TransmissionManager

-- The base chunk size is not used.
unfoldable pub calculate_adaptive_chunk_size : ℕ → ℕ → ℕ
calculate_adaptive_chunk_size file_size base_chunk_size =
    if ltb file_size (1024 * 1024)
    then 12 * 1024
    else if ltb file_size (100 * 1024 * 1024)
    then 15 * 1024
    else 17 * 1024

unfoldable pub check_resume_point : Bytes → ℕ
check_resume_point file_id = 0

unfoldable pub get_session : Bytes → TransmissionManager → Option TransferSession
get_session file_id tm = lookup file_id tm.sessions

-- Whether it returns no error.
unfoldable pub cancel_session : ℕ → Bytes → TransmissionManager → TransmissionManager × Bool
cancel_session now file_id tm = elim (lookup file_id tm.sessions) [
  | none ↦ (tm, false)
  | some s ↦ (record tm { sessions = modify file_id (set_canceled now) tm.sessions }, true)
]

unfoldable pub list_sessions : TransmissionManager → List Bytes
list_sessions tm = map (λ kv. kv.0) tm.sessions

module _ (o : Outside) (js : OutsideSend) (now : ℕ) where
  unfoldable pub send_request : TransferRequest → Conn → Conn × Option Error
  unfolding send_encoded encode_message
  send_request q c =
      send_encoded (encode_message message_type_transfer_request (js.marshal_request q)) c

  -- `receiveResponse` on what one read returned.
  unfoldable pub parse_response : Option Bytes → Option TransferResponse
  unfolding decode_message
  parse_response none = none
  parse_response (some message) = elim (decode_message message) [
    | none ↦ none
    | some (t, json) ↦
        if bytes_eq t message_type_transfer_response then js.unmarshal_response json else none
  ]

  -- The session is put into the table, and the loop works on it there.
  unfoldable pub transfer_chunks :
      Bytes → Option ChunkManager → Upload → Option (Upload × Option OfferError)
  unfolding send_chunks_with_window
  transfer_chunks file_id none u = some (u, some panicked)
  transfer_chunks file_id (some manager) u =
      elim (send_chunks_with_window o.sha256 o.json now (record {
        manager = manager;
        session = new_transfer_session now file_id 10;
        conn = u.conn;
      })) [
        | none ↦ none
        | some (st, e) ↦ some (
          record {
            conn = st.conn;
            manager = record (u.manager) { sessions = store file_id st.session u.manager.sessions };
          },
          elim e [ none ↦ none | some e ↦ some (transfer_failed e) ],
        )
      ]

  -- After the response.
  unfoldable pub after_response :
      Bytes
      → Source
      → ℕ
      → ℕ
      → Option TransferResponse
      → Upload
      → Option (Upload × Option OfferError)
  unfolding transfer_chunks new_chunk_manager set_resume_point
  after_response file_id source chunk_size total none u = some (u, some response_failed)
  after_response file_id source chunk_size total (some r) u =
      let manager = new_chunk_manager file_id source chunk_size total in
      if r.accepted
      then transfer_chunks file_id
          (elim manager [
            | none ↦ none
            | some m ↦ some (if ltb 0 r.resume_point then set_resume_point r.resume_point m else m)
          ])
          u
      else some (u, some rejected)

  unfoldable pub offer_request : Bytes → Bytes → Source → ℕ → Bytes → TransferRequest
  unfolding check_resume_point
  offer_request file_id file_name source chunk_size checksum = record {
    file_id = file_id;
    file_name = file_name;
    file_size = length source.content;
    chunk_size = chunk_size;
    chunk_count = (length source.content + chunk_size - 1) / chunk_size;
    checksum = checksum;
    encrypted = true;
    public_key = [];
    request_time = now;
    resume_point = check_resume_point file_id;
  }

  unfoldable pub after_request :
      Bytes
      → Source
      → TransferRequest
      → Conn × Option Error
      → Upload
      → Option (Upload × Option OfferError)
  unfolding after_response conn_read parse_response
  after_request file_id source q (c, some e) u = some (record u { conn = c }, some request_failed)
  after_request file_id source q (c, none) u =
      let (c', r) = conn_read c in
      after_response file_id source q.chunk_size q.chunk_count (parse_response r)
        (record u { conn = c' })

  -- `SendFile`; `can_hash` is whether the reads of the checksum work. `none` if the fuel of the loop
  -- runs out.
  unfoldable pub send_file :
      Bytes → Bytes → Source → Bool → ℕ → Upload → Option (Upload × Option OfferError)
  unfolding offer_request send_request after_request calculate_checksum
  send_file file_id file_name source can_hash base_chunk_size u =
      let chunk_size = calculate_adaptive_chunk_size (length source.content) base_chunk_size in
      if source.can_open
      then if source.can_stat
        then elim (calculate_checksum o can_hash source.content) [
          | none ↦ some (u, some checksum_failed)
          | some checksum ↦
              let q = offer_request file_id file_name source chunk_size checksum in
              after_request file_id source q (send_request q u.conn) u
        ]
        else some (u, some stat_failed)
      else some (u, some open_failed)
