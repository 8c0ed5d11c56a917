-- ===== src/File/Transfer/Files.antt =====
-- Receiving a whole file: `ReceiveFile` of internal/file/transmission.go with what it calls, and the
-- request and the response of internal/file/protocol.go. What the file system does with the path is a
-- record; JSON, SHA-256, hex and the texts that fmt formats are functions.
pub mod Checked
pub mod Resumed
pub mod Fresh
use t_chat.Base.{
  ℕ, zero, suc, ◌-◌, ◌/◌, Bool, true, false, Option, none, some, List, [], ◌∷◌, ◌++◌, Bytes, length,
  eqb, bytes_eq, if◌then◌else◌,
}
use t_chat.File.Chunks.{verify_chunk}
use t_chat.File.Protocol.{message_type_ack, encode_message, decode_message}
use t_chat.File.Protocol
use t_chat.File.Receiver.{Receiver, new_receiver, receiver_set_resume_point}
use t_chat.File.Transfer.{Conn, Error, conn_read, send_encoded, send_ack}
use t_chat.File.Transfer
use t_chat.File.Transfer.Receiving.{answer, check_failed, parse_chunk, receive_chunks_with_ack}

pub record TransferRequest : Type 0 where
  pub file_id : Bytes
  pub file_name : Bytes
  pub file_size : ℕ
  pub chunk_size : ℕ
  pub chunk_count : ℕ
  pub checksum : Bytes
  pub encrypted : Bool
  pub public_key : Bytes
  pub request_time : ℕ
  pub resume_point : ℕ

pub record TransferResponse : Type 0 where
  pub file_id : Bytes
  pub accepted : Bool
  pub message : Bytes
  pub chunk_size : ℕ
  pub save_path : Bytes
  pub response_time : ℕ
  pub resume_point : ℕ

-- "file_request"; the type of a response is that of an ack.
abbrev pub message_type_transfer_request : Bytes
message_type_transfer_request =
    b'f' ∷ b'i' ∷ b'l' ∷ b'e' ∷ b'_' ∷ b'r' ∷ b'e' ∷ b'q' ∷ b'u' ∷ b'e' ∷ b's' ∷ b't' ∷ []

abbrev pub message_type_transfer_response : Bytes
message_type_transfer_response = message_type_ack

-- The rest of JSON, and what else the standard library does.
pub record Outside : Type 0 where
  pub sha256 : Bytes → Bytes
  pub hex : Bytes → Bytes
  pub json : Protocol.Json
  pub unmarshal_request : Bytes → Option TransferRequest
  pub marshal_response : TransferResponse → Option Bytes
  pub accepted_text : Bytes
  pub resumed_text : ℕ → Bytes

-- What the file system does: the second `os.Stat`, `os.MkdirAll`, `os.OpenFile`, the writes, and the
-- reading of the whole file.
pub record Place : Type 0 where
  pub save_path : Bytes
  pub can_stat : Bool
  pub can_mkdir : Bool
  pub can_open : Bool
  pub writes_ok : ℕ → Bool
  pub can_read : Bool

pub data FileError : Type 0 where
  request_failed stat_failed mkdir_failed response_failed open_failed read_failed checksum_mismatch
        panicked :
      FileError
  transfer_failed : Error → FileError

-- The connection, and the file at the path.
pub record Download : Type 0 where
  pub conn : Conn
  pub saved : Option Bytes

abbrev pub Result : Type 0
Result = Download × Option FileError

-- One part of a function after another, until one returns an error.
infixl 10 ◌>>=◌
abbrev pub ◌>>=◌ : Result → (Download → Result) → Result
(d, some e) >>= f = (d, some e)
(d, none) >>= f = f d

unfoldable pub transfer_response : ℕ → Place → TransferRequest → Bytes → ℕ → TransferResponse
transfer_response now place q message resume_point = record {
  file_id = q.file_id;
  accepted = true;
  message = message;
  chunk_size = q.chunk_size;
  save_path = place.save_path;
  response_time = now;
  resume_point = resume_point;
}

module _ (o : Outside) where
  unfoldable pub encode_transfer_response : TransferResponse → Option Bytes
  unfolding encode_message
  encode_transfer_response r = encode_message message_type_transfer_response (o.marshal_response r)

  unfoldable pub decode_transfer_request : Bytes → Option TransferRequest
  decode_transfer_request json = o.unmarshal_request json

  -- `receiveRequest` on what one read returned.
  unfoldable pub parse_request : Option Bytes → Option TransferRequest
  unfolding decode_message decode_transfer_request
  parse_request none = none
  parse_request (some message) = elim (decode_message message) [
    | none ↦ none
    | some (t, json) ↦
        if bytes_eq t message_type_transfer_request then decode_transfer_request json else none
  ]

  unfoldable pub send_response : TransferResponse → Download → Result
  unfolding send_encoded encode_transfer_response
  send_response response d =
      let (conn, e) = send_encoded (encode_transfer_response response) d.conn in
      (record d { conn = conn }, elim e [ none ↦ none | some e ↦ some response_failed ])

  -- The stream of reads, hashed: `none` if one of them fails.
  unfoldable pub calculate_checksum : Bool → Bytes → Option Bytes
  calculate_checksum can_read content = if can_read then some (o.hex (o.sha256 content)) else none

  -- `ReceiveChunksWithAck` on a receiver that is nil: the first good chunk makes it panic.
  unfoldable pub receive_without_receiver : ℕ → ℕ → Conn → Conn × Option Error
  unfolding conn_read parse_chunk verify_chunk answer send_ack
  receive_without_receiver now zero c = (c, none)
  receive_without_receiver now (suc left) c =
      let (conn, r) = conn_read c in
      elim (parse_chunk o.json r) [
        | none ↦ (conn, some Transfer.bad_message)
        | some chunk ↦ elim (verify_chunk o.sha256 chunk) [
          | true ↦ (conn, some Transfer.crashed)
          | false ↦
              let (conn', e) = send_ack o.json (answer now false check_failed chunk) conn in
              elim e [ some e ↦ (conn', some e) | none ↦ receive_without_receiver now left conn' ]
        ]
      ]

  -- Receiving a number of chunks into a receiver.
  unfoldable pub take_chunks : ℕ → Place → ℕ → Receiver → Download → Result
  unfolding receive_chunks_with_ack
  take_chunks now place count receiver d =
      let (inbox, e) =
        receive_chunks_with_ack o.sha256 o.json now place.writes_ok count
          (record { receiver = receiver; conn = d.conn }) in
      (
        record { conn = inbox.conn; saved = some inbox.receiver.file },
        elim e [ none ↦ none | some e ↦ some (transfer_failed e) ],
      )

  unfoldable pub take_new : ℕ → Place → TransferRequest → Download → Result
  unfolding take_chunks new_receiver receive_without_receiver
  take_new now place q d =
      elim (new_receiver (if place.can_open then some [] else none) q.file_id q.file_size
        q.chunk_size) [
          | some receiver ↦ take_chunks now place q.chunk_count receiver d
          | none ↦
              let (conn, e) = receive_without_receiver now q.chunk_count d.conn in
              (record d { conn = conn }, elim e [ none ↦ none | some e ↦ some (transfer_failed e) ])
        ]

  -- The check of the whole file.
  unfoldable pub verify_saved : Place → TransferRequest → Download → Result
  unfolding calculate_checksum
  verify_saved place q d = elim d.saved [
    | none ↦ (d, some open_failed)
    | some content ↦ elim (calculate_checksum place.can_read content) [
      | none ↦ (d, some read_failed)
      | some sum ↦ if bytes_eq sum q.checksum then (d, none) else (d, some checksum_mismatch)
    ]
  ]

  -- `ReceiveFile` when there is no file yet.
  unfoldable pub receive_new : ℕ → Place → TransferRequest → Download → Result
  unfolding send_response transfer_response take_new verify_saved
  receive_new now place q d =
      (d, if place.can_mkdir then none else some mkdir_failed)
      >>= send_response (transfer_response now place q o.accepted_text 0)
      >>= take_new now place q
      >>= verify_saved place q

  -- `handleResumeTransfer` from the response on.
  unfoldable pub resume_from : ℕ → Place → TransferRequest → Bytes → ℕ → Download → Result
  unfolding take_chunks new_receiver receiver_set_resume_point
  resume_from now place q existing received d =
      elim (new_receiver (if place.can_open then some existing else none) q.file_id q.file_size
        q.chunk_size) [
          | none ↦ (d, some panicked)
          | some receiver ↦
              take_chunks now place (q.chunk_count - received)
                (receiver_set_resume_point received receiver) d
        ]

  -- A chunk size of 0 divides by 0.
  unfoldable pub handle_resume_transfer : ℕ → Place → TransferRequest → Bytes → Download → Result
  unfolding send_response transfer_response resume_from
  handle_resume_transfer now place q existing d =
      let received = length existing / q.chunk_size in
      (
        d,
        if place.can_stat
            then (if eqb q.chunk_size 0 then some panicked else none)
            else some stat_failed,
      )
      >>= send_response (transfer_response now place q (o.resumed_text received) received)
      >>= resume_from now place q existing received

  unfoldable pub receive_file : ℕ → Place → Download → Result
  unfolding conn_read parse_request receive_new handle_resume_transfer
  receive_file now place d =
      let (conn, r) = conn_read d.conn in
      elim (parse_request r) [
        | none ↦ (record d { conn = conn }, some request_failed)
        | some q ↦ elim d.saved [
          | some existing ↦ handle_resume_transfer now place q existing (record d { conn = conn })
          | none ↦ receive_new now place q (record d { conn = conn })
        ]
      ]
