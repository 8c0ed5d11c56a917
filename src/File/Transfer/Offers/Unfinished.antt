-- ===== src/File/Transfer/Offers/Unfinished.antt =====
-- `SendFile` of internal/file/transmission.go never gets to the end of a file.
use t_chat.Base.{
  ℕ, ◌+◌, ◌-◌, ◌/◌, ◌<◌, ◌≡◌, refl, subst, Bool, true, false, Option, none, some, Bytes, length,
  ltb, if◌then◌else◌, arith,
}
use t_chat.File.Chunks.{Source, ChunkManager, new_chunk_manager, set_resume_point}
use t_chat.File.Session.{new_transfer_session}
use t_chat.File.Transfer.{Conn, Error, conn_read, conn_write, send_encoded}
use t_chat.File.Transfer.Sending.{Sender}
use t_chat.File.Transfer.Sending.Acks.{Fails, send_chunks_with_window-Fails}
use t_chat.File.Transfer.Files.{TransferRequest, TransferResponse, Outside, calculate_checksum}
use t_chat.File.Transfer.Offers.{
  OutsideSend, Upload, OfferError, calculate_adaptive_chunk_size, send_request, parse_response,
  transfer_chunks, after_response, offer_request, after_request, send_file,
}

-- It returns an error.
abbrev pub Failing : Option (Upload × Option OfferError) → Type 0
Failing result = (u : Upload) × (e : OfferError) × (result ≡ some (u, some e))

Fails-some :
    (result : Option (Sender × Option Error))
    → Fails result
    → (st : Sender) × (e : Error) × (result ≡ some (st, some e))
Fails-some none h = absurd h
Fails-some (some (st, none)) h = absurd h
Fails-some (some (st, some e)) h = (st, e, refl)

Failing-if :
    (b : Bool) {x y : Option (Upload × Option OfferError)}
    → Failing x
    → Failing y
    → Failing (if b then x else y)
Failing-if true h k = h
Failing-if false h k = k

module _ (o : Outside) (js : OutsideSend) (now : ℕ) where
  transfer_chunks-Failing :
      (file_id : Bytes) (m : ChunkManager) (u : Upload)
      → m.current_chunk < m.total_chunks
      → Failing (transfer_chunks o js now file_id (some m) u)
  unfolding transfer_chunks
  transfer_chunks-Failing file_id m u left =
      let (st, e, result) = Fails-some _ (
        send_chunks_with_window-Fails o.sha256 o.json now
          (record { manager = m; session = new_transfer_session now file_id 10; conn = u.conn })
          left) in
      rw (result, transfer_chunks) (_, _, refl)

  after_response-Failing :
      (file_id : Bytes) (source : Source) (chunk_size total : ℕ) (r : Option TransferResponse)
      (u : Upload)
      → ((x : TransferResponse) → r ≡ some x → x.resume_point < total)
      → Failing (after_response o js now file_id source chunk_size total r u)
  unfolding after_response new_chunk_manager set_resume_point
  after_response-Failing file_id source chunk_size total none u left =
      (u, OfferError.response_failed, refl)
  after_response-Failing file_id source chunk_size total (some r) u left =
      Failing-if r.accepted (from source.can_open) (u, OfferError.rejected, refl)
    where
      first : ChunkManager
      first = record {
        file_id = file_id;
        chunk_size = chunk_size;
        total_chunks = total;
        current_chunk = 0;
        file = source;
      }

      from :
          (b : Bool)
          → Failing (
              transfer_chunks o js now file_id
                (elim (if b then some first else none) [
                  | none ↦ none
                  | some m ↦
                      some (if ltb 0 r.resume_point then set_resume_point r.resume_point m else m)
                ])
                u)
      from false = (u, OfferError.panicked, refl)
      from true =
          let below : r.resume_point < total = left r refl in
          transfer_chunks-Failing file_id
            (if ltb 0 r.resume_point then set_resume_point r.resume_point first else first) u
            (ground arith)

  conn_read-same : (c c' : Conn) → c.reads ≡ c'.reads → (conn_read c).1 ≡ (conn_read c').1
  unfolding conn_read
  conn_read-same c c' same = ground (arith, same)

  after_request-Failing :
      (file_id : Bytes) (source : Source) (q : TransferRequest) (sent : Conn × Option Error)
      (u : Upload)
      → sent.0.reads ≡ u.conn.reads
      → ((r : TransferResponse)
          → parse_response o js now (conn_read u.conn).1 ≡ some r
          → r.resume_point < q.chunk_count)
      → Failing (after_request o js now file_id source q sent u)
  unfolding after_request conn_read
  after_request-Failing file_id source q (c, some e) u same left =
      (record u { conn = c }, OfferError.request_failed, refl)
  after_request-Failing file_id source q (c, none) u same left =
      after_response-Failing file_id source q.chunk_size q.chunk_count
        (parse_response o js now (conn_read c).1) (record u { conn = (conn_read c).0 })
        (λ r e.
          left r (subst (λ x. parse_response o js now x ≡ some r) (conn_read-same c u.conn same) e))

  send_encoded-reads : (b : Option Bytes) (c : Conn) → (send_encoded b c).0.reads ≡ c.reads
  unfolding send_encoded conn_write
  send_encoded-reads none c = refl
  send_encoded-reads (some bytes) c = ground arith

  send_request-reads :
      (q : TransferRequest) (c : Conn) → (send_request o js now q c).0.reads ≡ c.reads
  unfolding send_request
  send_request-reads q c = send_encoded-reads _ c

-- When the connection gives finitely many messages, whatever they are, and then a read fails, SendFile
-- ends with an error, unless the response gives a resume point at which no chunk of the file is left.
pub send_file-Failing :
    (o : Outside) (js : OutsideSend) (now : ℕ) (file_id file_name : Bytes) (source : Source)
    (can_hash : Bool) (base_chunk_size : ℕ) (u : Upload)
    → ((r : TransferResponse)
        → parse_response o js now (conn_read u.conn).1 ≡ some r
        → r.resume_point
          < (length source.content
              + calculate_adaptive_chunk_size (length source.content) base_chunk_size
              - 1)
            / calculate_adaptive_chunk_size (length source.content) base_chunk_size)
    → (u' : Upload) × (e : OfferError) × (send_file o js now file_id file_name source can_hash
          base_chunk_size u
        ≡ some (u', some e))
unfolding send_file offer_request
send_file-Failing o js now file_id file_name source can_hash base_chunk_size u left =
    Failing-if source.can_open
      (Failing-if source.can_stat (hashed (calculate_checksum o can_hash source.content))
        (u, OfferError.stat_failed, refl))
      (u, OfferError.open_failed, refl)
  where
    chunk_size : ℕ
    chunk_size = calculate_adaptive_chunk_size (length source.content) base_chunk_size

    request : Bytes → TransferRequest
    request checksum = offer_request o js now file_id file_name source chunk_size checksum

    hashed :
        (sum : Option Bytes)
        → Failing (elim sum [
          | none ↦ some (u, some OfferError.checksum_failed)
          | some checksum ↦
              after_request o js now file_id source
                (request checksum)
                (send_request o js now (request checksum) u.conn)
                u
        ])
    hashed none = (u, OfferError.checksum_failed, refl)
    hashed (some checksum) =
        after_request-Failing o js now file_id source (request checksum)
          (send_request o js now (request checksum) u.conn) u
          (send_request-reads o js now (request checksum) u.conn) left
