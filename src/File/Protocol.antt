-- ===== src/File/Protocol.antt =====
-- The wire format: internal/file/protocol.go. A message is its type, a colon, and JSON. The JSON
-- encoder and decoder are the standard library's and enter as a record of functions.
use t_chat.Base.{
  ℕ, ◌≡◌, refl, Bool, true, false, Option, none, some, [], ◌∷◌, ◌++◌, Bytes, eqb, if◌then◌else◌,
  arith,
}
use t_chat.File.Chunks.{Chunk}

pub record ChunkAck : Type 0 where
  pub file_id : Bytes
  pub chunk_index : ℕ
  pub success : Bool
  pub message : Bytes
  pub timestamp : ℕ

pub record TransferComplete : Type 0 where
  pub file_id : Bytes
  pub time : ℕ

-- `performance.JSONOptimizer` on the types of this protocol: marshalling can fail.
pub record Json : Type 0 where
  pub marshal_chunk : Chunk → Option Bytes
  pub unmarshal_chunk : Bytes → Option Chunk
  pub marshal_ack : ChunkAck → Option Bytes
  pub unmarshal_ack : Bytes → Option ChunkAck
  pub marshal_complete : TransferComplete → Option Bytes

-- "file_chunk", "file_ack", "file_complete".
abbrev pub message_type_chunk : Bytes
message_type_chunk = b'f' ∷ b'i' ∷ b'l' ∷ b'e' ∷ b'_' ∷ b'c' ∷ b'h' ∷ b'u' ∷ b'n' ∷ b'k' ∷ []

abbrev pub message_type_ack : Bytes
message_type_ack = b'f' ∷ b'i' ∷ b'l' ∷ b'e' ∷ b'_' ∷ b'a' ∷ b'c' ∷ b'k' ∷ []

abbrev pub message_type_complete : Bytes
message_type_complete =
    b'f' ∷ b'i' ∷ b'l' ∷ b'e' ∷ b'_' ∷ b'c' ∷ b'o' ∷ b'm' ∷ b'p' ∷ b'l' ∷ b'e' ∷ b't' ∷ b'e' ∷ []

unfoldable pub encode_message : Bytes → Option Bytes → Option Bytes
encode_message message_type none = none
encode_message message_type (some json) = some (message_type ++ (b':' ∷ json))

-- `strings.SplitN(message, ":", 2)`: the parts before and after the first colon.
unfoldable pub decode_message : Bytes → Option (Bytes × Bytes)
decode_message [] = none
decode_message (c ∷ rest) =
    let later = decode_message rest in
    if eqb c b':'
    then some ([], rest)
    else elim later [ none ↦ none | some (t, json) ↦ some (c ∷ t, json) ]

module _ (j : Json) where
  unfoldable pub encode_chunk : Chunk → Option Bytes
  unfolding encode_message
  encode_chunk c = encode_message message_type_chunk (j.marshal_chunk c)

  unfoldable pub decode_chunk : Bytes → Option Chunk
  decode_chunk json = j.unmarshal_chunk json

  unfoldable pub encode_ack : ChunkAck → Option Bytes
  unfolding encode_message
  encode_ack a = encode_message message_type_ack (j.marshal_ack a)

  unfoldable pub decode_ack : Bytes → Option ChunkAck
  decode_ack json = j.unmarshal_ack json

  unfoldable pub encode_complete : TransferComplete → Option Bytes
  unfolding encode_message
  encode_complete c = encode_message message_type_complete (j.marshal_complete c)

abbrev pub has_colon : Bytes → Bool
has_colon [] = false
has_colon (c ∷ rest) = if eqb c b':' then true else has_colon rest

-- A message type without a colon, and whatever JSON follows, come back from the wire.
pub decode_message-encode_message :
    (message_type json : Bytes) {wire : Bytes}
    → has_colon message_type ≡ false
    → encode_message message_type (some json) ≡ some wire
    → decode_message wire ≡ some (message_type, json)
unfolding encode_message decode_message
decode_message-encode_message message_type json {wire} h e = rw (← w) (split message_type h)
  where
    split : (t : Bytes) → has_colon t ≡ false → decode_message (t ++ (b':' ∷ json)) ≡ some (t, json)
    split [] h = refl
    split (c ∷ t) h = ground (arith, split t)

    w : message_type ++ (b':' ∷ json) ≡ wire
    w = cc
