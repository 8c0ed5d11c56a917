-- ===== src/File/Receiver.antt =====
-- The receivers of internal/file/receiver.go. `Receiver` writes each chunk where it belongs as it
-- arrives; `FileReceiver` keeps the chunks and writes the file at the end. `OpenFile` and `Create`
-- are arguments of the constructors; a path is not modelled.
pub mod Order
pub mod Saving
use t_chat.Base.{
  ℕ, zero, suc, ◌+◌, ◌-◌, ◌*◌, ◌/◌, Bool, true, false, Option, none, some, List, [], ◌∷◌, Bytes,
  ltb, leb, eqb, ◌==◌, if◌then◌else◌, length, min, nat_comparable, GoMap, lookup, store,
}
use t_chat.File.Disk.{write_at}
use t_chat.File.Chunks.{Chunk, verify_chunk, Error, create_failed, write_failed, chunk_corrupted}

pub record Receiver : Type 0 where
  pub file_id : Bytes
  pub file_size : ℕ
  pub chunk_size : ℕ
  pub resume_point : ℕ
  pub file : Bytes

-- `O_CREATE|O_WRONLY` keeps what the file holds.
unfoldable pub new_receiver : Option Bytes → Bytes → ℕ → ℕ → Option Receiver
new_receiver none file_id file_size chunk_size = none
new_receiver (some content) file_id file_size chunk_size = some (record {
  file_id = file_id;
  file_size = file_size;
  chunk_size = chunk_size;
  resume_point = 0;
  file = content;
})

unfoldable pub write_chunk : Bool → Chunk → Receiver → Receiver × Option Error
write_chunk write_ok chunk r =
    if write_ok
    then (record r { file = write_at chunk.chunk_data (chunk.index * r.chunk_size) r.file }, none)
    else (r, some write_failed)

unfoldable pub receive_chunk : (Bytes → Bytes) → Bool → Chunk → Receiver → Receiver × Option Error
unfolding write_chunk
receive_chunk sha256 write_ok chunk r =
    if verify_chunk sha256 chunk then write_chunk write_ok chunk r else (r, some chunk_corrupted)

unfoldable pub receiver_set_resume_point : ℕ → Receiver → Receiver
receiver_set_resume_point p r = record r { resume_point = p }

unfoldable pub is_complete : Receiver → Bool
is_complete r = leb r.file_size (length r.file)

pub record FileReceiver : Type 0 where
  pub total_size : ℕ
  pub chunks : GoMap ℕ Chunk

unfoldable pub new_file_receiver : ℕ → FileReceiver
new_file_receiver total_size = record { total_size = total_size; chunks = [] }

unfoldable pub file_receive_chunk :
    (Bytes → Bytes) → Chunk → FileReceiver → FileReceiver × Option Error
file_receive_chunk sha256 chunk fr =
    if verify_chunk sha256 chunk
    then (record fr { chunks = store chunk.index chunk fr.chunks }, none)
    else (fr, some chunk_corrupted)

-- The loop of `SaveToFile` from chunk `i` on, with fuel; `none` if it runs out.
pub save_from : (ℕ → Bool) → GoMap ℕ Chunk → ℕ → ℕ → Bytes → Option (Bytes × Option Error)
save_from writes_ok chunks zero i out = none
save_from writes_ok chunks (suc fuel) i out = elim (lookup i chunks) [
  | none ↦ some (out, none)
  | some chunk ↦ elim (writes_ok i) [
    | true ↦ save_from writes_ok chunks fuel (suc i) (write_at chunk.chunk_data chunk.offset out)
    | false ↦ some (out, some write_failed)
  ]
]

-- Each round finds another entry of the map, so one more round than entries is enough.
unfoldable pub save_to_file :
    Bool → (ℕ → Bool) → Bytes → FileReceiver → Option (Bytes × Option Error)
unfolding save_from
save_to_file can_create writes_ok before fr =
    if can_create
    then save_from writes_ok fr.chunks (suc (length fr.chunks)) 0 []
    else some (before, some create_failed)

unfoldable pub file_get_progress : ℕ → FileReceiver → ℕ × ℕ
file_get_progress chunk_size fr = (length fr.chunks, (fr.total_size + chunk_size - 1) / chunk_size)
