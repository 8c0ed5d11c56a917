-- ===== src/File/Chunks.antt =====
-- Chunks of a file: internal/file/chunk.go. SHA-256 is a parameter. The content of the file is
-- fixed during a call; `reads_ok` says at which offsets `ReadAt` succeeds, and `writes_ok` so for
-- `WriteAt`. Indices and sizes are not negative and do not overflow an `int`.
pub mod Split
pub mod Manager
use t_chat.Base.{
  ℕ, zero, suc, ◌+◌, ◌-◌, ◌*◌, ◌/◌, Bool, true, false, Option, none, some, List, [], ◌∷◌, Bytes,
  ltb, leb, eqb, ◌==◌, if◌then◌else◌, length, min, bytes_eq,
}
use t_chat.File.Disk.{read_at, write_at}

-- `chunk_data` is the field `Data`.
pub record Chunk : Type 0 where
  pub index : ℕ
  pub offset : ℕ
  pub size : ℕ
  pub chunk_data : Bytes
  pub hash : Bytes
  pub done : Bool

pub data Error : Type 0 where
  open_failed stat_failed read_failed create_failed write_failed eof chunk_corrupted : Error

pub data Result {ℓ} (A : Type ℓ) : Type ℓ where
  ok : A → Result A
  err : Error → Result A
  panic : Result A

-- The file that a call opens: `none` if it cannot be opened, or its size cannot be read.
pub record Source : Type 0 where
  pub can_open : Bool
  pub can_stat : Bool
  pub content : Bytes
  pub reads_ok : ℕ → Bool

abbrev prepend : Chunk → Option (Result (List Chunk)) → Option (Result (List Chunk))
prepend c (some (ok cs)) = some (ok (c ∷ cs))
prepend c r = r

module _ (sha256 : Bytes → Bytes) where
  unfoldable pub make_chunk : ℕ → ℕ → Bytes → Chunk
  make_chunk index offset buf = record {
    index = index;
    offset = offset;
    size = length buf;
    chunk_data = buf;
    hash = sha256 buf;
    done = false;
  }

  -- The loop of `SplitFile` with fuel, `none` if it runs out. A chunk size of 0 divides by zero.
  pub split_from : Source → ℕ → ℕ → ℕ → Option (Result (List Chunk))
  unfolding make_chunk
  split_from f chunk_size zero offset = none
  split_from f chunk_size (suc fuel) offset =
      let rest = split_from f chunk_size fuel (offset + chunk_size) in
      let end = min (offset + chunk_size) (length f.content) in
      let buf = read_at (end - offset) offset f.content in
      if ltb offset (length f.content)
      then if eqb chunk_size 0
        then some panic
        else if f.reads_ok offset
        then prepend (make_chunk (offset / chunk_size) offset buf) rest
        else some (err read_failed)
      else some (ok [])

  unfoldable pub split_file : Source → ℕ → Option (Result (List Chunk))
  unfolding split_from
  split_file f chunk_size =
      if f.can_open
      then if f.can_stat
        then split_from f chunk_size (suc (length f.content)) 0
        else some (err stat_failed)
      else some (err open_failed)

  unfoldable pub verify_chunk : Chunk → Bool
  verify_chunk c = bytes_eq (sha256 c.chunk_data) c.hash

-- `MergeChunks` truncates the file and writes each chunk at its offset; it returns the content of
-- the file with its error.
pub merge_into : (Chunk → Bool) → Bytes → List Chunk → Bytes × Option Error
merge_into writes_ok out [] = (out, none)
merge_into writes_ok out (c ∷ cs) =
    let rest = merge_into writes_ok (write_at c.chunk_data c.offset out) cs in
    if writes_ok c then rest else (out, some write_failed)

unfoldable pub merge_chunks : Bool → (Chunk → Bool) → Bytes → List Chunk → Bytes × Option Error
unfolding merge_into
merge_chunks can_create writes_ok before chunks =
    if can_create then merge_into writes_ok [] chunks else (before, some create_failed)

-- `ChunkManager`, with its open file.
pub record ChunkManager : Type 0 where
  pub file_id : Bytes
  pub chunk_size : ℕ
  pub total_chunks : ℕ
  pub current_chunk : ℕ
  pub file : Source

-- `none` stands for the nil that is returned if the file cannot be opened.
unfoldable pub new_chunk_manager : Bytes → Source → ℕ → ℕ → Option ChunkManager
new_chunk_manager file_id file chunk_size total_chunks =
    if file.can_open
    then some (record {
      file_id = file_id;
      chunk_size = chunk_size;
      total_chunks = total_chunks;
      current_chunk = 0;
      file = file;
    })
    else none

unfoldable pub next_chunk : (Bytes → Bytes) → ChunkManager → ChunkManager × Result Chunk
unfolding make_chunk
next_chunk sha256 cm =
    let offset = cm.current_chunk * cm.chunk_size in
    let buffer = read_at cm.chunk_size offset cm.file.content in
    if leb cm.total_chunks cm.current_chunk
    then (cm, err eof)
    else if cm.file.reads_ok offset
    then (
      record cm { current_chunk = suc cm.current_chunk },
      ok (make_chunk sha256 cm.current_chunk offset buffer),
    )
    else (cm, err read_failed)

unfoldable pub set_resume_point : ℕ → ChunkManager → ChunkManager
set_resume_point resume_point cm = record cm { current_chunk = resume_point }
