-- ===== src/File/Chunks/Manager.antt =====
-- `NextChunk` of internal/file/chunk.go, called until the file is at its end.
use t_chat.Base.{ℕ, zero, suc, ◌+◌, ◌*◌, ◌≡◌, true, Option, none, some, List, [], ◌∷◌, Bytes, arith}
use t_chat.File.Chunks.{
  Chunk, ChunkManager, ok, err, panic, Error, eof, next_chunk, set_resume_point,
}
use t_chat.File.Chunks.Split.{chunks_from}

abbrev prepend_read : Chunk → Option (List Chunk × Error) → Option (List Chunk × Error)
prepend_read c none = none
prepend_read c (some (cs, e)) = some (c ∷ cs, e)

-- The chunks of the calls up to the first error, and that error; `none` if `fuel` calls meet none.
unfoldable pub read_chunks : (Bytes → Bytes) → ℕ → ChunkManager → Option (List Chunk × Error)
unfolding next_chunk
read_chunks sha256 zero cm = none
read_chunks sha256 (suc fuel) cm =
    let (cm', r) = next_chunk sha256 cm in
    elim r [
      | ok c ↦ prepend_read c (read_chunks sha256 fuel cm')
      | err e ↦ some ([], e)
      | panic ↦ none
    ]

read_chunks_from :
    (sha256 : Bytes → Bytes) (k : ℕ) (cm : ChunkManager)
    → ((offset : ℕ) → cm.file.reads_ok offset ≡ true)
    → cm.total_chunks ≡ cm.current_chunk + k
    → read_chunks sha256 (suc k) cm
      ≡ some (chunks_from sha256 cm.file.content cm.chunk_size cm.current_chunk k, eof)
unfolding read_chunks chunks_from
read_chunks_from sha256 zero cm reads h = ground arith
read_chunks_from sha256 (suc k) cm reads h = ground (
  arith,
  reads (cm.current_chunk * cm.chunk_size),
  read_chunks_from sha256 k (record cm { current_chunk = suc cm.current_chunk }) reads,
)

-- After `SetResumePoint r` the manager yields the chunks `r`, `r + 1`, … up to its last one, the
-- same ones that `SplitFile` makes, and then `io.EOF`, if the reads succeed.
pub read_chunks-set_resume_point :
    (sha256 : Bytes → Bytes) (r k : ℕ) (cm : ChunkManager)
    → ((offset : ℕ) → cm.file.reads_ok offset ≡ true)
    → cm.total_chunks ≡ r + k
    → read_chunks sha256 (suc k) (set_resume_point r cm)
      ≡ some (chunks_from sha256 cm.file.content cm.chunk_size r k, eof)
unfolding set_resume_point
read_chunks-set_resume_point sha256 r k cm reads h =
    read_chunks_from sha256 k (record cm { current_chunk = r }) reads h
