-- ===== src/File/Manager/Placed.antt =====
-- When SaveFileChunk of internal/file/manager.go changes the list of files.
use t_chat.Base.{
  ℕ, suc, ◌≡◌, refl, false, some, String, Bytes, string_comparable, nat_comparable, ◌==◌, leb,
  GoMap, lookup, store, arith, Bool-cases, Option-cases, inl, inr, lookup-store, eq_self, ◌⊎◌,
}
use t_chat.File.Manager.{
  Libraries, FileSystem, FileTransferSession, FileManager, ManagerError, save_sessions,
}
use t_chat.File.Manager.Chunks.{
  place_file, assemble_file, accept_chunk, save_file_chunk, with_chunk, ended, cached_of,
  update_transfer_stats,
}
use t_chat.File.Manager.Assembly.{
  IsAssembled, written, with_temporary, assemble_file-IsAssembled, save_sessions-IsAssembled,
}

place_file_failed :
    (lib : Libraries) (fs : FileSystem) (session : FileTransferSession) (content : Bytes)
    (m : FileManager) {e : ManagerError}
    → (place_file lib fs session content m).0 ≡ some e
    → (place_file lib fs session content m).1 ≡ m
unfolding place_file
place_file_failed lib fs session content m h = ground arith

abbrev pub AreKept : FileManager → FileManager → Type 0
AreKept m m' = (m'.files ≡ m.files) × (m'.chunk_cache ≡ m.chunk_cache) × (m'.sessions ≡ m.sessions)

assemble_file_failed :
    (lib : Libraries) (fs : FileSystem) (session : FileTransferSession) (m : FileManager)
    {e : ManagerError}
    → (assemble_file lib fs session m).0 ≡ some e
    → AreKept m (assemble_file lib fs session m).1
unfolding assemble_file
assemble_file_failed lib fs session m {e} h =
    elim (Bool-cases (fs.can_create (lib.path_of (lib.temporary session.id)))) [
      | inr refused ↦ rw (refused, assemble_file) (refl, refl, refl)
      | inl creates ↦ elim (Option-cases (lookup session.id m.chunk_cache)) [
        | inl missing ↦ rw (creates, missing, assemble_file) (refl, refl, refl)
        | inr (cached, found) ↦ elim (Option-cases (written fs session cached).0) [
          | inr (error, f) ↦ rw (creates, found, f, assemble_file) (refl, refl, refl)
          | inl f ↦
              let placing : assemble_file lib fs session m
                  ≡ place_file lib fs session (written fs session cached).1
                      (with_temporary lib session (written fs session cached).1 m) =
                rw (creates, found, f, assemble_file) refl in
              let unchanged =
                place_file_failed lib fs session (written fs session cached).1
                  (with_temporary lib session (written fs session cached).1 m) (rw placing at h) in
              rw (placing, unchanged) (refl, refl, refl)
        ]
      ]
    ]

pub save_sessions_keeps :
    (lib : Libraries) (fs : FileSystem) (n : FileManager) → AreKept n (save_sessions lib fs n).1
unfolding save_sessions
save_sessions_keeps lib fs n = ground arith

module _ (lib : Libraries) (now : ℕ) (id : String) (i : ℕ) (bytes : Bytes) (sum : String)
    (session : FileTransferSession) (m : FileManager) where
  abbrev pub received : FileTransferSession
  received = with_chunk now i bytes sum session

  abbrev pub whole : FileTransferSession
  whole = ended now received

  abbrev pub chunks_now : GoMap ℕ Bytes
  chunks_now = store i bytes (cached_of id m)

  abbrev pub counted : FileTransferSession → FileManager
  counted s = record m {
    chunk_cache = store id chunks_now m.chunk_cache;
    sessions = store id s m.sessions;
  }

  -- The chunk is kept, and no file is put in its place.
  abbrev pub IsWaiting : FileManager → Type 0
  IsWaiting m' =
      ((leb session.total_chunks (suc session.received_chunks) ≡ false)
        × AreKept (counted received) m')
      ⊎ AreKept (counted whole) m'

  pub accept_chunk-cases :
      (fs : FileSystem)
      → session.id ≡ id
      → let m' = (accept_chunk lib fs now id i bytes sum session m).1 in
        IsWaiting m' ⊎ IsAssembled lib whole chunks_now (counted whole) m'
  unfolding accept_chunk update_transfer_stats
  accept_chunk-cases fs same =
      elim (Bool-cases (leb session.total_chunks (suc session.received_chunks))) [
        | inr more ↦
            rw (more, accept_chunk)
              (inl (inl (refl, save_sessions_keeps lib fs (counted received))))
        | inl full ↦ elim (Option-cases (assemble_file lib fs whole (counted whole)).0) [
          | inr (error, e) ↦
              rw (full, e, accept_chunk)
                (inl (inr (assemble_file_failed lib fs whole (counted whole) e)))
          | inl e ↦
              let assembled =
                assemble_file-IsAssembled lib fs whole (counted whole) chunks_now
                  (rw (same, lookup-store id id chunks_now m.chunk_cache, eq_self id) refl) e in
              rw (full, e, accept_chunk)
                (inr
                  (save_sessions-IsAssembled lib fs whole chunks_now (counted whole) _ assembled))
        ]
      ]

  -- A chunk of a session makes SaveFileChunk keep the list of files, unless it is one of enough
  -- chunks, and now all of them are there in the cache, and one behind the other they have the
  -- checksum of the session: then the file of the session's name holds them, unless its path is that
  -- of sessions.json; it is listed, and the other files of the list stay.
  pub save_file_chunk-files :
      (fs : FileSystem)
      → lookup id m.sessions ≡ some session
      → session.id ≡ id
      → let m' = (save_file_chunk lib fs now id i bytes sum m).1 in
        (m'.files ≡ m.files) ⊎ IsAssembled lib whole chunks_now (counted whole) m'
  unfolding save_file_chunk
  save_file_chunk-files fs found same = elim (Bool-cases (lib.checksum bytes == sum)) [
    | inr bad ↦ rw (found, bad, save_file_chunk) (inl refl)
    | inl good ↦
        rw (found, good, save_file_chunk)
          (elim (accept_chunk-cases fs same) [
            | inl (inl kept) ↦ inl kept.1.0
            | inl (inr kept) ↦ inl kept.0
            | inr assembled ↦ inr assembled
          ])
  ]
