-- ===== src/File/Manager/Assembly.antt =====
-- The files that the file manager of internal/file/manager.go puts together from chunks.
use t_chat.Base.{
  ℕ, zero, suc, ◌+◌, ◌≤◌, ◌<◌, ◌≡◌, ◌≢◌, refl, sym, ◌∙◌, false, Option, none, some, [], ◌++◌,
  String, Bytes, string_comparable, nat_comparable, ◌==◌, leb, GoMap, lookup, store, remove, arith,
  Bool-cases, Option-cases, inl, inr, lookup-store, lookup-remove, append-nil, append_assoc,
  eq_self, eq→≡, leb→le, true, ◌⊎◌,
}
use t_chat.File.Manager.{
  Libraries, FileSystem, ChunkInfo, FileTransferSession, FileManager, ManagerError, save_sessions,
  session_path,
}
use t_chat.File.Manager.Chunks.{
  write_chunks, place_file, assemble_file, assembled_info, update_transfer_stats,
}

-- The cached chunks from an index on, one behind the other.
unfoldable pub chunks_from : ℕ → ℕ → GoMap ℕ Bytes → Bytes
chunks_from zero i cached = []
chunks_from (suc n) i cached = elim (lookup i cached) [
  | none ↦ chunks_from n (suc i) cached
  | some bytes ↦ bytes ++ chunks_from n (suc i) cached
]

pub write_chunks-none :
    (fs : FileSystem) (n i : ℕ) (infos : GoMap ℕ ChunkInfo) (cached : GoMap ℕ Bytes)
    (written : Bytes)
    → (write_chunks fs n i infos cached written).0 ≡ none
    → ((write_chunks fs n i infos cached written).1 ≡ written ++ chunks_from n i cached)
      × ((j : ℕ) → i ≤ j → j < i + n → lookup j cached ≢ none)
unfolding chunks_from write_chunks
write_chunks-none fs zero i infos cached written h =
    (sym (append-nil written), λ j lo hi e. absurd (omega arith))
write_chunks-none fs (suc n) i infos cached written h = elim (Option-cases (lookup i infos)) [
  | inl e ↦ absurd (let f : some _ ≡ none = rw (e, write_chunks) at h in cc)
  | inr (info, e) ↦ elim (Option-cases (lookup i cached)) [
    | inl f ↦ absurd (let g : some _ ≡ none = rw (e, f, write_chunks) at h in cc)
    | inr (bytes, f) ↦ elim (Bool-cases (fs.can_write bytes)) [
      | inr refused ↦ absurd (let g : some _ ≡ none = rw (e, f, refused, write_chunks) at h in cc)
      | inl writes ↦
          let (content, present) =
            write_chunks-none fs n (suc i) infos cached (written ++ bytes)
              (rw (e, f, writes, write_chunks) at h) in
          (
            rw (e, f, writes, write_chunks, chunks_from)
                (content ∙ append_assoc written bytes (chunks_from n (suc i) cached)),
            λ j lo hi g. elim (Bool-cases (leb j i)) [
              | inl le ↦
                  let same : j ≡ i = omega (arith, leb→le j i le) in
                  absurd (let k : some bytes ≡ none = sym f ∙ (rw same at g) in cc)
              | inr gt ↦ present j (ground (arith, gt)) (omega arith) g
            ],
          )
    ]
  ]
]

-- What a session's file holds once it is there, unless it is sessions.json, which is written next.
pub record IsAssembled (lib : Libraries) (session : FileTransferSession) (cached : GoMap ℕ Bytes)
    (m m' : FileManager) : Type 0 where
  pub complete : (j : ℕ) → j < session.total_chunks → lookup j cached ≢ none
  pub content :
      ((session_path lib == lib.path_of session.file_name) ≡ true)
      ⊎ (lookup (lib.path_of session.file_name) m'.disk
          ≡ some (chunks_from session.total_chunks 0 cached))
  pub checked : lib.checksum (chunks_from session.total_chunks 0 cached) ≡ session.checksum
  pub info : lookup session.file_name m'.files ≡ some (assembled_info session)
  pub others :
      (name : String)
      → (session.file_name == name) ≡ false
      → lookup name m'.files ≡ lookup name m.files
  pub freed : lookup session.id m'.chunk_cache ≡ none
  pub sessions : m'.sessions ≡ m.sessions

place_file-none :
    (lib : Libraries) (fs : FileSystem) (session : FileTransferSession) (content : Bytes)
    (m : FileManager)
    → (place_file lib fs session content m).0 ≡ none
    → let m' = (place_file lib fs session content m).1 in
      (lib.checksum content ≡ session.checksum)
      × (lookup (lib.path_of session.file_name) m'.disk ≡ some content)
      × (m'.files ≡ store session.file_name (assembled_info session) m.files)
      × (m'.chunk_cache ≡ remove session.id m.chunk_cache)
      × (m'.sessions ≡ m.sessions)
unfolding place_file
place_file-none lib fs session content m h = ground (
  arith,
  eq→≡ (lib.checksum content) session.checksum,
  lookup-store final final content (remove temporary m.disk),
  eq_self final,
)
  where
    temporary : String
    temporary = lib.path_of (lib.temporary session.id)

    final : String
    final = lib.path_of session.file_name

abbrev pub written : FileSystem → FileTransferSession → GoMap ℕ Bytes → Option ManagerError × Bytes
written fs session cached = write_chunks fs session.total_chunks 0 session.chunks cached []

abbrev pub with_temporary : Libraries → FileTransferSession → Bytes → FileManager → FileManager
with_temporary lib session content m = record m {
  disk = store (lib.path_of (lib.temporary session.id)) content m.disk;
}

-- Without an error, all chunks have been written before the file is put in its place.
assemble_file-placed :
    (lib : Libraries) (fs : FileSystem) (session : FileTransferSession) (m : FileManager)
    (cached : GoMap ℕ Bytes)
    → lookup session.id m.chunk_cache ≡ some cached
    → (assemble_file lib fs session m).0 ≡ none
    → let content = (written fs session cached).1 in
      ((written fs session cached).0 ≡ none)
      × (assemble_file lib fs session m
          ≡ place_file lib fs session content (with_temporary lib session content m))
unfolding assemble_file
assemble_file-placed lib fs session m cached found h =
    elim (Bool-cases (fs.can_create (lib.path_of (lib.temporary session.id)))) [
      | inr refused ↦ absurd (let e : some _ ≡ none = rw (refused, assemble_file) at h in cc)
      | inl creates ↦ elim (Option-cases (written fs session cached).0) [
        | inr (error, e) ↦
            absurd (let f : some error ≡ none = rw (creates, found, e, assemble_file) at h in cc)
        | inl e ↦ (e, rw (creates, found, e, assemble_file) refl)
      ]
    ]

pub assemble_file-IsAssembled :
    (lib : Libraries) (fs : FileSystem) (session : FileTransferSession) (m : FileManager)
    (cached : GoMap ℕ Bytes)
    → lookup session.id m.chunk_cache ≡ some cached
    → (assemble_file lib fs session m).0 ≡ none
    → IsAssembled lib session cached m (assemble_file lib fs session m).1
assemble_file-IsAssembled lib fs session m cached found h =
    let (whole, placed) = assemble_file-placed lib fs session m cached found h in
    let content = (written fs session cached).1 in
    let (same, present) =
      write_chunks-none fs session.total_chunks 0 session.chunks cached [] whole in
    let (checked, there, files, cache, sessions) =
      place_file-none lib fs session content (with_temporary lib session content m)
        (rw placed at h) in
    rw placed (record {
      complete = λ j hi. present j (omega arith) (omega arith);
      content = inr (rw (← same) there);
      checked = rw (← same) checked;
      info =
          rw
            (
              files,
              lookup-store session.file_name session.file_name (assembled_info session) m.files,
              eq_self session.file_name,
            )
            refl;
      others = λ name e.
          rw (files, lookup-store session.file_name name (assembled_info session) m.files, e) refl;
      freed =
          rw (cache, lookup-remove session.id session.id m.chunk_cache, eq_self session.id) refl;
      sessions = sessions;
    })

-- Saving the sessions and the time of the transfer change nothing of that.
pub save_sessions-IsAssembled :
    (lib : Libraries) (fs : FileSystem) (session : FileTransferSession) (cached : GoMap ℕ Bytes)
    (m n : FileManager)
    → IsAssembled lib session cached m n
    → IsAssembled lib session cached m (save_sessions lib fs (update_transfer_stats session n)).1
unfolding save_sessions update_transfer_stats
save_sessions-IsAssembled lib fs session cached m n a = elim (Bool-cases fs.can_save_sessions) [
  | inl saves ↦
      rw (saves, save_sessions)
        (record {
          complete = a.complete;
          content = elim (Bool-cases (session_path lib == lib.path_of session.file_name)) [
            | inl same ↦ inl same
            | inr apart ↦ elim a.content [
              | inl same ↦ inl same
              | inr there ↦ inr (
                  lookup-store (session_path lib) (lib.path_of session.file_name)
                    (lib.encode_sessions n.sessions) n.disk
                  ∙ rw apart there)
            ]
          ];
          checked = a.checked;
          info = a.info;
          others = a.others;
          freed = a.freed;
          sessions = a.sessions;
        })
  | inr refused ↦
      rw (refused, save_sessions)
        (record {
          complete = a.complete;
          content = a.content;
          checked = a.checked;
          info = a.info;
          others = a.others;
          freed = a.freed;
          sessions = a.sessions;
        })
]
