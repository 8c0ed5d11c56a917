-- ===== src/File/Manager/Chunks.antt =====
-- The sessions of the file manager, and how it puts a file together from its chunks:
-- internal/file/manager.go.
use t_chat.Base.{
  ℕ, zero, suc, not, Option, none, some, List, [], ◌++◌, String, Bytes, string_comparable,
  nat_comparable, ◌==◌, leb, if◌then◌else◌, GoMap, lookup, store, remove, length, map,
}
use t_chat.File.Manager.{
  Libraries, FileSystem, active, completed, FileInfo, ChunkInfo, FileTransferSession, FileManager,
  ManagerError, no_session, bad_checksum, no_cache, bad_file_checksum, cannot_create, cannot_read,
  cannot_rename, missing_chunk, missing_data, cannot_write, cannot_remove, save_sessions,
  save_file_info,
}

-- The chunks written in order: how many are left, the index, what has been written.
unfoldable pub write_chunks :
    FileSystem → ℕ → ℕ → GoMap ℕ ChunkInfo → GoMap ℕ Bytes → Bytes → Option ManagerError × Bytes
write_chunks fs zero i infos cached written = (none, written)
write_chunks fs (suc n) i infos cached written = elim (lookup i infos) [
  | none ↦ (some (missing_chunk i), written)
  | some info ↦ elim (lookup i cached) [
    | none ↦ (some (missing_data i), written)
    | some bytes ↦
        let rest = write_chunks fs n (suc i) infos cached (written ++ bytes) in
        if fs.can_write bytes then rest else (some (cannot_write i), written)
  ]
]

abbrev pub assembled_info : FileTransferSession → FileInfo
assembled_info session = record {
  name = session.file_name;
  unique_name = session.file_name;
  size = session.file_size;
  checksum = session.checksum;
  received_at = session.end_time;
  from_ = session.from_;
  status = completed;
  chunks = session.total_chunks;
  received_chunks = session.received_chunks;
}

-- Behind the loop over the chunks: `content` is what the temporary file holds.
unfoldable pub place_file :
    Libraries
    → FileSystem
    → FileTransferSession
    → Bytes
    → FileManager
    → Option ManagerError × FileManager
place_file lib fs session content m =
    let temporary = lib.path_of (lib.temporary session.id) in
    let final = lib.path_of session.file_name in
    if not (fs.can_read temporary)
    then (some cannot_read, m)
    else if not (lib.checksum content == session.checksum)
    then (some bad_file_checksum, m)
    else if not (fs.can_rename temporary final)
    then (some cannot_rename, m)
    else (
      none,
      record m {
        disk = store final content (remove temporary m.disk);
        chunk_cache = remove session.id m.chunk_cache;
        files = store session.file_name (assembled_info session) m.files;
      },
    )

unfoldable pub assemble_file :
    Libraries → FileSystem → FileTransferSession → FileManager → Option ManagerError × FileManager
assemble_file lib fs session m =
    let temporary = lib.path_of (lib.temporary session.id) in
    if not (fs.can_create temporary)
    then (some cannot_create, m)
    else elim (lookup session.id m.chunk_cache) [
      | none ↦ (some no_cache, record m { disk = store temporary [] m.disk })
      | some cached ↦
          let (e, content) = write_chunks fs session.total_chunks 0 session.chunks cached [] in
          let m' : FileManager = record m { disk = store temporary content m.disk } in
          elim e [ some error ↦ (some error, m') | none ↦ place_file lib fs session content m' ]
    ]

unfoldable pub update_transfer_stats : FileTransferSession → FileManager → FileManager
update_transfer_stats session m = record m { last_transfer_time = session.end_time }

abbrev pub cached_of : String → FileManager → GoMap ℕ Bytes
cached_of id m = elim (lookup id m.chunk_cache) [ none ↦ [] | some cached ↦ cached ]

abbrev pub with_chunk : ℕ → ℕ → Bytes → String → FileTransferSession → FileTransferSession
with_chunk now i bytes sum session = record session {
  chunks =
      store i (record { index = i; size = length bytes; checksum = sum; recv_time = now })
        session.chunks;
  received_chunks = suc session.received_chunks;
}

abbrev pub ended : ℕ → FileTransferSession → FileTransferSession
ended now session = record session { status = completed; end_time = now }

-- What SaveFileChunk does to a session that exists, with a chunk whose checksum is right.
unfoldable pub accept_chunk :
    Libraries
    → FileSystem
    → ℕ
    → String
    → ℕ
    → Bytes
    → String
    → FileTransferSession
    → FileManager
    → Option ManagerError × FileManager
accept_chunk lib fs now id i bytes sum session m =
    let received = with_chunk now i bytes sum session in
    let cache = store id (store i bytes (cached_of id m)) m.chunk_cache in
    if leb received.total_chunks received.received_chunks
    then (let whole = ended now received in
        let m' : FileManager = record m {
          chunk_cache = cache;
          sessions = store id whole m.sessions;
        } in
        let (e, m'') = assemble_file lib fs whole m' in
        elim e [
          | some error ↦ (some error, m'')
          | none ↦ save_sessions lib fs (update_transfer_stats whole m'')
        ])
    else save_sessions lib fs
        (record m { chunk_cache = cache; sessions = store id received m.sessions })

unfoldable pub save_file_chunk :
    Libraries
    → FileSystem
    → ℕ
    → String
    → ℕ
    → Bytes
    → String
    → FileManager
    → Option ManagerError × FileManager
save_file_chunk lib fs now id i bytes sum m = elim (lookup id m.sessions) [
  | none ↦ (some no_session, m)
  | some session ↦
      if not (lib.checksum bytes == sum)
      then (some bad_checksum, m)
      else accept_chunk lib fs now id i bytes sum session m
]

abbrev pub new_session :
    ℕ → String → String → ℕ → String → String → String → ℕ → FileTransferSession
new_session now id name size sum sender receiver total = record {
  id = id;
  file_name = name;
  file_size = size;
  checksum = sum;
  from_ = sender;
  to = receiver;
  status = active;
  start_time = now;
  end_time = 0;
  chunks = [];
  total_chunks = total;
  received_chunks = 0;
}

-- An error of saveSessions is ignored.
unfoldable pub create_session :
    Libraries
    → FileSystem
    → ℕ
    → String
    → String
    → ℕ
    → String
    → String
    → String
    → ℕ
    → FileManager
    → FileManager
create_session lib fs now id name size sum sender receiver total m =
    (save_sessions lib fs (record m {
      sessions = store id (new_session now id name size sum sender receiver total) m.sessions;
    })).1

unfoldable pub get_file : Libraries → FileSystem → String → FileManager → Option Bytes
get_file lib fs name m =
    if fs.can_read (lib.path_of name) then lookup (lib.path_of name) m.disk else none

unfoldable pub get_file_info : String → FileManager → Option FileInfo
get_file_info name m = lookup name m.files

unfoldable pub get_all_files : FileManager → List FileInfo
get_all_files m = map (λ entry. entry.1) m.files

unfoldable pub get_session : String → FileManager → Option FileTransferSession
get_session id m = lookup id m.sessions

unfoldable pub get_all_sessions : FileManager → List FileTransferSession
get_all_sessions m = map (λ entry. entry.1) m.sessions

unfoldable pub delete_file :
    Libraries → FileSystem → String → FileManager → Option ManagerError × FileManager
delete_file lib fs name m = elim (lookup (lib.path_of name) m.disk) [
  | none ↦ (some cannot_remove, m)
  | some content ↦
      if fs.can_remove (lib.path_of name)
      then save_file_info lib fs
          (record m { disk = remove (lib.path_of name) m.disk; files = remove name m.files })
      else (some cannot_remove, m)
]
