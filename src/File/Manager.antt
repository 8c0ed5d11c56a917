-- ===== src/File/Manager.antt =====
-- The file manager: internal/file/manager.go. SHA-256 in hexadecimal, paths, JSON and decimal numbers are
-- functions of the package's libraries; what the file system allows during a call is a record of
-- tests, and the time is an argument. The two JSON files lie in the directory of the stored files, so
-- they are files of the same disk. Progress and speed, which are floats, are left out.
pub mod Chunks
pub mod Names
pub mod Saving
pub mod Assembly
pub mod Placed
pub mod Arrivals
pub mod Restart
use Prim.Native.String.{◌++◌ as concat}
use t_chat.Base.{
  ℕ, zero, suc, ◌+◌, ◌-◌, ◌*◌, Bool, true, false, Option, none, some, List, [], ◌∷◌, ◌++◌, String,
  Bytes, string_comparable, nat_comparable, ◌==◌, ltb, leb, if◌then◌else◌, GoMap, lookup, store,
  remove, length, take, drop, map,
}

-- Which operations of the file system succeed.
pub record FileSystem : Type 0 where
  pub can_create : String → Bool
  pub can_write : Bytes → Bool
  pub can_read : String → Bool
  pub can_rename : String → String → Bool
  pub can_remove : String → Bool
  pub can_save_files : Bool
  pub can_save_sessions : Bool

pub data FileStatus : Type 0 where
  active completed : FileStatus

pub record FileInfo : Type 0 where
  pub name : String
  pub unique_name : String
  pub size : ℕ
  pub checksum : String
  pub received_at : ℕ
  pub from_ : String
  pub status : FileStatus
  pub chunks : ℕ
  pub received_chunks : ℕ

pub record ChunkInfo : Type 0 where
  pub index : ℕ
  pub size : ℕ
  pub checksum : String
  pub recv_time : ℕ

pub record FileTransferSession : Type 0 where
  pub id : String
  pub file_name : String
  pub file_size : ℕ
  pub checksum : String
  pub from_ : String
  pub to : String
  pub status : FileStatus
  pub start_time : ℕ
  pub end_time : ℕ
  pub chunks : GoMap ℕ ChunkInfo
  pub total_chunks : ℕ
  pub received_chunks : ℕ

-- `checksum data` is the SHA-256 of the bytes in hexadecimal, `path_of name` is
-- `filepath.Join("files", name)`, `split_ext name` is the name cut before `filepath.Ext(name)`, `decimal n` is the number as `%d` prints it, and the last two write the JSON
-- of the files and of the sessions.
pub record Libraries : Type 0 where
  pub checksum : Bytes → String
  pub path_of : String → String
  pub split_ext : String → String × String
  pub decimal : ℕ → String
  pub temporary : String → String
  pub encode_files : GoMap String FileInfo → Bytes
  pub encode_sessions : GoMap String FileTransferSession → Bytes

-- The manager, with the contents of the files under its directory.
pub record FileManager : Type 0 where
  pub files : GoMap String FileInfo
  pub sessions : GoMap String FileTransferSession
  pub chunk_cache : GoMap String (GoMap ℕ Bytes)
  pub disk : GoMap String Bytes
  pub last_transfer_time : ℕ

-- NewManager, with what the two JSON files hold: there is no cached chunk yet.
unfoldable pub new_manager :
    GoMap String Bytes → GoMap String FileInfo → GoMap String FileTransferSession → FileManager
new_manager disk saved_files saved_sessions = record {
  files = saved_files;
  sessions = saved_sessions;
  chunk_cache = [];
  disk = disk;
  last_transfer_time = 0;
}

pub data ManagerError : Type 0 where
  no_session bad_checksum no_cache bad_file_checksum cannot_create cannot_read cannot_rename
        cannot_write_file cannot_remove cannot_save :
      ManagerError
  missing_chunk missing_data cannot_write : ℕ → ManagerError

abbrev pub file_path : Libraries → String
file_path lib = lib.path_of "files.json"

abbrev pub session_path : Libraries → String
session_path lib = lib.path_of "sessions.json"

unfoldable pub save_file_info :
    Libraries → FileSystem → FileManager → Option ManagerError × FileManager
save_file_info lib fs m =
    if fs.can_save_files
    then (none, record m { disk = store (file_path lib) (lib.encode_files m.files) m.disk })
    else (some cannot_save, m)

unfoldable pub save_sessions :
    Libraries → FileSystem → FileManager → Option ManagerError × FileManager
save_sessions lib fs m =
    if fs.can_save_sessions
    then (
      none,
      record m { disk = store (session_path lib) (lib.encode_sessions m.sessions) m.disk },
    )
    else (some cannot_save, m)

-- The loop of writeFileStreaming: the offset `i`, and what has been written.
unfoldable pub write_pieces : FileSystem → ℕ → ℕ → ℕ → Bytes → Bytes → Bytes × Bool
write_pieces fs zero buffer i bytes written = (written, true)
write_pieces fs (suc n) buffer i bytes written =
    let end : ℕ = if ltb (length bytes) (i + buffer) then length bytes else i + buffer in
    let piece = take (end - i) (drop i bytes) in
    let rest = write_pieces fs n buffer (i + buffer) bytes (written ++ piece) in
    if ltb i (length bytes)
    then if fs.can_write piece then rest else (written, false)
    else (written, true)

abbrev pub mega : ℕ
mega = 1024 * 1024

abbrev pub buffer_size : ℕ
buffer_size = 16 * 1024

-- What the new file holds, and whether all was written.
unfoldable pub write_file_streaming : FileSystem → Bytes → Bytes × Bool
write_file_streaming fs bytes =
    if leb (length bytes) mega
    then if fs.can_write bytes then (bytes, true) else ([], false)
    else write_pieces fs (suc (length bytes)) buffer_size 0 bytes []

-- `fmt.Sprintf("%s_%d%s", base, n, ext)`
unfoldable pub numbered : Libraries → String → ℕ → String
numbered lib name n =
    let (base, ext) = lib.split_ext name in concat base (concat "_" (concat (lib.decimal n) ext))

-- The loop of generateUniqueName: the next counter.
unfoldable pub next_name :
    Libraries → ℕ → ℕ → String → String → GoMap String FileInfo → Option String
next_name lib zero counter original name files = none
next_name lib (suc n) counter original name files = elim (lookup name files) [
  | none ↦ some name
  | some info ↦ next_name lib n (suc counter) original (numbered lib original counter) files
]

unfoldable pub generate_unique_name : Libraries → ℕ → String → GoMap String FileInfo → Option String
generate_unique_name lib fuel original files = next_name lib fuel 1 original original files

-- What os.WriteFile or writeFileStreaming leaves in the file.
unfoldable pub write_file :
    FileSystem → String → Bytes → GoMap String Bytes → Bool × GoMap String Bytes
write_file fs path bytes disk =
    if fs.can_create path
    then if ltb mega (length bytes)
      then (let (written, whole) = write_file_streaming fs bytes in
          (whole, store path written disk))
      else if fs.can_write bytes
      then (true, store path bytes disk)
      else (false, store path [] disk)
    else (false, disk)

abbrev pub received_file : Libraries → ℕ → String → String → Bytes → String → FileInfo
received_file lib now name unique bytes sender = record {
  name = name;
  unique_name = unique;
  size = length bytes;
  checksum = lib.checksum bytes;
  received_at = now;
  from_ = sender;
  status = completed;
  chunks = 1;
  received_chunks = 1;
}

-- SaveFile under the unique name that was found.
unfoldable pub save_as :
    Libraries
    → FileSystem
    → ℕ
    → String
    → String
    → Bytes
    → String
    → FileManager
    → Option ManagerError × FileManager
save_as lib fs now name unique bytes sender m =
    let (whole, disk) = write_file fs (lib.path_of unique) bytes m.disk in
    if whole
    then save_file_info lib fs (record m {
      disk = disk;
      files = store unique (received_file lib now name unique bytes sender) m.files;
    })
    else (some cannot_write_file, record m { disk = disk })

-- `none` if the loop for the name needs more rounds than the files that are known, and one.
unfoldable pub save_file :
    Libraries
    → FileSystem
    → ℕ
    → String
    → Bytes
    → String
    → FileManager
    → Option (Option ManagerError × FileManager)
save_file lib fs now name bytes sender m =
    elim (generate_unique_name lib (suc (suc (length m.files))) name m.files) [
      | none ↦ none
      | some unique ↦ some (save_as lib fs now name unique bytes sender m)
    ]
