-- ===== src/File/Manager/Saving.antt =====
-- What SaveFile of internal/file/manager.go writes.
use t_chat.Base.{
  ℕ, zero, suc, ◌+◌, ◌-◌, ◌≤◌, ◌<◌, ◌≡◌, refl, sym, ap, ◌∙◌, Bool, true, false, Option, none, some,
  [], ◌++◌, String, Bytes, string_comparable, ◌==◌, ltb, if◌then◌else◌, GoMap, lookup, store,
  length, take, drop, arith, Bool-cases, inl, inr, lookup-store, append_assoc, take-append-drop,
  take_all, drop_all, drop-drop, ltb-ge, ltb→lt, length-drop, append-nil, eq_self,
}
use t_chat.File.Manager.{
  Libraries, FileSystem, FileInfo, FileManager, ManagerError, write_pieces, write_file_streaming,
  write_file, save_as, save_file, received_file, save_file_info, buffer_size, file_path,
}
use t_chat.File.Manager.Names.{generate_unique_name-free}
use t_chat.File.Manager.Chunks.{get_file, get_file_info}

-- The file system refuses nothing.
pub record IsWorking (fs : FileSystem) : Type 0 where
  pub creates : (path : String) → fs.can_create path ≡ true
  pub writes : (bytes : Bytes) → fs.can_write bytes ≡ true
  pub reads : (path : String) → fs.can_read path ≡ true
  pub renames : (old new : String) → fs.can_rename old new ≡ true
  pub saves_files : fs.can_save_files ≡ true
  pub saves_sessions : fs.can_save_sessions ≡ true

piece_lem :
    (buffer i : ℕ) (bytes : Bytes)
    → i < length bytes
    → take
          ((if ltb (length bytes) (i + buffer) then length bytes else i + buffer) - i)
          (drop i bytes)
        ++ drop (i + buffer) bytes
      ≡ drop i bytes
piece_lem buffer i bytes h =
    ap (λ w. w ++ drop (i + buffer) bytes) (piece (ltb (length bytes) (i + buffer)) refl)
    ∙ ap (λ w. take buffer (drop i bytes) ++ w) (sym (drop-drop i buffer bytes))
    ∙ take-append-drop buffer (drop i bytes)
  where
    piece :
        (b : Bool)
        → ltb (length bytes) (i + buffer) ≡ b
        → take ((if b then length bytes else i + buffer) - i) (drop i bytes)
          ≡ take buffer (drop i bytes)
    piece true short =
        take_all _ (drop i bytes) (omega (arith, length-drop i bytes))
        ∙ sym (
            take_all buffer (drop i bytes)
              (omega (arith, length-drop i bytes, ltb→lt (length bytes) (i + buffer) short)))
    piece false long =
        ap (λ (k : ℕ). take k (drop i bytes)) {x = i + buffer - i} {y = buffer} (omega arith)

write_pieces-whole :
    (fs : FileSystem) (n buffer i : ℕ) (bytes written : Bytes)
    → ((piece : Bytes) → fs.can_write piece ≡ true)
    → 1 ≤ buffer
    → length bytes + 1 ≤ i + n
    → i ≤ length bytes + buffer
    → write_pieces fs n buffer i bytes written ≡ (written ++ drop i bytes, true)
unfolding write_pieces
write_pieces-whole fs zero buffer i bytes written writes size fuel near =
    ap (λ w. (w, true))
      (sym (append-nil written) ∙ ap (λ w. written ++ w) (sym (drop_all i bytes (omega arith))))
write_pieces-whole fs (suc n) buffer i bytes written writes size fuel near =
    elim (Bool-cases (ltb i (length bytes))) [
      | inl inside ↦
          let i-lt = ltb→lt i (length bytes) inside in
          let piece =
            take ((if ltb (length bytes) (i + buffer) then length bytes else i + buffer) - i)
              (drop i bytes) in
          let rest =
            write_pieces-whole fs n buffer (i + buffer) bytes (written ++ piece) writes size
              (omega arith) (omega arith) in
          rw (inside, write_pieces, writes piece)
            (rest
              ∙ ap (λ w. (w, true))
                  (append_assoc written piece (drop (i + buffer) bytes)
                    ∙ ap (λ w. written ++ w) (piece_lem buffer i bytes i-lt)))
      | inr outside ↦
          rw (outside, write_pieces)
            (ap (λ w. (w, true))
              (sym (append-nil written)
                ∙ ap (λ w. written ++ w)
                    (sym (drop_all i bytes (ltb-ge i (length bytes) outside)))))
    ]

-- Both ways of writing leave the given bytes in the file, when the file system refuses nothing.
pub write_file-whole :
    (fs : FileSystem) (path : String) (bytes : Bytes) (disk : GoMap String Bytes)
    → IsWorking fs
    → write_file fs path bytes disk ≡ (true, store path bytes disk)
unfolding write_file write_file_streaming
write_file-whole fs path bytes disk working = ground (
  arith,
  working.creates path,
  working.writes bytes,
  write_pieces-whole fs (suc (length bytes)) buffer_size 0 bytes [] working.writes (omega arith)
      (omega arith) (omega arith),
)

-- What SaveFile does to the files: the new one has the bytes, all others stay.
pub record IsSaved (lib : Libraries) (fs : FileSystem) (now : ℕ) (name : String) (bytes : Bytes)
    (sender : String) (m : FileManager) (unique : String) (m' : FileManager) : Type 0 where
  pub free : get_file_info unique m ≡ none
  pub content :
      get_file lib fs unique m'
      ≡ some (if file_path lib == lib.path_of unique then lib.encode_files m'.files else bytes)
  pub info : get_file_info unique m' ≡ some (received_file lib now name unique bytes sender)
  pub others :
      (other : String) → (unique == other) ≡ false → get_file_info other m' ≡ get_file_info other m
  pub contents :
      (other : String)
      → (lib.path_of unique == lib.path_of other) ≡ false
      → (file_path lib == lib.path_of other) ≡ false
      → get_file lib fs other m' ≡ get_file lib fs other m
  pub persisted : lookup (file_path lib) m'.disk ≡ some (lib.encode_files m'.files)

some-if : (b : Bool) (x y : Bytes) → (if b then some x else some y) ≡ some (if b then x else y)
some-if true x y = refl
some-if false x y = refl

save_as-IsSaved :
    (lib : Libraries) (fs : FileSystem) (now : ℕ) (name : String) (bytes : Bytes) (sender : String)
    (m : FileManager) (unique : String)
    → IsWorking fs
    → lookup unique m.files ≡ none
    → let (e, m') = save_as lib fs now name unique bytes sender m in
      (e ≡ none) × IsSaved lib fs now name bytes sender m unique m'
unfolding save_as save_file_info get_file get_file_info
save_as-IsSaved lib fs now name bytes sender m unique working free =
    rw (write_file-whole fs (lib.path_of unique) bytes m.disk working, working.saves_files)
      (
        refl,
        record {
          free = free;
          content = rw (working.reads (lib.path_of unique)) (
              lookup-store (file_path lib) (lib.path_of unique) json stored
              ∙ rw
                  (
                    lookup-store (lib.path_of unique) (lib.path_of unique) bytes m.disk,
                    eq_self (lib.path_of unique),
                  )
                  (some-if (file_path lib == lib.path_of unique) json bytes));
          info = rw (lookup-store unique unique info m.files, eq_self unique) refl;
          others = λ other e. rw (lookup-store unique other info m.files, e) refl;
          contents = λ other e f.
              rw
                (
                  lookup-store (file_path lib) (lib.path_of other) json stored,
                  f,
                  lookup-store (lib.path_of unique) (lib.path_of other) bytes m.disk,
                  e,
                )
                refl;
          persisted =
              rw (lookup-store (file_path lib) (file_path lib) json stored, eq_self (file_path lib))
                refl;
        },
      )
  where
    info : FileInfo
    info = received_file lib now name unique bytes sender

    stored : GoMap String Bytes
    stored = store (lib.path_of unique) bytes m.disk

    json : Bytes
    json = lib.encode_files (store unique info m.files)

-- When different numbers are printed differently and the file system refuses nothing, SaveFile ends
-- without an error under a name that no known file has; the file of that name then has the given
-- bytes, unless its path is that of files.json, which has the list of files; its record has their
-- length and checksum, all other records are as before, so are the files at other paths but
-- files.json, and files.json has the current list.
pub save_file-IsSaved :
    (lib : Libraries) (fs : FileSystem) (now : ℕ) (name : String) (bytes : Bytes) (sender : String)
    (m : FileManager)
    → IsWorking fs
    → ((a b : ℕ) → lib.decimal a ≡ lib.decimal b → a ≡ b)
    → (unique : String) × (m' : FileManager) × (save_file lib fs now name bytes sender m
        ≡ some (none, m'))
      × IsSaved lib fs now name bytes sender m unique m'
unfolding save_file
save_file-IsSaved lib fs now name bytes sender m working distinct =
    let (unique, e, free) = generate_unique_name-free lib name m.files distinct in
    let saved = save_as-IsSaved lib fs now name bytes sender m unique working free in
    (
      unique,
      (save_as lib fs now name unique bytes sender m).1,
      rw (e, save_file)
          (ap
            (λ (r : Option ManagerError).
              some (r, (save_as lib fs now name unique bytes sender m).1))
            saved.0),
      saved.1,
    )
