-- ===== src/Examples/Manager.antt =====
-- A file that comes in two chunks, one that is saved twice, and a restart: internal/file/manager.go.
use Prim.Native.Char.{nul}
use Prim.Native.String.{String}
use t_chat.Base.{
  ℕ, zero, suc, ◌≡◌, refl, ◌⊎◌, true, none, some, [], ◌∷◌, List, Bytes, length, arith, GoMap,
  lookup, store, string_comparable, nat_comparable,
}
use t_chat.File.Manager.{
  Libraries, FileSystem, FileInfo, FileTransferSession, FileManager, new_manager,
  generate_unique_name, save_file, received_file,
}
use t_chat.File.Manager.Chunks.{new_session, save_file_chunk, create_session, get_file}
use t_chat.File.Manager.Names.{generate_unique_name-free}
use t_chat.File.Manager.Saving.{IsWorking, IsSaved, save_file-IsSaved}
use t_chat.File.Manager.Assembly.{IsAssembled, chunks_from}
use t_chat.File.Manager.Placed.{whole, chunks_now, counted, save_file_chunk-files}
use t_chat.File.Manager.Restart.{Delivery, deliver_all, deliver_all-new_manager, IsMarked}
use t_chat.File.Manager.Arrivals.{AreThere, cached_after, get_file-deliver_all}

-- A text for each number.
marks : ℕ → String
marks zero = String.[]
marks (suc n) = String.◌∷◌ nul (marks n)

marks_distinct : (a b : ℕ) → marks a ≡ marks b → a ≡ b
unfolding marks
marks_distinct zero zero e = refl
marks_distinct zero (suc b) e = cc
marks_distinct (suc a) zero e = cc
marks_distinct (suc a) (suc b) e = ground (arith, marks_distinct a b)

abbrev libraries : Libraries
libraries = record {
  checksum = λ b. marks (length b);
  path_of = λ name. name;
  split_ext = λ name. (name, "");
  decimal = λ n. marks (suc n);
  temporary = λ id. "tmp";
  encode_files = λ files. length files ∷ [];
  encode_sessions = λ sessions. length sessions ∷ [];
}

abbrev system : FileSystem
system = record {
  can_create = λ p. true;
  can_write = λ b. true;
  can_read = λ p. true;
  can_rename = λ p q. true;
  can_remove = λ p. true;
  can_save_files = true;
  can_save_sessions = true;
}

works : IsWorking system
works = record {
  creates = λ p. refl;
  writes = λ b. refl;
  reads = λ p. refl;
  renames = λ p q. refl;
  saves_files = refl;
  saves_sessions = refl;
}

abbrev empty : FileManager
empty = new_manager [] [] []

numbered_distinct : (a b : ℕ) → marks (suc a) ≡ marks (suc b) → a ≡ b
numbered_distinct a b e = ground (arith, marks_distinct (suc a) (suc b) e)

-- The name is taken already.
abbrev taken : GoMap String FileInfo
taken = ("f", received_file libraries 3 "f" "f" (1 ∷ []) "ann") ∷ []

generate_unique_name-free_example :
    (unique : String) × (generate_unique_name libraries 3 "f" taken ≡ some unique)
    × (lookup unique taken ≡ none)
generate_unique_name-free_example = generate_unique_name-free libraries "f" taken numbered_distinct

save_file-IsSaved_example :
    (unique : String) × (m' : FileManager) × (save_file libraries system 4 "f"
        (5 ∷ 6 ∷ [])
        "bob"
        (new_manager [] taken [])
      ≡ some (none, m'))
    × IsSaved libraries system 4 "f" (5 ∷ 6 ∷ []) "bob" (new_manager [] taken []) unique m'
save_file-IsSaved_example =
    save_file-IsSaved libraries system 4 "f" (5 ∷ 6 ∷ []) "bob" (new_manager [] taken []) works
      numbered_distinct

abbrev chunk : ℕ → Bytes → Delivery
chunk i b = record { system = system; now = 9; index = i; bytes = b; sum = marks (length b) }

-- The second chunk comes first.
abbrev both : List Delivery
both = chunk 1 (7 ∷ []) ∷ chunk 0 (5 ∷ 6 ∷ []) ∷ []

both_there : AreThere 0 2 (cached_after both [])
unfolding lookup store
both_there zero lo hi = λ e. cc
both_there (suc zero) lo hi = λ e. cc
both_there (suc (suc j)) lo hi = absurd (omega arith)

get_file-deliver_all_example :
    get_file libraries system "f" (
      deliver_all libraries "id" both
        (create_session libraries system 8 "id" "f" 3 (marks 3) "ann" "bob" 2 empty))
    ≡ some (chunks_from 2 0 (cached_after both []))
unfolding marks chunks_from lookup store new_manager
get_file-deliver_all_example =
    get_file-deliver_all libraries system 8 "id" "f" 3 (marks 3) "ann" "bob" both empty works refl
      refl ((refl, works), ((refl, works), tt)) (omega arith) both_there refl

abbrev half : FileTransferSession
half = new_session 8 "id" "f" 3 (marks 3) "ann" "bob" 2

abbrev begun : FileManager
begun = new_manager [] [] (("id", half) ∷ [])

save_file_chunk-files_example :
    ((save_file_chunk libraries system 9 "id" 0 (5 ∷ 6 ∷ []) (marks 2) begun).1.files ≡ begun.files)
    ⊎ IsAssembled libraries
        (whole libraries 9 "id" 0 (5 ∷ 6 ∷ []) (marks 2) half begun)
        (chunks_now libraries 9 "id" 0 (5 ∷ 6 ∷ []) (marks 2) half begun)
        (counted libraries 9 "id" 0
          (5 ∷ 6 ∷ [])
          (marks 2)
          half
          begun
          (whole libraries 9 "id" 0 (5 ∷ 6 ∷ []) (marks 2) half begun))
        (save_file_chunk libraries system 9 "id" 0 (5 ∷ 6 ∷ []) (marks 2) begun).1
unfolding lookup new_manager
save_file_chunk-files_example =
    save_file_chunk-files libraries 9 "id" 0 (5 ∷ 6 ∷ []) (marks 2) half begun system refl refl

-- The first chunk comes twice.
abbrev twice : List Delivery
twice = chunk 0 (5 ∷ []) ∷ chunk 0 (5 ∷ []) ∷ []

deliver_all-new_manager_example :
    IsMarked libraries "id" 1 2 half
      (new_manager [] [] (("id", half) ∷ []))
      (deliver_all libraries "id" twice (new_manager [] [] (("id", half) ∷ [])))
unfolding lookup marks
deliver_all-new_manager_example =
    deliver_all-new_manager libraries "id" 1 [] [] (("id", half) ∷ []) half twice refl refl
      (omega arith) ((λ e. absurd (omega arith), refl), ((λ e. absurd (omega arith), refl), tt))
