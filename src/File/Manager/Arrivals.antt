-- ===== src/File/Manager/Arrivals.antt =====
-- When all chunks of a session come, each once: internal/file/manager.go.
use t_chat.Base.{
  ℕ, zero, suc, ◌+◌, ◌≤◌, ◌<◌, ◌≡◌, ◌≢◌, refl, sym, ap, ◌∙◌, true, false, none, some, List, [], ◌∷◌,
  ◌++◌, String, Bytes, string_comparable, nat_comparable, ◌==◌, leb, GoMap, lookup, store, arith,
  Bool-cases, Option-cases, inl, inr, lookup-store, eq_self, All, length,
}
use t_chat.File.Manager.{
  Libraries, FileSystem, ChunkInfo, FileTransferSession, FileManager, session_path, save_sessions,
}
use t_chat.File.Manager.Saving.{IsWorking}
use t_chat.File.Manager.Chunks.{
  write_chunks, place_file, assemble_file, save_file_chunk, accept_chunk, with_chunk, cached_of,
  create_session, get_file, new_session, update_transfer_stats,
}
use t_chat.File.Manager.Assembly.{
  chunks_from, written, IsAssembled, write_chunks-none, assemble_file-IsAssembled,
  save_sessions-IsAssembled,
}
use t_chat.File.Manager.Placed.{whole, chunks_now, counted, save_sessions_keeps, AreKept}
use t_chat.File.Manager.Restart.{Delivery, deliver_all, stored_chunks}

-- All chunks up to a number are there.
abbrev pub AreThere : {V : Type 0} → ℕ → ℕ → GoMap ℕ V → Type 0
AreThere i n m = (j : ℕ) → i ≤ j → j < i + n → lookup j m ≢ none

write_chunks-whole :
    (fs : FileSystem) (n i : ℕ) (infos : GoMap ℕ ChunkInfo) (cached : GoMap ℕ Bytes) (out : Bytes)
    → ((bytes : Bytes) → fs.can_write bytes ≡ true)
    → AreThere i n infos
    → AreThere i n cached
    → (write_chunks fs n i infos cached out).0 ≡ none
unfolding write_chunks
write_chunks-whole fs zero i infos cached out writes listed present = refl
write_chunks-whole fs (suc n) i infos cached out writes listed present =
    elim (Option-cases (lookup i infos)) [
      | inl e ↦ absurd (listed i (omega arith) (omega arith) e)
      | inr (info, e) ↦ elim (Option-cases (lookup i cached)) [
        | inl f ↦ absurd (present i (omega arith) (omega arith) f)
        | inr (bytes, f) ↦
            rw (e, f, writes bytes, write_chunks)
              (write_chunks-whole fs n (suc i) infos cached (out ++ bytes) writes
                (λ j lo hi. listed j (omega arith) (omega arith))
                (λ j lo hi. present j (omega arith) (omega arith)))
      ]
    ]

assemble_file-whole :
    (lib : Libraries) (fs : FileSystem) (session : FileTransferSession) (m : FileManager)
    (cached : GoMap ℕ Bytes)
    → IsWorking fs
    → lookup session.id m.chunk_cache ≡ some cached
    → AreThere 0 session.total_chunks session.chunks
    → AreThere 0 session.total_chunks cached
    → (lib.checksum (chunks_from session.total_chunks 0 cached) == session.checksum) ≡ true
    → (assemble_file lib fs session m).0 ≡ none
unfolding assemble_file place_file
assemble_file-whole lib fs session m cached working found listed present good =
    rw
      (
        working.creates (lib.path_of (lib.temporary session.id)),
        assemble_file,
        found,
        all,
        same,
        working.reads (lib.path_of (lib.temporary session.id)),
        good,
        working.renames (lib.path_of (lib.temporary session.id)) (lib.path_of session.file_name),
      )
      refl
  where
    all : (written fs session cached).0 ≡ none
    all =
        write_chunks-whole fs session.total_chunks 0 session.chunks cached [] working.writes listed
          present

    same : (written fs session cached).1 ≡ chunks_from session.total_chunks 0 cached
    same = (write_chunks-none fs session.total_chunks 0 session.chunks cached [] all).0

-- The cache behind some deliveries.
abbrev pub cached_after : List Delivery → GoMap ℕ Bytes → GoMap ℕ Bytes
cached_after [] cached = cached
cached_after (d ∷ ds) cached = cached_after ds (store d.index d.bytes cached)

-- A session that has some chunks, with those of them that are in the cache listed.
record IsOpen (id : String) (session : FileTransferSession) (cached : GoMap ℕ Bytes)
    (m : FileManager) : Type 0 where
  found : lookup id m.sessions ≡ some session
  named : session.id ≡ id
  chunks : cached_of id m ≡ cached
  listed : (j : ℕ) → lookup j cached ≢ none → lookup j session.chunks ≢ none

nothing : (j : ℕ) → lookup {V = Bytes} j [] ≡ none
unfolding lookup
nothing j = refl

module _ (lib : Libraries) (id : String) where
  -- A chunk whose checksum is right comes while the file system refuses nothing.
  abbrev pub IsGood : Delivery → Type 0
  IsGood d = ((lib.checksum d.bytes == d.sum) ≡ true) × IsWorking d.system

  listed_store :
      (d : Delivery) (session : FileTransferSession) (cached : GoMap ℕ Bytes)
      → ((j : ℕ) → lookup j cached ≢ none → lookup j session.chunks ≢ none)
      → (j : ℕ) → lookup j (store d.index d.bytes cached) ≢ none
      → lookup j (with_chunk d.now d.index d.bytes d.sum session).chunks ≢ none
  listed_store d session cached listed j = elim (Bool-cases (d.index == j)) [
    | inl same ↦ λ h e.
        absurd
          (let f : some _ ≡ none = rw (lookup-store d.index j info session.chunks, same) at e in cc)
    | inr other ↦ λ h e.
        listed j (rw (lookup-store d.index j d.bytes cached, other) at h)
          (rw (lookup-store d.index j info session.chunks, other) at e)
  ]
    where
      info : ChunkInfo
      info = record { index = d.index; size = length d.bytes; checksum = d.sum; recv_time = d.now }

  kept-IsOpen :
      (s : FileTransferSession) (cached : GoMap ℕ Bytes) (m m' : FileManager)
      → AreKept
          (record m {
            chunk_cache = store id cached m.chunk_cache;
            sessions = store id s m.sessions;
          })
          m'
      → s.id ≡ id
      → ((j : ℕ) → lookup j cached ≢ none → lookup j s.chunks ≢ none)
      → IsOpen id s cached m'
  kept-IsOpen s cached m m' (files, cache, sessions) named listed = record {
    found = rw (sessions, lookup-store id id s m.sessions, eq_self id) refl;
    named = named;
    chunks = stored_chunks id cached m m' cache;
    listed = listed;
  }

  -- Before the last chunk the session stays open.
  waiting :
      (d : Delivery) (session : FileTransferSession) (cached : GoMap ℕ Bytes) (m : FileManager)
      → IsOpen id session cached m
      → IsGood d
      → suc session.received_chunks < session.total_chunks
      → IsOpen id
          (with_chunk d.now d.index d.bytes d.sum session)
          (store d.index d.bytes cached)
          (save_file_chunk lib d.system d.now id d.index d.bytes d.sum m).1
  unfolding save_file_chunk accept_chunk
  waiting d session cached m opened (good, working) more =
      let few : leb session.total_chunks (suc session.received_chunks) ≡ false = ground arith in
      let next = with_chunk d.now d.index d.bytes d.sum session in
      rw (opened.found, good, few, save_file_chunk, accept_chunk)
        (kept-IsOpen next (store d.index d.bytes cached) m _
          (rw (← opened.chunks) (
            save_sessions_keeps lib d.system
              (counted lib d.now id d.index d.bytes d.sum session m next)))
          opened.named (listed_store d session cached opened.listed))

  -- The last chunk puts the file in its place.
  last :
      (d : Delivery) (session : FileTransferSession) (cached : GoMap ℕ Bytes) (m : FileManager)
      → (session_path lib == lib.path_of session.file_name) ≡ false
      → IsOpen id session cached m
      → IsGood d
      → session.total_chunks ≡ suc session.received_chunks
      → AreThere 0 session.total_chunks (store d.index d.bytes cached)
      → (lib.checksum (chunks_from session.total_chunks 0 (store d.index d.bytes cached))
          == session.checksum)
        ≡ true
      → let m' = (save_file_chunk lib d.system d.now id d.index d.bytes d.sum m).1 in
        lookup (lib.path_of session.file_name) m'.disk
        ≡ some (chunks_from session.total_chunks 0 (store d.index d.bytes cached))
  unfolding save_file_chunk accept_chunk
  last d session cached m apart opened (good, working) count present sum =
      rw (opened.found, good, full, placed, save_file_chunk, accept_chunk)
        (rw (← opened.chunks) (elim assembled.content [
          | inl same ↦ absurd (let e : true ≡ false = sym same ∙ apart in cc)
          | inr there ↦ there
        ]))
    where
      full : leb session.total_chunks (suc session.received_chunks) ≡ true
      full = ground arith

      done : FileTransferSession
      done = whole lib d.now id d.index d.bytes d.sum session m

      now_cached : GoMap ℕ Bytes
      now_cached = chunks_now lib d.now id d.index d.bytes d.sum session m

      chunks_same : now_cached ≡ store d.index d.bytes cached
      chunks_same = ap (store d.index d.bytes) opened.chunks

      before : FileManager
      before = counted lib d.now id d.index d.bytes d.sum session m done

      found : lookup done.id before.chunk_cache ≡ some now_cached
      found = rw (opened.named, lookup-store id id now_cached m.chunk_cache, eq_self id) refl

      there : AreThere 0 session.total_chunks now_cached
      there = rw chunks_same present

      placed : (assemble_file lib d.system done before).0 ≡ none
      placed =
          assemble_file-whole lib d.system done before now_cached working found
            (λ j lo hi. listed_store d session cached opened.listed j (present j lo hi)) there
            (rw chunks_same sum)

      assembled :
          IsAssembled lib done now_cached before
            (save_sessions lib d.system
              (update_transfer_stats done (assemble_file lib d.system done before).1)).1
      assembled =
          save_sessions-IsAssembled lib d.system done now_cached before _
            (assemble_file-IsAssembled lib d.system done before now_cached found placed)

  deliver_all-file :
      (ds : List Delivery) (session : FileTransferSession) (cached : GoMap ℕ Bytes)
      (m : FileManager)
      → (session_path lib == lib.path_of session.file_name) ≡ false
      → IsOpen id session cached m
      → All IsGood ds
      → 1 ≤ length ds
      → session.total_chunks ≡ session.received_chunks + length ds
      → AreThere 0 session.total_chunks (cached_after ds cached)
      → (lib.checksum (chunks_from session.total_chunks 0 (cached_after ds cached))
          == session.checksum)
        ≡ true
      → lookup (lib.path_of session.file_name) (deliver_all lib id ds m).disk
        ≡ some (chunks_from session.total_chunks 0 (cached_after ds cached))
  unfolding deliver_all
  deliver_all-file [] session cached m apart opened good any count present sum =
      absurd (omega arith)
  deliver_all-file (d ∷ []) session cached m apart opened good any count present sum =
      last d session cached m apart opened good.0 (omega arith) present sum
  deliver_all-file (d ∷ e ∷ ds) session cached m apart opened good any count present sum =
      deliver_all-file (e ∷ ds) (with_chunk d.now d.index d.bytes d.sum session)
        (store d.index d.bytes cached) _ apart
        (waiting d session cached m opened good.0 (omega arith)) good.1 (omega arith) (omega arith)
        present sum

-- When a session is created of which no chunk is in the cache, and then as many chunks come as it has,
-- with the right checksums and every number among them, in any order, and one behind the other they
-- have the checksum of the session, and the file system refuses nothing meanwhile, and the path of the
-- session's name is not that of sessions.json, then the file of this name holds them.
pub get_file-deliver_all :
    (lib : Libraries) (fs : FileSystem) (now : ℕ) (id name : String) (size : ℕ)
    (sum sender receiver : String) (ds : List Delivery) (m : FileManager)
    → IsWorking fs
    → (session_path lib == lib.path_of name) ≡ false
    → cached_of id m ≡ []
    → All (IsGood lib id) ds
    → 1 ≤ length ds
    → AreThere 0 (length ds) (cached_after ds [])
    → (lib.checksum (chunks_from (length ds) 0 (cached_after ds [])) == sum) ≡ true
    → get_file lib fs name (
        deliver_all lib id ds
          (create_session lib fs now id name size sum sender receiver (length ds) m))
      ≡ some (chunks_from (length ds) 0 (cached_after ds []))
unfolding get_file create_session
get_file-deliver_all lib fs now id name size sum sender receiver ds m working apart empty good any
      present right =
    rw (working.reads (lib.path_of name))
      (deliver_all-file lib id ds session [] _ apart opened good any (omega arith) present right)
  where
    session : FileTransferSession
    session = new_session now id name size sum sender receiver (length ds)

    kept :
        AreKept
          (record m { sessions = store id session m.sessions })
          (create_session lib fs now id name size sum sender receiver (length ds) m)
    kept = save_sessions_keeps lib fs (record m { sessions = store id session m.sessions })

    opened :
        IsOpen id session []
          (create_session lib fs now id name size sum sender receiver (length ds) m)
    opened = record {
      found = rw (kept.2, lookup-store id id session m.sessions, eq_self id) refl;
      named = refl;
      chunks =
          ap {A = GoMap String (GoMap ℕ Bytes)} (λ c. elim (lookup id c) [ none ↦ [] | some x ↦ x ])
            kept.1
          ∙ empty;
      listed = λ j h. absurd (h (nothing j));
    }
