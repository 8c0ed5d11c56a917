-- ===== src/File/Manager/Restart.antt =====
-- Sessions that lack a chunk in the cache, after a restart or when another chunk came twice:
-- internal/file/manager.go.
use t_chat.Base.{
  ℕ, suc, ◌+◌, ◌≤◌, ◌<◌, ◌≡◌, ◌≢◌, refl, ap, ◌∙◌, true, Option, none, some, List, [], ◌∷◌, String,
  Bytes, string_comparable, nat_comparable, ◌==◌, eqb_iff, GoMap, lookup, store, arith, inl, inr,
  lookup-store, eq_self, All, length,
}
use t_chat.File.Manager.{
  Libraries, FileSystem, completed, FileInfo, FileTransferSession, FileManager, new_manager,
}
use t_chat.File.Manager.Chunks.{save_file_chunk, accept_chunk, cached_of, get_session}
use t_chat.File.Manager.Placed.{accept_chunk-cases, AreKept}

-- A call of SaveFileChunk for one session, with what the file system allows then.
pub record Delivery : Type 0 where
  pub system : FileSystem
  pub now : ℕ
  pub index : ℕ
  pub bytes : Bytes
  pub sum : String

unfoldable pub deliver_all : Libraries → String → List Delivery → FileManager → FileManager
deliver_all lib id [] m = m
deliver_all lib id (d ∷ ds) m =
    deliver_all lib id ds (save_file_chunk lib d.system d.now id d.index d.bytes d.sum m).1

-- The session, which lacks a chunk.
pub record IsLacking (id : String) (j : ℕ) (session : FileTransferSession) (m : FileManager)
    : Type 0 where
  pub found : lookup id m.sessions ≡ some session
  pub named : session.id ≡ id
  pub wanted : j < session.total_chunks
  pub missing : lookup j (cached_of id m) ≡ none

-- What a chunk other than the missing one does to the session, if its checksum is right.
record IsCounted (id : String) (j : ℕ) (session : FileTransferSession) (m m' : FileManager)
    : Type 0 where
  next : FileTransferSession
  lacking : IsLacking id j next m'
  files : m'.files ≡ m.files
  more : next.received_chunks ≡ suc session.received_chunks
  same_total : next.total_chunks ≡ session.total_chunks
  full : session.total_chunks ≤ next.received_chunks → next.status ≡ completed

pub stored_chunks :
    (id : String) (cached : GoMap ℕ Bytes) (m m' : FileManager)
    → m'.chunk_cache ≡ store id cached m.chunk_cache
    → cached_of id m' ≡ cached
stored_chunks id cached m m' e =
    ap {A = Option (GoMap ℕ Bytes)} (λ o. elim o [ none ↦ [] | some c ↦ c ])
      {x = lookup id m'.chunk_cache} {y = some cached}
      (rw (e, lookup-store id id cached m.chunk_cache, eq_self id) refl)

module _ (lib : Libraries) (id : String) (j : ℕ) where
  cached_j :
      (i : ℕ) (bytes : Bytes) (cached : GoMap ℕ Bytes)
      → i ≢ j
      → lookup j cached ≡ none
      → lookup j (store i bytes cached) ≡ none
  cached_j i bytes cached other missing = ground (arith, lookup-store i j bytes cached, eqb_iff i j)

  kept-IsCounted :
      (i : ℕ) (bytes : Bytes) (session s : FileTransferSession) (m m' : FileManager)
      → IsLacking id j session m
      → i ≢ j
      → AreKept
          (record m {
            chunk_cache = store id (store i bytes (cached_of id m)) m.chunk_cache;
            sessions = store id s m.sessions;
          })
          m'
      → s.id ≡ id
      → s.received_chunks ≡ suc session.received_chunks
      → s.total_chunks ≡ session.total_chunks
      → (session.total_chunks ≤ suc session.received_chunks → s.status ≡ completed)
      → IsCounted id j session m m'
  kept-IsCounted i bytes session s m m' lacking other (files, cache, sessions) named more total
        full =
      record {
        next = s;
        lacking = record {
          found = rw (sessions, lookup-store id id s m.sessions, eq_self id) refl;
          named = named;
          wanted = rw total lacking.wanted;
          missing =
              rw (stored_chunks id (store i bytes (cached_of id m)) m m' cache)
                (cached_j i bytes (cached_of id m) other lacking.missing);
        };
        files = files;
        more = more;
        same_total = total;
        full = λ h. full (omega (arith, more));
      }

  accept_chunk-IsCounted :
      (d : Delivery) (session : FileTransferSession) (m : FileManager)
      → IsLacking id j session m
      → d.index ≢ j
      → IsCounted id j session m
          (accept_chunk lib d.system d.now id d.index d.bytes d.sum session m).1
  accept_chunk-IsCounted d session m lacking other =
      elim (accept_chunk-cases lib d.now id d.index d.bytes d.sum session m d.system
        lacking.named) [
          | inl (inl (more, kept)) ↦
              kept-IsCounted d.index d.bytes session _ m _ lacking other kept lacking.named refl
                refl (λ h. absurd (ground (arith, more)))
          | inl (inr kept) ↦
              kept-IsCounted d.index d.bytes session _ m _ lacking other kept lacking.named refl
                refl (λ h. refl)
          | inr assembled ↦ absurd (
              assembled.complete j lacking.wanted
                (cached_j d.index d.bytes (cached_of id m) other lacking.missing))
        ]

  -- The chunks that come have the right checksum, and none of them is the missing one.
  abbrev pub IsOther : Delivery → Type 0
  IsOther d = (d.index ≢ j) × ((lib.checksum d.bytes == d.sum) ≡ true)

  save_file_chunk-IsCounted :
      (d : Delivery) (session : FileTransferSession) (m : FileManager)
      → IsLacking id j session m
      → IsOther d
      → IsCounted id j session m (save_file_chunk lib d.system d.now id d.index d.bytes d.sum m).1
  unfolding save_file_chunk
  save_file_chunk-IsCounted d session m lacking (other, good) =
      rw (lacking.found, good, save_file_chunk) (accept_chunk-IsCounted d session m lacking other)

  abbrev pub IsMarked : ℕ → FileTransferSession → FileManager → FileManager → Type 0
  IsMarked n session m m' =
      (session' : FileTransferSession) × (get_session id m' ≡ some session')
      × (session'.received_chunks ≡ session.received_chunks + n)
      × (session.total_chunks ≤ session'.received_chunks → 1 ≤ n → session'.status ≡ completed)
      × (m'.files ≡ m.files)

  -- When a session lacks a chunk in the cache, and chunks come with the right checksums, none of them
  -- the missing one, they are all counted, the session is marked as completed if it has now counted
  -- as many chunks as it has, and the list of files stays as it is.
  pub deliver_all-IsMarked :
      (ds : List Delivery) (session : FileTransferSession) (m : FileManager)
      → IsLacking id j session m
      → All IsOther ds
      → IsMarked (length ds) session m (deliver_all lib id ds m)
  unfolding deliver_all get_session
  deliver_all-IsMarked [] session m lacking others =
      (session, lacking.found, omega arith, λ h none. absurd (omega arith), refl)
  deliver_all-IsMarked (d ∷ []) session m lacking others =
      let c = save_file_chunk-IsCounted d session m lacking others.0 in
      (c.next, c.lacking.found, omega (arith, c.more), λ h some. c.full h, c.files)
  deliver_all-IsMarked (d ∷ e ∷ ds) session m lacking others =
      let c = save_file_chunk-IsCounted d session m lacking others.0 in
      let (session', found, count, marked, files) =
        deliver_all-IsMarked (e ∷ ds) c.next _ c.lacking others.1 in
      (
        session',
        found,
        omega (arith, c.more),
        λ h some. marked (omega (arith, c.same_total)) (omega arith),
        files ∙ c.files,
      )

-- After a restart, with a session among the saved ones that has a chunk of some number, received
-- before or not: as long as chunks of it come with the right checksums, but not the one of this
-- number, no file is added to the list, although chunks that have been received before are still
-- counted, and the session is marked as completed when as many are counted as it has.
pub deliver_all-new_manager :
    (lib : Libraries) (id : String) (j : ℕ) (disk : GoMap String Bytes)
    (files : GoMap String FileInfo) (sessions : GoMap String FileTransferSession)
    (session : FileTransferSession) (ds : List Delivery)
    → lookup id sessions ≡ some session
    → session.id ≡ id
    → j < session.total_chunks
    → All (IsOther lib id j) ds
    → IsMarked lib id j
        (length ds)
        session
        (new_manager disk files sessions)
        (deliver_all lib id ds (new_manager disk files sessions))
unfolding new_manager lookup
deliver_all-new_manager lib id j disk files sessions session ds found named wanted others =
    deliver_all-IsMarked lib id j ds session (new_manager disk files sessions)
      (record { found = found; named = named; wanted = wanted; missing = refl }) others
