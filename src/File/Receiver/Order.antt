-- ===== src/File/Receiver/Order.antt =====
-- `Receiver` of internal/file/receiver.go: the order of arrival does not matter.
use mathlib.Core.List.{Memᴰ}
use native.Mathlib.Decide.{dec_le, dec_lt}
use native.Mathlib.Nat.{div-mul-le_self, lt-div-mul-add}
use t_chat.Base.{
  ℕ, ◌+◌, ◌-◌, ◌*◌, ◌/◌, ◌≤◌, ◌<◌, ◌≡◌, refl, ap, sym, ◌∙◌, ◌⊎◌, inl, inr, true, List, [], ◌∷◌,
  Bytes, arith, length, get_elem?, drop, get_elem?-take, get_elem?-drop, get_elem?-none,
  get_elem?-some, get_elem?_ext, All, bytes_eq_iff,
}
use t_chat.File.Disk.{
  read_at, write_at, length-read_at, length-write_at, get_elem?-write_at_inside,
  get_elem?-write_at_outside,
}
use t_chat.File.Chunks.{Chunk, verify_chunk, make_chunk}
use t_chat.File.Chunks.Split.{chunk_at}
use t_chat.File.Receiver.{Receiver, receive_chunk, is_complete}

-- The receiver after a sequence of chunks, each of which is written.
unfoldable pub receive_all : (Bytes → Bytes) → List Chunk → Receiver → Receiver
receive_all sha256 [] r = r
receive_all sha256 (c ∷ cs) r = receive_all sha256 cs (receive_chunk sha256 true c r).0

unfoldable pub arrivals : (Bytes → Bytes) → Bytes → ℕ → List ℕ → List Chunk
arrivals sha256 content chunk_size [] = []
arrivals sha256 content chunk_size (i ∷ is) =
    chunk_at sha256 content chunk_size i ∷ arrivals sha256 content chunk_size is

module _ (sha256 : Bytes → Bytes) (content : Bytes) (chunk_size : ℕ) where
  -- A chunk that was made from the file passes the test and is written at its place.
  receive_chunk_at :
      (i : ℕ) (r : Receiver)
      → r.chunk_size ≡ chunk_size
      → (receive_chunk sha256 true (chunk_at sha256 content chunk_size i) r).0 ≡ record r {
        file = write_at (read_at chunk_size (i * chunk_size) content) (i * chunk_size) r.file;
      }
  unfolding receive_chunk verify_chunk make_chunk
  receive_chunk_at i r h = rw (
    (bytes_eq_iff (sha256 (read_at chunk_size (i * chunk_size) content))
          (sha256 (read_at chunk_size (i * chunk_size) content))).1
        refl,
    h,
  )

  get_elem?-read_at :
      (offset j : ℕ)
      → offset ≤ j
      → j < offset + chunk_size
      → get_elem? (read_at chunk_size offset content) (j - offset) ≡ get_elem? content j
  unfolding read_at
  get_elem?-read_at offset j lo hi = ground (
    arith,
    get_elem?-take chunk_size (drop offset content) (j - offset),
    get_elem?-drop offset content (j - offset),
  )

  -- A byte that the chunk covers becomes right.
  write_sets :
      (file : Bytes) (i j : ℕ)
      → j < length content
      → i * chunk_size ≤ j
      → j < i * chunk_size + chunk_size
      → get_elem? (write_at (read_at chunk_size (i * chunk_size) content) (i * chunk_size) file) j
        ≡ get_elem? content j
  write_sets file i j h lo hi =
      get_elem?-write_at_inside (read_at chunk_size (i * chunk_size) content) (i * chunk_size) file
        j lo (omega (arith, length-read_at chunk_size (i * chunk_size) content))
      ∙ get_elem?-read_at (i * chunk_size) j lo hi

  -- And a byte of the file that is right stays right when a chunk is written.
  write_keeps :
      (file : Bytes) (i j : ℕ)
      → j < length content
      → get_elem? file j ≡ get_elem? content j
      → get_elem? (write_at (read_at chunk_size (i * chunk_size) content) (i * chunk_size) file) j
        ≡ get_elem? content j
  write_keeps file i j h e = elim (dec_le (i * chunk_size) j) [
    | no before ↦ outside (inl (omega arith))
    | yes lo ↦ elim (dec_lt j (i * chunk_size + chunk_size)) [
      | yes hi ↦ write_sets file i j h lo hi
      | no behind ↦
          outside (inr (omega (arith, length-read_at chunk_size (i * chunk_size) content)))
    ]
  ]
    where
      present : j < length file
      present = ground (arith, get_elem?-none file j, get_elem?-some content j h)

      outside :
          (j < i * chunk_size)
            ⊎ (i * chunk_size + length (read_at chunk_size (i * chunk_size) content) ≤ j)
          → get_elem?
              (write_at (read_at chunk_size (i * chunk_size) content) (i * chunk_size) file)
              j
            ≡ get_elem? content j
      outside out =
          get_elem?-write_at_outside (read_at chunk_size (i * chunk_size) content) (i * chunk_size)
            file j present out
          ∙ e

  abbrev written_at : ℕ → Receiver → Receiver
  written_at i r = record r {
    file = write_at (read_at chunk_size (i * chunk_size) content) (i * chunk_size) r.file;
  }

  receive_all_step :
      (i : ℕ) (is : List ℕ) (r : Receiver)
      → r.chunk_size ≡ chunk_size
      → receive_all sha256 (arrivals sha256 content chunk_size (i ∷ is)) r
        ≡ receive_all sha256 (arrivals sha256 content chunk_size is) (written_at i r)
  unfolding receive_all arrivals
  receive_all_step i is r size =
      ap (receive_all sha256 (arrivals sha256 content chunk_size is)) (receive_chunk_at i r size)

  receive_all_size :
      (is : List ℕ) (r : Receiver)
      → r.chunk_size ≡ chunk_size
      → (receive_all sha256 (arrivals sha256 content chunk_size is) r).file_size ≡ r.file_size
  receive_all_size [] r size = unfold receive_all arrivals in refl
  receive_all_size (i ∷ is) r size =
      rw (receive_all_step i is r size) (receive_all_size is (written_at i r) size)

  abbrev Right : Bytes → ℕ → Type 0
  Right file j = get_elem? file j ≡ get_elem? content j

  receive_all_byte :
      (is : List ℕ) (r : Receiver) (j : ℕ)
      → 0 < chunk_size
      → r.chunk_size ≡ chunk_size
      → j < length content
      → Memᴰ (j / chunk_size) is ⊎ Right r.file j
      → Right (receive_all sha256 (arrivals sha256 content chunk_size is) r).file j
  receive_all_byte [] r j pos size h (inl m) = elim m [ ]
  receive_all_byte [] r j pos size h (inr e) = unfold receive_all arrivals in e
  receive_all_byte (i ∷ is) r j pos size h where_it_is =
      rw (receive_all_step i is r size)
        (receive_all_byte is (written_at i r) j pos size h (next where_it_is))
    where
      next :
          Memᴰ (j / chunk_size) (i ∷ is) ⊎ Right r.file j
          → Memᴰ (j / chunk_size) is ⊎ Right (written_at i r).file j
      next (inl (Memᴰ.head e)) = inr (
          write_sets r.file i j h
            (omega (arith, ap (λ (q : ℕ). q * chunk_size) e, div-mul-le_self j chunk_size))
            (omega (arith, ap (λ (q : ℕ). q * chunk_size) e, lt-div-mul-add {a = j} pos)))
      next (inl (Memᴰ.tail m)) = inl m
      next (inr e) = inr (write_keeps r.file i j h e)

  length-receive_all :
      (is : List ℕ) (r : Receiver)
      → r.chunk_size ≡ chunk_size
      → All (λ i. i * chunk_size < length content) is
      → length r.file ≤ length content
      → length (receive_all sha256 (arrivals sha256 content chunk_size is) r).file ≤ length content
  length-receive_all [] r size inside h = unfold receive_all arrivals in h
  length-receive_all (i ∷ is) r size inside h = rw (receive_all_step i is r size) (
      length-receive_all is (written_at i r) size inside.1 (
        omega (
          arith,
          inside.0,
          length-write_at (read_at chunk_size (i * chunk_size) content) (i * chunk_size) r.file,
          length-read_at chunk_size (i * chunk_size) content,
        )))

-- When every write succeeds, chunks of a file that arrive in any order, any number of times, give the
-- file, if each chunk
-- arrives or its bytes are right in the file already (as after an interrupted transfer) and the
-- file is not longer than the content; and the receiver then counts itself complete.
pub receive_all_lem :
    (sha256 : Bytes → Bytes) (content : Bytes) (chunk_size : ℕ) (is : List ℕ) (r : Receiver)
    → 0 < chunk_size
    → r.chunk_size ≡ chunk_size
    → r.file_size ≡ length content
    → length r.file ≤ length content
    → All (λ i. i * chunk_size < length content) is
    → ((j : ℕ)
        → j < length content
        → Memᴰ (j / chunk_size) is ⊎ (get_elem? r.file j ≡ get_elem? content j))
    → let done = receive_all sha256 (arrivals sha256 content chunk_size is) r in
      (done.file ≡ content) × (is_complete done ≡ true)
unfolding is_complete
receive_all_lem sha256 content chunk_size is r pos size whole short inside all =
    (same, ground (arith, ap length same, receive_all_size sha256 content chunk_size is r size))
  where
    done : Receiver
    done = receive_all sha256 (arrivals sha256 content chunk_size is) r

    same : done.file ≡ content
    same = get_elem?_ext done.file content λ j. elim (dec_lt j (length content)) [
      | yes h ↦ receive_all_byte sha256 content chunk_size is r j pos size h (all j h)
      | no behind ↦
          get_elem?-none done.file j
            (omega (arith, length-receive_all sha256 content chunk_size is r size inside short))
          ∙ sym (get_elem?-none content j (omega arith))
    ]
