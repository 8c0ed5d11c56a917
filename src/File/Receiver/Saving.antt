-- ===== src/File/Receiver/Saving.antt =====
-- `FileReceiver` of internal/file/receiver.go: the loop of `SaveToFile` ends, and writes the file.
use native.Mathlib.Decide.{dec_lt}
use t_chat.Base.{
  ℕ, zero, suc, ◌+◌, ◌*◌, ◌≤◌, ◌<◌, ◌≡◌, ◌≢◌, refl, ap, ◌∙◌, inl, inr, ◌||◌, Bool, true, false,
  none, some, List, [], ◌∷◌, Bytes, arith, if◌then◌else◌, length, GoMap, lookup, store,
  keys-le-length, lookup-store, nat_comparable, eqb, take, take_all, bytes_eq_iff, All,
  Option-cases,
}
use t_chat.File.Disk.{read_at, write_at}
use t_chat.File.Chunks.{Chunk, verify_chunk, make_chunk}
use t_chat.File.Chunks.Split.{chunk_at, chunk_count, chunk_count_bounds, write_at-take}
use t_chat.File.Receiver.{
  FileReceiver, file_receive_chunk, new_file_receiver, save_from, save_to_file,
}
use t_chat.File.Receiver.Order.{arrivals}

save_from_total :
    (writes_ok : ℕ → Bool) (chunks : GoMap ℕ Chunk) (fuel i : ℕ) (out : Bytes)
    → ((j : ℕ) → 0 ≤ j → j < 0 + i → lookup j chunks ≢ none)
    → length chunks < fuel + i
    → save_from writes_ok chunks fuel i out ≢ none
unfolding save_from
save_from_total writes_ok chunks zero i out h f =
    absurd (omega (arith, keys-le-length i 0 chunks h))
save_from_total writes_ok chunks (suc fuel) i out h f = elim (Option-cases (lookup i chunks)) [
  | inl gone ↦ ground arith
  | inr (c, found) ↦ ground (
    arith,
    save_from_total writes_ok chunks fuel (suc i) (write_at c.chunk_data c.offset out)
        (more c found) (omega arith),
  )
]
  where
    more :
        (c : Chunk)
        → lookup i chunks ≡ some c
        → (j : ℕ) → 0 ≤ j
        → j < 0 + suc i
        → lookup j chunks ≢ none
    more c found j lo hi e = elim (dec_lt j i) [
      | yes p ↦ h j lo (omega arith) e
      | no p ↦ let same : j ≡ i = omega arith in ground arith
    ]

-- `SaveToFile` ends on every map of chunks, whatever the writes do.
pub save_to_file_total :
    (can_create : Bool) (writes_ok : ℕ → Bool) (before : Bytes) (fr : FileReceiver)
    → save_to_file can_create writes_ok before fr ≢ none
unfolding save_to_file
save_to_file_total false writes_ok before fr = ground arith
save_to_file_total true writes_ok before fr =
    save_from_total writes_ok fr.chunks (suc (length fr.chunks)) 0 []
      (λ j lo hi. absurd (omega arith)) (omega arith)

abbrev pub elem : ℕ → List ℕ → Bool
elem j [] = false
elem j (i ∷ is) = eqb i j || elem j is

pub receive_file : (Bytes → Bytes) → List Chunk → FileReceiver → FileReceiver
receive_file sha256 [] fr = fr
receive_file sha256 (c ∷ cs) fr = receive_file sha256 cs (file_receive_chunk sha256 c fr).0

module _ (sha256 : Bytes → Bytes) (content : Bytes) (chunk_size : ℕ) where
  save_from_lem :
      (chunks : GoMap ℕ Chunk) (k fuel i : ℕ)
      → k < fuel
      → ((j : ℕ)
          → i ≤ j
          → j < i + k
          → lookup j chunks ≡ some (chunk_at sha256 content chunk_size j))
      → lookup (i + k) chunks ≡ none
      → length content ≤ (i + k) * chunk_size
      → (i + k) * chunk_size < length content + chunk_size
      → save_from (λ _. true) chunks fuel i (take (i * chunk_size) content) ≡ some (content, none)
  unfolding save_from make_chunk
  save_from_lem chunks k zero i f have stop reach needed = absurd (omega arith)
  save_from_lem chunks zero (suc fuel) i f have stop reach needed =
      let here : lookup i chunks ≡ none =
        ap (λ (n : ℕ). lookup n chunks) {y = i + zero} (omega arith) ∙ stop in
      rw (here, save_from)
        (ap (λ c. some (c, none)) (take_all (i * chunk_size) content (omega arith)))
  save_from_lem chunks (suc k) (suc fuel) i f have stop reach needed =
      rw
        (
          have i (omega arith) (omega arith),
          save_from,
          write_at-take content (i * chunk_size) chunk_size (omega arith),
          ← next_offset,
        )
        (save_from_lem chunks k fuel (suc i) (omega arith)
          (λ j lo hi. have j (omega arith) (omega arith))
          (ap (λ (n : ℕ). lookup n chunks) {y = i + suc k} (omega arith) ∙ stop) (omega arith)
          (omega arith))
    where
      next_offset : suc i * chunk_size ≡ i * chunk_size + chunk_size
      next_offset = omega arith

  file_receive_chunk_at :
      (i : ℕ) (fr : FileReceiver)
      → (file_receive_chunk sha256 (chunk_at sha256 content chunk_size i) fr).0
        ≡ record fr { chunks = store i (chunk_at sha256 content chunk_size i) fr.chunks }
  unfolding file_receive_chunk verify_chunk make_chunk
  file_receive_chunk_at i fr = rw (
      (bytes_eq_iff (sha256 (read_at chunk_size (i * chunk_size) content))
          (sha256 (read_at chunk_size (i * chunk_size) content))).1
        refl)

  receive_file_step :
      (i : ℕ) (is : List ℕ) (fr : FileReceiver)
      → receive_file sha256 (arrivals sha256 content chunk_size (i ∷ is)) fr
        ≡ receive_file sha256
            (arrivals sha256 content chunk_size is)
            (record fr { chunks = store i (chunk_at sha256 content chunk_size i) fr.chunks })
  unfolding receive_file arrivals
  receive_file_step i is fr =
      ap (receive_file sha256 (arrivals sha256 content chunk_size is)) (file_receive_chunk_at i fr)

  -- What the map holds after chunks of the file have arrived.
  lookup-receive_file :
      (is : List ℕ) (fr : FileReceiver) (j : ℕ)
      → lookup j (receive_file sha256 (arrivals sha256 content chunk_size is) fr).chunks
        ≡ (if elem j is then some (chunk_at sha256 content chunk_size j) else lookup j fr.chunks)
  lookup-receive_file [] fr j = unfold receive_file arrivals in refl
  lookup-receive_file (i ∷ is) fr j = rw (receive_file_step i is fr) (
      ground (
        arith,
        lookup-receive_file is
            (record fr { chunks = store i (chunk_at sha256 content chunk_size i) fr.chunks }) j,
        lookup-store i j (chunk_at sha256 content chunk_size i) fr.chunks,
      ))

elem-above : (n : ℕ) (is : List ℕ) → All (λ i. i < n) is → elem n is ≡ false
elem-above n [] h = refl
elem-above n (i ∷ is) h = ground (arith, elem-above n is h.1)

-- If every chunk of a file arrives, in any order and any number of times, the new file can be created,
-- and every write succeeds, `SaveToFile` writes the file.
pub save_to_file-receive_file :
    (sha256 : Bytes → Bytes) (content : Bytes) (chunk_size : ℕ) (is : List ℕ) (before : Bytes)
    → 0 < chunk_size
    → All (λ i. i < chunk_count (length content) chunk_size) is
    → ((i : ℕ) → i < chunk_count (length content) chunk_size → elem i is ≡ true)
    → save_to_file true
        (λ _. true)
        before
        (receive_file sha256
          (arrivals sha256 content chunk_size is)
          (new_file_receiver (length content)))
      ≡ some (content, none)
unfolding save_to_file new_file_receiver lookup
save_to_file-receive_file sha256 content chunk_size is before pos inside all =
    ap (λ (n : ℕ). save_from (λ _. true) chunks (suc (length chunks)) 0 (take n content)) {x = 0}
      {y = 0 * chunk_size} (omega arith)
    ∙ save_from_lem sha256 content chunk_size chunks count (suc (length chunks)) 0
        (omega
          (arith, keys-le-length count 0 chunks λ j lo hi e. ground (arith, held j (omega arith))))
        (λ j lo hi. held j (omega arith))
        (ap (λ (n : ℕ). lookup n chunks) {x = 0 + count} {y = count} (omega arith)
          ∙ lookup-receive_file sha256 content chunk_size is empty count
          ∙ nothing_above)
        (omega (arith, chunk_count_bounds (length content) chunk_size pos))
        (omega (arith, chunk_count_bounds (length content) chunk_size pos))
  where
    empty : FileReceiver
    empty = record { total_size = length content; chunks = [] }

    chunks : GoMap ℕ Chunk
    chunks = (receive_file sha256 (arrivals sha256 content chunk_size is) empty).chunks

    count : ℕ
    count = chunk_count (length content) chunk_size

    held : (j : ℕ) → j < count → lookup j chunks ≡ some (chunk_at sha256 content chunk_size j)
    held j h = lookup-receive_file sha256 content chunk_size is empty j ∙ rw (all j h)

    nothing_above :
        (if elem count is
          then some (chunk_at sha256 content chunk_size count)
          else lookup count empty.chunks)
        ≡ none
    nothing_above = rw (elem-above count is inside, lookup)
