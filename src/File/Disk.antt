-- ===== src/File/Disk.antt =====
-- `os.File` as far as internal/file uses it: the content is a list of bytes, read and written at
-- an offset. A write behind the end fills the gap with zeros.
use t_chat.Base.{
  ℕ, zero, suc, ◌+◌, ◌-◌, ◌≡◌, ◌≤◌, ◌<◌, ◌⊎◌, refl, ap, ◌++◌, Bytes, min, max, length, take, drop,
  replicate, get_elem?, arith, length-append, length-take, length-drop, get_elem?-append,
  get_elem?-take, get_elem?-drop, ltb, if◌then◌else◌,
}

unfoldable pub read_at : ℕ → ℕ → Bytes → Bytes
read_at n offset content = take n (drop offset content)

abbrev zeros : ℕ → Bytes
zeros n = replicate n 0

unfoldable pub write_at : Bytes → ℕ → Bytes → Bytes
write_at bytes offset content =
    take offset content
    ++ (zeros (offset - length content) ++ (bytes ++ drop (offset + length bytes) content))

pub length-read_at :
    (n offset : ℕ) (content : Bytes)
    → length (read_at n offset content) ≡ min n (length content - offset)
unfolding read_at
length-read_at n offset content =
    omega (arith, length-take n (drop offset content), length-drop offset content)

length-zeros : (n : ℕ) → length (zeros n) ≡ n
length-zeros zero = refl
length-zeros (suc n) = ap suc (length-zeros n)

module _ (bytes : Bytes) (offset : ℕ) (content : Bytes) where
  abbrev before : Bytes
  before = take offset content

  abbrev gap : Bytes
  gap = zeros (offset - length content)

  abbrev behind : Bytes
  behind = drop (offset + length bytes) content

  length-before : length before + length gap ≡ offset
  length-before = omega (arith, length-take offset content, length-zeros (offset - length content))

  pub length-write_at :
      length (write_at bytes offset content) ≡ max (length content) (offset + length bytes)
  unfolding write_at
  length-write_at = omega (
    arith,
    length-append before (gap ++ (bytes ++ behind)),
    length-append gap (bytes ++ behind),
    length-append bytes behind,
    length-before,
    length-drop (offset + length bytes) content,
  )

  get_elem?-parts :
      (j : ℕ)
      → get_elem? (write_at bytes offset content) j ≡ (
          if ltb j (length before)
          then get_elem? before j
          else if ltb (j - length before) (length gap)
          then get_elem? gap (j - length before)
          else if ltb (j - length before - length gap) (length bytes)
          then get_elem? bytes (j - length before - length gap)
          else get_elem? behind (j - length before - length gap - length bytes))
  unfolding write_at
  get_elem?-parts j = rw (
    get_elem?-append before (gap ++ (bytes ++ behind)) j,
    get_elem?-append gap (bytes ++ behind) (j - length before),
    get_elem?-append bytes behind (j - length before - length gap),
  )

  -- A byte that is written is the new one.
  pub get_elem?-write_at_inside :
      (j : ℕ)
      → offset ≤ j
      → j < offset + length bytes
      → get_elem? (write_at bytes offset content) j ≡ get_elem? bytes (j - offset)
  get_elem?-write_at_inside j lo hi = ground (arith, get_elem?-parts j, length-before)

  -- A byte before or behind the written ones stays, if it was there.
  pub get_elem?-write_at_outside :
      (j : ℕ)
      → j < length content
      → (j < offset) ⊎ (offset + length bytes ≤ j)
      → get_elem? (write_at bytes offset content) j ≡ get_elem? content j
  get_elem?-write_at_outside j h out = ground (
    arith,
    get_elem?-parts j,
    length-before,
    length-take offset content,
    get_elem?-take offset content j,
    get_elem?-drop (offset + length bytes) content (j - length before - length gap - length bytes),
  )
