-- ===== src/File/Window/Sliding.antt =====
-- `MarkAcked` and `slideWindow` of internal/file/window.go: where the window starts.
use t_chat.Base.{
  ℕ, ◌≤◌, ◌≡◌, ◌≢◌, refl, ◌⊎◌, inl, inr, true, none, some, [], ◌∷◌, ltb, eqb, eqb_iff,
  if◌then◌else◌, GoMap, lookup, store, remove, lookup-remove, nat_comparable, arith, Bool-cases,
  ◌==◌,
}
use t_chat.File.Chunks.{Chunk}
use t_chat.File.Window.{SlidingWindow, mark_acked, slide_window, min_index}

-- The least key of a map, or a given number.
record IsLeast (m : GoMap ℕ Chunk) (start least : ℕ) : Type 0 where
  below_start : least ≤ start
  below_keys : (k : ℕ) → lookup k m ≢ none → least ≤ k
  attained : (least ≡ start) ⊎ (lookup least m ≢ none)

attained_cons :
    (j : ℕ) (c : Chunk) (m : GoMap ℕ Chunk) (start least : ℕ)
    → (least ≡ (if ltb j start then j else start)) ⊎ (lookup least m ≢ none)
    → (least ≡ start) ⊎ (lookup least ((j, c) ∷ m) ≢ none)
unfolding lookup
attained_cons j c m start least (inr h) = inr (λ e. h (ground arith))
attained_cons j c m start least (inl e) = elim (Bool-cases (ltb j start)) [
  | inl less ↦ inr (λ q. ground arith)
  | inr not_less ↦ inl (ground arith)
]

min_index-some :
    (m : GoMap ℕ Chunk) (start : ℕ)
    → (least : ℕ) × (min_index (some start) m ≡ some least) × IsLeast m start least
unfolding min_index lookup
min_index-some [] start = (
  start,
  refl,
  record { below_start = omega arith; below_keys = λ k h. absurd (h refl); attained = inl refl },
)
min_index-some ((j, c) ∷ m) start =
    let start' : ℕ = if ltb j start then j else start in
    let (least, found, is) = min_index-some m start' in
    (
      least,
      found,
      record {
        below_start = ground (arith, is.below_start);
        below_keys = λ k h. elim (Bool-cases (eqb j k)) [
          | inl same ↦ ground (arith, is.below_start)
          | inr other ↦ is.below_keys k (rw other at h)
        ];
        attained = attained_cons j c m start least is.attained;
      },
    )

min_index-none :
    (m : GoMap ℕ Chunk)
    → ((m ≡ []) × (min_index none m ≡ none))
      ⊎ ((least : ℕ) × (min_index none m ≡ some least)
          × ((k : ℕ) → lookup k m ≢ none → least ≤ k)
          × (lookup least m ≢ none))
unfolding min_index lookup
min_index-none [] = inl (refl, refl)
min_index-none ((j, c) ∷ m) =
    let (least, found, is) = min_index-some m j in
    inr (
      least,
      found,
      λ k h. elim (Bool-cases (eqb j k)) [
        | inl same ↦ omega (arith, is.below_start, (eqb_iff j k).0 same)
        | inr other ↦ is.below_keys k (rw other at h)
      ],
      elim is.attained [ inl e ↦ λ q. ground arith | inr h ↦ λ q. h (ground arith) ],
    )

abbrev unslid : ℕ → SlidingWindow → SlidingWindow
unslid i sw = record sw {
  sent_chunks = remove i sw.sent_chunks;
  acked_chunks = store i true sw.acked_chunks;
}

mark_acked-none :
    (i : ℕ) (sw : SlidingWindow)
    → min_index none (remove i sw.sent_chunks) ≡ none
    → mark_acked i sw ≡ unslid i sw
unfolding mark_acked
mark_acked-none i sw e = rw (e, slide_window)

mark_acked-some :
    (i least : ℕ) (sw : SlidingWindow)
    → min_index none (remove i sw.sent_chunks) ≡ some least
    → mark_acked i sw ≡ record (unslid i sw) { base_index = least }
unfolding mark_acked
mark_acked-some i least sw e = rw (e, slide_window)

-- After `MarkAcked i` the chunk `i` is no longer waited for, and every other chunk as before. If
-- some chunk is still waited for, the window starts at the least of them; otherwise its start
-- stays.
pub mark_acked_lem :
    (i : ℕ) (sw : SlidingWindow)
    → ((k : ℕ)
        → lookup k (mark_acked i sw).sent_chunks
          ≡ (if i == k then none else lookup k sw.sent_chunks))
      × (((mark_acked i sw).sent_chunks ≡ []) × ((mark_acked i sw).base_index ≡ sw.base_index)
          ⊎ (lookup (mark_acked i sw).base_index (mark_acked i sw).sent_chunks ≢ none)
            × ((k : ℕ)
                → lookup k (mark_acked i sw).sent_chunks ≢ none
                → (mark_acked i sw).base_index ≤ k))
mark_acked_lem i sw = elim (min_index-none (remove i sw.sent_chunks)) [
  | inl (empty, e) ↦
      rw (mark_acked-none i sw e) (λ k. lookup-remove i k sw.sent_chunks, inl (empty, refl))
  | inr (least, e, below, there) ↦
      rw (mark_acked-some i least sw e) (λ k. lookup-remove i k sw.sent_chunks, inr (there, below))
]
