-- ===== src/File/Window.antt =====
-- The sliding window of the sender: internal/file/window.go.
pub mod Sliding
use t_chat.Base.{
  ℕ, suc, Bool, true, false, Option, none, some, List, [], ◌∷◌, map, ltb, leb, eqb, if◌then◌else◌,
  GoMap, lookup, store, remove, nat_comparable, length,
}
use t_chat.File.Chunks.{Chunk}

pub record SlidingWindow : Type 0 where
  pub window_size : ℕ
  pub sent_chunks : GoMap ℕ Chunk
  pub acked_chunks : GoMap ℕ Bool
  pub base_index : ℕ
  pub next_index : ℕ

unfoldable pub new_sliding_window : ℕ → SlidingWindow
new_sliding_window window_size = record {
  window_size = window_size;
  sent_chunks = [];
  acked_chunks = [];
  base_index = 0;
  next_index = 0;
}

unfoldable pub is_window_full : SlidingWindow → Bool
is_window_full sw = leb sw.window_size (length sw.sent_chunks)

unfoldable pub is_all_acked : SlidingWindow → Bool
is_all_acked sw = eqb (length sw.sent_chunks) 0

unfoldable pub add_chunk : Chunk → SlidingWindow → SlidingWindow
add_chunk chunk sw = record sw { sent_chunks = store chunk.index chunk sw.sent_chunks }

-- The loop of `slideWindow`: `minIndex`, with `none` for -1.
unfoldable pub min_index : Option ℕ → GoMap ℕ Chunk → Option ℕ
min_index m [] = m
min_index none ((index, c) ∷ rest) = min_index (some index) rest
min_index (some m) ((index, c) ∷ rest) = min_index (some (if ltb index m then index else m)) rest

unfoldable pub slide_window : SlidingWindow → SlidingWindow
unfolding min_index
slide_window sw = elim (min_index none sw.sent_chunks) [
  | none ↦ sw
  | some m ↦ record sw { base_index = m }
]

unfoldable pub mark_acked : ℕ → SlidingWindow → SlidingWindow
unfolding slide_window
mark_acked chunk_index sw = slide_window (record sw {
  sent_chunks = remove chunk_index sw.sent_chunks;
  acked_chunks = store chunk_index true sw.acked_chunks;
})

unfoldable pub get_unacked_chunks : SlidingWindow → List Chunk
get_unacked_chunks sw = map (λ kv. kv.1) sw.sent_chunks

unfoldable pub set_window_size : ℕ → SlidingWindow → SlidingWindow
set_window_size size sw = record sw { window_size = size }

unfoldable pub reset : SlidingWindow → SlidingWindow
reset sw = record sw { sent_chunks = []; acked_chunks = []; base_index = 0; next_index = 0 }
