-- ===== src/Examples/File.antt =====
-- A file of five bytes in chunks of two: internal/file/chunk.go, receiver.go, window.go and
-- protocol.go.
use mathlib.Core.List.{Memᴰ}
use t_chat.Base.{
  ℕ, zero, suc, ◌≡◌, ◌<◌, ◌⊎◌, refl, inl, inr, true, none, some, List, [], ◌∷◌, Bytes, take, arith,
  get_elem?, nat_comparable, ◌/◌,
}
use t_chat.File.Chunks.{Chunk, Source, ok, split_file, merge_chunks, ChunkManager}
use t_chat.File.Chunks.Split.{chunk_count, chunk_at, merge_chunks-split_file}
use t_chat.File.Receiver.{Receiver, is_complete, new_file_receiver, save_to_file}
use t_chat.File.Receiver.Order.{receive_all, arrivals, receive_all_lem}
use t_chat.File.Receiver.Saving.{receive_file, save_to_file-receive_file, elem}
use t_chat.File.Window.{SlidingWindow}

-- A short checksum in the place of SHA-256.
abbrev checksum : Bytes → Bytes
checksum xs = take 2 xs

abbrev photo : Bytes
photo = 1 ∷ 2 ∷ 3 ∷ 4 ∷ 5 ∷ []

abbrev on_disk : Source
on_disk = record { can_open = true; can_stat = true; content = photo; reads_ok = λ offset. true }

merge_chunks-split_file_example :
    (chunks : List Chunk) × (split_file checksum on_disk 2 ≡ some (ok chunks))
    × (merge_chunks true (λ _. true) (9 ∷ []) chunks ≡ (photo, none))
merge_chunks-split_file_example =
    merge_chunks-split_file checksum on_disk 2 (9 ∷ []) (omega arith) refl refl (λ offset. refl)

abbrev manager : ChunkManager
manager = record {
  file_id = [];
  chunk_size = 2;
  total_chunks = 3;
  current_chunk = 0;
  file = on_disk;
}

-- The first chunk is there already; the others arrive from the last on, one of them twice.
abbrev resumed : Receiver
resumed = record {
  file_id = [];
  file_size = 5;
  chunk_size = 2;
  resume_point = 1;
  file = 1 ∷ 2 ∷ [];
}

there_or_arriving :
    (j : ℕ) → j < 5 → Memᴰ (j / 2) (2 ∷ 1 ∷ 2 ∷ []) ⊎ (get_elem? resumed.file j ≡ get_elem? photo j)
there_or_arriving zero h = inr refl
there_or_arriving (suc zero) h = inr refl
there_or_arriving (suc (suc zero)) h = inl (Memᴰ.tail (Memᴰ.head refl))
there_or_arriving (suc (suc (suc zero))) h = inl (Memᴰ.tail (Memᴰ.head refl))
there_or_arriving (suc (suc (suc (suc zero)))) h = inl (Memᴰ.head refl)
there_or_arriving (suc (suc (suc (suc (suc j))))) h = absurd (omega arith)

receive_all_lem_example :
    ((receive_all checksum (arrivals checksum photo 2 (2 ∷ 1 ∷ 2 ∷ [])) resumed).file ≡ photo)
    × (is_complete (receive_all checksum (arrivals checksum photo 2 (2 ∷ 1 ∷ 2 ∷ [])) resumed)
        ≡ true)
receive_all_lem_example =
    receive_all_lem checksum photo 2 (2 ∷ 1 ∷ 2 ∷ []) resumed (omega arith) refl refl (omega arith)
      (omega arith, (omega arith, (omega arith, tt))) there_or_arriving

all_arrive : (i : ℕ) → i < chunk_count 5 2 → elem i (2 ∷ 0 ∷ 1 ∷ 0 ∷ []) ≡ true
unfolding chunk_count
all_arrive zero h = refl
all_arrive (suc zero) h = refl
all_arrive (suc (suc zero)) h = refl
all_arrive (suc (suc (suc i))) h = absurd (omega arith)

save_to_file-receive_file_example :
    save_to_file true
      (λ _. true)
      (9 ∷ [])
      (receive_file checksum (arrivals checksum photo 2 (2 ∷ 0 ∷ 1 ∷ 0 ∷ [])) (new_file_receiver 5))
    ≡ some (photo, none)
unfolding chunk_count
save_to_file-receive_file_example =
    save_to_file-receive_file checksum photo 2 (2 ∷ 0 ∷ 1 ∷ 0 ∷ []) (9 ∷ []) (omega arith)
      (omega arith, (omega arith, (omega arith, (omega arith, tt)))) all_arrive

abbrev sliding : SlidingWindow
sliding = record {
  window_size = 4;
  sent_chunks =
      (3, chunk_at checksum photo 2 3)
      ∷ (1, chunk_at checksum photo 2 1)
      ∷ (2, chunk_at checksum photo 2 2)
      ∷ [];
  acked_chunks = [];
  base_index = 0;
  next_index = 0;
}
