-- ===== src/Network/PriorityQueue/Bounds.antt =====
-- The size of the queue of internal/network/priority_queue.go, and its count of dropped messages.
use t_chat.Base.{
  length-Permᴰ, ℕ, suc, ◌+◌, ◌-◌, ◌≤◌, ◌≡◌, refl, inl, inr, Option, none, some, ltb, leb, length,
  get_elem?, arith, Bool-cases, Option-cases,
}
use t_chat.Network.PriorityQueue.{
  PriorityMessage, Heap, HeapLaws, PriorityQueue, push, push_full, pop,
}

module _ {A : Type 0} {h : Heap A} (laws : HeapLaws A h) where
  -- The items form a heap, and are at most as many as the queue may hold.
  abbrev pub IsQueue : PriorityQueue A → Type 0
  IsQueue pq = laws.IsHeap pq.items × (length pq.items ≤ pq.max_size)

  -- A full queue: its items stay a heap of the same size, and one message is dropped.
  push_full_lem :
      (o : Option (PriorityMessage A)) (x : PriorityMessage A) (pq : PriorityQueue A)
      → get_elem? pq.items (length pq.items - 1) ≡ o
      → laws.IsHeap pq.items
      → laws.IsHeap (push_full h o x pq).0.items
        × (length (push_full h o x pq).0.items ≡ length pq.items)
        × ((push_full h o x pq).0.dropped ≡ suc pq.dropped)
        × ((push_full h o x pq).0.max_size ≡ pq.max_size)
  unfolding push_full
  push_full_lem none x pq e i = (i, refl, refl, refl)
  push_full_lem (some low) x pq e i = elim (Bool-cases (ltb low.priority x.priority)) [
    | inr refused ↦ rw refused (i, refl, refl, refl)
    | inl higher ↦ rw higher (
      laws.heap_push-IsHeap x _ (laws.heap_remove-IsHeap (length pq.items - 1) pq.items i),
      omega (
        arith,
        length-Permᴰ _ _ (laws.heap_push-Permᴰ x (h.heap_remove (length pq.items - 1) pq.items)),
        length-Permᴰ _ _ (laws.heap_remove-Permᴰ (length pq.items - 1) pq.items low e),
      ),
      refl,
      refl,
    )
  ]

  -- By the laws of container/heap `Push` keeps the items a heap and within the size of the queue,
  -- and either one more message is held or one more is counted as dropped.
  pub push-IsQueue :
      (now : ℕ) (msg : A) (priority : ℕ) (pq : PriorityQueue A)
      → IsQueue pq
      → IsQueue (push h now msg priority pq).0
        × (length (push h now msg priority pq).0.items + (push h now msg priority pq).0.dropped
            ≡ suc (length pq.items + pq.dropped))
  unfolding push
  push-IsQueue now msg priority pq (i, b) = elim (Bool-cases (leb pq.max_size (length pq.items))) [
    | inl full ↦ rw full (
        let l =
          push_full_lem (get_elem? pq.items (length pq.items - 1)) (new now msg priority) pq refl
            i in
        ((l.0, omega (arith, b, l.1, l.3)), omega (arith, l.1, l.2)))
    | inr room ↦ rw room (
        let n = length-Permᴰ _ _ (laws.heap_push-Permᴰ (new now msg priority) pq.items) in
        (
          (laws.heap_push-IsHeap (new now msg priority) pq.items i, ground (arith, n, b, room)),
          omega (arith, n),
        ))
  ]
    where
      new : ℕ → A → ℕ → PriorityMessage A
      new now msg priority = record { message = msg; priority = priority; timestamp = now }

  -- By the laws of container/heap `Pop` keeps the items a heap and within the size of the queue,
  -- and takes one message from a queue that is not empty.
  pub pop-IsQueue :
      (pq : PriorityQueue A)
      → IsQueue pq
      → IsQueue (pop h pq).1 × (length (pop h pq).1.items ≡ length pq.items - 1)
  unfolding pop
  pop-IsQueue pq (i, b) = elim (Option-cases (h.heap_pop pq.items)) [
    | inl none_left ↦ rw (none_left, pop) ((i, b), rw (laws.heap_pop-none pq.items none_left) refl)
    | inr ((a, rest), taken) ↦
        rw (taken, pop)
          (let n = length-Permᴰ _ _ (laws.heap_pop-Permᴰ pq.items rest a taken) in
            ((laws.heap_pop-IsHeap pq.items rest a i taken, omega (arith, n, b)), omega (arith, n)))
  ]
