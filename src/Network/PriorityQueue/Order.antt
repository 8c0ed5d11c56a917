-- ===== src/Network/PriorityQueue/Order.antt =====
-- The order in which the queue of internal/network/priority_queue.go gives its messages back.
use mathlib.Core.List.{Permᴰ}
use mathlib.Core.List.Permᴰ.{symm}
use t_chat.Base.{
  All-Permᴰ, All-map, ℕ, ◌<◌, ◌≡◌, refl, ap, subst, ◌⊎◌, inl, inr, true, false, none, some, List,
  [], ◌∷◌, leb, length, All, arith, Option-cases,
}
use t_chat.Network.PriorityQueue.{PriorityMessage, less, Heap, HeapLaws, PriorityQueue, push, pop}

module _ {A : Type 0} {h : Heap A} (laws : HeapLaws A h) where
  abbrev stamped : ℕ → A → ℕ → PriorityMessage A
  stamped now msg priority = record { message = msg; priority = priority; timestamp = now }

  -- What comes first in a heap that a message first in order is pushed on.
  first_out :
      (x a : PriorityMessage A) (xs rest : List (PriorityMessage A))
      → laws.IsHeap xs
      → All (λ b. less x b ≡ true) xs
      → h.heap_pop (h.heap_push x xs) ≡ some (a, rest)
      → a ≡ x
  first_out x a xs rest i before taken = elim came [
    | inl same ↦ same
    | inr later ↦ ground (arith, not_before, later)
  ]
    where
      moved : Permᴰ (x ∷ xs) (a ∷ rest)
      moved = Permᴰ.trans (laws.heap_push-Permᴰ x xs) (laws.heap_pop-Permᴰ _ rest a taken)

      came : (a ≡ x) ⊎ (less x a ≡ true)
      came =
          (All-Permᴰ (λ b. (b ≡ x) ⊎ (less x b ≡ true)) (x ∷ xs) (a ∷ rest) moved
            (
              inl refl,
              All-map (λ b. less x b ≡ true) (λ b. (b ≡ x) ⊎ (less x b ≡ true)) xs (λ b e. inr e)
                  before,
            )).0

      not_before : less x a ≡ false
      not_before =
          (All-Permᴰ (λ b. less b a ≡ false) (a ∷ rest) (x ∷ xs) (symm moved)
            (ground arith, laws.heap_pop-least _ rest a (laws.heap_push-IsHeap x xs i) taken)).0

  -- By the laws of container/heap a message pushed on a queue with room, and before all its
  -- messages by priority and time, is the next one that `Pop` gives.
  pub pop-push :
      (now : ℕ) (msg : A) (priority : ℕ) (pq : PriorityQueue A)
      → laws.IsHeap pq.items
      → length pq.items < pq.max_size
      → All (λ b. less (stamped now msg priority) b ≡ true) pq.items
      → (pop h (push h now msg priority pq).0).0 ≡ some msg
  unfolding pop push
  pop-push now msg priority pq i room before =
      elim (Option-cases (h.heap_pop (h.heap_push (stamped now msg priority) pq.items))) [
        | inl nothing ↦ absurd (not_empty nothing)
        | inr ((a, rest), taken) ↦
            rw (has_room, taken, pop)
              (ap (λ (m : PriorityMessage A). some m.message)
                (first_out (stamped now msg priority) a pq.items rest i before taken))
      ]
    where
      has_room : leb pq.max_size (length pq.items) ≡ false
      has_room = ground arith

      not_empty : h.heap_pop (h.heap_push (stamped now msg priority) pq.items) ≡ none → ⊥
      not_empty e =
          (All-Permᴰ (λ m. ⊥) [] (stamped now msg priority ∷ pq.items)
            (symm (
              subst (λ l. Permᴰ (stamped now msg priority ∷ pq.items) l) (laws.heap_pop-none _ e)
                (laws.heap_push-Permᴰ (stamped now msg priority) pq.items)))
            tt).0
