-- ===== src/Network/PriorityQueue.antt =====
-- The priority queue of messages: internal/network/priority_queue.go over container/heap of the
-- standard library, which enters as a record of functions. The time of a call is an argument. The
-- field `Index`, which only container/heap moves, is not modelled.
pub mod Order
pub mod Bounds
use mathlib.Core.List.{Permᴰ}
use t_chat.Base.{
  ℕ, suc, ◌+◌, ◌-◌, ◌≡◌, Bool, true, false, ◌||◌, Option, none, some, List, [], ◌∷◌, String,
  string_comparable, ◌==◌, ltb, leb, eqb, if◌then◌else◌, length, get_elem?, All,
}

-- PriorityLow, PriorityNormal, PriorityHigh, PriorityCritical are 1, 2, 3, 4.
pub record PriorityMessage (A : Type 0) : Type 0 where
  pub message : A
  pub priority : ℕ
  pub timestamp : ℕ

-- `GetMessagePriority`, on the type of the message.
unfoldable pub get_message_priority : String → ℕ
get_message_priority t =
    if t == "system" || t == "error" || t == "ack"
    then 4
    else if t == "user_info_exchange" || t == "ping" || t == "pong"
    then 3
    else if t == "file"
    then 2
    else if t == "text"
    then 2
    else 1

-- `Less`: the greater priority first, then the earlier message.
abbrev pub less : {A : Type 0} → PriorityMessage A → PriorityMessage A → Bool
less a b =
    if eqb a.priority b.priority then ltb a.timestamp b.timestamp else ltb b.priority a.priority

-- container/heap on such messages: Push, Pop and Remove, on the slice.
pub record Heap (A : Type 0) : Type 0 where
  pub heap_push : PriorityMessage A → List (PriorityMessage A) → List (PriorityMessage A)
  pub heap_pop : List (PriorityMessage A) → Option (PriorityMessage A × List (PriorityMessage A))
  pub heap_remove : ℕ → List (PriorityMessage A) → List (PriorityMessage A)

-- What its documentation says: a heap stays one, each function adds or takes one element, and Pop
-- takes one that no other is less than.
pub record HeapLaws (A : Type 0) (h : Heap A) : Type 1 where
  pub IsHeap : List (PriorityMessage A) → Type 0
  pub heap_push-IsHeap :
      (x : PriorityMessage A) (xs : List (PriorityMessage A))
      → IsHeap xs
      → IsHeap (h.heap_push x xs)
  pub heap_push-Permᴰ :
      (x : PriorityMessage A) (xs : List (PriorityMessage A)) → Permᴰ (x ∷ xs) (h.heap_push x xs)
  pub heap_pop-none : (xs : List (PriorityMessage A)) → h.heap_pop xs ≡ none → xs ≡ []
  pub heap_pop-Permᴰ :
      (xs rest : List (PriorityMessage A)) (a : PriorityMessage A)
      → h.heap_pop xs ≡ some (a, rest)
      → Permᴰ xs (a ∷ rest)
  pub heap_pop-least :
      (xs rest : List (PriorityMessage A)) (a : PriorityMessage A)
      → IsHeap xs
      → h.heap_pop xs ≡ some (a, rest)
      → All (λ b. less b a ≡ false) rest
  pub heap_pop-IsHeap :
      (xs rest : List (PriorityMessage A)) (a : PriorityMessage A)
      → IsHeap xs
      → h.heap_pop xs ≡ some (a, rest)
      → IsHeap rest
  pub heap_remove-Permᴰ :
      (i : ℕ) (xs : List (PriorityMessage A)) (a : PriorityMessage A)
      → get_elem? xs i ≡ some a
      → Permᴰ xs (a ∷ h.heap_remove i xs)
  pub heap_remove-IsHeap :
      (i : ℕ) (xs : List (PriorityMessage A)) → IsHeap xs → IsHeap (h.heap_remove i xs)

pub record PriorityQueue (A : Type 0) : Type 0 where
  pub items : List (PriorityMessage A)
  pub max_size : ℕ
  pub dropped : ℕ

unfoldable pub new_priority_queue : {A : Type 0} → ℕ → PriorityQueue A
new_priority_queue max_size = record { items = []; max_size = max_size; dropped = 0 }

module _ {A : Type 0} (h : Heap A) where
  abbrev pub add_item : PriorityMessage A → PriorityQueue A → PriorityQueue A × Bool
  add_item x pq = (record pq { items = h.heap_push x pq.items }, true)

  -- `Push` on a full queue whose slice ends with the given message.
  unfoldable pub push_full :
      Option (PriorityMessage A) → PriorityMessage A → PriorityQueue A → PriorityQueue A × Bool
  push_full none x pq = (record pq { dropped = suc pq.dropped }, false)
  push_full (some lowest) x pq =
      if ltb lowest.priority x.priority
      then add_item x (record pq {
        items = h.heap_remove (length pq.items - 1) pq.items;
        dropped = suc pq.dropped;
      })
      else (record pq { dropped = suc pq.dropped }, false)

  unfoldable pub push : ℕ → A → ℕ → PriorityQueue A → PriorityQueue A × Bool
  unfolding push_full
  push now msg priority pq =
      let x : PriorityMessage A = record { message = msg; priority = priority; timestamp = now } in
      if leb pq.max_size (length pq.items)
      then push_full (get_elem? pq.items (length pq.items - 1)) x pq
      else add_item x pq

  -- nil of an empty queue is `none`.
  unfoldable pub pop : PriorityQueue A → Option A × PriorityQueue A
  pop pq = elim (h.heap_pop pq.items) [
    | none ↦ (none, pq)
    | some (a, rest) ↦ (some a.message, record pq { items = rest })
  ]
