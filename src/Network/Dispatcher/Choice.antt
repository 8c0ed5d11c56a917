-- ===== src/Network/Dispatcher/Choice.antt =====
-- How internal/network/dispatcher.go chooses a handler.
use mathlib.Core.List.{Permᴰ, Memᴰ}
use mathlib.Core.List.Permᴰ.{symm}
use t_chat.Base.{
  ◌≤◌, ◌≡◌, ◌≢◌, ◌↔◌, ap, subst, ◌⊎◌, inl, inr, true, false, none, some, List, [], ◌∷◌, String,
  string_comparable, map, keep, All, All-map, All-Permᴰ, All-Memᴰ, All-kept, Memᴰ-All, Permᴰ-nil,
  lookup, arith, Bool-cases,
}
use t_chat.Network.Sorting.{Sorter, SorterLaws, IsSorted, IsWeakOrder}
use t_chat.Network.Dispatcher.{
  Handler, Dispatcher, higher_priority, candidates, accepts, first_handler, choose_handler,
}

module _ {M : Type 0} where
  higher_priority-IsWeakOrder : (xs : List (Handler M)) → IsWeakOrder higher_priority xs
  higher_priority-IsWeakOrder xs =
      (λ a b in_a in_b h. ground arith, λ a b c in_a in_b in_c h k. ground arith)

  -- The first of the sorted handlers is one of them, and none has a higher priority.
  first_handler-some :
      (xs l : List (Handler M)) (h : Handler M)
      → Permᴰ xs l
      → IsSorted higher_priority l
      → first_handler l ≡ some h
      → Memᴰ h xs × All (λ g. g.priority ≤ h.priority) xs
  first_handler-some xs [] h p sorted e = absurd (let e' : none ≡ some h = e in cc)
  first_handler-some xs (x ∷ l) h p sorted e =
      let same : x ≡ h = cc in
      subst (λ h. Memᴰ h xs × All (λ g. g.priority ≤ h.priority) xs) same
        (
          (All-Permᴰ (λ y. Memᴰ y xs) xs (x ∷ l) p (All-Memᴰ xs)).0,
          All-Permᴰ (λ g. g.priority ≤ x.priority) (x ∷ l) xs (symm p)
              (
                omega arith,
                All-map (λ g. higher_priority g x ≡ false) (λ g. g.priority ≤ x.priority) l
                    (λ g n. ground arith) sorted.0,
              ),
        )

  first_handler-none : (xs l : List (Handler M)) → Permᴰ xs l → first_handler l ≡ none → xs ≡ []
  first_handler-none xs [] p e = Permᴰ-nil xs p
  first_handler-none xs (x ∷ l) p e = absurd (let e' : some x ≡ none = e in cc)

  accepts-lookup :
      (k : String) (msg : M) (m : List (String × Handler M))
      → accepts msg (lookup k m) ≡ true
      → keep (λ h. h.can_handle msg) (map (λ kv. kv.1) m) ≢ []
  unfolding lookup
  accepts-lookup k msg [] a e = absurd (let a' : false ≡ true = a in cc)
  accepts-lookup k msg ((j, h) ∷ m) a e = elim (Bool-cases (h.can_handle msg)) [
    | inl can ↦
        absurd
          (let x : h ∷ keep (λ h. h.can_handle msg) (map (λ kv. kv.1) m) ≡ [] = rw can at e in cc)
    | inr cannot ↦ accepts-lookup k msg m (ground (arith, cannot)) (rw cannot at e)
  ]

-- By the documentation of sort.Slice, the handler that DispatchMessage calls can handle the message.
-- It is the one registered for the type of the message; or, if that cannot handle it, the default one;
-- or, if that cannot handle it either, one that none of those that can exceeds in priority.
pub choose_handler-some :
    {M : Type 0} (sorter : Sorter) (message_type : String) (msg : M) (d : Dispatcher M)
    (h : Handler M)
    → SorterLaws sorter
    → choose_handler sorter message_type msg d ≡ some h
    → (h.can_handle msg ≡ true)
      × ((lookup message_type d.handlers ≡ some h)
          ⊎ (((accepts msg (lookup message_type d.handlers) ≡ false) × (d.default_handler ≡ some h))
              ⊎ ((accepts msg (lookup message_type d.handlers) ≡ false)
                  × (accepts msg d.default_handler ≡ false)
                  × Memᴰ h (candidates msg d)
                  × All (λ g. g.priority ≤ h.priority) (candidates msg d))))
unfolding choose_handler candidates
choose_handler-some sorter message_type msg d h laws e =
    elim (Bool-cases (accepts msg (lookup message_type d.handlers))) [
      | inl own ↦
          let found : lookup message_type d.handlers ≡ some h = rw (own, choose_handler) at e in
          (subst (λ o. accepts msg o ≡ true) found own, inl found)
      | inr other ↦ elim (Bool-cases (accepts msg d.default_handler)) [
        | inl default ↦
            let found : d.default_handler ≡ some h = rw (other, default, choose_handler) at e in
            (subst (λ o. accepts msg o ≡ true) found default, inr (inl (other, found)))
        | inr neither ↦
            let found : first_handler (sorter.sort_slice higher_priority (candidates msg d))
                ≡ some h =
              rw (other, neither, choose_handler) at e in
            let (in_, best) =
              first_handler-some (candidates msg d) _ h
                (laws.sort_slice-Permᴰ higher_priority (candidates msg d))
                (laws.sort_slice-IsSorted higher_priority (candidates msg d)
                  (higher_priority-IsWeakOrder (candidates msg d)))
                found in
            (
              Memᴰ-All (λ g. g.can_handle msg ≡ true) h (candidates msg d) in_
                  (All-kept (λ g. g.can_handle msg) (map (λ kv. kv.1) d.handlers)),
              inr (inr (other, neither, in_, best)),
            )
      ]
    ]

-- By the documentation of sort.Slice, DispatchMessage finds no handler exactly if neither a registered
-- handler nor the default one can handle the message.
pub choose_handler-none :
    {M : Type 0} (sorter : Sorter) (message_type : String) (msg : M) (d : Dispatcher M)
    → SorterLaws sorter
    → (choose_handler sorter message_type msg d ≡ none)
      ↔ ((candidates msg d ≡ []) × (accepts msg d.default_handler ≡ false))
unfolding choose_handler candidates
choose_handler-none sorter message_type msg d laws = (to, from)
  where
    to :
        choose_handler sorter message_type msg d ≡ none
        → (candidates msg d ≡ []) × (accepts msg d.default_handler ≡ false)
    to e = elim (Bool-cases (accepts msg (lookup message_type d.handlers))) [
      | inl own ↦
          let found : lookup message_type d.handlers ≡ none = rw (own, choose_handler) at e in
          absurd
            (let x : accepts msg none ≡ true = subst (λ o. accepts msg o ≡ true) found own in cc)
      | inr other ↦ elim (Bool-cases (accepts msg d.default_handler)) [
        | inl default ↦
            let found : d.default_handler ≡ none = rw (other, default, choose_handler) at e in
            absurd (
              let x : accepts msg none ≡ true = subst (λ o. accepts msg o ≡ true) found default in
              cc)
        | inr neither ↦
            let found : first_handler (sorter.sort_slice higher_priority (candidates msg d))
                ≡ none =
              rw (other, neither, choose_handler) at e in
            (
              first_handler-none (candidates msg d) _
                  (laws.sort_slice-Permᴰ higher_priority (candidates msg d)) found,
              neither,
            )
      ]
    ]

    from :
        (candidates msg d ≡ []) × (accepts msg d.default_handler ≡ false)
        → choose_handler sorter message_type msg d ≡ none
    from (empty, neither) =
        let sorted : sorter.sort_slice higher_priority (candidates msg d) ≡ [] = Permᴰ-nil _ (
          subst (λ l. Permᴰ (sorter.sort_slice higher_priority (candidates msg d)) l) empty
            (symm (laws.sort_slice-Permᴰ higher_priority (candidates msg d)))) in
        elim (Bool-cases (accepts msg (lookup message_type d.handlers))) [
          | inl own ↦ absurd (accepts-lookup message_type msg d.handlers own empty)
          | inr other ↦ rw (other, neither, choose_handler) (ap first_handler sorted)
        ]
