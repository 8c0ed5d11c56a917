-- ===== src/Network/Errors/History.antt =====
-- What the handler's records say of the errors that it has been given:
-- internal/network/error_handler.go.
use t_chat.Base.{
  ℕ, suc, ◌+◌, ◌-◌, ◌≤◌, ◌≡◌, refl, sym, ap, ◌∙◌, Bool, true, false, Option, none, some, List, [],
  ◌∷◌, ◌++◌, String, string_comparable, ◌==◌, ltb, if◌then◌else◌, GoMap, lookup, length, drop,
  arith, Bool-cases, inl, inr, lookup-store, lookup-modify, length-append, length-drop, drop-drop,
  ltb-ge, drop-append_le, min, eq_self, eq→≡, subst,
}
use t_chat.Network.Errors.{
  ErrorCategory, Metadata, DetailedError, RetryPolicy, ErrorStats, ErrorHandler, new_error_handler,
}
use t_chat.Network.Errors.Handling.{
  Failure, detail, update_stats, stats_of, counted, no_stats, last_entries, add_to_history,
  process_error, handle_error, succeed, credit, get_recent_errors, get_error_stats, forget_recent,
  clear_stats, set_retry_policy,
}

-- The calls on a handler, and the errors that they have given it, the first one first.
pub data Handled (policy : RetryPolicy) : List DetailedError → ErrorHandler → Type 0 where
  created : Handled policy [] (new_error_handler policy)
  handled :
      (now : ℕ) (failure : Failure) (context : String) (metadata : Metadata)
      {errors : List DetailedError} {eh : ErrorHandler}
      → Handled policy errors eh
      → Handled policy
          (errors ++ (detail now failure context metadata eh ∷ []))
          (handle_error now (some failure) context metadata eh).0
  no_error :
      (now : ℕ) (context : String) (metadata : Metadata) {errors : List DetailedError}
      {eh : ErrorHandler}
      → Handled policy errors eh
      → Handled policy errors (handle_error now none context metadata eh).0
  cleared :
      {errors : List DetailedError} {eh : ErrorHandler}
      → Handled policy errors eh
      → Handled policy errors (clear_stats eh)
  -- What RetryWithPolicy does besides its calls of HandleError.
  credited :
      (last : Option DetailedError) {errors : List DetailedError} {eh : ErrorHandler}
      → Handled policy errors eh
      → Handled policy errors (credit last eh)
  changed :
      (new_policy : RetryPolicy) {errors : List DetailedError} {eh : ErrorHandler}
      → Handled policy errors eh
      → Handled policy errors (set_retry_policy new_policy eh)

-- How many errors are of a category.
unfoldable pub count_of : ErrorCategory → List DetailedError → ℕ
count_of category [] = 0
count_of category (e ∷ errors) =
    if e.category == category then suc (count_of category errors) else count_of category errors

-- How many of them come with retries.
unfoldable pub retried_of : ErrorCategory → List DetailedError → ℕ
retried_of category [] = 0
retried_of category (e ∷ errors) =
    if e.category == category
    then if ltb 0 e.retry_count
      then suc (retried_of category errors)
      else retried_of category errors
    else retried_of category errors

count_of-append :
    (category : ErrorCategory) (errors : List DetailedError) (e : DetailedError)
    → count_of category (errors ++ (e ∷ [])) ≡ (
        if e.category == category then suc (count_of category errors) else count_of category errors)
unfolding count_of
count_of-append category [] e = refl
count_of-append category (x ∷ errors) e = ground (arith, count_of-append category errors e)

retried_of-append :
    (category : ErrorCategory) (errors : List DetailedError) (e : DetailedError)
    → retried_of category (errors ++ (e ∷ []))
      ≡ retried_of category errors + retried_of category (e ∷ [])
unfolding retried_of
retried_of-append category [] e = omega arith
retried_of-append category (x ∷ errors) e = ground (arith, retried_of-append category errors e)

lookup-forget_recent :
    (category : ErrorCategory) (stats : GoMap ErrorCategory ErrorStats)
    → lookup category (forget_recent stats)
      ≡ elim (lookup category stats) [ none ↦ none | some s ↦ some (record s { recent_count = 0 }) ]
unfolding lookup
lookup-forget_recent category [] = refl
lookup-forget_recent category ((c, s) ∷ stats) = elim (Bool-cases (c == category)) [
  | inl same ↦ rw same refl
  | inr other ↦ rw other (lookup-forget_recent category stats)
]

-- The counts of one category.
abbrev pub Counts : ErrorCategory → List DetailedError → Option ErrorStats → Type 0
Counts category errors none = (count_of category errors ≡ 0) × (retried_of category errors ≡ 0)
Counts category errors (some s) =
    (s.total_count ≡ count_of category errors)
    × (s.retry_count ≡ retried_of category errors)
    × (s.recent_count ≤ s.total_count)

Counts-same :
    (e : DetailedError) (errors : List DetailedError) (now : ℕ) (o : Option ErrorStats)
    → Counts e.category errors o
    → Counts e.category
        (errors ++ (e ∷ []))
        (some (counted e (elim o [ none ↦ no_stats now | some s ↦ s ])))
unfolding retried_of
Counts-same e errors now none h = ground (
  arith,
  count_of-append e.category errors e,
  retried_of-append e.category errors e,
  eq_self e.category,
)
Counts-same e errors now (some s) h = ground (
  arith,
  count_of-append e.category errors e,
  retried_of-append e.category errors e,
  eq_self e.category,
)

Counts-other :
    (e : DetailedError) (errors : List DetailedError) (category : ErrorCategory)
    (o : Option ErrorStats)
    → (e.category == category) ≡ false
    → Counts category errors o
    → Counts category (errors ++ (e ∷ [])) o
unfolding retried_of
Counts-other e errors category none other h =
    ground (arith, count_of-append category errors e, retried_of-append category errors e)
Counts-other e errors category (some s) other h =
    ground (arith, count_of-append category errors e, retried_of-append category errors e)

process_error-Counts :
    (e : DetailedError) (eh : ErrorHandler) (errors : List DetailedError) (category : ErrorCategory)
    → Counts category errors (lookup category eh.error_stats)
    → Counts category (errors ++ (e ∷ [])) (lookup category (process_error e eh).error_stats)
unfolding process_error update_stats
process_error-Counts e eh errors category h = elim (Bool-cases (e.category == category)) [
  | inl same ↦
      let key = eq→≡ e.category category same in
      subst (λ c. Counts c (errors ++ (e ∷ [])) (lookup c (process_error e eh).error_stats)) key
        (rw (found e.category, eq_self e.category)
          (Counts-same e errors e.timestamp (lookup e.category eh.error_stats) (rw (← key) at h)))
  | inr other ↦ rw (found category, other) (Counts-other e errors category _ other h)
]
  where
    found :
        (c : ErrorCategory)
        → lookup c (process_error e eh).error_stats ≡ (
            if e.category == c
            then some (counted e (stats_of e.category e.timestamp eh.error_stats))
            else lookup c eh.error_stats)
    found c = lookup-store e.category c _ eh.error_stats

Counts-forget :
    (errors : List DetailedError) (category : ErrorCategory) (o : Option ErrorStats)
    → Counts category errors o
    → Counts category errors
        (elim o [ none ↦ none | some s ↦ some (record s { recent_count = 0 }) ])
Counts-forget errors category none h = h
Counts-forget errors category (some s) h = ground arith

Counts-credit :
    (errors : List DetailedError) (category : ErrorCategory) (b : Bool) (o : Option ErrorStats)
    → Counts category errors o
    → Counts category errors (if b then elim o [ some s ↦ some (succeed s) | none ↦ none ] else o)
Counts-credit errors category true none h = h
Counts-credit errors category true (some s) h = h
Counts-credit errors category false o h = h

Handled-Counts :
    {policy : RetryPolicy} {errors : List DetailedError} {eh : ErrorHandler}
    (category : ErrorCategory)
    → Handled policy errors eh
    → Counts category errors (lookup category eh.error_stats)
unfolding handle_error clear_stats set_retry_policy new_error_handler lookup count_of retried_of
Handled-Counts category Handled.created = (refl, refl)
Handled-Counts category (Handled.handled now failure context metadata {errors} {eh} calls) =
    process_error-Counts (detail now failure context metadata eh) eh errors category
      (Handled-Counts category calls)
Handled-Counts category (Handled.no_error now context metadata calls) =
    Handled-Counts category calls
Handled-Counts category (Handled.cleared {errors} {eh} calls) =
    rw (lookup-forget_recent category eh.error_stats)
      (Counts-forget errors category _ (Handled-Counts category calls))
Handled-Counts category (Handled.credited none calls) = Handled-Counts category calls
Handled-Counts category (Handled.credited (some e) {errors} {eh} calls) =
    rw (lookup-modify e.category category succeed eh.error_stats)
      (Counts-credit errors category (e.category == category) _ (Handled-Counts category calls))
Handled-Counts category (Handled.changed new_policy calls) = Handled-Counts category calls

last_entries-append :
    (n : ℕ) (xs : List DetailedError) (e : DetailedError)
    → last_entries n (last_entries n xs ++ (e ∷ [])) ≡ last_entries n (xs ++ (e ∷ []))
last_entries-append n xs e =
    ap (last_entries n) (sym (drop-append_le a xs (e ∷ []) (omega arith)))
    ∙ drop-drop a (length (drop a whole) - n) whole
    ∙ ap (λ (k : ℕ). drop k whole) (omega (arith, length-drop a whole, length-append xs (e ∷ [])))
  where
    a : ℕ
    a = length xs - n

    whole : List DetailedError
    whole = xs ++ (e ∷ [])

last_entries_all : {A : Type 0} (n : ℕ) (xs : List A) → length xs ≤ n → last_entries n xs ≡ xs
last_entries_all n xs h = ap (λ (k : ℕ). drop k xs) {x = length xs - n} {y = 0} (omega arith)

add_to_history_lem :
    (e : DetailedError) (eh : ErrorHandler) (errors : List DetailedError)
    → eh.error_history ≡ last_entries eh.max_history errors
    → add_to_history e eh ≡ last_entries eh.max_history (errors ++ (e ∷ []))
unfolding add_to_history
add_to_history_lem e eh errors h =
    short (ltb eh.max_history (length (eh.error_history ++ (e ∷ [])))) refl
    ∙ ap (λ w. last_entries eh.max_history (w ++ (e ∷ []))) h
    ∙ last_entries-append eh.max_history errors e
  where
    short :
        (b : Bool)
        → ltb eh.max_history (length (eh.error_history ++ (e ∷ []))) ≡ b
        → (if b
            then last_entries eh.max_history (eh.error_history ++ (e ∷ []))
            else eh.error_history ++ (e ∷ []))
          ≡ last_entries eh.max_history (eh.error_history ++ (e ∷ []))
    short true t = refl
    short false t = sym (last_entries_all _ _ (ltb-ge _ _ t))

abbrev HasHistory : List DetailedError → ErrorHandler → Type 0
HasHistory errors eh =
    (eh.error_history ≡ last_entries eh.max_history errors) × (eh.max_history ≡ 1000)

Handled-HasHistory :
    {policy : RetryPolicy} {errors : List DetailedError} {eh : ErrorHandler}
    → Handled policy errors eh
    → HasHistory errors eh
unfolding handle_error process_error clear_stats set_retry_policy new_error_handler
Handled-HasHistory Handled.created = (refl, refl)
Handled-HasHistory (Handled.handled now failure context metadata {errors} {eh} calls) =
    let (history, max) = Handled-HasHistory calls in
    (add_to_history_lem (detail now failure context metadata eh) eh errors history, max)
Handled-HasHistory (Handled.no_error now context metadata calls) = Handled-HasHistory calls
Handled-HasHistory (Handled.cleared calls) = Handled-HasHistory calls
Handled-HasHistory (Handled.credited none calls) = Handled-HasHistory calls
Handled-HasHistory (Handled.credited (some e) calls) = Handled-HasHistory calls
Handled-HasHistory (Handled.changed new_policy calls) = Handled-HasHistory calls

last_entries-min :
    (m n : ℕ) (xs : List DetailedError)
    → last_entries m (last_entries n xs) ≡ last_entries (min m n) xs
last_entries-min m n xs =
    drop-drop (length xs - n) _ xs
    ∙ ap (λ (k : ℕ). drop k xs) {x = length xs - n + (length (last_entries n xs) - m)}
        {y = length xs - min m n} (omega (arith, length-drop (length xs - n) xs))

-- Whatever calls a handler has had, GetRecentErrors with a positive limit returns the last of the
-- errors that it was given, in their order, as many as the limit says, but at most 1000.
pub get_recent_errors-Handled :
    {policy : RetryPolicy} {errors : List DetailedError} {eh : ErrorHandler} (limit : ℕ)
    → Handled policy errors eh
    → 1 ≤ limit
    → get_recent_errors limit eh ≡ last_entries (min limit 1000) errors
unfolding get_recent_errors
get_recent_errors-Handled {policy} {errors} {eh} limit calls h =
    let (history, max) = Handled-HasHistory calls in
    ground (
      arith,
      ap (last_entries limit) history,
      history,
      max,
      last_entries-min limit eh.max_history errors,
      last_entries_all limit eh.error_history,
      last_entries_all (length eh.error_history) eh.error_history,
    )

-- Whatever calls a handler has had, the statistics of each category give the number of the errors
-- of that category that it was given, and the number of those that came with a retry count; there
-- are none if the category has no statistics.
pub get_error_stats-Handled :
    {policy : RetryPolicy} {errors : List DetailedError} {eh : ErrorHandler}
    (category : ErrorCategory)
    → Handled policy errors eh
    → Counts category errors (lookup category (get_error_stats eh))
unfolding get_error_stats
get_error_stats-Handled category calls = Handled-Counts category calls
