-- ===== src/Examples/Dispatcher.antt =====
-- A dispatcher with three handlers: internal/network/dispatcher.go.
use mathlib.Core.List.{Memᴰ}
use t_chat.Base.{
  ℕ, ◌≤◌, ◌≡◌, ◌↔◌, ◌⊎◌, refl, Bool, true, false, none, some, [], ◌∷◌, String, string_comparable,
  All, lookup,
}
use t_chat.Examples.Sorting.{insertion_sort, insertion_sort-SorterLaws}
use t_chat.Network.Dispatcher.{Handler, Dispatcher, candidates, accepts, choose_handler}
use t_chat.Network.Dispatcher.Choice.{choose_handler-some, choose_handler-none}

-- A message is its text.
abbrev handler_for : String → ℕ → Bool → Handler String
handler_for message_type priority can = record {
  message_type = message_type;
  priority = priority;
  can_handle = λ m. can;
  handle_message = λ m. none;
  initialize = true;
}

abbrev three : Dispatcher String
three = record {
  handlers =
      ("text", handler_for "text" 50 false)
      ∷ ("trace", handler_for "trace" 10 true)
      ∷ ("image", handler_for "image" 20 true)
      ∷ [];
  default_handler = none;
}

choose_handler-some_example :
    (true ≡ true)
    × ((lookup "voice" three.handlers ≡ some (handler_for "image" 20 true))
        ⊎ (((accepts "hi" (lookup "voice" three.handlers) ≡ false)
              × (three.default_handler ≡ some (handler_for "image" 20 true)))
            ⊎ ((accepts "hi" (lookup "voice" three.handlers) ≡ false)
                × (false ≡ false)
                × Memᴰ (handler_for "image" 20 true) (candidates "hi" three)
                × All (λ g. g.priority ≤ 20) (candidates "hi" three))))
unfolding choose_handler lookup
choose_handler-some_example =
    choose_handler-some insertion_sort "voice" "hi" three (handler_for "image" 20 true)
      insertion_sort-SorterLaws refl

choose_handler-none_example :
    (choose_handler insertion_sort "voice" "hi" three ≡ none)
    ↔ ((candidates "hi" three ≡ []) × (accepts "hi" three.default_handler ≡ false))
choose_handler-none_example =
    choose_handler-none insertion_sort "voice" "hi" three insertion_sort-SorterLaws

abbrev text : String
text = "text"
