-- ===== src/Network/Confirmations/Channels.antt =====
-- What the sends and receives of internal/network/user_confirmation_handler.go do to the requests.
use t_chat.Base.{
  ℕ, ◌≡◌, ◌⊎◌, inl, inr, Option, none, some, String, string_comparable, arith, get_elem?,
  write_at_index, remove, Bool-cases, Option-cases,
}
use t_chat.Network.Outcome.{Outcome, load_at, bind-returns, load_at-returns}
use t_chat.Network.Confirmations.{
  ConfirmationResponse, ConfirmationRequest, ConfirmationHandler, Channel, receive, try_send, close,
  send_response, send_timeout, close_request, set_response_ch, set_timeout_ch, set_channels,
}

pub returned : {A : Type 0} {a b : A} → Outcome.returns a ≡ Outcome.returns b → a ≡ b
returned e = cc

-- A send leaves the value, or what was there before.
pub try_send-cases :
    {A : Type 0} (a : A) (c c' : Channel A)
    → try_send a c ≡ Outcome.returns c'
    → (c'.buffer ≡ some a) ⊎ (c'.buffer ≡ c.buffer)
unfolding try_send
try_send-cases a c c' e = elim (Bool-cases c.is_closed) [
  | inl closed ↦ absurd (ground (arith, closed))
  | inr open_ ↦ elim (Option-cases c.buffer) [
    | inl empty ↦ inl (ground (arith, open_, empty))
    | inr (b, full) ↦ inr (ground (arith, open_, full))
  ]
]

pub receive-cases :
    {A : Type 0} (c c' : Channel A) (o : Option A)
    → receive c ≡ some (o, c')
    → (o ≡ c.buffer) × (c'.buffer ≡ none)
unfolding receive
receive-cases c c' o e = ground arith

pub send_response-cases :
    (r : ConfirmationResponse) (i : ℕ) (h h' : ConfirmationHandler)
    → send_response r i h ≡ Outcome.returns h'
    → (x : ConfirmationRequest) × (c : Channel ConfirmationResponse) × (get_elem? h.requests i
        ≡ some x)
      × (record h { requests = write_at_index i (set_response_ch c) h.requests } ≡ h')
      × ((c.buffer ≡ some r) ⊎ (c.buffer ≡ x.response_ch.buffer))
unfolding send_response
send_response-cases r i h h' e =
    let (x, at, e) = bind-returns (load_at i h.requests) _ e in
    let (c, sent, e) = bind-returns (try_send r x.response_ch) _ e in
    (x, c, load_at-returns i h.requests at, returned e, try_send-cases r x.response_ch c sent)

pub send_timeout-cases :
    (i : ℕ) (h h' : ConfirmationHandler)
    → send_timeout i h ≡ Outcome.returns h'
    → (c : Channel (Unit {0})) × (record h {
      requests = write_at_index i (set_timeout_ch c) h.requests;
    }
        ≡ h')
unfolding send_timeout
send_timeout-cases i h h' e =
    let (x, at, e) = bind-returns (load_at i h.requests) _ e in
    let (c, sent, e) = bind-returns (try_send tt x.timeout_ch) _ e in (c, returned e)

close-cases : {A : Type 0} (c c' : Channel A) → close c ≡ Outcome.returns c' → c'.buffer ≡ c.buffer
unfolding close
close-cases c c' e = ground arith

pub close_request-cases :
    (f : String) (i : ℕ) (h h' : ConfirmationHandler)
    → close_request f i h ≡ Outcome.returns h'
    → (x : ConfirmationRequest) × (c : Channel ConfirmationResponse) × (d : Channel (Unit {0}))
      × (get_elem? h.requests i ≡ some x)
      × (record h {
        requests = write_at_index i (set_channels c d) h.requests;
        pending_requests = remove f h.pending_requests;
      }
          ≡ h')
      × (c.buffer ≡ x.response_ch.buffer)
unfolding close_request
close_request-cases f i h h' e =
    let (x, at, e) = bind-returns (load_at i h.requests) _ e in
    let (c, closed, e) = bind-returns (close x.response_ch) _ e in
    let (d, closed', e) = bind-returns (close x.timeout_ch) _ e in
    (x, c, d, load_at-returns i h.requests at, returned e, close-cases x.response_ch c closed)
