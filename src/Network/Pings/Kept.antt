-- ===== src/Network/Pings/Kept.antt =====
-- What the operations on pings keep: internal/network/ping_manager.go.
use mathlib.Core.List.{Memᴰ}
use t_chat.Base.{
  ℕ, ◌≡◌, refl, ◌∙◌, ◌⊎◌, true, Option, none, some, List, [], ◌∷◌, ◌++◌, String, string_comparable,
  arith, length, get_elem?, write_at_index, field_at, field_at-append, field_at-last,
  field_at-write_at_index, GoMap, All, All-append, All-map, All-store, All-remove,
  All-write_at_index, subst,
}
use t_chat.Network.Outcome.{returns, load_at, bind-returns, load_at-returns}
use t_chat.Network.Confirmations.{Channel, make_channel, try_send, close}
use t_chat.Network.Confirmations.Channels.{try_send-cases, returned}
use t_chat.Network.Pings.{
  PingResponse, PingRequest, PingManager, register_ping, forget_ping, set_chan, send_pong,
  close_chans,
}
use t_chat.Network.Pings.Steps.{Program, answered}

module _ (requests : List PingRequest) where
  abbrev pub id_at : ℕ → Option String
  id_at i = field_at (λ (r : PingRequest). r.id) requests i

  abbrev pub IsFiled : String × ℕ → Type 0
  IsFiled entry = id_at entry.1 ≡ some entry.0

  abbrev pub IsSendable : List String → ℕ × PingResponse → Type 0
  IsSendable pongs s = (id_at s.0 ≡ some s.1.ping_id) × Memᴰ s.1.ping_id pongs

abbrev pub IsFor : List String → String → Option PingResponse → Type 0
IsFor pongs id none = Unit
IsFor pongs id (some r) = (r.ping_id ≡ id) × Memᴰ id pongs

abbrev pub IsBuffered : List String → PingRequest → Type 0
IsBuffered pongs request = IsFor pongs request.id request.response_chan.buffer

abbrev pub IsAnswer : List String → PingRequest × PingResponse → Type 0
IsAnswer pongs a = (a.1.ping_id ≡ a.0.id) × (a.1.success ≡ true → Memᴰ a.0.id pongs)

pub record IsSound (p : Program) : Type 0 where
  pub filed : All (IsFiled p.manager.requests) p.manager.pending_pings
  pub buffers : All (IsBuffered p.pongs) p.manager.requests
  pub sends : All (IsSendable p.manager.requests p.pongs) p.sending
  pub answers : All (IsAnswer p.pongs) p.returned

-- The ids in the store stay.
abbrev pub Keeps : List PingRequest → List PingRequest → Type 0
Keeps rs rs' = (i : ℕ) (id : String) → id_at rs i ≡ some id → id_at rs' i ≡ some id

pub write-Keeps :
    (i : ℕ) (c : Channel PingResponse) (rs : List PingRequest)
    → Keeps rs (write_at_index i (set_chan c) rs)
write-Keeps i c rs j id h =
    field_at-write_at_index (λ (r : PingRequest). r.id) i j (set_chan c) rs (λ r. refl) ∙ h

pub IsFiled-kept :
    (rs rs' : List PingRequest) (m : GoMap String ℕ)
    → Keeps rs rs'
    → All (IsFiled rs) m
    → All (IsFiled rs') m
IsFiled-kept rs rs' m keeps a = All-map (IsFiled rs) (IsFiled rs') m (λ e h. keeps e.1 e.0 h) a

pub sends_kept :
    (rs rs' : List PingRequest) (pongs : List String) (sending : List (ℕ × PingResponse))
    → Keeps rs rs'
    → All (IsSendable rs pongs) sending
    → All (IsSendable rs' pongs) sending
sends_kept rs rs' pongs sending keeps a =
    All-map (IsSendable rs pongs) (IsSendable rs' pongs) sending
      (λ s h. (keeps s.0 s.1.ping_id h.0, h.1)) a

-- A write to a channel, of a buffer that is right.
pub buffers_kept :
    (i : ℕ) (c : Channel PingResponse) (pongs : List String) (rs : List PingRequest)
    → ((request : PingRequest)
        → get_elem? rs i ≡ some request
        → IsBuffered pongs request
        → IsFor pongs request.id c.buffer)
    → All (IsBuffered pongs) rs
    → All (IsBuffered pongs) (write_at_index i (set_chan c) rs)
buffers_kept i c pongs rs right a = All-write_at_index (IsBuffered pongs) i (set_chan c) rs right a

pub close-buffer : (c c' : Channel PingResponse) → close c ≡ returns c' → c'.buffer ≡ c.buffer
unfolding close
close-buffer c c' e = ground arith

pub same_request :
    (i : ℕ) (rs : List PingRequest) {r request : PingRequest}
    → get_elem? rs i ≡ some r
    → load_at i rs ≡ returns request
    → r ≡ request
same_request i rs at loaded = let found = load_at-returns i rs loaded in cc

pub close_chans-kept :
    (pongs : List String) (m : GoMap String ℕ) (rs rs' : List PingRequest)
    → close_chans m rs ≡ returns rs'
    → All (IsBuffered pongs) rs
    → Keeps rs rs' × All (IsBuffered pongs) rs'
unfolding close_chans
close_chans-kept pongs [] rs rs' e a =
    subst (λ r. Keeps rs r × All (IsBuffered pongs) r) (returned e) (λ i id h. h, a)
close_chans-kept pongs ((id, i) ∷ m) rs rs' e a =
    let (request, loaded, f) = bind-returns (load_at i rs) _ e in
    let (c, closed, g) = bind-returns (close request.response_chan) _ f in
    let (keeps, kept) = close_chans-kept pongs m (write_at_index i (set_chan c) rs) rs' g (
      buffers_kept i c pongs rs
        (λ r at b.
          rw (close-buffer request.response_chan c closed, ← same_request i rs at loaded) b)
        a) in
    (λ j k h. keeps j k (write-Keeps i c rs j k h), kept)

pub register_ping-IsSound :
    (now : ℕ) (id target : String) (timeout : ℕ) (p : Program)
    → IsSound p
    → IsSound (record p {
      manager = register_ping now id target timeout p.manager;
      waiting = p.waiting ++ (length p.manager.requests ∷ []);
    })
unfolding register_ping
register_ping-IsSound now id target timeout p v = record {
  filed =
      All-store (IsFiled more) id (length rs) p.manager.pending_pings
        (field_at-last (λ (r : PingRequest). r.id) rs new)
        (IsFiled-kept rs more p.manager.pending_pings keeps v.filed);
  buffers = All-append (IsBuffered p.pongs) rs (new ∷ []) v.buffers (tt, tt);
  sends = sends_kept rs more p.pongs p.sending keeps v.sends;
  answers = v.answers;
}
  where
    rs : List PingRequest
    rs = p.manager.requests

    new : PingRequest
    new = record {
      id = id;
      target = target;
      timeout = timeout;
      start_time = now;
      response_chan = make_channel;
    }

    more : List PingRequest
    more = rs ++ (new ∷ [])

    keeps : Keeps rs more
    keeps i k h = field_at-append (λ (r : PingRequest). r.id) rs new i k h

pub answered-IsSound :
    (request : PingRequest) (response : PingResponse) (p : Program)
    → IsSound p
    → IsAnswer p.pongs (request, response)
    → IsSound (answered request response p)
unfolding forget_ping
answered-IsSound request response p v right = record {
  filed = All-remove (IsFiled p.manager.requests) request.id p.manager.pending_pings v.filed;
  buffers = v.buffers;
  sends = v.sends;
  answers = (right, v.answers);
}

-- A write to the channel of a request.
pub with_chan-IsSound :
    (i : ℕ) (c : Channel PingResponse) (p p' : Program)
    → IsSound p
    → p'.manager.pending_pings ≡ p.manager.pending_pings
    → p'.manager.requests ≡ write_at_index i (set_chan c) p.manager.requests
    → p'.pongs ≡ p.pongs
    → All (IsSendable p.manager.requests p.pongs) p'.sending
    → p'.returned ≡ p.returned
    → ((request : PingRequest)
        → get_elem? p.manager.requests i ≡ some request
        → IsBuffered p.pongs request
        → IsFor p.pongs request.id c.buffer)
    → IsSound p'
with_chan-IsSound i c p p' v pending requests pongs sends answers right = record {
  filed =
      rw (pending, requests)
        (IsFiled-kept p.manager.requests _ p.manager.pending_pings
          (write-Keeps i c p.manager.requests) v.filed);
  buffers = rw (requests, pongs) (buffers_kept i c p.pongs p.manager.requests right v.buffers);
  sends =
      rw (requests, pongs)
        (sends_kept p.manager.requests _ p.pongs p'.sending (write-Keeps i c p.manager.requests)
          sends);
  answers = rw (answers, pongs) v.answers;
}

pub heard :
    (o : Option PingResponse) (pongs : List String) (request : PingRequest)
    (response : PingResponse)
    → o ≡ some response
    → IsFor pongs request.id o
    → IsAnswer pongs (request, response)
heard none pongs request response e h = cc
heard (some r) pongs request response e h =
    let same : r ≡ response = cc in rw (← same) (h.0, λ s. h.1)

pub send_pong-cases :
    (i : ℕ) (response : PingResponse) (pm pm' : PingManager)
    → send_pong i response pm ≡ returns pm'
    → (request : PingRequest) × (c : Channel PingResponse) × (get_elem? pm.requests i
        ≡ some request)
      × (record pm { requests = write_at_index i (set_chan c) pm.requests } ≡ pm')
      × ((c.buffer ≡ some response) ⊎ (c.buffer ≡ request.response_chan.buffer))
unfolding send_pong
send_pong-cases i response pm pm' e =
    let (request, at, e) = bind-returns (load_at i pm.requests) _ e in
    let (c, sent, e) = bind-returns (try_send response request.response_chan) _ e in
    (
      request,
      c,
      load_at-returns i pm.requests at,
      returned e,
      try_send-cases response request.response_chan c sent,
    )
