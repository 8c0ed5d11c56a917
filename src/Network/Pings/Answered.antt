-- ===== src/Network/Pings/Answered.antt =====
-- Where the responses to pings come from, and how stopping ends: internal/network/ping_manager.go.
use mathlib.Core.List.{Memᴰ}
use t_chat.Base.{
  ℕ, ◌≡◌, refl, sym, ap, ◌∙◌, ◌⊎◌, inl, inr, Option, none, some, List, ◌∷◌, ◌++◌, String,
  string_comparable, get_elem?, write_at_index, lookup, All, All-append, All-map, All-split,
  All-lookup, All-keep, All-get_elem?, Option-cases, subst,
}
use t_chat.Network.Outcome.{returns, load_at, bind-returns}
use t_chat.Network.Confirmations.{Channel}
use t_chat.Network.Confirmations.Channels.{receive-cases, returned}
use t_chat.Network.Pings.{
  PingResponse, PingRequest, PingManager, new_ping_manager, failed_response, find_pong, set_chan,
  cleanup_expired_pings, stop_pings, close_chans,
}
use t_chat.Network.Pings.Steps.{Program, new_program, Step, Steps}
use t_chat.Network.Pings.Kept.{
  IsSound, IsFiled, IsSendable, IsAnswer, IsBuffered, IsFor, register_ping-IsSound,
  answered-IsSound, with_chan-IsSound, heard, send_pong-cases, close_chans-kept, sends_kept,
}

-- More pongs.
more_pongs :
    (o : Option PingResponse) (pongs : List String) (id new : String)
    → IsFor pongs id o
    → IsFor (new ∷ pongs) id o
more_pongs none pongs id new h = tt
more_pongs (some r) pongs id new h = (h.0, Memᴰ.tail h.1)

find_pong-some :
    (now : ℕ) (id sender receiver : String) (i : ℕ) (response : PingResponse) (pm : PingManager)
    → find_pong now (some id) sender receiver pm ≡ returns (some (i, response))
    → (lookup id pm.pending_pings ≡ some i) × (response.ping_id ≡ id)
unfolding find_pong
find_pong-some now id sender receiver i response pm e =
    elim (Option-cases (lookup id pm.pending_pings)) [
      | inl missing ↦
          absurd (
            let f : returns none ≡ returns (some (i, response)) = rw (missing, find_pong) at e in
            cc)
      | inr (j, found) ↦
          let (request, loaded, f) =
            bind-returns (load_at j pm.requests) _ (rw (found, find_pong) at e) in
          let g : some (j, _) ≡ some (i, response) = returned f in
          let same : j ≡ i = cc in (rw (← same) found, cc)
    ]

put :
    (r : PingRequest) (c : Channel PingResponse) (i : ℕ) (response : PingResponse)
    (request : PingRequest) (p : Program)
    → get_elem? p.manager.requests i ≡ some r
    → get_elem? p.manager.requests i ≡ some request
    → IsSendable p.manager.requests p.pongs (i, response)
    → (c.buffer ≡ some response) ⊎ (c.buffer ≡ request.response_chan.buffer)
    → IsBuffered p.pongs r
    → IsFor p.pongs r.id c.buffer
put r c i response request p at found sendable (inl full) b =
    let named : some r.id ≡ some response.ping_id =
      sym (ap {A = Option PingRequest} (λ o. elim o [ none ↦ none | some x ↦ some x.id ]) at)
      ∙ sendable.0 in
    let same : response.ping_id ≡ r.id = cc in rw full (same, rw same at sendable.1)
put r c i response request p at found sendable (inr kept) b =
    let same : request ≡ r = cc in rw (kept, same) b

Step-IsSound : {p p' : Program} → Step p p' → IsSound p → IsSound p'
unfolding cleanup_expired_pings stop_pings
Step-IsSound (Step.sends now id target timeout {p}) v =
    register_ping-IsSound now id target timeout p v
Step-IsSound (Step.gives_up now error left i right request {p} at found) v =
    answered-IsSound request (failed_response now error request p.manager)
      (record p { waiting = left ++ right })
      (record { filed = v.filed; buffers = v.buffers; sends = v.sends; answers = v.answers })
      (refl, λ e. absurd (cc))
Step-IsSound (Step.hears left i right request response c {p} at found e) v =
    let (full, empty) = receive-cases request.response_chan c (some response) e in
    let before : Program = record p {
      waiting = left ++ right;
      manager = record p.manager { requests = write_at_index i (set_chan c) p.manager.requests };
    } in
    let sound =
      with_chan-IsSound i c p before v refl refl refl v.sends refl (λ r h b. rw empty tt) in
    answered-IsSound request response before sound (
      heard request.response_chan.buffer p.pongs request response (sym full)
        (All-get_elem? (IsBuffered p.pongs) i p.manager.requests v.buffers found))
Step-IsSound (Step.hears_nil left i right request c {p} at found e) v = record {
  filed = v.filed;
  buffers = v.buffers;
  sends = v.sends;
  answers = v.answers;
}
Step-IsSound (Step.pong_finds now id sender receiver i response {p} e) v =
    let (found, same) = find_pong-some now id sender receiver i response p.manager e in
    record {
      filed = v.filed;
      buffers =
          All-map (IsBuffered p.pongs) (IsBuffered (id ∷ p.pongs)) p.manager.requests
            (λ r h. more_pongs r.response_chan.buffer p.pongs r.id id h) v.buffers;
      sends = (
        (
          rw same
              (All-lookup (IsFiled p.manager.requests) id p.manager.pending_pings v.filed found),
          Memᴰ.head same,
        ),
        All-map (IsSendable p.manager.requests p.pongs)
            (IsSendable p.manager.requests (id ∷ p.pongs)) p.sending (λ s h. (h.0, Memᴰ.tail h.1))
            v.sends,
      );
      answers =
          All-map (IsAnswer p.pongs) (IsAnswer (id ∷ p.pongs)) p.returned
            (λ a h. (h.0, λ s. Memᴰ.tail (h.1 s))) v.answers;
    }
Step-IsSound (Step.pong_misses now id sender receiver e) v = v
Step-IsSound (Step.pong_sends left i response right pm {p} at e) v =
    let (request, c, found, same, sent) = send_pong-cases i response p.manager pm e in
    let (before, this, after) =
      All-split (IsSendable p.manager.requests p.pongs) left (i, response) right
        (rw at at v.sends) in
    with_chan-IsSound i c p _ v (ap (λ m. m.pending_pings) (sym same))
      (ap (λ m. m.requests) (sym same)) refl
      (All-append (IsSendable p.manager.requests p.pongs) left right before after) refl
      (λ r h b. put r c i response request p h found this sent b)
Step-IsSound (Step.pong_crashes left i response right {p} at e) v = record {
  filed = v.filed;
  buffers = v.buffers;
  sends = v.sends;
  answers = v.answers;
}
Step-IsSound (Step.cleans now {p}) v = record {
  filed = All-keep (IsFiled p.manager.requests) _ p.manager.pending_pings v.filed;
  buffers = v.buffers;
  sends = v.sends;
  answers = v.answers;
}
Step-IsSound (Step.stops pm {p} e) v =
    let (rs, closed, f) =
      bind-returns (close_chans p.manager.pending_pings p.manager.requests) _ e in
    let (keeps, buffers) =
      close_chans-kept p.pongs p.manager.pending_pings p.manager.requests rs closed v.buffers in
    let same = returned f in
    subst (λ m. IsSound (record p { manager = m })) same
      (record {
        filed = tt;
        buffers = buffers;
        sends = sends_kept p.manager.requests rs p.pongs p.sending keeps v.sends;
        answers = v.answers;
      })

Steps-IsSound : {address : String} {p : Program} → Steps address p → IsSound p
unfolding new_program new_ping_manager
Steps-IsSound Steps.none_yet = record { filed = tt; buffers = tt; sends = tt; answers = tt }
Steps-IsSound (Steps.further steps step) = Step-IsSound step (Steps-IsSound steps)

-- In every run of the goroutines, each response that SendPing has returned is one for its own ping, and
-- if it reports a success, a pong with the id of this ping has come.
pub Steps-IsAnswer :
    {address : String} {p : Program} → Steps address p → All (IsAnswer p.pongs) p.returned
Steps-IsAnswer steps = (Steps-IsSound steps).answers
