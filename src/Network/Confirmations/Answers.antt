-- ===== src/Network/Confirmations/Answers.antt =====
-- Whose answers the calls of `RequestUserConfirmation` return:
-- internal/network/user_confirmation_handler.go.
use mathlib.Core.List.{Memᴰ}
use t_chat.Base.{
  ℕ, ◌≡◌, ◌∙◌, true, Option, none, some, List, String, string_comparable, get_elem?, write_at_index,
  field_at, field_at-write_at_index, All, All-map, All-write_at_index, GoMap,
}
use t_chat.Network.Confirmations.{
  FileTransferRequest, ConfirmationResponse, ConfirmationRequest, ConfirmationHandler,
}
use t_chat.Network.Confirmations.System.{Thread, Program}

-- The user has accepted a request for the file.
abbrev pub Approved : String → List FileTransferRequest → Type 0
Approved f approved = (q : FileTransferRequest) × Memᴰ q approved × (q.file_id ≡ f)

-- A response that accepts the file comes from the user.
abbrev pub IsHeard : List FileTransferRequest → String → Option ConfirmationResponse → Type 0
IsHeard approved f none = Unit {0}
IsHeard approved f (some r) = r.accepted ≡ true → Approved f approved

abbrev pub file_at : ConfirmationHandler → ℕ → Option String
file_at h = field_at (λ x. x.file_id) h.requests

-- The map finds each request under its file, and no channel holds an answer of nobody.
pub record IsSound (p : Program) : Type 0 where
  pub named :
      All (λ (kv : String × ℕ). file_at p.handler kv.1 ≡ some kv.0) p.handler.pending_requests
  pub heard :
      All
        (λ (x : ConfirmationRequest). IsHeard p.approved x.file_id x.response_ch.buffer)
        p.handler.requests
  pub told :
      All
        (λ (a : FileTransferRequest × Option ConfirmationResponse).
          IsHeard p.approved a.0.file_id a.1)
        p.returned

-- What a goroutine carries is right.
abbrev pub IsRight : Program → Thread → Type 0
IsRight p (Thread.asking q) = Unit {0}
IsRight p (Thread.answering f r b) = IsHeard p.approved f (some r)
IsRight p (Thread.sending f i r b) = (file_at p.handler i ≡ some f) × IsHeard p.approved f (some r)
IsRight p (Thread.timing f) = Unit {0}
IsRight p (Thread.signalling i) = Unit {0}
IsRight p (Thread.waiting q i) = file_at p.handler i ≡ some q.file_id
IsRight p (Thread.cleaning q o) = IsHeard p.approved q.file_id o
IsRight p Thread.stopping = Unit {0}

-- What a step keeps for the other goroutines.
pub record Keeps (p p' : Program) : Type 0 where
  pub approvals : (f : String) → Approved f p.approved → Approved f p'.approved
  pub files : (i : ℕ) (f : String) → file_at p.handler i ≡ some f → file_at p'.handler i ≡ some f

pub Keeps-refl : (p : Program) → Keeps p p
Keeps-refl p = record { approvals = λ f a. a; files = λ i f e. e }

pub IsHeard-mono :
    (p p' : Program) (f : String) (o : Option ConfirmationResponse)
    → Keeps p p'
    → IsHeard p.approved f o
    → IsHeard p'.approved f o
IsHeard-mono p p' f none k h = tt
IsHeard-mono p p' f (some r) k h = λ e. k.approvals f (h e)

pub IsRight-mono : (p p' : Program) (t : Thread) → Keeps p p' → IsRight p t → IsRight p' t
IsRight-mono p p' (Thread.asking q) k h = tt
IsRight-mono p p' (Thread.answering f r b) k h = IsHeard-mono p p' f (some r) k h
IsRight-mono p p' (Thread.sending f i r b) k h =
    (k.files i f h.0, IsHeard-mono p p' f (some r) k h.1)
IsRight-mono p p' (Thread.timing f) k h = tt
IsRight-mono p p' (Thread.signalling i) k h = tt
IsRight-mono p p' (Thread.waiting q i) k h = k.files i q.file_id h
IsRight-mono p p' (Thread.cleaning q o) k h = IsHeard-mono p p' q.file_id o k h
IsRight-mono p p' Thread.stopping k h = tt

-- After a step: the program, what the others see, and the goroutines that it leaves.
abbrev pub IsKept : Program → Program → List Thread → Type 0
IsKept p p' ts = Keeps p p' × IsSound p' × All (IsRight p') ts

-- A program with the same store, map and answers.
pub IsSound-same :
    (p p' : Program)
    → p'.handler.requests ≡ p.handler.requests
    → p'.handler.pending_requests ≡ p.handler.pending_requests
    → p'.approved ≡ p.approved
    → p'.returned ≡ p.returned
    → IsSound p
    → Keeps p p' × IsSound p'
IsSound-same p p' requests pending approved returned sound = (
  record { approvals = λ f a. rw approved a; files = λ i f e. rw requests e },
  record {
    named = rw (requests, pending) sound.named;
    heard = rw (requests, approved) sound.heard;
    told = rw (approved, returned) sound.told;
  },
)

-- A write to one request that keeps its file and puts no answer of nobody into its channel.
pub IsSound-write :
    (p : Program) (i : ℕ) (g : ConfirmationRequest → ConfirmationRequest) (pending : GoMap String ℕ)
    → ((x : ConfirmationRequest) → (g x).file_id ≡ x.file_id)
    → ((x : ConfirmationRequest)
        → get_elem? p.handler.requests i ≡ some x
        → IsHeard p.approved x.file_id x.response_ch.buffer
        → IsHeard p.approved x.file_id (g x).response_ch.buffer)
    → All (λ (kv : String × ℕ). file_at p.handler kv.1 ≡ some kv.0) pending
    → IsSound p
    → Keeps p (record p {
      handler = record p.handler {
        requests = write_at_index i g p.handler.requests;
        pending_requests = pending;
      };
    })
      × IsSound (record p {
        handler = record p.handler {
          requests = write_at_index i g p.handler.requests;
          pending_requests = pending;
        };
      })
IsSound-write p i g pending same heard named sound = (
  record {
    approvals = λ f a. a;
    files = λ j f e. field_at-write_at_index (λ x. x.file_id) i j g p.handler.requests same ∙ e;
  },
  record {
    named =
        All-map _ _ pending
          (λ kv e. field_at-write_at_index (λ x. x.file_id) i kv.1 g p.handler.requests same ∙ e)
          named;
    heard =
        All-write_at_index _ i g p.handler.requests (λ x at h. rw (same x) (heard x at h))
          sound.heard;
    told = sound.told;
  },
)
