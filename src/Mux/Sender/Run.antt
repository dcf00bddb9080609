-- ===== src/Mux/Sender/Run.antt =====
-- Runs of a sender: any interleaving of its operations, write callbacks and timer polls with what
-- other carriers do to the shared budget.
use dsh_passwords.Prelude.{ℕ, ◌≡◌, Bool, true, Option, List, arith}
use dsh_passwords.Mux.Sender.{
  Sender, Options, Socket, Budget, new_sender, enqueue, cancel, fire_flush, on_drain_poll, dispose,
}
use dsh_passwords.Mux.Sender.Invariant.{IsValid}
use dsh_passwords.Mux.Sender.Accept.{enqueue-Takes}
use dsh_passwords.Mux.Sender.Steps.{
  cancel-IsValid, dispose-IsValid, fire_flush-Settles, on_drain_poll-Settles,
}
use dsh_passwords.Mux.Sender.Shared.{
  Holds, enqueue-Holds, cancel-Holds, fire_flush-Holds, on_drain_poll-Holds, dispose-Holds,
}

-- A call of the sender, or a callback that it waits for.
pub data Act (o : Options) : Sender → Sender → Type 0 where
  enqueued :
      (sock : Socket) (alloc_ok : Bool) (tag : Option ℕ) (bytes : List ℕ) (s : Sender)
      → Act o s (enqueue o sock alloc_ok tag bytes s).0
  cancelled : (t : ℕ) (s : Sender) → Act o s (cancel t s).0
  flushed : (sock : Socket) (failed : Bool) (s : Sender) → Act o s (fire_flush o sock failed s)
  polled : (sock : Socket) (s : Sender) → s.draining ≡ true → Act o s (on_drain_poll o sock s)
  disposed : (s : Sender) → Act o s (dispose s)

-- Between two calls, other carriers may leave any budget behind.
pub data Step (o : Options) : Sender → Sender → Type 0 where
  acts : {s t : Sender} → Act o s t → Step o s t
  others : (b : Option Budget) (s : Sender) → Step o s (record s { shared_budget = b })

pub data Reach (o : Options) (s : Sender) : Sender → Type 0 where
  here : Reach o s s
  next : {t u : Sender} → Reach o s t → Step o t u → Reach o s u

module _ (o : Options) where
  pub Act-IsValid : {s t : Sender} → Act o s t → IsValid o s → IsValid o t
  Act-IsValid (enqueued sock alloc_ok tag bytes s) v =
      (enqueue-Takes o sock tag bytes alloc_ok s v).0
  Act-IsValid (cancelled t s) v = cancel-IsValid o t s v
  Act-IsValid (flushed sock failed s) v = (fire_flush-Settles o sock s failed v).0
  Act-IsValid (polled sock s d) v = (on_drain_poll-Settles o sock s v d).0
  Act-IsValid (disposed s) v = dispose-IsValid o s v

  pub Act-Holds :
      (k max : ℕ) {s t : Sender} → Act o s t → IsValid o s → Holds k max s → Holds k max t
  Act-Holds k max (enqueued sock alloc_ok tag bytes s) v h =
      enqueue-Holds k max o sock alloc_ok tag bytes s h
  Act-Holds k max (cancelled t s) v h = cancel-Holds k max o t s v h
  Act-Holds k max (flushed sock failed s) v h = fire_flush-Holds k max o sock s failed v h
  Act-Holds k max (polled sock s d) v h = on_drain_poll-Holds k max o sock s h
  Act-Holds k max (disposed s) v h = dispose-Holds k max s h

  pub budget-IsValid :
      (b : Option Budget) (s : Sender) → IsValid o s → IsValid o (record s { shared_budget = b })
  budget-IsValid b s v = ground (arith, v)

  Step-IsValid : {s t : Sender} → Step o s t → IsValid o s → IsValid o t
  Step-IsValid (acts a) v = Act-IsValid a v
  Step-IsValid (others b s) v = budget-IsValid b s v

  pub new_sender-IsValid : (b : Option Budget) → IsValid o (new_sender b)
  unfolding new_sender
  new_sender-IsValid b = ground arith

  -- Every state that a new sender can reach, by any interleaving of operations, write callbacks
  -- and polls, whatever other carriers make of the shared budget in between, meets the invariant: the byte counters are the sums of what is queued and in
  -- flight, the accept budget and the queue limits hold, the sender is busy exactly when it has
  -- accepted bytes, at most one of awaiting and draining holds, and the frames agree.
  pub Reach-IsValid : (b : Option Budget) (s : Sender) → Reach o (new_sender b) s → IsValid o s
  Reach-IsValid b s here = new_sender-IsValid b
  Reach-IsValid b s (next {t} r st) = Step-IsValid st (Reach-IsValid b t r)
