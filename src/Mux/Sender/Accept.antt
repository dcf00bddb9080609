-- ===== src/Mux/Sender/Accept.antt =====
-- `enqueue` of src/remote-mux-sender.ts on every branch.
use dsh_passwords.Prelude.{
  ℕ, ◌+◌, ◌≤◌, ◌≡◌, refl, Bool, true, false, ◌&&◌, ◌||◌, Option, none, some, List, [], ◌∷◌, ◌++◌,
  ltb, is_some, length, arith, Bool-cases, inl, inr, ◌⊎◌, length-append, if_cases, append_assoc,
  append-nil, ap, sym, ◌∙◌,
}
use mathlib.Core.List.{map-append}
use dsh_passwords.Mux.Sender.{
  Sender, Item, Options, Socket, Frame, Budget, refresh_busy, push_item, accept, reserve_and_accept,
  reserve_shared, enqueue_behind, enqueue, AcceptOutcome, accepted, reject_with, RejectKind,
  overflow, oversized, queue_full, accepted_bytes_kind, message_bytes, queue_count,
  queue_bytes_kind,
}
use dsh_passwords.Mux.Sender.Wire.{received, promised, owed_with}
use dsh_passwords.Mux.Sender.Invariant.{
  IsCounted, IsCurrent, IsValid, IsBorn, total-append, All-append_one,
}
use dsh_passwords.Mux.Sender.Pump.{IsReady, Keeps}
use dsh_passwords.Mux.Sender.Steps.{refresh_busy-IsCounted, pump_either}

-- What an outcome adds to the messages promised.
abbrev pub gain : AcceptOutcome → List ℕ → List (List ℕ)
gain accepted bytes = bytes ∷ []
gain _ bytes = []

owed-append :
    (u : List Frame) (c : Option Item) (q : List Item) (m : Item)
    → is_some c ≡ true ⊎ q ≡ []
    → owed_with u c (q ++ m ∷ []) ≡ owed_with u c q ++ m.bytes ∷ []
owed-append u none q m h = map-append _ q (m ∷ [])
owed-append [] (some c) q m h = ap (λ l. c.bytes ∷ l) (map-append _ q (m ∷ []))
owed-append (f ∷ u) (some c) q m h = ground (arith, map-append (λ (n : Item). n.bytes) q (m ∷ []))

module _ (o : Options) (sock : Socket) (tag : Option ℕ) (bytes : List ℕ) where
  -- The result of an operation with an outcome, from a valid `s`.
  abbrev pub Takes : Sender → Sender × AcceptOutcome → Type 0
  Takes s r = IsValid o r.0 × Keeps (promised s ++ gain r.1 bytes) r.0

  reject_with-Takes :
      (out : AcceptOutcome) (kind : RejectKind) (n : ℕ) (s : Sender)
      → gain out bytes ≡ []
      → IsValid o s
      → Takes s (reject_with out kind n s)
  reject_with-Takes out kind n s g v = (ground arith, inr (rw (g, append-nil (promised s))))

  push_item-promised :
      (b : Option Budget) (s : Sender)
      → IsValid o s
      → promised (refresh_busy (push_item tag bytes b s)) ≡ promised s ++ bytes ∷ []
  unfolding refresh_busy
  push_item-promised b s v = ground (
    arith,
    owed-append s.unflushed s.current s.queue
        (record { id = s.next_id; generation = s.generation; tag = tag; bytes = bytes })
        v.settled.waiting,
    append_assoc (received s).messages (owed_with s.unflushed s.current s.queue) (bytes ∷ []),
  )

  push_item-IsCounted :
      (b : Option Budget) (s : Sender)
      → IsCounted o s
      → s.accepted_bytes + length bytes ≤ o.accept_budget_bytes
      → IsCounted o (refresh_busy (push_item tag bytes b s))
  push_item-IsCounted b s c h =
      refresh_busy-IsCounted o (push_item tag bytes b s)
        (omega (
          arith,
          c.queue_sum,
          total-append s.queue
              (record { id = s.next_id; generation = s.generation; tag = tag; bytes = bytes }),
        ))
        (omega (arith, c.accepted_sum)) h

  push_item-IsCurrent :
      (b : Option Budget) (s : Sender)
      → IsCurrent s
      → IsCurrent (refresh_busy (push_item tag bytes b s))
  unfolding refresh_busy
  push_item-IsCurrent b s c = ground (
    arith,
    All-append_one (IsBorn s.generation) s.queue
        (record { id = s.next_id; generation = s.generation; tag = tag; bytes = bytes }) c.queued
        refl,
  )

  push_item-IsValid :
      (b : Option Budget) (s : Sender)
      → IsValid o s
      → s.disposed ≡ false
      → s.accepted_bytes + length bytes ≤ o.accept_budget_bytes
      → is_some s.current ≡ true
      → length s.queue + 1 ≤ o.max_queue_messages
      → s.queue_bytes + length bytes ≤ o.max_queue_bytes
      → IsValid o (refresh_busy (push_item tag bytes b s))
  unfolding refresh_busy
  push_item-IsValid b s v n h c q r = record {
    counted = push_item-IsCounted b s v.counted h;
    settled = ground (
      arith,
      length-append s.queue
          (record { id = s.next_id; generation = s.generation; tag = tag; bytes = bytes } ∷ []),
    );
    wired = ground arith;
    fresh = push_item-IsCurrent b s v.fresh;
  }

  push_item-IsReady :
      (b : Option Budget) (s : Sender)
      → IsValid o s
      → s.disposed ≡ false
      → s.accepted_bytes + length bytes ≤ o.accept_budget_bytes
      → (s.awaiting_flush || s.draining) ≡ false
      → IsReady o (refresh_busy (push_item tag bytes b s))
  unfolding refresh_busy
  push_item-IsReady b s v n h w = record {
    live = ground arith;
    written = ground arith;
    drained = ground arith;
    flushed = ground arith;
    counted = push_item-IsCounted b s v.counted h;
    fits = ground arith;
    agrees = ground arith;
    single = ground arith;
    fresh = push_item-IsCurrent b s v.fresh;
  }

  refresh_busy-phase :
      (b : Option Budget) (s : Sender)
      → ((refresh_busy (push_item tag bytes b s)).awaiting_flush
          || (refresh_busy (push_item tag bytes b s)).draining)
        ≡ (s.awaiting_flush || s.draining)
  unfolding refresh_busy
  refresh_busy-phase b s = ground arith

  accept-Takes :
      (b : Option Budget) (s : Sender)
      → IsValid o s
      → s.disposed ≡ false
      → s.accepted_bytes + length bytes ≤ o.accept_budget_bytes
      → (is_some s.current && ltb o.max_queue_messages (length s.queue + 1)) ≡ false
      → (is_some s.current && ltb o.max_queue_bytes (s.queue_bytes + length bytes)) ≡ false
      → Takes s (accept o sock tag bytes b s, accepted)
  unfolding accept
  accept-Takes b s v n h q r =
      pump_either o sock _ _ (push_item-promised b s v)
        (λ w.
          push_item-IsValid b s v n h (ground (arith, refresh_busy-phase b s))
            (ground (arith, refresh_busy-phase b s)) (ground (arith, refresh_busy-phase b s)))
        (λ w. push_item-IsReady b s v n h (sym (refresh_busy-phase b s) ∙ w))

  reserve_and_accept-Takes :
      (alloc_ok : Bool) (b : Option (Option Budget)) (s : Sender)
      → IsValid o s
      → s.disposed ≡ false
      → s.accepted_bytes + length bytes ≤ o.accept_budget_bytes
      → (is_some s.current && ltb o.max_queue_messages (length s.queue + 1)) ≡ false
      → (is_some s.current && ltb o.max_queue_bytes (s.queue_bytes + length bytes)) ≡ false
      → Takes s (reserve_and_accept o sock alloc_ok tag bytes b s)
  unfolding reserve_and_accept
  reserve_and_accept-Takes alloc_ok none s v n h q r =
      reject_with-Takes overflow accepted_bytes_kind _ s refl v
  reserve_and_accept-Takes true (some b) s v n h q r = accept-Takes b s v n h q r
  reserve_and_accept-Takes false (some b) s v n h q r =
      (ground arith, inr (sym (append-nil (promised s))))

  enqueue_behind-Takes :
      (alloc_ok : Bool) (s : Sender)
      → IsValid o s
      → s.disposed ≡ false
      → s.accepted_bytes + length bytes ≤ o.accept_budget_bytes
      → Takes s (enqueue_behind o sock alloc_ok tag bytes s)
  unfolding enqueue_behind
  enqueue_behind-Takes alloc_ok s v n h =
      elim (Bool-cases (is_some s.current && ltb o.max_queue_messages (length s.queue + 1))) [
        | inl e ↦ simp e (reject_with-Takes queue_full queue_count (length bytes) s refl v)
        | inr q ↦
            simp q
              (elim (Bool-cases
                (is_some s.current && ltb o.max_queue_bytes (s.queue_bytes + length bytes))) [
                  | inl e ↦
                      simp e (reject_with-Takes queue_full queue_bytes_kind (length bytes) s refl v)
                  | inr r ↦ simp r (
                      reserve_and_accept-Takes alloc_ok
                        (reserve_shared (length bytes) s.shared_budget) s v n h q r)
                ])
      ]

  -- Every branch of `enqueue` keeps a valid sender valid, and unless the carrier failed on the
  -- way, an accepted message stands last in what is promised, and any other outcome adds nothing.
  pub enqueue-Takes :
      (alloc_ok : Bool) (s : Sender) → IsValid o s → Takes s (enqueue o sock alloc_ok tag bytes s)
  unfolding enqueue
  enqueue-Takes alloc_ok s v =
      if_cases (Takes s) s.disposed (λ _. (v, inr (sym (append-nil (promised s)))))
        (λ n. elim (Bool-cases (ltb o.max_message_bytes (length bytes))) [
          | inl e ↦ simp e (reject_with-Takes oversized message_bytes (length bytes) s refl v)
          | inr e ↦
              simp e
                (elim (Bool-cases (ltb o.accept_budget_bytes (s.accepted_bytes + length bytes))) [
                  | inl r ↦
                      simp r
                        (reject_with-Takes overflow accepted_bytes_kind (length bytes) s refl v)
                  | inr r ↦ simp r (enqueue_behind-Takes alloc_ok s v n (ground arith))
                ])
        ])
