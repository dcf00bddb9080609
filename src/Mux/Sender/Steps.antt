-- ===== src/Mux/Sender/Steps.antt =====
-- The write callback, the drain poll, `cancel` and `dispose` of src/remote-mux-sender.ts.
use dsh_passwords.Prelude.{
  ℕ, ◌+◌, ◌≤◌, ◌≡◌, refl, Bool, true, false, not, ◌||◌, Option, none, some, List, [], ◌∷◌, leb,
  length, arith, Bool-cases, inl, inr, if_cases, ap, ◌==◌,
}
use dsh_passwords.Mux.Sender
use dsh_passwords.Mux.Sender.{
  Sender, Item, Options, Socket, Frame, Budget, size, refresh_busy, dispose, fail, pump, push_item,
  accept, reserve_and_accept, reserve_shared, enqueue, cancel, drop_tag, charge_off, finish_message,
  advance, on_flush, fire_flush, fire_oldest, on_drain_poll, emit, progress, note_drop,
  AcceptOutcome, accepted, kept, release, same_message, reject_with, mux_socket_open,
}
use dsh_passwords.Mux.Sender.Wire.{promised}
use dsh_passwords.Mux.Sender.Invariant.{
  IsCounted, IsSettled, IsWired, IsCurrent, IsValid, total, current_size, total-kept, length-kept,
  All-kept,
}
use dsh_passwords.Mux.Sender.Pump.{IsReady, Keeps, pump-Settles}

pub refresh_busy-IsCounted :
    (o : Options) (s : Sender)
    → s.queue_bytes ≡ total s.queue
    → s.accepted_bytes ≡ current_size s.current + s.queue_bytes
    → s.accepted_bytes ≤ o.accept_budget_bytes
    → IsCounted o (refresh_busy s)
unfolding refresh_busy
refresh_busy-IsCounted o s q a b = ground arith

-- What `refresh_busy` leaves alone.
record SameBut (s t : Sender) : Type 0 where
  same_live : t.disposed ≡ s.disposed
  same_queue : t.queue ≡ s.queue
  same_bytes : t.queue_bytes ≡ s.queue_bytes
  same_current : t.current ≡ s.current
  same_awaiting : t.awaiting_flush ≡ s.awaiting_flush
  same_draining : t.draining ≡ s.draining
  same_offset : t.fragment_offset ≡ s.fragment_offset
  same_wire : t.wire ≡ s.wire
  same_held : t.unflushed ≡ s.unflushed
  same_age : t.generation ≡ s.generation
  same_budget : t.shared_budget ≡ s.shared_budget
  same_accepted : t.accepted_bytes ≡ s.accepted_bytes

refresh_busy-SameBut : (s : Sender) → SameBut s (refresh_busy s)
unfolding refresh_busy
refresh_busy-SameBut s = ground arith

fail-disposed : (s : Sender) → (fail s).disposed ≡ true
unfolding fail dispose
fail-disposed s = ground arith

module _ (o : Options) where
  pub dispose-IsValid : (s : Sender) → IsValid o s → IsValid o (dispose s)
  unfolding dispose
  dispose-IsValid s v = ground arith

  fail-IsValid : (s : Sender) → IsCounted o s → (s.disposed ≡ false) → IsValid o (fail s)
  unfolding fail dispose
  fail-IsValid s v n = ground arith

  drop_tag-IsSettled : (t : ℕ) (s : Sender) → IsSettled o s → IsSettled o (drop_tag t s)
  drop_tag-IsSettled t s h = record {
    phase = h.phase;
    alone = h.alone;
    waiting = ground arith;
    queue_count = omega (arith, h.queue_count, length-kept t s.queue);
    queue_room = omega (arith, h.queue_room);
    shut = h.shut;
  }

  refresh_busy-IsSettled : (s : Sender) → IsSettled o s → IsSettled o (refresh_busy s)
  unfolding refresh_busy
  refresh_busy-IsSettled s h = ground arith

  refresh_busy-IsWired : (s : Sender) → IsWired o s → IsWired o (refresh_busy s)
  unfolding refresh_busy
  refresh_busy-IsWired s h = ground arith

  refresh_busy-IsCurrent : (s : Sender) → IsCurrent s → IsCurrent (refresh_busy s)
  unfolding refresh_busy
  refresh_busy-IsCurrent s h = ground arith

  -- Cancelling a tag keeps a valid sender valid.
  pub cancel-IsValid : (t : ℕ) (s : Sender) → IsValid o s → IsValid o (cancel t s).0
  unfolding cancel
  cancel-IsValid t s v =
      if_cases {A = Sender × Sender.CancelResult} (λ r. IsValid o r.0) s.disposed (λ _. v)
        (λ n. record {
          counted =
              refresh_busy-IsCounted o (drop_tag t s)
                (omega (arith, v.counted.queue_sum, total-kept t s.queue))
                (omega (arith, v.counted.queue_sum, v.counted.accepted_sum, total-kept t s.queue))
                (omega (arith, v.counted.in_budget));
          settled = refresh_busy-IsSettled _ (drop_tag-IsSettled t s v.settled);
          wired = ground (arith, refresh_busy-IsWired (drop_tag t s));
          fresh = refresh_busy-IsCurrent (drop_tag t s) (record {
            in_flight = v.fresh.in_flight;
            queued = All-kept _ t s.queue v.fresh.queued;
          });
        })

promised-note_drop :
    (last b : Option ℕ) (buffered : ℕ) (d : Bool) (s : Sender)
    → promised (record (note_drop last buffered s) { draining = d; drain_last_buffered = b })
      ≡ promised s
promised-note_drop none b buffered d s = refl
promised-note_drop (some last) b buffered d s = ground arith

module _ (o : Options) where
  note_drop-IsReady :
      (last : Option ℕ) (buffered : ℕ) (s : Sender)
      → IsValid o s
      → s.disposed ≡ false
      → s.draining ≡ true
      → IsReady o
          (record (note_drop last buffered s) { draining = false; drain_last_buffered = none })
  note_drop-IsReady none buffered s v n d = ground arith
  note_drop-IsReady (some last) buffered s v n d = ground arith

  note_drop-IsValid :
      (last : Option ℕ) (buffered : ℕ) (s : Sender)
      → IsValid o s
      → IsValid o (record (note_drop last buffered s) { drain_last_buffered = some buffered })
  note_drop-IsValid none buffered s v = ground arith
  note_drop-IsValid (some last) buffered s v = ground arith

module _ (o : Options) where
  finish_message-IsReady :
      (f : Frame) (s : Sender) (u : List Frame)
      → s.unflushed ≡ f ∷ u
      → f.fin ≡ true
      → IsValid o s
      → s.disposed ≡ false
      → (t : Sender)
      → t
        ≡ charge_off f.message (emit progress (record s { unflushed = u; awaiting_flush = false }))
      → IsReady o (refresh_busy t) × (promised (refresh_busy t) ≡ promised s)
  unfolding refresh_busy release
  finish_message-IsReady f s u e l v n t c = ground arith

  advance_fragment-IsReady :
      (f : Frame) (s : Sender) (u : List Frame)
      → s.unflushed ≡ f ∷ u
      → f.fin ≡ false
      → IsValid o s
      → s.disposed ≡ false
      → (t : Sender)
      → t ≡ record s {
        unflushed = u;
        awaiting_flush = false;
        log = progress ∷ s.log;
        fragment_offset = s.fragment_offset + length f.chunk;
      }
      → IsReady o t × (promised t ≡ promised s)
  advance_fragment-IsReady f s u e l v n t c = ground arith

  -- Ready to go on after a successful write callback.
  pub advance-IsReady :
      (f : Frame) (s : Sender) (u : List Frame)
      → s.unflushed ≡ f ∷ u
      → IsValid o s
      → s.disposed ≡ false
      → IsReady o (advance f (emit progress (record s { unflushed = u; awaiting_flush = false })))
        × (promised (advance f (emit progress (record s { unflushed = u; awaiting_flush = false })))
            ≡ promised s)
  unfolding finish_message
  advance-IsReady f s u e v n =
      if_cases (λ (t : Sender). IsReady o t × (promised t ≡ promised s)) f.fin
        (λ l. finish_message-IsReady f s u e l v n _ refl)
        (λ l. advance_fragment-IsReady f s u e l v n _ refl)

  pub stale-disposed :
      (f : Frame) (s : Sender) (u : List Frame)
      → s.unflushed ≡ f ∷ u
      → IsValid o s
      → (s.disposed
          || not (same_message s.current f.message)
          || not (f.message.generation == s.generation))
        ≡ true
      → s.disposed ≡ true
  stale-disposed f s u e v g = ground arith

module _ (o : Options) (sock : Socket) where
  pub pump_after :
      (r s : Sender)
      → IsReady o s × (promised s ≡ promised r)
      → IsValid o (pump o sock s) × Keeps (promised r) (pump o sock s)
  pump_after r s (h, e) = let (v, k) = pump-Settles o sock s h in (v, ground arith)

  pump_idle : (s : Sender) → (s.awaiting_flush || s.draining) ≡ true → pump o sock s ≡ s
  unfolding pump
  pump_idle s h = ground arith

  -- `pump` after a message is pushed, whether or not another is in flight.
  pub pump_either :
      (l : List (List ℕ)) (s : Sender)
      → promised s ≡ l
      → ((s.awaiting_flush || s.draining) ≡ true → IsValid o s)
      → ((s.awaiting_flush || s.draining) ≡ false → IsReady o s)
      → IsValid o (pump o sock s) × Keeps l (pump o sock s)
  pump_either l s e f g = elim (Bool-cases (s.awaiting_flush || s.draining)) [
    | inl w ↦ rw (pump_idle s w) (f w, inr e)
    | inr w ↦ let (v, k) = pump-Settles o sock s (g w) in (v, ground arith)
  ]

  -- A result is valid, and has failed or owes what `s` owes.
  abbrev pub Settles : Sender → Sender → Type 0
  Settles s t = IsValid o t × Keeps (promised s) t

  -- A poll of the drain timer keeps a valid draining sender valid, whatever the water mark and the
  -- socket's state, and unless the carrier failed keeps what is promised.
  pub on_drain_poll-Settles :
      (s : Sender) → IsValid o s → s.draining ≡ true → Settles s (on_drain_poll o sock s)
  unfolding on_drain_poll
  on_drain_poll-Settles s v d =
      if_cases (Settles s) s.disposed (λ e. ground arith)
        (λ n.
          if_cases (Settles s) (not (sock.ready_state == mux_socket_open))
            (λ _. (fail-IsValid o _ (ground arith) n, inl (fail-disposed _)))
            (λ _.
              if_cases (Settles s) (leb sock.buffered_amount o.low_water_bytes)
                (λ _. pump_after s _ (
                  note_drop-IsReady o s.drain_last_buffered sock.buffered_amount s v n d,
                  promised-note_drop s.drain_last_buffered none sock.buffered_amount false s,
                ))
                (λ _. (
                  note_drop-IsValid o s.drain_last_buffered sock.buffered_amount s v,
                  inr (
                      ground (
                        arith,
                        promised-note_drop s.drain_last_buffered (some sock.buffered_amount)
                            sock.buffered_amount s.draining s,
                      )),
                ))))

  pub on_flush-Settles :
      (f : Frame) (s : Sender) (u : List Frame) (failed : Bool)
      → s.unflushed ≡ f ∷ u
      → IsValid o s
      → Settles s (on_flush o sock f failed (record s { unflushed = u }))
  unfolding on_flush
  on_flush-Settles f s u failed e v =
      if_cases (Settles s)
        (s.disposed
          || not (same_message s.current f.message)
          || not (f.message.generation == s.generation))
        (λ g. (ground (arith, stale-disposed o f s u e v g), inl (stale-disposed o f s u e v g)))
        (λ g.
          if_cases (Settles s) failed
            (λ _. (fail-IsValid o _ (ground arith) (ground arith), inl (fail-disposed _)))
            (λ _. pump_after s _ (advance-IsReady o f s u e v (ground arith))))

  pub fire_flush_lem :
      (s : Sender) (failed : Bool) (u : List Frame)
      → s.unflushed ≡ u
      → fire_flush o sock failed s ≡ fire_oldest o sock failed u s
  unfolding fire_flush
  fire_flush_lem s failed u e = ap (λ w. fire_oldest o sock failed w s) e

  fire_oldest-Settles :
      (s : Sender) (failed : Bool) (u : List Frame)
      → s.unflushed ≡ u
      → IsValid o s
      → Settles s (fire_oldest o sock failed u s)
  fire_oldest-Settles s failed [] e v = (v, inr refl)
  fire_oldest-Settles s failed (f ∷ u) e v = on_flush-Settles f s u failed e v

  -- A write callback, with or without an error, keeps a valid sender valid, and unless the
  -- carrier failed, what the peer has followed by what is owed is the same list of messages.
  pub fire_flush-Settles :
      (s : Sender) (failed : Bool) → IsValid o s → Settles s (fire_flush o sock failed s)
  fire_flush-Settles s failed v =
      rw (fire_flush_lem s failed s.unflushed refl)
        (fire_oldest-Settles s failed s.unflushed refl v)
