-- ===== src/Mux/Sender/Shared.antt =====
-- The budget that carriers share (`MuxSenderBudget` of src/remote-mux-sender.ts).
use dsh_passwords.Prelude.{
  ℕ, ◌+◌, ◌≡◌, ◌≤◌, refl, is_some, Bool, true, false, not, ◌||◌, Option, none, some, List, [], ◌∷◌,
  leb, length, arith, if_cases, ◌==◌,
}
use dsh_passwords.Mux.Sender.{
  Sender, mux_socket_open, Item, Options, Socket, Frame, Budget, refresh_busy, pump, pump_next,
  submit_fragment, commit, write, fail, dispose, push_item, accept, reserve_and_accept,
  reserve_shared, enqueue, enqueue_behind, same_message, CancelResult, try_reserve, release, emit,
  release_shared, cancel, drop_tag, on_flush, finish_message, advance, on_drain_poll, fire_flush,
  fire_oldest, note_drop, progress,
}
use dsh_passwords.Mux.Sender.Invariant.{IsValid, total-kept}

abbrev pub reserved : Option Budget → ℕ
reserved none = 0
reserved (some b) = b.reserved_bytes

abbrev pub capacity : Option Budget → ℕ
capacity none = 0
capacity (some b) = b.max_bytes

-- A sender at work on a budget of `max` bytes, of which `others` are held by the other carriers.
abbrev pub Holds : ℕ → ℕ → Sender → Type 0
Holds others max s =
    (is_some s.shared_budget ≡ true)
    × (reserved s.shared_budget ≡ others + s.accepted_bytes)
    × (capacity s.shared_budget ≡ max)
    × (others + s.accepted_bytes ≤ max)

module _ (k max : ℕ) where
  pub dispose-Holds : (s : Sender) → Holds k max s → Holds k max (dispose s)
  unfolding dispose release
  dispose-Holds s h = ground arith

  fail-Holds : (s : Sender) → Holds k max s → Holds k max (fail s)
  unfolding fail dispose release
  fail-Holds s h = ground arith

  submit-Holds :
      (o : Options) (sock : Socket) (m : Item) (s : Sender)
      → Holds k max s
      → Holds k max (submit_fragment o sock m s)
  unfolding submit_fragment commit write fail dispose release
  submit-Holds o sock m s h = ground arith

  pump_next-Holds :
      (o : Options) (sock : Socket) (c : Option Item) (q : List Item) (s : Sender)
      → Holds k max s
      → Holds k max (pump_next o sock c q s)
  pump_next-Holds o sock none [] s h = h
  pump_next-Holds o sock none (m ∷ q) s h = submit-Holds o sock m _ h
  pump_next-Holds o sock (some m) q s h = submit-Holds o sock m s h

  pump-Holds :
      (o : Options) (sock : Socket) (s : Sender) → Holds k max s → Holds k max (pump o sock s)
  unfolding pump
  pump-Holds o sock s h =
      if_cases (Holds k max) _ (λ _. h) (λ _. pump_next-Holds o sock s.current s.queue s h)

  note_drop-Holds :
      (last : Option ℕ) (n : ℕ) (s : Sender) → Holds k max s → Holds k max (note_drop last n s)
  note_drop-Holds none n s h = h
  note_drop-Holds (some l) n s h = ground arith

  refresh_busy-Holds : (s : Sender) → Holds k max s → Holds k max (refresh_busy s)
  unfolding refresh_busy
  refresh_busy-Holds s h = ground arith

  try_reserve-Holds :
      (n : ℕ) (b b' : Budget) → try_reserve n b ≡ some b' → b'.reserved_bytes ≡ b.reserved_bytes + n
  unfolding try_reserve
  try_reserve-Holds n b b' e = ground arith

  push_item-Holds :
      (tag : Option ℕ) (bytes : List ℕ) (s : Sender) (b : Option Budget)
      → reserve_shared (length bytes) s.shared_budget ≡ some b
      → Holds k max s
      → Holds k max (push_item tag bytes b s)
  unfolding try_reserve
  push_item-Holds tag bytes s b e h = ground arith

  unreserve-Holds :
      (n : ℕ) (s : Sender) (b : Option Budget)
      → reserve_shared n s.shared_budget ≡ some b
      → Holds k max s
      → Holds k max (record s { shared_budget = release_shared n b })
  unfolding try_reserve release
  unreserve-Holds n s b e h = ground arith

module _ (k max : ℕ) (o : Options) where
  pub cancel-Holds : (t : ℕ) (s : Sender) → IsValid o s → Holds k max s → Holds k max (cancel t s).0
  unfolding cancel release
  cancel-Holds t s v h =
      if_cases {A = Sender × CancelResult} (λ r. Holds k max r.0) s.disposed (λ _. h)
        (λ _.
          refresh_busy-Holds k max (drop_tag t s)
            (ground (arith, v.counted.queue_sum, v.counted.accepted_sum, total-kept t s.queue)))

module _ (k max : ℕ) (o : Options) (sock : Socket) where
  reserve_and_accept-Holds :
      (alloc_ok : Bool) (tag : Option ℕ) (bytes : List ℕ) (s : Sender) (b : Option (Option Budget))
      → reserve_shared (length bytes) s.shared_budget ≡ b
      → Holds k max s
      → Holds k max (reserve_and_accept o sock alloc_ok tag bytes b s).0
  unfolding reserve_and_accept accept
  reserve_and_accept-Holds alloc_ok tag bytes s none e h = h
  reserve_and_accept-Holds true tag bytes s (some b) e h =
      pump-Holds k max o sock _
        (refresh_busy-Holds k max _ (push_item-Holds k max tag bytes s b e h))
  reserve_and_accept-Holds false tag bytes s (some b) e h =
      unreserve-Holds k max (length bytes) s b e h

  pub enqueue-Holds :
      (alloc_ok : Bool) (tag : Option ℕ) (bytes : List ℕ) (s : Sender)
      → Holds k max s
      → Holds k max (enqueue o sock alloc_ok tag bytes s).0
  unfolding enqueue enqueue_behind
  enqueue-Holds alloc_ok tag bytes s h = ground (
    arith,
    reserve_and_accept-Holds alloc_ok tag bytes s (reserve_shared (length bytes) s.shared_budget)
        refl h,
  )

  finish-Holds :
      (f : Frame) (s : Sender) (u : List Frame)
      → s.unflushed ≡ f ∷ u
      → IsValid o s
      → s.disposed ≡ false
      → Holds k max s
      → Holds k max (advance f (emit progress (record s { unflushed = u; awaiting_flush = false })))
  unfolding finish_message refresh_busy release
  finish-Holds f s u e v n h = ground arith

  on_flush-Holds :
      (f : Frame) (s : Sender) (u : List Frame) (failed : Bool)
      → s.unflushed ≡ f ∷ u
      → IsValid o s
      → Holds k max s
      → Holds k max (on_flush o sock f failed (record s { unflushed = u }))
  unfolding on_flush
  on_flush-Holds f s u failed e v h =
      if_cases (Holds k max)
        (s.disposed
          || not (same_message s.current f.message)
          || not (f.message.generation == s.generation))
        (λ _. h)
        (λ g.
          if_cases (Holds k max) failed (λ _. fail-Holds k max _ h)
            (λ _. pump-Holds k max o sock _ (finish-Holds f s u e v (ground arith) h)))

  pub on_drain_poll-Holds : (s : Sender) → Holds k max s → Holds k max (on_drain_poll o sock s)
  unfolding on_drain_poll
  on_drain_poll-Holds s h =
      if_cases (Holds k max) s.disposed (λ _. h)
        (λ n.
          if_cases (Holds k max) (not (sock.ready_state == mux_socket_open))
            (λ _. fail-Holds k max _ h)
            (λ _.
              if_cases (Holds k max) (leb sock.buffered_amount o.low_water_bytes)
                (λ _.
                  pump-Holds k max o sock _
                    (note_drop-Holds k max s.drain_last_buffered sock.buffered_amount s h))
                (λ _. note_drop-Holds k max s.drain_last_buffered sock.buffered_amount s h)))

  fire_oldest-Holds :
      (s : Sender) (failed : Bool) (u : List Frame)
      → s.unflushed ≡ u
      → IsValid o s
      → Holds k max s
      → Holds k max (fire_oldest o sock failed u s)
  fire_oldest-Holds s failed [] e v h = h
  fire_oldest-Holds s failed (f ∷ u) e v h = on_flush-Holds f s u failed e v h

  pub fire_flush-Holds :
      (s : Sender) (failed : Bool)
      → IsValid o s
      → Holds k max s
      → Holds k max (fire_flush o sock failed s)
  unfolding fire_flush
  fire_flush-Holds s failed v h = fire_oldest-Holds s failed s.unflushed refl v h
