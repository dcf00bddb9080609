-- ===== src/Mux/Sender/Drain.antt =====
-- A sender of src/remote-mux-sender.ts whose socket stays open, below the high water mark and
-- without errors: how its queue empties.
use dsh_passwords.Prelude.{
  ℕ, zero, suc, ◌+◌, ◌-◌, ◌≤◌, ◌<◌, ◌≡◌, refl, false, not, ◌||◌, Option, none, some, List, [], ◌∷◌,
  length, arith, if_cases, ◌==◌, sym, ◌∙◌, append-nil,
}
use mathlib.Core.Bool.{false≢true}
use dsh_passwords.Mux.Sender.{
  Sender, mux_socket_open, Item, Options, Socket, Frame, size, refresh_busy, pump, pump_next,
  submit_fragment, commit, write, on_flush, finish_message, advance, fire_flush, emit, progress,
  same_message, release,
}
use dsh_passwords.Mux.Sender.Wire.{received, promised}
use dsh_passwords.Mux.Sender.Invariant.{IsValid}
use dsh_passwords.Mux.Sender.Pump.{Keeps}
use dsh_passwords.Mux.Sender.Steps.{on_flush-Settles, stale-disposed, fire_flush_lem}

pub record IsGood (o : Options) (sock : Socket) : Type 0 where
  pub is_open : sock.ready_state ≡ mux_socket_open
  pub is_low : sock.buffered_amount ≤ o.high_water_bytes
  pub no_throw : sock.send_throws ≡ false

-- The write callbacks still to come, at most: one for each message and one for each byte.
abbrev left : Option Item → ℕ → ℕ → ℕ
left none n bytes = bytes
left (some m) n bytes = 1 + (bytes - n)

abbrev pub work : Sender → ℕ
work s = length s.queue + left s.current s.fragment_offset s.accepted_bytes

-- The socket calls back `n` times with success.
pub flush_times : ℕ → Options → Socket → Sender → Sender
flush_times zero o sock s = s
flush_times (suc n) o sock s = flush_times n o sock (fire_flush o sock false s)

module _ (o : Options) (sock : Socket) (g : IsGood o sock) where
  -- Nothing failed, nothing drains, and the work is what it was.
  record Went (w : ℕ) (s : Sender) : Type 0 where
    live : s.disposed ≡ false
    flowing : s.draining ≡ false
    todo : work s ≡ w

  submit_fragment-Went :
      (m : Item) (s : Sender)
      → s.disposed ≡ false
      → s.draining ≡ false
      → Went (work s) (submit_fragment o sock m s)
  unfolding submit_fragment commit write
  submit_fragment-Went m s n d = ground (arith, g.is_open, g.is_low, g.no_throw)

  pump_next-Went :
      (c : Option Item) (q : List Item) (s : Sender)
      → s.current ≡ c
      → s.queue ≡ q
      → s.disposed ≡ false
      → s.draining ≡ false
      → Went (work s) (pump_next o sock c q s)
  pump_next-Went (some m) q s c e n d = submit_fragment-Went m s n d
  pump_next-Went none [] s c e n d = record { live = n; flowing = d; todo = refl }
  pump_next-Went none (m ∷ q) s c e n d =
      let h =
        submit_fragment-Went m
          (record s {
            queue = q;
            queue_bytes = s.queue_bytes - size m;
            current = some m;
            fragment_offset = 0;
          })
          n d in
      record { live = h.live; flowing = h.flowing; todo = ground (arith, h.todo) }

  pump-Went : (s : Sender) → s.disposed ≡ false → s.draining ≡ false → Went (work s) (pump o sock s)
  unfolding pump
  pump-Went s n d =
      if_cases (Went (work s)) (s.disposed || s.awaiting_flush || s.draining)
        (λ _. record { live = n; flowing = d; todo = refl })
        (λ _. pump_next-Went s.current s.queue s refl refl n d)

  -- A successful callback leaves less to do.
  advance-Went :
      (f : Frame) (s : Sender) (u : List Frame)
      → s.unflushed ≡ f ∷ u
      → IsValid o s
      → s.disposed ≡ false
      → s.draining ≡ false
      → (t : Sender)
      → t ≡ advance f (emit progress (record s { unflushed = u; awaiting_flush = false }))
      → (t.disposed ≡ false) × (t.draining ≡ false) × (work t < work s)
  unfolding finish_message refresh_busy release
  advance-Went f s u e v n d t eq = ground arith

  abbrev Falls : Sender → Sender → Type 0
  Falls s t = (t.disposed ≡ false) × (t.draining ≡ false) × (work t < work s)

  pump-Falls : (s t : Sender) → Falls s t → Falls s (pump o sock t)
  pump-Falls s t (n, d, w) = let h = pump-Went t n d in (h.live, h.flowing, omega (arith, h.todo))

  on_flush-Falls :
      (f : Frame) (s : Sender) (u : List Frame)
      → s.unflushed ≡ f ∷ u
      → IsValid o s
      → s.disposed ≡ false
      → s.draining ≡ false
      → Falls s (on_flush o sock f false (record s { unflushed = u }))
  unfolding on_flush
  on_flush-Falls f s u e v n d =
      if_cases (Falls s)
        (s.disposed
          || not (same_message s.current f.message)
          || not (f.message.generation == s.generation))
        (λ z. absurd (false≢true (sym n ∙ stale-disposed o f s u e v z)))
        (λ z. pump-Falls s _ (advance-Went f s u e v n d _ refl))

  -- All that is promised has arrived, and the sender is idle.
  pub record IsDelivered (l : List (List ℕ)) (s : Sender) : Type 0 where
    pub live : s.disposed ≡ false
    pub idle : s.current ≡ none
    pub empty : s.queue ≡ []
    pub settled_up : s.accepted_bytes ≡ 0
    pub arrived : (received s).messages ≡ l

  idle-IsDelivered :
      (s : Sender)
      → IsValid o s
      → s.disposed ≡ false
      → s.current ≡ none
      → IsDelivered (promised s) s
  idle-IsDelivered s v n c = ground (
    arith,
    v.counted.queue_sum,
    v.counted.accepted_sum,
    append-nil (received s).messages,
    v.settled.waiting,
  )

  idle-work : (s : Sender) → IsValid o s → s.current ≡ none → work s ≤ 0
  idle-work s v c = ground (arith, v.counted.queue_sum, v.counted.accepted_sum, v.settled.waiting)

  Keeps-live : (l : List (List ℕ)) (s : Sender) → Keeps l s → s.disposed ≡ false → promised s ≡ l
  Keeps-live l s k n = ground arith

  quiet-none :
      (s : Sender)
      → IsValid o s
      → s.disposed ≡ false
      → s.draining ≡ false
      → s.unflushed ≡ []
      → s.current ≡ none
  quiet-none s v n d e = ground arith

  done-none : (s : Sender) → work s ≤ 0 → s.current ≡ none
  done-none s w = ground arith

  flush_times-step :
      (n : ℕ) (s : Sender) (l : List (List ℕ))
      → IsValid o s
      → s.disposed ≡ false
      → s.draining ≡ false
      → work s ≤ n
      → promised s ≡ l
      → (u : List Frame) → s.unflushed ≡ u
      → IsDelivered l (flush_times n o sock s)
  unfolding flush_times
  flush_times-step zero s l v d w q p u e = rw (← p) (idle-IsDelivered s v d (done-none s q))
  flush_times-step (suc n) s l v d w q p [] e =
      rw (fire_flush_lem o sock s false [] e)
        (flush_times-step n s l v d w (ground (arith, idle-work s v (quiet-none s v d w e))) p [] e)
  flush_times-step (suc n) s l v d w q p (f ∷ u) e =
      let (v', k) = on_flush-Settles o sock f s u false e v in
      let (d', w', less) = on_flush-Falls f s u e v d w in
      rw (fire_flush_lem o sock s false (f ∷ u) e) (
        flush_times-step n _ l v' d' w' (omega arith)
          (Keeps-live (promised s) (on_flush o sock f false (record s { unflushed = u })) k d' ∙ p)
          _ refl)

  -- From any valid live sender that is not draining, `work s` successful callbacks empty it, and
  -- the peer then has exactly the promised messages, in order.
  pub flush_times-IsDelivered :
      (s : Sender)
      → IsValid o s
      → s.disposed ≡ false
      → s.draining ≡ false
      → IsDelivered (promised s) (flush_times (work s) o sock s)
  flush_times-IsDelivered s v d w =
      flush_times-step (work s) s (promised s) v d w (omega arith) refl s.unflushed refl
