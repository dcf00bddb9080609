-- ===== src/Mux/Sender/Pump.antt =====
-- `pump` of src/remote-mux-sender.ts, which writes the next fragment, waits or fails.
use dsh_passwords.Prelude.{
  ℕ, ◌+◌, ◌-◌, ◌≤◌, ◌<◌, ◌≡◌, refl, Bool, true, false, ◌||◌, Option, none, some, List, [], ◌∷◌,
  ◌++◌, length, arith, Bool-cases, inl, inr, ◌⊎◌, if_cases, take, drop, take-append-take-drop, min,
  take_all, length-take, length-drop, leb, append_assoc, ap, ◌∙◌,
}
use dsh_passwords.Mux.Sender.{
  Sender, Item, Options, Socket, size, dispose, fail, write, commit, submit_fragment, pump,
  pump_next,
}
use dsh_passwords.Mux.Sender.Wire.{Agrees, received, receive-append, promised, contents}
use dsh_passwords.Mux.Sender.Invariant.{IsCounted, IsSettled, IsWired, IsCurrent, IsValid, total}

-- Before `pump`: nothing outstanding, and the queue fits once its head is taken.
abbrev pub Fits : Options → Option Item → List Item → Type 0
Fits o (some m) q = (length q ≤ o.max_queue_messages) × (total q ≤ o.max_queue_bytes)
Fits o none [] = Unit
Fits o none (m ∷ q) = (length q ≤ o.max_queue_messages) × (total q ≤ o.max_queue_bytes)

pub record IsReady (o : Options) (s : Sender) : Type 0 where
  pub live : s.disposed ≡ false
  pub written : s.awaiting_flush ≡ false
  pub drained : s.draining ≡ false
  pub flushed : s.unflushed ≡ []
  pub counted : IsCounted o s
  pub fits : Fits o s.current s.queue
  pub agrees : Agrees s.current [] s.fragment_offset (received s).partial
  pub single : (0 < o.fragment_bytes) ⊎ (s.fragment_offset ≡ 0)
  pub fresh : IsCurrent s

-- After a call: the sender failed, or the peer's view and the debts make the same list.
abbrev pub Keeps : List (List ℕ) → Sender → Type 0
Keeps l s = (s.disposed ≡ true) ⊎ (promised s ≡ l)

module _ (o : Options) (sock : Socket) where
  submit_fragment-IsCounted :
      (m : Item) (s : Sender) → IsCounted o s → IsCounted o (submit_fragment o sock m s)
  unfolding submit_fragment commit write fail dispose
  submit_fragment-IsCounted m s h = ground arith

  submit_fragment-IsSettled :
      (m : Item) (s : Sender)
      → s.current ≡ some m
      → s.awaiting_flush ≡ false
      → s.draining ≡ false
      → s.disposed ≡ false
      → length s.queue ≤ o.max_queue_messages
      → s.queue_bytes ≤ o.max_queue_bytes
      → IsSettled o (submit_fragment o sock m s)
  unfolding submit_fragment commit write fail dispose
  submit_fragment-IsSettled m s c a d n q r = ground arith

  submit_fragment-IsCurrent :
      (m : Item) (s : Sender) → IsCurrent s → IsCurrent (submit_fragment o sock m s)
  unfolding submit_fragment commit write fail dispose
  submit_fragment-IsCurrent m s h = ground arith

-- A written fragment of a message, whole or not.
record IsFragment (m : Item) (n : ℕ) (chunk : List ℕ) (last : Bool) : Type 0 where
  ended : (last ≡ false) ⊎ (take n m.bytes ++ chunk ≡ m.bytes)
  continued : (last ≡ true) ⊎ (take n m.bytes ++ chunk ≡ take (n + length chunk) m.bytes)
  inside : n + length chunk ≤ size m
  nonempty : (last ≡ true) ⊎ (0 < length chunk)

module _ (o : Options) (sock : Socket) (m : Item) (chunk : List ℕ) (last : Bool) (s : Sender)
    (c : s.current ≡ some m) (u : s.unflushed ≡ []) (n : s.disposed ≡ false)
    (aw : s.awaiting_flush ≡ false) (g : (received s).partial ≡ take s.fragment_offset m.bytes)
    (k : s.fragment_offset ≤ size m) (fr : IsFragment m s.fragment_offset chunk last)
    (w : (0 < o.fragment_bytes) ⊎ ((s.fragment_offset ≡ 0) × (last ≡ true))) where
  commit-IsWired :
      ((commit o sock m chunk last s).disposed ≡ true) ⊎ IsWired o (commit o sock m chunk last s)
  unfolding commit write fail dispose
  commit-IsWired = ground (
    arith,
    receive-append (record { messages = []; partial = [] }) s.wire
        (record { message = m; chunk = chunk; fin = last }),
    fr.ended,
    fr.continued,
    fr.inside,
    fr.nonempty,
  )

  commit-Keeps : Keeps (promised s) (commit o sock m chunk last s)
  unfolding commit write fail dispose
  commit-Keeps = ground (
    arith,
    receive-append (record { messages = []; partial = [] }) s.wire
        (record { message = m; chunk = chunk; fin = last }),
    fr.ended,
    append_assoc (received s).messages ((take s.fragment_offset m.bytes ++ chunk) ∷ [])
        (contents s.queue),
  )

abbrev slice_end : Options → ℕ → Item → ℕ
slice_end o n m = min (n + o.fragment_bytes) (size m)

slice_length :
    (o : Options) (n : ℕ) (m : Item)
    → n ≤ size m
    → length (take (slice_end o n m - n) (drop n m.bytes)) ≡ slice_end o n m - n
slice_length o n m k =
    omega (arith, length-take (slice_end o n m - n) (drop n m.bytes), length-drop n m.bytes)

slice_join :
    (o : Options) (n : ℕ) (m : Item)
    → n ≤ size m
    → take n m.bytes ++ take (slice_end o n m - n) (drop n m.bytes) ≡ take (slice_end o n m) m.bytes
slice_join o n m k =
    take-append-take-drop n (slice_end o n m - n) m.bytes ∙ ap (λ j. take j m.bytes) (omega arith)

slice-IsFragment :
    (o : Options) (n : ℕ) (m : Item)
    → n ≤ size m
    → 0 < o.fragment_bytes
    → IsFragment m n (take (slice_end o n m - n) (drop n m.bytes)) (leb (size m) (slice_end o n m))
slice-IsFragment o n m k z = record {
  ended = elim (Bool-cases (leb (size m) (slice_end o n m))) [
    | inl e ↦ inr (slice_join o n m k ∙ take_all (slice_end o n m) m.bytes (ground arith))
    | inr e ↦ inl e
  ];
  continued =
      inr (slice_join o n m k ∙ ap (λ j. take j m.bytes) (omega (arith, slice_length o n m k)));
  inside = omega (arith, slice_length o n m k);
  nonempty = elim (Bool-cases (leb (size m) (slice_end o n m))) [
    | inl e ↦ inl e
    | inr e ↦ inr (ground (arith, slice_length o n m k))
  ];
}

whole-IsFragment : (m : Item) (n : ℕ) → n ≡ 0 → IsFragment m n m.bytes true
whole-IsFragment m n z = record {
  ended = inr (ap (λ j. take j m.bytes ++ m.bytes) z);
  continued = inl refl;
  inside = omega arith;
  nonempty = inl refl;
}

module _ (o : Options) (sock : Socket) where
  module _ (m : Item) (s : Sender) (c : s.current ≡ some m) (u : s.unflushed ≡ [])
      (n : s.disposed ≡ false) (aw : s.awaiting_flush ≡ false)
      (g : (received s).partial ≡ take s.fragment_offset m.bytes) (k : s.fragment_offset ≤ size m)
      (w : (0 < o.fragment_bytes) ⊎ (s.fragment_offset ≡ 0)) where
    submit_fragment-IsWired :
        ((submit_fragment o sock m s).disposed ≡ true) ⊎ IsWired o (submit_fragment o sock m s)
    unfolding submit_fragment
    submit_fragment-IsWired =
        if_cases (λ (t : Sender). (t.disposed ≡ true) ⊎ IsWired o t) (leb o.fragment_bytes 0)
          (λ z.
            commit-IsWired o sock m m.bytes true s c u n aw g k
              (whole-IsFragment m s.fragment_offset (ground arith)) (ground arith))
          (λ z.
            commit-IsWired o sock m _ _ s c u n aw g k
              (slice-IsFragment o s.fragment_offset m k (ground arith)) (ground arith))

    submit_fragment-Keeps : Keeps (promised s) (submit_fragment o sock m s)
    unfolding submit_fragment
    submit_fragment-Keeps =
        if_cases (Keeps (promised s)) (leb o.fragment_bytes 0)
          (λ z.
            commit-Keeps o sock m m.bytes true s c u n aw g k
              (whole-IsFragment m s.fragment_offset (ground arith)) (ground arith))
          (λ z.
            commit-Keeps o sock m _ _ s c u n aw g k
              (slice-IsFragment o s.fragment_offset m k (ground arith)) (ground arith))

  pump_next-IsCounted :
      (c : Option Item) (q : List Item) (s : Sender)
      → s.current ≡ c
      → s.queue ≡ q
      → IsCounted o s
      → IsCounted o (pump_next o sock c q s)
  pump_next-IsCounted (some m) q s c e h = submit_fragment-IsCounted o sock m s h
  pump_next-IsCounted none [] s c e h = h
  pump_next-IsCounted none (m ∷ q) s c e h = submit_fragment-IsCounted o sock m _ (record {
    queue_sum = ground arith;
    accepted_sum = ground arith;
    in_budget = h.in_budget;
    edge = h.edge;
  })

  -- What `pump` gives: a valid sender that owes the same messages, or one that has failed.
  abbrev Settles : Sender → Sender → Type 0
  Settles s t = IsValid o t × Keeps (promised s) t

  submit_fragment-Settles :
      (m : Item) (s : Sender)
      → s.current ≡ some m
      → IsReady o s
      → length s.queue ≤ o.max_queue_messages
      → total s.queue ≤ o.max_queue_bytes
      → (received s).partial ≡ take s.fragment_offset m.bytes
      → s.fragment_offset ≤ size m
      → Settles s (submit_fragment o sock m s)
  submit_fragment-Settles m s c r h i g k = (
    record {
      counted = submit_fragment-IsCounted o sock m s r.counted;
      settled =
          submit_fragment-IsSettled o sock m s c r.written r.drained r.live h
            (omega (arith, r.counted.queue_sum, i));
      wired = submit_fragment-IsWired m s c r.flushed r.live r.written g k r.single;
      fresh = submit_fragment-IsCurrent o sock m s r.fresh;
    },
    submit_fragment-Keeps m s c r.flushed r.live r.written g k r.single,
  )

  pump_next-Settles :
      (c : Option Item) (q : List Item) (s : Sender)
      → s.current ≡ c
      → s.queue ≡ q
      → IsReady o s
      → Settles s (pump_next o sock c q s)
  pump_next-Settles (some m) q s c e r =
      submit_fragment-Settles m s c r (ground arith) (ground arith) (ground arith) (ground arith)
  pump_next-Settles none [] s c e r = (ground arith)
  pump_next-Settles none (m ∷ q) s c e r =
      let (v, p) =
        submit_fragment-Settles m
          (record s {
            queue = q;
            queue_bytes = s.queue_bytes - size m;
            current = some m;
            fragment_offset = 0;
          })
          refl (ground arith) (ground arith) (ground arith) (ground arith) (ground arith) in
      (v, (ground arith))

  pub pump-Settles : (s : Sender) → IsReady o s → Settles s (pump o sock s)
  unfolding pump
  pump-Settles s r =
      if_cases (Settles s) (s.disposed || s.awaiting_flush || s.draining) (λ e. (ground arith))
        (λ e. pump_next-Settles s.current s.queue s refl refl r)
