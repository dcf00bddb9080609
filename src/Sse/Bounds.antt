-- ===== src/Sse/Bounds.antt =====
-- What `SseFrameBuffer` of src/sse-frames.ts keeps between two chunks.
use dsh_passwords.Prelude.{
  ℕ, zero, suc, ◌+◌, ◌-◌, ◌*◌, ◌≤◌, ◌<◌, ◌≡◌, ◌⊎◌, refl, Bool, true, false, Option, none, some,
  List, [], ◌∷◌, ◌++◌, if_cases, length, length-append, length-drop, arith, inl, inr, Option-cases,
  ◌==◌,
}
use dsh_passwords.Text.{is_empty}
use dsh_passwords.Sse.{
  Buffer, new_buffer, Match, find_blank, line_end, blank_here, split_frames, tail_bytes, limited,
  collect, resync, push,
}

length-line_end : (cr e : Bool) (s r : List ℕ) → line_end cr s ≡ some (e, r) → length r < length s
length-line_end cr e [] r h = cc
length-line_end cr e (c ∷ []) r h = ground arith
length-line_end cr e (c ∷ d ∷ s) r h = ground arith

length-blank_here :
    (cr e : Bool) (s r : List ℕ) → blank_here cr s ≡ some (e, r) → length r < length s
length-blank_here cr e s r h = elim (Option-cases (line_end cr s)) [
  | inl k ↦ ground arith
  | inr ((x, q), k) ↦ ground (arith, length-line_end cr x s q k, length-line_end x e q r)
]

pub length-find_blank :
    (cr : Bool) (s : List ℕ) (m : Match) → find_blank cr s ≡ some m → length m.behind < length s
unfolding find_blank
length-find_blank cr [] m h = cc
length-find_blank cr (c ∷ s) m h = elim (Option-cases (blank_here cr (c ∷ s))) [
  | inr ((x, q), k) ↦ ground (arith, length-blank_here cr x (c ∷ s) q k)
  | inl k ↦ elim (Option-cases (find_blank (c == 13) s)) [
    | inl z ↦ ground arith
    | inr (w, z) ↦ ground (arith, length-find_blank (c == 13) s w z)
  ]
]

split_frames-whole :
    (n : ℕ) (cr : Bool) (s : List ℕ) → ((split_frames n cr s).0 ≡ []) → (split_frames n cr s).1 ≡ s
unfolding split_frames
split_frames-whole zero cr s h = refl
split_frames-whole (suc n) cr s h = elim (Option-cases (find_blank cr s)) [
  | inl e ↦ ground arith
  | inr (m, e) ↦ absurd (ground arith)
]

module _ (byte_length : List ℕ → ℕ) (max : ℕ)
    (subadditive : (p q : List ℕ) → byte_length (p ++ q) ≤ byte_length p + byte_length q)
    (narrow : (p : List ℕ) → byte_length p ≤ 3 * length p) where
  -- The count of a text: at least its bytes, and at most three for each code unit.
  abbrev Counts : ℕ → List ℕ → Type 0
  Counts n s = (byte_length s ≤ n) × (n ≤ 3 * length s)

  -- What is kept is counted and within the limit, or is at most three characters.
  abbrev pub IsBounded : Buffer → Type 0
  IsBounded b =
      ((b.resyncing ≡ false)
        × (byte_length b.pending ≤ b.pending_bytes)
        × (b.pending_bytes ≤ 3 * length b.pending)
        × (b.pending_bytes ≤ max))
      ⊎ ((b.resyncing ≡ true) × (b.pending_bytes ≡ 0) × (length b.pending ≤ 3))

  Counts-self : (s : List ℕ) → Counts (byte_length s) s
  Counts-self s = (omega arith, narrow s)

  Counts-nothing : Counts 0 []
  Counts-nothing = (omega (arith, narrow []), omega arith)

  Counts-append : (n : ℕ) (p q : List ℕ) → Counts n p → Counts (n + byte_length q) (p ++ q)
  Counts-append n p q (h, k) =
      (omega (arith, h, subadditive p q), omega (arith, k, narrow q, length-append p q))

  tail_bytes-Counts :
      (counted : ℕ) (whole : List ℕ) (r : List (List ℕ) × List ℕ)
      → Counts counted whole
      → (r.0 ≡ [] → r.1 ≡ whole)
      → Counts (tail_bytes byte_length max counted r) r.1
  tail_bytes-Counts counted whole ([], tail) h w = rw (w refl) h
  tail_bytes-Counts counted whole (f ∷ l, []) h w = Counts-nothing
  tail_bytes-Counts counted whole (f ∷ l, c ∷ tail) h w = Counts-self (c ∷ tail)

  limited-IsBounded :
      (tail : List ℕ) (bytes : ℕ)
      → Counts bytes tail
      → IsBounded (limited byte_length max tail bytes)
  limited-IsBounded tail bytes h = ground arith

  collect-IsBounded :
      (text : List ℕ) (b : Buffer)
      → Counts b.pending_bytes b.pending
      → IsBounded (collect byte_length max text b).0
  unfolding collect
  collect-IsBounded text b h = limited-IsBounded _ _ (
      tail_bytes-Counts (b.pending_bytes + byte_length text) (b.pending ++ text)
        (split_frames (length (b.pending ++ text)) false (b.pending ++ text))
        (Counts-append b.pending_bytes b.pending text h)
        (split_frames-whole (length (b.pending ++ text)) false (b.pending ++ text)))

  new-Counts : Counts new_buffer.pending_bytes new_buffer.pending
  unfolding new_buffer
  new-Counts = Counts-nothing

  pub new-IsBounded : IsBounded new_buffer
  unfolding new_buffer
  new-IsBounded = inl (refl, Counts-nothing.0, Counts-nothing.1, omega arith)

  resync-IsBounded :
      (window : List ℕ) (b : Buffer)
      → b.pending_bytes ≡ 0
      → b.resyncing ≡ true
      → (o : Option Match) → IsBounded (resync byte_length max window o b).0
  resync-IsBounded window b h e none =
      inr (e, h, omega (arith, length-drop (length window - 3) window))
  resync-IsBounded window b h e (some m) =
      if_cases {A = Buffer × List (List ℕ)} (λ r. IsBounded r.0) (is_empty m.behind)
        (λ _. new-IsBounded) (λ _. collect-IsBounded m.behind new_buffer new-Counts)

  -- If `byte_length` of two texts together is at most that of each, and it is at most three for each
  -- code unit, then a chunk keeps what is pending bounded, whatever the chunk holds: its bytes are
  -- at most the count, the count is at most the limit and three for each code unit, or it is at most
  -- three characters while resynchronising.
  pub push-IsBounded :
      (text : List ℕ) (b : Buffer) → IsBounded b → IsBounded (push byte_length max text b).0
  unfolding push
  push-IsBounded text b h =
      if_cases {A = Buffer × List (List ℕ)} (λ r. IsBounded r.0) (is_empty text) (λ _. h)
        (λ _.
          if_cases {A = Buffer × List (List ℕ)} (λ r. IsBounded r.0) b.resyncing
            (λ e.
              resync-IsBounded (b.pending ++ text) b (ground arith) e
                (find_blank false (b.pending ++ text)))
            (λ e. collect-IsBounded text b (ground arith)))
