-- ===== src/Sse/Lines.antt =====
-- The empty lines of src/sse-frames.ts against lines as the event stream format has them: CRLF, CR
-- and LF end a line alike.
use dsh_passwords.Prelude.{
  ℕ, zero, suc, ◌≤◌, ◌≡◌, refl, ap, ◌∙◌, sym, Bool, true, false, ◌&&◌, Option, none, some, List, [],
  ◌∷◌, ◌==◌, if◌then◌else◌, length, map, arith, inl, inr, Option-cases, Bool-cases,
}
use dsh_passwords.Sse.{
  Match, line_end, blank_here, later_match, choose, find_blank, cons_frame, split_frames,
}
use dsh_passwords.Sse.Bounds.{length-find_blank}

-- A text with a LF for each line end; the flag says whether a CR stands before the text.
abbrev pub unify : Bool → List ℕ → List ℕ
unify cr [] = []
unify cr (c ∷ s) =
    if c == 13
    then 10 ∷ unify true s
    else if c == 10 && cr
    then unify false s
    else c ∷ unify false s

abbrev pub add_char : ℕ → List (List ℕ) × List ℕ → List (List ℕ) × List ℕ
add_char c ([], tail) = ([], c ∷ tail)
add_char c (f ∷ l, tail) = ((c ∷ f) ∷ l, tail)

-- A text with LF ends, split at each two that stand together.
abbrev pub split_lines : List ℕ → List (List ℕ) × List ℕ
split_lines [] = ([], [])
split_lines (c ∷ []) = ([], c ∷ [])
split_lines (c ∷ d ∷ s) =
    let one = split_lines (d ∷ s) in
    let two = split_lines s in if c == 10 && d == 10 then cons_frame [] two else add_char c one

abbrev starts_lf : List ℕ → Bool
starts_lf [] = false
starts_lf (c ∷ s) = c == 10

split_lines-add_char :
    (c : ℕ) (s : List ℕ)
    → (c == 10 && starts_lf s) ≡ false
    → split_lines (c ∷ s) ≡ add_char c (split_lines s)
split_lines-add_char c [] h = refl
split_lines-add_char c (d ∷ s) h = simp h refl

unify-line_end :
    (cr x : Bool) (s q : List ℕ) → line_end cr s ≡ some (x, q) → unify cr s ≡ 10 ∷ unify x q
unify-line_end cr x [] q h = cc
unify-line_end cr x (c ∷ []) q h = ground arith
unify-line_end cr x (c ∷ d ∷ s) q h = ground arith

unify-blank_here :
    (cr x : Bool) (s q : List ℕ)
    → blank_here cr s ≡ some (x, q)
    → unify cr s ≡ 10 ∷ (10 ∷ unify x q)
unify-blank_here cr x s q h = elim (Option-cases (line_end cr s)) [
  | inl k ↦ absurd (ground arith)
  | inr ((y, r), k) ↦
      unify-line_end cr y s r k ∙ ap (λ l. 10 ∷ l) (unify-line_end y x r q (ground arith))
]

-- Where no line end is, the unified text starts with none.
starts_lf-unify :
    (x : Bool) (q : List ℕ)
    → line_end x q ≡ none
    → (x && starts_lf q) ≡ false
    → starts_lf (unify x q) ≡ false
starts_lf-unify x [] h k = refl
starts_lf-unify x (c ∷ []) h k = ground arith
starts_lf-unify x (c ∷ d ∷ s) h k = ground arith

-- What a character that is not the suppressed LF of a pair becomes.
abbrev unified : ℕ → ℕ
unified c = if c == 13 then 10 else c

unify-cons :
    (cr : Bool) (c : ℕ) (s : List ℕ)
    → (c == 10 && cr) ≡ false
    → unify cr (c ∷ s) ≡ unified c ∷ unify (c == 13) s
unify-cons cr c s h = ground arith

unify-skip :
    (cr : Bool) (c : ℕ) (s : List ℕ) → (c == 10 && cr) ≡ true → unify cr (c ∷ s) ≡ unify (c == 13) s
unify-skip cr c s h = ground arith

no_pair :
    (cr : Bool) (c : ℕ) (s : List ℕ)
    → blank_here cr (c ∷ s) ≡ none
    → (c == 10 && cr) ≡ false
    → (unified c == 10 && starts_lf (unify (c == 13) s)) ≡ false
no_pair cr c [] h k = ground arith
no_pair cr c (d ∷ s) h k =
    ground
      (arith, starts_lf-unify false s, starts_lf-unify true (d ∷ s), starts_lf-unify false (d ∷ s))

-- What a search for the first empty line makes of the unified text.
abbrev expected : Bool → List ℕ → Option Match → List (List ℕ) × List ℕ
expected cr s none = ([], unify cr s)
expected cr s (some m) = cons_frame (unify cr m.before) (split_lines (unify m.ends_cr m.behind))

add_expected :
    (cr : Bool) (c : ℕ) (s : List ℕ) (o : Option Match)
    → (c == 10 && cr) ≡ false
    → add_char (unified c) (expected (c == 13) s o) ≡ expected cr (c ∷ s) (later_match c o)
add_expected cr c s none h = ap (λ t. ([], t)) (sym (unify-cons cr c s h))
add_expected cr c s (some m) h =
    ap (λ f. cons_frame f (split_lines (unify m.ends_cr m.behind)))
      (sym (unify-cons cr c m.before h))

skip_expected :
    (cr : Bool) (c : ℕ) (s : List ℕ) (o : Option Match)
    → (c == 10 && cr) ≡ true
    → expected (c == 13) s o ≡ expected cr (c ∷ s) (later_match c o)
skip_expected cr c s none h = ap (λ t. ([], t)) (sym (unify-skip cr c s h))
skip_expected cr c s (some m) h =
    ap (λ f. cons_frame f (split_lines (unify m.ends_cr m.behind)))
      (sym (unify-skip cr c m.before h))

find_blank-expected :
    (cr : Bool) (s : List ℕ) → split_lines (unify cr s) ≡ expected cr s (find_blank cr s)
unfolding find_blank
find_blank-expected cr [] = refl
find_blank-expected cr (c ∷ s) = elim (Option-cases (blank_here cr (c ∷ s))) [
  | inr ((x, q), k) ↦
      ap split_lines (unify-blank_here cr x (c ∷ s) q k)
      ∙ sym (ap (λ o. expected cr (c ∷ s) (choose o (later_match c (find_blank (c == 13) s)))) k)
  | inl k ↦ elim (Bool-cases (c == 10 && cr)) [
    | inl e ↦
        ap split_lines (unify-skip cr c s e)
        ∙ find_blank-expected (c == 13) s
        ∙ skip_expected cr c s (find_blank (c == 13) s) e
        ∙ sym (ap (λ o. expected cr (c ∷ s) (choose o (later_match c (find_blank (c == 13) s)))) k)
    | inr e ↦
        ap split_lines (unify-cons cr c s e)
        ∙ split_lines-add_char (unified c) (unify (c == 13) s) (no_pair cr c s k e)
        ∙ ap (add_char (unified c)) (find_blank-expected (c == 13) s)
        ∙ add_expected cr c s (find_blank (c == 13) s) e
        ∙ sym (ap (λ o. expected cr (c ∷ s) (choose o (later_match c (find_blank (c == 13) s)))) k)
  ]
]

unify-false : (cr : Bool) (s : List ℕ) → (cr && starts_lf s) ≡ false → unify cr s ≡ unify false s
unify-false cr [] h = refl
unify-false cr (c ∷ s) h = ground arith

line_end-behind :
    (cr x : Bool) (s q : List ℕ) → line_end cr s ≡ some (x, q) → (x && starts_lf q) ≡ false
line_end-behind cr x [] q h = cc
line_end-behind cr x (c ∷ []) q h = ground arith
line_end-behind cr x (c ∷ d ∷ s) q h = ground arith

blank_here-behind :
    (cr x : Bool) (s q : List ℕ) → blank_here cr s ≡ some (x, q) → (x && starts_lf q) ≡ false
blank_here-behind cr x s q h = elim (Option-cases (line_end cr s)) [
  | inl k ↦ absurd (ground arith)
  | inr ((y, r), k) ↦ line_end-behind y x r q (ground arith)
]

-- Neither what follows an empty line nor what stands before it starts with the LF of a CRLF.
find_blank-behind :
    (cr : Bool) (s : List ℕ) (m : Match)
    → find_blank cr s ≡ some m
    → (m.ends_cr && starts_lf m.behind) ≡ false
unfolding find_blank
find_blank-behind cr [] m h = cc
find_blank-behind cr (c ∷ s) m h = elim (Option-cases (blank_here cr (c ∷ s))) [
  | inr ((x, q), k) ↦ ground (arith, blank_here-behind cr x (c ∷ s) q k)
  | inl k ↦ elim (Option-cases (find_blank (c == 13) s)) [
    | inl z ↦ absurd (ground arith)
    | inr (w, z) ↦ ground (arith, find_blank-behind (c == 13) s w z)
  ]
]

find_blank-before :
    (cr : Bool) (s : List ℕ) (m : Match)
    → find_blank cr s ≡ some m
    → (cr && starts_lf s) ≡ false
    → (cr && starts_lf m.before) ≡ false
unfolding find_blank
find_blank-before cr [] m h k = cc
find_blank-before cr (c ∷ s) m h k = elim (Option-cases (blank_here cr (c ∷ s))) [
  | inr ((x, q), e) ↦ ground arith
  | inl e ↦ elim (Option-cases (find_blank (c == 13) s)) [
    | inl z ↦ absurd (ground arith)
    | inr (w, z) ↦ ground arith
  ]
]

abbrev unified_frames : List (List ℕ) × List ℕ → List (List ℕ) × List ℕ
unified_frames r = (map (unify false) r.0, unify false r.1)

-- The frames of a text for its first empty line.
abbrev frames_of : ℕ → List ℕ → Option Match → List (List ℕ) × List ℕ
frames_of n s none = ([], s)
frames_of n s (some m) = cons_frame m.before (split_frames n m.ends_cr m.behind)

split_frames-frames_of :
    (n : ℕ) (cr : Bool) (s : List ℕ) → split_frames (suc n) cr s ≡ frames_of n s (find_blank cr s)
unfolding split_frames
split_frames-frames_of n cr s = elim (Option-cases (find_blank cr s)) [
  | inl e ↦ ground arith
  | inr (m, e) ↦ ground arith
]

found_frames :
    (n : ℕ) (cr : Bool) (s : List ℕ) (o : Option Match)
    → find_blank cr s ≡ o
    → split_frames (suc n) cr s ≡ frames_of n s o
found_frames n cr s o e = split_frames-frames_of n cr s ∙ ap (frames_of n s) e

split_frames-unified :
    (n : ℕ) (cr : Bool) (s : List ℕ)
    → length s ≤ n
    → (cr && starts_lf s) ≡ false
    → split_lines (unify cr s) ≡ unified_frames (split_frames n cr s)
unfolding split_frames
split_frames-unified zero cr [] h k = refl
split_frames-unified zero cr (c ∷ s) h k = absurd (omega arith)
split_frames-unified (suc n) cr s h k = elim (Option-cases (find_blank cr s)) [
  | inl e ↦
      find_blank-expected cr s
      ∙ ap (expected cr s) e
      ∙ ap (λ t. ([], t)) (unify-false cr s k)
      ∙ sym (ap unified_frames (found_frames n cr s none e))
  | inr (m, e) ↦
      let ih =
        split_frames-unified n m.ends_cr m.behind (omega (arith, h, length-find_blank cr s m e))
          (find_blank-behind cr s m e) in
      find_blank-expected cr s
      ∙ ap (expected cr s) e
      ∙ ap (λ f. cons_frame f (split_lines (unify m.ends_cr m.behind)))
          (unify-false cr m.before (find_blank-before cr s m e k))
      ∙ ap (cons_frame (unify false m.before)) ih
      ∙ sym (ap unified_frames (found_frames n cr s (some m) e))
]

-- The frames that a text is split into are the pieces of the text at each two line ends that stand
-- together, where a line ends with CRLF, CR or LF alike: with a LF for each line end, the frames and
-- the rest are those of the text with a LF for each line end, split at each two LF.
pub split_frames-lines :
    (s : List ℕ)
    → split_lines (unify false s) ≡ (
      map (unify false) (split_frames (length s) false s).0,
      unify false (split_frames (length s) false s).1,
    )
split_frames-lines s = split_frames-unified (length s) false s (omega arith) refl
