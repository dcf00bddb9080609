-- ===== src/Text/Laws.antt =====
-- Splitting a text gives back the pieces that were joined.
use mathlib.Core.Bool.{false≢true}
use mathlib.Core.List.{reverse, reverse-cons}
use dsh_passwords.Prelude.{
  length, length-append, ◌+◌, ◌≤◌, ◌<◌, suc, Bool-cases, Option-cases, inl, inr, ==_iff, sym, ℕ,
  ◌≡◌, refl, Bool, true, false, some, List, [], ◌∷◌, ◌++◌, ◌==◌, All, arith, ap, ◌∙◌,
}
use dsh_passwords.Text.{strip_prefix, has_code, split, all_codes, cut, trim, trim_start, lower}

-- The pieces with `c` between them.
abbrev pub join : ℕ → List ℕ → List (List ℕ) → List ℕ
join c p [] = p
join c p (q ∷ ps) = p ++ c ∷ join c q ps

pub split_none : (c : ℕ) (p : List ℕ) → has_code c p ≡ false → split c p ≡ p ∷ []
unfolding has_code split
split_none c [] h = refl
split_none c (d ∷ p) h = ground (arith, split_none c p)

pub split-append :
    (c : ℕ) (p s : List ℕ) → has_code c p ≡ false → split c (p ++ c ∷ s) ≡ p ∷ split c s
unfolding has_code split
split-append c [] s h = ground arith
split-append c (d ∷ p) s h = ground (arith, split-append c p s)

pub split-join :
    (c : ℕ) (p : List ℕ) (ps : List (List ℕ))
    → has_code c p ≡ false
    → All (λ q. has_code c q ≡ false) ps
    → split c (join c p ps) ≡ p ∷ ps
split-join c p [] h k = split_none c p h
split-join c p (q ∷ ps) h (k, ks) =
    split-append c p (join c q ps) h ∙ ap (λ l. p ∷ l) (split-join c q ps k ks)

pub strip_prefix-append : (p s : List ℕ) → strip_prefix p (p ++ s) ≡ some s
unfolding strip_prefix
strip_prefix-append [] s = refl
strip_prefix-append (c ∷ p) s = ground (arith, strip_prefix-append p s)

pub strip_prefix_sound : (p s r : List ℕ) → strip_prefix p s ≡ some r → s ≡ p ++ r
unfolding strip_prefix
strip_prefix_sound [] s r h = ground arith
strip_prefix_sound (c ∷ p) [] r h = cc
strip_prefix_sound (c ∷ p) (d ∷ s) r h = ground (arith, strip_prefix_sound p s r)

-- A text whose characters are all of a class has none outside it.
pub has_code-all_codes :
    (p : ℕ → Bool) (c : ℕ) (s : List ℕ) → p c ≡ false → all_codes p s ≡ true → has_code c s ≡ false
unfolding has_code
has_code-all_codes p c [] h k = refl
has_code-all_codes p c (d ∷ s) h k = elim (Bool-cases (c == d)) [
  | inl e ↦ absurd (false≢true (sym h ∙ ap p ((==_iff c d).0 e) ∙ (ground arith)))
  | inr e ↦ ground (arith, has_code-all_codes p c s h)
]

pub length-cut : (c : ℕ) (s p r : List ℕ) → cut c s ≡ some (p, r) → length p + length r < length s
unfolding cut
length-cut c [] p r h = cc
length-cut c (d ∷ s) p r h = elim (Option-cases (cut c s)) [
  | inl e ↦ ground arith
  | inr ((p', r'), e) ↦ ground (arith, length-cut c s p' r' e)
]

length-trim_start : (s : List ℕ) → length (trim_start s) ≤ length s
unfolding trim_start
length-trim_start [] = omega arith
length-trim_start (c ∷ s) = ground (arith, length-trim_start s)

length-reverse : (s : List ℕ) → length (reverse s) ≡ length s
length-reverse [] = refl
length-reverse (c ∷ s) =
    rw (reverse-cons) (omega (arith, length-append (reverse s) (c ∷ []), length-reverse s))

pub length-trim : (s : List ℕ) → length (trim s) ≤ length s
unfolding trim
length-trim s = omega (
  arith,
  length-reverse (trim_start (reverse (trim_start s))),
  length-trim_start (reverse (trim_start s)),
  length-reverse (trim_start s),
  length-trim_start s,
)

pub length-lower : (s : List ℕ) → length (lower s) ≡ length s
unfolding lower
length-lower [] = refl
length-lower (c ∷ s) = ap suc (length-lower s)
