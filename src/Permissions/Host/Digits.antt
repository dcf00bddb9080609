-- ===== src/Permissions/Host/Digits.antt =====
-- Writing a number in a base up to 16, and reading it back by `parse_int`.
use dsh_passwords.Prelude.{
  ℕ, zero, suc, ◌+◌, ◌*◌, ◌/◌, ◌%◌, ◌≤◌, ◌<◌, ◌≡◌, ◌≢◌, refl, Bool, true, List, [], ◌∷◌, ◌++◌, ltb,
  if◌then◌else◌, arith, Bool-cases, inl, inr, ◌∙◌, ap,
}
use dsh_passwords.Text.{all_codes}
use dsh_passwords.Permissions.Host.{digit_value, parse_int}

-- A digit of a base up to 16, in lower case.
abbrev pub digit : ℕ → ℕ
digit n = if ltb n 10 then b'0' + n else 87 + n

digit_value-digit : (n : ℕ) → n < 16 → digit_value (digit n) ≡ n
digit_value-digit n h = ground arith

-- The digits of `n`, with fuel; `n` itself is enough.
pub digits : ℕ → ℕ → ℕ → List ℕ
digits zero base n = digit n ∷ []
digits (suc f) base n =
    let more = digits f base (n / base) ++ digit (n % base) ∷ [] in
    if ltb n base then digit n ∷ [] else more

pub show : ℕ → ℕ → List ℕ
show base n = digits n base n

parse_int-append :
    (base acc c : ℕ) (s : List ℕ)
    → parse_int base acc (s ++ c ∷ []) ≡ parse_int base acc s * base + digit_value c
unfolding parse_int
parse_int-append base acc c [] = refl
parse_int-append base acc c (d ∷ s) = parse_int-append base (acc * base + digit_value d) c s

div-lt : (base n : ℕ) → 2 ≤ base → base ≤ n → n / base < n
div-lt base n low h = grind arith

digit_join : (base n : ℕ) → 2 ≤ base → n / base * base + n % base ≡ n
digit_join base n low = grind arith

parse_int-one : (base n : ℕ) → n < 16 → parse_int base 0 (digit n ∷ []) ≡ n
unfolding parse_int
parse_int-one base n h = ap (λ k. 0 * base + k) (digit_value-digit n h) ∙ omega arith

all_codes-append_one :
    (p : ℕ → Bool) (c : ℕ) (s : List ℕ)
    → p c ≡ true
    → all_codes p s ≡ true
    → all_codes p (s ++ c ∷ []) ≡ true
all_codes-append_one p c [] h k = ground arith
all_codes-append_one p c (d ∷ s) h k = ground (arith, all_codes-append_one p c s h)

module _ (base : ℕ) (low : 2 ≤ base) (high : base ≤ 16) where
  parse_int-digits : (f n : ℕ) → n ≤ f → parse_int base 0 (digits f base n) ≡ n
  unfolding digits
  parse_int-digits zero n h = parse_int-one base n (omega arith)
  parse_int-digits (suc f) n h = elim (Bool-cases (ltb n base)) [
    | inl e ↦ rw e (parse_int-one base n (ground arith))
    | inr e ↦ rw e (
        parse_int-append base 0 (digit (n % base)) (digits f base (n / base))
        ∙ ap (λ k. k * base + digit_value (digit (n % base)))
            (parse_int-digits f (n / base) (ground (arith, div-lt base n low)))
        ∙ ap (λ k. n / base * base + k) (digit_value-digit (n % base) (grind arith))
        ∙ digit_join base n low)
  ]

  -- A number that is written in the base is read back.
  pub parse_int-show : (n : ℕ) → parse_int base 0 (show base n) ≡ n
  unfolding show
  parse_int-show n = parse_int-digits n n (omega arith)

  -- Every digit written is of a class that has the digits below the base.
  digits-all_codes :
      (p : ℕ → Bool)
      → ((d : ℕ) → d < base → p (digit d) ≡ true)
      → (f n : ℕ) → n ≤ f
      → all_codes p (digits f base n) ≡ true
  unfolding digits
  digits-all_codes p h zero n k = ground (arith, h n)
  digits-all_codes p h (suc f) n k = elim (Bool-cases (ltb n base)) [
    | inl e ↦ rw e (ground (arith, h n))
    | inr e ↦ rw e (
        all_codes-append_one p (digit (n % base)) (digits f base (n / base))
          (h (n % base) (grind arith))
          (digits-all_codes p h f (n / base) (ground (arith, div-lt base n low))))
  ]

  pub show-all_codes :
      (p : ℕ → Bool) (n : ℕ)
      → ((d : ℕ) → d < base → p (digit d) ≡ true)
      → all_codes p (show base n) ≡ true
  unfolding show
  show-all_codes p n h = digits-all_codes p h n n (omega arith)

  digits-head :
      (f n : ℕ) → n ≤ f → 0 < n → (c : ℕ) × (s : List ℕ) × (digits f base n ≡ c ∷ s) × (c ≢ b'0')
  unfolding digits
  digits-head zero n k z = absurd (omega arith)
  digits-head (suc f) n k z = elim (Bool-cases (ltb n base)) [
    | inl e ↦ (digit n, [], rw e, ground arith)
    | inr e ↦
        let (c, s, q, z') =
          digits-head f (n / base) (ground (arith, div-lt base n low)) (grind arith) in
        (c, s ++ digit (n % base) ∷ [], rw (e, q), z')
  ]

  -- A positive number is not written with a leading zero.
  pub show-head : (n : ℕ) → 0 < n → (c : ℕ) × (s : List ℕ) × (show base n ≡ c ∷ s) × (c ≢ b'0')
  unfolding show
  show-head n z = digits-head n n (omega arith) z

pub show-zero : (base : ℕ) → show base 0 ≡ b'0' ∷ []
unfolding show digits
show-zero base = refl
