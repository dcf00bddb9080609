-- ===== src/Accounts/Input/Policy.antt =====
-- What the checks of names and passwords in src/auth.ts let through.
use dsh_passwords.Prelude.{
  ℕ, ◌≤◌, ◌≡◌, refl, Bool, true, false, not, ◌&&◌, ◌||◌, List, [], ◌∷◌, ◌==◌, leb, ltb, length,
  if◌then◌else◌, arith,
}
use dsh_passwords.Prelude.{and-left, and-right}
use dsh_passwords.Text.{all_codes, is_digit}
use dsh_passwords.Accounts.Input.{
  is_quote, is_mark, has_injection, is_name_code, is_username, some_code, is_line_end, is_lower,
  is_upper, is_symbol, matches_policy, next_bytes, bytes_after, byte_length, is_password,
}

-- A character of a name is no quote, and ends or starts no mark but the dash.
name_code-quote : (c : ℕ) → is_name_code c ≡ true → is_quote c ≡ false
name_code-quote c h = ground arith

-- Two dashes are characters of a name and an injection.
abbrev has_dashes : List ℕ → Bool
has_dashes [] = false
has_dashes (c ∷ []) = false
has_dashes (c ∷ d ∷ s) = (c == b'-' && d == b'-') || has_dashes (d ∷ s)

name_codes-mark : (c d : ℕ) → is_name_code c ≡ true → is_mark c d ≡ (c == b'-' && d == b'-')
name_codes-mark c d h = ground arith

name_codes-injection :
    (s : List ℕ) → all_codes is_name_code s ≡ true → has_injection s ≡ has_dashes s
unfolding has_injection
name_codes-injection [] h = refl
name_codes-injection (c ∷ []) h = name_code-quote c (ground (arith, h))
name_codes-injection (c ∷ d ∷ s) h =
    let first : is_name_code c ≡ true = and-left (is_name_code c) _ h in
    rw
      (
        name_code-quote c first,
        name_codes-mark c d first,
        name_codes-injection (d ∷ s) (and-right (is_name_code c) _ h),
      )
      refl

-- Of the names of the right form, the check for injections refuses exactly those with two dashes
-- in a row.
pub is_username-injection : (s : List ℕ) → is_username s ≡ true → has_injection s ≡ has_dashes s
unfolding is_username
is_username-injection s h =
    name_codes-injection s (and-left _ (leb 3 (length s)) (and-left _ (leb (length s) 32) h))

code_bytes_pos : (prev c : ℕ) → 1 ≤ next_bytes prev c
code_bytes_pos prev c = ground arith

length-bytes : (prev : ℕ) (s : List ℕ) → length s ≤ bytes_after prev s
unfolding bytes_after
length-bytes prev [] = omega arith
length-bytes prev (c ∷ s) = omega (arith, code_bytes_pos prev c, length-bytes c s)

-- The classes of characters in a password.
abbrev pub has_classes : List ℕ → Bool
has_classes s =
    some_code is_lower s
    && some_code is_upper s
    && some_code is_digit s
    && some_code is_symbol s
    && all_codes (λ c. not (is_line_end c)) s

bounded :
    (a b c d e k : Bool) (n m : ℕ)
    → n ≤ m
    → (if not (a && b && c && d && e && k && leb n 128) then false else not (ltb 72 m))
      ≡ ((a && b && c && d && e) && k && leb m 72)
bounded false b c d e k n m h = refl
bounded true false c d e k n m h = refl
bounded true true false d e k n m h = refl
bounded true true true false e k n m h = refl
bounded true true true true false k n m h = refl
bounded true true true true true false n m h = refl
bounded true true true true true true n m h = ground arith

-- A password is accepted exactly if it has a lower and an upper case letter, a digit, another
-- character and no line end, at least 12 characters and at most 72 bytes, so that bcrypt cuts
-- nothing off: the limit of 128 characters refuses no further one.
pub is_password-policy :
    (s : List ℕ) → is_password s ≡ (has_classes s && leb 12 (length s) && leb (byte_length s) 72)
unfolding is_password matches_policy
is_password-policy s =
    bounded (some_code is_lower s) (some_code is_upper s) (some_code is_digit s)
      (some_code is_symbol s) (all_codes (λ c. not (is_line_end c)) s) (leb 12 (length s))
      (length s) (byte_length s) (length-bytes 0 s)
