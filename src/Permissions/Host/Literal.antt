-- ===== src/Permissions/Host/Literal.antt =====
-- `parseIpv4Literal` of src/permissions.ts on every spelling of an address.
use dsh_passwords.Prelude.{
  ℕ, zero, suc, ◌≤◌, ◌<◌, ◌≡◌, ◌≢◌, refl, Bool, true, false, ◌||◌, Option, none, some, List, [],
  ◌∷◌, map, ◌==◌, ltb, length, arith, ◌∙◌, ap, All,
}
use dsh_passwords.Text.{has_code, all_codes, is_digit}
use dsh_passwords.Text.Laws.{join, split-join, has_code-all_codes}
use dsh_passwords.Permissions.Host.{
  Quad, expand, is_hex, is_octal, parse_segment, parse_after_zero, parse_segments, parse_int,
  parse_ipv4_literal, is_private_ipv4_bytes,
}
use dsh_passwords.Permissions.Host.Digits.{
  show, digit, parse_int-show, show-all_codes, show-head, show-zero,
}
use dsh_passwords.Permissions.Host.Expand.{inet_aton, Same, expand-Same}
use dsh_passwords.Permissions.Host.Ranges.{is_reserved, is_private-is_reserved}

pub data Spelling : Type 0 where
  decimal hexadecimal octal : Spelling

abbrev pub spell : Spelling → ℕ → List ℕ
spell decimal n = show 10 n
spell hexadecimal n = b'0' ∷ b'x' ∷ show 16 n
spell octal n = b'0' ∷ show 8 n

parse_zero : parse_segment (b'0' ∷ []) ≡ some 0
unfolding parse_segment parse_after_zero
parse_zero = refl

parse_decimal :
    (n : ℕ) (t : List ℕ)
    → (c : ℕ) × (s : List ℕ) × (t ≡ c ∷ s) × (c ≢ b'0')
    → all_codes is_digit t ≡ true
    → parse_int 10 0 t ≡ n
    → parse_segment t ≡ some n
unfolding parse_segment
parse_decimal n [] (c, s, e, z) d p = cc
parse_decimal n (x ∷ t) (c, s, e, z) d p = ground arith

parse_hexadecimal :
    (n : ℕ) (t : List ℕ)
    → t ≢ []
    → all_codes is_hex t ≡ true
    → parse_int 16 0 t ≡ n
    → parse_segment (b'0' ∷ b'x' ∷ t) ≡ some n
unfolding parse_segment parse_after_zero
parse_hexadecimal n [] e d p = absurd (e refl)
parse_hexadecimal n (x ∷ t) e d p = ground arith

parse_octal :
    (n : ℕ) (t : List ℕ)
    → t ≢ []
    → all_codes is_octal t ≡ true
    → parse_int 8 0 t ≡ n
    → parse_segment (b'0' ∷ t) ≡ some n
unfolding parse_segment parse_after_zero
parse_octal n [] e d p = absurd (e refl)
parse_octal n (x ∷ t) e d p = ground arith

show-ne-nil : (base n : ℕ) → 2 ≤ base → base ≤ 16 → show base n ≢ []
show-ne-nil base zero low high = λ e. cc (show-zero base, e)
show-ne-nil base (suc n) low high =
    let (c, s, q, z) = show-head base low high (suc n) (omega arith) in λ e. cc (q, e)

digit-is_digit : (d : ℕ) → d < 10 → is_digit (digit d) ≡ true
digit-is_digit d h = ground arith

digit-is_octal : (d : ℕ) → d < 8 → is_octal (digit d) ≡ true
digit-is_octal d h = ground arith

digit-is_hex : (d : ℕ) → d < 16 → is_hex (digit d) ≡ true
digit-is_hex d h = ground arith

abbrev is_mark : ℕ → Bool
is_mark c = is_hex c || c == b'x'

digit-is_mark : (d : ℕ) → d < 16 → is_mark (digit d) ≡ true
digit-is_mark d h = ground arith

-- Each spelling of a number is read as that number.
parse_segment-spell : (k : Spelling) (n : ℕ) → parse_segment (spell k n) ≡ some n
parse_segment-spell decimal zero = rw (show-zero 10) parse_zero
parse_segment-spell decimal (suc n) =
    parse_decimal (suc n) (show 10 (suc n))
      (show-head 10 (omega arith) (omega arith) (suc n) (omega arith))
      (show-all_codes 10 (omega arith) (omega arith) is_digit (suc n) digit-is_digit)
      (parse_int-show 10 (omega arith) (omega arith) (suc n))
parse_segment-spell hexadecimal n =
    parse_hexadecimal n (show 16 n) (show-ne-nil 16 n (omega arith) (omega arith))
      (show-all_codes 16 (omega arith) (omega arith) is_hex n digit-is_hex)
      (parse_int-show 16 (omega arith) (omega arith) n)
parse_segment-spell octal n =
    parse_octal n (show 8 n) (show-ne-nil 8 n (omega arith) (omega arith))
      (show-all_codes 8 (omega arith) (omega arith) is_octal n digit-is_octal)
      (parse_int-show 8 (omega arith) (omega arith) n)

abbrev pub numbers : List (Spelling × ℕ) → List ℕ
numbers l = map (λ p. p.1) l

abbrev pub spelled : List (Spelling × ℕ) → List (List ℕ)
spelled l = map (λ p. spell p.0 p.1) l

parse_segments-spelled : (l : List (Spelling × ℕ)) → parse_segments (spelled l) ≡ some (numbers l)
unfolding parse_segments
parse_segments-spelled [] = refl
parse_segments-spelled ((k, n) ∷ l) = rw (parse_segment-spell k n, parse_segments-spelled l)

spell-has_code : (k : Spelling) (n : ℕ) → has_code b'.' (spell k n) ≡ false
spell-has_code decimal n =
    has_code-all_codes is_digit b'.' (show 10 n) refl
      (show-all_codes 10 (omega arith) (omega arith) is_digit n digit-is_digit)
spell-has_code hexadecimal n =
    has_code-all_codes is_mark b'.' _ refl
      (ground (arith, show-all_codes 16 (omega arith) (omega arith) is_mark n digit-is_mark))
spell-has_code octal n =
    has_code-all_codes is_octal b'.' _ refl
      (ground (arith, show-all_codes 8 (omega arith) (omega arith) is_octal n digit-is_octal))

spelled-has_code : (l : List (Spelling × ℕ)) → All (λ q. has_code b'.' q ≡ false) (spelled l)
spelled-has_code [] = tt
spelled-has_code ((k, n) ∷ l) = (spell-has_code k n, spelled-has_code l)

length-spelled : (l : List (Spelling × ℕ)) → length (spelled l) ≡ length l
length-spelled [] = refl
length-spelled (p ∷ l) = ap suc (length-spelled l)

-- The literal with parts `n` and those of `l`, each spelled its own way.
abbrev pub literal : Spelling → ℕ → List (Spelling × ℕ) → List ℕ
literal k n l = join b'.' (spell k n) (spelled l)

parse_ipv4_literal-literal :
    (k : Spelling) (n : ℕ) (l : List (Spelling × ℕ))
    → length l ≤ 3
    → parse_ipv4_literal (literal k n l) ≡ expand (n ∷ numbers l)
unfolding parse_ipv4_literal
parse_ipv4_literal-literal k n l h =
    rw
      (
        split-join b'.' (spell k n) (spelled l) (spell-has_code k n) (spelled-has_code l),
        short,
        parse_segments-spelled ((k, n) ∷ l),
      )
      refl
  where
    short : ltb 4 (suc (length (spelled l))) ≡ false
    short = ground (arith, length-spelled l)

-- A literal of one to four parts, each in decimal, hexadecimal or octal, is refused exactly when
-- `inet_aton` refuses its numbers, and otherwise gives the four bytes of that address.
pub parse_ipv4_literal-Same :
    (k : Spelling) (n : ℕ) (l : List (Spelling × ℕ))
    → length l ≤ 3
    → Same (parse_ipv4_literal (literal k n l)) (inet_aton (n ∷ numbers l))
parse_ipv4_literal-Same k n l h =
    rw (parse_ipv4_literal-literal k n l h) (expand-Same (n ∷ numbers l))

abbrev pub private_literal : Option Quad → Bool
private_literal none = false
private_literal (some q) = is_private_ipv4_bytes q

abbrev pub reserved_address : Option ℕ → Bool
reserved_address none = false
reserved_address (some v) = is_reserved v

Same-private : (q : Option Quad) (v : Option ℕ) → Same q v → private_literal q ≡ reserved_address v
Same-private none none h = refl
Same-private none (some v) h = absurd h
Same-private (some q) none h = absurd h
Same-private (some q) (some v) (h, e) = is_private-is_reserved q h ∙ ap is_reserved e

-- However its parts are spelled, a literal counts as private exactly if its numbers make an
-- address that lies in a reserved block.
pub private_literal-reserved_address :
    (k : Spelling) (n : ℕ) (l : List (Spelling × ℕ))
    → length l ≤ 3
    → private_literal (parse_ipv4_literal (literal k n l))
      ≡ reserved_address (inet_aton (n ∷ numbers l))
private_literal-reserved_address k n l h =
    Same-private (parse_ipv4_literal (literal k n l)) (inet_aton (n ∷ numbers l))
      (parse_ipv4_literal-Same k n l h)
