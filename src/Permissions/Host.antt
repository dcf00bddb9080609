-- ===== src/Permissions/Host.antt =====
-- `isPrivateHost` of src/permissions.ts and its parsers of IPv4 and IPv6 literals. A text is a list
-- of code units. A digit string's value is exact here and rounded in a JavaScript number only
-- above 2 ^ 53, where every bound below has already refused it.
pub mod Expand
pub mod Digits
pub mod Ranges
pub mod Literal
pub mod Tests
use dsh_passwords.Prelude.{
  ℕ, zero, suc, ◌+◌, ◌-◌, ◌*◌, ◌/◌, ◌%◌, ◌^◌, Bool, true, false, not, ◌&&◌, ◌||◌, Option, none,
  some, List, [], ◌∷◌, ◌++◌, ◌==◌, ltb, leb, if◌then◌else◌, is_some, length, take, drop, bytes_eq,
}
use dsh_passwords.Text.{codes, split, is_digit, all_codes, is_run, is_empty, has_code, starts_with}

abbrev pub is_octal : ℕ → Bool
is_octal c = leb b'0' c && leb c b'7'

abbrev pub is_hex : ℕ → Bool
is_hex c = is_digit c || (leb b'a' c && leb c b'f') || (leb b'A' c && leb c b'F')

abbrev pub digit_value : ℕ → ℕ
digit_value c = if leb c b'9' then c - b'0' else if leb c b'F' then c - 55 else c - 87

-- `parseInt(s, base)` on a run of digits of that base.
unfoldable pub parse_int : ℕ → ℕ → List ℕ → ℕ
parse_int base acc [] = acc
parse_int base acc (c ∷ s) = parse_int base (acc * base + digit_value c) s

-- A segment after a leading `0`.
pub parse_after_zero : List ℕ → Option ℕ
parse_after_zero [] = some 0
parse_after_zero (c ∷ s) =
    if (c == b'x' || c == b'X') && is_run is_hex s
    then some (parse_int 16 0 s)
    else if all_codes is_octal (c ∷ s)
    then some (parse_int 8 0 (c ∷ s))
    else if all_codes is_digit (c ∷ s)
    then some (parse_int 10 0 (c ∷ s))
    else none

-- One segment: `0x` hexadecimal, leading-`0` octal, decimal, or none of these.
pub parse_segment : List ℕ → Option ℕ
parse_segment [] = none
parse_segment (c ∷ s) =
    if c == b'0'
    then parse_after_zero s
    else if all_codes is_digit (c ∷ s)
    then some (parse_int 10 0 (c ∷ s))
    else none

pub record Quad : Type 0 where
  pub a : ℕ
  pub b : ℕ
  pub c : ℕ
  pub d : ℕ

abbrev pub byte_of : ℕ → ℕ → ℕ
byte_of n k = n / 2 ^ k % 256

-- The checks and the expansion of 1 to 4 parsed parts to four bytes.
pub expand : List ℕ → Option Quad
expand [] = none
expand (n ∷ []) =
    if leb n 0xffffffff
    then some (record { a = byte_of n 24; b = byte_of n 16; c = byte_of n 8; d = byte_of n 0 })
    else none
expand (a ∷ n ∷ []) =
    if leb a 0xff && leb n 0xffffff
    then some (record { a = a; b = byte_of n 16; c = byte_of n 8; d = byte_of n 0 })
    else none
expand (a ∷ b ∷ n ∷ []) =
    if leb a 0xff && leb b 0xff && leb n 0xffff
    then some (record { a = a; b = b; c = byte_of n 8; d = byte_of n 0 })
    else none
expand (a ∷ b ∷ c ∷ n ∷ []) =
    if leb a 0xff && leb b 0xff && leb c 0xff && leb n 0xff
    then some (record { a = a; b = b; c = c; d = byte_of n 0 })
    else none
expand (a ∷ b ∷ c ∷ d ∷ e ∷ l) = none

abbrev pub cons_option : Option ℕ → Option (List ℕ) → Option (List ℕ)
cons_option (some n) (some l) = some (n ∷ l)
cons_option _ none = none
cons_option none _ = none

pub parse_segments : List (List ℕ) → Option (List ℕ)
parse_segments [] = some []
parse_segments (s ∷ l) = cons_option (parse_segment s) (parse_segments l)

abbrev pub expand_option : Option (List ℕ) → Option Quad
expand_option none = none
expand_option (some l) = expand l

pub parse_ipv4_literal : List ℕ → Option Quad
parse_ipv4_literal ip =
    let segs = split b'.' ip in
    if ltb 4 (length segs) then none else expand_option (parse_segments segs)

pub is_private_ipv4_bytes : Quad → Bool
is_private_ipv4_bytes q =
    q.a == 0
    || q.a == 10
    || q.a == 127
    || (q.a == 169 && q.b == 254)
    || (q.a == 172 && leb 16 q.b && leb q.b 31)
    || (q.a == 192 && q.b == 168)
    || (q.a == 100 && leb 64 q.b && leb q.b 127)
    || (q.a == 198 && (q.b == 18 || q.b == 19))
    || leb 224 q.a
