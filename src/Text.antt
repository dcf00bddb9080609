-- ===== src/Text.antt =====
-- Texts as lists of UTF-16 code units, with the string operations that the sources use.
pub mod Laws
pub mod Trimming
use Prim.Native.Char.{code}
use Prim.Native.String.{String}
use mathlib.Core.List.{reverse}
use dsh_passwords.Prelude.{
  ℕ, ◌+◌, Bool, true, false, not, ◌&&◌, ◌||◌, Option, none, some, List, [], ◌∷◌, ◌++◌, ◌==◌, leb,
  map, if◌then◌else◌, is_some, bytes_eq,
}

-- The code units of a literal, which is ASCII here.
abbrev pub codes : String → List ℕ
codes String.[] = []
codes (String.◌∷◌ c s) = code c ∷ codes s

-- `text` without a leading `prefix`.
unfoldable pub strip_prefix : List ℕ → List ℕ → Option (List ℕ)
strip_prefix [] s = some s
strip_prefix (c ∷ p) [] = none
strip_prefix (c ∷ p) (d ∷ s) = if c == d then strip_prefix p s else none

-- `s.startsWith(p)`, `s.endsWith(p)` and `s.includes(c)`.
unfoldable pub starts_with : List ℕ → List ℕ → Bool
starts_with p s = is_some (strip_prefix p s)

unfoldable pub ends_with : List ℕ → List ℕ → Bool
ends_with p s = starts_with (reverse p) (reverse s)

unfoldable pub has_code : ℕ → List ℕ → Bool
has_code c [] = false
has_code c (d ∷ s) = (c == d) || has_code c s

-- Membership in a `Set` of texts.
unfoldable pub has_text : List ℕ → List (List ℕ) → Bool
has_text s [] = false
has_text s (t ∷ ts) = bytes_eq s t || has_text s ts

abbrev pub cons_head : ℕ → List (List ℕ) → List (List ℕ)
cons_head c [] = (c ∷ []) ∷ []
cons_head c (p ∷ ps) = (c ∷ p) ∷ ps

-- `s.split(c)` for one character; the result is never empty.
unfoldable pub split : ℕ → List ℕ → List (List ℕ)
split c [] = [] ∷ []
split c (d ∷ s) = if c == d then [] ∷ split c s else cons_head d (split c s)

abbrev pub is_digit : ℕ → Bool
is_digit c = leb b'0' c && leb c b'9'

abbrev pub all_codes : (ℕ → Bool) → List ℕ → Bool
all_codes p [] = true
all_codes p (c ∷ s) = p c && all_codes p s

abbrev pub is_empty : List ℕ → Bool
is_empty [] = true
is_empty (c ∷ s) = false

-- A non-empty run of characters of a class: `/^[class]+$/`.
abbrev pub is_run : (ℕ → Bool) → List ℕ → Bool
is_run p s = not (is_empty s) && all_codes p s

-- The white space of `String.prototype.trim`.
abbrev pub is_space : ℕ → Bool
is_space c =
    (leb 9 c && leb c 13)
    || c == 0x20
    || c == 0xa0
    || c == 0x1680
    || (leb 0x2000 c && leb c 0x200a)
    || c == 0x2028
    || c == 0x2029
    || c == 0x202f
    || c == 0x205f
    || c == 0x3000
    || c == 0xfeff

unfoldable pub trim_start : List ℕ → List ℕ
trim_start [] = []
trim_start (c ∷ s) = if is_space c then trim_start s else c ∷ s

unfoldable pub trim : List ℕ → List ℕ
trim s = reverse (trim_start (reverse (trim_start s)))

-- `toLowerCase` on ASCII; no test below names a letter that another code unit is lowered to.
abbrev pub lower_code : ℕ → ℕ
lower_code c = if leb b'A' c && leb c b'Z' then c + 32 else c

unfoldable pub lower : List ℕ → List ℕ
lower s = map lower_code s

-- The text before the first `c`, and the text behind it.
unfoldable pub cut : ℕ → List ℕ → Option (List ℕ × List ℕ)
cut c [] = none
cut c (d ∷ s) =
    if c == d then some ([], s) else elim (cut c s) [ none ↦ none | some (p, r) ↦ some (d ∷ p, r) ]

-- The longest start of a text in a class of characters, and the text behind it.
abbrev pub take_run : (ℕ → Bool) → List ℕ → List ℕ
take_run p [] = []
take_run p (c ∷ s) = let rest = take_run p s in if p c then c ∷ rest else []

abbrev pub drop_run : (ℕ → Bool) → List ℕ → List ℕ
drop_run p [] = []
drop_run p (c ∷ s) = let rest = drop_run p s in if p c then rest else c ∷ s
