-- ===== src/Accounts/Input.antt =====
-- The checks on names and passwords in src/auth.ts: `assertNoSqlInjection`, `assertUsername` and
-- `assertPassword`. Texts are UTF-16 code units; a lookahead of a regular expression stands as a
-- search in the text, which has no line end where `.` has to match all of it.
pub mod Policy
pub mod Bytes
use dsh_passwords.Prelude.{
  ℕ, ◌+◌, ◌≤◌, ◌≡◌, refl, Bool, true, false, not, ◌&&◌, ◌||◌, List, [], ◌∷◌, ◌==◌, leb, ltb, length,
  if◌then◌else◌, arith, Bool-cases,
}
use dsh_passwords.Text.{codes, has_text, all_codes, is_empty, is_digit, starts_with}
use dsh_passwords.Permissions.Folders.{is_letter}

-- `/(['";]|--|\/\*|\*\/|`)/`.
abbrev pub is_quote : ℕ → Bool
is_quote c = c == b'\'' || c == b'"' || c == b';' || c == b'`'

abbrev pub is_mark : ℕ → ℕ → Bool
is_mark c d = (c == b'-' && d == b'-') || (c == b'/' && d == b'*') || (c == b'*' && d == b'/')

unfoldable pub has_injection : List ℕ → Bool
has_injection [] = false
has_injection (c ∷ []) = is_quote c
has_injection (c ∷ d ∷ s) = is_quote c || is_mark c d || has_injection (d ∷ s)

-- `/^[A-Za-z0-9_-]{3,32}$/`.
abbrev pub is_name_code : ℕ → Bool
is_name_code c = is_letter c || is_digit c || c == b'_' || c == b'-'

unfoldable pub is_username : List ℕ → Bool
is_username s = all_codes is_name_code s && leb 3 (length s) && leb (length s) 32

abbrev pub some_code : (ℕ → Bool) → List ℕ → Bool
some_code p [] = false
some_code p (c ∷ s) = p c || some_code p s

abbrev pub is_line_end : ℕ → Bool
is_line_end c = c == 10 || c == 13 || c == 0x2028 || c == 0x2029

abbrev pub is_lower : ℕ → Bool
is_lower c = leb b'a' c && leb c b'z'

abbrev pub is_upper : ℕ → Bool
is_upper c = leb b'A' c && leb c b'Z'

abbrev pub is_symbol : ℕ → Bool
is_symbol c = not (is_letter c || is_digit c)

-- `PASSWORD_RE`.
unfoldable pub matches_policy : List ℕ → Bool
matches_policy s =
    some_code is_lower s
    && some_code is_upper s
    && some_code is_digit s
    && some_code is_symbol s
    && all_codes (λ c. not (is_line_end c)) s
    && leb 12 (length s)
    && leb (length s) 128

-- `Buffer.byteLength(s, 'utf8')`; a surrogate without its other half takes three bytes.
abbrev pub is_high : ℕ → Bool
is_high c = leb 0xd800 c && leb c 0xdbff

abbrev pub is_low : ℕ → Bool
is_low c = leb 0xdc00 c && leb c 0xdfff

abbrev pub code_bytes : ℕ → ℕ
code_bytes c = if leb c 0x7f then 1 else if leb c 0x7ff then 2 else 3

-- The second half of a pair adds one byte to the three of the first half.
abbrev pub next_bytes : ℕ → ℕ → ℕ
next_bytes prev c = if is_high prev && is_low c then 1 else code_bytes c

unfoldable pub bytes_after : ℕ → List ℕ → ℕ
bytes_after prev [] = 0
bytes_after prev (c ∷ s) = next_bytes prev c + bytes_after c s

abbrev pub byte_length : List ℕ → ℕ
byte_length s = bytes_after 0 s

unfoldable pub is_password : List ℕ → Bool
is_password s = if not (matches_policy s) then false else not (ltb 72 (byte_length s))
