-- ===== src/Gateway/Redirect.antt =====
-- `safeNext` and `escapeHtml` of src/gateway.ts.
pub mod Laws
pub mod Tests
use dsh_passwords.Prelude.{
  ℕ, Bool, true, false, not, ◌&&◌, ◌||◌, Option, none, some, List, [], ◌∷◌, ◌++◌, ◌==◌, leb,
  if◌then◌else◌,
}
use dsh_passwords.Text.{codes, has_code, starts_with}

-- `[\u0000-\u0020\u007f]`.
abbrev pub is_control : ℕ → Bool
is_control c = leb c 0x20 || c == 0x7f

abbrev pub has_control : List ℕ → Bool
has_control [] = false
has_control (c ∷ s) = is_control c || has_control s

abbrev pub checked_next : Option (List ℕ) → List ℕ
checked_next none = codes "/"
checked_next (some decoded) =
    if has_code b'\\' decoded
    then codes "/"
    else if not (starts_with (codes "/") decoded) || starts_with (codes "//") decoded
    then codes "/"
    else if has_control decoded
    then codes "/"
    else decoded

-- `decode` is `decodeURIComponent`, `none` where it throws.
pub safe_next : (List ℕ → Option (List ℕ)) → Option (List ℕ) → List ℕ
safe_next decode none = codes "/"
safe_next decode (some []) = codes "/"
safe_next decode (some (c ∷ next)) = checked_next (decode (c ∷ next))

-- The five replacements touch each character once: what `&` becomes has no other of them.
abbrev pub escape_code : ℕ → List ℕ
escape_code c =
    if c == b'&'
    then codes "&amp;"
    else if c == b'<'
    then codes "&lt;"
    else if c == b'>'
    then codes "&gt;"
    else if c == b'"'
    then codes "&quot;"
    else if c == b'\''
    then codes "&#39;"
    else c ∷ []

pub escape_html : List ℕ → List ℕ
escape_html [] = []
escape_html (c ∷ s) = escape_code c ++ escape_html s
