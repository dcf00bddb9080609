-- ===== src/Gateway/Cookies.antt =====
-- The cookies and the query that src/gateway.ts reads and hands on: `readCookie`,
-- `stripGatewayAuthQuery` and `upstreamCookieHeader`. `decode` stands for `decodeURIComponent`, which
-- is none where it throws. A cookie header that is missing is the empty text.
pub mod Tests
use dsh_passwords.Prelude.{
  ℕ, ◌≡◌, refl, Bool, true, false, not, ◌&&◌, ◌||◌, Option, none, some, List, [], ◌∷◌, ◌++◌, ◌==◌,
  All, if_cases, Bool-cases, inl, inr, ap, ◌∙◌, if◌then◌else◌, bytes_eq, map,
}
use dsh_passwords.Text.{codes, is_empty, starts_with, split, cut, drop_run}

abbrev pub cookie_name : List ℕ
cookie_name = codes "dsh_gateway_token"

-- A blank that the sources take away in front of a cookie.
abbrev pub is_cookie_blank : ℕ → Bool
is_cookie_blank c = c == b' ' || c == 9

abbrev pub with_name : Option (List ℕ × List ℕ) → Option (List ℕ × List ℕ)
with_name none = none
with_name (some (name, value)) = if is_empty name then none else some (name, value)

-- A part of a cookie header as a name and a value, or none where it has no name.
abbrev pub cookie_pair : List ℕ → Option (List ℕ × List ℕ)
cookie_pair part = with_name (cut b'=' (drop_run is_cookie_blank part))

abbrev pub decoded_or : List ℕ → Option (List ℕ) → List ℕ
decoded_or raw none = raw
decoded_or raw (some value) = value

abbrev pub matching_value : List ℕ → Option (List ℕ × List ℕ) → Option (List ℕ)
matching_value name none = none
matching_value name (some (key, value)) =
    if bytes_eq key name && not (is_empty value) then some value else none

abbrev pub or_later : Option (List ℕ) → Option (List ℕ) → Option (List ℕ)
or_later none later = later
or_later (some value) later = some value

abbrev pub before : List ℕ → Option (List ℕ × List ℕ) → List ℕ
before whole none = whole
before whole (some (start, rest)) = start

abbrev pub is_secret_key : Bool → Option (List ℕ) → Bool
is_secret_key strip_launch_token none = false
is_secret_key strip_launch_token (some key) =
    bytes_eq key cookie_name || (strip_launch_token && bytes_eq key (codes "token"))

abbrev pub joined_by : List ℕ → List (List ℕ) → List ℕ
joined_by separator [] = []
joined_by separator (part ∷ []) = part
joined_by separator (part ∷ (next ∷ parts)) =
    part ++ separator ++ joined_by separator (next ∷ parts)

abbrev pub query_of : List (List ℕ) → List ℕ
query_of [] = []
query_of (part ∷ parts) = b'?' ∷ joined_by (codes "&") (part ∷ parts)

abbrev pub is_index : List ℕ → Bool
is_index pathname = bytes_eq pathname (codes "/") || bytes_eq pathname (codes "/index.html")

-- A cookie that goes on to the upstream is neither the gateway's nor DSH's.
abbrev pub is_foreign_name : List ℕ → List ℕ → Bool
is_foreign_name authoritative_name name = not (
    bytes_eq name cookie_name
    || (starts_with (codes "dsh-auth-") name || bytes_eq name authoritative_name))

abbrev pub is_foreign_pair : List ℕ → Option (List ℕ × List ℕ) → Bool
is_foreign_pair authoritative_name none = false
is_foreign_pair authoritative_name (some (name, value)) = is_foreign_name authoritative_name name

abbrev pub kept_cookies : List ℕ → List (List ℕ) → List (List ℕ)
kept_cookies authoritative_name [] = []
kept_cookies authoritative_name (part ∷ parts) =
    let rest = kept_cookies authoritative_name parts in
    if is_foreign_pair authoritative_name (cookie_pair part)
    then drop_run is_cookie_blank part ∷ rest
    else rest

abbrev pub with_authoritative : List ℕ → List (List ℕ)
with_authoritative cookie = if is_empty cookie then [] else cookie ∷ []

abbrev pub header_of : List (List ℕ) → Option (List ℕ)
header_of [] = none
header_of (part ∷ parts) = some (joined_by (codes "; ") (part ∷ parts))

abbrev pub browser_cookies : List ℕ → List ℕ → List (List ℕ)
browser_cookies header cookie = kept_cookies (before cookie (cut b'=' cookie)) (split b';' header)

unfoldable pub upstream_cookie_header : List ℕ → List ℕ → Option (List ℕ)
upstream_cookie_header header cookie =
    header_of (browser_cookies header cookie ++ with_authoritative cookie)

drop_run-drop_run : (p : ℕ → Bool) (s : List ℕ) → drop_run p (drop_run p s) ≡ drop_run p s
drop_run-drop_run p [] = refl
drop_run-drop_run p (c ∷ s) = elim (Bool-cases (p c)) [
  | inl e ↦ simp e (drop_run-drop_run p s)
  | inr e ↦ simp e refl
]

-- Each cookie that is kept of the browser's has a name, which is not the gateway's.
kept_cookies-IsForeign :
    (name : List ℕ) (parts : List (List ℕ))
    → All (λ part. is_foreign_pair name (cookie_pair part) ≡ true) (kept_cookies name parts)
kept_cookies-IsForeign name [] = tt
kept_cookies-IsForeign name (part ∷ parts) =
    if_cases (All (λ q. is_foreign_pair name (cookie_pair q) ≡ true))
      (is_foreign_pair name (cookie_pair part))
      (λ e. (
        ap (λ t. is_foreign_pair name (with_name (cut b'=' t)))
              (drop_run-drop_run is_cookie_blank part)
            ∙ e,
        kept_cookies-IsForeign name parts,
      ))
      (λ _. kept_cookies-IsForeign name parts)

module _ (decode : List ℕ → Option (List ℕ)) where
  abbrev pub decoded_value : Option (List ℕ) → Option (List ℕ)
  decoded_value none = none
  decoded_value (some raw) = some (decoded_or raw (decode raw))

  abbrev pub first_cookie : List ℕ → List (List ℕ) → Option (List ℕ)
  first_cookie name [] = none
  first_cookie name (part ∷ parts) =
      or_later (decoded_value (matching_value name (cookie_pair part))) (first_cookie name parts)

  unfoldable pub read_cookie : List ℕ → List ℕ → Option (List ℕ)
  read_cookie header name = if is_empty header then none else first_cookie name (split b';' header)

  abbrev pub plus_to_blank : ℕ → ℕ
  plus_to_blank c = if c == b'+' then b' ' else c

  unfoldable pub decoded_query_key : List ℕ → Option (List ℕ)
  decoded_query_key raw_key = decode (map plus_to_blank raw_key)

  abbrev pub is_secret_part : Bool → List ℕ → Bool
  is_secret_part strip_launch_token part =
      is_secret_key strip_launch_token (decoded_query_key (before part (cut b'=' part)))

  abbrev pub public_parts : Bool → List (List ℕ) → List (List ℕ)
  public_parts strip [] = []
  public_parts strip (part ∷ parts) =
      let rest = public_parts strip parts in if is_secret_part strip part then rest else part ∷ rest

  abbrev pub stripped : List ℕ → Option (List ℕ × List ℕ) → List ℕ
  stripped pathname none = []
  stripped pathname (some (path, raw_query)) =
      if is_empty raw_query
      then []
      else query_of (public_parts (is_index pathname) (split b'&' raw_query))

  unfoldable pub strip_gateway_auth_query : List ℕ → List ℕ → List ℕ
  strip_gateway_auth_query raw_url pathname = stripped pathname (cut b'?' raw_url)

  -- No part of the query that goes on has a key that decodes to a secret's name.
  public_parts-IsPublic :
      (strip : Bool) (parts : List (List ℕ))
      → All (λ part. is_secret_part strip part ≡ false) (public_parts strip parts)
  public_parts-IsPublic strip [] = tt
  public_parts-IsPublic strip (part ∷ parts) =
      if_cases (All (λ q. is_secret_part strip q ≡ false)) (is_secret_part strip part)
        (λ _. public_parts-IsPublic strip parts) (λ e. (e, public_parts-IsPublic strip parts))
