-- ===== src/Permissions/Host6.antt =====
-- The IPv6 side of `isPrivateHost` in src/permissions.ts, and the function itself. The masks of the
-- byte tests are written as quotients: a byte is below 256.
pub mod Embedded
pub mod Fuel
pub mod Tests
use dsh_passwords.Prelude.{
  ℕ, zero, suc, ◌+◌, ◌-◌, ◌*◌, ◌/◌, ◌%◌, Bool, true, false, not, ◌&&◌, ◌||◌, Option, none, some,
  List, [], ◌∷◌, ◌++◌, ◌==◌, ltb, leb, if◌then◌else◌, length, take, drop, bytes_eq,
}
use mathlib.Core.List.{flat_map, reverse}
use dsh_passwords.Text.{
  codes, split, is_digit, all_codes, is_run, is_empty, has_code, starts_with, ends_with, trim,
  lower, cut,
}
use dsh_passwords.Permissions.Host.{Quad, parse_int, parse_ipv4_literal, is_private_ipv4_bytes}

abbrev pub is_lower_hex : ℕ → Bool
is_lower_hex c = is_digit c || (leb b'a' c && leb c b'f')

-- A group of one to four hexadecimal digits.
abbrev pub is_group : List ℕ → Bool
is_group s = is_run is_lower_hex s && leb (length s) 4

abbrev pub quad_groups : Option Quad → Option (List ℕ)
quad_groups none = none
quad_groups (some q) = some ((q.a * 256 + q.b) ∷ (q.c * 256 + q.d) ∷ [])

abbrev pub cons_group : ℕ → Option (List ℕ) → Option (List ℕ)
cons_group n none = none
cons_group n (some l) = some (n ∷ l)

-- `parseSeq`: a last part that is no group may be an IPv4 literal.
pub parse_seq : List (List ℕ) → Option (List ℕ)
parse_seq [] = some []
parse_seq (raw ∷ []) =
    if is_empty raw
    then none
    else if is_group raw
    then some (parse_int 16 0 raw ∷ [])
    else quad_groups (parse_ipv4_literal raw)
parse_seq (raw ∷ s ∷ l) =
    let rest = parse_seq (s ∷ l) in
    if is_group raw then cons_group (parse_int 16 0 raw) rest else none

abbrev push_code : ℕ → List (List ℕ) → List (List ℕ)
push_code c [] = (c ∷ []) ∷ []
push_code c (p ∷ ps) = (c ∷ p) ∷ ps

-- `s.split('::')`.
pub split_colons : List ℕ → List (List ℕ)
split_colons [] = [] ∷ []
split_colons (c ∷ []) = (c ∷ []) ∷ []
split_colons (c ∷ d ∷ s) =
    let here = [] ∷ split_colons s in
    let later = push_code c (split_colons (d ∷ s)) in if c == b':' && d == b':' then here else later

abbrev pub parse_half : List ℕ → Option (List ℕ)
parse_half s = if is_empty s then some [] else parse_seq (split b':' s)

abbrev pub zeros : ℕ → List ℕ
zeros zero = []
zeros (suc n) = 0 ∷ zeros n

abbrev pub fill : Option (List ℕ) → Option (List ℕ) → Option (List ℕ)
fill (some head) (some tail) =
    if ltb 7 (length head + length tail)
    then none
    else some (head ++ (zeros (8 - (length head + length tail)) ++ tail))
fill _ none = none
fill none (some tail) = none

abbrev pub exactly_eight : Option (List ℕ) → Option (List ℕ)
exactly_eight none = none
exactly_eight (some g) = if length g == 8 then some g else none

pub parse_groups : List ℕ → List (List ℕ) → Option (List ℕ)
parse_groups s (one ∷ []) = exactly_eight (parse_seq (split b':' s))
parse_groups s (head ∷ tail ∷ []) = fill (parse_half head) (parse_half tail)
parse_groups s _ = none

abbrev pub group_bytes : ℕ → List ℕ
group_bytes g = g / 256 % 256 ∷ g % 256 ∷ []

abbrev pub strip_brackets : List ℕ → List ℕ
strip_brackets s =
    let t = (if starts_with (b'[' ∷ []) s then drop 1 s else s) in
    if ends_with (b']' ∷ []) t then take (length t - 1) t else t

abbrev pub is_ipv6_code : ℕ → Bool
is_ipv6_code c = is_lower_hex c || c == b':' || c == b'.'

abbrev pub groups_bytes : Option (List ℕ) → Option (List ℕ)
groups_bytes none = none
groups_bytes (some g) = some (flat_map group_bytes g)

pub parse_ipv6_literal : List ℕ → Option (List ℕ)
parse_ipv6_literal ip =
    let s = strip_brackets (lower (trim ip)) in
    if not (is_run is_ipv6_code s) then none else groups_bytes (parse_groups s (split_colons s))

abbrev pub all_zero : List ℕ → Bool
all_zero [] = true
all_zero (b ∷ l) = b == 0 && all_zero l

abbrev pub at : ℕ → List ℕ → ℕ
at n [] = 0
at zero (b ∷ l) = b
at (suc n) (b ∷ l) = at n l

abbrev pub embedded : List ℕ → Quad
embedded l = record { a = at 12 l; b = at 13 l; c = at 14 l; d = at 15 l }

pub is_private_ipv6 : List ℕ → Bool
is_private_ipv6 l =
    if all_zero l
    then true
    else if all_zero (take 15 l) && at 15 l == 1
    then true
    else if all_zero (take 10 l) && at 10 l == 0xff && at 11 l == 0xff
    then is_private_ipv4_bytes (embedded l)
    else if all_zero (take 12 l)
    then is_private_ipv4_bytes (embedded l)
    else if at 0 l == 0
        && at 1 l == 0x64
        && at 2 l == 0xff
        && at 3 l == 0x9b
        && all_zero (take 8 (drop 4 l))
    then is_private_ipv4_bytes (embedded l)
    else if at 0 l / 2 * 2 == 0xfc
    then true
    else if at 0 l == 0xfe && at 1 l / 64 * 64 == 0x80
    then true
    else if at 0 l == 0xfe && at 1 l / 64 * 64 == 0xc0
    then true
    else at 0 l == 0xff

abbrev pub digits_behind : Option (List ℕ × List ℕ) → Option (List ℕ)
digits_behind none = none
digits_behind (some (p, r)) = if not (is_empty p) && is_run is_digit r then some p else none

-- `/^\[([^\]]+)\]:\d+$/` and `/^([^:]+):\d+$/`, giving the first group.
abbrev pub colon_digits : List ℕ → List ℕ → Option (List ℕ)
colon_digits p [] = none
colon_digits p (c ∷ r) = if c == b':' && is_run is_digit r && not (is_empty p) then some p else none

abbrev pub bracket_port : List ℕ → Option (List ℕ)
bracket_port [] = none
bracket_port (c ∷ s) =
    if c == b'[' then elim (cut b']' s) [ none ↦ none | some (p, r) ↦ colon_digits p r ] else none

abbrev pub host_port : List ℕ → Option (List ℕ)
host_port h = digits_behind (cut b':' h)

abbrev pub private_quad : Option Quad → Bool
private_quad none = false
private_quad (some q) = is_private_ipv4_bytes q

-- The last test of the colon branch.
abbrev pub private_port : Option (List ℕ) → Bool
private_port none = false
private_port (some p) = private_quad (parse_ipv4_literal p)

abbrev pub private_ipv6_or_port : Option (List ℕ) → List ℕ → Bool
private_ipv6_or_port (some bytes) h = is_private_ipv6 bytes
private_ipv6_or_port none h = private_port (host_port h)

abbrev pub is_bracketed : List ℕ → Bool
is_bracketed h = starts_with (b'[' ∷ []) h && ends_with (b']' ∷ []) h

-- `h.slice(1, -1)`.
abbrev pub inner : List ℕ → List ℕ
inner h = take (length h - 2) (drop 1 h)

-- `isPrivateHost` with fuel for the calls on what stands in brackets, by what a call does.
abbrev pub colon_host : (List ℕ → Bool) → Option (List ℕ) → List ℕ → Bool
colon_host again (some p) h = again p
colon_host again none h = private_ipv6_or_port (parse_ipv6_literal h) h

pub host_with : (List ℕ → Bool) → List ℕ → Bool
host_with again h =
    if is_empty h || bytes_eq h (codes "localhost") || bytes_eq h (codes "localhost.localdomain")
    then true
    else if is_bracketed h
    then again (inner h)
    else if has_code b':' h
    then (if has_code b'%' h then true else colon_host again (bracket_port h) h)
    else private_quad (parse_ipv4_literal h)

pub private_host_from : ℕ → List ℕ → Bool
private_host_from zero host = false
private_host_from (suc f) host = host_with (λ p. private_host_from f p) (lower (trim host))

pub is_private_host : List ℕ → Bool
is_private_host host = private_host_from (suc (length host)) host
