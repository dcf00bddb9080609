-- ===== src/Permissions/Endpoint/Allowlist.antt =====
-- `parseEndpointAllowlist` of src/permissions.ts: the table of endpoint rules as a whole.
use dsh_passwords.Prelude.{
  ℕ, ◌≤◌, ◌≡◌, refl, ap, ◌∙◌, Bool, true, false, ◌||◌, Option, none, some, List, [], ◌∷◌, ◌++◌, ltb,
  if_cases, length, All, arith, Bool-cases, Option-cases, inl, inr,
}
use dsh_passwords.Text.{codes, split, has_text, is_empty, starts_with, trim}
use dsh_passwords.Permissions.Endpoint.{
  Transport, Capability, parsed, parse_endpoint_rule, print_rule, check_entry, check_path, add_rule,
  parse_items, parse_endpoint_allowlist, endpoint_allowed, endpoint_path_matches,
}
use dsh_passwords.Permissions.Endpoint.Rules.{parse-print, misses-under}

-- A rule whose path passes the checks, as it is read back.
abbrev pub IsChecked : List ℕ → Type 0
IsChecked text = check_path (parse_endpoint_rule text).path ≡ none

abbrev pub IsTable : List (List ℕ) → Type 0
IsTable rules = (length rules ≤ 64) × All IsChecked rules

check_path-slash : (p : List ℕ) → check_path p ≡ none → starts_with (codes "/") p ≡ true
check_path-slash p h = ground arith

-- An entry that passes is stored in a form that is read back with its path.
check_entry-IsChecked :
    (entry : List ℕ) → check_entry entry ≡ none → IsChecked (print_rule (parse_endpoint_rule entry))
unfolding check_entry
check_entry-IsChecked entry h =
    ap (λ r. check_path r.path)
      (parse-print (parse_endpoint_rule entry)
        (check_path-slash (parse_endpoint_rule entry).path (ground arith)))
    ∙ (ground arith)

All-append :
    (rules : List (List ℕ)) (text : List ℕ)
    → All IsChecked rules
    → IsChecked text
    → All IsChecked (rules ++ (text ∷ []))
All-append [] text h k = (k, tt)
All-append (r ∷ rules) text (h, hs) k = (h, All-append rules text hs k)

add_rule-All :
    (rules : List (List ℕ)) (text : List ℕ)
    → All IsChecked rules
    → IsChecked text
    → All IsChecked (add_rule text rules)
add_rule-All rules text h k =
    if_cases (λ l. All IsChecked l) (has_text text rules) (λ _. h) (λ _. All-append rules text h k)

abbrev added : List (List ℕ) → List ℕ → List (List ℕ)
added rules entry = add_rule (print_rule (parse_endpoint_rule entry)) rules

parse_items-IsTable :
    (items rules found : List (List ℕ))
    → IsTable rules
    → parse_items items rules ≡ parsed found
    → IsTable found
unfolding parse_items
parse_items-IsTable [] rules found h e = ground arith
parse_items-IsTable (item ∷ items) rules found (l, h) e = elim (Bool-cases (is_empty (trim item))) [
  | inl z ↦ parse_items-IsTable items rules found (l, h) (ground arith)
  | inr z ↦ elim (Option-cases (check_entry (trim item))) [
    | inr (x, k) ↦ absurd (ground arith)
    | inl k ↦ elim (Bool-cases (ltb 64 (length (added rules (trim item))))) [
      | inl b ↦ absurd (ground arith)
      | inr b ↦
          parse_items-IsTable items (added rules (trim item)) found
            (
              ground arith,
              add_rule-All rules (print_rule (parse_endpoint_rule (trim item))) h
                  (check_entry-IsChecked (trim item) k),
            )
            (ground arith)
    ]
  ]
]

-- Whatever a table is made of, it has at most 64 rules and each has a path that passes the checks.
pub parse_endpoint_allowlist-IsTable :
    (raw : Option (List ℕ)) (rules : List (List ℕ))
    → parse_endpoint_allowlist raw ≡ parsed rules
    → IsTable rules
unfolding parse_endpoint_allowlist
parse_endpoint_allowlist-IsTable none rules e = ground arith
parse_endpoint_allowlist-IsTable (some raw) rules e = elim (Bool-cases (is_empty (trim raw))) [
  | inl z ↦ ground arith
  | inr z ↦ parse_items-IsTable (split b',' raw) [] rules (omega arith, tt) (ground arith)
]

-- The internal paths: those of the gateway and those of its own interface.
abbrev pub is_internal : List ℕ → Bool
is_internal s =
    starts_with (codes "/gateway/") s || starts_with (codes "/api/dsh-passwords/internal/") s

misses-internal :
    (p pathname : List ℕ)
    → check_path p ≡ none
    → is_internal pathname ≡ true
    → endpoint_path_matches pathname p ≡ false
misses-internal p pathname h e = elim (Bool-cases (starts_with (codes "/gateway/") pathname)) [
  | inl z ↦ misses-under p (codes "/gateway") pathname (ground arith) z
  | inr z ↦
      misses-under p (codes "/api/dsh-passwords/internal") pathname (ground arith) (ground arith)
]

table-misses :
    (pathname : List ℕ) (rules : List (List ℕ)) (t : Option Transport) (c : Option Capability)
    → All IsChecked rules
    → is_internal pathname ≡ true
    → endpoint_allowed pathname rules t c ≡ false
unfolding endpoint_allowed
table-misses pathname [] t c h e = refl
table-misses pathname (text ∷ rules) t c (h, hs) e = ground (
  arith,
  misses-internal (parse_endpoint_rule text).path pathname h e,
  table-misses pathname rules t c hs e,
)

-- No table opens a path below the gateway's or its internal interface's, wildcards included, for
-- any transport and capability.
pub endpoint_allowed-internal :
    (raw : Option (List ℕ)) (rules : List (List ℕ)) (pathname : List ℕ)
    → (t : Option Transport) (c : Option Capability) → parse_endpoint_allowlist raw ≡ parsed rules
    → is_internal pathname ≡ true
    → endpoint_allowed pathname rules t c ≡ false
endpoint_allowed-internal raw rules pathname t c e i =
    table-misses pathname rules t c ((parse_endpoint_allowlist-IsTable raw rules e).1) i
