-- ===== src/Permissions/Endpoint/Rules.antt =====
-- `parseEndpointRule` and `endpointPathMatches` of src/permissions.ts: one endpoint rule.
use std.Path.{subst}
use mathlib.Core.Bool.{false≢true}
use mathlib.Core.List.{reverse, reverse-append}
use dsh_passwords.Prelude.{
  ℕ, ◌-◌, ◌≡◌, refl, sym, ap, ◌∙◌, true, false, some, List, [], ◌∷◌, ◌++◌, ==_iff, length, take,
  bytes_eq, bytes_eq_iff, arith, length-append, ◌↔◌, is_some, Bool-cases, Option-cases, inl, inr,
  append_assoc,
}
use dsh_passwords.Text.{codes, is_empty, has_code, starts_with, ends_with, lower, strip_prefix}
use dsh_passwords.Text.Laws.{strip_prefix_sound, strip_prefix-append}
use dsh_passwords.Permissions.Endpoint.{
  any, http, ws, ssh, owner_only, Rule, rule, Capability, Transport, parse_rule_from,
  parse_endpoint_rule, print_rule, endpoint_path_matches, path_part, is_child, is_or_under,
}

parse-print_from :
    (c : Capability) (t : Transport) (p : List ℕ)
    → parse_endpoint_rule (print_rule (rule c t (b'/' ∷ p))) ≡ rule c t (b'/' ∷ p)
unfolding parse_endpoint_rule parse_rule_from print_rule starts_with strip_prefix lower
parse-print_from ssh any p = refl
parse-print_from ssh http p = refl
parse-print_from ssh ws p = refl
parse-print_from owner_only any p = refl
parse-print_from owner_only http p = refl
parse-print_from owner_only ws p = refl

has_code-behind : (c : ℕ) (p r : List ℕ) → has_code c (p ++ c ∷ r) ≡ true
unfolding has_code
has_code-behind c [] r = ground arith
has_code-behind c (d ∷ p) r = ground (arith, has_code-behind c p r)

parse-print_path :
    (c : Capability) (t : Transport) (p : List ℕ)
    → starts_with (codes "/") p ≡ true
    → parse_endpoint_rule (print_rule (rule c t p)) ≡ rule c t p
unfolding starts_with strip_prefix
parse-print_path c t [] h = ground arith
parse-print_path c t (d ∷ p) h =
    subst (λ x. parse_endpoint_rule (print_rule (rule c t (x ∷ p))) ≡ rule c t (x ∷ p))
      ((==_iff b'/' d).0 (ground arith)) (parse-print_from c t p)

-- A rule with a path is read back from its printed form.
pub parse-print :
    (r : Rule) → starts_with (codes "/") r.path ≡ true → parse_endpoint_rule (print_rule r) ≡ r
parse-print r h = parse-print_path r.capability r.transport r.path h

-- What stands before the last slash is the base, or lies under it.
last_segment :
    (base part child r : List ℕ)
    → part ++ b'/' ∷ child ≡ base ++ b'/' ∷ r
    → has_code b'/' child ≡ false
    → is_or_under base part ≡ true
unfolding starts_with strip_prefix has_code
last_segment [] [] child r e h = refl
last_segment [] (c ∷ part) child r e h = ground arith
last_segment (b ∷ base) [] child r e h = ground (arith, has_code-behind b'/' base r)
last_segment (b ∷ base) (c ∷ part) child r e h = ground (arith, last_segment base part child r)

-- A rule whose path passes the checks.
module _ (p base pathname : List ℕ) (outside : is_or_under base (path_part p) ≡ false)
    (under : starts_with (base ++ codes "/") pathname ≡ true) where
  exact-misses : ends_with (codes "/*") p ≡ false → bytes_eq p pathname ≡ false
  exact-misses e = elim (Bool-cases (bytes_eq p pathname)) [
    | inl k ↦ ground (arith, (bytes_eq_iff p pathname).0 k)
    | inr k ↦ k
  ]

  child-misses :
      (child : List ℕ)
      → strip_prefix (path_part p ++ codes "/") pathname ≡ some child
      → has_code b'/' child ≡ true
  unfolding starts_with
  child-misses child e = elim (Option-cases (strip_prefix (base ++ codes "/") pathname)) [
    | inl k ↦ ground arith
    | inr (r, k) ↦ elim (Bool-cases (has_code b'/' child)) [
      | inl z ↦ z
      | inr z ↦ absurd (
          false≢true (
            sym outside
            ∙ last_segment base (path_part p) child r
                (sym (append_assoc (path_part p) (codes "/") child)
                  ∙ sym (strip_prefix_sound (path_part p ++ codes "/") pathname child e)
                  ∙ strip_prefix_sound (base ++ codes "/") pathname r k
                  ∙ append_assoc base (codes "/") r)
                z))
    ]
  ]

  pub misses-under : endpoint_path_matches pathname p ≡ false
  unfolding endpoint_path_matches
  misses-under = elim (Bool-cases (ends_with (codes "/*") p)) [
    | inl e ↦ elim (Option-cases (strip_prefix (path_part p ++ codes "/") pathname)) [
      | inl k ↦ ground arith
      | inr (child, k) ↦ ground (arith, child-misses child k)
    ]
    | inr e ↦ ground (arith, exact-misses e)
  ]

take-length : (p q : List ℕ) → take (length p) (p ++ q) ≡ p
take-length [] q = refl
take-length (c ∷ p) q = ap (λ l. c ∷ l) (take-length p q)

take_front : (p q : List ℕ) → take (length (p ++ q) - length q) (p ++ q) ≡ p
take_front p q = ap (λ n. take n (p ++ q)) (omega (arith, length-append p q)) ∙ take-length p q

ends_with-append : (p q : List ℕ) → ends_with q (p ++ q) ≡ true
unfolding ends_with starts_with
ends_with-append p q =
    ap (λ s. is_some (strip_prefix (reverse q) s)) (reverse-append p q)
    ∙ ap (λ o. is_some o) (strip_prefix-append (reverse q) (reverse p))

wildcard_eq :
    (base pathname : List ℕ)
    → endpoint_path_matches pathname (base ++ codes "/*")
      ≡ is_child (strip_prefix (base ++ codes "/") pathname)
unfolding endpoint_path_matches
wildcard_eq base pathname =
    ground (arith, ends_with-append base (codes "/*"))
    ∙ ap (λ p. is_child (strip_prefix (p ++ codes "/") pathname)) (take_front base (codes "/*"))

-- A rule with the trailing wildcard matches exactly the paths that add one segment to its base,
-- which is not empty: not the base, and nothing deeper.
pub wildcard_iff :
    (base pathname : List ℕ)
    → (endpoint_path_matches pathname (base ++ codes "/*") ≡ true) ↔ (
        (child : List ℕ) × (pathname ≡ base ++ b'/' ∷ child)
        × (is_empty child ≡ false)
        × (has_code b'/' child ≡ false))
wildcard_iff base pathname = (
  λ h. elim (Option-cases (strip_prefix (base ++ codes "/") pathname)) [
    | inl e ↦ ground (arith, wildcard_eq base pathname)
    | inr (child, e) ↦ (
      child,
      strip_prefix_sound (base ++ codes "/") pathname child e ∙ append_assoc base (codes "/") child,
      ground (arith, wildcard_eq base pathname),
      ground (arith, wildcard_eq base pathname),
    )
  ],
  λ (child, e, k, l).
      wildcard_eq base pathname
      ∙ ap (λ o. is_child o)
          (ap (λ s. strip_prefix (base ++ codes "/") s)
              (e ∙ sym (append_assoc base (codes "/") child))
            ∙ strip_prefix-append (base ++ codes "/") child)
      ∙ ground arith,
)
