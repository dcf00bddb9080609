-- ===== src/Permissions/Endpoint/Tests.antt =====
-- A small table of endpoint rules.
use dsh_passwords.Prelude.{ℕ, ◌≡◌, refl, true, false, none, some, List, [], ◌∷◌}
use dsh_passwords.Text.{
  codes, split, has_code, has_text, starts_with, ends_with, trim, trim_start, lower, strip_prefix,
}
use dsh_passwords.Permissions.Endpoint.{
  Rule, http, ws, owner_only, rule, parsed, parse_rule_from, parse_endpoint_rule, print_rule,
  check_entry, parse_items, parse_endpoint_allowlist, endpoint_allowed,
}
use dsh_passwords.Permissions.Endpoint.Rules.{parse-print}
use dsh_passwords.Permissions.Endpoint.Allowlist.{endpoint_allowed-internal, is_internal}

abbrev raw : List ℕ
raw = codes " Owner:http:/api/hosts , ws:/api/term,,/api/ssh/*"

abbrev table : List (List ℕ)
table = codes "owner:http:/api/hosts" ∷ codes "ws:/api/term" ∷ codes "/api/ssh/*" ∷ []

table-parsed : parse_endpoint_allowlist (some raw) ≡ parsed table
unfolding parse_endpoint_allowlist parse_items check_entry parse_endpoint_rule parse_rule_from
    print_rule split has_code has_text starts_with ends_with trim trim_start lower strip_prefix
table-parsed = refl

gateway-internal : is_internal (codes "/gateway/login") ≡ true
unfolding starts_with strip_prefix
gateway-internal = refl

endpoint_allowed-internal_example :
    endpoint_allowed (codes "/gateway/login") table (some http) none ≡ false
endpoint_allowed-internal_example =
    endpoint_allowed-internal (some raw) table (codes "/gateway/login") (some http) none
      table-parsed gateway-internal

abbrev owner_rule : Rule
owner_rule = rule owner_only ws (codes "/api/hosts")

owner_rule-slash : starts_with (codes "/") owner_rule.path ≡ true
unfolding starts_with strip_prefix
owner_rule-slash = refl

parse-print_example : parse_endpoint_rule (print_rule owner_rule) ≡ owner_rule
parse-print_example = parse-print owner_rule owner_rule-slash
