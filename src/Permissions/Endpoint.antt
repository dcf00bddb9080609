-- ===== src/Permissions/Endpoint.antt =====
-- The endpoint rules of src/permissions.ts: `parseEndpointRule`, `endpointPathMatches`,
-- `parseEndpointAllowlist` and `endpointAllowed`. The cache of parsed rules only saves work, so a
-- rule is parsed at each use.
pub mod Rules
pub mod Allowlist
pub mod Tests
use dsh_passwords.Prelude.{
  ℕ, zero, suc, ◌+◌, ◌-◌, ◌≡◌, Bool, true, false, not, ◌&&◌, ◌||◌, Option, none, some, List, [],
  ◌∷◌, ◌++◌, ◌==◌, ltb, leb, if◌then◌else◌, length, take, drop, bytes_eq,
}
use dsh_passwords.Text.{
  codes, split, is_empty, has_code, has_text, starts_with, ends_with, trim, lower, strip_prefix,
}

pub data Transport : Type 0 where
  any : Transport
  http : Transport
  ws : Transport

pub data Capability : Type 0 where
  ssh : Capability
  owner_only : Capability

pub record Rule : Type 0 where
  pub capability : Capability
  pub transport : Transport
  pub path : List ℕ

abbrev pub rule : Capability → Transport → List ℕ → Rule
rule c t p = record { capability = c; transport = t; path = p }

abbrev pub is_owner_only : Capability → Bool
is_owner_only ssh = false
is_owner_only owner_only = true

abbrev pub is_any : Transport → Bool
is_any any = true
is_any http = false
is_any ws = false

abbrev pub same_capability : Capability → Capability → Bool
same_capability ssh ssh = true
same_capability ssh owner_only = false
same_capability owner_only ssh = false
same_capability owner_only owner_only = true

abbrev pub same_transport : Transport → Transport → Bool
same_transport any any = true
same_transport http http = true
same_transport ws ws = true
same_transport _ _ = false

-- `/^prefix/i`, for a prefix in lower case.
abbrev pub has_prefix : List ℕ → List ℕ → Bool
has_prefix p s = starts_with p (lower s)

-- The loop of `parseEndpointRule`. A pass that continues sets the capability or the transport,
-- which are set once: three passes end it.
pub parse_rule_from : ℕ → Capability → Transport → List ℕ → Rule
parse_rule_from zero c t rest = rule c t rest
parse_rule_from (suc n) c t rest =
    let owner = parse_rule_from n owner_only t (drop 6 rest) in
    let websocket = parse_rule_from n c ws (drop 3 rest) in
    let web = parse_rule_from n c http (drop 5 rest) in
    if not (is_owner_only c) && has_prefix (codes "owner:") rest
    then owner
    else if is_any t && has_prefix (codes "ws:") rest
    then websocket
    else if is_any t && has_prefix (codes "http:") rest
    then web
    else rule c t rest

pub parse_endpoint_rule : List ℕ → Rule
parse_endpoint_rule text = parse_rule_from 3 ssh any text

abbrev pub is_child : Option (List ℕ) → Bool
is_child none = false
is_child (some child) = not (is_empty child) && not (has_code b'/' child)

pub endpoint_path_matches : List ℕ → List ℕ → Bool
endpoint_path_matches pathname rule_path =
    if not (ends_with (codes "/*") rule_path)
    then bytes_eq rule_path pathname
    else is_child (strip_prefix (take (length rule_path - 2) rule_path ++ codes "/") pathname)

abbrev pub allows_capability : Option Capability → Capability → Bool
allows_capability none c = true
allows_capability (some wanted) c = same_capability c wanted

abbrev pub allows_transport : Option Transport → Transport → Bool
allows_transport none t = true
allows_transport (some wanted) t = is_any t || same_transport t wanted

abbrev pub rule_allows : List ℕ → Option Transport → Option Capability → Rule → Bool
rule_allows pathname t c r =
    allows_capability c r.capability
    && allows_transport t r.transport
    && endpoint_path_matches pathname r.path

pub endpoint_allowed : List ℕ → List (List ℕ) → Option Transport → Option Capability → Bool
endpoint_allowed pathname [] t c = false
endpoint_allowed pathname (text ∷ rules) t c =
    rule_allows pathname t c (parse_endpoint_rule text) || endpoint_allowed pathname rules t c

-- What `parseEndpointAllowlist` throws.
pub data RuleError : Type 0 where
  rule_too_long : RuleError
  missing_path : RuleError
  no_leading_slash : RuleError
  forbidden_character : RuleError
  inner_wildcard : RuleError
  root_path : RuleError
  gateway_path : RuleError
  internal_path : RuleError
  bad_segment : RuleError
  too_many_rules : RuleError

-- `/[? #%\\\u0000-\u001f\u007f]/`.
abbrev pub is_forbidden : ℕ → Bool
is_forbidden c =
    c == b'?' || c == b' ' || c == b'#' || c == b'%' || c == 0x5c || leb c 0x1f || c == 0x7f

abbrev pub any_code : (ℕ → Bool) → List ℕ → Bool
any_code p [] = false
any_code p (c ∷ s) = p c || any_code p s

abbrev pub is_bad_segment : List ℕ → Bool
is_bad_segment s = bytes_eq s (codes ".") || bytes_eq s (codes "..") || is_empty s

abbrev pub any_bad_segment : List (List ℕ) → Bool
any_bad_segment [] = false
any_bad_segment (s ∷ l) = is_bad_segment s || any_bad_segment l

abbrev pub is_or_under : List ℕ → List ℕ → Bool
is_or_under base s = bytes_eq s base || starts_with (base ++ codes "/") s

abbrev pub path_part : List ℕ → List ℕ
path_part p = if ends_with (codes "/*") p then take (length p - 2) p else p

abbrev pub check_part : List ℕ → Option RuleError
check_part part =
    if is_empty part || bytes_eq part (codes "/")
    then some root_path
    else if is_or_under (codes "/gateway") part
    then some gateway_path
    else if is_or_under (codes "/api/dsh-passwords/internal") part
    then some internal_path
    else if any_bad_segment (drop 1 (split b'/' part))
    then some bad_segment
    else none

abbrev pub check_path : List ℕ → Option RuleError
check_path p =
    if is_empty p
    then some missing_path
    else if not (starts_with (codes "/") p)
    then some no_leading_slash
    else if any_code is_forbidden p
    then some forbidden_character
    else if has_code b'*' p && not (ends_with (codes "/*") p)
    then some inner_wildcard
    else check_part (path_part p)

-- The error of an entry that is not empty.
pub check_entry : List ℕ → Option RuleError
check_entry entry =
    if ltb 256 (length entry)
    then some rule_too_long
    else check_path ((parse_endpoint_rule entry).path)

abbrev pub capability_prefix : Capability → List ℕ
capability_prefix ssh = []
capability_prefix owner_only = codes "owner:"

abbrev pub transport_prefix : Transport → List ℕ
transport_prefix any = []
transport_prefix http = codes "http:"
transport_prefix ws = codes "ws:"

pub print_rule : Rule → List ℕ
print_rule r = capability_prefix r.capability ++ (transport_prefix r.transport ++ r.path)

-- `rules.add`, for a set in the order of insertion.
abbrev pub add_rule : List ℕ → List (List ℕ) → List (List ℕ)
add_rule text rules = if has_text text rules then rules else rules ++ (text ∷ [])

pub data ParseResult : Type 0 where
  rejected : RuleError → ParseResult
  parsed : List (List ℕ) → ParseResult

-- The loop over the items, with the rules found so far.
pub parse_items : List (List ℕ) → List (List ℕ) → ParseResult
parse_items [] rules = parsed rules
parse_items (item ∷ items) rules =
    let skipped = parse_items items rules in
    let added = add_rule (print_rule (parse_endpoint_rule (trim item))) rules in
    let later = parse_items items added in
    if is_empty (trim item) then skipped else elim (check_entry (trim item)) [
      | some e ↦ rejected e
      | none ↦ if ltb 64 (length added) then rejected too_many_rules else later
    ]

abbrev pub parse_raw : List ℕ → ParseResult
parse_raw raw = if is_empty (trim raw) then parsed [] else parse_items (split b',' raw) []

pub parse_endpoint_allowlist : Option (List ℕ) → ParseResult
parse_endpoint_allowlist none = parsed []
parse_endpoint_allowlist (some raw) = parse_raw raw
