-- ===== src/Permissions/Sessions.antt =====
-- The sessions that a request names, in src/permissions.ts, and the snapshot of the archived ones. A
-- `Set` of texts is its list of distinct members in the order of insertion.
pub mod Collected
pub mod Authorized
pub mod Archive
pub mod Tests
use dsh_passwords.Prelude.{
  ℕ, ◌+◌, Bool, true, false, not, ◌&&◌, ◌||◌, Option, none, some, List, [], ◌∷◌, ◌++◌, ltb, leb,
  length, if◌then◌else◌, bytes_eq, is_some,
}
use dsh_passwords.Text.{codes, is_empty, has_text}
use dsh_passwords.Json.{
  Json, null, boolean, number, other_number, string, array, object, Items, nil, cons, Fields, end,
  field, get_field, text_of, items_of,
}
use dsh_passwords.Permissions.Extract.{text_is, client_connection_args, walk}

pub data Mode : Type 0 where
  one_shot continuable unknown : Mode

pub data SessionAddress : Type 0 where
  session : List ℕ → SessionAddress
  subagent : List ℕ → List ℕ → Mode → SessionAddress

abbrev pub valid_text : Option (List ℕ) → Option (List ℕ)
valid_text none = none
valid_text (some s) = if is_empty s || ltb 200 (length s) then none else some s

abbrev pub valid_id : Option Json → Option (List ℕ)
valid_id v = valid_text (text_of v)

abbrev pub mode_text_of : Option (List ℕ) → Option Mode
mode_text_of none = none
mode_text_of (some s) =
    if bytes_eq s (codes "one-shot")
    then some one_shot
    else if bytes_eq s (codes "continuable")
    then some continuable
    else if bytes_eq s (codes "unknown")
    then some unknown
    else none

abbrev pub subagent_address :
    Option (List ℕ) → Option (List ℕ) → Option Mode → Option SessionAddress
subagent_address (some parent) (some child) (some mode) = some (subagent parent child mode)
subagent_address _ _ _ = none

-- The address that the three fields of a subagent make.
abbrev pub subagent_of : Option Json → Option Json → Option Json → Option SessionAddress
subagent_of parent child mode =
    subagent_address (valid_id parent) (valid_id child) (mode_text_of (text_of mode))

abbrev pub session_address : Option (List ℕ) → Option SessionAddress
session_address none = none
session_address (some id) = some (session id)

pub parse_session_address : Option Json → Option SessionAddress
parse_session_address (some (object row)) =
    if text_is (codes "session") (text_of (get_field (codes "kind") row))
    then session_address (valid_id (get_field (codes "sessionId") row))
    else if text_is (codes "subagent") (text_of (get_field (codes "kind") row))
    then subagent_of (get_field (codes "parentSessionId") row)
        (get_field (codes "childSessionId") row) (get_field (codes "mode") row)
    else none
parse_session_address v = none

-- The session that an address is authorised by.
abbrev pub authority : SessionAddress → List ℕ
authority (session id) = id
authority (subagent parent child mode) = parent

unfoldable pub add : List ℕ → List (List ℕ) → List (List ℕ)
add id out = if has_text id out then out else out ++ id ∷ []

abbrev pub add_authority : Option SessionAddress → List (List ℕ) → Option (List (List ℕ))
add_authority none out = none
add_authority (some address) out = some (add (authority address) out)

-- The `address` of an object, where it has one.
abbrev pub visit_address : Option Json → List (List ℕ) → Option (List (List ℕ))
visit_address none out = some out
visit_address (some address) out = add_authority (parse_session_address (some address)) out

abbrev pub add_text : Option (List ℕ) → List (List ℕ) → Option (List (List ℕ))
add_text none out = none
add_text (some id) out = some (add id out)

-- The fields of a subagent that stand in an object itself.
abbrev pub visit_parts :
    Option Json → Option Json → Option Json → List (List ℕ) → Option (List (List ℕ))
visit_parts parent child mode out =
    if is_some parent || is_some child
    then if is_some child || is_some mode
      then add_authority (subagent_of parent child mode) out
      else add_text (text_of parent) out
    else some out

abbrev pub visit_subagent : Fields → List (List ℕ) → Option (List (List ℕ))
visit_subagent row out =
    visit_parts (get_field (codes "parentSessionId") row) (get_field (codes "childSessionId") row)
      (get_field (codes "mode") row) out

pub is_address_key : List ℕ → Bool
is_address_key key =
    bytes_eq key (codes "address")
    || bytes_eq key (codes "parentSessionId")
    || bytes_eq key (codes "childSessionId")
    || bytes_eq key (codes "mode")

pub is_id_key : List ℕ → Bool
is_id_key key =
    bytes_eq key (codes "sessionId")
    || bytes_eq key (codes "agentId")
    || bytes_eq key (codes "workspaceFileScopeId")

abbrev pub then_some {ℓ} : {A : Type ℓ} → Option A → (A → Option A) → Option A
then_some none f = none
then_some (some a) f = f a

-- What an object says of itself, before its other fields are visited.
abbrev pub visit_row : Fields → List (List ℕ) → Option (List (List ℕ))
visit_row row out =
    then_some (visit_address (get_field (codes "address") row) out) (visit_subagent row)

mutual
  pub visit_ids : ℕ → Json → List (List ℕ) → Option (List (List ℕ))
  visit_ids depth (array xs) out =
      if ltb 8 depth then some out else visit_id_items (depth + 1) xs out
  visit_ids depth (object row) out =
      if ltb 8 depth
      then some out
      else then_some (visit_row row out) (λ o. visit_id_fields (depth + 1) row o)
  visit_ids depth v out = some out

  pub visit_id_items : ℕ → Items → List (List ℕ) → Option (List (List ℕ))
  visit_id_items depth nil out = some out
  visit_id_items depth (cons x xs) out =
      then_some (visit_ids depth x out) (λ o. visit_id_items depth xs o)

  pub visit_id_fields : ℕ → Fields → List (List ℕ) → Option (List (List ℕ))
  visit_id_fields depth end out = some out
  visit_id_fields depth (field k v fs) out =
      then_some
        (if is_address_key k
          then some out
          else if is_id_key k
          then add_text (text_of (some v)) out
          else visit_ids depth v out)
        (λ o. visit_id_fields depth fs o)

pub collect_authorized_session_ids : Json → Option (List (List ℕ))
collect_authorized_session_ids value = visit_ids 0 value []

abbrev pub add_some : Option (List ℕ) → List (List ℕ) → List (List ℕ)
add_some none out = out
add_some (some id) out = add id out

abbrev pub add_named : List (List ℕ) → Fields → List (List ℕ) → List (List ℕ)
add_named [] fs out = out
add_named (name ∷ names) fs out = add_named names fs (add_some (text_of (get_field name fs)) out)

abbrev pub session_names : List (List ℕ)
session_names =
    codes "sessionId" ∷ codes "agentId" ∷ codes "parentSessionId" ∷ codes "childSessionId" ∷ []

mutual
  pub collect_ids_below : ℕ → Json → List (List ℕ) → List (List ℕ)
  collect_ids_below depth (array xs) out =
      if ltb 6 depth then out else collect_ids_items (depth + 1) xs out
  collect_ids_below depth (object fs) out =
      if ltb 6 depth
      then out
      else collect_ids_fields (depth + 1) fs (add_named session_names fs out)
  collect_ids_below depth v out = out

  pub collect_ids_items : ℕ → Items → List (List ℕ) → List (List ℕ)
  collect_ids_items depth nil out = out
  collect_ids_items depth (cons x xs) out =
      collect_ids_items depth xs (collect_ids_below depth x out)

  pub collect_ids_fields : ℕ → Fields → List (List ℕ) → List (List ℕ)
  collect_ids_fields depth end out = out
  collect_ids_fields depth (field k v fs) out =
      collect_ids_fields depth fs
        (if bytes_eq k (codes "args") then out else collect_ids_below depth v out)

abbrev pub ids_of : Json → Option Fields → List (List ℕ) → List (List ℕ)
ids_of value none out = collect_ids_below 0 value out
ids_of value (some args) out = collect_ids_below 1 (object args) out

pub collect_session_ids : Json → List (List ℕ) → List (List ℕ)
collect_session_ids value out = ids_of value (client_connection_args value) out

abbrev pub max_archived_session_ids : ℕ
max_archived_session_ids = 10000

-- The state of `replaceArchivedSessionSnapshot`.
pub record Snapshot : Type 0 where
  candidate : List (List ℕ)
  found : Bool
  oversized : Bool

-- An id of one to 200 code units joins the candidate, until there are too many.
abbrev pub take_id : Option (List ℕ) → Snapshot → Snapshot
take_id none st = st
take_id (some id) st =
    let candidate = add id (st.candidate) in
    record {
      candidate = candidate;
      found = st.found;
      oversized = ltb max_archived_session_ids (length candidate);
    }

unfoldable pub take_ids : Items → Snapshot → Snapshot
take_ids nil st = st
take_ids (cons x xs) st = if st.oversized then st else take_ids xs (take_id (valid_id (some x)) st)

abbrev pub take_array : Option Items → Snapshot → Snapshot
take_array none st = st
take_array (some xs) st =
    take_ids xs (record { candidate = st.candidate; found = true; oversized = st.oversized })

abbrev pub take_archived : Fields → Snapshot → Snapshot
take_archived fs st =
    if st.oversized
    then st
    else take_array (items_of (get_field (codes "archivedSessionIds") fs)) st

abbrev pub no_snapshot : Snapshot
no_snapshot = record { candidate = []; found = false; oversized = false }

abbrev pub replace_with : List (List ℕ) → Snapshot → List (List ℕ) × Bool
replace_with target st =
    if not (st.found) || st.oversized then (target, false) else (st.candidate, true)

-- `replaceArchivedSessionSnapshot`: the new members of the target, and whether it was replaced. Where
-- the source returns at once because there are too many, the walk here goes on without a change.
pub replace_archived_session_snapshot : List (List ℕ) → Json → List (List ℕ) × Bool
replace_archived_session_snapshot target value =
    replace_with target (walk 8 take_archived 0 value no_snapshot)

abbrev pub add_texts : Items → List (List ℕ) → List (List ℕ)
add_texts nil out = out
add_texts (cons x xs) out = add_texts xs (add_some (text_of (some x)) out)

abbrev pub add_array : Option Items → List (List ℕ) → List (List ℕ)
add_array none out = out
add_array (some xs) out = add_texts xs out

abbrev pub archived_here : Fields → List (List ℕ) → List (List ℕ)
archived_here fs out = add_array (items_of (get_field (codes "archivedSessionIds") fs)) out

pub collect_archived_session_ids : Json → List (List ℕ) → ℕ → List (List ℕ)
collect_archived_session_ids value out depth = walk 8 archived_here depth value out
