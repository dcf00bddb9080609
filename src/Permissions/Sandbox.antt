-- ===== src/Permissions/Sandbox.antt =====
-- The sandbox levels in src/permissions.ts: `SANDBOX_RANK`, the presets that a request asks for, and
-- the two functions that take a level back, `forceRejectApproval` and `clampSessionHistorySandbox`.
-- These change their argument; the changed value is given here. What they write is a text in the
-- place of a text, so it is the same before and after the walk below the object.
pub mod Levels
pub mod Clamp
pub mod Reject
pub mod Tests
use dsh_passwords.Prelude.{
  ℕ, zero, suc, ◌+◌, Bool, true, false, not, ◌&&◌, ◌||◌, Option, none, some, List, [], ◌∷◌, ◌==◌,
  ltb, leb, if◌then◌else◌, bytes_eq, is_some,
}
use dsh_passwords.Text.{
  codes, is_empty, is_digit, is_space, trim, strip_prefix, has_text, take_run, drop_run,
}
use dsh_passwords.Json.{
  Json, null, boolean, number, other_number, string, array, object, Items, nil, cons, Fields, end,
  field, get, get_field, text_of, text_field, full_field, some_full, items_of,
}

pub data SandboxMode : Type 0 where
  read_only workspace_write danger_full_access : SandboxMode

abbrev pub mode_text : SandboxMode → List ℕ
mode_text read_only = codes "read-only"
mode_text workspace_write = codes "workspace-write"
mode_text danger_full_access = codes "danger-full-access"

abbrev pub mode_rank : SandboxMode → ℕ
mode_rank read_only = 0
mode_rank workspace_write = 1
mode_rank danger_full_access = 2

-- `SANDBOX_RANK[preset]` for its own names.
pub sandbox_rank : List ℕ → Option ℕ
sandbox_rank s =
    if bytes_eq s (codes "read-only")
    then some 0
    else if bytes_eq s (codes "workspace-write")
    then some 1
    else if bytes_eq s (codes "danger-full-access")
    then some 2
    else none

-- The names that `SANDBOX_RANK` inherits from `Object.prototype`.
abbrev pub inherited_names : List (List ℕ)
inherited_names =
    codes "constructor"
    ∷ codes "__defineGetter__"
    ∷ codes "__defineSetter__"
    ∷ codes "hasOwnProperty"
    ∷ codes "__lookupGetter__"
    ∷ codes "__lookupSetter__"
    ∷ codes "isPrototypeOf"
    ∷ codes "propertyIsEnumerable"
    ∷ codes "toString"
    ∷ codes "valueOf"
    ∷ codes "__proto__"
    ∷ codes "toLocaleString"
    ∷ []

abbrev pub rank_or : Bool → Option ℕ → Option ℕ
rank_or inherited (some n) = some n
rank_or true none = none
rank_or false none = some 2

-- `sandboxPresetRank`; `none` is the function or the object that an inherited name gives.
pub sandbox_preset_rank : List ℕ → Option ℕ
sandbox_preset_rank preset = rank_or (has_text preset inherited_names) (sandbox_rank preset)

-- `rank > assigned` in the gateway, which is false for what is no number.
abbrev pub exceeds : Option ℕ → ℕ → Bool
exceeds none assigned = false
exceeds (some n) assigned = ltb assigned n

abbrev pub first_of {ℓ} : {A : Type ℓ} → Option A → Option A → Option A
first_of none b = b
first_of (some a) b = some a

mutual
  pub find_string_field : List ℕ → ℕ → Json → Option (List ℕ)
  find_string_field name depth (array xs) =
      if ltb 6 depth then none else find_string_items name (depth + 1) xs
  find_string_field name depth (object fs) =
      if ltb 6 depth
      then none
      else first_of (some_full (text_of (get_field name fs)))
          (find_string_fields name (depth + 1) fs)
  find_string_field name depth v = none

  pub find_string_items : List ℕ → ℕ → Items → Option (List ℕ)
  find_string_items name depth nil = none
  find_string_items name depth (cons x xs) =
      first_of (find_string_field name depth x) (find_string_items name depth xs)

  pub find_string_fields : List ℕ → ℕ → Fields → Option (List ℕ)
  find_string_fields name depth end = none
  find_string_fields name depth (field k v fs) =
      first_of (find_string_field name depth v) (find_string_fields name depth fs)

abbrev pub is_preset_code : ℕ → Bool
is_preset_code c =
    (leb b'A' c && leb c b'Z') || (leb b'a' c && leb c b'z') || is_digit c || c == b'_' || c == b'-'

abbrev pub preset_behind : Option (List ℕ) → Option (List ℕ)
preset_behind none = none
preset_behind (some []) = none
preset_behind (some (c ∷ s)) =
    if is_space c then some_full (some (take_run is_preset_code (drop_run is_space s))) else none

pub permission_preset_from_command : List ℕ → Option (List ℕ)
permission_preset_from_command line = preset_behind (strip_prefix (codes "/permission") (trim line))

-- `path.includes('defaultPreset')`.
abbrev pub has_item : List ℕ → Items → Bool
has_item s nil = false
has_item s (cons (string t) xs) = bytes_eq t s || has_item s xs
has_item s (cons _ xs) = has_item s xs

abbrev pub names_default_preset : Option Items → Bool
names_default_preset none = false
names_default_preset (some xs) = has_item (codes "defaultPreset") xs

abbrev pub preset_here : Fields → Option (List ℕ)
preset_here fs =
    if names_default_preset (items_of (get_field (codes "path") fs))
    then some_full (text_of (get_field (codes "value") fs))
    else none

mutual
  pub preset_from_settings_mutate : ℕ → Json → Option (List ℕ)
  preset_from_settings_mutate depth (array xs) =
      if ltb 6 depth then none else preset_from_items (depth + 1) xs
  preset_from_settings_mutate depth (object fs) =
      if ltb 6 depth then none else first_of (preset_here fs) (preset_from_fields (depth + 1) fs)
  preset_from_settings_mutate depth v = none

  pub preset_from_items : ℕ → Items → Option (List ℕ)
  preset_from_items depth nil = none
  preset_from_items depth (cons x xs) =
      first_of (preset_from_settings_mutate depth x) (preset_from_items depth xs)

  pub preset_from_fields : ℕ → Fields → Option (List ℕ)
  preset_from_fields depth end = none
  preset_from_fields depth (field k v fs) =
      first_of (preset_from_settings_mutate depth v) (preset_from_fields depth fs)

-- An object with a text `approvalId` and a text `outcome`.
abbrev pub is_approval : Fields → Bool
is_approval fs =
    is_some (text_of (get_field (codes "approvalId") fs))
    && is_some (text_of (get_field (codes "outcome") fs))

pub set_outcome : Fields → Fields
set_outcome end = end
set_outcome (field k v fs) =
    let rest = set_outcome fs in
    if bytes_eq k (codes "outcome") then field k (string (codes "rejected")) fs else field k v rest

mutual
  pub force_reject_approval : ℕ → Json → Json
  force_reject_approval depth (array xs) =
      if ltb 6 depth then array xs else array (force_reject_items (depth + 1) xs)
  force_reject_approval depth (object fs) =
      if ltb 6 depth
      then object fs
      else object (
          if is_approval fs
          then set_outcome (force_reject_fields (depth + 1) fs)
          else force_reject_fields (depth + 1) fs)
  force_reject_approval depth v = v

  pub force_reject_items : ℕ → Items → Items
  force_reject_items depth nil = nil
  force_reject_items depth (cons x xs) =
      cons (force_reject_approval depth x) (force_reject_items depth xs)

  pub force_reject_fields : ℕ → Fields → Fields
  force_reject_fields depth end = end
  force_reject_fields depth (field k v fs) =
      field k (force_reject_approval depth v) (force_reject_fields depth fs)

pub data Event : Type 0 where
  preset_event mode_event other_event : Event

pub event_of : Option (List ℕ) → Event
event_of none = other_event
event_of (some s) =
    if bytes_eq s (codes "permission/preset")
    then preset_event
    else if bytes_eq s (codes "sandbox/mode")
    then mode_event
    else other_event

-- A level above the allowed one becomes the allowed one.
abbrev pub clamp_rank : SandboxMode → List ℕ → Option ℕ → List ℕ
clamp_rank allowed s none = s
clamp_rank allowed s (some n) = if ltb (mode_rank allowed) n then mode_text allowed else s

pub clamp_text : SandboxMode → List ℕ → List ℕ
clamp_text allowed s = clamp_rank allowed s (sandbox_rank s)

abbrev pub clamp_string : SandboxMode → Json → Json
clamp_string allowed (string s) = string (clamp_text allowed s)
clamp_string allowed v = v

pub clamp_named : SandboxMode → List ℕ → Fields → Fields
clamp_named allowed name end = end
clamp_named allowed name (field k v fs) =
    let rest = clamp_named allowed name fs in
    if bytes_eq k name then field k (clamp_string allowed v) fs else field k v rest

-- What the event's kind says of its `data`.
abbrev pub clamp_data : SandboxMode → Event → Json → Json
clamp_data allowed preset_event (object fs) = object (clamp_named allowed (codes "preset") fs)
clamp_data allowed mode_event (object fs) = object (clamp_named allowed (codes "mode") fs)
clamp_data allowed _ v = v

pub clamp_child : SandboxMode → Event → List ℕ → Json → Json
clamp_child allowed e k v =
    if bytes_eq k (codes "data")
    then clamp_data allowed e v
    else if bytes_eq k (codes "currentValue")
    then clamp_string allowed v
    else v

mutual
  pub clamp_to : SandboxMode → ℕ → Json → Json
  clamp_to allowed depth (array xs) =
      if ltb 8 depth then array xs else array (clamp_items allowed (depth + 1) xs)
  clamp_to allowed depth (object fs) =
      if ltb 8 depth
      then object fs
      else object
          (clamp_fields allowed (event_of (text_of (get_field (codes "type") fs))) (depth + 1) fs)
  clamp_to allowed depth v = v

  pub clamp_items : SandboxMode → ℕ → Items → Items
  clamp_items allowed depth nil = nil
  clamp_items allowed depth (cons x xs) =
      cons (clamp_to allowed depth x) (clamp_items allowed depth xs)

  pub clamp_fields : SandboxMode → Event → ℕ → Fields → Fields
  clamp_fields allowed e depth end = end
  clamp_fields allowed e depth (field k v fs) =
      field k (clamp_child allowed e k (clamp_to allowed depth v)) (clamp_fields allowed e depth fs)

pub clamp_session_history_sandbox : Option SandboxMode → Json → Json
clamp_session_history_sandbox none v = v
clamp_session_history_sandbox (some allowed) v = clamp_to allowed 0 v
