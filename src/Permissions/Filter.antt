-- ===== src/Permissions/Filter.antt =====
-- The response filters of src/permissions.ts, which take away what a sub-user may not see:
-- `filterByPathFieldWithPredicate`, `filterSessionItems`, `filterSessionSearchItems`,
-- `filterArchivedSessionIds` and `filterOwnedSessionIds`. A filter that changes its argument gives
-- the changed value here, and `archived_changed` is the Boolean that the source returns with it.
pub mod Clean
pub mod Copy
pub mod Tests
pub mod Owned
pub mod Archived
use dsh_passwords.Prelude.{
  ℕ, ◌+◌, Bool, true, false, not, ◌&&◌, ◌||◌, Option, none, some, List, [], ◌∷◌, ltb, if◌then◌else◌,
  bytes_eq, is_some,
}
use dsh_passwords.Text.{codes, is_empty}
use dsh_passwords.Json.{
  Json, null, boolean, number, other_number, string, array, object, Items, nil, cons, Fields, end,
  field, get, get_field, text_field, full_field, set_new, filter_texts, is_array,
}
use dsh_passwords.Permissions.Folders.{folder_allowed}

-- A copy without the array items that `hidden` says, and `null` below the depth `limit`.
mutual
  pub filter_copy : ℕ → (Json → Bool) → ℕ → Json → Json
  filter_copy limit hidden depth (array xs) =
      if ltb limit depth then null else array (filter_copy_items limit hidden (depth + 1) xs)
  filter_copy limit hidden depth (object fs) =
      if ltb limit depth then null else object (filter_copy_fields limit hidden (depth + 1) fs)
  filter_copy limit hidden depth v = if ltb limit depth then null else v

  pub filter_copy_items : ℕ → (Json → Bool) → ℕ → Items → Items
  filter_copy_items limit hidden depth nil = nil
  filter_copy_items limit hidden depth (cons x xs) =
      let rest = filter_copy_items limit hidden depth xs in
      if hidden x then rest else cons (filter_copy limit hidden depth x) rest

  pub filter_copy_fields : ℕ → (Json → Bool) → ℕ → Fields → Fields
  filter_copy_fields limit hidden depth end = end
  filter_copy_fields limit hidden depth (field k v fs) =
      set_new k (filter_copy limit hidden depth v) (filter_copy_fields limit hidden depth fs)

abbrev pub fails : (List ℕ → Bool) → Option (List ℕ) → Bool
fails allowed none = false
fails allowed (some s) = not (allowed s)

-- An item with a path that is not allowed.
abbrev pub is_hidden_path : List ℕ → (List ℕ → Bool) → Json → Bool
is_hidden_path name allowed item = fails allowed (full_field name item)

pub filter_by_path_field_with_predicate : Json → List ℕ → (List ℕ → Bool) → ℕ → Json
filter_by_path_field_with_predicate value name allowed depth =
    filter_copy 8 (is_hidden_path name allowed) depth value

pub filter_by_path_field : Json → List (List ℕ) → List ℕ → ℕ → Json
filter_by_path_field value folders name depth =
    filter_by_path_field_with_predicate value name (λ c. folder_allowed c folders) depth

abbrev pub cwd_fails : Option (List ℕ → Bool) → Option (List ℕ) → Bool
cwd_fails none cwd = false
cwd_fails (some allowed) none = true
cwd_fails (some allowed) (some cwd) = not (allowed cwd)

abbrev pub is_hidden_with :
    (List ℕ → Bool) → Option (List ℕ → Bool) → Option (List ℕ) → Option (List ℕ) → Bool
is_hidden_with keep cwd_allowed none cwd = false
is_hidden_with keep cwd_allowed (some id) cwd = not (keep id) || cwd_fails cwd_allowed cwd

-- An item with a session that is not kept, or whose folder is not allowed.
abbrev pub is_hidden_session : (List ℕ → Bool) → Option (List ℕ → Bool) → Json → Bool
is_hidden_session keep cwd_allowed item =
    is_hidden_with keep cwd_allowed (full_field (codes "sessionId") item)
      (full_field (codes "cwd") item)

pub filter_session_items : Json → (List ℕ → Bool) → Option (List ℕ → Bool) → ℕ → Json
filter_session_items value keep cwd_allowed depth =
    filter_copy 16 (is_hidden_session keep cwd_allowed) depth value

abbrev pub is_kept : (List ℕ → Bool) → Option (List ℕ) → Bool
is_kept keep none = false
is_kept keep (some id) = keep id

pub filter_search : (List ℕ → Bool) → Items → Items
filter_search keep nil = nil
filter_search keep (cons x xs) =
    let rest = filter_search keep xs in
    if is_kept keep (full_field (codes "sessionId") x) then cons x rest else rest

pub filter_session_search_items : (List ℕ → Bool) → Json → Option Items
filter_session_search_items keep (array xs) = some (filter_search keep xs)
filter_session_search_items keep _ = none

-- Whether filtering leaves the array as it is: each item is a text that is kept.
pub all_kept : (List ℕ → Bool) → Items → Bool
all_kept keep nil = true
all_kept keep (cons (string s) xs) = keep s && all_kept keep xs
all_kept keep (cons _ xs) = false

abbrev pub keep_archived : (List ℕ → Bool) → List ℕ → Json → Json
keep_archived keep k (array xs) =
    if bytes_eq k (codes "archivedSessionIds") then array (filter_texts keep xs) else array xs
keep_archived keep k v = v

-- `filterArchivedSessionIds`, by the field's array after the walk below it, which changes no text.
mutual
  pub filter_archived : (List ℕ → Bool) → ℕ → Json → Json
  filter_archived keep depth (array xs) =
      if ltb 8 depth then array xs else array (filter_archived_items keep (depth + 1) xs)
  filter_archived keep depth (object fs) =
      if ltb 8 depth then object fs else object (filter_archived_fields keep (depth + 1) fs)
  filter_archived keep depth v = v

  pub filter_archived_items : (List ℕ → Bool) → ℕ → Items → Items
  filter_archived_items keep depth nil = nil
  filter_archived_items keep depth (cons x xs) =
      cons (filter_archived keep depth x) (filter_archived_items keep depth xs)

  pub filter_archived_fields : (List ℕ → Bool) → ℕ → Fields → Fields
  filter_archived_fields keep depth end = end
  filter_archived_fields keep depth (field k v fs) =
      field k (keep_archived keep k (filter_archived keep depth v))
        (filter_archived_fields keep depth fs)

abbrev pub archived_changes : (List ℕ → Bool) → List ℕ → Json → Bool
archived_changes keep k (array xs) =
    bytes_eq k (codes "archivedSessionIds") && not (all_kept keep xs)
archived_changes keep k v = false

mutual
  pub archived_changed : (List ℕ → Bool) → ℕ → Json → Bool
  archived_changed keep depth (array xs) =
      if ltb 8 depth then false else archived_changed_items keep (depth + 1) xs
  archived_changed keep depth (object fs) =
      if ltb 8 depth then false else archived_changed_fields keep (depth + 1) fs
  archived_changed keep depth v = false

  pub archived_changed_items : (List ℕ → Bool) → ℕ → Items → Bool
  archived_changed_items keep depth nil = false
  archived_changed_items keep depth (cons x xs) =
      archived_changed keep depth x || archived_changed_items keep depth xs

  pub archived_changed_fields : (List ℕ → Bool) → ℕ → Fields → Bool
  archived_changed_fields keep depth end = false
  archived_changed_fields keep depth (field k v fs) =
      archived_changes keep k v
      || archived_changed keep depth v
      || archived_changed_fields keep depth fs

pub strip_archived_session_ids : ℕ → Json → Json
strip_archived_session_ids depth v = filter_archived (λ id. false) depth v

abbrev pub is_deleted : List ℕ → Bool
is_deleted k =
    bytes_eq k (codes "sessionId")
    || bytes_eq k (codes "sessionIds")
    || bytes_eq k (codes "cwd")
    || bytes_eq k (codes "path")

pub delete_fields : Fields → Fields
delete_fields end = end
delete_fields (field k v fs) =
    let rest = delete_fields fs in if is_deleted k then rest else field k v rest

abbrev pub keep_owned : (List ℕ → Bool) → List ℕ → Json → Json
keep_owned keep k (array xs) =
    if bytes_eq k (codes "sessionIds") then array (filter_texts keep xs) else array xs
keep_owned keep k v = v

-- `filterOwnedSessionIds`, by the field's array after the walk below it, which changes no text and
-- empties an array below the depth.
mutual
  pub filter_owned : (List ℕ → Bool) → ℕ → Json → Json
  filter_owned keep depth (array xs) =
      if ltb 8 depth then array nil else array (filter_owned_items keep (depth + 1) xs)
  filter_owned keep depth (object fs) =
      if ltb 8 depth
      then object (delete_fields fs)
      else object (filter_owned_fields keep (depth + 1) fs)
  filter_owned keep depth v = v

  pub filter_owned_items : (List ℕ → Bool) → ℕ → Items → Items
  filter_owned_items keep depth nil = nil
  filter_owned_items keep depth (cons x xs) =
      cons (filter_owned keep depth x) (filter_owned_items keep depth xs)

  pub filter_owned_fields : (List ℕ → Bool) → ℕ → Fields → Fields
  filter_owned_fields keep depth end = end
  filter_owned_fields keep depth (field k v fs) =
      field k (keep_owned keep k (filter_owned keep depth v)) (filter_owned_fields keep depth fs)
