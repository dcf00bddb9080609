-- ===== src/Permissions/Extract.antt =====
-- What src/permissions.ts reads out of a request or a response: the arguments of a recognised
-- `ClientConnection` envelope, the folder or the workspace that a request names, and the maps from
-- identities to folders. A `Map` is its list of pairs in the order of insertion.
use dsh_passwords.Prelude.{
  ℕ, ◌+◌, Bool, true, false, ◌&&◌, ◌||◌, Option, none, some, List, [], ◌∷◌, ltb, if◌then◌else◌,
  bytes_eq, is_some,
}
use dsh_passwords.Text.{codes, is_empty, has_code, has_text, trim}
use dsh_passwords.Json.{
  Json, string, array, object, Items, nil, cons, Fields, end, field, get_field, text_of, some_full,
  record_of, items_of,
}
use dsh_passwords.Permissions.Sandbox.{first_of}

abbrev pub text_is : List ℕ → Option (List ℕ) → Bool
text_is s none = false
text_is s (some t) = bytes_eq t s

abbrev pub has_slash : Option (List ℕ) → Bool
has_slash none = false
has_slash (some s) = has_code b'/' s

abbrev pub record_field : List ℕ → Option Fields → Option Json
record_field name none = none
record_field name (some fs) = get_field name fs

unfoldable pub client_connection_args : Json → Option Fields
client_connection_args (object fs) =
    if text_is (codes "client-request") (text_of (get_field (codes "type") fs))
      && has_slash (text_of (get_field (codes "method") fs))
    then record_of (record_field (codes "args") (record_of (get_field (codes "payload") fs)))
    else none
client_connection_args v = none

-- The first of the named fields that is a text and not empty.
abbrev pub first_field : List (List ℕ) → Fields → Option (List ℕ)
first_field [] fs = none
first_field (name ∷ names) fs =
    first_of (some_full (text_of (get_field name fs))) (first_field names fs)

-- The search below a value, to the depth of six; `legacy` leaves out what stands in `args`.
mutual
  pub search : List (List ℕ) → Bool → ℕ → Json → Option (List ℕ)
  search names legacy depth (array xs) =
      if ltb 6 depth then none else search_items names legacy (depth + 1) xs
  search names legacy depth (object fs) =
      if ltb 6 depth
      then none
      else first_of (first_field names fs) (search_fields names legacy (depth + 1) fs)
  search names legacy depth v = none

  pub search_items : List (List ℕ) → Bool → ℕ → Items → Option (List ℕ)
  search_items names legacy depth nil = none
  search_items names legacy depth (cons x xs) =
      first_of (search names legacy depth x) (search_items names legacy depth xs)

  pub search_fields : List (List ℕ) → Bool → ℕ → Fields → Option (List ℕ)
  search_fields names legacy depth end = none
  search_fields names legacy depth (field k v fs) =
      let found = search names legacy depth v in
      first_of (if legacy && bytes_eq k (codes "args") then none else found)
        (search_fields names legacy depth fs)

-- In an envelope the search is in `args.request`, and without it among the fields of `args`.
abbrev pub in_request : List (List ℕ) → Fields → Option Fields → Option (List ℕ)
in_request names args none = first_field names args
in_request names args (some request) = search names true 1 (object request)

abbrev pub in_envelope : List (List ℕ) → Json → Option Fields → Option (List ℕ)
in_envelope names value none = search names true 0 value
in_envelope names value (some args) =
    in_request names args (record_of (get_field (codes "request") args))

pub extract_workspace_id : Json → Option (List ℕ)
extract_workspace_id value =
    in_envelope (codes "workspaceId" ∷ []) value (client_connection_args value)

pub extract_session_id : Json → Option (List ℕ)
extract_session_id value = search (codes "sessionId" ∷ []) false 0 value

abbrev pub path_fields : List (List ℕ)
path_fields =
    codes "cwd"
    ∷ codes "path"
    ∷ codes "directory"
    ∷ codes "dir"
    ∷ codes "folder"
    ∷ codes "workspace"
    ∷ codes "root"
    ∷ codes "workspacePath"
    ∷ codes "absolutePath"
    ∷ codes "target"
    ∷ codes "targetPath"
    ∷ []

pub extract_path_from_body : Json → Option (List ℕ)
extract_path_from_body value = in_envelope path_fields value (client_connection_args value)

abbrev pub directory_path : Json → Option Fields → Option (List ℕ)
directory_path value none = extract_path_from_body value
directory_path value (some args) = some_full (text_of (get_field (codes "path") args))

pub extract_directory_create_path : Json → Option (List ℕ)
extract_directory_create_path value = directory_path value (client_connection_args value)

abbrev pub workspace_path : Json → Option Fields → Option (List ℕ)
workspace_path value none = extract_path_from_body value
workspace_path value (some args) =
    some_full (text_of (record_field (codes "path") (record_of (get_field (codes "request") args))))

pub extract_workspace_create_path : Json → Option (List ℕ)
extract_workspace_create_path value = workspace_path value (client_connection_args value)

-- `out.set(key, value)` and `out.has(key)`.
abbrev pub Pairs : Type 0
Pairs = List (List ℕ × List ℕ)

abbrev pub set_key : List ℕ → List ℕ → Pairs → Pairs
set_key key value [] = (key, value) ∷ []
set_key key value ((k, v) ∷ out) =
    let rest = set_key key value out in if bytes_eq k key then (k, value) ∷ out else (k, v) ∷ rest

abbrev pub has_key : List ℕ → Pairs → Bool
has_key key [] = false
has_key key ((k, v) ∷ out) = bytes_eq k key || has_key key out

-- A walk over the objects of a value to the depth `limit`, an object before what is below it.
unfoldable mutual
  pub walk : {S : Type 0} → ℕ → (Fields → S → S) → ℕ → Json → S → S
  walk limit visit depth (array xs) out =
      if ltb limit depth then out else walk_items limit visit (depth + 1) xs out
  walk limit visit depth (object fs) out =
      if ltb limit depth then out else walk_fields limit visit (depth + 1) fs (visit fs out)
  walk limit visit depth v out = out

  pub walk_items : {S : Type 0} → ℕ → (Fields → S → S) → ℕ → Items → S → S
  walk_items limit visit depth nil out = out
  walk_items limit visit depth (cons x xs) out =
      walk_items limit visit depth xs (walk limit visit depth x out)

  pub walk_fields : {S : Type 0} → ℕ → (Fields → S → S) → ℕ → Fields → S → S
  walk_fields limit visit depth end out = out
  walk_fields limit visit depth (field k v fs) out =
      walk_fields limit visit depth fs (walk limit visit depth v out)

abbrev pub set_pair : Option (List ℕ) → Option (List ℕ) → Pairs → Pairs
set_pair (some key) (some value) out = set_key key value out
set_pair _ _ out = out

abbrev pub workspace_pair : Fields → Pairs → Pairs
workspace_pair fs out =
    set_pair
      (first_of (text_of (get_field (codes "workspaceId") fs))
        (text_of (get_field (codes "id") fs)))
      (text_of (get_field (codes "path") fs)) out

pub collect_id_path_pairs : Json → Pairs → ℕ → Pairs
collect_id_path_pairs value out depth = walk 8 workspace_pair depth value out

abbrev pub session_pair : Fields → Pairs → Pairs
session_pair fs out =
    set_pair (text_of (get_field (codes "sessionId") fs))
      (some_full (text_of (get_field (codes "cwd") fs))) out

pub collect_session_cwd : Json → Pairs → ℕ → Pairs
collect_session_cwd value out depth = walk 8 session_pair depth value out

-- Each session of a workspace that has no folder yet gets the workspace's.
abbrev pub set_missing : List ℕ → Items → Pairs → Pairs
set_missing path nil out = out
set_missing path (cons (string s) xs) out =
    set_missing path xs (if has_key s out then out else set_key s path out)
set_missing path (cons _ xs) out = set_missing path xs out

abbrev pub set_sessions : Option (List ℕ) → Option Items → Pairs → Pairs
set_sessions (some path) (some xs) out = set_missing path xs out
set_sessions _ _ out = out

abbrev pub workspace_sessions : Fields → Pairs → Pairs
workspace_sessions fs out =
    set_sessions (text_of (get_field (codes "path") fs))
      (items_of (get_field (codes "sessionIds") fs)) out

pub collect_session_cwd_from_workspaces : Json → Pairs → ℕ → Pairs
collect_session_cwd_from_workspaces value out depth = walk 8 workspace_sessions depth value out

-- The two paths of a rename, as far as they are found.
pub record RenamePaths : Type 0 where
  old_path : Option (List ℕ)
  new_path : Option (List ℕ)

abbrev pub old_keys : List (List ℕ)
old_keys = codes "oldPath" ∷ codes "previousPath" ∷ codes "sourcePath" ∷ codes "fromPath" ∷ []

abbrev pub new_keys : List (List ℕ)
new_keys = codes "newPath" ∷ codes "targetPath" ∷ codes "destinationPath" ∷ codes "toPath" ∷ []

abbrev pub take_path : List (List ℕ) → List ℕ → List ℕ → Option (List ℕ) → Option (List ℕ)
take_path keys key item (some path) = some path
take_path keys key item none = if has_text key keys then some item else none

abbrev pub take_paths : List ℕ → Json → RenamePaths → RenamePaths
take_paths key (string s) out = if is_empty (trim s) then out else record {
  old_path = take_path old_keys key s (out.old_path);
  new_path = take_path new_keys key s (out.new_path);
}
take_paths key v out = out

abbrev pub is_done : RenamePaths → Bool
is_done out = is_some (out.old_path) && is_some (out.new_path)

mutual
  pub visit_rename : ℕ → Json → RenamePaths → RenamePaths
  visit_rename depth (array xs) out =
      if ltb 6 depth || is_done out then out else visit_rename_items (depth + 1) xs out
  visit_rename depth (object fs) out =
      if ltb 6 depth || is_done out then out else visit_rename_fields (depth + 1) fs out
  visit_rename depth v out = out

  pub visit_rename_items : ℕ → Items → RenamePaths → RenamePaths
  visit_rename_items depth nil out = out
  visit_rename_items depth (cons x xs) out = visit_rename_items depth xs (visit_rename depth x out)

  pub visit_rename_fields : ℕ → Fields → RenamePaths → RenamePaths
  visit_rename_fields depth end out = out
  visit_rename_fields depth (field k v fs) out =
      visit_rename_fields depth fs (visit_rename depth v (take_paths k v out))

abbrev pub both_paths : Option (List ℕ) → Option (List ℕ) → Option (List ℕ × List ℕ)
both_paths (some old) (some new) = some (old, new)
both_paths _ _ = none

pub extract_workspace_rename_paths : Json → Option (List ℕ × List ℕ)
extract_workspace_rename_paths value =
    let out = visit_rename 0 value (record { old_path = none; new_path = none }) in
    both_paths (out.old_path) (out.new_path)
