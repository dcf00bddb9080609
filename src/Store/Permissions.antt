-- ===== src/Store/Permissions.antt =====
-- `setPermissions` of src/db.ts. It runs without an `await`: the row that is read before the
-- transaction is the row in it. What a caller leaves out is `none`.
use dsh_passwords.Prelude.{
  ℕ, ◌==◌, leb, Bool, true, false, not, ◌&&◌, Option, none, some, List, [], ◌∷◌, take, length,
  if◌then◌else◌, bytes_eq,
}
use dsh_passwords.Text.{cut, is_empty, is_space, all_codes}
use dsh_passwords.Store.{
  Column, absent, column_of, parse_json_array, sanitize_allowed_folders, distinct, session_ids,
  normalize_session_id_set, sort_texts, same_string_set, PermissionRow, Store, delete_user_rows,
  insert_all, texts_of_user,
}
use dsh_passwords.Store.Reading.{Permissions, known_sandbox, or_empty, find_row, get_permissions}

-- The argument of `setPermissions`.
pub record Request : Type 0 where
  pub allowed_folders : List (List ℕ)
  pub hourly_token_limit : Option ℕ
  pub daily_minutes_limit : Option ℕ
  pub allow_upload : Bool
  pub allow_git_download : Bool
  pub allow_workspace_create : Bool
  pub allow_ssh : Option Bool
  pub allowed_agent_presets : Option (Option (List (List ℕ)))
  pub allowed_models : Option (Option (List (List ℕ)))
  pub allow_chat_media : Option Bool
  pub banned : Bool
  pub sandbox_mode : Option (Option (List ℕ))
  pub disabled_sessions : Option (List (List ℕ))
  pub expected_disabled_sessions : Option (List (List ℕ))
  pub allowed_session_ids : Option (List (List ℕ))
  pub session_grants_seeded : Option Bool
  pub expected_allowed_session_ids : Option (List (List ℕ))
  pub expected_permission_state : Option (Option Permissions)

pub data Scope : Type 0 where
  allowed_session_grants disabled_sessions_scope : Scope

-- The two errors; the second one has the live set and the expected one.
pub data Conflict : Type 0 where
  permission_state_conflict : Conflict
  session_grants_conflict : Scope → List (List ℕ) → List (List ℕ) → Conflict

pub data Saved : Type 0 where
  saved : Store → Saved
  refused : Conflict → Saved

-- The comparisons of `permissionState`.
abbrev pub same_bool : Bool → Bool → Bool
same_bool true b = b
same_bool false b = not b

abbrev pub same_number : Option ℕ → Option ℕ → Bool
same_number none none = true
same_number (some a) (some b) = a == b
same_number _ _ = false

abbrev pub same_text : Option (List ℕ) → Option (List ℕ) → Bool
same_text none none = true
same_text (some a) (some b) = bytes_eq a b
same_text _ _ = false

abbrev pub same_texts : List (List ℕ) → List (List ℕ) → Bool
same_texts [] [] = true
same_texts (x ∷ xs) (y ∷ ys) = bytes_eq x y && same_texts xs ys
same_texts _ _ = false

abbrev pub same_names : Option (List (List ℕ)) → Option (List (List ℕ)) → Bool
same_names none none = true
same_names (some a) (some b) = same_texts a b
same_names _ _ = false

abbrev pub same_row : Permissions → Permissions → Bool
same_row a b =
    same_texts a.allowed_folders b.allowed_folders
    && same_number a.hourly_token_limit b.hourly_token_limit
    && same_number a.daily_minutes_limit b.daily_minutes_limit
    && same_bool a.allow_upload b.allow_upload
    && same_bool a.allow_git_download b.allow_git_download
    && same_bool a.allow_workspace_create b.allow_workspace_create
    && same_bool a.allow_ssh b.allow_ssh
    && same_names a.allowed_agent_presets b.allowed_agent_presets
    && same_names a.allowed_models b.allowed_models
    && same_bool a.allow_chat_media b.allow_chat_media
    && same_bool a.banned b.banned
    && same_text a.sandbox_mode b.sandbox_mode

pub same_permission_state : Option Permissions → Option Permissions → Bool
same_permission_state none none = true
same_permission_state (some a) (some b) = same_row a b
same_permission_state _ _ = false

-- `[...new Set(ids.filter(…))].slice(0, n)`.
abbrev pub kept_names : (List ℕ → Bool) → List (List ℕ) → List (List ℕ)
kept_names test [] = []
kept_names test (x ∷ xs) = let rest = kept_names test xs in if test x then x ∷ rest else rest

-- `/^[^/\s]{1,100}\/[^\s]{1,200}$/`, split at the first slash.
abbrev pub is_part : ℕ → List ℕ → Bool
is_part n s = not (is_empty s) && leb (length s) n && all_codes (λ c. not (is_space c)) s

abbrev pub are_model_parts : Option (List ℕ × List ℕ) → Bool
are_model_parts none = false
are_model_parts (some (provider, model)) = is_part 100 provider && is_part 200 model

abbrev pub is_model_name : List ℕ → Bool
is_model_name id = are_model_parts (cut b'/' id)

abbrev pub column_of_names : Option (List (List ℕ)) → Column
column_of_names none = absent
column_of_names (some l) = column_of l

-- `value ?? current?.field ?? default`, and the same where NULL is a value.
abbrev pub given_or {ℓ} : {A : Type ℓ} → Option A → Option A → A → A
given_or (some a) c d = a
given_or none (some a) d = a
given_or none none d = d

abbrev pub field_of {ℓ} : {A : Type ℓ} → (Permissions → A) → Option Permissions → Option A
field_of f none = none
field_of f (some p) = some (f p)

abbrev pub cleaned_names {ℓ} : {A : Type ℓ} → (A → A) → Option (Option A) → Option (Option A)
cleaned_names f none = none
cleaned_names f (some none) = some none
cleaned_names f (some (some l)) = some (some (f l))

-- `listUserSessionGrants`, sorted by code units.
unfoldable pub list_user_session_grants : ℕ → Store → List (List ℕ)
list_user_session_grants u s = sort_texts (texts_of_user u s.grants)

-- `readDisabledSessionsInTransaction`.
unfoldable pub read_disabled_sessions : ℕ → Store → List (List ℕ)
read_disabled_sessions u s = sort_texts (
    normalize_session_id_set (elim (find_row u s.permissions) [
      | none ↦ []
      | some r ↦ or_empty (parse_json_array r.disabled_sessions)
    ]))

abbrev pub state_conflict : ℕ → Option (Option Permissions) → Store → Option Conflict
state_conflict u none s = none
state_conflict u (some expected) s =
    if same_permission_state (get_permissions u s) expected
    then none
    else some permission_state_conflict

abbrev pub disabled_conflict : ℕ → Option (List (List ℕ)) → Store → Option Conflict
disabled_conflict u none s = none
disabled_conflict u (some expected) s =
    let wanted = sort_texts (normalize_session_id_set expected) in
    let live = read_disabled_sessions u s in
    if same_string_set live wanted
    then none
    else some (session_grants_conflict disabled_sessions_scope live wanted)

-- The expected grants count only where grants are written.
abbrev pub grants_conflict :
    ℕ → Option (List (List ℕ)) → Option (List (List ℕ)) → Store → Option Conflict
grants_conflict u (some ids) (some expected) s =
    let wanted = normalize_session_id_set expected in
    let live = list_user_session_grants u s in
    if same_string_set live wanted
    then none
    else some (session_grants_conflict allowed_session_grants live wanted)
grants_conflict u _ _ s = none

abbrev pub or_else : Option Conflict → Option Conflict → Option Conflict
or_else none b = b
or_else (some c) b = some c

unfoldable pub conflict_of : ℕ → Request → Store → Option Conflict
conflict_of u p s = or_else (state_conflict u p.expected_permission_state s) (
    or_else (disabled_conflict u p.expected_disabled_sessions s)
      (grants_conflict u p.allowed_session_ids p.expected_allowed_session_ids s))

-- The disabled sessions that are written: those of the caller, else the live ones.
abbrev pub disabled_to_write :
    ℕ → Option (List (List ℕ)) → Option (List (List ℕ)) → Store → List (List ℕ)
disabled_to_write u (some ids) expected s = normalize_session_id_set ids
disabled_to_write u none (some expected) s = read_disabled_sessions u s
disabled_to_write u none none s =
    normalize_session_id_set
      (given_or none (field_of (λ c. c.disabled_sessions) (get_permissions u s)) [])

abbrev pub row_to_write : ℕ → Request → Store → PermissionRow
row_to_write u p s =
    let current = get_permissions u s in
    record {
      user_id = u;
      allowed_folders = column_of (sanitize_allowed_folders p.allowed_folders);
      hourly_token_limit = p.hourly_token_limit;
      daily_minutes_limit = p.daily_minutes_limit;
      allow_upload = p.allow_upload;
      allow_git_download = p.allow_git_download;
      allow_workspace_create = p.allow_workspace_create;
      allow_ssh = given_or p.allow_ssh (field_of (λ c. c.allow_ssh) current) false;
      allowed_agent_presets = column_of_names (
          given_or
            (cleaned_names (λ l. take 256 (distinct (session_ids l))) p.allowed_agent_presets)
            (field_of (λ c. c.allowed_agent_presets) current) none);
      allowed_models = column_of_names (
          given_or
            (cleaned_names (λ l. take 512 (distinct (kept_names is_model_name l))) p.allowed_models)
            (field_of (λ c. c.allowed_models) current) none);
      allow_chat_media =
          given_or p.allow_chat_media (field_of (λ c. c.allow_chat_media) current) false;
      banned = p.banned;
      sandbox_mode =
          known_sandbox (given_or p.sandbox_mode (field_of (λ c. c.sandbox_mode) current) none);
      disabled_sessions =
          column_of (disabled_to_write u p.disabled_sessions p.expected_disabled_sessions s);
      session_grants_seeded = false;
    }

-- `INSERT … ON CONFLICT(user_id) DO UPDATE`, which leaves `session_grants_seeded`.
unfoldable pub put_row : PermissionRow → List PermissionRow → List PermissionRow
put_row r [] = r ∷ []
put_row r (x ∷ l) =
    let rest = put_row r l in
    if x.user_id == r.user_id
    then record r { session_grants_seeded = x.session_grants_seeded } ∷ l
    else x ∷ rest

-- `UPDATE user_permissions SET … WHERE user_id = ?`.
unfoldable pub update_row :
    ℕ → (PermissionRow → PermissionRow) → List PermissionRow → List PermissionRow
update_row u f [] = []
update_row u f (x ∷ l) = (if x.user_id == u then f x else x) ∷ update_row u f l

abbrev pub write_grants : ℕ → Option (List (List ℕ)) → List (ℕ × List ℕ) → List (ℕ × List ℕ)
write_grants u none l = l
write_grants u (some ids) l = insert_all u (normalize_session_id_set ids) (delete_user_rows u l)

abbrev pub write_seeded : ℕ → Option Bool → List PermissionRow → List PermissionRow
write_seeded u none l = l
write_seeded u (some b) l = update_row u (λ r. record r { session_grants_seeded = b }) l

unfoldable pub commit_permissions : ℕ → Request → Store → Store
commit_permissions u p s = record s {
  permissions = write_seeded u p.session_grants_seeded (put_row (row_to_write u p s) s.permissions);
  grants = write_grants u p.allowed_session_ids s.grants;
}

abbrev pub saved_unless : Option Conflict → Store → Saved
saved_unless none s = saved s
saved_unless (some c) s = refused c

unfoldable pub set_permissions : ℕ → Request → Store → Saved
set_permissions u p s = saved_unless (conflict_of u p s) (commit_permissions u p s)
