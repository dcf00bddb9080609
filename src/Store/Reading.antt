-- ===== src/Store/Reading.antt =====
-- `getPermissions` of src/db.ts, the row of a user as it is read, and `effectivePermissions` of
-- src/gateway.ts.
use dsh_passwords.Prelude.{
  ℕ, ◌==◌, ◌||◌, Bool, false, Option, none, some, List, [], ◌∷◌, if◌then◌else◌, bytes_eq,
}
use dsh_passwords.Text.{codes}
use dsh_passwords.Store.{
  deny, Column, absent, unparsable, parsed, parse_json_array, parse_allowed_folders, PermissionRow,
  Store,
}

-- `UserPermissionsRow`: a row as it is read.
pub record Permissions : Type 0 where
  pub allowed_folders : List (List ℕ)
  pub hourly_token_limit : Option ℕ
  pub daily_minutes_limit : Option ℕ
  pub allow_upload : Bool
  pub allow_git_download : Bool
  pub allow_workspace_create : Bool
  pub allow_ssh : Bool
  pub allowed_agent_presets : Option (List (List ℕ))
  pub allowed_models : Option (List (List ℕ))
  pub allow_chat_media : Bool
  pub banned : Bool
  pub sandbox_mode : Option (List ℕ)
  pub disabled_sessions : List (List ℕ)

abbrev pub is_known_sandbox : List ℕ → Bool
is_known_sandbox mode =
    bytes_eq mode (codes "read-only")
    || bytes_eq mode (codes "workspace-write")
    || bytes_eq mode (codes "danger-full-access")

-- A mode that is not known is read and written as the strictest one.
unfoldable pub known_sandbox : Option (List ℕ) → Option (List ℕ)
known_sandbox none = none
known_sandbox (some mode) = if is_known_sandbox mode then some mode else some (codes "read-only")

abbrev pub or_empty : Option (List (List ℕ)) → List (List ℕ)
or_empty none = []
or_empty (some l) = l

-- A list of allowed names: NULL is no limit, a broken text is the empty list.
abbrev pub allowed_names : Column → Option (List (List ℕ))
allowed_names absent = none
allowed_names unparsable = some (or_empty (parse_json_array unparsable))
allowed_names (parsed v) = some (or_empty (parse_json_array (parsed v)))

unfoldable pub find_row : ℕ → List PermissionRow → Option PermissionRow
find_row u [] = none
find_row u (r ∷ l) = if r.user_id == u then some r else find_row u l

abbrev pub read_row : PermissionRow → Permissions
read_row r = record {
  allowed_folders = parse_allowed_folders r.allowed_folders;
  hourly_token_limit = r.hourly_token_limit;
  daily_minutes_limit = r.daily_minutes_limit;
  allow_upload = r.allow_upload;
  allow_git_download = r.allow_git_download;
  allow_workspace_create = r.allow_workspace_create;
  allow_ssh = r.allow_ssh;
  allowed_agent_presets = allowed_names r.allowed_agent_presets;
  allowed_models = allowed_names r.allowed_models;
  allow_chat_media = r.allow_chat_media;
  banned = r.banned;
  sandbox_mode = known_sandbox r.sandbox_mode;
  disabled_sessions = or_empty (parse_json_array r.disabled_sessions);
}

abbrev pub read_found : Option PermissionRow → Option Permissions
read_found none = none
read_found (some r) = some (read_row r)

unfoldable pub get_permissions : ℕ → Store → Option Permissions
get_permissions u s = read_found (find_row u s.permissions)

-- `effectivePermissions` of src/gateway.ts: a user without a row has no folder.
abbrev pub default_row : Permissions
default_row = record {
  allowed_folders = deny;
  hourly_token_limit = none;
  daily_minutes_limit = none;
  allow_upload = false;
  allow_git_download = false;
  allow_workspace_create = false;
  allow_ssh = false;
  allowed_agent_presets = none;
  allowed_models = none;
  allow_chat_media = false;
  banned = false;
  sandbox_mode = none;
  disabled_sessions = [];
}

abbrev pub or_default : Option Permissions → Permissions
or_default none = default_row
or_default (some p) = p

unfoldable pub effective_permissions : ℕ → Store → Permissions
effective_permissions u s = or_default (get_permissions u s)
