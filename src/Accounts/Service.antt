-- ===== src/Accounts/Service.antt =====
-- The operations of `AuthService` in src/auth.ts on accounts. Each gives the tables and the error
-- that is thrown, or none. An operation is modelled as running alone; Accounts/Roles has the writes
-- of several that are under way. The clock is in milliseconds.
use dsh_passwords.Prelude.{
  ℕ, ◌+◌, ◌-◌, ◌/◌, Bool, false, not, ◌&&◌, Option, none, some, List, [], ◌++◌, leb, length,
  is_some, if◌then◌else◌, bytes_eq, ◌==◌,
}
use dsh_passwords.Text.{codes, is_empty, trim}
use dsh_passwords.Auth.{
  Attempt, get_login_attempt, record_login_failure, lock_login_attempt, reset_login_attempts,
  failed_or, is_after, locked_until_of, minutes,
}
use dsh_passwords.Store.{deny}
use dsh_passwords.Store.Permissions.{Request, Saved, saved, refused, set_permissions}
use dsh_passwords.Accounts.{
  Account, Tables, count_users, get_user_by_username, create_user, setup_initial_admin,
  update_username, update_password_hash, clear_login_attempts_of, delete_user,
}
use dsh_passwords.Accounts.Input.{has_injection, is_username, is_password}

pub data AuthError : Type 0 where
  already_initialized invalid_setup_key injection_rejected invalid_username invalid_password
        no_such_user forbidden_password invalid_current_password forbidden_username username_taken
        forbidden_add_user forbidden_remove_user cannot_remove_self cannot_remove_admin
        constraint_failed permissions_refused :
      AuthError
  ip_throttled : ℕ → AuthError

-- `AuthedUser`.
pub record Caller : Type 0 where
  pub user_id : ℕ
  pub username : List ℕ
  pub is_admin : Bool

-- The end of an operation: its tables and its error.
abbrev pub Ended : Type 0
Ended = Tables × Option AuthError

abbrev pub done : Tables → Ended
done t = (t, none)

abbrev pub fails : AuthError → Tables → Ended
fails e t = (t, some e)

-- The part of `setup` before the hash: the error, or none.
unfoldable pub setup_error : List ℕ → List ℕ → List ℕ → List ℕ → Tables → Option AuthError
setup_error config_key setup_key username password t =
    if not (count_users t == 0)
    then some already_initialized
    else if has_injection setup_key
    then some injection_rejected
    else if not (bytes_eq setup_key config_key)
    then some invalid_setup_key
    else if not (is_username username)
    then some invalid_username
    else if not (is_password password)
    then some invalid_password
    else none

abbrev pub setup_ended : Option (Tables × ℕ) → Tables → Ended
setup_ended none t = fails already_initialized t
setup_ended (some (t', id)) t = done t'

-- The part of `setup` behind the hash. A row that the unique index refuses is another error in
-- the code, which needs a user to be there.
unfoldable pub setup_commit : (List ℕ → ℕ) → List ℕ → List ℕ → Tables → Ended
setup_commit lookup_hash username password_hash t =
    setup_ended (setup_initial_admin lookup_hash username password_hash t) t

abbrev pub setup_checked :
    (List ℕ → ℕ) → (List ℕ → List ℕ) → List ℕ → List ℕ → Tables → Option AuthError → Ended
setup_checked lookup_hash hash username password t none =
    setup_commit lookup_hash username (hash password) t
setup_checked lookup_hash hash username password t (some e) = fails e t

unfoldable pub setup :
    (List ℕ → ℕ) → (List ℕ → List ℕ) → List ℕ → List ℕ → List ℕ → List ℕ → Tables → Ended
setup lookup_hash hash config_key setup_key username password t =
    setup_checked lookup_hash hash username password t
      (setup_error config_key setup_key username password t)

-- The current password that a user gives to change the own one.
abbrev pub is_current : (List ℕ → List ℕ → Bool) → Option (List ℕ) → Account → Bool
is_current compare none x = false
is_current compare (some current) x =
    if is_empty current then false else compare current x.password_hash

abbrev pub change_found :
    (List ℕ → List ℕ)
    → (List ℕ → List ℕ → Bool)
    → Caller
    → List ℕ
    → Option (List ℕ)
    → Tables
    → Option Account
    → Ended
change_found hash compare caller password current t none = fails no_such_user t
change_found hash compare caller password current t (some x) =
    let is_self = bytes_eq caller.username x.username in
    if not caller.is_admin && not is_self
    then fails forbidden_password t
    else if is_self && not (is_current compare current x)
    then fails invalid_current_password t
    else if not (is_password password)
    then fails invalid_password t
    else done (update_password_hash x.id (hash password) t)

unfoldable pub change_password :
    (List ℕ → ℕ)
    → (List ℕ → List ℕ)
    → (List ℕ → List ℕ → Bool)
    → Caller
    → List ℕ
    → List ℕ
    → Option (List ℕ)
    → Tables
    → Ended
change_password lookup_hash hash compare caller target password current t =
    change_found hash compare caller password current t
      (get_user_by_username lookup_hash (trim target) t)

abbrev pub updated_or_failed : Option Tables → Tables → Ended
updated_or_failed none t = fails constraint_failed t
updated_or_failed (some t') t = done t'

abbrev pub rename_found : (List ℕ → ℕ) → Caller → List ℕ → Tables → Option Account → Ended
rename_found lookup_hash caller username t none = fails no_such_user t
rename_found lookup_hash caller username t (some x) =
    if not caller.is_admin && not (bytes_eq caller.username x.username)
    then fails forbidden_username t
    else if not (is_username username)
    then fails invalid_username t
    else if has_injection username
    then fails injection_rejected t
    else if is_some (get_user_by_username lookup_hash username t)
    then fails username_taken t
    else updated_or_failed (update_username lookup_hash x.id username t) t

unfoldable pub rename_user : (List ℕ → ℕ) → Caller → List ℕ → List ℕ → Tables → Ended
rename_user lookup_hash caller target username t =
    rename_found lookup_hash caller username t (get_user_by_username lookup_hash (trim target) t)

-- The permissions of a new sub-user.
abbrev pub default_permissions : Request
default_permissions = record {
  allowed_folders = deny;
  hourly_token_limit = none;
  daily_minutes_limit = none;
  allow_upload = false;
  allow_git_download = false;
  allow_workspace_create = false;
  allow_ssh = some false;
  allowed_agent_presets = some none;
  allowed_models = none;
  allow_chat_media = none;
  banned = false;
  sandbox_mode = some none;
  disabled_sessions = some [];
  expected_disabled_sessions = none;
  allowed_session_ids = none;
  session_grants_seeded = none;
  expected_allowed_session_ids = none;
  expected_permission_state = none;
}

abbrev pub permitted : Tables → Saved → Ended
permitted t (saved s) = done (record t { store = s })
permitted t (refused c) = fails permissions_refused t

abbrev pub sub_user_created : Tables → Option (Tables × ℕ) → Ended
sub_user_created t none = fails constraint_failed t
sub_user_created t (some (t', id)) = permitted t' (set_permissions id default_permissions t'.store)

unfoldable pub add_sub_user :
    (List ℕ → ℕ) → (List ℕ → List ℕ) → Caller → List ℕ → List ℕ → Tables → Ended
add_sub_user lookup_hash hash caller username password t =
    if not caller.is_admin
    then fails forbidden_add_user t
    else if not (is_username username)
    then fails invalid_username t
    else if has_injection username
    then fails injection_rejected t
    else if is_some (get_user_by_username lookup_hash username t)
    then fails username_taken t
    else if not (is_password password)
    then fails invalid_password t
    else sub_user_created t (create_user lookup_hash username (hash password) false t)

-- The checks of `removeUser` on the target: the error, or the account to delete.
abbrev pub removable : Caller → Account → Option AuthError
removable caller x =
    if bytes_eq x.username caller.username
    then some cannot_remove_self
    else if x.is_admin
    then some cannot_remove_admin
    else none

abbrev pub remove_checked : (List ℕ → ℕ) → Account → Tables → Option AuthError → Ended
remove_checked lookup_hash x t (some e) = fails e t
remove_checked lookup_hash x t none =
    done (clear_login_attempts_of lookup_hash x.username (delete_user lookup_hash x.id t))

abbrev pub remove_found : (List ℕ → ℕ) → Caller → Tables → Option Account → Ended
remove_found lookup_hash caller t none = fails no_such_user t
remove_found lookup_hash caller t (some x) = remove_checked lookup_hash x t (removable caller x)

unfoldable pub remove_user : (List ℕ → ℕ) → Caller → List ℕ → Tables → Ended
remove_user lookup_hash caller target t =
    if not caller.is_admin
    then fails forbidden_remove_user t
    else remove_found lookup_hash caller t (get_user_by_username lookup_hash (trim target) t)

abbrev pub purge_max_failed : ℕ
purge_max_failed = 5

abbrev pub purge_lock_minutes : ℕ
purge_lock_minutes = 15

-- `Math.ceil(ms / 60000)`.
abbrev pub minutes_left : ℕ → Option ℕ → ℕ
minutes_left now none = 0
minutes_left now (some until) = ((until - now) + 59999) / 60000

abbrev pub is_purge_locked : ℕ → Option Attempt → Bool
is_purge_locked now o = leb purge_max_failed (failed_or 0 o) && is_after now (locked_until_of o)

abbrev pub is_admin_password : (List ℕ → List ℕ → Bool) → Caller → List ℕ → Option Account → Bool
is_admin_password compare caller password none = false
is_admin_password compare caller password (some x) =
    if caller.is_admin && leb (length password) 256 then compare password x.password_hash else false

abbrev pub purge_failed : ℕ → ℕ → ℕ → Tables → Ended
purge_failed u i later t =
    let rows = record_login_failure u i t.attempts in
    if leb purge_max_failed (failed_or 1 (get_login_attempt u i rows))
    then fails (ip_throttled purge_lock_minutes)
        (record t { attempts = lock_login_attempt u i (minutes later purge_lock_minutes) rows })
    else fails invalid_current_password (record t { attempts = rows })

-- `verifyAdminPassword`, for the hashes of the name and of `purge:` with the address; `now` is the
-- clock at the check of the lock and `later` behind the comparison.
unfoldable pub verify_admin_hashed :
    (List ℕ → List ℕ → Bool) → ℕ → ℕ → Caller → List ℕ → ℕ → ℕ → Tables → Option Account → Ended
verify_admin_hashed compare u i caller password now later t user =
    if is_purge_locked now (get_login_attempt u i t.attempts)
    then fails
        (ip_throttled (minutes_left now (locked_until_of (get_login_attempt u i t.attempts)))) t
    else if is_admin_password compare caller password user
    then done (record t { attempts = reset_login_attempts u i t.attempts })
    else purge_failed u i later t

abbrev pub verify_admin_password :
    (List ℕ → ℕ) → (List ℕ → List ℕ → Bool) → Caller → List ℕ → List ℕ → ℕ → ℕ → Tables → Ended
verify_admin_password lookup_hash compare caller password ip now later t =
    verify_admin_hashed compare (lookup_hash caller.username) (lookup_hash (codes "purge:" ++ ip))
      caller password now later t (get_user_by_username lookup_hash caller.username t)
