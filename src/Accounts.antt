-- ===== src/Accounts.antt =====
-- The user accounts of src/db.ts and the operations of src/auth.ts on them, apart from `login`: the
-- first setup, passwords, names, new sub-users and their removal. A stored username stands as the
-- text it decrypts to; `lookup_hash` (an HMAC), `hash` and `compare` (bcrypt) are parameters. The
-- audit rows and the rows of messages, media and usage are left out.
pub mod Input
pub mod Service
pub mod Roles
pub mod Lookups
pub mod Verified
pub mod Callers
pub mod Atomic
pub mod Changes
pub mod NewUser
pub mod Tests
pub mod Sessions
use dsh_passwords.Prelude.{
  ℕ, ◌+◌, Bool, true, false, ◌&&◌, not, Option, none, some, List, [], ◌∷◌, ◌++◌, ◌==◌, length,
  is_some, if◌then◌else◌,
}
use dsh_passwords.Auth.{Attempt}
use dsh_passwords.Store.{Store, PermissionRow, delete_user_rows}

pub record Account : Type 0 where
  pub id : ℕ
  pub username : List ℕ
  pub username_hash : ℕ
  pub password_hash : List ℕ
  pub is_admin : Bool
  pub credential_version : ℕ

-- `next_id` is the id that AUTOINCREMENT gives next.
pub record Tables : Type 0 where
  pub users : List Account
  pub next_id : ℕ
  pub attempts : List Attempt
  pub store : Store

unfoldable pub count_users : Tables → ℕ
count_users t = length t.users

abbrev pub find_hash : ℕ → List Account → Option Account
find_hash h [] = none
find_hash h (x ∷ l) = if x.username_hash == h then some x else find_hash h l

unfoldable pub get_user_by_username : (List ℕ → ℕ) → List ℕ → Tables → Option Account
get_user_by_username lookup_hash username t = find_hash (lookup_hash username) t.users

abbrev pub find_id : ℕ → List Account → Option Account
find_id id [] = none
find_id id (x ∷ l) = if x.id == id then some x else find_id id l

unfoldable pub get_user_by_id : ℕ → Tables → Option Account
get_user_by_id id t = find_id id t.users

abbrev pub account_of : (List ℕ → ℕ) → ℕ → List ℕ → List ℕ → Bool → Account
account_of lookup_hash id username password_hash is_admin = record {
  id = id;
  username = username;
  username_hash = lookup_hash username;
  password_hash = password_hash;
  is_admin = is_admin;
  credential_version = 0;
}

-- `createUser`: none where the unique index on `username_hash` refuses the row, else the tables and
-- the new id.
unfoldable pub create_user : (List ℕ → ℕ) → List ℕ → List ℕ → Bool → Tables → Option (Tables × ℕ)
create_user lookup_hash username password_hash is_admin t =
    if is_some (find_hash (lookup_hash username) t.users)
    then none
    else some (
      record t {
        users = t.users ++ account_of lookup_hash t.next_id username password_hash is_admin ∷ [];
        next_id = t.next_id + 1;
      },
      t.next_id,
    )

-- `setupInitialAdmin`: none where there is a user, or where the insertion fails.
unfoldable pub setup_initial_admin : (List ℕ → ℕ) → List ℕ → List ℕ → Tables → Option (Tables × ℕ)
setup_initial_admin lookup_hash username password_hash t =
    let created = create_user lookup_hash username password_hash true t in
    if not (count_users t == 0) then none else created

-- `UPDATE users SET … WHERE id = ?`.
abbrev pub update_id : ℕ → (Account → Account) → List Account → List Account
update_id id f [] = []
update_id id f (x ∷ l) = (if x.id == id then f x else x) ∷ update_id id f l

abbrev pub renamed : (List ℕ → ℕ) → List ℕ → Account → Account
renamed lookup_hash username x = record x {
  username = username;
  username_hash = lookup_hash username;
  credential_version = x.credential_version + 1;
}

abbrev pub rehashed : List ℕ → Account → Account
rehashed password_hash x = record x {
  password_hash = password_hash;
  credential_version = x.credential_version + 1;
}

-- Whether a row of another id has the hash.
abbrev pub is_taken : ℕ → ℕ → List Account → Bool
is_taken id h [] = false
is_taken id h (x ∷ l) = if x.username_hash == h && not (x.id == id) then true else is_taken id h l

-- `updateUsername`: none where the unique index refuses the name.
unfoldable pub update_username : (List ℕ → ℕ) → ℕ → List ℕ → Tables → Option Tables
update_username lookup_hash id username t =
    if is_taken id (lookup_hash username) t.users
    then none
    else some (record t { users = update_id id (renamed lookup_hash username) t.users })

unfoldable pub update_password_hash : ℕ → List ℕ → Tables → Tables
update_password_hash id password_hash t = record t {
  users = update_id id (rehashed password_hash) t.users;
}

unfoldable pub clear_attempts : ℕ → List Attempt → List Attempt
clear_attempts h [] = []
clear_attempts h (a ∷ l) =
    let rest = clear_attempts h l in if a.username_hash == h then rest else a ∷ rest

-- `clearLoginAttemptsOf`.
unfoldable pub clear_login_attempts_of : (List ℕ → ℕ) → List ℕ → Tables → Tables
clear_login_attempts_of lookup_hash username t = record t {
  attempts = clear_attempts (lookup_hash username) t.attempts;
}

abbrev pub delete_id : ℕ → List Account → List Account
delete_id id [] = []
delete_id id (x ∷ l) = let rest = delete_id id l in if x.id == id then rest else x ∷ rest

abbrev pub delete_permissions : ℕ → List PermissionRow → List PermissionRow
delete_permissions id [] = []
delete_permissions id (r ∷ l) =
    let rest = delete_permissions id l in if r.user_id == id then rest else r ∷ rest

abbrev pub delete_owned : ℕ → Store → Store
delete_owned id s = record {
  permissions = delete_permissions id s.permissions;
  grants = delete_user_rows id s.grants;
  workspaces = delete_user_rows id s.workspaces;
  auto_granted = delete_user_rows id s.auto_granted;
}

abbrev pub attempts_without : (List ℕ → ℕ) → Option Account → List Attempt → List Attempt
attempts_without lookup_hash none l = l
attempts_without lookup_hash (some x) l = clear_attempts (lookup_hash x.username) l

unfoldable pub delete_user : (List ℕ → ℕ) → ℕ → Tables → Tables
delete_user lookup_hash id t = record t {
  users = delete_id id t.users;
  attempts = attempts_without lookup_hash (get_user_by_id id t) t.attempts;
  store = delete_owned id t.store;
}
