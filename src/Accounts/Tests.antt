-- ===== src/Accounts/Tests.antt =====
-- Accounts and sessions on small inputs.
use dsh_passwords.Prelude.{
  ℕ, ◌+◌, ◌*◌, ◌≡◌, ◌≢◌, ◌⊎◌, refl, true, false, ◌&&◌, ◌++◌, Option, none, some, List, [], ◌∷◌, leb,
  length, arith, bytes_eq, if◌then◌else◌,
}
use dsh_passwords.Text.{codes, trim, trim_start}
use dsh_passwords.Store.{Store}
use dsh_passwords.Store.Permissions.{set_permissions, conflict_of}
use dsh_passwords.Accounts.{
  Account, Tables, account_of, get_user_by_username, get_user_by_id, find_id, create_user,
}
use dsh_passwords.Accounts.Input.{
  is_password, matches_policy, bytes_after, byte_length, is_username, has_injection,
}
use dsh_passwords.Accounts.Input.Policy.{has_classes, is_password-policy}
use dsh_passwords.Accounts.Service.{
  Caller, setup_commit, already_initialized, change_password, add_sub_user,
}
use dsh_passwords.Accounts.Roles.{Platform, user_writes, added, here, next, Reach-admin}
use dsh_passwords.Accounts.Roles.Rows.{has_admin, HasUnique}
use dsh_passwords.Accounts.Callers.{Call, rename_call, verify_call, run, run-sub_user}
use dsh_passwords.Accounts.Atomic.{IsFailure, run-atomic}
use dsh_passwords.Accounts.Changes.{change_password-ends}
use dsh_passwords.Accounts.NewUser.{IsShut, add_sub_user-made}
use dsh_passwords.Accounts.Sessions.{
  Payload, Gate, empty_gate, session_of, revoke_token, matched, find_entry, is_token_revoked,
  set_entry, find_revoked,
}
use dsh_passwords.Accounts.Sessions.Fresh.{Any, Vouches, asked, start, session_of-recent}
use dsh_passwords.Accounts.Sessions.Logout
use dsh_passwords.Accounts.Sessions.Logout.{session_of-logged_out}

-- A hash of names that keeps them apart, and passwords that are stored as they are.
abbrev hash_of : List ℕ → ℕ
hash_of [] = 0
hash_of (c ∷ s) = c + 256 * hash_of s

abbrev plain : List ℕ → List ℕ
plain p = p

abbrev no_store : Store
no_store = record { permissions = []; grants = []; workspaces = []; auto_granted = [] }

abbrev nobody : Tables
nobody = record { users = []; next_id = 1; attempts = []; store = no_store }

abbrev root : Account
root = account_of hash_of 1 (codes "root") (codes "Secret-Root-1") true

abbrev alice : Account
alice = account_of hash_of 2 (codes "alice") (codes "Secret-Alice-1") false

abbrev two : Tables
two = record { users = root ∷ alice ∷ []; next_id = 3; attempts = []; store = no_store }

abbrev as_root : Caller
as_root = record { user_id = 1; username = codes "root"; is_admin = true }

abbrev as_alice : Caller
as_alice = record { user_id = 2; username = codes "alice"; is_admin = false }

-- The platform after its setup, and with a second user.
abbrev set_up : Platform
set_up = record {
  tables = (setup_commit hash_of (codes "root") (codes "Secret-Root-1") nobody).0;
  removing = [];
}

abbrev with_alice : Platform
with_alice = record set_up {
  tables =
      added (create_user hash_of (codes "alice") (codes "Secret-Alice-1") false set_up.tables)
        set_up.tables;
}

Reach-admin_example :
    (has_admin with_alice.tables.users ≡ true)
    × (setup_commit hash_of (codes "eve") (codes "Secret-Eve-11") with_alice.tables
        ≡ (with_alice.tables, some already_initialized))
Reach-admin_example =
    Reach-admin hash_of (codes "root") (codes "Secret-Root-1") nobody refl with_alice
      (next here (user_writes (codes "alice") (codes "Secret-Alice-1") set_up)) (codes "eve")
      (codes "Secret-Eve-11")

abbrev wrong : Call
wrong = verify_call (codes "no") (codes "10.0.0.1") 1000 1001

run-atomic_example :
    ((run hash_of plain bytes_eq as_root wrong two).1 ≡ none)
    ⊎ ((run hash_of plain bytes_eq as_root wrong two).0 ≡ two)
    ⊎ IsFailure hash_of plain bytes_eq as_root two wrong
        (run hash_of plain bytes_eq as_root wrong two).0
run-atomic_example = run-atomic hash_of plain bytes_eq as_root two wrong

two-HasUnique : HasUnique two.users
two-HasUnique = ground arith

not_alice : codes "root" ≢ codes "alice"
not_alice h = cc h

run-sub_user_example :
    find_id 1
      (run hash_of plain bytes_eq as_alice (rename_call (codes "root") (codes "mine")) two).0.users
    ≡ some root
run-sub_user_example =
    run-sub_user hash_of plain bytes_eq as_alice two refl two-HasUnique 1 root refl not_alice
      (rename_call (codes "root") (codes "mine"))

is_password-policy_example : is_password (codes "Secret-Alice-2") ≡ (
    has_classes (codes "Secret-Alice-2")
    && leb 12 (length (codes "Secret-Alice-2"))
    && leb (byte_length (codes "Secret-Alice-2")) 72)
is_password-policy_example = is_password-policy (codes "Secret-Alice-2")

-- A token of alice before she changes her password.
abbrev old_payload : Payload
old_payload = record { sub = 2; username = codes "alice"; cv = some 0; exp = some 100 }

found_alice : get_user_by_username hash_of (trim (codes "alice")) two ≡ some alice
unfolding get_user_by_username trim trim_start
found_alice = refl

changes_alice :
    (change_password hash_of plain bytes_eq as_alice
      (codes "alice")
      (codes "Secret-Alice-2")
      (some (codes "Secret-Alice-1"))
      two).1
    ≡ none
unfolding change_password get_user_by_username trim trim_start is_password matches_policy
    bytes_after
changes_alice = refl

change_password-ends_example :
    matched (codes "t") 1000 old_payload empty_gate (
      get_user_by_id 2
        (change_password hash_of plain bytes_eq as_alice
          (codes "alice")
          (codes "Secret-Alice-2")
          (some (codes "Secret-Alice-1"))
          two).0)
    ≡ (empty_gate, none)
change_password-ends_example =
    change_password-ends (codes "t") 1000 old_payload empty_gate alice refl hash_of plain bytes_eq
      as_alice (codes "alice") two two-HasUnique found_alice (codes "Secret-Alice-2")
      (some (codes "Secret-Alice-1")) changes_alice

adds_bob : (add_sub_user hash_of plain as_root (codes "bob") (codes "Secret-Bob-123") two).1 ≡ none
unfolding add_sub_user is_username has_injection get_user_by_username is_password matches_policy
    bytes_after create_user set_permissions conflict_of
adds_bob = refl

add_sub_user-made_example :
    (true ≡ true)
    × (is_password (codes "Secret-Bob-123") ≡ true)
    × ((add_sub_user hash_of plain as_root (codes "bob") (codes "Secret-Bob-123") two).0.users
        ≡ two.users ++ account_of hash_of 3 (codes "bob") (codes "Secret-Bob-123") false ∷ [])
    × IsShut 3
        (add_sub_user hash_of plain as_root (codes "bob") (codes "Secret-Bob-123") two).0.store
add_sub_user-made_example =
    add_sub_user-made hash_of plain as_root (codes "bob") (codes "Secret-Bob-123") two adds_bob

abbrev verify_one : ℕ → List ℕ → Option Payload
verify_one now token = if bytes_eq token (codes "t") then some old_payload else none

abbrev signed_in : Gate
signed_in = (session_of verify_one (codes "t") 1000 1001 two empty_gate).0

-- The second call is answered by the cache, though the tables have no user any more.
from_cache :
    (session_of verify_one (codes "t") 2000 2001 nobody signed_in).1 ≡ some (2, codes "alice")
unfolding session_of find_entry is_token_revoked find_revoked get_user_by_id set_entry
from_cache = refl

session_of-recent_example :
    Any (Vouches verify_one (codes "t") 2 (codes "alice") 2001) ((2000, nobody) ∷ (1000, two) ∷ [])
session_of-recent_example =
    session_of-recent verify_one (asked (codes "t") 1000 1001 two start) (codes "t") 2000 2001
      nobody 2 (codes "alice") from_cache

abbrev signed_out : Gate
signed_out = revoke_token (codes "t") 1000 signed_in

session_of-logged_out_example :
    (session_of verify_one
      (codes "t")
      9000
      9001
      two
      (session_of verify_one (codes "t") 3000 3001 two signed_out).0).1
    ≡ none
session_of-logged_out_example =
    session_of-logged_out verify_one (codes "t") 1000 signed_in
      (session_of verify_one (codes "t") 3000 3001 two signed_out).0
      (Logout.asked (codes "t") 3000 3001 two Logout.here (omega arith)) 9000 9001 two (omega arith)
