-- ===== src/Store/Grants.antt =====
-- The session grants of src/db.ts: `addUserSessionGrant`, `replaceUserSessionGrants`,
-- `seedUserSessionGrants`, `deleteUserSessionGrants`, `listSessionGrantUserIds` and
-- what reads them.
pub mod Refined
use dsh_passwords.Prelude.{
  ◌==◌, ℕ, Bool, true, false, not, ◌&&◌, ◌||◌, Option, none, some, List, [], ◌∷◌, length, leb,
  if◌then◌else◌,
}
use dsh_passwords.Text.{is_empty, has_text}
use dsh_passwords.Store.{
  PermissionRow, Store, distinct, session_ids, normalize_session_id_set, has_row, insert_or_ignore,
  delete_user_rows, insert_all, delete_each, is_session_id,
}
use dsh_passwords.Store.Permissions.{update_row}
use dsh_passwords.Store.Reading.{find_row}

unfoldable pub has_user_session_grant : ℕ → List ℕ → Store → Bool
has_user_session_grant u id s =
    if is_empty id || not (leb (length id) 200) then false else has_row u id s.grants

abbrev pub seeded_of : Option PermissionRow → Bool
seeded_of none = false
seeded_of (some r) = r.session_grants_seeded

unfoldable pub is_session_grants_seeded : ℕ → Store → Bool
is_session_grants_seeded u s = seeded_of (find_row u s.permissions)

unfoldable pub mark_session_grants_seeded : ℕ → Store → Store
mark_session_grants_seeded u s = record s {
  permissions = update_row u (λ r. record r { session_grants_seeded = true }) s.permissions;
}

abbrev pub add_first : ℕ → Store → List (List ℕ) → Store × Bool
add_first u s [] = (s, false)
add_first u s (id ∷ rest) =
    (record s { grants = insert_or_ignore u id s.grants }, not (has_row u id s.grants))

unfoldable pub add_user_session_grant : ℕ → List ℕ → Store → Store × Bool
add_user_session_grant u id s = add_first u s (normalize_session_id_set (id ∷ []))

unfoldable pub replace_user_session_grants : ℕ → List (List ℕ) → Store → Store
replace_user_session_grants u ids s = record s {
  grants = insert_all u (normalize_session_id_set ids) (delete_user_rows u s.grants);
}

abbrev pub seed_row : ℕ → List (List ℕ) → Store → Option PermissionRow → Store × Bool
seed_row u ids s none = (s, false)
seed_row u ids s (some r) =
    if r.session_grants_seeded
    then (s, false)
    else (mark_session_grants_seeded u (record s { grants = insert_all u ids s.grants }), true)

unfoldable pub seed_user_session_grants : ℕ → List (List ℕ) → Store → Store × Bool
seed_user_session_grants u ids s =
    seed_row u (normalize_session_id_set ids) s (find_row u s.permissions)

-- The ids that are deleted are not cut at 2000.
unfoldable pub delete_user_session_grants : ℕ → List (List ℕ) → Store → Store
delete_user_session_grants u ids s = record s {
  grants = delete_each u (distinct (session_ids ids)) s.grants;
}

-- The users of the rows that have one of the ids. The code asks for them 256 ids at a time, in an
-- order that SQLite leaves open.
abbrev pub holders : List (List ℕ) → List (ℕ × List ℕ) → List ℕ
holders wanted [] = []
holders wanted (r ∷ l) =
    let rest = holders wanted l in if has_text r.1 wanted then r.0 ∷ rest else rest

abbrev pub remove_number : ℕ → List ℕ → List ℕ
remove_number n [] = []
remove_number n (m ∷ l) = let rest = remove_number n l in if n == m then rest else m ∷ rest

abbrev pub distinct_users : List ℕ → List ℕ
distinct_users [] = []
distinct_users (n ∷ l) = n ∷ remove_number n (distinct_users l)

unfoldable pub list_session_grant_user_ids : List (List ℕ) → Store → List ℕ
list_session_grant_user_ids ids s = distinct_users (holders (normalize_session_id_set ids) s.grants)
