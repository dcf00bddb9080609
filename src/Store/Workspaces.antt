-- ===== src/Store/Workspaces.antt =====
-- The workspaces of sub-users in src/db.ts: their rows, the folders that go with them, and what a
-- deletion by the user takes away.
pub mod Narrow
pub mod Deletion
use dsh_passwords.Prelude.{
  ℕ, ◌+◌, ◌-◌, Bool, true, false, not, ◌&&◌, ◌||◌, Option, none, some, List, [], ◌∷◌, ◌++◌, ◌==◌,
  leb, map, length, if◌then◌else◌, bytes_eq, is_some,
}
use dsh_passwords.Text.{codes, is_empty, starts_with, has_text, lower, drop_run, all_codes}
use mathlib.Core.List.{reverse}
use dsh_passwords.Permissions.Folders.{normalize_path}
use dsh_passwords.Store.{
  Column, column_of, parse_allowed_folders, sanitize_allowed_folders, deny, distinct, session_ids,
  PermissionRow, Store, has_row, insert_or_ignore, delete_row, delete_each, texts_of_user, is_pair,
}
use dsh_passwords.Store.Permissions.{update_row}
use dsh_passwords.Store.Reading.{find_row}

unfoldable pub add_user_workspace : ℕ → List ℕ → Store → Store
add_user_workspace u path s = record s {
  workspaces = insert_or_ignore u (normalize_path path) s.workspaces;
}

unfoldable pub list_user_workspace_paths : ℕ → Store → List (List ℕ)
list_user_workspace_paths u s = texts_of_user u s.workspaces

abbrev pub normalized_rows : List (ℕ × List ℕ) → List (ℕ × List ℕ)
normalized_rows [] = []
normalized_rows ((u, path) ∷ l) = (u, normalize_path path) ∷ normalized_rows l

unfoldable pub list_workspace_owners : Store → List (ℕ × List ℕ)
list_workspace_owners s = normalized_rows s.workspaces

unfoldable pub remove_user_workspace : ℕ → List ℕ → Store → Store
remove_user_workspace u path s = record s {
  workspaces = delete_row u (normalize_path path) s.workspaces;
}

-- Whether the row of the new path is there beside that of the old one, so that the primary key
-- refuses the change.
abbrev pub is_rename_refused : ℕ → List ℕ → List ℕ → List (ℕ × List ℕ) → Bool
is_rename_refused u old new l = has_row u old l && has_row u new l && not (bytes_eq old new)

abbrev pub rename_row : ℕ → List ℕ → List ℕ → List (ℕ × List ℕ) → List (ℕ × List ℕ)
rename_row u old new [] = []
rename_row u old new (r ∷ l) = (if is_pair u old r then (u, new) else r) ∷ rename_row u old new l

-- None where the statement fails.
unfoldable pub rename_user_workspace : ℕ → List ℕ → List ℕ → Store → Option Store
rename_user_workspace u old new s =
    if is_rename_refused u (normalize_path old) (normalize_path new) s.workspaces
    then none
    else some (record s {
      workspaces = rename_row u (normalize_path old) (normalize_path new) s.workspaces;
    })

abbrev pub some_same : List ℕ → List (List ℕ) → Bool
some_same canonical [] = false
some_same canonical (entry ∷ rest) =
    bytes_eq (normalize_path entry) canonical || some_same canonical rest

-- The folders after a new workspace, or none where they stay.
unfoldable pub folders_with : List ℕ → List (List ℕ) → Option (List (List ℕ))
folders_with canonical folders =
    if has_text (codes "__deny__") folders
    then some (sanitize_allowed_folders (canonical ∷ []))
    else if leb 1 (length folders) && not (some_same canonical folders)
    then some (sanitize_allowed_folders (folders ++ canonical ∷ []))
    else none

abbrev pub write_folders : ℕ → List (List ℕ) → Store → Store
write_folders u folders s = record s {
  permissions = update_row u (λ r. record r { allowed_folders = column_of folders }) s.permissions;
}

abbrev pub add_next : ℕ → List ℕ → Store → Option (List (List ℕ)) → Store
add_next u canonical s none = s
add_next u canonical s (some folders) =
    write_folders u folders
      (record s { auto_granted = insert_or_ignore u canonical s.auto_granted })

abbrev pub add_to_row : ℕ → List ℕ → Store → Option PermissionRow → Store
add_to_row u canonical s none = s
add_to_row u canonical s (some r) =
    add_next u canonical s (folders_with canonical (parse_allowed_folders r.allowed_folders))

unfoldable pub add_allowed_folder : ℕ → List ℕ → Store → Store
add_allowed_folder u path s = add_to_row u (normalize_path path) s (find_row u s.permissions)

-- `folders.filter(…)`, and what is written where something went: an empty list would allow all.
abbrev pub kept_folders : (List ℕ → Bool) → List (List ℕ) → List (List ℕ)
kept_folders doomed [] = []
kept_folders doomed (f ∷ fs) =
    let rest = kept_folders doomed fs in if doomed f then rest else f ∷ rest

abbrev pub or_deny : List (List ℕ) → List (List ℕ)
or_deny [] = deny
or_deny (f ∷ fs) = f ∷ fs

abbrev pub has_none : List (List ℕ) → Bool
has_none [] = true
has_none (f ∷ fs) = false

-- The folders without those that are doomed, or none where they stay.
unfoldable pub folders_without : (List ℕ → Bool) → List (List ℕ) → Option (List (List ℕ))
folders_without doomed folders =
    if has_none folders || has_text (codes "__deny__") folders
    then none
    else if length (kept_folders doomed folders) == length folders
    then none
    else some (or_deny (kept_folders doomed folders))

pub record Removal : Type 0 where
  pub removed_workspace : Bool
  pub removed_folder : Bool
  pub removed_grants : ℕ

-- The number of rows that `delete_each` deletes.
abbrev pub deleted_count : ℕ → List (List ℕ) → List (ℕ × List ℕ) → ℕ
deleted_count u [] l = 0
deleted_count u (id ∷ ids) l =
    (if has_row u id l then 1 else 0) + deleted_count u ids (delete_row u id l)

abbrev pub without_next : ℕ → Store → Option (List (List ℕ)) → Store × Bool
without_next u s none = (s, false)
without_next u s (some folders) = (write_folders u folders s, true)

abbrev pub without_row : ℕ → List ℕ → Store → Option PermissionRow → Store × Bool
without_row u target s none = (s, false)
without_row u target s (some r) = without_next u s (
    folders_without (λ f. bytes_eq (normalize_path f) target)
      (parse_allowed_folders r.allowed_folders))

-- The folder goes only where a registration of the workspace has marked it.
abbrev pub remove_folder : ℕ → List ℕ → Store → Store × Bool
remove_folder u target s =
    let (s', removed) = without_row u target s (find_row u s.permissions) in
    if has_row u target s.auto_granted
    then (record s' { auto_granted = delete_row u target s.auto_granted }, removed)
    else (s, false)

unfoldable pub remove_user_owned_workspace : ℕ → List ℕ → List (List ℕ) → Store → Store × Removal
remove_user_owned_workspace u path ids s =
    let target = normalize_path path in
    let doomed = distinct (session_ids ids) in
    let (s', removed) =
      remove_folder u target (record s { workspaces = delete_row u target s.workspaces }) in
    (
      record s' { grants = delete_each u doomed s'.grants },
      record {
        removed_workspace = has_row u target s.workspaces;
        removed_folder = removed;
        removed_grants = deleted_count u doomed s'.grants;
      },
    )
