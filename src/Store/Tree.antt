-- ===== src/Store/Tree.antt =====
-- `cleanupDeletedWorkspaceTree` of src/db.ts and the comparison of paths that it rests on. `windows`
-- stands for `process.platform === 'win32'`, `canonical` for `canonicalForMatch`, which asks the file
-- system.
use dsh_passwords.Prelude.{
  ℕ, ◌+◌, ◌-◌, Bool, true, false, ◌&&◌, ◌||◌, Option, none, some, List, [], ◌∷◌, ◌++◌, ◌==◌, leb,
  length, if◌then◌else◌, bytes_eq, is_some,
}
use dsh_passwords.Text.{codes, is_empty, starts_with, has_text, lower, drop_run, all_codes}
use mathlib.Core.List.{reverse}
use dsh_passwords.Permissions.Folders.{normalize_path}
use dsh_passwords.Store.{column_of, parse_allowed_folders, session_ids, PermissionRow, Store}
use dsh_passwords.Store.Workspaces.{kept_folders, folders_without}

-- `normalizeForMatch`: a drive root keeps its slash.
abbrev pub is_lower_drive : List ℕ → Bool
is_lower_drive (c ∷ d ∷ e ∷ s) =
    leb b'a' c && leb c b'z' && d == b':' && e == b'/' && all_codes (λ x. x == b'/') s
is_lower_drive _ = false

abbrev pub drive_root : List ℕ → List ℕ
drive_root [] = []
drive_root (c ∷ s) = c ∷ codes ":/"

abbrev pub drop_slashes : List ℕ → List ℕ
drop_slashes s = reverse (drop_run (λ c. c == b'/') (reverse s))

unfoldable pub normalize_for_match : List ℕ → List ℕ
normalize_for_match candidate =
    let normalized = normalize_path candidate in
    let trimmed = drop_slashes normalized in
    if is_lower_drive normalized
    then drive_root normalized
    else if is_empty trimmed
    then codes "/"
    else trimmed

abbrev pub fold_path_case : Bool → List ℕ → List ℕ
fold_path_case windows value = if windows then lower value else value

abbrev pub is_short_drive : List ℕ → Bool
is_short_drive (c ∷ d ∷ e ∷ []) = leb b'a' c && leb c b'z' && d == b':' && e == b'/'
is_short_drive _ = false

unfoldable pub is_within_key : List ℕ → List ℕ → Bool
is_within_key candidate root =
    if is_empty root || bytes_eq root (codes ".")
    then false
    else if bytes_eq root (codes "/") || is_short_drive root
    then bytes_eq candidate root || starts_with root candidate
    else bytes_eq candidate root || starts_with (root ++ codes "/") candidate

abbrev pub match_key : Bool → List ℕ → List ℕ
match_key windows path = fold_path_case windows (normalize_for_match path)

unfoldable pub path_within_deleted_tree : Bool → (List ℕ → List ℕ) → List ℕ → List ℕ → Bool
path_within_deleted_tree windows canonical candidate root =
    if is_within_key (match_key windows candidate) (match_key windows root)
    then true
    else is_within_key (match_key windows (canonical candidate))
        (match_key windows (canonical root))

unfoldable pub same_path_for_match : Bool → (List ℕ → List ℕ) → List ℕ → List ℕ → Bool
same_path_for_match windows canonical a b =
    path_within_deleted_tree windows canonical a b && path_within_deleted_tree windows canonical b a

-- `cleanupDeletedWorkspaceTree`: each of the three tables, with the users whose rows went and the
-- count of what went.
abbrev pub Cleaned : Type 0 → Type 0
Cleaned A = A × List ℕ × ℕ

abbrev pub clean_rows : (ℕ × List ℕ → Bool) → List (ℕ × List ℕ) → Cleaned (List (ℕ × List ℕ))
clean_rows doomed [] = ([], [], 0)
clean_rows doomed (r ∷ l) =
    let (l', users, n) = clean_rows doomed l in
    if doomed r then (l', r.0 ∷ users, n + 1) else (r ∷ l', users, n)

abbrev pub clean_row : PermissionRow → Option (List (List ℕ)) → PermissionRow
clean_row r none = r
clean_row r (some folders) = record r { allowed_folders = column_of folders }

abbrev pub clean_permissions : (List ℕ → Bool) → List PermissionRow → Cleaned (List PermissionRow)
clean_permissions doomed [] = ([], [], 0)
clean_permissions doomed (r ∷ l) =
    let (l', users, n) = clean_permissions doomed l in
    let folders = parse_allowed_folders r.allowed_folders in
    let next = folders_without doomed folders in
    let gone = length folders - length (kept_folders doomed folders) in
    if is_some next
    then (clean_row r next ∷ l', r.user_id ∷ users, n + gone)
    else (r ∷ l', users, n)

pub record Cleanup : Type 0 where
  pub invalidate_user_ids : List ℕ
  pub removed_workspaces : ℕ
  pub removed_folders : ℕ
  pub removed_grants : ℕ

abbrev pub has_number : ℕ → List ℕ → Bool
has_number n [] = false
has_number n (m ∷ l) = n == m || has_number n l

abbrev pub distinct_numbers : List ℕ → List ℕ → List ℕ
distinct_numbers seen [] = []
distinct_numbers seen (n ∷ l) =
    let rest = distinct_numbers (n ∷ seen) l in if has_number n seen then rest else n ∷ rest

unfoldable pub cleanup_deleted_workspace_tree :
    Bool → (List ℕ → List ℕ) → List ℕ → List (List ℕ) → Store → Store × Cleanup
cleanup_deleted_workspace_tree windows canonical root ids s =
    let within : List ℕ → Bool = λ path. path_within_deleted_tree windows canonical path root in
    let (workspaces, owners, w) = clean_rows (λ r. within r.1) s.workspaces in
    let (grants, granted, g) = clean_rows (λ r. has_text r.1 (session_ids ids)) s.grants in
    let (permissions, limited, f) = clean_permissions within s.permissions in
    (
      record s { workspaces = workspaces; grants = grants; permissions = permissions },
      record {
        invalidate_user_ids = distinct_numbers [] (owners ++ granted ++ limited);
        removed_workspaces = w;
        removed_folders = f;
        removed_grants = g;
      },
    )
