-- ===== src/Store/Workspaces/Deletion.antt =====
-- `removeUserOwnedWorkspace` and `cleanupDeletedWorkspaceTree` of src/db.ts, for every user.
use dsh_passwords.Prelude.{
  ℕ, ◌≡◌, refl, ap, ◌∙◌, subst, Bool, true, false, Option, none, some, List, [], ◌∷◌, ◌==◌, ==_iff,
  ◌+◌, is_some, if_cases, if◌then◌else◌, bytes_eq, arith, Bool-cases, inl, inr,
}
use dsh_passwords.Permissions.Folders.{folder_allowed, normalize_path}
use dsh_passwords.Store.{
  parse_allowed_folders, PermissionRow, Store, has_row, delete_row, column_of,
}
use dsh_passwords.Store.Permissions.{update_row}
use dsh_passwords.Store.Reading.{find_row}
use dsh_passwords.Store.Workspaces.{
  folders_without, without_row, without_next, remove_folder, remove_user_owned_workspace,
}
use dsh_passwords.Store.Tree.{
  clean_row, clean_permissions, Cleaned, cleanup_deleted_workspace_tree, path_within_deleted_tree,
}
use dsh_passwords.Store.Workspaces.Narrow.{folders_without-narrow}

-- What a row allows; a user without one may use no folder.
abbrev pub row_allows : List ℕ → Option PermissionRow → Bool
row_allows path none = false
row_allows path (some r) = folder_allowed path (parse_allowed_folders r.allowed_folders)

abbrev Narrower : List ℕ → Option PermissionRow → Option PermissionRow → Type 0
Narrower path o o' = row_allows path o' ≡ true → row_allows path o ≡ true

clean_row-Narrower :
    (doomed : List ℕ → Bool) (path : List ℕ) (r : PermissionRow) (o : Option (List (List ℕ)))
    → folders_without doomed (parse_allowed_folders r.allowed_folders) ≡ o
    → Narrower path (some r) (some (clean_row r o))
clean_row-Narrower doomed path r none e a = a
clean_row-Narrower doomed path r (some next) e a =
    folders_without-narrow doomed r.allowed_folders next path e a

same_row :
    (doomed : List ℕ → Bool) (r : PermissionRow) (o : Option (List (List ℕ)))
    → (clean_row r o).user_id ≡ r.user_id
same_row doomed r none = refl
same_row doomed r (some next) = refl

clean-cons :
    (r : PermissionRow) (o : Option (List (List ℕ))) (l : List PermissionRow) (users : List ℕ)
    (n k : ℕ)
    → (if◌then◌else◌ {A = Cleaned (List PermissionRow)}
        (is_some o)
        (clean_row r o ∷ l, r.user_id ∷ users, n + k)
        (r ∷ l, users, n)).0
      ≡ clean_row r o ∷ l
clean-cons r none l users n k = refl
clean-cons r (some next) l users n k = refl

abbrev mapped : (PermissionRow → PermissionRow) → Option PermissionRow → Option PermissionRow
mapped f none = none
mapped f (some r) = some (f r)

module _ (u : ℕ) (f : PermissionRow → PermissionRow)
    (keeps : (r : PermissionRow) → (f r).user_id ≡ r.user_id) where
  find_row-update :
      (l : List PermissionRow) → find_row u (update_row u f l) ≡ mapped f (find_row u l)
  unfolding find_row update_row
  find_row-update [] = refl
  find_row-update (r ∷ l) = elim (Bool-cases (r.user_id == u)) [
    | inl same ↦ simp (same, keeps r) refl
    | inr other ↦ simp other (find_row-update l)
  ]

  find_row-update_other :
      (v : ℕ) (l : List PermissionRow)
      → (v == u) ≡ false
      → find_row v (update_row u f l) ≡ find_row v l
  unfolding find_row update_row
  find_row-update_other v [] ne = refl
  find_row-update_other v (r ∷ l) ne = elim (Bool-cases (r.user_id == u)) [
    | inl same ↦
        let apart : (r.user_id == v) ≡ false = ground arith in
        simp (same, keeps r, apart) (find_row-update_other v l ne)
    | inr other ↦
        simp other (ap (λ o. if r.user_id == v then some r else o) (find_row-update_other v l ne))
  ]

module _ (doomed : List ℕ → Bool) (path : List ℕ) (v : ℕ) where
  clean-Narrower :
      (l : List PermissionRow)
      → Narrower path (find_row v l) (find_row v (clean_permissions doomed l).0)
  unfolding find_row
  clean-Narrower [] a = a
  clean-Narrower (r ∷ l) a =
      let next = folders_without doomed (parse_allowed_folders r.allowed_folders) in
      let a' =
        subst (λ m. row_allows path (find_row v m) ≡ true)
          (clean-cons r next (clean_permissions doomed l).0 (clean_permissions doomed l).1
            (clean_permissions doomed l).2 _)
          a in
      let a'' =
        subst
          (λ i.
            row_allows path (
              if i == v then some (clean_row r next) else find_row v (clean_permissions doomed l).0)
            ≡ true)
          (same_row doomed r next) a' in
      both (r.user_id == v) (some r) (some (clean_row r next)) (find_row v l) _
        (clean_row-Narrower doomed path r next refl) (clean-Narrower l) a''
    where
      both :
          (b : Bool) (o o' k k' : Option PermissionRow)
          → Narrower path o o'
          → Narrower path k k'
          → Narrower path (if b then o else k) (if b then o' else k')
      both true o o' k k' f g = f
      both false o o' k k' f g = g

  written-Narrower :
      (u : ℕ) (s : Store) (r : PermissionRow) (o : Option (List (List ℕ)))
      → find_row u s.permissions ≡ some r
      → folders_without doomed (parse_allowed_folders r.allowed_folders) ≡ o
      → Narrower path (find_row v s.permissions) (find_row v (without_next u s o).0.permissions)
  written-Narrower u s r none e k a = a
  written-Narrower u s r (some next) e k a = elim (Bool-cases (v == u)) [
    | inl same ↦
        let vu = (==_iff v u).0 same in
        let f : PermissionRow → PermissionRow =
          λ r. record r { allowed_folders = column_of next } in
        let row = find_row-update u f (λ r. refl) s.permissions ∙ ap (mapped f) e in
        let a' =
          subst (λ w. row_allows path (find_row w (update_row u f s.permissions)) ≡ true) vu a in
        rw (vu, e)
          (folders_without-narrow doomed r.allowed_folders next path k
            (subst (λ o. row_allows path o ≡ true) row a'))
    | inr ne ↦
        subst (λ o. row_allows path o ≡ true)
          (find_row-update_other u (λ r. record r { allowed_folders = column_of next }) (λ r. refl)
            v s.permissions ne)
          a
  ]

without_row-Narrower :
    (u v : ℕ) (target path : List ℕ) (s : Store) (o : Option PermissionRow)
    → find_row u s.permissions ≡ o
    → Narrower path (find_row v s.permissions) (find_row v (without_row u target s o).0.permissions)
without_row-Narrower u v target path s none e a = a
without_row-Narrower u v target path s (some r) e a =
    written-Narrower (λ f. bytes_eq (normalize_path f) target) path v u s r _ e refl a

remove_folder-Narrower :
    (u v : ℕ) (target path : List ℕ) (s : Store)
    → Narrower path (find_row v s.permissions) (find_row v (remove_folder u target s).0.permissions)
remove_folder-Narrower u v target path s =
    if_cases {A = Store × Bool}
      (λ r. Narrower path (find_row v s.permissions) (find_row v r.0.permissions))
      (has_row u target s.auto_granted)
      (λ _. without_row-Narrower u v target path s (find_row u s.permissions) refl) (λ _ a. a)

-- Neither of the two deletions of workspaces gives any user a path that the user's row did not
-- allow before, as the rows are read: a list that becomes empty is not read as all folders.
pub deletions-narrow :
    (windows : Bool) (canonical : List ℕ → List ℕ) (root : List ℕ) (ids : List (List ℕ)) (u v : ℕ)
    (path : List ℕ) (s : Store)
    → row_allows path (find_row v s.permissions) ≡ false
    → (row_allows path (find_row v (remove_user_owned_workspace u root ids s).0.permissions)
        ≡ false)
      × (row_allows path
            (find_row v (cleanup_deleted_workspace_tree windows canonical root ids s).0.permissions)
          ≡ false)
unfolding remove_user_owned_workspace cleanup_deleted_workspace_tree
deletions-narrow windows canonical root ids u v path s h = (
  refuted _ _
      (remove_folder-Narrower u v (normalize_path root) path
        (record s { workspaces = delete_row u (normalize_path root) s.workspaces }))
      h,
  refuted _ _
      (clean-Narrower (λ f. path_within_deleted_tree windows canonical f root) path v s.permissions)
      h,
)
  where
    refuted : (b c : Bool) → (c ≡ true → b ≡ true) → b ≡ false → c ≡ false
    refuted b true f h = absurd (cc (f refl, h))
    refuted b false f h = refl
