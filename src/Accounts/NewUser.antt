-- ===== src/Accounts/NewUser.antt =====
-- A sub-user that `addSubUser` of src/auth.ts has created.
use dsh_passwords.Prelude.{
  ℕ, ◌≡◌, refl, ap, Bool, true, false, not, none, some, List, [], ◌∷◌, ◌++◌, ◌==◌, ==_refl,
  if_cases, is_some, Bool-cases, inl, inr, not-false,
}
use dsh_passwords.Text.{has_text}
use dsh_passwords.Store.{
  Store, PermissionRow, deny, sanitize_allowed_folders, parse_allowed_folders,
}
use dsh_passwords.Store.Permissions.{
  put_row, set_permissions, conflict_of, commit_permissions, row_to_write,
}
use dsh_passwords.Store.Reading.{Permissions, find_row, get_permissions, read_found}
use dsh_passwords.Permissions.Folders.{folder_allowed}
use dsh_passwords.Accounts.{Tables, get_user_by_username, create_user, find_hash, account_of}
use dsh_passwords.Accounts.Input.{is_username, is_password, has_injection}
use dsh_passwords.Accounts.Service.{
  Caller, Ended, add_sub_user, sub_user_created, default_permissions,
}

pub find_row-put :
    (r : PermissionRow) (l : List PermissionRow)
    → (b : Bool) × (find_row r.user_id (put_row r l)
        ≡ some (record r { session_grants_seeded = b }))
unfolding find_row put_row
find_row-put r [] = (r.session_grants_seeded, rw (==_refl r.user_id) refl)
find_row-put r (x ∷ l) = elim (Bool-cases (x.user_id == r.user_id)) [
  | inl same ↦ (x.session_grants_seeded, simp (same, ==_refl r.user_id) refl)
  | inr other ↦ let (b, e) = find_row-put r l in (b, simp other e)
]

-- A list with the sentinel allows no folder.
denied : (path : List ℕ) → folder_allowed path (sanitize_allowed_folders deny) ≡ false
unfolding folder_allowed sanitize_allowed_folders has_text
denied path = refl

abbrev pub IsShut : ℕ → Store → Type 0
IsShut u s =
    (p : Permissions) × (get_permissions u s ≡ some p)
    × ((path : List ℕ) → folder_allowed path p.allowed_folders ≡ false)

default-IsShut : (u : ℕ) (s : Store) → IsShut u (commit_permissions u default_permissions s)
unfolding get_permissions commit_permissions parse_allowed_folders sanitize_allowed_folders has_text
default-IsShut u s =
    let (b, e) = find_row-put (row_to_write u default_permissions s) s.permissions in
    (_, ap read_found e, denied)

module _ (lookup_hash : List ℕ → ℕ) (hash : List ℕ → List ℕ) (caller : Caller)
    (username password : List ℕ) (t : Tables) where
  -- What a call that ends without an error has done.
  abbrev Made : Ended → Type 0
  Made r =
      r.1 ≡ none
      → (caller.is_admin ≡ true)
        × (is_password password ≡ true)
        × (r.0.users
            ≡ t.users ++ account_of lookup_hash t.next_id username (hash password) false ∷ [])
        × IsShut t.next_id r.0.store

  -- An `addSubUser` that throws nothing was called by an admin with a password of the policy; it
  -- adds one row, a sub-user's with the next id, whose permissions allow no folder at all.
  pub add_sub_user-made :
      (add_sub_user lookup_hash hash caller username password t).1 ≡ none
      → (caller.is_admin ≡ true)
        × (is_password password ≡ true)
        × ((add_sub_user lookup_hash hash caller username password t).0.users
            ≡ t.users ++ account_of lookup_hash t.next_id username (hash password) false ∷ [])
        × IsShut t.next_id (add_sub_user lookup_hash hash caller username password t).0.store
  unfolding add_sub_user create_user set_permissions conflict_of
  add_sub_user-made =
      if_cases Made (not caller.is_admin) (λ _ e. cc)
        (λ admin.
          if_cases Made (not (is_username username)) (λ _ e. cc)
            (λ _.
              if_cases Made (has_injection username) (λ _ e. cc)
                (λ _.
                  if_cases Made (is_some (get_user_by_username lookup_hash username t)) (λ _ e. cc)
                    (λ _.
                      if_cases Made (not (is_password password)) (λ _ e. cc)
                        (λ fit.
                          if_cases (λ o. Made (sub_user_created t o))
                            (is_some (find_hash (lookup_hash username) t.users)) (λ _ e. cc)
                            (λ _ e. (
                              not-false caller.is_admin admin,
                              not-false (is_password password) fit,
                              refl,
                              default-IsShut t.next_id t.store,
                            )))))))
