-- ===== src/Accounts/Atomic.antt =====
-- What the operations of src/auth.ts on accounts leave behind where they throw.
use dsh_passwords.Prelude.{
  ℕ, ◌≡◌, ◌⊎◌, refl, inl, inr, Bool, false, not, ◌&&◌, Option, none, some, List, ◌++◌, if_cases,
  is_some, bytes_eq,
}
use dsh_passwords.Text.{codes, trim}
use dsh_passwords.Store.Permissions.{set_permissions, conflict_of}
use dsh_passwords.Accounts.{
  Account, Tables, get_user_by_username, find_hash, create_user, update_username, is_taken,
}
use dsh_passwords.Accounts.Input.{is_username, is_password, has_injection}
use dsh_passwords.Accounts.Service.{
  Caller, AuthError, Ended, fails, change_password, change_found, rename_user, rename_found,
  add_sub_user, sub_user_created, remove_user, remove_found, remove_checked, removable, is_current,
  updated_or_failed,
}
use dsh_passwords.Accounts.Verified.{IsCounted, verify-IsVerified, setup-IsUnchanged}
use dsh_passwords.Accounts.Callers.{
  Call, change_call, rename_call, add_call, remove_call, verify_call, setup_call, run,
}

module _ (lookup_hash : List ℕ → ℕ) (hash : List ℕ → List ℕ) (compare : List ℕ → List ℕ → Bool)
    (caller : Caller) (t : Tables) where
  -- An operation that throws changes nothing.
  abbrev IsAtomic : Ended → Type 0
  IsAtomic r = (r.1 ≡ none) ⊎ (r.0 ≡ t)

  fails-IsAtomic : (e : AuthError) → IsAtomic (fails e t)
  fails-IsAtomic e = inr refl

  change-IsAtomic :
      (password : List ℕ) (current : Option (List ℕ)) (o : Option Account)
      → IsAtomic (change_found hash compare caller password current t o)
  change-IsAtomic password current none = inr refl
  change-IsAtomic password current (some x) =
      if_cases IsAtomic (not caller.is_admin && not (bytes_eq caller.username x.username))
        (λ _. inr refl)
        (λ _.
          if_cases IsAtomic
            (bytes_eq caller.username x.username && not (is_current compare current x))
            (λ _. inr refl)
            (λ _. if_cases IsAtomic (not (is_password password)) (λ _. inr refl) (λ _. inl refl)))

  rename-IsAtomic :
      (username : List ℕ) (o : Option Account)
      → IsAtomic (rename_found lookup_hash caller username t o)
  unfolding update_username
  rename-IsAtomic username none = inr refl
  rename-IsAtomic username (some x) =
      if_cases IsAtomic (not caller.is_admin && not (bytes_eq caller.username x.username))
        (λ _. inr refl)
        (λ _.
          if_cases IsAtomic (not (is_username username)) (λ _. inr refl)
            (λ _.
              if_cases IsAtomic (has_injection username) (λ _. inr refl)
                (λ _.
                  if_cases IsAtomic (is_some (get_user_by_username lookup_hash username t))
                    (λ _. inr refl)
                    (λ _.
                      if_cases (λ o. IsAtomic (updated_or_failed o t))
                        (is_taken x.id (lookup_hash username) t.users) (λ _. inr refl)
                        (λ _. inl refl)))))

  created-IsAtomic :
      (username password : List ℕ)
      → IsAtomic (sub_user_created t (create_user lookup_hash username (hash password) false t))
  unfolding create_user set_permissions conflict_of
  created-IsAtomic username password =
      if_cases (λ o. IsAtomic (sub_user_created t o))
        (is_some (find_hash (lookup_hash username) t.users)) (λ _. inr refl) (λ _. inl refl)

  add-IsAtomic :
      (username password : List ℕ)
      → IsAtomic (add_sub_user lookup_hash hash caller username password t)
  unfolding add_sub_user
  add-IsAtomic username password =
      if_cases IsAtomic (not caller.is_admin) (λ _. inr refl)
        (λ _.
          if_cases IsAtomic (not (is_username username)) (λ _. inr refl)
            (λ _.
              if_cases IsAtomic (has_injection username) (λ _. inr refl)
                (λ _.
                  if_cases IsAtomic (is_some (get_user_by_username lookup_hash username t))
                    (λ _. inr refl)
                    (λ _.
                      if_cases IsAtomic (not (is_password password)) (λ _. inr refl)
                        (λ _. created-IsAtomic username password)))))

  checked-IsAtomic :
      (x : Account) (o : Option AuthError) → IsAtomic (remove_checked lookup_hash x t o)
  checked-IsAtomic x none = inl refl
  checked-IsAtomic x (some e) = inr refl

  remove-IsAtomic : (o : Option Account) → IsAtomic (remove_found lookup_hash caller t o)
  remove-IsAtomic none = inr refl
  remove-IsAtomic (some x) = checked-IsAtomic x (removable caller x)

  -- What a call may change although it throws: only a check of the admin's password, which may
  -- count one more failure.
  abbrev pub IsFailure : Call → Tables → Type 0
  IsFailure (verify_call password ip now later) t' =
      IsCounted (lookup_hash caller.username) (lookup_hash (codes "purge:" ++ ip)) t t'
  IsFailure c t' = ⊥

  abbrev IsSettled : Call → Ended → Type 0
  IsSettled c r = (r.1 ≡ none) ⊎ (r.0 ≡ t) ⊎ IsFailure c r.0

  atomic-IsSettled : (c : Call) (r : Ended) → IsAtomic r → IsSettled c r
  atomic-IsSettled c r (inl h) = inl h
  atomic-IsSettled c r (inr h) = inr (inl h)

  -- A call of the account operations that throws leaves the tables as they were, so that no user is
  -- half created or half removed, with one exception: a check of the admin's password may count
  -- one more failure of the caller's name at the address, and then changes nothing but the rows of
  -- the failures.
  pub run-atomic :
      (c : Call)
      → ((run lookup_hash hash compare caller c t).1 ≡ none)
        ⊎ ((run lookup_hash hash compare caller c t).0 ≡ t)
        ⊎ IsFailure c (run lookup_hash hash compare caller c t).0
  unfolding change_password rename_user remove_user
  run-atomic (change_call target password current) =
      atomic-IsSettled (change_call target password current) _
        (change-IsAtomic password current (get_user_by_username lookup_hash (trim target) t))
  run-atomic (rename_call target username) =
      atomic-IsSettled (rename_call target username) _
        (rename-IsAtomic username (get_user_by_username lookup_hash (trim target) t))
  run-atomic (add_call username password) =
      atomic-IsSettled (add_call username password) _ (add-IsAtomic username password)
  run-atomic (remove_call target) = atomic-IsSettled (remove_call target) _ (
      if_cases IsAtomic (not caller.is_admin) (λ _. inr refl)
        (λ _. remove-IsAtomic (get_user_by_username lookup_hash (trim target) t)))
  run-atomic (verify_call password ip now later) =
      verify-IsVerified lookup_hash compare caller password ip now later t
  run-atomic (setup_call config_key setup_key username password) =
      atomic-IsSettled (setup_call config_key setup_key username password) _
        (setup-IsUnchanged lookup_hash hash t config_key setup_key username password)
