-- ===== src/Accounts/Verified.antt =====
-- What `setup` and `verifyAdminPassword` of src/auth.ts leave behind where they throw.
use dsh_passwords.Prelude.{
  ℕ, ◌+◌, ◌≡◌, ◌⊎◌, refl, inl, inr, Bool, false, Option, none, some, List, [], ◌∷◌, ◌++◌, ◌==◌, leb,
  length, ◌∙◌, if_cases, arith,
}
use dsh_passwords.Text.{codes}
use dsh_passwords.Auth.{get_login_attempt, record_login_failure, failed_or, minutes}
use dsh_passwords.Auth.Locks.{record_login_failure-count, lock_login_attempt-count}
use dsh_passwords.Accounts.{
  Account, Tables, find_id, count_users, get_user_by_username, setup_initial_admin,
}
use dsh_passwords.Accounts.Service.{
  Caller, AuthError, Ended, setup, setup_error, setup_checked, setup_commit, setup_ended,
  verify_admin_hashed, verify_admin_password, is_purge_locked, is_admin_password, purge_failed,
  purge_max_failed, purge_lock_minutes,
}

-- Only the rows of failures differ, and the pair has one failure more.
abbrev pub IsCounted : ℕ → ℕ → Tables → Tables → Type 0
IsCounted u i t t' =
    (t' ≡ record t { attempts = t'.attempts })
    × (failed_or 0 (get_login_attempt u i t'.attempts)
        ≡ failed_or 0 (get_login_attempt u i t.attempts) + 1)

abbrev IsVerified : ℕ → ℕ → Tables → Ended → Type 0
IsVerified u i t r = (r.1 ≡ none) ⊎ (r.0 ≡ t) ⊎ IsCounted u i t r.0

purge_failed-IsVerified : (u i later : ℕ) (t : Tables) → IsVerified u i t (purge_failed u i later t)
purge_failed-IsVerified u i later t =
    let rows = record_login_failure u i t.attempts in
    let counted = (record_login_failure-count u i t.attempts).1 in
    if_cases (IsVerified u i t) (leb purge_max_failed (failed_or 1 (get_login_attempt u i rows)))
      (λ _. inr (
        inr (refl, lock_login_attempt-count u i (minutes later purge_lock_minutes) rows ∙ counted)))
      (λ _. inr (inr (refl, counted)))

verify_hashed-IsVerified :
    (compare : List ℕ → List ℕ → Bool) (u i : ℕ) (caller : Caller) (password : List ℕ)
    → (now later : ℕ) (t : Tables) (user : Option Account)
    → IsVerified u i t (verify_admin_hashed compare u i caller password now later t user)
unfolding verify_admin_hashed
verify_hashed-IsVerified compare u i caller password now later t user =
    if_cases (IsVerified u i t) (is_purge_locked now (get_login_attempt u i t.attempts))
      (λ _. inr (inl refl))
      (λ _.
        if_cases (IsVerified u i t) (is_admin_password compare caller password user) (λ _. inl refl)
          (λ _. purge_failed-IsVerified u i later t))

-- A check of the admin's password that throws changes nothing, or it counts one more failure of the
-- caller's name at this address, and changes nothing else.
pub verify-IsVerified :
    (lookup_hash : List ℕ → ℕ) (compare : List ℕ → List ℕ → Bool) (caller : Caller)
    → (password ip : List ℕ) (now later : ℕ) (t : Tables)
    → IsVerified
        (lookup_hash caller.username)
        (lookup_hash (codes "purge:" ++ ip))
        t
        (verify_admin_password lookup_hash compare caller password ip now later t)
verify-IsVerified lookup_hash compare caller password ip now later t =
    verify_hashed-IsVerified compare (lookup_hash caller.username)
      (lookup_hash (codes "purge:" ++ ip)) caller password now later t
      (get_user_by_username lookup_hash caller.username t)

-- No check of the admin's password touches a user.
pub verify-users :
    (compare : List ℕ → List ℕ → Bool) (u i : ℕ) (caller : Caller) (password : List ℕ)
    → (now later : ℕ) (t : Tables) (user : Option Account)
    → (verify_admin_hashed compare u i caller password now later t user).0.users ≡ t.users
unfolding verify_admin_hashed
verify-users compare u i caller password now later t user =
    if_cases (λ (r : Ended). r.0.users ≡ t.users)
      (is_purge_locked now (get_login_attempt u i t.attempts)) (λ _. refl)
      (λ _.
        if_cases (λ (r : Ended). r.0.users ≡ t.users)
          (is_admin_password compare caller password user) (λ _. refl)
          (λ _.
            if_cases (λ (r : Ended). r.0.users ≡ t.users)
              (leb purge_max_failed
                (failed_or 1 (get_login_attempt u i (record_login_failure u i t.attempts))))
              (λ _. refl) (λ _. refl)))

module _ (lookup_hash : List ℕ → ℕ) (hash : List ℕ → List ℕ) (t : Tables) where
  abbrev IsUnchanged : Ended → Type 0
  IsUnchanged r = (r.1 ≡ none) ⊎ (r.0 ≡ t)

  ended-IsUnchanged : (o : Option (Tables × ℕ)) → IsUnchanged (setup_ended o t)
  ended-IsUnchanged none = inr refl
  ended-IsUnchanged (some (t', id)) = inl refl

  checked-IsUnchanged :
      (username password : List ℕ) (o : Option AuthError)
      → IsUnchanged (setup_checked lookup_hash hash username password t o)
  unfolding setup_commit
  checked-IsUnchanged username password none =
      ended-IsUnchanged (setup_initial_admin lookup_hash username (hash password) t)
  checked-IsUnchanged username password (some e) = inr refl

  pub setup-IsUnchanged :
      (config_key setup_key username password : List ℕ)
      → IsUnchanged (setup lookup_hash hash config_key setup_key username password t)
  unfolding setup
  setup-IsUnchanged config_key setup_key username password =
      checked-IsUnchanged username password (setup_error config_key setup_key username password t)

  count_found :
      (j : ℕ) (l : List Account) (y : Account) → find_id j l ≡ some y → (length l == 0) ≡ false
  count_found j [] y e = cc
  count_found j (x ∷ l) y e = ground arith

  -- Where there is a user, `setup` changes nothing.
  pub setup-found :
      (j : ℕ) (y : Account)
      → find_id j t.users ≡ some y
      → (config_key setup_key username password : List ℕ)
      → (setup lookup_hash hash config_key setup_key username password t).0 ≡ t
  unfolding setup setup_error count_users
  setup-found j y e config_key setup_key username password = simp (count_found j t.users y e) refl
