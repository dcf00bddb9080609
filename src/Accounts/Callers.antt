-- ===== src/Accounts/Callers.antt =====
-- Who may do what in src/auth.ts, over every branch of the operations on accounts.
use dsh_passwords.Prelude.{
  ℕ, ◌≡◌, ◌≢◌, refl, inl, inr, Bool, false, not, ◌&&◌, Option, none, some, List, ◌++◌, ap, ◌∙◌,
  if_cases, is_some, bytes_eq, bytes_eq_iff, Bool-cases,
}
use dsh_passwords.Text.{codes, trim}
use dsh_passwords.Accounts.{
  Account, Tables, get_user_by_username, find_hash, find_id, update_username, update_password_hash,
  is_taken, rehashed, renamed,
}
use dsh_passwords.Accounts.Input.{is_username, is_password, has_injection}
use dsh_passwords.Accounts.Service.{
  Caller, Ended, change_password, change_found, rename_user, rename_found, add_sub_user,
  remove_user, is_current, updated_or_failed, verify_admin_password, setup,
}
use dsh_passwords.Accounts.Verified.{verify-users, setup-found}
use dsh_passwords.Accounts.Roles.Rows.{HasUnique}
use dsh_passwords.Accounts.Lookups.{update_others}

-- One call of the service by a signed-in user. A check of the admin's password has its address and
-- the clock before and behind it; `setup`, which asks for no user, has the server's setup key first.
pub data Call : Type 0 where
  change_call : List ℕ → List ℕ → Option (List ℕ) → Call
  rename_call : List ℕ → List ℕ → Call
  add_call : List ℕ → List ℕ → Call
  remove_call : List ℕ → Call
  verify_call : List ℕ → List ℕ → ℕ → ℕ → Call
  setup_call : List ℕ → List ℕ → List ℕ → List ℕ → Call

abbrev pub run :
    (List ℕ → ℕ) → (List ℕ → List ℕ) → (List ℕ → List ℕ → Bool) → Caller → Call → Tables → Ended
run lookup_hash hash compare caller (change_call target password current) t =
    change_password lookup_hash hash compare caller target password current t
run lookup_hash hash compare caller (rename_call target username) t =
    rename_user lookup_hash caller target username t
run lookup_hash hash compare caller (add_call username password) t =
    add_sub_user lookup_hash hash caller username password t
run lookup_hash hash compare caller (remove_call target) t = remove_user lookup_hash caller target t
run lookup_hash hash compare caller (verify_call password ip now later) t =
    verify_admin_password lookup_hash compare caller password ip now later t
run lookup_hash hash compare caller (setup_call config_key setup_key username password) t =
    setup lookup_hash hash config_key setup_key username password t

module _ (lookup_hash : List ℕ → ℕ) (hash : List ℕ → List ℕ) (compare : List ℕ → List ℕ → Bool)
    (caller : Caller) (t : Tables) where
  module _ (user : caller.is_admin ≡ false) (unique : HasUnique t.users) (j : ℕ) (y : Account)
      (found : find_id j t.users ≡ some y) (ne : y.username ≢ caller.username) where
    abbrev Kept : Ended → Type 0
    Kept r = find_id j r.0.users ≡ some y

    change-Kept :
        (h : ℕ) (password : List ℕ) (current : Option (List ℕ)) (o : Option Account)
        → find_hash h t.users ≡ o
        → Kept (change_found hash compare caller password current t o)
    unfolding update_password_hash
    change-Kept h password current none e = found
    change-Kept h password current (some x) e =
        elim (Bool-cases (bytes_eq caller.username x.username)) [
          | inl self ↦
              let same : caller.username ≡ x.username =
                (bytes_eq_iff caller.username x.username).0 self in
              if_cases Kept (not caller.is_admin && not (bytes_eq caller.username x.username))
                (λ _. found)
                (λ _.
                  if_cases Kept
                    (bytes_eq caller.username x.username && not (is_current compare current x))
                    (λ _. found)
                    (λ _.
                      if_cases Kept (not (is_password password)) (λ _. found)
                        (λ _.
                          update_others h j caller.username x y (rehashed (hash password)) t.users
                            (λ z. refl) unique e found same ne)))
          | inr other ↦ simp (user, other) found
        ]

    rename-Kept :
        (h : ℕ) (username : List ℕ) (o : Option Account)
        → find_hash h t.users ≡ o
        → Kept (rename_found lookup_hash caller username t o)
    unfolding update_username
    rename-Kept h username none e = found
    rename-Kept h username (some x) e = elim (Bool-cases (bytes_eq caller.username x.username)) [
      | inl self ↦
          let same : caller.username ≡ x.username =
            (bytes_eq_iff caller.username x.username).0 self in
          if_cases Kept (not caller.is_admin && not (bytes_eq caller.username x.username))
            (λ _. found)
            (λ _.
              if_cases Kept (not (is_username username)) (λ _. found)
                (λ _.
                  if_cases Kept (has_injection username) (λ _. found)
                    (λ _.
                      if_cases Kept (is_some (get_user_by_username lookup_hash username t))
                        (λ _. found)
                        (λ _.
                          if_cases (λ o. Kept (updated_or_failed o t))
                            (is_taken x.id (lookup_hash username) t.users) (λ _. found)
                            (λ _.
                              update_others h j caller.username x y (renamed lookup_hash username)
                                t.users (λ z. refl) unique e found same ne)))))
      | inr other ↦ simp (user, other) found
    ]

    -- Where ids are distinct, no call of a sub-user changes or removes the row of a user of
    -- another name, whatever the call and its arguments are.
    pub run-sub_user :
        (c : Call) → find_id j (run lookup_hash hash compare caller c t).0.users ≡ some y
    unfolding change_password rename_user remove_user add_sub_user get_user_by_username
    run-sub_user (change_call target password current) =
        change-Kept (lookup_hash (trim target)) password current _ refl
    run-sub_user (rename_call target username) =
        rename-Kept (lookup_hash (trim target)) username _ refl
    run-sub_user (add_call username password) = rw user found
    run-sub_user (remove_call target) = rw user found
    run-sub_user (verify_call password ip now later) =
        ap (find_id j) (
          verify-users compare (lookup_hash caller.username) (lookup_hash (codes "purge:" ++ ip))
            caller password now later t (get_user_by_username lookup_hash caller.username t))
        ∙ found
    run-sub_user (setup_call config_key setup_key username password) =
        ap (λ (s : Tables). find_id j s.users)
          (setup-found lookup_hash hash t j y found config_key setup_key username password)
        ∙ found
