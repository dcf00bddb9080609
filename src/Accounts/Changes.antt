-- ===== src/Accounts/Changes.antt =====
-- A changed password or name of src/auth.ts ends the tokens of before, and a new sub-user has no
-- folder.
use dsh_passwords.Prelude.{
  ℕ, ◌+◌, ◌≡◌, ◌≢◌, refl, inl, inr, Bool, false, not, ◌&&◌, Option, none, some, List, [], ◌∷◌, ◌==◌,
  if_cases, is_some, bytes_eq, arith, Bool-cases, ==_refl,
}
use dsh_passwords.Text.{trim}
use dsh_passwords.Accounts.{
  Account, Tables, get_user_by_username, get_user_by_id, find_hash, find_id, update_id,
  update_username, update_password_hash, is_taken, rehashed, renamed,
}
use dsh_passwords.Accounts.Input.{is_username, is_password, has_injection}
use dsh_passwords.Accounts.Service.{
  Caller, Ended, change_password, rename_user, is_current, updated_or_failed,
}
use dsh_passwords.Accounts.Roles.Rows.{HasUnique, first-cases, find_hash-All}
use dsh_passwords.Accounts.Sessions.{Payload, version_of, Gate, matched}

find_id-update_same :
    (i : ℕ) (f : Account → Account) (x : Account) (l : List Account)
    → ((z : Account) → (f z).id ≡ z.id)
    → find_id i l ≡ some x
    → find_id i (update_id i f l) ≡ some (f x)
find_id-update_same i f x [] keeps e = cc
find_id-update_same i f x (z ∷ l) keeps e = elim (Bool-cases (z.id == i)) [
  | inl t ↦ ground (arith, keeps z)
  | inr n ↦ ground (arith, keeps z, find_id-update_same i f x l keeps)
]

find_hash-find_id :
    (h : ℕ) (x : Account) (l : List Account)
    → HasUnique l
    → find_hash h l ≡ some x
    → find_id x.id l ≡ some x
find_hash-find_id h x [] u e = cc
find_hash-find_id h x (z ∷ l) (p, u) e =
    elim (first-cases (z.username_hash == h) z x (find_hash h l) e) [
      | inl zx ↦ rw (zx, ==_refl x.id) refl
      | inr found ↦
          ground
            (arith, find_hash-find_id h x l u found, find_hash-All (λ w. w.id ≢ z.id) h x l found p)
    ]

module _ (token : List ℕ) (now : ℕ) (p : Payload) (g : Gate) (x : Account)
    (old : version_of p.cv ≡ x.credential_version) where
  -- The row has gone on to the next version.
  matched-old :
      (row : Account)
      → row.credential_version ≡ x.credential_version + 1
      → matched token now p g (some row) ≡ (g, none)
  matched-old row e =
      let differs : (version_of p.cv == row.credential_version) ≡ false =
        rw (old, e) (ground arith) in
      if_cases (λ r. r ≡ (g, none)) (not (bytes_eq row.username p.username)) (λ _. refl)
        (λ _. simp differs refl)

  module _ (lookup_hash : List ℕ → ℕ) (hash : List ℕ → List ℕ) (compare : List ℕ → List ℕ → Bool)
      (caller : Caller) (target : List ℕ) (t : Tables) (unique : HasUnique t.users)
      (found : get_user_by_username lookup_hash (trim target) t ≡ some x) where
    abbrev Ends : Ended → Type 0
    Ends r = r.1 ≡ none → matched token now p g (get_user_by_id x.id r.0) ≡ (g, none)

    updated :
        (f : Account → Account)
        → ((z : Account) → (f z).id ≡ z.id)
        → (f x).credential_version ≡ x.credential_version + 1
        → matched token now p g (find_id x.id (update_id x.id f t.users)) ≡ (g, none)
    unfolding get_user_by_username
    updated f keeps e =
        rw (find_id-update_same x.id f x t.users keeps (find_hash-find_id _ x t.users unique found))
          (matched-old (f x) e)

    -- After a password was changed, no token of the version before passes the comparison with the
    -- account's row.
    pub change_password-ends :
        (password : List ℕ) (current : Option (List ℕ))
        → (change_password lookup_hash hash compare caller target password current t).1 ≡ none
        → matched token now p g (
            get_user_by_id x.id
              (change_password lookup_hash hash compare caller target password current t).0)
          ≡ (g, none)
    unfolding change_password update_password_hash get_user_by_id
    change_password-ends password current = rw found (
        if_cases Ends (not caller.is_admin && not (bytes_eq caller.username x.username)) (λ _ e. cc)
          (λ _.
            if_cases Ends
              (bytes_eq caller.username x.username && not (is_current compare current x))
              (λ _ e. cc)
              (λ _.
                if_cases Ends (not (is_password password)) (λ _ e. cc)
                  (λ _ e. updated (rehashed (hash password)) (λ z. refl) refl))))

    -- The same after a rename.
    pub rename_user-ends :
        (username : List ℕ)
        → (rename_user lookup_hash caller target username t).1 ≡ none
        → matched token now p g
            (get_user_by_id x.id (rename_user lookup_hash caller target username t).0)
          ≡ (g, none)
    unfolding rename_user update_username get_user_by_id
    rename_user-ends username = rw found (
        if_cases Ends (not caller.is_admin && not (bytes_eq caller.username x.username)) (λ _ e. cc)
          (λ _.
            if_cases Ends (not (is_username username)) (λ _ e. cc)
              (λ _.
                if_cases Ends (has_injection username) (λ _ e. cc)
                  (λ _.
                    if_cases Ends (is_some (get_user_by_username lookup_hash username t))
                      (λ _ e. cc)
                      (λ _.
                        if_cases (λ o. Ends (updated_or_failed o t))
                          (is_taken x.id (lookup_hash username) t.users) (λ _ e. cc)
                          (λ _ e. updated (renamed lookup_hash username) (λ z. refl) refl))))))
