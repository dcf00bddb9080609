-- ===== src/Accounts/Sessions/Entries.antt =====
-- The entries of the cache in src/gateway.ts under the calls.
use dsh_passwords.Prelude.{
  ℕ, ◌≡◌, inl, inr, subst, zero, suc, some, List, [], ◌∷◌, ◌==◌, leb, length, drop, if_cases,
  bytes_eq, bytes_eq_iff, arith, All, Bool-cases,
}
use dsh_passwords.Accounts.Sessions.{
  Entry, Gate, find_entry, delete_entry, set_entry, invalidate_user, sweep, live_entries,
}

-- What the calls do to a property of the entries.
module _ {κ} (P : Entry → Type κ) where
  pub delete_entry-All : (token : List ℕ) (l : List Entry) → All P l → All P (delete_entry token l)
  unfolding delete_entry
  delete_entry-All token [] h = tt
  delete_entry-All token (e ∷ l) (p, h) =
      if_cases (All P) (bytes_eq e.token token) (λ _. delete_entry-All token l h)
        (λ _. (p, delete_entry-All token l h))

  pub set_entry-All : (x : Entry) (l : List Entry) → P x → All P l → All P (set_entry x l)
  unfolding set_entry
  set_entry-All x [] q h = (q, tt)
  set_entry-All x (e ∷ l) q (p, h) =
      if_cases (All P) (bytes_eq e.token x.token) (λ _. (q, h)) (λ _. (p, set_entry-All x l q h))

  pub invalidate_user-All : (i : ℕ) (l : List Entry) → All P l → All P (invalidate_user i l)
  unfolding invalidate_user
  invalidate_user-All i [] h = tt
  invalidate_user-All i (e ∷ l) (p, h) =
      if_cases (All P) (e.user_id == i) (λ _. invalidate_user-All i l h)
        (λ _. (p, invalidate_user-All i l h))

  live_entries-All : (now : ℕ) (l : List Entry) → All P l → All P (live_entries now l)
  live_entries-All now [] h = tt
  live_entries-All now (e ∷ l) (p, h) =
      if_cases (All P) (leb e.expire_at now) (λ _. live_entries-All now l h)
        (λ _. (p, live_entries-All now l h))

  drop-All : (n : ℕ) (l : List Entry) → All P l → All P (drop n l)
  drop-All zero l h = h
  drop-All (suc n) [] h = tt
  drop-All (suc n) (e ∷ l) (p, h) = drop-All n l h

  pub sweep-All : (now : ℕ) (g : Gate) → All P g.cache → All P (sweep now g).cache
  unfolding sweep
  sweep-All now g h =
      let live = live_entries-All now g.cache h in
      if_cases (All P) (leb (length (live_entries now g.cache)) 10000) (λ _. live)
        (λ _. drop-All _ (live_entries now g.cache) live)

  pub find_entry-All :
      (token : List ℕ) (x : Entry) (l : List Entry)
      → find_entry token l ≡ some x
      → All P l
      → P x × (x.token ≡ token)
  unfolding find_entry
  find_entry-All token x [] e h = cc
  find_entry-All token x (y ∷ l) e (p, h) = elim (Bool-cases (bytes_eq y.token token)) [
    | inl hit ↦
        let same : y ≡ x = ground arith in
        subst (λ z. P z × (z.token ≡ token)) same (p, (bytes_eq_iff y.token token).0 hit)
    | inr other ↦ find_entry-All token x l (ground arith) h
  ]
