-- ===== src/Accounts/Sessions/Revoked.antt =====
-- The revoked tokens of src/gateway.ts as a map.
use dsh_passwords.Prelude.{
  ℕ, ◌<◌, ◌≡◌, refl, ap, inl, inr, false, some, List, [], ◌∷◌, if◌then◌else◌, bytes_eq,
  bytes_eq_iff, arith, Bool-cases,
}
use dsh_passwords.Accounts.Sessions.{set_revoked, delete_revoked, find_revoked, live_revoked}

pub find_revoked-set :
    (k : List ℕ) (v : ℕ) (l : List (List ℕ × ℕ)) → find_revoked k (set_revoked k v l) ≡ some v
unfolding find_revoked set_revoked
find_revoked-set k v [] = rw ((bytes_eq_iff k k).1 refl) refl
find_revoked-set k v ((k', v') ∷ l) = elim (Bool-cases (bytes_eq k' k)) [
  | inl same ↦ simp (same, (bytes_eq_iff k k).1 refl) refl
  | inr other ↦ simp other (find_revoked-set k v l)
]

pub find_revoked-set_other :
    (k k' : List ℕ) (v : ℕ) (l : List (List ℕ × ℕ))
    → bytes_eq k' k ≡ false
    → find_revoked k (set_revoked k' v l) ≡ find_revoked k l
unfolding find_revoked set_revoked
find_revoked-set_other k k' v [] ne = rw ne refl
find_revoked-set_other k k' v ((k'', v'') ∷ l) ne = elim (Bool-cases (bytes_eq k'' k')) [
  | inl same ↦
      let e : bytes_eq k'' k ≡ false = rw ((bytes_eq_iff k'' k').0 same) ne in
      simp (same, ne, e) refl
  | inr other ↦
      simp other
        (ap (λ o. if bytes_eq k'' k then some v'' else o) (find_revoked-set_other k k' v l ne))
]

pub find_revoked-delete :
    (k k' : List ℕ) (l : List (List ℕ × ℕ))
    → bytes_eq k' k ≡ false
    → find_revoked k (delete_revoked k' l) ≡ find_revoked k l
unfolding find_revoked delete_revoked
find_revoked-delete k k' [] ne = refl
find_revoked-delete k k' ((k'', v'') ∷ l) ne = elim (Bool-cases (bytes_eq k'' k')) [
  | inl same ↦
      let e : bytes_eq k'' k ≡ false = rw ((bytes_eq_iff k'' k').0 same) ne in
      simp (same, e) (find_revoked-delete k k' l ne)
  | inr other ↦
      simp other (ap (λ o. if bytes_eq k'' k then some v'' else o) (find_revoked-delete k k' l ne))
]

pub find_revoked-live :
    (k : List ℕ) (now x : ℕ) (l : List (List ℕ × ℕ))
    → find_revoked k l ≡ some x
    → now < x
    → find_revoked k (live_revoked now l) ≡ some x
unfolding find_revoked
find_revoked-live k now x [] e lt = cc
find_revoked-live k now x ((k', v) ∷ l) e lt = ground (arith, find_revoked-live k now x l)
