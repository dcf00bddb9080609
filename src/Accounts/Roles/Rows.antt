-- ===== src/Accounts/Roles/Rows.antt =====
-- Admins and ids in the rows of `users`, under the writes on them.
use dsh_passwords.Prelude.{
  ℕ, ◌<◌, ◌≡◌, ◌≢◌, refl, Bool, true, false, ◌||◌, Option, some, List, [], ◌∷◌, ◌++◌, ◌==◌, arith,
  All, if_cases, if◌then◌else◌, All-append, All-mono, ◌⊎◌, subst, some_inj, sym, inl, inr,
}
use dsh_passwords.Accounts.{Account, find_hash, update_id, delete_id}

abbrev pub has_admin : List Account → Bool
has_admin [] = false
has_admin (x ∷ l) = x.is_admin || has_admin l

abbrev pub has_id : ℕ → List ℕ → Bool
has_id i [] = false
has_id i (j ∷ l) = i == j || has_id i l

-- No two rows have the same id.
abbrev pub HasUnique : List Account → Type 0
HasUnique [] = Unit
HasUnique (x ∷ l) = All (λ y. y.id ≢ x.id) l × HasUnique l

-- No row of this id is an admin's.
abbrev pub IsUser : ℕ → List Account → Type 0
IsUser i l = All (λ x. x.id ≡ i → x.is_admin ≡ false) l

module _ (i : ℕ) (f : Account → Account)
    (keeps : (x : Account) → ((f x).id ≡ x.id) × ((f x).is_admin ≡ x.is_admin)) where
  pub update-has_admin : (l : List Account) → has_admin (update_id i f l) ≡ has_admin l
  update-has_admin [] = refl
  update-has_admin (x ∷ l) = ground (arith, keeps x, update-has_admin l)

  pub update-Below :
      (n : ℕ) (l : List Account) → All (λ x. x.id < n) l → All (λ x. x.id < n) (update_id i f l)
  update-Below n [] h = tt
  update-Below n (x ∷ l) h = ground (arith, keeps x, update-Below n l)

  update-Apart :
      (n : ℕ) (l : List Account) → All (λ x. x.id ≢ n) l → All (λ x. x.id ≢ n) (update_id i f l)
  update-Apart n [] h = tt
  update-Apart n (x ∷ l) h = ground (arith, keeps x, update-Apart n l)

  touched-id : (x : Account) → (if x.id == i then f x else x).id ≡ x.id
  touched-id x =
      if_cases {A = Account} (λ y. y.id ≡ x.id) (x.id == i) (λ _. (keeps x).0) (λ _. refl)

  pub update-HasUnique : (l : List Account) → HasUnique l → HasUnique (update_id i f l)
  update-HasUnique [] h = tt
  update-HasUnique (x ∷ l) h = (rw (touched-id x) (update-Apart x.id l h.0), update-HasUnique l h.1)

  pub update-IsUser : (n : ℕ) (l : List Account) → IsUser n l → IsUser n (update_id i f l)
  update-IsUser n [] h = tt
  update-IsUser n (x ∷ l) h = ground (arith, keeps x, update-IsUser n l h.1)

pub delete-has_admin :
    (i : ℕ) (l : List Account) → IsUser i l → has_admin (delete_id i l) ≡ has_admin l
delete-has_admin i [] h = refl
delete-has_admin i (x ∷ l) h = ground (arith, delete-has_admin i l h.1)

pub delete-All {κ} :
    (P : Account → Type κ) (i : ℕ) (l : List Account) → All P l → All P (delete_id i l)
delete-All P i [] h = tt
delete-All P i (x ∷ l) (p, h) =
    if_cases (All P) (x.id == i) (λ _. delete-All P i l h) (λ _. (p, delete-All P i l h))

pub delete-HasUnique : (i : ℕ) (l : List Account) → HasUnique l → HasUnique (delete_id i l)
delete-HasUnique i [] h = tt
delete-HasUnique i (x ∷ l) (p, h) =
    if_cases HasUnique (x.id == i) (λ _. delete-HasUnique i l h)
      (λ _. (delete-All (λ y. y.id ≢ x.id) i l p, delete-HasUnique i l h))

pub append-has_admin : (l m : List Account) → has_admin (l ++ m) ≡ (has_admin l || has_admin m)
append-has_admin [] m = refl
append-has_admin (x ∷ l) m = ground (arith, append-has_admin l m)

pub append-HasUnique :
    (l : List Account) (x : Account)
    → All (λ y. y.id < x.id) l
    → HasUnique l
    → HasUnique (l ++ x ∷ [])
append-HasUnique [] x h u = (tt, tt)
append-HasUnique (y ∷ l) x (p, h) (q, u) =
    (All-append (λ z. z.id ≢ y.id) l (x ∷ []) q (ground arith, tt), append-HasUnique l x h u)

-- A first match is the head of the list or lies behind it.
pub first-cases :
    (b : Bool) (y x : Account) (o : Option Account)
    → (if b then some y else o) ≡ some x
    → (y ≡ x) ⊎ (o ≡ some x)
first-cases true y x o e = inl (some_inj y x e)
first-cases false y x o e = inr e

pub find_hash-All {κ} :
    (P : Account → Type κ) (h : ℕ) (x : Account) (l : List Account)
    → find_hash h l ≡ some x
    → All P l
    → P x
find_hash-All P h x [] e p = cc
find_hash-All P h x (z ∷ l) e (q, p) =
    elim (first-cases (z.username_hash == h) z x (find_hash h l) e) [
      | inl same ↦ subst P same q
      | inr found ↦ find_hash-All P h x l found p
    ]

-- A row that is found by its hash, among distinct ids, is the only one with its id.
pub find_hash-IsUser :
    (h : ℕ) (x : Account) (l : List Account)
    → find_hash h l ≡ some x
    → x.is_admin ≡ false
    → HasUnique l
    → IsUser x.id l
find_hash-IsUser h x [] e na u = tt
find_hash-IsUser h x (y ∷ l) e na (p, u) =
    elim (first-cases (y.username_hash == h) y x (find_hash h l) e) [
      | inl q ↦
          let p' : All (λ z. z.id ≢ x.id) l = rw (sym q) p in
          (λ _. cc, All-mono l (λ z ne same. absurd (ne same)) p')
      | inr found ↦
          let rest = find_hash-IsUser h x l found na u in
          let apart = find_hash-All (λ z. z.id ≢ y.id) h x l found p in
          (λ same. absurd (apart (sym same)), rest)
    ]
