-- ===== src/Accounts/Lookups.antt =====
-- Looking up rows of `users` by their id and by the hash of their name.
use dsh_passwords.Prelude.{
  ℕ, ◌≡◌, ◌≢◌, refl, sym, ap, subst, ◌∙◌, All, inl, inr, some, List, [], ◌∷◌, ◌++◌, ◌==◌, arith,
  Bool-cases,
}
use dsh_passwords.Accounts.{Account, find_hash, find_id, update_id}
use dsh_passwords.Accounts.Roles.Rows.{HasUnique, first-cases, find_hash-All}

find_id-eq : (j : ℕ) (y : Account) (l : List Account) → find_id j l ≡ some y → y.id ≡ j
find_id-eq j y [] e = cc
find_id-eq j y (z ∷ l) e = elim (Bool-cases (z.id == j)) [
  | inl t ↦ ground (arith, find_id-eq j y l)
  | inr f ↦ ground (arith, find_id-eq j y l)
]

find_id-All {κ} :
    (P : Account → Type κ) (j : ℕ) (y : Account) (l : List Account)
    → find_id j l ≡ some y
    → All P l
    → P y
find_id-All P j y [] e p = cc
find_id-All P j y (z ∷ l) e (q, p) = elim (first-cases (z.id == j) z y (find_id j l) e) [
  | inl same ↦ subst P same q
  | inr found ↦ find_id-All P j y l found p
]

-- Two rows with one id are one row.
same_row :
    (h j : ℕ) (x y : Account) (l : List Account)
    → HasUnique l
    → find_hash h l ≡ some x
    → find_id j l ≡ some y
    → x.id ≡ j
    → x ≡ y
same_row h j x y [] u e k same = cc
same_row h j x y (z ∷ l) (p, u) e k same =
    elim (first-cases (z.username_hash == h) z x (find_hash h l) e) [
      | inl zx ↦ elim (first-cases (z.id == j) z y (find_id j l) k) [
        | inl zy ↦ sym zx ∙ zy
        | inr found ↦ absurd (
            find_id-All (λ w. w.id ≢ z.id) j y l found p
              (find_id-eq j y l found ∙ sym same ∙ ap (λ w. w.id) (sym zx)))
      ]
      | inr found ↦ elim (first-cases (z.id == j) z y (find_id j l) k) [
        | inl zy ↦ absurd (
            find_hash-All (λ w. w.id ≢ z.id) h x l found p
              (same ∙ sym (find_id-eq j y (z ∷ l) k) ∙ ap (λ w. w.id) (sym zy)))
        | inr found' ↦ same_row h j x y l u found found' same
      ]
    ]

find_id-update :
    (i j : ℕ) (f : Account → Account) (l : List Account)
    → ((x : Account) → (f x).id ≡ x.id)
    → i ≢ j
    → find_id j (update_id i f l) ≡ find_id j l
find_id-update i j f [] keeps ne = refl
find_id-update i j f (x ∷ l) keeps ne = ground (arith, keeps x, find_id-update i j f l)

find_id-append :
    (j : ℕ) (y : Account) (l m : List Account) → find_id j l ≡ some y → find_id j (l ++ m) ≡ some y
find_id-append j y [] m e = cc
find_id-append j y (x ∷ l) m e = ground (arith, find_id-append j y l m)

-- A write on the row that a name finds leaves the rows of other names.
pub update_others :
    (h j : ℕ) (name : List ℕ) (x y : Account) (f : Account → Account) (l : List Account)
    → ((z : Account) → (f z).id ≡ z.id)
    → HasUnique l
    → find_hash h l ≡ some x
    → find_id j l ≡ some y
    → name ≡ x.username
    → y.username ≢ name
    → find_id j (update_id x.id f l) ≡ some y
update_others h j name x y f l keeps u e k same ne =
    find_id-update x.id j f l keeps
      (λ q. ne (ap (λ w. w.username) (sym (same_row h j x y l u e k q)) ∙ sym same))
    ∙ k
