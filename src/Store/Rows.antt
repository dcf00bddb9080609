-- ===== src/Store/Rows.antt =====
-- The texts of a user in a table of src/db.ts, under the writes on its rows.
use dsh_passwords.Prelude.{
  ℕ, ◌≡◌, refl, ap, ◌∙◌, sym, Bool, true, false, not, ◌&&◌, ◌||◌, List, [], ◌∷◌, ◌==◌, ==_refl,
  if_cases, if◌then◌else◌, bytes_eq, bytes_eq_iff, arith, Bool-cases, inl, inr,
}
use dsh_passwords.Text.{has_text}
use dsh_passwords.Store.{
  has_row, insert_or_ignore, delete_row, delete_user_rows, texts_of_user, insert_all, delete_each,
}

-- Whether the table has the text for the user.
abbrev pub granted : ℕ → List ℕ → List (ℕ × List ℕ) → Bool
granted u x l = has_text x (texts_of_user u l)

pub granted-has_row : (u : ℕ) (x : List ℕ) (l : List (ℕ × List ℕ)) → has_row u x l ≡ granted u x l
unfolding has_row texts_of_user has_text
granted-has_row u x [] = refl
granted-has_row u x (r ∷ l) = elim (Bool-cases (u == r.0)) [
  | inl same ↦ simp same (ap (λ b. bytes_eq x r.1 || b) (granted-has_row u x l))
  | inr other ↦ simp other (granted-has_row u x l)
]

absorbed : (a b c : Bool) → (a ≡ true → b ≡ true) → b ≡ (a || b)
absorbed true b c h = h refl
absorbed false b c h = refl

pub granted-insert :
    (u : ℕ) (x s : List ℕ) (l : List (ℕ × List ℕ))
    → granted u x (insert_or_ignore u s l) ≡ (bytes_eq x s || granted u x l)
unfolding insert_or_ignore texts_of_user has_text
granted-insert u x s l = elim (Bool-cases (has_row u s l)) [
  | inl there ↦ simp there (
      absorbed (bytes_eq x s) (granted u x l) true
        (λ e. rw ((bytes_eq_iff x s).0 e) (sym (granted-has_row u s l) ∙ there)))
  | inr new ↦ simp (new, ==_refl u) refl
]

pub granted-insert_other :
    (u v : ℕ) (s : List ℕ) (l : List (ℕ × List ℕ))
    → (v == u) ≡ false
    → texts_of_user v (insert_or_ignore u s l) ≡ texts_of_user v l
unfolding insert_or_ignore texts_of_user
granted-insert_other u v s l ne =
    if_cases (λ m. texts_of_user v m ≡ texts_of_user v l) (has_row u s l) (λ _. refl)
      (λ _. rw ne refl)

pub granted-insert_all :
    (u : ℕ) (x : List ℕ) (ss : List (List ℕ)) (l : List (ℕ × List ℕ))
    → granted u x (insert_all u ss l) ≡ (has_text x ss || granted u x l)
unfolding insert_all has_text
granted-insert_all u x [] l = refl
granted-insert_all u x (s ∷ ss) l =
    rw (granted-insert_all u x ss (insert_or_ignore u s l), granted-insert u x s l)
      (swapped (has_text x ss) (bytes_eq x s) (granted u x l))
  where
    swapped : (a b c : Bool) → (a || (b || c)) ≡ ((b || a) || c)
    swapped true true c = refl
    swapped true false c = refl
    swapped false true c = refl
    swapped false false c = refl

pub insert_all-other :
    (u v : ℕ) (ss : List (List ℕ)) (l : List (ℕ × List ℕ))
    → (v == u) ≡ false
    → texts_of_user v (insert_all u ss l) ≡ texts_of_user v l
unfolding insert_all
insert_all-other u v [] l ne = refl
insert_all-other u v (s ∷ ss) l ne =
    insert_all-other u v ss (insert_or_ignore u s l) ne ∙ granted-insert_other u v s l ne

pub granted-delete :
    (u : ℕ) (x s : List ℕ) (l : List (ℕ × List ℕ))
    → granted u x (delete_row u s l) ≡ (not (bytes_eq x s) && granted u x l)
unfolding delete_row texts_of_user has_text
granted-delete u x s [] = anded (bytes_eq x s)
  where
    anded : (b : Bool) → false ≡ (not b && false)
    anded true = refl
    anded false = refl
granted-delete u x s (r ∷ l) = elim (Bool-cases (u == r.0)) [
  | inl same ↦ elim (Bool-cases (bytes_eq s r.1)) [
    | inl hit ↦
        simp (same, hit)
          (granted-delete u x s l
            ∙ rw ((bytes_eq_iff s r.1).0 hit) (dropped (bytes_eq x r.1) (granted u x l)))
    | inr miss ↦
        simp (same, miss)
          (ap (λ b. bytes_eq x r.1 || b) (granted-delete u x s l)
            ∙ kept (bytes_eq x s) (bytes_eq x r.1) (granted u x l)
                (λ e. rw ((bytes_eq_iff x s).0 e) miss))
  ]
  | inr other ↦ simp other (granted-delete u x s l)
]
  where
    dropped : (a b : Bool) → (not a && b) ≡ (not a && (a || b))
    dropped true b = refl
    dropped false b = refl

    kept : (a b c : Bool) → (a ≡ true → b ≡ false) → (b || (not a && c)) ≡ (not a && (b || c))
    kept true b c h = rw (h refl) refl
    kept false b c h = refl

pub delete-other :
    (u v : ℕ) (s : List ℕ) (l : List (ℕ × List ℕ))
    → (v == u) ≡ false
    → texts_of_user v (delete_row u s l) ≡ texts_of_user v l
unfolding delete_row texts_of_user
delete-other u v s [] ne = refl
delete-other u v s (r ∷ l) ne = elim (Bool-cases (u == r.0)) [
  | inl same ↦
      let apart : (v == r.0) ≡ false = ground arith in
      elim (Bool-cases (bytes_eq s r.1)) [
        | inl hit ↦ simp (same, hit, apart) (delete-other u v s l ne)
        | inr miss ↦ simp (same, miss, apart) (delete-other u v s l ne)
      ]
  | inr other ↦ simp other (ap (λ m. if v == r.0 then r.1 ∷ m else m) (delete-other u v s l ne))
]

pub granted-delete_each :
    (u : ℕ) (x : List ℕ) (ss : List (List ℕ)) (l : List (ℕ × List ℕ))
    → granted u x (delete_each u ss l) ≡ (not (has_text x ss) && granted u x l)
unfolding delete_each has_text
granted-delete_each u x [] l = refl
granted-delete_each u x (s ∷ ss) l =
    rw (granted-delete_each u x ss (delete_row u s l), granted-delete u x s l)
      (joined (has_text x ss) (bytes_eq x s) (granted u x l))
  where
    joined : (a b c : Bool) → (not a && (not b && c)) ≡ (not (b || a) && c)
    joined true true c = refl
    joined true false c = refl
    joined false true c = refl
    joined false false c = refl

pub delete_each-other :
    (u v : ℕ) (ss : List (List ℕ)) (l : List (ℕ × List ℕ))
    → (v == u) ≡ false
    → texts_of_user v (delete_each u ss l) ≡ texts_of_user v l
unfolding delete_each
delete_each-other u v [] l ne = refl
delete_each-other u v (s ∷ ss) l ne =
    delete_each-other u v ss (delete_row u s l) ne ∙ delete-other u v s l ne

pub delete_user-none : (u : ℕ) (l : List (ℕ × List ℕ)) → texts_of_user u (delete_user_rows u l) ≡ []
unfolding delete_user_rows texts_of_user
delete_user-none u [] = refl
delete_user-none u (r ∷ l) = elim (Bool-cases (u == r.0)) [
  | inl same ↦ simp same (delete_user-none u l)
  | inr other ↦ simp other (delete_user-none u l)
]

pub delete_user-other :
    (u v : ℕ) (l : List (ℕ × List ℕ))
    → (v == u) ≡ false
    → texts_of_user v (delete_user_rows u l) ≡ texts_of_user v l
unfolding delete_user_rows texts_of_user
delete_user-other u v [] ne = refl
delete_user-other u v (r ∷ l) ne = elim (Bool-cases (u == r.0)) [
  | inl same ↦
      let apart : (v == r.0) ≡ false = ground arith in
      simp (same, apart) (delete_user-other u v l ne)
  | inr other ↦ simp other (ap (λ m. if v == r.0 then r.1 ∷ m else m) (delete_user-other u v l ne))
]
