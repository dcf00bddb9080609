-- ===== src/Store/Grants/Refined.antt =====
-- The session grants of src/db.ts as sets: what each operation does to the grants of every user.
use dsh_passwords.Prelude.{
  ℕ, ◌≡◌, refl, ap, ◌∙◌, Bool, true, false, not, ◌&&◌, ◌||◌, Option, none, some, List, [], ◌∷◌,
  ◌==◌, if_cases, if◌then◌else◌, bytes_eq, take, Bool-cases, inl, inr, ==_iff,
}
use dsh_passwords.Text.{has_text}
use dsh_passwords.Store.{
  PermissionRow, Store, distinct, session_ids, normalize_session_id_set, texts_of_user,
  delete_user_rows, insert_or_ignore, is_session_id,
}
use dsh_passwords.Store.Reading.{find_row}
use dsh_passwords.Store.Rows.{
  granted, granted-insert, granted-insert_other, granted-insert_all, insert_all-other,
  granted-delete_each, delete_each-other, delete_user-none, delete_user-other,
}
use dsh_passwords.Store.Grants.{
  add_user_session_grant, add_first, replace_user_session_grants, seed_user_session_grants,
  seed_row, delete_user_session_grants, mark_session_grants_seeded,
}

pub data GrantCall : Type 0 where
  add_call : ℕ → List ℕ → GrantCall
  replace_call seed_call delete_call : ℕ → List (List ℕ) → GrantCall

abbrev pub run : GrantCall → Store → Store
run (add_call u id) s = (add_user_session_grant u id s).0
run (replace_call u ids) s = replace_user_session_grants u ids s
run (seed_call u ids) s = (seed_user_session_grants u ids s).0
run (delete_call u ids) s = delete_user_session_grants u ids s

-- The table as a set of users and ids.
abbrev pub Grants : Type 0
Grants = ℕ → List ℕ → Bool

abbrev pub grants_of : Store → Grants
grants_of s v x = granted v x s.grants

abbrev pub at_user : ℕ → (Bool → Bool) → ℕ → Bool → Bool
at_user u f v b = if v == u then f b else b

-- What a call does to the set; a seeding counts where a row is there and is not yet seeded.
abbrev pub can_seed : Option PermissionRow → Bool
can_seed none = false
can_seed (some r) = not r.session_grants_seeded

abbrev pub effect : GrantCall → Store → Grants → Grants
effect (add_call u id) s g v x =
    at_user u (λ b. has_text x (normalize_session_id_set (id ∷ [])) || b) v (g v x)
effect (replace_call u ids) s g v x =
    at_user u (λ b. has_text x (normalize_session_id_set ids)) v (g v x)
effect (seed_call u ids) s g v x =
    at_user u
      (λ b. (can_seed (find_row u s.permissions) && has_text x (normalize_session_id_set ids)) || b)
      v (g v x)
effect (delete_call u ids) s g v x =
    at_user u (λ b. not (has_text x (distinct (session_ids ids))) && b) v (g v x)

-- A write on the rows of one user, from what it does to this user and to the others.
written :
    (u v : ℕ) (x : List ℕ) (f : Bool → Bool) (l l' : List (ℕ × List ℕ))
    → granted u x l' ≡ f (granted u x l)
    → ((v == u) ≡ false → texts_of_user v l' ≡ texts_of_user v l)
    → granted v x l' ≡ at_user u f v (granted v x l)
written u v x f l l' own others = elim (Bool-cases (v == u)) [
  | inl same ↦ simp same (rw ((==_iff v u).0 same) own)
  | inr ne ↦ simp ne (ap (has_text x) (others ne))
]

unchanged : (u v : ℕ) (b : Bool) → b ≡ at_user u (λ c. c) v b
unchanged u v b = if_cases (λ c. b ≡ c) (v == u) (λ _. refl) (λ _. refl)

add-effect :
    (u v : ℕ) (x id : List ℕ) (s : Store)
    → grants_of (run (add_call u id) s) v x ≡ effect (add_call u id) s (grants_of s) v x
unfolding add_user_session_grant normalize_session_id_set distinct has_text
add-effect u v x id s =
    if_cases
      (λ l.
        granted v x (add_first u s (take 2000 (distinct l))).0.grants
        ≡ at_user u (λ b. has_text x (take 2000 (distinct l)) || b) v (granted v x s.grants))
      (is_session_id id)
      (λ _.
        written u v x (λ b. (bytes_eq x id || false) || b) s.grants (insert_or_ignore u id s.grants)
          (granted-insert u x id s.grants
            ∙ ap (λ b. b || granted u x s.grants) (or_none (bytes_eq x id)))
          (granted-insert_other u v id s.grants))
      (λ _. unchanged u v (granted v x s.grants))
  where
    or_none : (b : Bool) → b ≡ (b || false)
    or_none true = refl
    or_none false = refl

replace-effect :
    (u v : ℕ) (x : List ℕ) (ids : List (List ℕ)) (s : Store)
    → grants_of (run (replace_call u ids) s) v x ≡ effect (replace_call u ids) s (grants_of s) v x
unfolding replace_user_session_grants has_text
replace-effect u v x ids s =
    let wanted = normalize_session_id_set ids in
    written u v x (λ b. has_text x wanted) s.grants _
      (granted-insert_all u x wanted (delete_user_rows u s.grants)
        ∙ rw (delete_user-none u s.grants) (or_none (has_text x wanted)))
      (λ ne.
        insert_all-other u v wanted (delete_user_rows u s.grants) ne
        ∙ delete_user-other u v s.grants ne)
  where
    or_none : (b : Bool) → (b || false) ≡ b
    or_none true = refl
    or_none false = refl

seed_row-effect :
    (u v : ℕ) (x : List ℕ) (ids : List (List ℕ)) (s : Store) (o : Option PermissionRow)
    → granted v x (seed_row u ids s o).0.grants
      ≡ at_user u (λ b. (can_seed o && has_text x ids) || b) v (granted v x s.grants)
unfolding mark_session_grants_seeded
seed_row-effect u v x ids s none = unchanged u v (granted v x s.grants)
seed_row-effect u v x ids s (some r) = elim (Bool-cases r.session_grants_seeded) [
  | inl seeded ↦ simp seeded (unchanged u v (granted v x s.grants))
  | inr new ↦ simp new (
      written u v x (λ b. has_text x ids || b) s.grants _ (granted-insert_all u x ids s.grants)
        (insert_all-other u v ids s.grants))
]

-- Each of the operations on session grants does to the table, read as a set of users and ids, what
-- it says: it adds, replaces, seeds or deletes exactly the cleaned ids of the one user, and leaves
-- every other grant of every user.
pub run-effect :
    (c : GrantCall) (s : Store) (v : ℕ) (x : List ℕ)
    → grants_of (run c s) v x ≡ effect c s (grants_of s) v x
unfolding seed_user_session_grants delete_user_session_grants
run-effect (add_call u id) s v x = add-effect u v x id s
run-effect (replace_call u ids) s v x = replace-effect u v x ids s
run-effect (seed_call u ids) s v x =
    seed_row-effect u v x (normalize_session_id_set ids) s (find_row u s.permissions)
run-effect (delete_call u ids) s v x =
    let doomed = distinct (session_ids ids) in
    written u v x (λ b. not (has_text x doomed) && b) s.grants _
      (granted-delete_each u x doomed s.grants) (delete_each-other u v doomed s.grants)
