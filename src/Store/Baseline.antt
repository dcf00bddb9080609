-- ===== src/Store/Baseline.antt =====
-- `setPermissions` of src/db.ts compares what the caller has seen with what the tables hold.
use dsh_passwords.Prelude.{
  ℕ, ◌≡◌, refl, ap, ◌∙◌, sym, Bool, true, false, ◌||◌, Option, none, some, List, [], ◌∷◌, ◌==◌,
  if◌then◌else◌, arith, Bool-cases, inl, inr, subst,
}
use dsh_passwords.Text.{has_text}
use dsh_passwords.Store.{
  PermissionRow, Store, normalize_session_id_set, same_string_set, texts_of_user, delete_user_rows,
}
use dsh_passwords.Store.Permissions.{
  Request, saved, Conflict, set_permissions, conflict_of, or_else, state_conflict,
  disabled_conflict, grants_conflict, commit_permissions, saved_unless, list_user_session_grants,
  write_grants, put_row, row_to_write, update_row, write_seeded,
}
use dsh_passwords.Store.Reading.{find_row}
use dsh_passwords.Store.Sets.{same_string_set-has_text, ids-HasNoTwins, sort-has_text}
use dsh_passwords.Store.Rows.{
  granted, granted-insert_all, insert_all-other, delete_user-none, delete_user-other,
}

or_else-none : (a b : Option Conflict) → or_else a b ≡ none → (a ≡ none) × (b ≡ none)
or_else-none none b h = (refl, h)
or_else-none (some c) b h = absurd (cc h)

saved-inv :
    (o : Option Conflict) (s s' : Store) → saved_unless o s ≡ saved s' → (o ≡ none) × (s ≡ s')
saved-inv none s s' h = (refl, cc)
saved-inv (some c) s s' h = absurd (cc h)

expected-same : (b : Bool) (c : Conflict) → (if b then none else some c) ≡ none → b ≡ true
expected-same true c h = refl
expected-same false c h = absurd (cc h)

module _ (u : ℕ) (p : Request) (s s' : Store) (ids expected : List (List ℕ))
    (writes : p.allowed_session_ids ≡ some ids)
    (states : p.expected_allowed_session_ids ≡ some expected)
    (done : set_permissions u p s ≡ saved s') where
  no_conflict : (conflict_of u p s ≡ none) × (commit_permissions u p s ≡ s')
  unfolding set_permissions
  no_conflict = saved-inv (conflict_of u p s) (commit_permissions u p s) s' done

  grants_agree :
      same_string_set (list_user_session_grants u s) (normalize_session_id_set expected) ≡ true
  unfolding conflict_of
  grants_agree =
      let (_, rest) =
        or_else-none (state_conflict u p.expected_permission_state s) _ no_conflict.0 in
      let (_, last) = or_else-none (disabled_conflict u p.expected_disabled_sessions s) _ rest in
      expected-same _ _ (
        subst (λ o. grants_conflict u (some ids) o s ≡ none) states
          (subst (λ o. grants_conflict u o p.expected_allowed_session_ids s ≡ none) writes last))

  -- A save of permissions that writes session grants and states which ones its caller had seen
  -- goes through only if these are the user's grants at the write, so that it overwrites none that
  -- was added in between; the user's grants are then the cleaned ids.
  pub set_permissions-baseline :
      (x : List ℕ)
      → (granted u x s.grants ≡ has_text x (normalize_session_id_set expected))
        × (granted u x s'.grants ≡ has_text x (normalize_session_id_set ids))
  unfolding list_user_session_grants commit_permissions has_text
  set_permissions-baseline x = (
    sym (sort-has_text x (texts_of_user u s.grants))
        ∙ same_string_set-has_text (list_user_session_grants u s)
            (normalize_session_id_set expected) (ids-HasNoTwins expected) grants_agree x,
    ap (λ t. granted u x t.grants) (sym no_conflict.1)
        ∙ ap (λ o. granted u x (write_grants u o s.grants)) writes
        ∙ granted-insert_all u x (normalize_session_id_set ids) (delete_user_rows u s.grants)
        ∙ rw (delete_user-none u s.grants) (or_none (has_text x (normalize_session_id_set ids))),
  )
    where
      or_none : (b : Bool) → (b || false) ≡ b
      or_none true = refl
      or_none false = refl

-- A save for one user.
find_row-put_other :
    (v : ℕ) (r : PermissionRow) (l : List PermissionRow)
    → (r.user_id == v) ≡ false
    → find_row v (put_row r l) ≡ find_row v l
unfolding find_row put_row
find_row-put_other v r [] ne = rw ne refl
find_row-put_other v r (x ∷ l) ne = elim (Bool-cases (x.user_id == r.user_id)) [
  | inl same ↦ let apart : (x.user_id == v) ≡ false = ground arith in simp (same, ne, apart) refl
  | inr other ↦
      simp other (ap (λ o. if x.user_id == v then some x else o) (find_row-put_other v r l ne))
]

find_row-seeded :
    (u v : ℕ) (o : Option Bool) (l : List PermissionRow)
    → (u == v) ≡ false
    → find_row v (write_seeded u o l) ≡ find_row v l
unfolding find_row update_row
find_row-seeded u v none l ne = refl
find_row-seeded u v (some b) l ne = update-other l
  where
    update-other :
        (l : List PermissionRow)
        → find_row v (update_row u (λ r. record r { session_grants_seeded = b }) l) ≡ find_row v l
    update-other [] = refl
    update-other (x ∷ l) = elim (Bool-cases (x.user_id == u)) [
      | inl same ↦
          let apart : (x.user_id == v) ≡ false = ground arith in simp (same, apart) (update-other l)
      | inr other ↦ simp other (ap (λ o. if x.user_id == v then some x else o) (update-other l))
    ]

write_grants-other :
    (u v : ℕ) (o : Option (List (List ℕ))) (l : List (ℕ × List ℕ))
    → (v == u) ≡ false
    → texts_of_user v (write_grants u o l) ≡ texts_of_user v l
write_grants-other u v none l ne = refl
write_grants-other u v (some ids) l ne =
    insert_all-other u v (normalize_session_id_set ids) (delete_user_rows u l) ne
    ∙ delete_user-other u v l ne

-- A save of permissions leaves the row and the grants of every other user.
pub set_permissions-others :
    (u v : ℕ) (p : Request) (s s' : Store)
    → set_permissions u p s ≡ saved s'
    → (u == v) ≡ false
    → (find_row v s'.permissions ≡ find_row v s.permissions)
      × (texts_of_user v s'.grants ≡ texts_of_user v s.grants)
unfolding set_permissions commit_permissions
set_permissions-others u v p s s' h ne =
    let (_, e) = saved-inv (conflict_of u p s) (commit_permissions u p s) s' h in
    rw (sym e) (
      find_row-seeded u v p.session_grants_seeded (put_row (row_to_write u p s) s.permissions) ne
          ∙ find_row-put_other v (row_to_write u p s) s.permissions ne,
      write_grants-other u v p.allowed_session_ids s.grants (ground arith),
    )
