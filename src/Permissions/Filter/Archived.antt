-- ===== src/Permissions/Filter/Archived.antt =====
-- `filterArchivedSessionIds` of src/permissions.ts and the Boolean that it returns.
use dsh_passwords.Prelude.{
  ℕ, ◌+◌, ◌≡◌, refl, ap, Bool, true, false, not, ◌&&◌, ◌||◌, List, ltb, bytes_eq, arith, Bool-cases,
  inl, inr,
}
use dsh_passwords.Text.{codes}
use dsh_passwords.Json.{
  Json, null, boolean, number, other_number, string, array, object, Items, nil, cons, Fields, end,
  field, filter_texts,
}
use dsh_passwords.Permissions.Filter.{
  filter_archived, filter_archived_items, filter_archived_fields, archived_changed,
  archived_changed_items, archived_changed_fields, archived_changes, keep_archived, all_kept,
}

-- The filtered value where nothing was to change.
filter_texts-same :
    (keep : List ℕ → Bool) (xs : Items) → all_kept keep xs ≡ true → filter_texts keep xs ≡ xs
unfolding all_kept filter_texts
filter_texts-same keep nil h = refl
filter_texts-same keep (cons (string s) xs) h = ground (arith, filter_texts-same keep xs)
filter_texts-same keep (cons null xs) h = cc
filter_texts-same keep (cons (boolean b) xs) h = cc
filter_texts-same keep (cons (number n) xs) h = cc
filter_texts-same keep (cons (other_number n) xs) h = cc
filter_texts-same keep (cons (array ys) xs) h = cc
filter_texts-same keep (cons (object fs) xs) h = cc

unless : (a b : Bool) → a ≡ true → (a && not b) ≡ false → b ≡ true
unless a b e h = ground arith

keep_archived-same :
    (keep : List ℕ → Bool) (k : List ℕ) (v : Json)
    → archived_changes keep k v ≡ false
    → keep_archived keep k v ≡ v
keep_archived-same keep k (array xs) h =
    elim (Bool-cases (bytes_eq k (codes "archivedSessionIds"))) [
      | inl e ↦ rw e (ap array (filter_texts-same keep xs (unless _ (all_kept keep xs) e h)))
      | inr e ↦ rw e
    ]
keep_archived-same keep k null h = refl
keep_archived-same keep k (boolean b) h = refl
keep_archived-same keep k (number n) h = refl
keep_archived-same keep k (other_number n) h = refl
keep_archived-same keep k (string s) h = refl
keep_archived-same keep k (object fs) h = refl

or_left : (a b : Bool) → (a || b) ≡ false → a ≡ false
or_left a b h = ground arith

or_right : (a b : Bool) → (a || b) ≡ false → b ≡ false
or_right a b h = ground arith

module _ (keep : List ℕ → Bool) where
  mutual
    unfolding filter_archived archived_changed

    filter_archived-same_at :
        (depth : ℕ) (v : Json)
        → archived_changed keep depth v ≡ false
        → filter_archived keep depth v ≡ v
    filter_archived-same_at depth (array xs) h = elim (Bool-cases (ltb 8 depth)) [
      | inl e ↦ rw e
      | inr e ↦ rw e (ap array (filter_archived_items-same (depth + 1) xs (rw e at h)))
    ]
    filter_archived-same_at depth (object fs) h = elim (Bool-cases (ltb 8 depth)) [
      | inl e ↦ rw e
      | inr e ↦ rw e (ap object (filter_archived_fields-same (depth + 1) fs (rw e at h)))
    ]
    filter_archived-same_at depth null h = refl
    filter_archived-same_at depth (boolean b) h = refl
    filter_archived-same_at depth (number n) h = refl
    filter_archived-same_at depth (other_number n) h = refl
    filter_archived-same_at depth (string s) h = refl

    filter_archived_items-same :
        (depth : ℕ) (xs : Items)
        → archived_changed_items keep depth xs ≡ false
        → filter_archived_items keep depth xs ≡ xs
    filter_archived_items-same depth nil h = refl
    filter_archived_items-same depth (cons x xs) h = rw (
      filter_archived-same_at depth x (or_left (archived_changed keep depth x) _ h),
      filter_archived_items-same depth xs (or_right (archived_changed keep depth x) _ h),
    )

    filter_archived_fields-same :
        (depth : ℕ) (fs : Fields)
        → archived_changed_fields keep depth fs ≡ false
        → filter_archived_fields keep depth fs ≡ fs
    filter_archived_fields-same depth end h = refl
    filter_archived_fields-same depth (field k v fs) h =
        let first = or_left (archived_changes keep k v || archived_changed keep depth v) _ h in
        rw (
          filter_archived-same_at depth v (or_right (archived_changes keep k v) _ first),
          keep_archived-same keep k v (or_left (archived_changes keep k v) _ first),
          filter_archived_fields-same depth fs
              (or_right (archived_changes keep k v || archived_changed keep depth v) _ h),
        )

  -- If the returned Boolean says that nothing changed, then nothing did.
  pub filter_archived-same :
      (v : Json) → archived_changed keep 0 v ≡ false → filter_archived keep 0 v ≡ v
  filter_archived-same v h = filter_archived-same_at 0 v h
