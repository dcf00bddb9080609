-- ===== src/Permissions/Filter/Owned.antt =====
-- The filters of src/permissions.ts that work in place, on `sessionIds` and `archivedSessionIds`.
use dsh_passwords.Prelude.{
  ℕ, ◌+◌, ◌≡◌, refl, ap, Bool, true, false, List, ltb, if_cases, bytes_eq, inl, inr, ◌⊎◌,
}
use dsh_passwords.Text.{codes}
use dsh_passwords.Json.{
  Json, null, boolean, number, other_number, string, array, object, Items, nil, cons, Fields, end,
  field, filter_texts,
}
use dsh_passwords.Permissions.Filter.{
  filter_owned, filter_owned_items, filter_owned_fields, keep_owned, delete_fields, is_deleted,
}

-- An array of texts that are kept.
unfoldable pub AllKept : (List ℕ → Bool) → Items → Type 0
AllKept keep nil = Unit
AllKept keep (cons (string s) xs) = (keep s ≡ true) × AllKept keep xs
AllKept keep (cons _ xs) = ⊥

filter_texts-AllKept : (keep : List ℕ → Bool) (xs : Items) → AllKept keep (filter_texts keep xs)
unfolding AllKept filter_texts
filter_texts-AllKept keep nil = tt
filter_texts-AllKept keep (cons (string s) xs) =
    if_cases (λ l. AllKept keep l) (keep s) (λ e. (e, filter_texts-AllKept keep xs))
      (λ _. filter_texts-AllKept keep xs)
filter_texts-AllKept keep (cons null xs) = filter_texts-AllKept keep xs
filter_texts-AllKept keep (cons (boolean b) xs) = filter_texts-AllKept keep xs
filter_texts-AllKept keep (cons (number n) xs) = filter_texts-AllKept keep xs
filter_texts-AllKept keep (cons (other_number n) xs) = filter_texts-AllKept keep xs
filter_texts-AllKept keep (cons (array ys) xs) = filter_texts-AllKept keep xs
filter_texts-AllKept keep (cons (object fs) xs) = filter_texts-AllKept keep xs

-- A field that lists sessions lists only kept ones.
abbrev pub IsOwnedField : (List ℕ → Bool) → List ℕ → Json → Type 0
IsOwnedField keep k (array xs) = (bytes_eq k (codes "sessionIds") ≡ false) ⊎ AllKept keep xs
IsOwnedField keep k v = Unit

unfoldable pub IsDeleted : Fields → Type 0
IsDeleted end = Unit
IsDeleted (field k v fs) = (is_deleted k ≡ false) × IsDeleted fs

-- To the depth of eight every list of sessions is owned; at nine arrays are empty and objects have
-- no field that names a session or a folder.
unfoldable mutual
  pub IsOwned : (List ℕ → Bool) → ℕ → Json → Type 0
  IsOwned keep depth (array xs) =
      ((ltb 8 depth ≡ true) × (xs ≡ nil))
      ⊎ ((ltb 8 depth ≡ false) × IsOwnedItems keep (depth + 1) xs)
  IsOwned keep depth (object fs) =
      ((ltb 8 depth ≡ true) × IsDeleted fs)
      ⊎ ((ltb 8 depth ≡ false) × IsOwnedFields keep (depth + 1) fs)
  IsOwned keep depth v = Unit

  pub IsOwnedItems : (List ℕ → Bool) → ℕ → Items → Type 0
  IsOwnedItems keep depth nil = Unit
  IsOwnedItems keep depth (cons x xs) = IsOwned keep depth x × IsOwnedItems keep depth xs

  pub IsOwnedFields : (List ℕ → Bool) → ℕ → Fields → Type 0
  IsOwnedFields keep depth end = Unit
  IsOwnedFields keep depth (field k v fs) =
      IsOwnedField keep k v × IsOwned keep depth v × IsOwnedFields keep depth fs

delete_fields-IsDeleted : (fs : Fields) → IsDeleted (delete_fields fs)
unfolding delete_fields IsDeleted
delete_fields-IsDeleted end = tt
delete_fields-IsDeleted (field k v fs) =
    if_cases IsDeleted (is_deleted k) (λ _. delete_fields-IsDeleted fs)
      (λ e. (e, delete_fields-IsDeleted fs))

keep_owned-IsOwnedField :
    (keep : List ℕ → Bool) (k : List ℕ) (v : Json) → IsOwnedField keep k (keep_owned keep k v)
keep_owned-IsOwnedField keep k (array xs) =
    if_cases (IsOwnedField keep k) (bytes_eq k (codes "sessionIds"))
      (λ _. inr (filter_texts-AllKept keep xs)) (λ e. inl e)
keep_owned-IsOwnedField keep k null = tt
keep_owned-IsOwnedField keep k (boolean b) = tt
keep_owned-IsOwnedField keep k (number n) = tt
keep_owned-IsOwnedField keep k (other_number n) = tt
keep_owned-IsOwnedField keep k (string s) = tt
keep_owned-IsOwnedField keep k (object fs) = tt

filter_texts-IsOwnedItems :
    (keep : List ℕ → Bool) (depth : ℕ) (xs : Items) → IsOwnedItems keep depth (filter_texts keep xs)
unfolding IsOwned filter_texts
filter_texts-IsOwnedItems keep depth nil = tt
filter_texts-IsOwnedItems keep depth (cons (string s) xs) =
    if_cases (IsOwnedItems keep depth) (keep s) (λ _. (tt, filter_texts-IsOwnedItems keep depth xs))
      (λ _. filter_texts-IsOwnedItems keep depth xs)
filter_texts-IsOwnedItems keep depth (cons null xs) = filter_texts-IsOwnedItems keep depth xs
filter_texts-IsOwnedItems keep depth (cons (boolean b) xs) = filter_texts-IsOwnedItems keep depth xs
filter_texts-IsOwnedItems keep depth (cons (number n) xs) = filter_texts-IsOwnedItems keep depth xs
filter_texts-IsOwnedItems keep depth (cons (other_number n) xs) =
    filter_texts-IsOwnedItems keep depth xs
filter_texts-IsOwnedItems keep depth (cons (array ys) xs) = filter_texts-IsOwnedItems keep depth xs
filter_texts-IsOwnedItems keep depth (cons (object fs) xs) = filter_texts-IsOwnedItems keep depth xs

keep_owned-IsOwned :
    (keep : List ℕ → Bool) (depth : ℕ) (k : List ℕ) (v : Json)
    → IsOwned keep depth v
    → IsOwned keep depth (keep_owned keep k v)
unfolding IsOwned filter_texts
keep_owned-IsOwned keep depth k (array xs) (inl (h, e)) =
    if_cases (IsOwned keep depth) (bytes_eq k (codes "sessionIds"))
      (λ _. inl (h, ap (filter_texts keep) e)) (λ _. inl (h, e))
keep_owned-IsOwned keep depth k (array xs) (inr (h, o)) =
    if_cases (IsOwned keep depth) (bytes_eq k (codes "sessionIds"))
      (λ _. inr (h, filter_texts-IsOwnedItems keep (depth + 1) xs)) (λ _. inr (h, o))
keep_owned-IsOwned keep depth k null o = o
keep_owned-IsOwned keep depth k (boolean b) o = o
keep_owned-IsOwned keep depth k (number n) o = o
keep_owned-IsOwned keep depth k (other_number n) o = o
keep_owned-IsOwned keep depth k (string s) o = o
keep_owned-IsOwned keep depth k (object fs) o = o

module _ (keep : List ℕ → Bool) where
  mutual
    unfolding filter_owned IsOwned

    filter_owned-IsOwned_at :
        (depth : ℕ) (v : Json) → IsOwned keep depth (filter_owned keep depth v)
    filter_owned-IsOwned_at depth (array xs) =
        if_cases (IsOwned keep depth) (ltb 8 depth) (λ e. inl (e, refl))
          (λ e. inr (e, filter_owned_items-IsOwned (depth + 1) xs))
    filter_owned-IsOwned_at depth (object fs) =
        if_cases (IsOwned keep depth) (ltb 8 depth) (λ e. inl (e, delete_fields-IsDeleted fs))
          (λ e. inr (e, filter_owned_fields-IsOwned (depth + 1) fs))
    filter_owned-IsOwned_at depth null = tt
    filter_owned-IsOwned_at depth (boolean b) = tt
    filter_owned-IsOwned_at depth (number n) = tt
    filter_owned-IsOwned_at depth (other_number n) = tt
    filter_owned-IsOwned_at depth (string s) = tt

    filter_owned_items-IsOwned :
        (depth : ℕ) (xs : Items) → IsOwnedItems keep depth (filter_owned_items keep depth xs)
    filter_owned_items-IsOwned depth nil = tt
    filter_owned_items-IsOwned depth (cons x xs) =
        (filter_owned-IsOwned_at depth x, filter_owned_items-IsOwned depth xs)

    filter_owned_fields-IsOwned :
        (depth : ℕ) (fs : Fields) → IsOwnedFields keep depth (filter_owned_fields keep depth fs)
    filter_owned_fields-IsOwned depth end = tt
    filter_owned_fields-IsOwned depth (field k v fs) = (
      keep_owned-IsOwnedField keep k (filter_owned keep depth v),
      keep_owned-IsOwned keep depth k (filter_owned keep depth v) (filter_owned-IsOwned_at depth v),
      filter_owned_fields-IsOwned depth fs,
    )

  -- To the depth of eight, every array under the name `sessionIds` in the result has only texts
  -- that are kept; at the depth of nine every array is empty, and no object has a field `sessionId`,
  -- `sessionIds`, `cwd` or `path`.
  pub filter_owned-IsOwned : (v : Json) → IsOwned keep 0 (filter_owned keep 0 v)
  filter_owned-IsOwned v = filter_owned-IsOwned_at 0 v
