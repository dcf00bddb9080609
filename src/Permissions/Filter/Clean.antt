-- ===== src/Permissions/Filter/Clean.antt =====
-- The copying filters of src/permissions.ts: what a copy leaves, and `filterByPathField`.
use dsh_passwords.Prelude.{
  ℕ, ◌+◌, ◌≡◌, sym, ap, ◌∙◌, Bool, true, false, ◌||◌, Option, none, some, some_inj, List, ltb,
  if◌then◌else◌, if_cases, bytes_eq, bytes_eq_iff, arith, Bool-cases, inl, inr, not-false,
}
use dsh_passwords.Json.{
  Json, null, boolean, number, other_number, string, array, object, Items, nil, cons, Fields, end,
  field, get_field, text_of, text_field, full_field, set_new, is_proto,
}
use dsh_passwords.Permissions.Filter.{
  filter_copy, filter_copy_items, filter_copy_fields, filter_by_path_field_with_predicate,
  is_hidden_path, fails, filter_by_path_field,
}
use dsh_passwords.Permissions.Folders.{folder_allowed}

-- Every item of every array may be seen.
unfoldable mutual
  pub IsClean : (Json → Type 0) → Json → Type 0
  IsClean Seen (array xs) = IsCleanItems Seen xs
  IsClean Seen (object fs) = IsCleanFields Seen fs
  IsClean Seen v = Unit

  pub IsCleanItems : (Json → Type 0) → Items → Type 0
  IsCleanItems Seen nil = Unit
  IsCleanItems Seen (cons x xs) = Seen x × IsClean Seen x × IsCleanItems Seen xs

  pub IsCleanFields : (Json → Type 0) → Fields → Type 0
  IsCleanFields Seen end = Unit
  IsCleanFields Seen (field k v fs) = IsClean Seen v × IsCleanFields Seen fs

set_new-IsClean :
    (Seen : Json → Type 0) (k : List ℕ) (v : Json) (fs : Fields)
    → IsClean Seen v
    → IsCleanFields Seen fs
    → IsCleanFields Seen (set_new k v fs)
unfolding IsClean
set_new-IsClean Seen k v fs h hs =
    if_cases (λ f. IsCleanFields Seen f) (is_proto k) (λ _. hs) (λ _. (h, hs))

module _ (limit : ℕ) (hidden : Json → Bool) (Seen : Json → Type 0)
    (stable : (depth : ℕ) (x : Json)
      → hidden x ≡ false
      → Seen (filter_copy limit hidden depth x)) where
  mutual
    unfolding filter_copy IsClean

    pub filter_copy-IsClean :
        (depth : ℕ) (v : Json) → IsClean Seen (filter_copy limit hidden depth v)
    filter_copy-IsClean depth (array xs) =
        if_cases (λ j. IsClean Seen j) (ltb limit depth) (λ _. tt)
          (λ _. filter_copy_items-IsClean (depth + 1) xs)
    filter_copy-IsClean depth (object fs) =
        if_cases (λ j. IsClean Seen j) (ltb limit depth) (λ _. tt)
          (λ _. filter_copy_fields-IsClean (depth + 1) fs)
    filter_copy-IsClean depth null =
        if_cases (λ j. IsClean Seen j) (ltb limit depth) (λ _. tt) (λ _. tt)
    filter_copy-IsClean depth (boolean b) =
        if_cases (λ j. IsClean Seen j) (ltb limit depth) (λ _. tt) (λ _. tt)
    filter_copy-IsClean depth (number n) =
        if_cases (λ j. IsClean Seen j) (ltb limit depth) (λ _. tt) (λ _. tt)
    filter_copy-IsClean depth (other_number n) =
        if_cases (λ j. IsClean Seen j) (ltb limit depth) (λ _. tt) (λ _. tt)
    filter_copy-IsClean depth (string s) =
        if_cases (λ j. IsClean Seen j) (ltb limit depth) (λ _. tt) (λ _. tt)

    filter_copy_items-IsClean :
        (depth : ℕ) (xs : Items) → IsCleanItems Seen (filter_copy_items limit hidden depth xs)
    filter_copy_items-IsClean depth nil = tt
    filter_copy_items-IsClean depth (cons x xs) =
        if_cases (λ l. IsCleanItems Seen l) (hidden x) (λ _. filter_copy_items-IsClean depth xs)
          (λ e. (stable depth x e, filter_copy-IsClean depth x, filter_copy_items-IsClean depth xs))

    filter_copy_fields-IsClean :
        (depth : ℕ) (fs : Fields) → IsCleanFields Seen (filter_copy_fields limit hidden depth fs)
    filter_copy_fields-IsClean depth end = tt
    filter_copy_fields-IsClean depth (field k v fs) =
        set_new-IsClean Seen k (filter_copy limit hidden depth v)
          (filter_copy_fields limit hidden depth fs) (filter_copy-IsClean depth v)
          (filter_copy_fields-IsClean depth fs)

-- A field that is a text keeps it in the copy, or is gone.
module _ (limit : ℕ) (hidden : Json → Bool) (key : List ℕ) where
  text_of-filter_copy :
      (depth : ℕ) (v : Json)
      → text_of (some (filter_copy limit hidden depth v))
        ≡ (if ltb limit depth then none else text_of (some v))
  unfolding filter_copy
  text_of-filter_copy depth (array xs) = ground arith
  text_of-filter_copy depth (object fs) = ground arith
  text_of-filter_copy depth v = ground arith

  text_field-filter_copy_fields :
      (depth : ℕ) (fs : Fields)
      → text_of (get_field key (filter_copy_fields limit hidden depth fs))
        ≡ (if ltb limit depth || is_proto key then none else text_of (get_field key fs))
  unfolding filter_copy get_field
  text_field-filter_copy_fields depth end = ground arith
  text_field-filter_copy_fields depth (field k v fs) = elim (Bool-cases (bytes_eq k key)) [
    | inl e ↦ ground (
      arith,
      ap is_proto ((bytes_eq_iff k key).0 e),
      text_of-filter_copy depth v,
      text_field-filter_copy_fields depth fs,
    )
    | inr e ↦ ground (arith, text_field-filter_copy_fields depth fs)
  ]

  pub text_field-filter_copy :
      (depth : ℕ) (v : Json)
      → is_proto key ≡ false
      → text_field key (filter_copy limit hidden depth v)
        ≡ (if ltb limit (depth + 1) then none else text_field key v)
  unfolding filter_copy
  text_field-filter_copy depth (array xs) h = ground arith
  text_field-filter_copy depth (object fs) h =
      ground (arith, text_field-filter_copy_fields (depth + 1) fs)
  text_field-filter_copy depth v h = ground arith

-- A path under a name, where there is one, is allowed.
abbrev pub IsPathAllowed : List ℕ → (List ℕ → Bool) → Json → Type 0
IsPathAllowed name allowed item =
    (path : List ℕ) → full_field name item ≡ some path → allowed path ≡ true

path_allowed :
    (allowed : List ℕ → Bool) (o : Option (List ℕ))
    → fails allowed o ≡ false
    → (path : List ℕ) → o ≡ some path
    → allowed path ≡ true
path_allowed allowed none h path e = cc
path_allowed allowed (some p) h path e =
    ap allowed (sym (some_inj p path e)) ∙ not-false (allowed p) h

-- If `allowed` says which paths may be seen, every item of an array of the result that has a path
-- under the name asked for, a text that is not empty, has one that is allowed. The name is not
-- `__proto__`.
filter_by_path_field_with_predicate-IsClean :
    (value : Json) (name : List ℕ) (allowed : List ℕ → Bool) (depth : ℕ)
    → is_proto name ≡ false
    → IsClean
        (IsPathAllowed name allowed)
        (filter_by_path_field_with_predicate value name allowed depth)
unfolding filter_by_path_field_with_predicate
filter_by_path_field_with_predicate-IsClean value name allowed depth h =
    filter_copy-IsClean 8 (is_hidden_path name allowed) (IsPathAllowed name allowed)
      (λ d x e.
        path_allowed allowed (full_field name (filter_copy 8 (is_hidden_path name allowed) d x))
          (ground (arith, text_field-filter_copy 8 (is_hidden_path name allowed) name d x h)))
      depth value

-- Every item of an array of the result that has a path under the name asked for, a text that is not
-- empty, has one in the allowed folders. The name is not `__proto__`.
pub filter_by_path_field-IsClean :
    (value : Json) (folders : List (List ℕ)) (name : List ℕ) (depth : ℕ)
    → is_proto name ≡ false
    → IsClean
        (IsPathAllowed name (λ c. folder_allowed c folders))
        (filter_by_path_field value folders name depth)
unfolding filter_by_path_field
filter_by_path_field-IsClean value folders name depth h =
    filter_by_path_field_with_predicate-IsClean value name (λ c. folder_allowed c folders) depth h
