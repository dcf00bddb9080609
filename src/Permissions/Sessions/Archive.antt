-- ===== src/Permissions/Sessions/Archive.antt =====
-- `replaceArchivedSessionSnapshot` of src/permissions.ts.
use mathlib.Core.Path.{subst}
use dsh_passwords.Prelude.{
  ℕ, ◌+◌, ◌≤◌, ◌≡◌, refl, Bool, true, false, not, ◌||◌, List, [], ◌∷◌, ltb, All, All-append, length,
  if_cases, arith, Bool-cases, inl, inr, ◌⊎◌, Option, none, some, some_inj,
}
use dsh_passwords.Text.{codes, is_empty, has_text}
use dsh_passwords.Json.{
  Json, null, boolean, number, other_number, string, array, object, Items, nil, cons, Fields, end,
  field, get_field, text_of, items_of,
}
use dsh_passwords.Permissions.Extract.{walk, walk_items, walk_fields}
use dsh_passwords.Permissions.Sessions.{
  add, valid_text, valid_id, Snapshot, take_id, take_ids, take_array, take_archived, no_snapshot,
  replace_with, replace_archived_session_snapshot, max_archived_session_ids,
}

-- A walk keeps what each visit keeps.
mutual
  unfolding walk

  walk_keeps :
      {S : Type 0} (P : S → Type 0) (limit : ℕ) (visit : Fields → S → S)
      → ((fs : Fields) (s : S) → P s → P (visit fs s))
      → (depth : ℕ) (v : Json) (out : S) → P out
      → P (walk limit visit depth v out)
  walk_keeps P limit visit f depth (array xs) out h =
      if_cases P (ltb limit depth) (λ _. h)
        (λ _. walk_items_keeps P limit visit f (depth + 1) xs out h)
  walk_keeps P limit visit f depth (object fs) out h =
      if_cases P (ltb limit depth) (λ _. h)
        (λ _. walk_fields_keeps P limit visit f (depth + 1) fs (visit fs out) (f fs out h))
  walk_keeps P limit visit f depth null out h = h
  walk_keeps P limit visit f depth (boolean b) out h = h
  walk_keeps P limit visit f depth (number n) out h = h
  walk_keeps P limit visit f depth (other_number n) out h = h
  walk_keeps P limit visit f depth (string s) out h = h

  walk_items_keeps :
      {S : Type 0} (P : S → Type 0) (limit : ℕ) (visit : Fields → S → S)
      → ((fs : Fields) (s : S) → P s → P (visit fs s))
      → (depth : ℕ) (xs : Items) (out : S) → P out
      → P (walk_items limit visit depth xs out)
  walk_items_keeps P limit visit f depth nil out h = h
  walk_items_keeps P limit visit f depth (cons x xs) out h =
      walk_items_keeps P limit visit f depth xs (walk limit visit depth x out)
        (walk_keeps P limit visit f depth x out h)

  walk_fields_keeps :
      {S : Type 0} (P : S → Type 0) (limit : ℕ) (visit : Fields → S → S)
      → ((fs : Fields) (s : S) → P s → P (visit fs s))
      → (depth : ℕ) (fs : Fields) (out : S) → P out
      → P (walk_fields limit visit depth fs out)
  walk_fields_keeps P limit visit f depth end out h = h
  walk_fields_keeps P limit visit f depth (field k v fs) out h =
      walk_fields_keeps P limit visit f depth fs (walk limit visit depth v out)
        (walk_keeps P limit visit f depth v out h)

-- An id of one to 200 code units.
abbrev pub IsId : List ℕ → Type 0
IsId id = (is_empty id || ltb 200 (length id)) ≡ false

abbrev pub IsWithinLimit : List (List ℕ) → Type 0
IsWithinLimit ids = (length ids ≤ max_archived_session_ids) × All IsId ids

-- Until there are too many, the candidate is within the limit.
abbrev IsSound : Snapshot → Type 0
IsSound st =
    All IsId (st.candidate)
    × (st.oversized ≡ false → length (st.candidate) ≤ max_archived_session_ids)

add-IsId : (id : List ℕ) (out : List (List ℕ)) → IsId id → All IsId out → All IsId (add id out)
unfolding add
add-IsId id out i h =
    if_cases (All IsId) (has_text id out) (λ _. h) (λ _. All-append IsId out (id ∷ []) h (i, tt))

valid_text-IsId : (o : Option (List ℕ)) (s : List ℕ) → valid_text o ≡ some s → IsId s
valid_text-IsId none s h = cc
valid_text-IsId (some t) s h = elim (Bool-cases (is_empty t || ltb 200 (length t))) [
  | inl e ↦ let g : ◌≡◌ {A = Option (List ℕ)} none (some s) = simp e at h in cc
  | inr e ↦ subst IsId (some_inj t s (simp e at h)) e
]

take_id-IsSound :
    (o : Option (List ℕ)) (st : Snapshot)
    → ((id : List ℕ) → o ≡ some id → IsId id)
    → IsSound st
    → IsSound (take_id o st)
take_id-IsSound none st i h = h
take_id-IsSound (some id) st i (h, l) =
    (add-IsId id (st.candidate) (i id refl) h, λ e. ground arith)

take_ids-IsSound : (xs : Items) (st : Snapshot) → IsSound st → IsSound (take_ids xs st)
unfolding take_ids
take_ids-IsSound nil st h = h
take_ids-IsSound (cons x xs) st h =
    if_cases IsSound (st.oversized) (λ _. h)
      (λ _.
        take_ids-IsSound xs (take_id (valid_id (some x)) st)
          (take_id-IsSound (valid_id (some x)) st (valid_text-IsId (text_of (some x))) h))

take_array-IsSound : (o : Option Items) (st : Snapshot) → IsSound st → IsSound (take_array o st)
take_array-IsSound none st h = h
take_array-IsSound (some xs) st h =
    take_ids-IsSound xs
      (record { candidate = st.candidate; found = true; oversized = st.oversized }) h

take_archived-IsSound : (fs : Fields) (st : Snapshot) → IsSound st → IsSound (take_archived fs st)
take_archived-IsSound fs st h =
    if_cases IsSound (st.oversized) (λ _. h)
      (λ _. take_array-IsSound (items_of (get_field (codes "archivedSessionIds") fs)) st h)

-- Either the target is as before and the answer is `false`, or the answer is `true` and the new
-- members are within the limit.
abbrev pub IsReplaced : List (List ℕ) → List (List ℕ) × Bool → Type 0
IsReplaced target (ids, done) =
    ((ids ≡ target) × (done ≡ false)) ⊎ (IsWithinLimit ids × (done ≡ true))

replace_with-IsReplaced :
    (target : List (List ℕ)) (st : Snapshot)
    → IsSound st
    → IsReplaced target (replace_with target st)
replace_with-IsReplaced target st (h, l) =
    if_cases (IsReplaced target) (not (st.found) || st.oversized) (λ _. inl (refl, refl))
      (λ e. inr ((l (ground arith), h), refl))

-- The snapshot of the archived sessions is replaced as a whole or not at all: the members stay and
-- the answer is `false`, or the answer is `true` and there are at most 10000 members, each of one to
-- 200 code units.
pub replace_archived_session_snapshot-IsReplaced :
    (target : List (List ℕ)) (value : Json)
    → IsReplaced target (replace_archived_session_snapshot target value)
unfolding replace_archived_session_snapshot
replace_archived_session_snapshot-IsReplaced target value =
    replace_with-IsReplaced target (walk 8 take_archived 0 value no_snapshot) (
      walk_keeps IsSound 8 take_archived take_archived-IsSound 0 value no_snapshot
        (tt, λ _. omega arith))
