-- ===== src/Permissions/Filter/Copy.antt =====
-- `filterSessionItems` of src/permissions.ts: what it leaves, and what it leaves alone.
use mathlib.Core.Bool.{false≢true}
use dsh_passwords.Prelude.{
  not-false, ℕ, ◌+◌, ◌≡◌, refl, sym, ap, ◌∙◌, Bool, true, false, not, ◌||◌, Option, none, some,
  some_inj, arith, List, ltb, Bool-cases, inl, inr,
}
use dsh_passwords.Text.{codes}
use dsh_passwords.Json.{
  Json, null, boolean, number, other_number, string, array, object, Items, nil, cons, Fields, end,
  field, text_field, full_field, some_full, is_proto,
}
use dsh_passwords.Permissions.Filter.{
  filter_copy, filter_copy_items, filter_copy_fields, filter_session_items, is_hidden_session,
  is_hidden_with, cwd_fails,
}
use dsh_passwords.Permissions.Filter.Clean.{IsClean, filter_copy-IsClean, text_field-filter_copy}

or_first : (a b : Bool) → (a || b) ≡ false → a ≡ false
or_first a b h = ground arith

or_second : (a b : Bool) → (a || b) ≡ false → b ≡ false
or_second a b h = ground arith

session-proto : (is_proto (codes "sessionId") ≡ false) × (is_proto (codes "cwd") ≡ false)
unfolding is_proto
session-proto = (refl, refl)

-- A copied field is gone with all others, or it is as before.
copied :
    (limit depth : ℕ) (hidden : Json → Bool) (key : List ℕ) (x : Json)
    → is_proto key ≡ false
    → ltb limit (depth + 1) ≡ false
    → text_field key (filter_copy limit hidden depth x) ≡ text_field key x
copied limit depth hidden key x h e = text_field-filter_copy limit hidden key depth x h ∙ rw e

gone :
    (limit depth : ℕ) (hidden : Json → Bool) (key : List ℕ) (x : Json)
    → is_proto key ≡ false
    → ltb limit (depth + 1) ≡ true
    → text_field key (filter_copy limit hidden depth x) ≡ none
gone limit depth hidden key x h e = text_field-filter_copy limit hidden key depth x h ∙ rw e

session-stable :
    (keep : List ℕ → Bool) (cwd_allowed : Option (List ℕ → Bool)) (hidden : Json → Bool)
    → (depth : ℕ) (x : Json) → is_hidden_session keep cwd_allowed x ≡ false
    → is_hidden_session keep cwd_allowed (filter_copy 16 hidden depth x) ≡ false
session-stable keep cwd_allowed hidden depth x e = elim (Bool-cases (ltb 16 (depth + 1))) [
  | inl h ↦
      ap
        (λ t.
          is_hidden_with keep cwd_allowed (some_full t)
            (full_field (codes "cwd") (filter_copy 16 hidden depth x)))
        (gone 16 depth hidden (codes "sessionId") x (session-proto.0) h)
  | inr h ↦
      ap
        (λ t.
          is_hidden_with keep cwd_allowed (some_full t)
            (full_field (codes "cwd") (filter_copy 16 hidden depth x)))
        (copied 16 depth hidden (codes "sessionId") x (session-proto.0) h)
      ∙ ap (λ t. is_hidden_with keep cwd_allowed (full_field (codes "sessionId") x) (some_full t))
          (copied 16 depth hidden (codes "cwd") x (session-proto.1) h)
      ∙ e
]

-- Where folders are restricted there is a folder, and it is allowed.
abbrev pub IsCwdAllowed : Option (List ℕ → Bool) → Option (List ℕ) → Type 0
IsCwdAllowed none cwd = Unit
IsCwdAllowed (some allowed) none = ⊥
IsCwdAllowed (some allowed) (some cwd) = allowed cwd ≡ true

-- A session, where there is one, is kept, and its folder is allowed.
abbrev pub IsSessionAllowed : (List ℕ → Bool) → Option (List ℕ → Bool) → Json → Type 0
IsSessionAllowed keep cwd_allowed item =
    (id : List ℕ)
    → full_field (codes "sessionId") item ≡ some id
    → (keep id ≡ true) × IsCwdAllowed cwd_allowed (full_field (codes "cwd") item)

cwd_fails-IsCwdAllowed :
    (cwd_allowed : Option (List ℕ → Bool)) (cwd : Option (List ℕ))
    → cwd_fails cwd_allowed cwd ≡ false
    → IsCwdAllowed cwd_allowed cwd
cwd_fails-IsCwdAllowed none cwd h = tt
cwd_fails-IsCwdAllowed (some allowed) none h = absurd (false≢true (sym h))
cwd_fails-IsCwdAllowed (some allowed) (some cwd) h = not-false (allowed cwd) h

is_hidden_with-allowed :
    (keep : List ℕ → Bool) (cwd_allowed : Option (List ℕ → Bool)) (o cwd : Option (List ℕ))
    → is_hidden_with keep cwd_allowed o cwd ≡ false
    → (id : List ℕ) → o ≡ some id
    → (keep id ≡ true) × IsCwdAllowed cwd_allowed cwd
is_hidden_with-allowed keep cwd_allowed none cwd h id e = cc
is_hidden_with-allowed keep cwd_allowed (some i) cwd h id e = (
  ap keep (sym (some_inj i id e)) ∙ not-false (keep i) (or_first _ _ h),
  cwd_fails-IsCwdAllowed cwd_allowed cwd (or_second (not (keep i)) _ h),
)

-- Every item of an array of the result that has a session, a text that is not empty, has one that is
-- kept, and where folders are restricted, an allowed folder.
pub filter_session_items-IsClean :
    (value : Json) (keep : List ℕ → Bool) (cwd_allowed : Option (List ℕ → Bool)) (depth : ℕ)
    → IsClean
        (IsSessionAllowed keep cwd_allowed)
        (filter_session_items value keep cwd_allowed depth)
unfolding filter_session_items
filter_session_items-IsClean value keep cwd_allowed depth =
    filter_copy-IsClean 16 (is_hidden_session keep cwd_allowed) (IsSessionAllowed keep cwd_allowed)
      (λ d x e.
        is_hidden_with-allowed keep cwd_allowed
          (full_field (codes "sessionId") (filter_copy 16 (is_hidden_session keep cwd_allowed) d x))
          (full_field (codes "cwd") (filter_copy 16 (is_hidden_session keep cwd_allowed) d x))
          (session-stable keep cwd_allowed (is_hidden_session keep cwd_allowed) d x e))
      depth value

-- What the depth reaches and no test hides.
unfoldable mutual
  pub IsShown : ℕ → (Json → Bool) → ℕ → Json → Type 0
  IsShown limit hidden depth (array xs) =
      (ltb limit depth ≡ false) × IsShownItems limit hidden (depth + 1) xs
  IsShown limit hidden depth (object fs) =
      (ltb limit depth ≡ false) × IsShownFields limit hidden (depth + 1) fs
  IsShown limit hidden depth v = ltb limit depth ≡ false

  pub IsShownItems : ℕ → (Json → Bool) → ℕ → Items → Type 0
  IsShownItems limit hidden depth nil = Unit
  IsShownItems limit hidden depth (cons x xs) =
      (hidden x ≡ false) × IsShown limit hidden depth x × IsShownItems limit hidden depth xs

  pub IsShownFields : ℕ → (Json → Bool) → ℕ → Fields → Type 0
  IsShownFields limit hidden depth end = Unit
  IsShownFields limit hidden depth (field k v fs) =
      (is_proto k ≡ false) × IsShown limit hidden depth v × IsShownFields limit hidden depth fs

module _ (limit : ℕ) (hidden : Json → Bool) where
  mutual
    unfolding filter_copy IsShown

    filter_copy-shown :
        (depth : ℕ) (v : Json) → IsShown limit hidden depth v → filter_copy limit hidden depth v ≡ v
    filter_copy-shown depth (array xs) (h, hs) =
        rw h (ap array (filter_copy_items-shown (depth + 1) xs hs))
    filter_copy-shown depth (object fs) (h, hs) =
        rw h (ap object (filter_copy_fields-shown (depth + 1) fs hs))
    filter_copy-shown depth null h = rw h
    filter_copy-shown depth (boolean b) h = rw h
    filter_copy-shown depth (number n) h = rw h
    filter_copy-shown depth (other_number n) h = rw h
    filter_copy-shown depth (string s) h = rw h

    filter_copy_items-shown :
        (depth : ℕ) (xs : Items)
        → IsShownItems limit hidden depth xs
        → filter_copy_items limit hidden depth xs ≡ xs
    filter_copy_items-shown depth nil h = refl
    filter_copy_items-shown depth (cons x xs) (e, h, hs) =
        rw (e, filter_copy-shown depth x h, filter_copy_items-shown depth xs hs)

    filter_copy_fields-shown :
        (depth : ℕ) (fs : Fields)
        → IsShownFields limit hidden depth fs
        → filter_copy_fields limit hidden depth fs ≡ fs
    filter_copy_fields-shown depth end h = refl
    filter_copy_fields-shown depth (field k v fs) (e, h, hs) =
        rw (e, filter_copy-shown depth v h, filter_copy_fields-shown depth fs hs)

-- A session list in which every item may be seen, which is not too deep and has no field
-- `__proto__`, comes out as it went in.
pub filter_session_items-shown :
    (value : Json) (keep : List ℕ → Bool) (cwd_allowed : Option (List ℕ → Bool)) (depth : ℕ)
    → IsShown 16 (is_hidden_session keep cwd_allowed) depth value
    → filter_session_items value keep cwd_allowed depth ≡ value
unfolding filter_session_items
filter_session_items-shown value keep cwd_allowed depth h =
    filter_copy-shown 16 (is_hidden_session keep cwd_allowed) depth value h
