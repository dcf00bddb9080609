-- ===== src/Permissions/Sandbox/Reject.antt =====
-- `forceRejectApproval` of src/permissions.ts.
use dsh_passwords.Prelude.{
  ℕ, ◌+◌, ◌≡◌, refl, ap, ◌∙◌, Bool, true, false, ◌&&◌, List, ltb, if◌then◌else◌, if_cases, bytes_eq,
  arith, Bool-cases, inl, inr, ◌⊎◌, Option, some, is_some,
}
use dsh_passwords.Text.{codes}
use dsh_passwords.Json.{
  Json, null, boolean, number, other_number, string, array, object, Items, nil, cons, Fields, end,
  field, get_field, text_of,
}
use dsh_passwords.Permissions.Sandbox.{
  is_approval, set_outcome, force_reject_approval, force_reject_items, force_reject_fields,
}

abbrev pub outcome : Fields → Option (List ℕ)
outcome fs = text_of (get_field (codes "outcome") fs)

-- To the depth of six, every object with a text `approvalId` and a text `outcome` says `rejected`.
unfoldable mutual
  pub IsRejected : ℕ → Json → Type 0
  IsRejected depth (array xs) = (ltb 6 depth ≡ true) ⊎ IsRejectedItems (depth + 1) xs
  IsRejected depth (object fs) =
      (ltb 6 depth ≡ true)
      ⊎ (((is_approval fs ≡ false) ⊎ (outcome fs ≡ some (codes "rejected")))
          × IsRejectedFields (depth + 1) fs)
  IsRejected depth v = Unit

  pub IsRejectedItems : ℕ → Items → Type 0
  IsRejectedItems depth nil = Unit
  IsRejectedItems depth (cons x xs) = IsRejected depth x × IsRejectedItems depth xs

  pub IsRejectedFields : ℕ → Fields → Type 0
  IsRejectedFields depth end = Unit
  IsRejectedFields depth (field k v fs) = IsRejected depth v × IsRejectedFields depth fs

unfoldable IsRejectedHere : ℕ → Fields → Type 0
IsRejectedHere depth fs =
    ((is_approval fs ≡ false) ⊎ (outcome fs ≡ some (codes "rejected"))) × IsRejectedFields depth fs

&&-right : (a b : Bool) → (a && b) ≡ true → b ≡ true
&&-right a b h = ground arith

text_of-force_reject :
    (depth : ℕ) (v : Json) → text_of (some (force_reject_approval depth v)) ≡ text_of (some v)
unfolding force_reject_approval
text_of-force_reject depth (array xs) = ground arith
text_of-force_reject depth (object fs) = ground arith
text_of-force_reject depth v = refl

-- The walk changes no text.
text-force_reject_fields :
    (key : List ℕ) (depth : ℕ) (fs : Fields)
    → text_of (get_field key (force_reject_fields depth fs)) ≡ text_of (get_field key fs)
unfolding force_reject_approval get_field
text-force_reject_fields key depth end = refl
text-force_reject_fields key depth (field k v fs) = elim (Bool-cases (bytes_eq k key)) [
  | inl e ↦ simp e (text_of-force_reject depth v)
  | inr e ↦ simp e (text-force_reject_fields key depth fs)
]

is_approval-force_reject :
    (depth : ℕ) (fs : Fields) → is_approval (force_reject_fields depth fs) ≡ is_approval fs
is_approval-force_reject depth fs =
    ap (λ t. is_some t && is_some (outcome (force_reject_fields depth fs)))
      (text-force_reject_fields (codes "approvalId") depth fs)
    ∙ ap (λ t. is_some (text_of (get_field (codes "approvalId") fs)) && is_some t)
        (text-force_reject_fields (codes "outcome") depth fs)

outcome-set_outcome :
    (fs : Fields) → is_some (outcome fs) ≡ true → outcome (set_outcome fs) ≡ some (codes "rejected")
unfolding set_outcome get_field
outcome-set_outcome end h = cc
outcome-set_outcome (field k v fs) h = elim (Bool-cases (bytes_eq k (codes "outcome"))) [
  | inl e ↦ simp e refl
  | inr e ↦ simp e (outcome-set_outcome fs (simp e at h))
]

set_outcome-IsRejectedFields :
    (depth : ℕ) (fs : Fields) → IsRejectedFields depth fs → IsRejectedFields depth (set_outcome fs)
unfolding set_outcome IsRejected
set_outcome-IsRejectedFields depth end h = tt
set_outcome-IsRejectedFields depth (field k v fs) (h, hs) =
    if_cases (IsRejectedFields depth) (bytes_eq k (codes "outcome")) (λ _. (tt, hs))
      (λ _. (h, set_outcome-IsRejectedFields depth fs hs))

force_reject_here-IsRejected :
    (depth : ℕ) (fs : Fields)
    → IsRejectedFields depth (force_reject_fields depth fs)
    → IsRejectedHere depth (
        if is_approval fs
        then set_outcome (force_reject_fields depth fs)
        else force_reject_fields depth fs)
unfolding IsRejectedHere
force_reject_here-IsRejected depth fs h =
    if_cases (IsRejectedHere depth) (is_approval fs)
      (λ e. (
        inr (
            outcome-set_outcome (force_reject_fields depth fs)
              (&&-right _ _ (is_approval-force_reject depth fs ∙ e))),
        set_outcome-IsRejectedFields depth (force_reject_fields depth fs) h,
      ))
      (λ e. (inl (is_approval-force_reject depth fs ∙ e), h))

mutual
  unfolding force_reject_approval IsRejected IsRejectedHere

  force_reject-IsRejected :
      (depth : ℕ) (v : Json) → IsRejected depth (force_reject_approval depth v)
  force_reject-IsRejected depth (array xs) =
      if_cases (IsRejected depth) (ltb 6 depth) (λ e. inl e)
        (λ _. inr (force_reject_items-IsRejected (depth + 1) xs))
  force_reject-IsRejected depth (object fs) =
      if_cases (IsRejected depth) (ltb 6 depth) (λ e. inl e)
        (λ _. inr (
          force_reject_here-IsRejected (depth + 1) fs
            (force_reject_fields-IsRejected (depth + 1) fs)))
  force_reject-IsRejected depth null = tt
  force_reject-IsRejected depth (boolean b) = tt
  force_reject-IsRejected depth (number n) = tt
  force_reject-IsRejected depth (other_number n) = tt
  force_reject-IsRejected depth (string s) = tt

  force_reject_items-IsRejected :
      (depth : ℕ) (xs : Items) → IsRejectedItems depth (force_reject_items depth xs)
  force_reject_items-IsRejected depth nil = tt
  force_reject_items-IsRejected depth (cons x xs) =
      (force_reject-IsRejected depth x, force_reject_items-IsRejected depth xs)

  force_reject_fields-IsRejected :
      (depth : ℕ) (fs : Fields) → IsRejectedFields depth (force_reject_fields depth fs)
  force_reject_fields-IsRejected depth end = tt
  force_reject_fields-IsRejected depth (field k v fs) =
      (force_reject-IsRejected depth v, force_reject_fields-IsRejected depth fs)

-- Rejecting leaves no approval, to the depth of six, with another outcome than `rejected`.
pub force_reject_approval-IsRejected : (v : Json) → IsRejected 0 (force_reject_approval 0 v)
force_reject_approval-IsRejected v = force_reject-IsRejected 0 v
