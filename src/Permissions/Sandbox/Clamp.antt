-- ===== src/Permissions/Sandbox/Clamp.antt =====
-- `clampSessionHistorySandbox` of src/permissions.ts.
use dsh_passwords.Prelude.{
  ℕ, ◌+◌, ◌≡◌, refl, ap, ◌∙◌, false, List, ltb, if_cases, bytes_eq, inl, inr, some,
}
use dsh_passwords.Text.{codes}
use dsh_passwords.Json.{
  Json, null, boolean, number, other_number, string, array, object, Items, nil, cons, Fields, end,
  field, get_field, text_of,
}
use dsh_passwords.Permissions.Sandbox.{
  SandboxMode, Event, preset_event, mode_event, other_event, event_of, clamp_string, clamp_named,
  clamp_data, clamp_child, clamp_to, clamp_items, clamp_fields, clamp_session_history_sandbox,
}
use dsh_passwords.Permissions.Sandbox.Levels.{
  is_low, level_of, kind_of, IsClamped, IsClampedItems, IsClampedFields, get-clamp_named-other,
  current_value-low, event_level-low,
}

clamp_string-IsClamped :
    (allowed : SandboxMode) (depth : ℕ) (v : Json)
    → IsClamped allowed depth v
    → IsClamped allowed depth (clamp_string allowed v)
unfolding IsClamped
clamp_string-IsClamped allowed depth (string s) h = tt
clamp_string-IsClamped allowed depth null h = tt
clamp_string-IsClamped allowed depth (boolean b) h = tt
clamp_string-IsClamped allowed depth (number n) h = tt
clamp_string-IsClamped allowed depth (other_number n) h = tt
clamp_string-IsClamped allowed depth (array xs) h = h
clamp_string-IsClamped allowed depth (object fs) h = h

clamp_named-IsClampedFields :
    (allowed : SandboxMode) (name : List ℕ) (depth : ℕ) (fs : Fields)
    → IsClampedFields allowed depth fs
    → IsClampedFields allowed depth (clamp_named allowed name fs)
unfolding clamp_named IsClamped
clamp_named-IsClampedFields allowed name depth end h = tt
clamp_named-IsClampedFields allowed name depth (field k v fs) (h, hs) =
    if_cases (IsClampedFields allowed depth) (bytes_eq k name)
      (λ _. (clamp_string-IsClamped allowed depth v h, hs))
      (λ _. (h, clamp_named-IsClampedFields allowed name depth fs hs))

-- A field that no event reads is changed without harm.
clamp_named-IsClamped :
    (allowed : SandboxMode) (name : List ℕ) (depth : ℕ) (fs : Fields)
    → bytes_eq name (codes "type") ≡ false
    → bytes_eq name (codes "data") ≡ false
    → bytes_eq name (codes "currentValue") ≡ false
    → IsClamped allowed depth (object fs)
    → IsClamped allowed depth (object (clamp_named allowed name fs))
unfolding IsClamped
clamp_named-IsClamped allowed name depth fs a b c (inl e) = inl e
clamp_named-IsClamped allowed name depth fs a b c (inr (l, m, h)) = inr (
  ap
        (λ o. is_low allowed (
          level_of (event_of (text_of o)) (get_field (codes "data") (clamp_named allowed name fs))))
        (get-clamp_named-other allowed name (codes "type") fs a)
      ∙ ap (λ o. is_low allowed (level_of (kind_of fs) o))
          (get-clamp_named-other allowed name (codes "data") fs b)
      ∙ l,
  ap (λ o. is_low allowed (text_of o))
        (get-clamp_named-other allowed name (codes "currentValue") fs c)
      ∙ m,
  clamp_named-IsClampedFields allowed name (depth + 1) fs h,
)

clamp_data-IsClamped :
    (allowed : SandboxMode) (e : Event) (depth : ℕ) (v : Json)
    → IsClamped allowed depth v
    → IsClamped allowed depth (clamp_data allowed e v)
clamp_data-IsClamped allowed preset_event depth (object fs) h =
    clamp_named-IsClamped allowed (codes "preset") depth fs refl refl refl h
clamp_data-IsClamped allowed mode_event depth (object fs) h =
    clamp_named-IsClamped allowed (codes "mode") depth fs refl refl refl h
clamp_data-IsClamped allowed other_event depth v h = h
clamp_data-IsClamped allowed preset_event depth null h = h
clamp_data-IsClamped allowed preset_event depth (boolean b) h = h
clamp_data-IsClamped allowed preset_event depth (number n) h = h
clamp_data-IsClamped allowed preset_event depth (other_number n) h = h
clamp_data-IsClamped allowed preset_event depth (string s) h = h
clamp_data-IsClamped allowed preset_event depth (array xs) h = h
clamp_data-IsClamped allowed mode_event depth null h = h
clamp_data-IsClamped allowed mode_event depth (boolean b) h = h
clamp_data-IsClamped allowed mode_event depth (number n) h = h
clamp_data-IsClamped allowed mode_event depth (other_number n) h = h
clamp_data-IsClamped allowed mode_event depth (string s) h = h
clamp_data-IsClamped allowed mode_event depth (array xs) h = h

clamp_child-IsClamped :
    (allowed : SandboxMode) (e : Event) (depth : ℕ) (k : List ℕ) (v : Json)
    → IsClamped allowed depth v
    → IsClamped allowed depth (clamp_child allowed e k v)
unfolding clamp_child
clamp_child-IsClamped allowed e depth k v h =
    if_cases (IsClamped allowed depth) (bytes_eq k (codes "data"))
      (λ _. clamp_data-IsClamped allowed e depth v h)
      (λ _.
        if_cases (IsClamped allowed depth) (bytes_eq k (codes "currentValue"))
          (λ _. clamp_string-IsClamped allowed depth v h) (λ _. h))

mutual
  unfolding clamp_to IsClamped

  clamp_to-IsClamped :
      (allowed : SandboxMode) (depth : ℕ) (v : Json)
      → IsClamped allowed depth (clamp_to allowed depth v)
  clamp_to-IsClamped allowed depth (array xs) =
      if_cases (IsClamped allowed depth) (ltb 8 depth) (λ e. inl e)
        (λ _. inr (clamp_items-IsClamped allowed (depth + 1) xs))
  clamp_to-IsClamped allowed depth (object fs) =
      if_cases (IsClamped allowed depth) (ltb 8 depth) (λ e. inl e)
        (λ _. inr (
          event_level-low allowed (depth + 1) fs,
          current_value-low allowed (kind_of fs) (depth + 1) fs,
          clamp_fields-IsClamped allowed (kind_of fs) (depth + 1) fs,
        ))
  clamp_to-IsClamped allowed depth null = tt
  clamp_to-IsClamped allowed depth (boolean b) = tt
  clamp_to-IsClamped allowed depth (number n) = tt
  clamp_to-IsClamped allowed depth (other_number n) = tt
  clamp_to-IsClamped allowed depth (string s) = tt

  clamp_items-IsClamped :
      (allowed : SandboxMode) (depth : ℕ) (xs : Items)
      → IsClampedItems allowed depth (clamp_items allowed depth xs)
  clamp_items-IsClamped allowed depth nil = tt
  clamp_items-IsClamped allowed depth (cons x xs) =
      (clamp_to-IsClamped allowed depth x, clamp_items-IsClamped allowed depth xs)

  clamp_fields-IsClamped :
      (allowed : SandboxMode) (e : Event) (depth : ℕ) (fs : Fields)
      → IsClampedFields allowed depth (clamp_fields allowed e depth fs)
  clamp_fields-IsClamped allowed e depth end = tt
  clamp_fields-IsClamped allowed e depth (field k v fs) = (
    clamp_child-IsClamped allowed e depth k (clamp_to allowed depth v)
        (clamp_to-IsClamped allowed depth v),
    clamp_fields-IsClamped allowed e depth fs,
  )

-- In the session history that a user with the level `allowed` gets, no event and no `currentValue`
-- names, to the depth of eight, a level above it.
pub clamp_session_history_sandbox-IsClamped :
    (allowed : SandboxMode) (v : Json)
    → IsClamped allowed 0 (clamp_session_history_sandbox (some allowed) v)
unfolding clamp_session_history_sandbox
clamp_session_history_sandbox-IsClamped allowed v = clamp_to-IsClamped allowed 0 v
