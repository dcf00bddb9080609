-- ===== src/Permissions/Sandbox/Levels.antt =====
-- The levels that an object of a session's history names, and what `clampSessionHistorySandbox` of
-- src/permissions.ts does to each.
use dsh_passwords.Prelude.{
  ℕ, ◌+◌, ◌≡◌, refl, ap, ◌∙◌, Bool, true, false, not, List, ltb, if_cases, bytes_eq, bytes_eq_iff,
  Bool-cases, inl, inr, ◌⊎◌, Option, none, some,
}
use dsh_passwords.Text.{codes}
use dsh_passwords.Json.{
  Json, null, boolean, number, other_number, string, array, object, Items, nil, cons, Fields, end,
  field, get_field, text_of,
}
use dsh_passwords.Permissions.Sandbox.{
  SandboxMode, read_only, workspace_write, danger_full_access, mode_text, mode_rank, sandbox_rank,
  exceeds, Event, preset_event, mode_event, other_event, event_of, clamp_text, clamp_rank,
  clamp_string, clamp_named, clamp_data, clamp_child, clamp_to, clamp_fields,
}

-- A text that names no level above the allowed one.
pub is_low : SandboxMode → Option (List ℕ) → Bool
is_low allowed none = true
is_low allowed (some s) = not (exceeds (sandbox_rank s) (mode_rank allowed))

-- The level that the data of an event names.
pub level_of : Event → Option Json → Option (List ℕ)
level_of preset_event (some (object fs)) = text_of (get_field (codes "preset") fs)
level_of mode_event (some (object fs)) = text_of (get_field (codes "mode") fs)
level_of _ _ = none

abbrev pub kind_of : Fields → Event
kind_of fs = event_of (text_of (get_field (codes "type") fs))

abbrev pub event_level : Fields → Option (List ℕ)
event_level fs = level_of (kind_of fs) (get_field (codes "data") fs)

abbrev pub current_value : Fields → Option (List ℕ)
current_value fs = text_of (get_field (codes "currentValue") fs)

-- To the depth of eight, no event and no `currentValue` names a level above the allowed one.
unfoldable mutual
  pub IsClamped : SandboxMode → ℕ → Json → Type 0
  IsClamped allowed depth (array xs) = (ltb 8 depth ≡ true) ⊎ IsClampedItems allowed (depth + 1) xs
  IsClamped allowed depth (object fs) =
      (ltb 8 depth ≡ true)
      ⊎ ((is_low allowed (event_level fs) ≡ true)
          × (is_low allowed (current_value fs) ≡ true)
          × IsClampedFields allowed (depth + 1) fs)
  IsClamped allowed depth null = Unit
  IsClamped allowed depth (boolean b) = Unit
  IsClamped allowed depth (number n) = Unit
  IsClamped allowed depth (other_number n) = Unit
  IsClamped allowed depth (string s) = Unit

  pub IsClampedItems : SandboxMode → ℕ → Items → Type 0
  IsClampedItems allowed depth nil = Unit
  IsClampedItems allowed depth (cons x xs) =
      IsClamped allowed depth x × IsClampedItems allowed depth xs

  pub IsClampedFields : SandboxMode → ℕ → Fields → Type 0
  IsClampedFields allowed depth end = Unit
  IsClampedFields allowed depth (field k v fs) =
      IsClamped allowed depth v × IsClampedFields allowed depth fs

abbrev map_some : (Json → Json) → Option Json → Option Json
map_some f none = none
map_some f (some v) = some (f v)

mode_text-low : (allowed : SandboxMode) → is_low allowed (some (mode_text allowed)) ≡ true
unfolding is_low sandbox_rank
mode_text-low read_only = refl
mode_text-low workspace_write = refl
mode_text-low danger_full_access = refl

clamp_rank-low :
    (allowed : SandboxMode) (s : List ℕ) (r : Option ℕ)
    → sandbox_rank s ≡ r
    → is_low allowed (some (clamp_rank allowed s r)) ≡ true
unfolding is_low
clamp_rank-low allowed s none e = ap (λ r. not (exceeds r (mode_rank allowed))) e
clamp_rank-low allowed s (some n) e = elim (Bool-cases (ltb (mode_rank allowed) n)) [
  | inl h ↦ simp h (mode_text-low allowed)
  | inr h ↦ simp h (ap (λ r. not (exceeds r (mode_rank allowed))) e ∙ ap not h)
]

clamp_string-low :
    (allowed : SandboxMode) (v : Json)
    → is_low allowed (text_of (some (clamp_string allowed v))) ≡ true
unfolding clamp_text is_low
clamp_string-low allowed (string s) = clamp_rank-low allowed s (sandbox_rank s) refl
clamp_string-low allowed null = refl
clamp_string-low allowed (boolean b) = refl
clamp_string-low allowed (number n) = refl
clamp_string-low allowed (other_number n) = refl
clamp_string-low allowed (array xs) = refl
clamp_string-low allowed (object fs) = refl

map_some-low :
    (allowed : SandboxMode) (f : Json → Json) (o : Option Json)
    → is_low allowed (text_of (map_some (λ v. clamp_string allowed (f v)) o)) ≡ true
unfolding is_low
map_some-low allowed f none = refl
map_some-low allowed f (some v) = clamp_string-low allowed (f v)

-- The walk treats the field of a name by that name.
get-clamp_fields :
    (allowed : SandboxMode) (e : Event) (depth : ℕ) (key : List ℕ) (fs : Fields)
    → get_field key (clamp_fields allowed e depth fs)
      ≡ map_some (λ v. clamp_child allowed e key (clamp_to allowed depth v)) (get_field key fs)
unfolding clamp_to get_field
get-clamp_fields allowed e depth key end = refl
get-clamp_fields allowed e depth key (field k v fs) = elim (Bool-cases (bytes_eq k key)) [
  | inl h ↦ simp h (
      ap (λ n. some (clamp_child allowed e n (clamp_to allowed depth v)))
        ((bytes_eq_iff k key).0 h))
  | inr h ↦ simp h (get-clamp_fields allowed e depth key fs)
]

get-clamp_named :
    (allowed : SandboxMode) (name : List ℕ) (fs : Fields)
    → get_field name (clamp_named allowed name fs)
      ≡ map_some (clamp_string allowed) (get_field name fs)
unfolding clamp_named get_field
get-clamp_named allowed name end = refl
get-clamp_named allowed name (field k v fs) = elim (Bool-cases (bytes_eq k name)) [
  | inl h ↦ simp h refl
  | inr h ↦ simp h (get-clamp_named allowed name fs)
]

-- Another field than the named one stays.
pub get-clamp_named-other :
    (allowed : SandboxMode) (name key : List ℕ) (fs : Fields)
    → bytes_eq name key ≡ false
    → get_field key (clamp_named allowed name fs) ≡ get_field key fs
unfolding clamp_named get_field
get-clamp_named-other allowed name key end other = refl
get-clamp_named-other allowed name key (field k v fs) other = elim (Bool-cases (bytes_eq k name)) [
  | inl h ↦ simp (h, ap (λ n. bytes_eq n key) ((bytes_eq_iff k name).0 h) ∙ other) refl
  | inr h ↦ elim (Bool-cases (bytes_eq k key)) [
    | inl g ↦ simp (h, g) refl
    | inr g ↦ simp (h, g) (get-clamp_named-other allowed name key fs other)
  ]
]

text_of-clamp_to :
    (allowed : SandboxMode) (depth : ℕ) (v : Json)
    → text_of (some (clamp_to allowed depth v)) ≡ text_of (some v)
unfolding clamp_to
text_of-clamp_to allowed depth (array xs) =
    if_cases (λ w. text_of (some w) ≡ none) (ltb 8 depth) (λ _. refl) (λ _. refl)
text_of-clamp_to allowed depth (object fs) =
    if_cases (λ w. text_of (some w) ≡ none) (ltb 8 depth) (λ _. refl) (λ _. refl)
text_of-clamp_to allowed depth null = refl
text_of-clamp_to allowed depth (boolean b) = refl
text_of-clamp_to allowed depth (number n) = refl
text_of-clamp_to allowed depth (other_number n) = refl
text_of-clamp_to allowed depth (string s) = refl

text_of-map_some :
    (f : Json → Json) (o : Option Json)
    → ((v : Json) → text_of (some (f v)) ≡ text_of (some v))
    → text_of (map_some f o) ≡ text_of o
text_of-map_some f none h = refl
text_of-map_some f (some v) h = h v

-- The walk changes no event's kind.
kind_of-clamp_fields :
    (allowed : SandboxMode) (e : Event) (depth : ℕ) (fs : Fields)
    → kind_of (clamp_fields allowed e depth fs) ≡ kind_of fs
unfolding clamp_child
kind_of-clamp_fields allowed e depth fs = ap event_of (
    ap text_of (get-clamp_fields allowed e depth (codes "type") fs)
    ∙ text_of-map_some (clamp_to allowed depth) (get_field (codes "type") fs)
        (text_of-clamp_to allowed depth))

pub current_value-low :
    (allowed : SandboxMode) (e : Event) (depth : ℕ) (fs : Fields)
    → is_low allowed (current_value (clamp_fields allowed e depth fs)) ≡ true
unfolding clamp_child
current_value-low allowed e depth fs =
    ap (λ o. is_low allowed (text_of o))
      (get-clamp_fields allowed e depth (codes "currentValue") fs)
    ∙ map_some-low allowed (clamp_to allowed depth) (get_field (codes "currentValue") fs)

-- What stands in an event's `data` is clamped by the event's kind.
level_of-clamp_data :
    (allowed : SandboxMode) (e : Event) (v : Json)
    → is_low allowed (level_of e (some (clamp_data allowed e v))) ≡ true
unfolding level_of is_low
level_of-clamp_data allowed preset_event (object fs) =
    ap (λ o. is_low allowed (text_of o)) (get-clamp_named allowed (codes "preset") fs)
    ∙ map_some-low allowed (λ v. v) (get_field (codes "preset") fs)
level_of-clamp_data allowed mode_event (object fs) =
    ap (λ o. is_low allowed (text_of o)) (get-clamp_named allowed (codes "mode") fs)
    ∙ map_some-low allowed (λ v. v) (get_field (codes "mode") fs)
level_of-clamp_data allowed other_event v = refl
level_of-clamp_data allowed preset_event null = refl
level_of-clamp_data allowed preset_event (boolean b) = refl
level_of-clamp_data allowed preset_event (number n) = refl
level_of-clamp_data allowed preset_event (other_number n) = refl
level_of-clamp_data allowed preset_event (string s) = refl
level_of-clamp_data allowed preset_event (array xs) = refl
level_of-clamp_data allowed mode_event null = refl
level_of-clamp_data allowed mode_event (boolean b) = refl
level_of-clamp_data allowed mode_event (number n) = refl
level_of-clamp_data allowed mode_event (other_number n) = refl
level_of-clamp_data allowed mode_event (string s) = refl
level_of-clamp_data allowed mode_event (array xs) = refl

map_some-level_of :
    (allowed : SandboxMode) (e : Event) (f : Json → Json) (o : Option Json)
    → is_low allowed (level_of e (map_some (λ v. clamp_data allowed e (f v)) o)) ≡ true
unfolding level_of is_low
map_some-level_of allowed preset_event f none = refl
map_some-level_of allowed mode_event f none = refl
map_some-level_of allowed other_event f none = refl
map_some-level_of allowed e f (some v) = level_of-clamp_data allowed e (f v)

pub event_level-low :
    (allowed : SandboxMode) (depth : ℕ) (fs : Fields)
    → is_low allowed (event_level (clamp_fields allowed (kind_of fs) depth fs)) ≡ true
unfolding clamp_child
event_level-low allowed depth fs =
    ap
      (λ e.
        is_low allowed
          (level_of e (get_field (codes "data") (clamp_fields allowed (kind_of fs) depth fs))))
      (kind_of-clamp_fields allowed (kind_of fs) depth fs)
    ∙ ap (λ o. is_low allowed (level_of (kind_of fs) o))
        (get-clamp_fields allowed (kind_of fs) depth (codes "data") fs)
    ∙ map_some-level_of allowed (kind_of fs) (clamp_to allowed depth) (get_field (codes "data") fs)
