-- ===== src/Permissions/Sessions/Authorized.antt =====
-- `collectAuthorizedSessionIds` of src/permissions.ts.
use mathlib.Core.Path.{subst}
use dsh_passwords.Prelude.{
  false, ℕ, ◌+◌, ◌≡◌, refl, sym, ap, ◌∙◌, true, List, [], ltb, if◌then◌else◌, arith, Bool-cases,
  inl, inr, ◌⊎◌, Option, none, some, some_inj,
}
use dsh_passwords.Text.{codes, has_text}
use dsh_passwords.Json.{
  Json, null, boolean, number, other_number, string, array, object, Items, nil, cons, Fields, end,
  field, get_field, text_of,
}
use dsh_passwords.Permissions.Sessions.{
  SessionAddress, subagent, parse_session_address, authority, add, add_authority, visit_address,
  add_text, visit_subagent, visit_parts, subagent_of, subagent_address, valid_text, valid_id, Mode,
  mode_text_of, is_address_key, is_id_key, then_some, visit_row, visit_ids, visit_id_items,
  visit_id_fields, collect_authorized_session_ids,
}
use dsh_passwords.Permissions.Sessions.Collected.{
  id_names, address_names, has_text-id_names, has_text-address_names, IsAddressIn, IsIdIn,
  IsParentIn, IsCollected, IsCollectedItems, IsCollectedFields, Below, has_text-add, add-Below,
  IsAddressIn-mono, IsParentIn-mono, IsCollected-mono,
}

then_some_inv {ℓ} :
    {A : Type ℓ} (o : Option A) (f : A → Option A) (r : A)
    → then_some o f ≡ some r
    → (a : A) × (o ≡ some a) × (f a ≡ some r)
then_some_inv none f r h = cc
then_some_inv (some a) f r h = (a, refl, h)

add_authority_lem :
    (o : Option SessionAddress) (out out' : List (List ℕ))
    → add_authority o out ≡ some out'
    → Below out out' × ((a : SessionAddress) × (o ≡ some a) × (has_text (authority a) out' ≡ true))
add_authority_lem none out out' h = cc
add_authority_lem (some a) out out' h =
    subst
      (λ l.
        Below out l
        × ((b : SessionAddress) × (some a ≡ some b) × (has_text (authority b) l ≡ true)))
      (some_inj (add (authority a) out) out' h)
      (add-Below (authority a) out, (a, refl, has_text-add (authority a) out))

visit_address_lem :
    (v : Option Json) (out out' : List (List ℕ))
    → visit_address v out ≡ some out'
    → Below out out' × IsAddressIn out' v
visit_address_lem none out out' h = (λ id m. ap (has_text id) (sym (some_inj out out' h)) ∙ m, tt)
visit_address_lem (some v) out out' h =
    add_authority_lem (parse_session_address (some v)) out out' h

add_text_lem :
    (o : Option (List ℕ)) (out out' : List (List ℕ))
    → add_text o out ≡ some out'
    → Below out out' × ((id : List ℕ) × (o ≡ some id) × (has_text id out' ≡ true))
add_text_lem none out out' h = cc
add_text_lem (some id) out out' h =
    subst (λ l. Below out l × ((i : List ℕ) × (some id ≡ some i) × (has_text i l ≡ true)))
      (some_inj (add id out) out' h) (add-Below id out, (id, refl, has_text-add id out))

valid_text_sound : (o : Option (List ℕ)) (s : List ℕ) → valid_text o ≡ some s → o ≡ some s
valid_text_sound none s h = cc
valid_text_sound (some t) s h = ground arith

subagent_address-parent :
    (p c : Option (List ℕ)) (m : Option Mode) (a : SessionAddress)
    → subagent_address p c m ≡ some a
    → p ≡ some (authority a)
subagent_address-parent (some p) (some c) (some m) a h =
    ap some (ap authority (some_inj (subagent p c m) a h))
subagent_address-parent none c m a h = cc
subagent_address-parent (some p) none m a h = cc
subagent_address-parent (some p) (some c) none a h = cc

subagent_of-parent :
    (p c m : Option Json) (a : SessionAddress)
    → subagent_of p c m ≡ some a
    → text_of p ≡ some (authority a)
subagent_of-parent p c m a h =
    valid_text_sound (text_of p) (authority a)
      (subagent_address-parent (valid_id p) (valid_id c) (mode_text_of (text_of m)) a h)

stay :
    (out out' : List (List ℕ))
    → ◌≡◌ {A = Option (List (List ℕ))} (some out) (some out')
    → Below out out'
stay out out' h id m = ap (has_text id) (sym (some_inj out out' h)) ∙ m

visit_child_lem :
    (p : Json) (c m : Option Json) (out out' : List (List ℕ))
    → add_authority (subagent_of (some p) c m) out ≡ some out'
    → Below out out' × IsIdIn out' p
visit_child_lem p c m out out' h =
    let (b, (a, e, i)) = add_authority_lem (subagent_of (some p) c m) out out' h in
    (b, (authority a, subagent_of-parent (some p) c m a e, i))

visit_parts_lem :
    (p c m : Option Json) (out out' : List (List ℕ))
    → visit_parts p c m out ≡ some out'
    → Below out out' × IsParentIn out' p
visit_parts_lem none none m out out' h = (stay out out' h, tt)
visit_parts_lem none (some c) m out out' h =
    ((add_authority_lem (subagent_of none (some c) m) out out' h).0, tt)
visit_parts_lem (some p) (some c) m out out' h = visit_child_lem p (some c) m out out' h
visit_parts_lem (some p) none (some m) out out' h = visit_child_lem p none (some m) out out' h
visit_parts_lem (some p) none none out out' h = add_text_lem (text_of (some p)) out out' h

visit_row_lem :
    (row : Fields) (out out' : List (List ℕ))
    → visit_row row out ≡ some out'
    → Below out out'
      × IsAddressIn out' (get_field (codes "address") row)
      × IsParentIn out' (get_field (codes "parentSessionId") row)
visit_row_lem row out out' h =
    let (o, e, g) =
      then_some_inv (visit_address (get_field (codes "address") row) out) (visit_subagent row) out'
        h in
    let (b, a) = visit_address_lem (get_field (codes "address") row) out o e in
    let (c, p) =
      visit_parts_lem (get_field (codes "parentSessionId") row)
        (get_field (codes "childSessionId") row) (get_field (codes "mode") row) o out' g in
    (λ id m. c id (b id m), IsAddressIn-mono o out' (get_field (codes "address") row) c a, p)

-- What a field of a name owes.
abbrev IsFieldIn : List (List ℕ) → ℕ → List ℕ → Json → Type 0
IsFieldIn out depth k v =
    (has_text k address_names ≡ true)
    ⊎ ((has_text k id_names ≡ true) × IsIdIn out v)
    ⊎ ((has_text k id_names ≡ false) × IsCollected out depth v)

IsFieldIn-mono :
    (out out' : List (List ℕ)) (depth : ℕ) (k : List ℕ) (v : Json)
    → Below out out'
    → IsFieldIn out depth k v
    → IsFieldIn out' depth k v
IsFieldIn-mono out out' depth k v g (inl e) = inl e
IsFieldIn-mono out out' depth k v g (inr (inl (e, (id, t, m)))) = inr (inl (e, (id, t, g id m)))
IsFieldIn-mono out out' depth k v g (inr (inr (n, h))) =
    inr (inr (n, IsCollected-mono out out' depth v g h))

-- What the field of a name collects, given what a visit of its value does.
visit_field_lem :
    (depth : ℕ) (k : List ℕ) (v : Json) (out out' : List (List ℕ))
    → (visit_ids depth v out ≡ some out' → Below out out' × IsCollected out' depth v)
    → (if is_address_key k
        then some out
        else if is_id_key k
        then add_text (text_of (some v)) out
        else visit_ids depth v out)
      ≡ some out'
    → Below out out' × IsFieldIn out' depth k v
visit_field_lem depth k v out out' visit h = elim (Bool-cases (is_address_key k)) [
  | inl e ↦ (stay out out' (simp e at h), inl (has_text-address_names k ∙ e))
  | inr e ↦ elim (Bool-cases (is_id_key k)) [
    | inl g ↦
        let (b, i) = add_text_lem (text_of (some v)) out out' (simp (e, g) at h) in
        (b, inr (inl (has_text-id_names k ∙ g, i)))
    | inr g ↦ let (b, i) = visit (simp (e, g) at h) in (b, inr (inr (has_text-id_names k ∙ g, i)))
  ]
]

mutual
  unfolding visit_ids IsCollected

  visit_ids_lem :
      (depth : ℕ) (v : Json) (out out' : List (List ℕ))
      → visit_ids depth v out ≡ some out'
      → Below out out' × IsCollected out' depth v
  visit_ids_lem depth (array xs) out out' h = elim (Bool-cases (ltb 8 depth)) [
    | inl e ↦ (stay out out' (simp e at h), inl e)
    | inr e ↦ let (b, i) = visit_id_items_lem (depth + 1) xs out out' (simp e at h) in (b, inr i)
  ]
  visit_ids_lem depth (object row) out out' h = elim (Bool-cases (ltb 8 depth)) [
    | inl e ↦ (stay out out' (simp e at h), inl e)
    | inr e ↦
        let (o, g, k) =
          then_some_inv (visit_row row out) (λ l. visit_id_fields (depth + 1) row l) out'
            (simp e at h) in
        let (b, a, p) = visit_row_lem row out o g in
        let (c, i) = visit_id_fields_lem (depth + 1) row o out' k in
        (
          λ id m. c id (b id m),
          inr (
            IsAddressIn-mono o out' (get_field (codes "address") row) c a,
            IsParentIn-mono o out' (get_field (codes "parentSessionId") row) c p,
            i,
          ),
        )
  ]
  visit_ids_lem depth null out out' h = (stay out out' h, tt)
  visit_ids_lem depth (boolean b) out out' h = (stay out out' h, tt)
  visit_ids_lem depth (number n) out out' h = (stay out out' h, tt)
  visit_ids_lem depth (other_number n) out out' h = (stay out out' h, tt)
  visit_ids_lem depth (string s) out out' h = (stay out out' h, tt)

  visit_id_items_lem :
      (depth : ℕ) (xs : Items) (out out' : List (List ℕ))
      → visit_id_items depth xs out ≡ some out'
      → Below out out' × IsCollectedItems out' depth xs
  visit_id_items_lem depth nil out out' h = (stay out out' h, tt)
  visit_id_items_lem depth (cons x xs) out out' h =
      let (o, g, k) =
        then_some_inv (visit_ids depth x out) (λ l. visit_id_items depth xs l) out' h in
      let (b, i) = visit_ids_lem depth x out o g in
      let (c, is) = visit_id_items_lem depth xs o out' k in
      (λ id m. c id (b id m), (IsCollected-mono o out' depth x c i, is))

  visit_id_fields_lem :
      (depth : ℕ) (fs : Fields) (out out' : List (List ℕ))
      → visit_id_fields depth fs out ≡ some out'
      → Below out out' × IsCollectedFields out' depth fs
  visit_id_fields_lem depth end out out' h = (stay out out' h, tt)
  visit_id_fields_lem depth (field k v fs) out out' h =
      let (o, g, r) =
        then_some_inv
          (if is_address_key k
            then some out
            else if is_id_key k
            then add_text (text_of (some v)) out
            else visit_ids depth v out)
          (λ l. visit_id_fields depth fs l) out' h in
      let (b, i) = visit_field_lem depth k v out o (λ q. visit_ids_lem depth v out o q) g in
      let (c, is) = visit_id_fields_lem depth fs o out' r in
      (λ id m. c id (b id m), (IsFieldIn-mono o out' depth k v c i, is))

-- If a request's sessions can be read, then the result has, to the depth of eight, every named
-- session identity and every parent of a subagent, and every address is well formed and gives its
-- authority.
pub collect_authorized_session_ids-IsCollected :
    (value : Json) (out : List (List ℕ))
    → collect_authorized_session_ids value ≡ some out
    → IsCollected out 0 value
unfolding collect_authorized_session_ids
collect_authorized_session_ids-IsCollected value out h = (visit_ids_lem 0 value [] out h).1
