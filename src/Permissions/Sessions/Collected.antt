-- ===== src/Permissions/Sessions/Collected.antt =====
-- What `collectAuthorizedSessionIds` of src/permissions.ts is to collect.
use dsh_passwords.Prelude.{
  ℕ, ◌+◌, ◌≡◌, refl, ap, ◌∙◌, Bool, true, false, ◌||◌, List, [], ◌∷◌, ◌++◌, ltb, if_cases, bytes_eq,
  bytes_eq_iff, arith, inl, inr, ◌⊎◌, Option, none, some,
}
use dsh_passwords.Text.{codes, has_text}
use dsh_passwords.Json.{
  Json, null, boolean, number, other_number, string, array, object, Items, nil, cons, Fields, end,
  field, get_field, text_of,
}
use dsh_passwords.Permissions.Sessions.{
  SessionAddress, parse_session_address, authority, add, is_address_key, is_id_key,
}

-- An `address` that is there can be read, and its authority is collected.
abbrev pub IsAddressIn : List (List ℕ) → Option Json → Type 0
IsAddressIn out none = Unit
IsAddressIn out (some address) =
    (a : SessionAddress) × (parse_session_address (some address) ≡ some a)
    × (has_text (authority a) out ≡ true)

-- A named identity is a text, and it is collected.
abbrev pub IsIdIn : List (List ℕ) → Json → Type 0
IsIdIn out v = (id : List ℕ) × (text_of (some v) ≡ some id) × (has_text id out ≡ true)

abbrev pub IsParentIn : List (List ℕ) → Option Json → Type 0
IsParentIn out none = Unit
IsParentIn out (some v) = IsIdIn out v

-- The names whose values are identities, and the parts of an address, which are read with the whole
-- row.
abbrev pub id_names : List (List ℕ)
id_names = codes "sessionId" ∷ codes "agentId" ∷ codes "workspaceFileScopeId" ∷ []

abbrev pub address_names : List (List ℕ)
address_names =
    codes "address" ∷ codes "parentSessionId" ∷ codes "childSessionId" ∷ codes "mode" ∷ []

pub has_text-id_names : (k : List ℕ) → has_text k id_names ≡ is_id_key k
unfolding has_text is_id_key
has_text-id_names k = ground arith

pub has_text-address_names : (k : List ℕ) → has_text k address_names ≡ is_address_key k
unfolding has_text is_address_key
has_text-address_names k = ground arith

-- To the depth of eight, every address, every parent of a subagent and every named identity is collected.
unfoldable mutual
  pub IsCollected : List (List ℕ) → ℕ → Json → Type 0
  IsCollected out depth (array xs) = (ltb 8 depth ≡ true) ⊎ IsCollectedItems out (depth + 1) xs
  IsCollected out depth (object row) =
      (ltb 8 depth ≡ true)
      ⊎ (IsAddressIn out (get_field (codes "address") row)
          × IsParentIn out (get_field (codes "parentSessionId") row)
          × IsCollectedFields out (depth + 1) row)
  IsCollected out depth null = Unit
  IsCollected out depth (boolean b) = Unit
  IsCollected out depth (number n) = Unit
  IsCollected out depth (other_number n) = Unit
  IsCollected out depth (string s) = Unit

  pub IsCollectedItems : List (List ℕ) → ℕ → Items → Type 0
  IsCollectedItems out depth nil = Unit
  IsCollectedItems out depth (cons x xs) = IsCollected out depth x × IsCollectedItems out depth xs

  pub IsCollectedFields : List (List ℕ) → ℕ → Fields → Type 0
  IsCollectedFields out depth end = Unit
  IsCollectedFields out depth (field k v fs) =
      ((has_text k address_names ≡ true)
        ⊎ ((has_text k id_names ≡ true) × IsIdIn out v)
        ⊎ ((has_text k id_names ≡ false) × IsCollected out depth v))
      × IsCollectedFields out depth fs

abbrev pub Below : List (List ℕ) → List (List ℕ) → Type 0
Below out out' = (id : List ℕ) → has_text id out ≡ true → has_text id out' ≡ true

||_assoc : (a b c : Bool) → (a || (b || c)) ≡ ((a || b) || c)
||_assoc a b c = ground arith

has_text-append :
    (id : List ℕ) (out rest : List (List ℕ))
    → has_text id (out ++ rest) ≡ (has_text id out || has_text id rest)
unfolding has_text
has_text-append id [] rest = refl
has_text-append id (t ∷ out) rest =
    ap (λ b. bytes_eq id t || b) (has_text-append id out rest)
    ∙ ||_assoc (bytes_eq id t) (has_text id out) (has_text id rest)

||-last : (a b : Bool) → b ≡ true → (a || (b || false)) ≡ true
||-last a b h = ground arith

||-first : (a b : Bool) → a ≡ true → (a || b) ≡ true
||-first a b h = ground arith

pub has_text-add : (id : List ℕ) (out : List (List ℕ)) → has_text id (add id out) ≡ true
unfolding add has_text
has_text-add id out =
    if_cases (λ l. has_text id l ≡ true) (has_text id out) (λ e. e)
      (λ _.
        has_text-append id out (id ∷ [])
        ∙ ||-last (has_text id out) (bytes_eq id id) ((bytes_eq_iff id id).1 refl))

pub add-Below : (id : List ℕ) (out : List (List ℕ)) → Below out (add id out)
unfolding add
add-Below id out other h =
    if_cases (λ l. has_text other l ≡ true) (has_text id out) (λ _. h)
      (λ _. has_text-append other out (id ∷ []) ∙ ||-first _ _ h)

pub IsAddressIn-mono :
    (out out' : List (List ℕ)) (v : Option Json)
    → Below out out'
    → IsAddressIn out v
    → IsAddressIn out' v
IsAddressIn-mono out out' none g h = tt
IsAddressIn-mono out out' (some v) g (a, e, m) = (a, e, g (authority a) m)

pub IsParentIn-mono :
    (out out' : List (List ℕ)) (v : Option Json)
    → Below out out'
    → IsParentIn out v
    → IsParentIn out' v
IsParentIn-mono out out' none g h = tt
IsParentIn-mono out out' (some v) g (id, e, m) = (id, e, g id m)

mutual
  unfolding IsCollected

  pub IsCollected-mono :
      (out out' : List (List ℕ)) (depth : ℕ) (v : Json)
      → Below out out'
      → IsCollected out depth v
      → IsCollected out' depth v
  IsCollected-mono out out' depth (array xs) g (inl e) = inl e
  IsCollected-mono out out' depth (array xs) g (inr h) =
      inr (IsCollectedItems-mono out out' (depth + 1) xs g h)
  IsCollected-mono out out' depth (object row) g (inl e) = inl e
  IsCollected-mono out out' depth (object row) g (inr (a, p, h)) = inr (
    IsAddressIn-mono out out' (get_field (codes "address") row) g a,
    IsParentIn-mono out out' (get_field (codes "parentSessionId") row) g p,
    IsCollectedFields-mono out out' (depth + 1) row g h,
  )
  IsCollected-mono out out' depth null g h = tt
  IsCollected-mono out out' depth (boolean b) g h = tt
  IsCollected-mono out out' depth (number n) g h = tt
  IsCollected-mono out out' depth (other_number n) g h = tt
  IsCollected-mono out out' depth (string s) g h = tt

  IsCollectedItems-mono :
      (out out' : List (List ℕ)) (depth : ℕ) (xs : Items)
      → Below out out'
      → IsCollectedItems out depth xs
      → IsCollectedItems out' depth xs
  IsCollectedItems-mono out out' depth nil g h = tt
  IsCollectedItems-mono out out' depth (cons x xs) g (h, hs) =
      (IsCollected-mono out out' depth x g h, IsCollectedItems-mono out out' depth xs g hs)

  IsCollectedFields-mono :
      (out out' : List (List ℕ)) (depth : ℕ) (fs : Fields)
      → Below out out'
      → IsCollectedFields out depth fs
      → IsCollectedFields out' depth fs
  IsCollectedFields-mono out out' depth end g h = tt
  IsCollectedFields-mono out out' depth (field k v fs) g (inl e, hs) =
      (inl e, IsCollectedFields-mono out out' depth fs g hs)
  IsCollectedFields-mono out out' depth (field k v fs) g (inr (inl (e, (id, t, m))), hs) =
      (inr (inl (e, (id, t, g id m))), IsCollectedFields-mono out out' depth fs g hs)
  IsCollectedFields-mono out out' depth (field k v fs) g (inr (inr (n, h)), hs) = (
    inr (inr (n, IsCollected-mono out out' depth v g h)),
    IsCollectedFields-mono out out' depth fs g hs,
  )
