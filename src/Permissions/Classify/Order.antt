-- ===== src/Permissions/Classify/Order.antt =====
-- `classifySubuserPath` and `isSubuserBlockedApiPath` of src/permissions.ts: refused paths.
use dsh_passwords.Prelude.{
  ℕ, suc, ◌+◌, ◌≡◌, ◌⊎◌, refl, ap, ◌∙◌, Bool, true, false, not, ◌&&◌, ◌||◌, Option, none, some,
  List, [], ◌∷◌, ◌++◌, length, drop, bytes_eq, bytes_eq_iff, arith, Bool-cases, inl, inr,
  length-append,
}
use dsh_passwords.Text.{codes, split, is_empty, has_code, has_text, starts_with, strip_prefix}
use dsh_passwords.Text.Laws.{split-append, split_none}
use dsh_passwords.Permissions.Endpoint.{Transport, owner_only, endpoint_allowed}
use dsh_passwords.Permissions.Classify.{
  Manifest, owner_class, third_party, api_namespace_of, api_endpoint_of, namespace_of_rest,
  method_of, first_text, is_blocked_namespace, is_blocked_method, is_subuser_blocked_api_path,
  is_subuser_blocked_remote_endpoint, classify_subuser_path, dynamic_plugin_stream_allowed,
}

-- A refused path is the owner's or a third party's, whatever the rules and the manifest say.
pub classify-refused :
    (pathname : List ℕ) (rules : List (List ℕ)) (t : Transport) (m : Option Manifest)
    → is_subuser_blocked_api_path pathname ≡ true
    → (classify_subuser_path pathname rules t m ≡ owner_class)
      ⊎ (classify_subuser_path pathname rules t m ≡ third_party)
unfolding classify_subuser_path
classify-refused pathname rules t m h =
    elim (Bool-cases (endpoint_allowed pathname rules none (some owner_only))) [
      | inl e ↦ inl (ground arith)
      | inr e ↦ inr (ground arith)
    ]

abbrev all_texts : (List ℕ → Bool) → List (List ℕ) → Bool
all_texts test [] = true
all_texts test (t ∷ l) = test t && all_texts test l

-- A test that all texts of a list pass is passed by each of them.
has_text-all :
    (test : List ℕ → Bool) (s : List ℕ) (l : List (List ℕ))
    → has_text s l ≡ true
    → all_texts test l ≡ true
    → test s ≡ true
unfolding has_text
has_text-all test s [] h k = absurd (ground arith)
has_text-all test s (t ∷ l) h k = elim (Bool-cases (bytes_eq s t)) [
  | inl e ↦ ap test ((bytes_eq_iff s t).0 e) ∙ (ground arith)
  | inr e ↦ has_text-all test s l (ground arith) (ground arith)
]

abbrev pub is_plain : List ℕ → Bool
is_plain s = not (has_code b'/' s) && not (has_code b'.' s)

blocked_namespace-plain : (name : List ℕ) → is_blocked_namespace name ≡ true → is_plain name ≡ true
unfolding has_code
blocked_namespace-plain name h = has_text-all is_plain name _ h refl

-- The two spellings of an endpoint: `namespace.method` and `namespace/method`.
abbrev pub IsSeparator : ℕ → Type 0
IsSeparator c = (c ≡ b'.') ⊎ (c ≡ b'/')

abbrev pub spelled : List ℕ → ℕ → List ℕ → List ℕ
spelled name c method = codes "/api/" ++ (name ++ c ∷ method)

has_code-append : (c : ℕ) (p q : List ℕ) → has_code c (p ++ q) ≡ has_code c p || has_code c q
unfolding has_code
has_code-append c [] q = refl
has_code-append c (d ∷ p) q = ground (arith, has_code-append c p q)

drop-suc-length : (p q : List ℕ) (d : ℕ) → drop (suc (length p)) (p ++ d ∷ q) ≡ q
drop-suc-length [] q d = refl
drop-suc-length (c ∷ p) q d = drop-suc-length p q d

drop-length : (p q : List ℕ) (d : ℕ) → drop (length p + 1) (p ++ d ∷ q) ≡ q
drop-length p q d =
    ap (λ n. drop n (p ++ d ∷ q)) {y = suc (length p)} (omega arith) ∙ drop-suc-length p q d

module _ (name method : List ℕ) (plain : is_plain name ≡ true) (one : has_code b'/' method ≡ false)
    (full : is_empty method ≡ false) where
  parts-slash : split b'/' (name ++ b'/' ∷ method) ≡ name ∷ method ∷ []
  parts-slash =
      split-append b'/' name method (ground arith) ∙ ap (λ l. name ∷ l) (split_none b'/' method one)

  parts-dot : split b'/' (name ++ b'.' ∷ method) ≡ (name ++ b'.' ∷ method) ∷ []
  unfolding has_code
  parts-dot =
      split_none b'/' (name ++ b'.' ∷ method)
        (has_code-append b'/' name (b'.' ∷ method) ∙ (ground arith))

  namespace-slash :
      namespace_of_rest (name ++ b'/' ∷ method) ≡ record { segment = name; head = name }
  namespace-slash =
      ap (λ l. record { segment = first_text l; head = first_text (split b'.' (first_text l)) })
        parts-slash
      ∙ ap (λ l. record { segment = name; head = first_text l })
          (split_none b'.' name (ground arith))

  namespace-dot :
      namespace_of_rest (name ++ b'.' ∷ method)
      ≡ record { segment = name ++ b'.' ∷ method; head = name }
  namespace-dot =
      ap (λ l. record { segment = first_text l; head = first_text (split b'.' (first_text l)) })
        parts-dot
      ∙ ap (λ l. record { segment = name ++ b'.' ∷ method; head = first_text l })
          (split-append b'.' name method (ground arith))

  method-slash :
      method_of (name ++ b'/' ∷ method) record { segment = name; head = name } ≡ some method
  method-slash = ground (arith, parts-slash)

  method-dot :
      method_of (name ++ b'.' ∷ method) record { segment = name ++ b'.' ∷ method; head = name }
      ≡ some method
  method-dot = ground (arith, drop-length name method b'.', length-append name (b'.' ∷ method))

  blocked-slash :
      is_subuser_blocked_api_path (spelled name b'/' method)
      ≡ is_blocked_namespace name || is_blocked_method name (some method)
  unfolding is_subuser_blocked_api_path api_namespace_of api_endpoint_of strip_prefix starts_with
  blocked-slash = ground (arith, namespace-slash, method-slash)

  dotted : has_code b'.' (b'.' ∷ method) ≡ true
  unfolding has_code
  dotted = refl

  whole-unblocked : is_blocked_namespace (name ++ b'.' ∷ method) ≡ false
  whole-unblocked = elim (Bool-cases (is_blocked_namespace (name ++ b'.' ∷ method))) [
    | inl e ↦ absurd (
        ground (
          arith,
          blocked_namespace-plain (name ++ b'.' ∷ method) e,
          has_code-append b'.' name (b'.' ∷ method),
          dotted,
        ))
    | inr e ↦ e
  ]

  blocked-dot :
      is_subuser_blocked_api_path (spelled name b'.' method)
      ≡ is_blocked_namespace name || is_blocked_method name (some method)
  unfolding is_subuser_blocked_api_path api_namespace_of api_endpoint_of strip_prefix starts_with
  blocked-dot = ground (arith, namespace-dot, method-dot, whole-unblocked)

  -- Both spellings of an endpoint, `/api/namespace.method` and `/api/namespace/method`, are refused
  -- alike: when the namespace is refused, or the method in it.
  pub blocked-spelled :
      (c : ℕ)
      → IsSeparator c
      → is_subuser_blocked_api_path (spelled name c method)
        ≡ is_blocked_namespace name || is_blocked_method name (some method)
  blocked-spelled c (inl e) =
      ap (λ d. is_subuser_blocked_api_path (spelled name d method)) e ∙ blocked-dot
  blocked-spelled c (inr e) =
      ap (λ d. is_subuser_blocked_api_path (spelled name d method)) e ∙ blocked-slash

-- A remote stream of a refused endpoint is never allowed, and an allowed one is in the manifest.
pub stream_sound :
    (endpoint : List ℕ) (m : Manifest)
    → dynamic_plugin_stream_allowed endpoint (some m) ≡ true
    → (has_text endpoint m.stream_endpoints ≡ true)
      × (is_subuser_blocked_remote_endpoint endpoint ≡ false)
unfolding dynamic_plugin_stream_allowed
stream_sound endpoint m h = ground arith

-- Outside the account namespace the remote channel refuses exactly the endpoints that the HTTP
-- interface refuses.
pub blocked_remote-blocked :
    (name method : List ℕ)
    → is_plain name ≡ true
    → has_code b'/' method ≡ false
    → is_empty method ≡ false
    → bytes_eq name (codes "account") ≡ false
    → is_subuser_blocked_remote_endpoint (name ++ b'/' ∷ method)
      ≡ is_subuser_blocked_api_path (spelled name b'/' method)
unfolding is_subuser_blocked_remote_endpoint
blocked_remote-blocked name method plain one full other =
    ground (
      arith,
      blocked-slash name method plain one full,
      split-append b'/' name method (ground arith),
    )
