-- ===== src/Permissions/Classify/Tests.antt =====
-- Refused paths on small inputs.
use dsh_passwords.Prelude.{ℕ, ◌≡◌, refl, true, false, some, List, [], ◌∷◌, ◌||◌, inl}
use dsh_passwords.Text.{codes, split, has_code, has_text, starts_with, strip_prefix}
use dsh_passwords.Permissions.Classify.{
  api_namespace_of, api_endpoint_of, is_blocked_namespace, is_blocked_method,
  is_subuser_blocked_api_path,
}
use dsh_passwords.Permissions.Classify.Order.{blocked-spelled, spelled, is_plain}

terminal-refused : is_subuser_blocked_api_path (codes "/api/terminal/create") ≡ true
unfolding is_subuser_blocked_api_path api_namespace_of api_endpoint_of split has_code has_text
    starts_with strip_prefix
terminal-refused = refl

abbrev wide_rules : List (List ℕ)
wide_rules = codes "/api/terminal/*" ∷ []

plain_settings : is_plain (codes "settings") ≡ true
unfolding has_code
plain_settings = refl

whole_update : has_code b'/' (codes "update") ≡ false
unfolding has_code
whole_update = refl

blocked-spelled_example :
    is_subuser_blocked_api_path (spelled (codes "settings") b'.' (codes "update"))
    ≡ is_blocked_namespace (codes "settings")
      || is_blocked_method (codes "settings") (some (codes "update"))
blocked-spelled_example =
    blocked-spelled (codes "settings") (codes "update") plain_settings whole_update refl b'.'
      (inl refl)
