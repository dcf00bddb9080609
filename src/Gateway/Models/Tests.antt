-- ===== src/Gateway/Models/Tests.antt =====
-- A catalogue of two providers and a table with one model.
use dsh_passwords.Prelude.{ℕ, ◌≡◌, refl, some, List, [], ◌∷◌}
use dsh_passwords.Text.{codes, trim, trim_start, cut, has_text}
use dsh_passwords.Json.{Json, string, array, object, nil, cons, end, field}
use dsh_passwords.Gateway.Models.{
  allowed_model_set, filter_model_catalog_value, normalize_allowed_models, normalize_models_from,
  parse_allowed_model_spec,
}
use dsh_passwords.Gateway.Models.Groups.{IsCatalogIn}
use dsh_passwords.Gateway.Models.Catalog.{filter_model_catalog_value-IsCatalogIn}

abbrev model_named : List ℕ → Json
model_named id = object (field (codes "id") (string id) end)

abbrev group_named : List ℕ → Json
group_named id = object (
    field (codes "id") (string id)
      (field (codes "models") (array (cons (model_named (codes "m")) nil)) end))

abbrev catalog : Json
catalog = object (
    field (codes "groups")
      (array (cons (group_named (codes "p")) (cons (group_named (codes "q")) nil))) end)

normalized :
    normalize_allowed_models (codes " p/m " ∷ codes "x" ∷ codes "p/m" ∷ []) ≡ codes "p/m" ∷ []
unfolding normalize_allowed_models normalize_models_from parse_allowed_model_spec trim trim_start
    cut has_text
normalized = refl

filter_model_catalog_value-IsCatalogIn_example :
    IsCatalogIn
      (allowed_model_set (codes "p/m" ∷ []))
      (filter_model_catalog_value catalog (some (codes "p/m" ∷ [])))
filter_model_catalog_value-IsCatalogIn_example =
    filter_model_catalog_value-IsCatalogIn (codes "p/m" ∷ []) catalog
