-- ===== src/Gateway/Models/Catalog.antt =====
-- `filterModelCatalogValue` of src/gateway.ts shows allowed models only.
use dsh_passwords.Prelude.{
  ℕ, ◌≡◌, refl, ◌∙◌, true, inl, inr, Option, none, some, List, [], if_cases, arith, is_some,
}
use dsh_passwords.Text.{codes, has_text}
use dsh_passwords.Json.{
  Json, null, boolean, number, other_number, string, array, object, Items, nil, cons, Fields,
  get_field, text_of, items_of,
}
use dsh_passwords.Permissions.Sandbox.{first_of}
use dsh_passwords.Gateway.Models.{
  ModelSpec, spec_text, model_selection_from, id_of, set_field, groups_of, allowed_spec,
  first_of_models, first_of_group, first_allowed_catalog_model, converged, json_or_null,
  value_or_null, filtered_catalog, filter_model_catalog_value, allowed_model_set, parse_pair,
  failures_of, providers_of, routable_from,
}
use dsh_passwords.Gateway.Models.Groups.{
  IsDefaultIn, IsCatalogIn, get-set_field, get-set_field-other, groups_of-AllGroupsIn,
}

-- A specification that is in the table, where there is one.
abbrev IsSpecIn : List (List ℕ) → Option ModelSpec → Type 0
IsSpecIn allowed none = Unit
IsSpecIn allowed (some spec) = has_text (spec_text spec) allowed ≡ true

allowed_spec-IsSpecIn :
    (allowed : List (List ℕ)) (o : Option ModelSpec) → IsSpecIn allowed (allowed_spec allowed o)
allowed_spec-IsSpecIn allowed none = tt
allowed_spec-IsSpecIn allowed (some spec) =
    if_cases (IsSpecIn allowed) (has_text (spec_text spec) allowed) (λ e. e) (λ _. tt)

first_of-IsSpecIn :
    (allowed : List (List ℕ)) (a b : Option ModelSpec)
    → IsSpecIn allowed a
    → IsSpecIn allowed b
    → IsSpecIn allowed (first_of a b)
first_of-IsSpecIn allowed none b h k = k
first_of-IsSpecIn allowed (some a) b h k = h

first_of_models-IsSpecIn :
    (allowed : List (List ℕ)) (id : List ℕ) (xs : Items)
    → IsSpecIn allowed (first_of_models allowed id xs)
unfolding first_of_models
first_of_models-IsSpecIn allowed id nil = tt
first_of_models-IsSpecIn allowed id (cons x xs) =
    first_of-IsSpecIn allowed (allowed_spec allowed (parse_pair (some id) (text_of (id_of x))))
      (first_of_models allowed id xs)
      (allowed_spec-IsSpecIn allowed (parse_pair (some id) (text_of (id_of x))))
      (first_of_models-IsSpecIn allowed id xs)

first_of_group-IsSpecIn :
    (allowed : List (List ℕ)) (id : Option (List ℕ)) (models : Option Items)
    → IsSpecIn allowed (first_of_group allowed id models)
first_of_group-IsSpecIn allowed none models = tt
first_of_group-IsSpecIn allowed (some id) none = tt
first_of_group-IsSpecIn allowed (some id) (some models) = first_of_models-IsSpecIn allowed id models

first_allowed-IsSpecIn :
    (xs : Items) (allowed : List (List ℕ))
    → IsSpecIn allowed (first_allowed_catalog_model xs allowed)
unfolding first_allowed_catalog_model
first_allowed-IsSpecIn nil allowed = tt
first_allowed-IsSpecIn (cons (object group) xs) allowed =
    first_of-IsSpecIn allowed
      (first_of_group allowed (text_of (get_field (codes "id") group))
        (items_of (get_field (codes "models") group)))
      (first_allowed_catalog_model xs allowed)
      (first_of_group-IsSpecIn allowed (text_of (get_field (codes "id") group))
        (items_of (get_field (codes "models") group)))
      (first_allowed-IsSpecIn xs allowed)
first_allowed-IsSpecIn (cons null xs) allowed = first_allowed-IsSpecIn xs allowed
first_allowed-IsSpecIn (cons (boolean b) xs) allowed = first_allowed-IsSpecIn xs allowed
first_allowed-IsSpecIn (cons (number n) xs) allowed = first_allowed-IsSpecIn xs allowed
first_allowed-IsSpecIn (cons (other_number n) xs) allowed = first_allowed-IsSpecIn xs allowed
first_allowed-IsSpecIn (cons (string s) xs) allowed = first_allowed-IsSpecIn xs allowed
first_allowed-IsSpecIn (cons (array ys) xs) allowed = first_allowed-IsSpecIn xs allowed

json_or_null-IsDefaultIn :
    (allowed : List (List ℕ)) (o : Option ModelSpec)
    → IsSpecIn allowed o
    → IsDefaultIn allowed (json_or_null o)
json_or_null-IsDefaultIn allowed none h = inl refl
json_or_null-IsDefaultIn allowed (some spec) h = inr (spec, h, inl refl)

allowed_spec-some :
    (allowed : List (List ℕ)) (o : Option ModelSpec)
    → is_some (allowed_spec allowed o) ≡ true
    → (spec : ModelSpec) × (o ≡ some spec) × (has_text (spec_text spec) allowed ≡ true)
allowed_spec-some allowed none h = cc
allowed_spec-some allowed (some spec) h = (spec, refl, ground arith)

value_or_null-IsDefaultIn :
    (allowed : List (List ℕ)) (default : Option Json)
    → is_some (allowed_spec allowed (model_selection_from default)) ≡ true
    → IsDefaultIn allowed (value_or_null default)
value_or_null-IsDefaultIn allowed none h = inl refl
value_or_null-IsDefaultIn allowed (some v) h =
    let (spec, e, k) = allowed_spec-some allowed (model_selection_from (some v)) h in
    inr (spec, k, inr e)

converged-IsDefaultIn :
    (allowed : List (List ℕ)) (groups : Items) (default : Option Json)
    → IsDefaultIn allowed (converged allowed groups default)
converged-IsDefaultIn allowed groups default =
    if_cases (IsDefaultIn allowed) (is_some (allowed_spec allowed (model_selection_from default)))
      (λ e. value_or_null-IsDefaultIn allowed default e)
      (λ _.
        json_or_null-IsDefaultIn allowed (first_allowed_catalog_model groups allowed)
          (first_allowed-IsSpecIn groups allowed))

get-groups :
    (allowed : List (List ℕ)) (groups : Items) (catalog : Fields)
    → get_field (codes "groups") (filtered_catalog allowed groups catalog) ≡ some (array groups)
get-groups allowed groups catalog =
    let default = converged allowed groups (get_field (codes "default") catalog) in
    let failures = items_of (get_field (codes "failures") catalog) in
    let providers = items_of (get_field (codes "routableProviders") catalog) in
    let routable = routable_from groups [] in
    let rest =
      set_field (codes "routableProviders") (array (providers_of routable providers))
        (set_field (codes "default") default catalog) in
    get-set_field-other (codes "failures") (codes "groups") (array (failures_of routable failures))
      (set_field (codes "groups") (array groups) rest) refl
    ∙ get-set_field (codes "groups") (array groups) rest

get-default :
    (allowed : List (List ℕ)) (groups : Items) (catalog : Fields)
    → get_field (codes "default") (filtered_catalog allowed groups catalog)
      ≡ some (converged allowed groups (get_field (codes "default") catalog))
get-default allowed groups catalog =
    get-set_field-other (codes "failures") (codes "default") _ _ refl
    ∙ get-set_field-other (codes "groups") (codes "default") _ _ refl
    ∙ get-set_field-other (codes "routableProviders") (codes "default") _ _ refl
    ∙ get-set_field (codes "default") _ catalog

-- In the catalogue that a restricted user gets, each group names a provider and has models only that
-- are in the user's table with it, and the default is `null` or a selection that is in the table.
pub filter_model_catalog_value-IsCatalogIn :
    (allowed : List (List ℕ)) (value : Json)
    → IsCatalogIn (allowed_model_set allowed) (filter_model_catalog_value value (some allowed))
unfolding filter_model_catalog_value
filter_model_catalog_value-IsCatalogIn allowed (object catalog) =
    let table = allowed_model_set allowed in
    let groups = groups_of table (items_of (get_field (codes "groups") catalog)) in
    (
      (
        groups,
        get-groups table groups catalog,
        groups_of-AllGroupsIn table (items_of (get_field (codes "groups") catalog)),
      ),
      (
        converged table groups (get_field (codes "default") catalog),
        get-default table groups catalog,
        converged-IsDefaultIn table groups (get_field (codes "default") catalog),
      ),
    )
filter_model_catalog_value-IsCatalogIn allowed null = tt
filter_model_catalog_value-IsCatalogIn allowed (boolean b) = tt
filter_model_catalog_value-IsCatalogIn allowed (number n) = tt
filter_model_catalog_value-IsCatalogIn allowed (other_number n) = tt
filter_model_catalog_value-IsCatalogIn allowed (string s) = tt
filter_model_catalog_value-IsCatalogIn allowed (array xs) = tt
