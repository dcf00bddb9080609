-- ===== src/Gateway/Models/Groups.antt =====
-- The groups of the catalogue that `filterModelCatalogValue` of src/gateway.ts leaves.
use dsh_passwords.Prelude.{
  ℕ, ◌≡◌, refl, ap, ◌∙◌, true, false, ◌⊎◌, inl, inr, Option, none, some, List, if_cases, bytes_eq,
  bytes_eq_iff, Bool-cases,
}
use dsh_passwords.Text.{codes, has_text}
use dsh_passwords.Json.{
  Json, null, boolean, number, other_number, string, array, object, Items, nil, cons, Fields, end,
  field, get_field, text_of, items_of,
}
use dsh_passwords.Gateway.Models.{
  ModelSpec, pair_text, spec_text, pair_in, model_pair_allowed, model_selection_from, id_of,
  filter_models, set_field, cons_group, filter_group, filter_groups, groups_of, spec_json,
}

-- A model of a provider is in the table by its text `provider/model`.
abbrev pub IsModelIn : List (List ℕ) → List ℕ → Json → Type 0
IsModelIn allowed provider v =
    (id : List ℕ) × (text_of (id_of v) ≡ some id)
    × (has_text (pair_text provider id) allowed ≡ true)

unfoldable pub AllModelsIn : List (List ℕ) → List ℕ → Items → Type 0
AllModelsIn allowed provider nil = Unit
AllModelsIn allowed provider (cons x xs) =
    IsModelIn allowed provider x × AllModelsIn allowed provider xs

abbrev pub models_in : Json → Option Json
models_in (object row) = get_field (codes "models") row
models_in v = none

-- A group of models of one provider, each of them in the table.
abbrev pub IsGroupIn : List (List ℕ) → Json → Type 0
IsGroupIn allowed v =
    (provider : List ℕ) × (models : Items) × (text_of (id_of v) ≡ some provider)
    × (items_of (models_in v) ≡ some models)
    × AllModelsIn allowed provider models

unfoldable pub AllGroupsIn : List (List ℕ) → Items → Type 0
AllGroupsIn allowed nil = Unit
AllGroupsIn allowed (cons x xs) = IsGroupIn allowed x × AllGroupsIn allowed xs

-- A selection that is in the table, or none.
abbrev pub IsDefaultIn : List (List ℕ) → Json → Type 0
IsDefaultIn allowed v =
    (v ≡ null)
    ⊎ ((spec : ModelSpec) × (has_text (spec_text spec) allowed ≡ true)
        × ((v ≡ spec_json spec) ⊎ (model_selection_from (some v) ≡ some spec)))

abbrev pub IsCatalogIn : List (List ℕ) → Json → Type 0
IsCatalogIn allowed (object catalog) =
    ((groups : Items) × (get_field (codes "groups") catalog ≡ some (array groups))
      × AllGroupsIn allowed groups)
    × ((default : Json) × (get_field (codes "default") catalog ≡ some default)
        × IsDefaultIn allowed default)
IsCatalogIn allowed v = Unit

pub get-set_field :
    (name : List ℕ) (value : Json) (fs : Fields)
    → get_field name (set_field name value fs) ≡ some value
unfolding get_field
get-set_field name value end = rw ((bytes_eq_iff name name).1 refl)
get-set_field name value (field k v fs) = elim (Bool-cases (bytes_eq k name)) [
  | inl e ↦ simp e refl
  | inr e ↦ simp e (get-set_field name value fs)
]

pub get-set_field-other :
    (name key : List ℕ) (value : Json) (fs : Fields)
    → bytes_eq name key ≡ false
    → get_field key (set_field name value fs) ≡ get_field key fs
unfolding get_field
get-set_field-other name key value end other = rw other
get-set_field-other name key value (field k v fs) other = elim (Bool-cases (bytes_eq k name)) [
  | inl h ↦ simp (h, ap (λ n. bytes_eq n key) ((bytes_eq_iff k name).0 h) ∙ other) refl
  | inr h ↦ elim (Bool-cases (bytes_eq k key)) [
    | inl g ↦ simp (h, g) refl
    | inr g ↦ simp (h, g) (get-set_field-other name key value fs other)
  ]
]

pair_in-IsModelIn :
    (allowed : List (List ℕ)) (provider : List ℕ) (o : Option (List ℕ))
    → pair_in allowed (some provider) o ≡ true
    → (id : List ℕ) × (o ≡ some id) × (has_text (pair_text provider id) allowed ≡ true)
pair_in-IsModelIn allowed provider none h = cc
pair_in-IsModelIn allowed provider (some id) h = (id, refl, h)

filter_models-AllModelsIn :
    (allowed : List (List ℕ)) (provider : List ℕ) (xs : Items)
    → AllModelsIn allowed provider (filter_models allowed (some (string provider)) xs)
unfolding filter_models model_pair_allowed AllModelsIn
filter_models-AllModelsIn allowed provider nil = tt
filter_models-AllModelsIn allowed provider (cons x xs) =
    if_cases (AllModelsIn allowed provider) (pair_in allowed (some provider) (text_of (id_of x)))
      (λ e. (
        pair_in-IsModelIn allowed provider (text_of (id_of x)) e,
        filter_models-AllModelsIn allowed provider xs,
      ))
      (λ _. filter_models-AllModelsIn allowed provider xs)

cons_group-AllGroupsIn :
    (allowed : List (List ℕ)) (provider : List ℕ) (row : Fields) (models rest : Items)
    → text_of (get_field (codes "id") row) ≡ some provider
    → AllModelsIn allowed provider models
    → AllGroupsIn allowed rest
    → AllGroupsIn allowed (cons_group row models rest)
unfolding AllGroupsIn
cons_group-AllGroupsIn allowed provider row nil rest e h hs = hs
cons_group-AllGroupsIn allowed provider row (cons x xs) rest e h hs = (
  (
    provider,
    cons x xs,
    ap text_of (get-set_field-other (codes "models") (codes "id") (array (cons x xs)) row refl) ∙ e,
    ap items_of (get-set_field (codes "models") (array (cons x xs)) row),
    h,
  ),
  hs,
)

filter_group-AllGroupsIn :
    (allowed : List (List ℕ)) (row : Fields) (id : Option (List ℕ)) (models : Option Items)
    (rest : Items)
    → text_of (get_field (codes "id") row) ≡ id
    → AllGroupsIn allowed rest
    → AllGroupsIn allowed (filter_group allowed row id models rest)
filter_group-AllGroupsIn allowed row none models rest e h = h
filter_group-AllGroupsIn allowed row (some id) none rest e h = h
filter_group-AllGroupsIn allowed row (some id) (some models) rest e h =
    cons_group-AllGroupsIn allowed id row (filter_models allowed (some (string id)) models) rest e
      (filter_models-AllModelsIn allowed id models) h

filter_groups-AllGroupsIn :
    (allowed : List (List ℕ)) (xs : Items) → AllGroupsIn allowed (filter_groups allowed xs)
unfolding filter_groups AllGroupsIn
filter_groups-AllGroupsIn allowed nil = tt
filter_groups-AllGroupsIn allowed (cons (object row) xs) =
    filter_group-AllGroupsIn allowed row (text_of (get_field (codes "id") row))
      (items_of (get_field (codes "models") row)) (filter_groups allowed xs) refl
      (filter_groups-AllGroupsIn allowed xs)
filter_groups-AllGroupsIn allowed (cons null xs) = filter_groups-AllGroupsIn allowed xs
filter_groups-AllGroupsIn allowed (cons (boolean b) xs) = filter_groups-AllGroupsIn allowed xs
filter_groups-AllGroupsIn allowed (cons (number n) xs) = filter_groups-AllGroupsIn allowed xs
filter_groups-AllGroupsIn allowed (cons (other_number n) xs) = filter_groups-AllGroupsIn allowed xs
filter_groups-AllGroupsIn allowed (cons (string s) xs) = filter_groups-AllGroupsIn allowed xs
filter_groups-AllGroupsIn allowed (cons (array ys) xs) = filter_groups-AllGroupsIn allowed xs

pub groups_of-AllGroupsIn :
    (allowed : List (List ℕ)) (o : Option Items) → AllGroupsIn allowed (groups_of allowed o)
unfolding AllGroupsIn
groups_of-AllGroupsIn allowed none = tt
groups_of-AllGroupsIn allowed (some xs) = filter_groups-AllGroupsIn allowed xs
