-- ===== src/Gateway/Models.antt =====
-- The models that a user may see, in src/gateway.ts: the table of allowed models and the filter of
-- the official catalogue. A table of a user is a list of texts, and `none` is no restriction.
pub mod Groups
pub mod Catalog
pub mod Tests
use dsh_passwords.Prelude.{
  ℕ, ◌+◌, Bool, true, false, not, ◌&&◌, ◌||◌, Option, none, some, List, [], ◌∷◌, ◌++◌, leb, length,
  if◌then◌else◌, bytes_eq, is_some,
}
use dsh_passwords.Text.{codes, is_empty, is_space, has_text, trim, cut}
use dsh_passwords.Json.{
  Json, null, boolean, number, other_number, string, array, object, Items, nil, cons, Fields, end,
  field, get_field, text_of, some_full, items_of, record_of, filter_texts,
}
use dsh_passwords.Permissions.Sandbox.{find_string_field, first_of}
use dsh_passwords.Permissions.Extract.{client_connection_args, record_field}

-- `args.request` of an envelope.
abbrev pub request_of : Option Fields → Option Fields
request_of args = record_of (record_field (codes "request") args)

pub rpc_request_payload : Json → Option Fields
rpc_request_payload value = request_of (client_connection_args value)

pub agent_preset_from_request : Json → Option (List ℕ)
agent_preset_from_request value =
    first_of (some_full (text_of (record_field (codes "agentPreset") (rpc_request_payload value))))
      (find_string_field (codes "agentPreset") 0 value)

pub record ModelSpec : Type 0 where
  provider : List ℕ
  model : List ℕ

-- One to `n` code units, none of them white space.
abbrev pub no_space : List ℕ → Bool
no_space [] = true
no_space (c ∷ s) = not (is_space c) && no_space s

abbrev pub is_part : ℕ → List ℕ → Bool
is_part n s = not (is_empty s) && leb (length s) n && no_space s

abbrev pub spec_of : Option (List ℕ × List ℕ) → Option ModelSpec
spec_of none = none
spec_of (some (provider, model)) =
    if is_part 100 provider && is_part 200 model
    then some (record { provider = provider; model = model })
    else none

-- The first slash parts the provider from the model.
pub parse_allowed_model_spec : List ℕ → Option ModelSpec
parse_allowed_model_spec value =
    let trimmed = trim value in
    if not (is_empty trimmed) && leb (length trimmed) 300 then spec_of (cut b'/' trimmed) else none

abbrev pub pair_text : List ℕ → List ℕ → List ℕ
pair_text provider model = provider ++ b'/' ∷ model

abbrev pub spec_text : ModelSpec → List ℕ
spec_text spec = pair_text (spec.provider) (spec.model)

abbrev pub push_new : Option ModelSpec → List (List ℕ) → List (List ℕ)
push_new none out = out
push_new (some spec) out = if has_text (spec_text spec) out then out else out ++ spec_text spec ∷ []

pub normalize_models_from : List (List ℕ) → List (List ℕ) → List (List ℕ)
normalize_models_from [] out = out
normalize_models_from (entry ∷ rest) out =
    if leb 512 (length out)
    then out
    else normalize_models_from rest (push_new (parse_allowed_model_spec entry) out)

-- No entry is looked at behind the one with which the list is full.
pub normalize_allowed_models : List (List ℕ) → List (List ℕ)
normalize_allowed_models value = normalize_models_from value []

pub allowed_model_set : List (List ℕ) → List (List ℕ)
allowed_model_set [] = []
allowed_model_set (entry ∷ rest) = elim (parse_allowed_model_spec entry) [
  | none ↦ allowed_model_set rest
  | some spec ↦ spec_text spec ∷ allowed_model_set rest
]

abbrev pub pair_in : List (List ℕ) → Option (List ℕ) → Option (List ℕ) → Bool
pair_in allowed (some provider) (some model) = has_text (pair_text provider model) allowed
pair_in allowed _ _ = false

-- `modelPairAllowed` of a restricted user.
pub model_pair_allowed : List (List ℕ) → Option Json → Option Json → Bool
model_pair_allowed allowed provider model = pair_in allowed (text_of provider) (text_of model)

abbrev pub parse_pair : Option (List ℕ) → Option (List ℕ) → Option ModelSpec
parse_pair (some provider) (some model) = parse_allowed_model_spec (pair_text provider model)
parse_pair _ _ = none

abbrev pub selection_of : Option Fields → Option ModelSpec
selection_of none = none
selection_of (some row) =
    parse_pair (text_of (get_field (codes "provider") row))
      (text_of (get_field (codes "model") row))

pub model_selection_from : Option Json → Option ModelSpec
model_selection_from value = selection_of (record_of value)

abbrev pub id_of : Json → Option Json
id_of (object row) = get_field (codes "id") row
id_of v = none

pub filter_models : List (List ℕ) → Option Json → Items → Items
filter_models allowed provider nil = nil
filter_models allowed provider (cons x xs) =
    let rest = filter_models allowed provider xs in
    if model_pair_allowed allowed provider (id_of x) then cons x rest else rest

-- `{ ...row, name: value }`.
abbrev pub set_field : List ℕ → Json → Fields → Fields
set_field name value end = field name value end
set_field name value (field k v fs) =
    let rest = set_field name value fs in
    if bytes_eq k name then field k value fs else field k v rest

abbrev pub cons_group : Fields → Items → Items → Items
cons_group row nil rest = rest
cons_group row models rest = cons (object (set_field (codes "models") (array models) row)) rest

abbrev pub filter_group : List (List ℕ) → Fields → Option (List ℕ) → Option Items → Items → Items
filter_group allowed row (some id) (some models) rest =
    cons_group row (filter_models allowed (some (string id)) models) rest
filter_group allowed row _ _ rest = rest

pub filter_groups : List (List ℕ) → Items → Items
filter_groups allowed nil = nil
filter_groups allowed (cons (object row) xs) =
    filter_group allowed row (text_of (get_field (codes "id") row))
      (items_of (get_field (codes "models") row)) (filter_groups allowed xs)
filter_groups allowed (cons _ xs) = filter_groups allowed xs

abbrev pub groups_of : List (List ℕ) → Option Items → Items
groups_of allowed none = nil
groups_of allowed (some xs) = filter_groups allowed xs

abbrev pub add_id : Option (List ℕ) → List (List ℕ) → List (List ℕ)
add_id none ids = ids
add_id (some id) ids = if has_text id ids then ids else ids ++ id ∷ []

abbrev pub routable_from : Items → List (List ℕ) → List (List ℕ)
routable_from nil ids = ids
routable_from (cons x xs) ids = routable_from xs (add_id (text_of (id_of x)) ids)

abbrev pub is_routable : List (List ℕ) → Option (List ℕ) → Bool
is_routable routable none = false
is_routable routable (some id) = has_text id routable

abbrev pub filter_failures : List (List ℕ) → Items → Items
filter_failures routable nil = nil
filter_failures routable (cons x xs) =
    let rest = filter_failures routable xs in
    if is_routable routable (text_of (id_of x)) then cons x rest else rest

abbrev pub failures_of : List (List ℕ) → Option Items → Items
failures_of routable none = nil
failures_of routable (some xs) = filter_failures routable xs

abbrev pub spec_json : ModelSpec → Json
spec_json spec = object (
    field (codes "provider") (string (spec.provider))
      (field (codes "model") (string (spec.model)) end))

abbrev pub allowed_spec : List (List ℕ) → Option ModelSpec → Option ModelSpec
allowed_spec allowed none = none
allowed_spec allowed (some spec) = if has_text (spec_text spec) allowed then some spec else none

pub first_of_models : List (List ℕ) → List ℕ → Items → Option ModelSpec
first_of_models allowed id nil = none
first_of_models allowed id (cons x xs) =
    first_of (allowed_spec allowed (parse_pair (some id) (text_of (id_of x))))
      (first_of_models allowed id xs)

abbrev pub first_of_group : List (List ℕ) → Option (List ℕ) → Option Items → Option ModelSpec
first_of_group allowed (some id) (some models) = first_of_models allowed id models
first_of_group allowed _ _ = none

pub first_allowed_catalog_model : Items → List (List ℕ) → Option ModelSpec
first_allowed_catalog_model nil allowed = none
first_allowed_catalog_model (cons (object group) xs) allowed =
    first_of
      (first_of_group allowed (text_of (get_field (codes "id") group))
        (items_of (get_field (codes "models") group)))
      (first_allowed_catalog_model xs allowed)
first_allowed_catalog_model (cons _ xs) allowed = first_allowed_catalog_model xs allowed

abbrev pub json_or_null : Option ModelSpec → Json
json_or_null none = null
json_or_null (some spec) = spec_json spec

abbrev pub value_or_null : Option Json → Json
value_or_null none = null
value_or_null (some v) = v

-- The default of the catalogue where it is allowed, and the first allowed model of the groups else.
abbrev pub converged : List (List ℕ) → Items → Option Json → Json
converged allowed groups default =
    if is_some (allowed_spec allowed (model_selection_from default))
    then value_or_null default
    else json_or_null (first_allowed_catalog_model groups allowed)

abbrev pub text_items : List (List ℕ) → Items
text_items [] = nil
text_items (s ∷ ss) = cons (string s) (text_items ss)

abbrev pub providers_of : List (List ℕ) → Option Items → Items
providers_of routable none = text_items routable
providers_of routable (some xs) = filter_texts (λ id. has_text id routable) xs

abbrev pub filtered_catalog : List (List ℕ) → Items → Fields → Fields
filtered_catalog allowed groups catalog =
    let routable = routable_from groups [] in
    set_field (codes "failures")
      (array (failures_of routable (items_of (get_field (codes "failures") catalog))))
      (set_field (codes "groups") (array groups) (
        set_field (codes "routableProviders")
          (array (providers_of routable (items_of (get_field (codes "routableProviders") catalog))))
          (set_field (codes "default")
            (converged allowed groups (get_field (codes "default") catalog)) catalog)))

pub filter_model_catalog_value : Json → Option (List (List ℕ)) → Json
filter_model_catalog_value value none = value
filter_model_catalog_value (object catalog) (some allowed) = object (
    filtered_catalog (allowed_model_set allowed)
      (groups_of (allowed_model_set allowed) (items_of (get_field (codes "groups") catalog)))
      catalog)
filter_model_catalog_value value (some allowed) = value
