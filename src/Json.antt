-- ===== src/Json.antt =====
-- What `JSON.parse` gives, and how the sources read it. Texts are lists of UTF-16 code units, the
-- fields of an object have distinct names in the order of `Object.keys`, and no object has a second
-- owner. A number is a natural number or one of the others, which the sources tell apart only by
-- refusing them.

use dsh_passwords.Prelude.{ℕ, Bool, true, false, Option, none, some, List, if◌then◌else◌, bytes_eq}
use dsh_passwords.Text.{codes, is_empty}

mutual
  pub data Json : Type 0 where
    null : Json
    boolean : Bool → Json
    number : ℕ → Json
    other_number : ℕ → Json
    string : List ℕ → Json
    array : Items → Json
    object : Fields → Json

  pub data Items : Type 0 where
    nil : Items
    cons : Json → Items → Items

  pub data Fields : Type 0 where
    end : Fields
    field : List ℕ → Json → Fields → Fields

-- `fields[key]` of an own field.
unfoldable pub get_field : List ℕ → Fields → Option Json
get_field key end = none
get_field key (field k v fs) = if bytes_eq k key then some v else get_field key fs

-- `value[key]` for a name that no array and no prototype has as a text or an object.
abbrev pub get : List ℕ → Json → Option Json
get key (object fs) = get_field key fs
get key _ = none

abbrev pub text_of : Option Json → Option (List ℕ)
text_of (some (string s)) = some s
text_of _ = none

abbrev pub some_full : Option (List ℕ) → Option (List ℕ)
some_full none = none
some_full (some s) = if is_empty s then none else some s

-- A field that is a text, and one that is a text and not empty.
abbrev pub text_field : List ℕ → Json → Option (List ℕ)
text_field key v = text_of (get key v)

abbrev pub full_field : List ℕ → Json → Option (List ℕ)
full_field key v = some_full (text_field key v)

-- `v !== null && typeof v === 'object'`, and the same but for arrays.
abbrev pub is_object : Json → Bool
is_object (array xs) = true
is_object (object fs) = true
is_object _ = false

abbrev pub record_of : Option Json → Option Fields
record_of (some (object fs)) = some fs
record_of _ = none

abbrev pub is_array : Json → Bool
is_array (array xs) = true
is_array _ = false

abbrev pub items_of : Option Json → Option Items
items_of (some (array xs)) = some xs
items_of _ = none

unfoldable pub is_proto : List ℕ → Bool
is_proto key = bytes_eq key (codes "__proto__")

-- `out[key] = value` on a new object: the name `__proto__` sets no own field.
abbrev pub set_new : List ℕ → Json → Fields → Fields
set_new key v fs = if is_proto key then fs else field key v fs

-- The texts of an array that pass a test.
unfoldable pub filter_texts : (List ℕ → Bool) → Items → Items
filter_texts keep nil = nil
filter_texts keep (cons (string s) xs) =
    let rest = filter_texts keep xs in if keep s then cons (string s) rest else rest
filter_texts keep (cons _ xs) = filter_texts keep xs
