-- ===== src/Store.antt =====
-- The tables of src/db.ts that hold what a sub-user may do: `user_permissions`,
-- `user_session_grants`, `user_workspaces` and `user_auto_granted_folders`, with the functions that
-- clean the lists in them. A column of JSON text is what `JSON.parse` gives of it. The times of
-- the rows are left out.

pub mod Permissions
pub mod Reading
pub mod Sanitize
pub mod Sets
pub mod Rows
pub mod Grants
pub mod Baseline
pub mod Workspaces
pub mod Tree
pub mod Intents
pub mod Usage
pub mod Tests
use dsh_passwords.Prelude.{
  ℕ, Bool, true, false, not, ◌&&◌, ◌||◌, Option, none, some, List, [], ◌∷◌, ◌==◌, leb, ltb, map,
  length, take, if◌then◌else◌, bytes_eq,
}
use dsh_passwords.Text.{codes, is_empty, starts_with, has_text, split, trim}
use dsh_passwords.Posix.{posix_normalize}
use dsh_passwords.Permissions.Folders.{to_slash, is_letter, is_drive_only}
use dsh_passwords.Json.{Json, string, array, Items, nil, cons}

-- A text column: NULL, a text that is no JSON, or its value.
pub data Column : Type 0 where
  absent unparsable : Column
  parsed : Json → Column

abbrev pub cons_text : List ℕ → Option (List (List ℕ)) → Option (List (List ℕ))
cons_text s none = none
cons_text s (some l) = some (s ∷ l)

-- The items, if each one is a text.
abbrev pub texts_of : Items → Option (List (List ℕ))
texts_of nil = some []
texts_of (cons (string s) rest) = cons_text s (texts_of rest)
texts_of (cons _ rest) = none

abbrev pub items_of : List (List ℕ) → Items
items_of [] = nil
items_of (s ∷ l) = cons (string s) (items_of l)

-- `JSON.stringify` of texts.
abbrev pub column_of : List (List ℕ) → Column
column_of l = parsed (array (items_of l))

unfoldable pub parse_json_array : Column → Option (List (List ℕ))
parse_json_array absent = some []
parse_json_array unparsable = none
parse_json_array (parsed (array items)) = texts_of items
parse_json_array (parsed _) = none

abbrev pub deny : List (List ℕ)
deny = codes "__deny__" ∷ []

abbrev pub clean_folder : List ℕ → List ℕ
clean_folder folder = map to_slash (trim folder)

-- `/^[A-Za-z]:\//`.
abbrev pub has_drive_slash : List ℕ → Bool
has_drive_slash (c ∷ d ∷ e ∷ s) = is_letter c && d == b':' && e == b'/'
has_drive_slash _ = false

-- `/(^|\/)\.\.?($|\/)/`: a segment is `.` or `..`.
abbrev pub has_dot_segment : List ℕ → Bool
has_dot_segment folder =
    let segments = split b'/' folder in
    has_text (codes ".") segments || has_text (codes "..") segments

unfoldable pub is_invalid_folder : List ℕ → Bool
is_invalid_folder folder =
    if is_empty folder || not (starts_with (codes "/") folder || has_drive_slash folder)
    then true
    else if has_dot_segment folder
    then true
    else let normalized = posix_normalize folder in
      bytes_eq normalized (codes ".") || bytes_eq normalized (codes "/") || is_drive_only normalized

abbrev pub some_invalid : List (List ℕ) → Bool
some_invalid [] = false
some_invalid (f ∷ fs) = is_invalid_folder f || some_invalid fs

-- `Map.set`: a key that is there keeps its place.
abbrev pub set_key : List ℕ → List ℕ → List (List ℕ × List ℕ) → List (List ℕ × List ℕ)
set_key k v [] = (k, v) ∷ []
set_key k v ((k', v') ∷ m) =
    let rest = set_key k v m in if bytes_eq k' k then (k, v) ∷ m else (k', v') ∷ rest

abbrev pub set_all : List (List ℕ × List ℕ) → List (List ℕ) → List (List ℕ × List ℕ)
set_all m [] = m
set_all m (f ∷ fs) = set_all (set_key (posix_normalize f) f m) fs

abbrev pub values : List (List ℕ × List ℕ) → List (List ℕ)
values [] = []
values ((k, v) ∷ m) = v ∷ values m

abbrev pub sanitize_cleaned : List (List ℕ) → List (List ℕ)
sanitize_cleaned cleaned = if some_invalid cleaned then deny else values (set_all [] cleaned)

unfoldable pub sanitize_allowed_folders : List (List ℕ) → List (List ℕ)
sanitize_allowed_folders [] = []
sanitize_allowed_folders (f ∷ fs) =
    if has_text (codes "__deny__") (f ∷ fs)
    then deny
    else sanitize_cleaned (map clean_folder (f ∷ fs))

abbrev pub sanitize_or_deny : Option (List (List ℕ)) → List (List ℕ)
sanitize_or_deny none = deny
sanitize_or_deny (some folders) = sanitize_allowed_folders folders

unfoldable pub parse_allowed_folders : Column → List (List ℕ)
parse_allowed_folders absent = []
parse_allowed_folders unparsable = deny
parse_allowed_folders (parsed (array items)) = sanitize_or_deny (texts_of items)
parse_allowed_folders (parsed _) = deny

-- `new Set`, in the order of the first occurrences.
abbrev pub remove_text : List ℕ → List (List ℕ) → List (List ℕ)
remove_text x [] = []
remove_text x (y ∷ ys) = let rest = remove_text x ys in if bytes_eq x y then rest else y ∷ rest

unfoldable pub distinct : List (List ℕ) → List (List ℕ)
distinct [] = []
distinct (x ∷ xs) = x ∷ remove_text x (distinct xs)

abbrev pub is_session_id : List ℕ → Bool
is_session_id id = not (is_empty id) && leb (length id) 200

abbrev pub session_ids : List (List ℕ) → List (List ℕ)
session_ids [] = []
session_ids (id ∷ ids) = let rest = session_ids ids in if is_session_id id then id ∷ rest else rest

unfoldable pub normalize_session_id_set : List (List ℕ) → List (List ℕ)
normalize_session_id_set ids = take 2000 (distinct (session_ids ids))

-- `sort` on texts, by code units.
abbrev pub text_leb : List ℕ → List ℕ → Bool
text_leb [] y = true
text_leb (a ∷ x) [] = false
text_leb (a ∷ x) (b ∷ y) = ltb a b || (a == b && text_leb x y)

abbrev pub insert_text : List ℕ → List (List ℕ) → List (List ℕ)
insert_text x [] = x ∷ []
insert_text x (y ∷ ys) =
    let rest = insert_text x ys in if text_leb x y then x ∷ y ∷ ys else y ∷ rest

unfoldable pub sort_texts : List (List ℕ) → List (List ℕ)
sort_texts [] = []
sort_texts (x ∷ xs) = insert_text x (sort_texts xs)

abbrev pub all_in : List (List ℕ) → List (List ℕ) → Bool
all_in [] a = true
all_in (y ∷ b) a = has_text y a && all_in b a

unfoldable pub same_string_set : List (List ℕ) → List (List ℕ) → Bool
same_string_set a b = if not (length a == length b) then false else all_in b a

-- The rows of the tables; a flag column is whether it is 1.
pub record PermissionRow : Type 0 where
  pub user_id : ℕ
  pub allowed_folders : Column
  pub hourly_token_limit : Option ℕ
  pub daily_minutes_limit : Option ℕ
  pub allow_upload : Bool
  pub allow_git_download : Bool
  pub allow_workspace_create : Bool
  pub allow_ssh : Bool
  pub allowed_agent_presets : Column
  pub allowed_models : Column
  pub allow_chat_media : Bool
  pub banned : Bool
  pub sandbox_mode : Option (List ℕ)
  pub disabled_sessions : Column
  pub session_grants_seeded : Bool

pub record Store : Type 0 where
  pub permissions : List PermissionRow
  pub grants : List (ℕ × List ℕ)
  pub workspaces : List (ℕ × List ℕ)
  pub auto_granted : List (ℕ × List ℕ)

-- Tables whose rows are a user and a text: the row is there, `INSERT OR IGNORE`, `DELETE` of one
-- row and of a user's rows, and the texts of a user.
abbrev pub is_pair : ℕ → List ℕ → ℕ × List ℕ → Bool
is_pair u s (v, t) = u == v && bytes_eq s t

unfoldable pub has_row : ℕ → List ℕ → List (ℕ × List ℕ) → Bool
has_row u s [] = false
has_row u s (r ∷ l) = is_pair u s r || has_row u s l

unfoldable pub insert_or_ignore : ℕ → List ℕ → List (ℕ × List ℕ) → List (ℕ × List ℕ)
insert_or_ignore u s l = if has_row u s l then l else (u, s) ∷ l

unfoldable pub delete_row : ℕ → List ℕ → List (ℕ × List ℕ) → List (ℕ × List ℕ)
delete_row u s [] = []
delete_row u s (r ∷ l) = let rest = delete_row u s l in if is_pair u s r then rest else r ∷ rest

unfoldable pub delete_user_rows : ℕ → List (ℕ × List ℕ) → List (ℕ × List ℕ)
delete_user_rows u [] = []
delete_user_rows u (r ∷ l) = let rest = delete_user_rows u l in if u == r.0 then rest else r ∷ rest

unfoldable pub texts_of_user : ℕ → List (ℕ × List ℕ) → List (List ℕ)
texts_of_user u [] = []
texts_of_user u (r ∷ l) = let rest = texts_of_user u l in if u == r.0 then r.1 ∷ rest else rest

unfoldable pub insert_all : ℕ → List (List ℕ) → List (ℕ × List ℕ) → List (ℕ × List ℕ)
insert_all u [] l = l
insert_all u (s ∷ ss) l = insert_all u ss (insert_or_ignore u s l)

unfoldable pub delete_each : ℕ → List (List ℕ) → List (ℕ × List ℕ) → List (ℕ × List ℕ)
delete_each u [] l = l
delete_each u (s ∷ ss) l = delete_each u ss (delete_row u s l)
