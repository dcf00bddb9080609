-- ===== src/Permissions/Routes/Query.antt =====
-- The official routes of src/permissions.ts whose target stands in the query, and the calls of
-- `workspaceFiles`, whose target stands in the envelope's `args`.
pub mod Tests
use dsh_passwords.Prelude.{
  ℕ, ◌+◌, ◌*◌, ◌-◌, Bool, true, false, not, ◌&&◌, ◌||◌, Option, none, some, List, [], ◌∷◌, ◌==◌,
  ltb, leb, length, if◌then◌else◌, bytes_eq, is_some,
}
use dsh_passwords.Text.{codes, is_empty, is_digit, is_run, has_text, has_code}
use dsh_passwords.Json.{
  Json, null, boolean, number, other_number, string, array, object, Items, Fields, end, field,
  get_field, text_of, some_full,
}
use dsh_passwords.Permissions.Folders.{
  normalize_path, is_absolute_like_path, resolve_related_read_path,
}
use dsh_passwords.Permissions.Extract.{client_connection_args}
use dsh_passwords.Permissions.Classify.{ApiEndpoint, api_endpoint_of}
use dsh_passwords.Permissions.Routes.{workspace_files_session_methods}

pub is_official_file_read_request : List ℕ → List ℕ → Bool
is_official_file_read_request method pathname =
    (bytes_eq method (codes "GET") || bytes_eq method (codes "HEAD"))
    && bytes_eq pathname (codes "/api/file")

-- A query is a `URLSearchParams`, whose first value of a name counts, or any other value.
pub data Query : Type 0 where
  params : List (List ℕ × List ℕ) → Query
  plain : Json → Query

abbrev pub first_value : List ℕ → List (List ℕ × List ℕ) → Option (List ℕ)
first_value name [] = none
first_value name ((k, v) ∷ rest) =
    let found = first_value name rest in if bytes_eq k name then some v else found

abbrev pub query_param : List ℕ → Query → Option (List ℕ)
query_param name (params ps) = some_full (first_value name ps)
query_param name (plain (object fs)) = some_full (text_of (get_field name fs))
query_param name (plain _) = none

abbrev pub decimal : ℕ → List ℕ → ℕ
decimal acc [] = acc
decimal acc (c ∷ s) = decimal (acc * 10 + (c - b'0')) s

abbrev pub max_safe_integer : ℕ
max_safe_integer = 9007199254740991

abbrev pub integer_of : Option (List ℕ) → Option ℕ
integer_of none = none
integer_of (some raw) =
    if is_run is_digit raw && leb (decimal 0 raw) max_safe_integer
    then some (decimal 0 raw)
    else none

pub query_integer : List ℕ → Query → Option ℕ
query_integer name query = integer_of (query_param name query)

abbrev pub file_target : Bool → Option (List ℕ) → Option (List ℕ)
file_target windows none = none
file_target windows (some raw) =
    if has_code 0 raw
    then none
    else if is_absolute_like_path windows (normalize_path raw)
    then some (normalize_path raw)
    else none

pub file_read_target_from_query : Bool → Query → Option (List ℕ)
file_read_target_from_query windows query = file_target windows (query_param (codes "path") query)

pub is_official_session_query_route : List ℕ → Bool
is_official_session_query_route pathname = has_text pathname (
    codes "/api/changes.summary"
    ∷ codes "/api/changes.diff"
    ∷ codes "/api/changes.open"
    ∷ codes "/api/present.open"
    ∷ [])

pub record SessionQueryTarget : Type 0 where
  session_id : List ℕ
  seq : Option ℕ
  index : Option ℕ

abbrev pub target_with : Query → Option (List ℕ) → Option SessionQueryTarget
target_with query none = none
target_with query (some id) =
    if ltb 200 (length id)
    then none
    else some (record {
      session_id = id;
      seq = query_integer (codes "seq") query;
      index = query_integer (codes "index") query;
    })

pub session_query_target : Query → Option SessionQueryTarget
session_query_target query = target_with query (query_param (codes "sessionId") query)

abbrev pub method_in : Option (List ℕ) → Option (List ℕ)
method_in none = none
method_in (some m) = if has_text m workspace_files_session_methods then some m else none

abbrev pub files_method : Option ApiEndpoint → Option (List ℕ)
files_method none = none
files_method (some e) =
    if bytes_eq (e.namespace) (codes "workspaceFiles") then method_in (e.method) else none

pub workspace_files_method_of : List ℕ → Option (List ℕ)
workspace_files_method_of pathname = files_method (api_endpoint_of pathname)

pub is_workspace_files_session_scoped_request : List ℕ → Bool
is_workspace_files_session_scoped_request pathname = is_some (workspace_files_method_of pathname)

pub record WorkspaceFilesCall : Type 0 where
  method : List ℕ
  scope_id : List ℕ
  target_path : Option (List ℕ)
  absolute : Bool

-- A value of `range`: the numbers that `other_number` stands for are no safe integers from 0 on.
abbrev pub is_range_value : Json → Bool
is_range_value (number n) = leb n max_safe_integer
is_range_value v = false

abbrev pub range_allowed : Fields → Bool
range_allowed end = true
range_allowed (field k v fs) =
    (bytes_eq k (codes "offset") || bytes_eq k (codes "length"))
    && is_range_value v
    && range_allowed fs

abbrev pub known_keys : Fields → Bool
known_keys end = true
known_keys (field k v fs) =
    (bytes_eq k (codes "range") || bytes_eq k (codes "baseFile")) && known_keys fs

abbrev pub range_of_allowed : Option Json → Bool
range_of_allowed none = true
range_of_allowed (some (object range)) = range_allowed range
range_of_allowed (some v) = false

pub read_bytes_options_allowed : Option Json → Bool
read_bytes_options_allowed none = true
read_bytes_options_allowed (some (object options)) =
    known_keys options
    && not (is_some (get_field (codes "baseFile") options))
    && range_of_allowed (get_field (codes "range") options)
read_bytes_options_allowed (some v) = false

abbrev pub call_to : Bool → List ℕ → List ℕ → Option (List ℕ) → Option WorkspaceFilesCall
call_to windows method scope none = none
call_to windows method scope (some target) = some (record {
  method = method;
  scope_id = scope;
  target_path = some target;
  absolute = is_absolute_like_path windows target;
})

abbrev pub related_call :
    Bool → List ℕ → List ℕ → List ℕ → Option (List ℕ) → Option WorkspaceFilesCall
related_call windows method scope raw none = none
related_call windows method scope raw (some relative) =
    if has_code 0 relative
    then none
    else call_to windows method scope (resolve_related_read_path raw relative)

abbrev pub path_call : Bool → List ℕ → List ℕ → Fields → Option (List ℕ) → Option WorkspaceFilesCall
path_call windows method scope args none = none
path_call windows method scope args (some raw) =
    if has_code 0 raw
    then none
    else if bytes_eq method (codes "readRelated")
    then related_call windows method scope raw (text_of (get_field (codes "relativePath") args))
    else call_to windows method scope (some (normalize_path raw))

abbrev pub scoped_call : Bool → List ℕ → Fields → Option (List ℕ) → Option WorkspaceFilesCall
scoped_call windows method args none = none
scoped_call windows method args (some scope) =
    if ltb 200 (length scope)
    then none
    else if bytes_eq method (codes "changes")
    then some (record { method = method; scope_id = scope; target_path = none; absolute = false })
    else if bytes_eq method (codes "readBytes")
        && not (read_bytes_options_allowed (get_field (codes "options") args))
    then none
    else path_call windows method scope args (some_full (text_of (get_field (codes "path") args)))

abbrev pub call_with : Bool → Option (List ℕ) → Option Fields → Option WorkspaceFilesCall
call_with windows none args = none
call_with windows (some method) none = none
call_with windows (some method) (some args) =
    scoped_call windows method args
      (some_full (text_of (get_field (codes "workspaceFileScopeId") args)))

pub parse_workspace_files_call : Bool → List ℕ → Json → Option WorkspaceFilesCall
parse_workspace_files_call windows pathname body =
    call_with windows (workspace_files_method_of pathname) (client_connection_args body)
