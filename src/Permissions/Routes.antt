-- ===== src/Permissions/Routes.antt =====
-- The tests of methods and paths in src/permissions.ts. A regular expression over fixed words is a
-- test of a prefix and a list; `verb_route` is one that ends in `([./]|$)`.
pub mod Query
pub mod Tests
use dsh_passwords.Prelude.{
  ℕ, Bool, true, false, not, ◌&&◌, ◌||◌, Option, none, some, List, [], ◌∷◌, ◌==◌, if◌then◌else◌,
  bytes_eq, is_some,
}
use dsh_passwords.Text.{
  codes, is_empty, is_digit, has_text, has_code, starts_with, strip_prefix, lower, take_run,
  drop_run,
}

abbrev pub ends_word : List ℕ → Bool
ends_word [] = true
ends_word (c ∷ s) = c == b'.' || c == b'/'

abbrev pub word_behind : Option (List ℕ) → Bool
word_behind none = false
word_behind (some rest) = ends_word rest

abbrev pub starts_word : List (List ℕ) → List ℕ → Bool
starts_word [] s = false
starts_word (verb ∷ verbs) s = word_behind (strip_prefix verb s) || starts_word verbs s

abbrev pub verb_behind : List (List ℕ) → Option (List ℕ) → Bool
verb_behind verbs none = false
verb_behind verbs (some []) = false
verb_behind verbs (some (c ∷ s)) = (c == b'.' || c == b'/') && starts_word verbs s

-- `/^prefix[.\/](verb|...)([.\/]|$)/`.
unfoldable pub verb_route : List ℕ → List (List ℕ) → List ℕ → Bool
verb_route prefix verbs pathname = verb_behind verbs (strip_prefix prefix pathname)

pub is_upload_request : List ℕ → List ℕ → Bool
is_upload_request method pathname =
    (bytes_eq method (codes "POST") || bytes_eq method (codes "PUT"))
    && (bytes_eq pathname (codes "/api/session/uploadFileBinary")
        || bytes_eq pathname (codes "/api/fileUploads/upload"))

abbrev pub git_behind : Option (List ℕ) → Bool
git_behind none = false
git_behind (some []) = false
git_behind (some (c ∷ s)) = c == b'-' || c == b'.' || c == b'/'

abbrev pub export_behind : Option (List ℕ) → Bool
export_behind none = false
export_behind (some []) = false
export_behind (some (c ∷ s)) = (c == b'.' || c == b'/') && starts_with (codes "export") s

pub is_git_request : List ℕ → Bool
is_git_request pathname =
    git_behind (strip_prefix (codes "/api/git") (lower pathname))
    || export_behind (strip_prefix (codes "/api/session") pathname)

pub is_workspace_create : List ℕ → Bool
is_workspace_create pathname =
    verb_route (codes "/api/workspace") (codes "add" ∷ codes "create" ∷ []) pathname

pub is_workspace_directory_create : List ℕ → Bool
is_workspace_directory_create pathname =
    verb_route (codes "/api/host") (codes "createDirectory" ∷ []) pathname
    || verb_route (codes "/api/directoryPicker") (codes "createDirectory" ∷ []) pathname

pub is_workspace_delete_or_rename : List ℕ → Bool
is_workspace_delete_or_rename pathname =
    verb_route (codes "/api/workspace")
      (codes "remove" ∷ codes "delete" ∷ codes "rename" ∷ codes "update" ∷ []) pathname

pub is_workspace_order_write : List ℕ → Bool
is_workspace_order_write pathname =
    verb_route (codes "/api/workspace") (codes "insertBefore" ∷ codes "insertSessionBefore" ∷ [])
      pathname

pub is_workspace_write : List ℕ → Bool
is_workspace_write pathname =
    is_workspace_create pathname
    || is_workspace_delete_or_rename pathname
    || is_workspace_order_write pathname
    || verb_route (codes "/api/workspace")
        (codes "import"
          ∷ codes "move"
          ∷ codes "materialize"
          ∷ codes "adopt"
          ∷ codes "initializeDefault"
          ∷ [])
        pathname

pub is_directory_list_request : List ℕ → Bool
is_directory_list_request pathname =
    verb_route (codes "/api/directoryPicker") (codes "list" ∷ []) pathname
    || verb_route (codes "/api/host") (codes "listDirectory" ∷ []) pathname

-- `WORKSPACE_ENDPOINT_RE`.
pub is_workspace_endpoint : List ℕ → Bool
is_workspace_endpoint pathname = verb_route (codes "/api/session") (codes "create" ∷ []) pathname

abbrev pub session_verbs : List (List ℕ)
session_verbs =
    codes "history"
    ∷ codes "prompt"
    ∷ codes "respond"
    ∷ codes "archive"
    ∷ codes "delete"
    ∷ codes "rename"
    ∷ codes "retitle"
    ∷ codes "title"
    ∷ codes "resume"
    ∷ codes "fork"
    ∷ codes "truncate"
    ∷ codes "export"
    ∷ codes "attachment"
    ∷ codes "updateQueue"
    ∷ codes "cancel"
    ∷ codes "page"
    ∷ codes "projections"
    ∷ codes "selectModel"
    ∷ []

abbrev pub workspace_files_session_methods : List (List ℕ)
workspace_files_session_methods =
    codes "read"
    ∷ codes "readAll"
    ∷ codes "readBytes"
    ∷ codes "stat"
    ∷ codes "readRelated"
    ∷ codes "list"
    ∷ codes "changes"
    ∷ []

-- The namespaces and the verbs of `SESSION_SCOPED_RE`.
abbrev pub session_scoped : List (List ℕ × List (List ℕ))
session_scoped =
    (codes "/api/schedule", codes "list" ∷ codes "history" ∷ codes "update" ∷ codes "delete" ∷ [])
    ∷ (codes "/api/session", session_verbs)
    ∷ (
      codes "/api/workspace",
      codes "archiveSession"
          ∷ codes "pinSession"
          ∷ codes "unpinSession"
          ∷ codes "unarchiveSession"
          ∷ [],
    )
    ∷ (codes "/api/commands", codes "list" ∷ codes "execute" ∷ [])
    ∷ (codes "/api/subagents", codes "list" ∷ codes "prompt" ∷ codes "interruptByParent" ∷ [])
    ∷ (codes "/api/fileUploads", codes "upload" ∷ [])
    ∷ (codes "/api/fileReferences", codes "list" ∷ [])
    ∷ (codes "/api/sessionReferenceResolver", codes "candidates" ∷ [])
    ∷ (codes "/api/skills", codes "list" ∷ [])
    ∷ (codes "/api/messageFeedback", codes "list" ∷ codes "put" ∷ codes "delete" ∷ [])
    ∷ (codes "/api/sessionFeedback", codes "record" ∷ [])
    ∷ (
      codes "/api/goals",
      codes "clear"
          ∷ codes "complete"
          ∷ codes "create"
          ∷ codes "edit"
          ∷ codes "get"
          ∷ codes "pause"
          ∷ codes "resume"
          ∷ [],
    )
    ∷ (codes "/api/workspaceFiles", workspace_files_session_methods)
    ∷ (codes "/api/present", codes "open" ∷ [])
    ∷ (codes "/api/changes", codes "open" ∷ [])
    ∷ (codes "/api/userQuestions", codes "answer" ∷ [])
    ∷ (codes "/api/job", codes "kill" ∷ [])
    ∷ []

abbrev pub some_route : List (List ℕ × List (List ℕ)) → List ℕ → Bool
some_route [] pathname = false
some_route ((prefix, verbs) ∷ rest) pathname =
    verb_route prefix verbs pathname || some_route rest pathname

-- `SESSION_SCOPED_RE`.
pub is_session_scoped : List ℕ → Bool
is_session_scoped pathname = some_route session_scoped pathname

abbrev pub exact_verb : List ℕ → Bool
exact_verb pathname = bytes_eq pathname (codes "/prompt") || bytes_eq pathname (codes ".prompt")

abbrev pub prompt_behind : Option (List ℕ) → Bool
prompt_behind none = false
prompt_behind (some rest) = exact_verb rest

pub is_usage_anchor_request : List ℕ → Bool
is_usage_anchor_request pathname =
    prompt_behind (strip_prefix (codes "/api/session") pathname)
    || prompt_behind (strip_prefix (codes "/api/subagent") pathname)
    || prompt_behind (strip_prefix (codes "/api/agent") pathname)

-- `s.includes(word)`.
abbrev pub includes : List ℕ → List ℕ → Bool
includes word [] = starts_with word []
includes word (c ∷ s) = starts_with word (c ∷ s) || includes word s

pub is_static_asset : List ℕ → Bool
is_static_asset pathname =
    starts_with (codes "/assets/") pathname
    || (starts_with (codes "/plugins/") pathname && includes (codes "rev=") pathname)
    || bytes_eq pathname (codes "/favicon.ico")

-- `/^\/api\/[^/]*word[^/]*/`: the word stands in the first segment.
abbrev pub segment_includes : List ℕ → Option (List ℕ) → Bool
segment_includes word none = false
segment_includes word (some rest) = includes word (take_run (λ c. not (c == b'/')) rest)

pub is_polling_request : List ℕ → Bool
is_polling_request pathname =
    bytes_eq pathname (codes "/api/events.mux")
    || bytes_eq pathname (codes "/api/events.host")
    || bytes_eq pathname (codes "/plugins/events")
    || bytes_eq pathname (codes "/api/session.title")
    || segment_includes (codes "heartbeat") (strip_prefix (codes "/api/") pathname)
    || segment_includes (codes "poll") (strip_prefix (codes "/api/") pathname)

abbrev pub dangerous_extensions : List (List ℕ)
dangerous_extensions =
    codes "phtml"
    ∷ codes "phar"
    ∷ codes "jsp"
    ∷ codes "jspx"
    ∷ codes "asp"
    ∷ codes "aspx"
    ∷ codes "asa"
    ∷ codes "cer"
    ∷ codes "cfm"
    ∷ codes "shtml"
    ∷ codes "cgi"
    ∷ codes "hta"
    ∷ codes "svg"
    ∷ []

abbrev pub ends_part : List ℕ → Bool
ends_part [] = true
ends_part (c ∷ s) = c == b'.'

abbrev pub part_behind : Option (List ℕ) → Bool
part_behind none = false
part_behind (some rest) = ends_part rest

abbrev pub php_behind : Option (List ℕ) → Bool
php_behind none = false
php_behind (some rest) = ends_part (drop_run is_digit rest)

abbrev pub starts_extension : List (List ℕ) → List ℕ → Bool
starts_extension [] s = false
starts_extension (e ∷ es) s = part_behind (strip_prefix e s) || starts_extension es s

-- A dot, an extension, and a dot or the end.
abbrev pub has_extension : List ℕ → Bool
has_extension [] = false
has_extension (c ∷ s) =
    (c == b'.'
      && (php_behind (strip_prefix (codes "php") s) || starts_extension dangerous_extensions s))
    || has_extension s

pub is_dangerous_upload_name : List ℕ → Bool
is_dangerous_upload_name name =
    if is_empty name
    then false
    else if includes (codes "..") name
    then true
    else has_extension (lower name)
