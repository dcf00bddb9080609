-- ===== src/Permissions/Classify.antt =====
-- The classification of a sub-user's path in src/permissions.ts: `classifySubuserPath` and the
-- tests it is made of. A regular expression over fixed words is a test of membership in their list.
pub mod Order
pub mod Tests
use dsh_passwords.Prelude.{
  ℕ, zero, suc, ◌+◌, ◌-◌, Bool, true, false, not, ◌&&◌, ◌||◌, Option, none, some, List, [], ◌∷◌,
  ◌++◌, ◌==◌, ltb, leb, if◌then◌else◌, length, take, drop, bytes_eq, map,
}
use mathlib.Core.List.{reverse}
use dsh_passwords.Text.{
  codes, split, is_empty, has_text, is_digit, is_run, starts_with, ends_with, lower, strip_prefix,
}
use dsh_passwords.Permissions.Endpoint.{Transport, Capability, ssh, owner_only, endpoint_allowed}

abbrev pub official_api_namespaces : List (List ℕ)
official_api_namespaces =
    codes "agentPresets"
    ∷ codes "commands"
    ∷ codes "credentials"
    ∷ codes "directoryPicker"
    ∷ codes "dynamicCordisRunner"
    ∷ codes "fileReferences"
    ∷ codes "fileUploads"
    ∷ codes "goals"
    ∷ codes "llm"
    ∷ codes "job"
    ∷ codes "account"
    ∷ codes "messageFeedback"
    ∷ codes "permissionPresets"
    ∷ codes "pluginInventory"
    ∷ codes "schedule"
    ∷ codes "session"
    ∷ codes "sessionFeedback"
    ∷ codes "sessionReferenceResolver"
    ∷ codes "settings"
    ∷ codes "skills"
    ∷ codes "subagents"
    ∷ codes "workspace"
    ∷ codes "userQuestions"
    ∷ codes "workspaceFiles"
    ∷ codes "$events"
    ∷ codes "remote.mux"
    ∷ []

pub record Namespace : Type 0 where
  pub segment : List ℕ
  pub head : List ℕ

-- `list[0] ?? ''`.
abbrev pub first_text : List (List ℕ) → List ℕ
first_text [] = []
first_text (s ∷ l) = s

abbrev pub namespace_of_rest : List ℕ → Namespace
namespace_of_rest rest =
    let part = first_text (split b'/' rest) in
    record { segment = part; head = first_text (split b'.' part) }

pub api_namespace_of : List ℕ → Option Namespace
api_namespace_of pathname = elim (strip_prefix (codes "/api/") pathname) [
  | none ↦ none
  | some rest ↦ some (namespace_of_rest rest)
]

pub record ApiEndpoint : Type 0 where
  pub namespace : List ℕ
  pub method : Option (List ℕ)

abbrev pub dot_method : Namespace → List ℕ
dot_method n =
    if ltb (length n.head + 1) (length n.segment) then drop (length n.head + 1) n.segment else []

abbrev pub slash_method : List (List ℕ) → List ℕ
slash_method (first ∷ second ∷ l) = second
slash_method _ = []

abbrev pub some_text : List ℕ → Option (List ℕ)
some_text s = if is_empty s then none else some s

abbrev pub method_of : List ℕ → Namespace → Option (List ℕ)
method_of rest n =
    if not (is_empty (dot_method n))
    then some (dot_method n)
    else some_text (slash_method (split b'/' rest))

unfoldable pub api_endpoint_of : List ℕ → Option ApiEndpoint
api_endpoint_of pathname = elim (strip_prefix (codes "/api/") pathname) [
  | none ↦ none
  | some rest ↦ some record {
    namespace = (namespace_of_rest rest).head;
    method = method_of rest (namespace_of_rest rest);
  }
]

abbrev pub official_api_routes : List (List ℕ)
official_api_routes =
    codes "/api/file"
    ∷ codes "/api/changes.summary"
    ∷ codes "/api/changes.diff"
    ∷ codes "/api/changes.open"
    ∷ codes "/api/present.host"
    ∷ codes "/api/present.open"
    ∷ []

abbrev pub legacy_git_verbs : List (List ℕ)
legacy_git_verbs =
    codes "clone"
    ∷ codes "pull"
    ∷ codes "fetch"
    ∷ codes "status"
    ∷ codes "diff"
    ∷ codes "log"
    ∷ codes "show"
    ∷ codes "branch"
    ∷ codes "checkout"
    ∷ codes "lsFiles"
    ∷ codes "ls-files"
    ∷ codes "revParse"
    ∷ codes "rev-parse"
    ∷ codes "remote"
    ∷ codes "tag"
    ∷ codes "tags"
    ∷ codes "blame"
    ∷ []

abbrev pub legacy_host_verbs : List (List ℕ)
legacy_host_verbs = codes "createDirectory" ∷ codes "listDirectory" ∷ []

-- `prefix[./]verb` for a verb of the list.
abbrev pub has_verb : List ℕ → List (List ℕ) → List ℕ → Bool
has_verb prefix verbs pathname = elim (strip_prefix prefix pathname) [
  | none ↦ false
  | some [] ↦ false
  | some (c ∷ verb) ↦ (c == b'.' || c == b'/') && has_text verb verbs
]

pub is_official_api_route : List ℕ → Bool
is_official_api_route pathname = has_text pathname official_api_routes

pub is_legacy_official_api_route : List ℕ → Bool
is_legacy_official_api_route pathname =
    has_text pathname
      (codes "/api/respond" ∷ codes "/api/events.host" ∷ codes "/api/events.mux" ∷ [])
    || has_verb (codes "/api/host") legacy_host_verbs pathname
    || has_verb (codes "/api/git") legacy_git_verbs pathname

abbrev pub blocked_api_namespaces : List (List ℕ)
blocked_api_namespaces =
    codes "pluginManager"
    ∷ codes "pluginRegistryProbe"
    ∷ codes "dynamicCordisRunner"
    ∷ codes "officeToPdf"
    ∷ codes "productAnalytics"
    ∷ codes "speech"
    ∷ codes "terminal"
    ∷ []

abbrev pub blocked_api_endpoints : List (List ℕ)
blocked_api_endpoints =
    codes "directoryPicker/pick"
    ∷ codes "account/startSignIn"
    ∷ codes "account/cancelSignIn"
    ∷ codes "account/signOut"
    ∷ codes "credentials/set"
    ∷ codes "credentials/unset"
    ∷ codes "llm/discoverModels"
    ∷ codes "settings/mutate"
    ∷ codes "settings/openSettingsDocument"
    ∷ codes "settings/replace"
    ∷ codes "settings/update"
    ∷ codes "session/openWorkspacePath"
    ∷ codes "session/canOpenWorkspacePath"
    ∷ codes "session/initializeDefaultModel"
    ∷ codes "session/workspacePathApplications"
    ∷ []

abbrev pub allowed_account_endpoints : List (List ℕ)
allowed_account_endpoints =
    codes "account/getState" ∷ codes "account/getProfile" ∷ codes "account/getBalance" ∷ []

abbrev pub is_blocked_namespace : List ℕ → Bool
is_blocked_namespace s = has_text s blocked_api_namespaces

-- A root-level route of a blocked name.
abbrev pub is_blocked_root : List ℕ → Bool
is_blocked_root pathname =
    starts_with (codes "/") pathname
    && not (starts_with (codes "/api/") pathname)
    && is_blocked_namespace (first_text (split b'/' (drop 1 pathname)))

abbrev pub is_blocked_head : Option Namespace → Bool
is_blocked_head none = false
is_blocked_head (some n) = is_blocked_namespace n.segment || is_blocked_namespace n.head

abbrev pub is_blocked_method : List ℕ → Option (List ℕ) → Bool
is_blocked_method name none = bytes_eq name (codes "account")
is_blocked_method name (some m) =
    if bytes_eq name (codes "account")
    then not (has_text (codes "account/" ++ m) allowed_account_endpoints)
    else has_text (name ++ b'/' ∷ m) blocked_api_endpoints

abbrev pub is_blocked_endpoint : Option ApiEndpoint → Bool
is_blocked_endpoint none = false
is_blocked_endpoint (some e) = is_blocked_method e.namespace e.method

pub is_subuser_blocked_api_path : List ℕ → Bool
is_subuser_blocked_api_path pathname =
    if is_blocked_root pathname
    then true
    else if is_blocked_head (api_namespace_of pathname)
    then true
    else is_blocked_endpoint (api_endpoint_of pathname)

abbrev pub is_official_head : Option Namespace → Bool
is_official_head none = false
is_official_head (some n) =
    has_text n.segment official_api_namespaces || has_text n.head official_api_namespaces

pub is_official_api_path : List ℕ → Bool
is_official_api_path pathname =
    if is_official_api_route pathname || is_legacy_official_api_route pathname
    then true
    else is_official_head (api_namespace_of pathname)

abbrev pub static_extensions : List (List ℕ)
static_extensions =
    codes ".css"
    ∷ codes ".js"
    ∷ codes ".mjs"
    ∷ codes ".cjs"
    ∷ codes ".map"
    ∷ codes ".ico"
    ∷ codes ".png"
    ∷ codes ".jpg"
    ∷ codes ".jpeg"
    ∷ codes ".gif"
    ∷ codes ".webp"
    ∷ codes ".avif"
    ∷ codes ".svg"
    ∷ codes ".woff"
    ∷ codes ".woff2"
    ∷ codes ".ttf"
    ∷ codes ".otf"
    ∷ codes ".eot"
    ∷ codes ".txt"
    ∷ codes ".webmanifest"
    ∷ []

abbrev pub ends_with_any : List (List ℕ) → List ℕ → Bool
ends_with_any [] s = false
ends_with_any (e ∷ l) s = ends_with e s || ends_with_any l s

abbrev pub is_icon_code : ℕ → Bool
is_icon_code c =
    (leb b'A' c && leb c b'Z') || (leb b'a' c && leb c b'z') || is_digit c || c == b'_' || c == b'-'

abbrev pub is_icon_name : Option (List ℕ) → Bool
is_icon_name none = false
is_icon_name (some name) = is_run is_icon_code name

pub is_official_root_path : List ℕ → Bool
is_official_root_path pathname =
    has_text pathname (codes "/" ∷ codes "/index.html" ∷ codes "/favicon.ico" ∷ [])
    || has_text pathname (codes "/open-in-app/apps" ∷ codes "/open-in-app/open" ∷ [])
    || is_icon_name (strip_prefix (codes "/open-in-app/icon/") pathname)
    || starts_with (codes "/assets/") pathname
    || bytes_eq pathname (codes "/plugins")
    || starts_with (codes "/plugins/") pathname
    || ends_with_any static_extensions (lower pathname)

pub data PathClass : Type 0 where
  platform owner_class ssh_class official third_party : PathClass

pub record Manifest : Type 0 where
  pub namespaces : List (List ℕ)
  pub stream_endpoints : List (List ℕ)
  pub exact_paths : List (List ℕ)
  pub path_prefixes : List (List ℕ)
  pub generation : List ℕ

abbrev pub without_slash : List ℕ → List ℕ
without_slash p = if ends_with (codes "/") p then take (length p - 1) p else p

pub under_prefix : List ℕ → List (List ℕ) → Bool
under_prefix pathname [] = false
under_prefix pathname (p ∷ l) =
    bytes_eq pathname (without_slash p)
    || starts_with (without_slash p ++ codes "/") pathname
    || under_prefix pathname l

abbrev pub path_match : List ℕ → Manifest → Bool
path_match pathname m = has_text pathname m.exact_paths || under_prefix pathname m.path_prefixes

abbrev pub has_namespace : Option ApiEndpoint → Manifest → Bool
has_namespace none m = false
has_namespace (some e) m = has_text e.namespace m.namespaces

pub dynamic_plugin_api_path : List ℕ → Option Manifest → Bool
dynamic_plugin_api_path pathname none = false
dynamic_plugin_api_path pathname (some m) =
    has_namespace (api_endpoint_of pathname) m || path_match pathname m

pub dynamic_plugin_root_path : List ℕ → Option Manifest → Bool
dynamic_plugin_root_path pathname none = false
dynamic_plugin_root_path pathname (some m) =
    not (starts_with (codes "/api/") pathname || starts_with (codes "/gateway/") pathname)
    && path_match pathname m

abbrev pub classify_api : List ℕ → Option Manifest → PathClass
classify_api pathname m =
    if is_official_api_path pathname
    then official
    else if dynamic_plugin_api_path pathname m
    then official
    else third_party

abbrev pub classify_root : List ℕ → Option Manifest → PathClass
classify_root pathname m =
    if is_official_root_path pathname
    then official
    else if dynamic_plugin_root_path pathname m
    then official
    else third_party

abbrev pub is_platform_path : List ℕ → Bool
is_platform_path pathname =
    bytes_eq pathname (codes "/api/dsh-passwords")
    || starts_with (codes "/api/dsh-passwords/") pathname

pub classify_subuser_path : List ℕ → List (List ℕ) → Transport → Option Manifest → PathClass
classify_subuser_path pathname rules t m =
    if endpoint_allowed pathname rules none (some owner_only)
    then owner_class
    else if is_subuser_blocked_api_path pathname
    then third_party
    else if endpoint_allowed pathname rules (some t) (some ssh)
    then ssh_class
    else if is_platform_path pathname
    then platform
    else if starts_with (codes "/api/") pathname
    then classify_api pathname m
    else classify_root pathname m

pub is_subuser_blocked_remote_endpoint : List ℕ → Bool
is_subuser_blocked_remote_endpoint endpoint =
    let name = first_text (split b'/' endpoint) in
    is_blocked_namespace name
    || (bytes_eq name (codes "account") && not (bytes_eq endpoint (codes "account/watch")))
    || has_text endpoint blocked_api_endpoints

pub dynamic_plugin_stream_allowed : List ℕ → Option Manifest → Bool
dynamic_plugin_stream_allowed endpoint none = false
dynamic_plugin_stream_allowed endpoint (some m) =
    if not (has_text endpoint m.stream_endpoints)
    then false
    else not (is_subuser_blocked_remote_endpoint endpoint)
