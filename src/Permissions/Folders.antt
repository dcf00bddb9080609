-- ===== src/Permissions/Folders.antt =====
-- Paths and folders in src/permissions.ts: `normalizePath`, the folders that a user may use, and the
-- target of a `workspaceFiles` call. `windows` stands for `process.platform === 'win32'`.
pub mod Segments
pub mod Dots
pub mod Tests
use dsh_passwords.Prelude.{
  ℕ, ◌+◌, Bool, true, false, not, ◌&&◌, ◌||◌, Option, none, some, List, [], ◌∷◌, ◌++◌, ◌==◌, leb,
  ltb, map, length, if◌then◌else◌, bytes_eq,
}
use dsh_passwords.Text.{
  codes, is_empty, is_digit, lower_code, starts_with, has_code, has_text, drop_run, trim,
}
use dsh_passwords.Posix.{posix_normalize, posix_join, posix_dirname}
use dsh_passwords.Json.{
  Json, null, boolean, number, other_number, string, array, object, Items, nil, cons, Fields, end,
  field, get_field, text_of,
}

abbrev pub to_slash : ℕ → ℕ
to_slash c = if c == b'\\' then b'/' else c

abbrev pub lower_drive : List ℕ → List ℕ
lower_drive (c ∷ d ∷ s) = if d == b':' then lower_code c ∷ d ∷ s else c ∷ d ∷ s
lower_drive s = s

unfoldable pub normalize_path : List ℕ → List ℕ
normalize_path p = lower_drive (posix_normalize (map to_slash p))

abbrev pub is_letter : ℕ → Bool
is_letter c = (leb b'A' c && leb c b'Z') || (leb b'a' c && leb c b'z')

-- `/^[A-Za-z]:[\\/]/` and `/^[A-Za-z]:/`.
abbrev pub has_drive_root : List ℕ → Bool
has_drive_root (c ∷ d ∷ e ∷ s) = is_letter c && d == b':' && (e == b'\\' || e == b'/')
has_drive_root _ = false

abbrev pub has_drive : List ℕ → Bool
has_drive (c ∷ d ∷ s) = is_letter c && d == b':'
has_drive _ = false

pub is_fully_qualified_path : Bool → List ℕ → Bool
is_fully_qualified_path windows candidate =
    if windows then has_drive_root candidate else starts_with (codes "/") candidate

pub is_absolute_like_path : Bool → List ℕ → Bool
is_absolute_like_path windows candidate =
    if windows
    then starts_with (codes "/") candidate || has_drive candidate
    else starts_with (codes "/") candidate

abbrev pub is_drive_only : List ℕ → Bool
is_drive_only (c ∷ d ∷ e ∷ []) = is_letter c && d == b':' && e == b'/'
is_drive_only _ = false

pub is_filesystem_root_path : List ℕ → Bool
is_filesystem_root_path candidate =
    let normalized = normalize_path candidate in
    bytes_eq normalized (codes "/") || is_drive_only normalized

pub is_workspace_restricted : List (List ℕ) → Bool
is_workspace_restricted [] = false
is_workspace_restricted (f ∷ fs) = true

-- `p === base || p.startsWith(base + '/')`.
unfoldable pub equals_or_below : List ℕ → List ℕ → Bool
equals_or_below base p = bytes_eq p base || starts_with (base ++ codes "/") p

abbrev pub in_folder : List ℕ → List ℕ → Bool
in_folder p entry =
    let base = normalize_path entry in
    if bytes_eq base (codes ".") || bytes_eq base (codes "/") then true else equals_or_below base p

abbrev pub some_folder : List ℕ → List (List ℕ) → Bool
some_folder p [] = false
some_folder p (entry ∷ rest) = in_folder p entry || some_folder p rest

unfoldable pub folder_allowed : List ℕ → List (List ℕ) → Bool
folder_allowed path [] = true
folder_allowed path (f ∷ fs) =
    if has_text (codes "__deny__") (f ∷ fs)
    then false
    else some_folder (normalize_path path) (f ∷ fs)

unfoldable pub path_within : List ℕ → List ℕ → Bool
path_within candidate root =
    let r = normalize_path root in
    if is_empty r || bytes_eq r (codes ".")
    then false
    else if bytes_eq r (codes "/")
    then true
    else equals_or_below r (normalize_path candidate)

abbrev pub is_assigned : List ℕ → List (List ℕ) → Bool
is_assigned c [] = false
is_assigned c (entry ∷ rest) =
    (not (bytes_eq entry (codes "__deny__")) && bytes_eq (normalize_path entry) c)
    || is_assigned c rest

abbrev pub within_one : List ℕ → List (List ℕ) → Bool
within_one c [] = false
within_one c (owned ∷ rest) = path_within c owned || within_one c rest

abbrev pub is_pending : List ℕ → List (List ℕ) → Bool
is_pending c [] = false
is_pending c (pending ∷ rest) = bytes_eq (normalize_path pending) c || is_pending c rest

pub workspace_registration_allowed : List ℕ → List (List ℕ) → List (List ℕ) → List (List ℕ) → Bool
workspace_registration_allowed candidate assigned owned pending =
    let c = normalize_path candidate in
    if is_empty c || bytes_eq c (codes ".") || bytes_eq c (codes "/")
    then false
    else is_assigned c assigned || within_one c owned || is_pending c pending

pub directory_entry_visible : List ℕ → List (List ℕ) → Bool
directory_entry_visible entry [] = false
directory_entry_visible entry (root ∷ roots) =
    path_within entry root || path_within root entry || directory_entry_visible entry roots

abbrev pub target_of : Bool → List ℕ → List ℕ → List ℕ
target_of absolute root path =
    if absolute then normalize_path path else normalize_path (posix_join root path)

-- `workspaceFilesTargetAllowed` of a call's `targetPath` and `absolute`.
unfoldable pub workspace_files_target_allowed :
    Option (List ℕ) → Bool → Option (List ℕ) → List (List ℕ) → Bool
workspace_files_target_allowed none absolute cwd folders = false
workspace_files_target_allowed (some path) absolute none folders = false
workspace_files_target_allowed (some path) absolute (some []) folders = false
workspace_files_target_allowed (some path) absolute (some (c ∷ s)) folders =
    let target = target_of absolute (normalize_path (c ∷ s)) path in
    path_within target (normalize_path (c ∷ s)) && folder_allowed target folders

-- `/^[a-z][a-z\d+.-]*:/iu`: the scheme of a URL. Two code units are lowered to ASCII letters there.
abbrev pub is_scheme_letter : ℕ → Bool
is_scheme_letter c = is_letter c || c == 0x17f || c == 0x212a

abbrev pub is_scheme_code : ℕ → Bool
is_scheme_code c = is_scheme_letter c || is_digit c || c == b'+' || c == b'.' || c == b'-'

abbrev pub is_colon_first : List ℕ → Bool
is_colon_first [] = false
is_colon_first (c ∷ s) = c == b':'

abbrev pub has_scheme : List ℕ → Bool
has_scheme [] = false
has_scheme (c ∷ s) = is_scheme_letter c && is_colon_first (drop_run is_scheme_code s)

pub resolve_related_read_path : List ℕ → List ℕ → Option (List ℕ)
resolve_related_read_path base_path relative_path =
    let relative = map to_slash relative_path in
    if starts_with (codes "/") relative || has_scheme relative
    then none
    else some (normalize_path (posix_join (posix_dirname (normalize_path base_path)) relative))
