-- ===== src/Config.antt =====
-- Settings in src/config.ts that are read from texts: `parseDecimalInt`, `resolveRemoteMuxConfig` and
-- `parseDirectoryPickerRootList`. The environment is a function from names to texts; the warnings
-- are left out. `windows` stands for `process.platform === 'win32'`.
pub mod Ranges
pub mod Tests
use dsh_passwords.Prelude.{
  ℕ, ◌+◌, ◌^◌, Bool, true, false, not, ◌&&◌, ◌||◌, Option, none, some, List, [], ◌∷◌, ◌==◌, leb,
  ltb, if◌then◌else◌,
}
use dsh_passwords.Text.{codes, is_empty, is_run, is_digit, has_code, has_text, trim, cons_head}
use dsh_passwords.Permissions.Host.{parse_int}
use dsh_passwords.Permissions.Folders.{
  normalize_path, is_fully_qualified_path, is_filesystem_root_path,
}

-- A number that is no safe integer is refused; the digits of a greater one round to one.
abbrev pub safe_integer : ℕ → Option ℕ
safe_integer n = if ltb n (2 ^ 53) then some n else none

abbrev pub decimal_of : List ℕ → Option ℕ
decimal_of trimmed = if is_run is_digit trimmed then safe_integer (parse_int 10 0 trimmed) else none

unfoldable pub parse_decimal_int : Option (List ℕ) → Option ℕ
parse_decimal_int none = none
parse_decimal_int (some raw) = decimal_of (trim raw)

pub record Spec : Type 0 where
  pub value : ℕ
  pub min : ℕ
  pub max : ℕ

-- `REMOTE_MUX_DEFAULTS`.
abbrev pub fragment_spec : Spec
fragment_spec = record { value = 131072; min = 16384; max = 1048576 }

abbrev pub ping_spec : Spec
ping_spec = record { value = 2000; min = 250; max = 60000 }

abbrev pub pong_spec : Spec
pong_spec = record { value = 30000; min = 2000; max = 600000 }

abbrev pub stall_spec : Spec
stall_spec = record { value = 30000; min = 5000; max = 600000 }

abbrev pub valid_or : Spec → Bool → Option ℕ → ℕ
valid_or spec zero_valid none = spec.value
valid_or spec zero_valid (some n) =
    if (zero_valid && n == 0) || (leb spec.min n && leb n spec.max) then n else spec.value

abbrev pub read_raw : Spec → Bool → Option (List ℕ) → ℕ
read_raw spec zero_valid none = spec.value
read_raw spec zero_valid (some raw) =
    if is_empty (trim raw)
    then spec.value
    else valid_or spec zero_valid (parse_decimal_int (some raw))

pub record RemoteMuxConfig : Type 0 where
  pub fragment_bytes : ℕ
  pub ping_interval_ms : ℕ
  pub pong_timeout_ms : ℕ
  pub write_stall_ms : ℕ

unfoldable pub resolve_remote_mux_config : (List ℕ → Option (List ℕ)) → RemoteMuxConfig
resolve_remote_mux_config env = record {
  fragment_bytes = read_raw fragment_spec true (env (codes "MCP_GATEWAY_MUX_FRAGMENT_BYTES"));
  ping_interval_ms = read_raw ping_spec false (env (codes "MCP_GATEWAY_MUX_PING_INTERVAL_MS"));
  pong_timeout_ms = read_raw pong_spec false (env (codes "MCP_GATEWAY_MUX_PONG_TIMEOUT_MS"));
  write_stall_ms = read_raw stall_spec false (env (codes "MCP_GATEWAY_MUX_WRITE_STALL_MS"));
}

-- `raw.split(/[,\r\n]+/)`; the empty pieces between two separators are skipped below.
abbrev pub is_separator : ℕ → Bool
is_separator c = c == b',' || c == 13 || c == 10

abbrev pub split_list : List ℕ → List (List ℕ)
split_list [] = [] ∷ []
split_list (c ∷ s) =
    let rest = split_list s in if is_separator c then [] ∷ rest else cons_head c rest

abbrev pub is_root_candidate : Bool → List (List ℕ) → List ℕ → Bool
is_root_candidate windows seen candidate =
    if is_empty candidate || has_code 0 candidate
    then false
    else if not (is_fully_qualified_path windows candidate)
    then false
    else if is_filesystem_root_path (normalize_path candidate)
    then false
    else not (has_text (normalize_path candidate) seen)

-- The texts seen so far with the candidate, if it is taken.
abbrev pub seen_with : Bool → List (List ℕ) → List ℕ → List (List ℕ)
seen_with windows seen candidate =
    if is_root_candidate windows seen candidate then normalize_path candidate ∷ seen else seen

abbrev pub collect_roots : Bool → List (List ℕ) → List (List ℕ) → List (List ℕ)
collect_roots windows seen [] = []
collect_roots windows seen (part ∷ parts) =
    let rest = collect_roots windows (seen_with windows seen (trim part)) parts in
    if is_root_candidate windows seen (trim part) then trim part ∷ rest else rest

unfoldable pub parse_directory_picker_root_list : Bool → List ℕ → List (List ℕ)
parse_directory_picker_root_list windows raw = collect_roots windows [] (split_list raw)
