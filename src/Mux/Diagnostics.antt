-- ===== src/Mux/Diagnostics.antt =====
-- src/remote-mux-diagnostics.ts: what is recorded of a closed `/api/remote.mux` carrier. A value that
-- a caller passes is `unknown` there and a `Value` here, and a key that it leaves out is `none`.
pub mod Carrier
use dsh_passwords.Prelude.{
  ℕ, Bool, true, false, not, ◌&&◌, ◌||◌, Option, none, some, List, [], ◌∷◌, ◌++◌, ◌==◌, ltb, leb,
  min, length, if◌then◌else◌, bytes_eq, is_some,
}
use dsh_passwords.Text.{codes, is_digit, is_run}
use dsh_passwords.Permissions.Sandbox.{first_of}

-- `fraction n` is a number between `n` and the next one.
pub data Value : Type 0 where
  text : List ℕ → Value
  natural : ℕ → Value
  fraction : ℕ → Value
  negative : Value
  not_finite : Value
  truth : Bool → Value
  other : Value

pub data CloseSource : Type 0 where
  client_close client_error upstream_close upstream_error heartbeat backpressure queue_overflow
        send_failed protocol permission_revoked shutdown unknown :
      CloseSource

pub data Direction : Type 0 where
  client upstream both : Direction

pub data ProbeState : Type 0 where
  idle pending responded timeout : ProbeState

pub data StallKind : Type 0 where
  no_stall write probe_stall : StallKind

pub data RejectKind : Type 0 where
  message_bytes accepted_bytes queue_count queue_bytes : RejectKind

pub data SenderDirection : Type 0 where
  to_client to_upstream : SenderDirection

abbrev pub close_sources : List (List ℕ × CloseSource)
close_sources =
    (codes "client-close", client_close)
    ∷ (codes "client-error", client_error)
    ∷ (codes "upstream-close", upstream_close)
    ∷ (codes "upstream-error", upstream_error)
    ∷ (codes "heartbeat", heartbeat)
    ∷ (codes "backpressure", backpressure)
    ∷ (codes "queue-overflow", queue_overflow)
    ∷ (codes "send-failed", send_failed)
    ∷ (codes "protocol", protocol)
    ∷ (codes "permission-revoked", permission_revoked)
    ∷ (codes "shutdown", shutdown)
    ∷ (codes "unknown", unknown)
    ∷ []

abbrev pub close_source_by_reason : List (List ℕ × CloseSource)
close_source_by_reason =
    (codes "client websocket error", client_error)
    ∷ (codes "Remote stream heartbeat timed out", heartbeat)
    ∷ (codes "Remote stream heartbeat failed", heartbeat)
    ∷ (codes "Remote stream queue too large", queue_overflow)
    ∷ (codes "Remote stream send failed", send_failed)
    ∷ (codes "Remote stream backpressure limit exceeded", backpressure)
    ∷ (codes "text messages required", protocol)
    ∷ (codes "invalid Remote stream request", protocol)
    ∷ (codes "duplicate stream id", protocol)
    ∷ (codes "too many Remote streams", protocol)
    ∷ (codes "invalid Remote stream payload", protocol)
    ∷ (codes "invalid Remote stream response", protocol)
    ∷ (codes "upstream error", upstream_error)
    ∷ (codes "upstream closed", upstream_close)
    ∷ (codes "Permissions changed", permission_revoked)
    ∷ (codes "Identity switched", permission_revoked)
    ∷ (codes "Credentials changed", permission_revoked)
    ∷ (codes "Session ended", permission_revoked)
    ∷ []

abbrev pub directions : List (List ℕ × Direction)
directions = (codes "client", client) ∷ (codes "upstream", upstream) ∷ (codes "both", both) ∷ []

abbrev pub close_codes : List ℕ
close_codes = 0 ∷ 1000 ∷ 1001 ∷ 1002 ∷ 1003 ∷ 1006 ∷ 1008 ∷ 1009 ∷ 1011 ∷ 1012 ∷ 1013 ∷ []

abbrev pub probe_states : List (List ℕ × ProbeState)
probe_states =
    (codes "idle", idle)
    ∷ (codes "pending", pending)
    ∷ (codes "responded", responded)
    ∷ (codes "timeout", timeout)
    ∷ []

abbrev pub stall_kinds : List (List ℕ × StallKind)
stall_kinds = (codes "none", no_stall) ∷ (codes "write", write) ∷ (codes "probe", probe_stall) ∷ []

abbrev pub reject_kinds : List (List ℕ × RejectKind)
reject_kinds =
    (codes "message-bytes", message_bytes)
    ∷ (codes "accepted-bytes", accepted_bytes)
    ∷ (codes "queue-count", queue_count)
    ∷ (codes "queue-bytes", queue_bytes)
    ∷ []

abbrev pub sender_directions : List (List ℕ × SenderDirection)
sender_directions = (codes "client", to_client) ∷ (codes "upstream", to_upstream) ∷ []

abbrev pub lookup {ℓ} : {A : Type ℓ} → List ℕ → List (List ℕ × A) → Option A
lookup s [] = none
lookup s ((t, a) ∷ rest) = let found = lookup s rest in if bytes_eq s t then some a else found

abbrev pub or_else {ℓ} : {A : Type ℓ} → A → Option A → A
or_else a none = a
or_else a (some b) = b

-- The member of an enumeration that a text names, and the reserved one for all else.
abbrev pub member {ℓ} : {A : Type ℓ} → List (List ℕ × A) → A → Value → A
member table reserved (text s) = or_else reserved (lookup s table)
member table reserved v = reserved

-- `Number.MAX_SAFE_INTEGER`.
abbrev pub max_safe_integer : ℕ
max_safe_integer = 9007199254740991

pub normalize_counter : Value → ℕ
normalize_counter (natural n) = min n max_safe_integer
normalize_counter (fraction n) = min n max_safe_integer
normalize_counter v = 0

abbrev pub is_carrier_code : ℕ → Bool
is_carrier_code c =
    (leb b'A' c && leb c b'Z')
    || (leb b'a' c && leb c b'z')
    || is_digit c
    || c == b'.'
    || c == b'_'
    || c == b'#'
    || c == b'-'

pub normalize_carrier_id : Value → List ℕ
normalize_carrier_id (text s) =
    if is_run is_carrier_code s && leb (length s) 64 then s else codes "remote.mux"
normalize_carrier_id v = codes "remote.mux"

pub normalize_close_source : Value → CloseSource
normalize_close_source (text s) =
    or_else unknown (first_of (lookup s close_sources) (lookup s close_source_by_reason))
normalize_close_source v = unknown

pub normalize_direction : Value → Direction
normalize_direction v = member directions both v

abbrev pub has_number : ℕ → List ℕ → Bool
has_number n [] = false
has_number n (m ∷ ms) = n == m || has_number n ms

pub normalize_close_code : Value → ℕ
normalize_close_code (natural n) = if has_number n close_codes then n else 0
normalize_close_code v = 0

pub normalize_probe_state : Value → ProbeState
normalize_probe_state v = member probe_states idle v

pub normalize_stall_kind : Value → StallKind
normalize_stall_kind v = member stall_kinds no_stall v

pub normalize_sender_direction : Value → SenderDirection
normalize_sender_direction v = member sender_directions to_client v

pub normalize_reject_kind : Value → RejectKind
normalize_reject_kind v = member reject_kinds accepted_bytes v
