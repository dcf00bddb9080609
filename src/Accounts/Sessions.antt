-- ===== src/Accounts/Sessions.antt =====
-- The sessions of src/gateway.ts: `sessionOf` with its cache of 30 seconds, `revokeToken` and
-- `isTokenRevoked`, and `verifyToken` of src/auth.ts. `verify` is `jwt.verify` at a time in
-- milliseconds, with the claims as the code reads them; a claim that is no finite number is none.
pub mod Fresh
pub mod Entries
pub mod Revoked
pub mod Logout
use dsh_passwords.Prelude.{
  ℕ, ◌+◌, ◌-◌, ◌*◌, ◌/◌, min, Bool, true, false, not, ◌&&◌, Option, none, some, List, [], ◌∷◌, ◌==◌,
  leb, ltb, length, drop, if◌then◌else◌, bytes_eq,
}
use dsh_passwords.Text.{is_empty}
use dsh_passwords.Accounts.{Account, Tables, get_user_by_id}

abbrev pub session_cache_ttl_ms : ℕ
session_cache_ttl_ms = 30000

abbrev pub token_ttl_ms : ℕ
token_ttl_ms = 43200000

pub record Payload : Type 0 where
  pub sub : ℕ
  pub username : List ℕ
  pub cv : Option ℕ
  pub exp : Option ℕ

-- `cv` of `verifyToken`.
abbrev pub version_of : Option ℕ → ℕ
version_of none = 0
version_of (some n) = n

pub record Entry : Type 0 where
  pub token : List ℕ
  pub user_id : ℕ
  pub username : List ℕ
  pub expire_at : ℕ

-- The maps of the gateway: `sessionCache` and `revokedTokens`.
pub record Gate : Type 0 where
  pub cache : List Entry
  pub revoked : List (List ℕ × ℕ)

abbrev pub empty_gate : Gate
empty_gate = record { cache = []; revoked = [] }

unfoldable pub find_entry : List ℕ → List Entry → Option Entry
find_entry token [] = none
find_entry token (e ∷ l) = if bytes_eq e.token token then some e else find_entry token l

unfoldable pub delete_entry : List ℕ → List Entry → List Entry
delete_entry token [] = []
delete_entry token (e ∷ l) =
    let rest = delete_entry token l in if bytes_eq e.token token then rest else e ∷ rest

unfoldable pub set_entry : Entry → List Entry → List Entry
set_entry x [] = x ∷ []
set_entry x (e ∷ l) =
    let rest = set_entry x l in if bytes_eq e.token x.token then x ∷ l else e ∷ rest

unfoldable pub find_revoked : List ℕ → List (List ℕ × ℕ) → Option ℕ
find_revoked token [] = none
find_revoked token ((k, v) ∷ l) = if bytes_eq k token then some v else find_revoked token l

unfoldable pub delete_revoked : List ℕ → List (List ℕ × ℕ) → List (List ℕ × ℕ)
delete_revoked token [] = []
delete_revoked token ((k, v) ∷ l) =
    let rest = delete_revoked token l in if bytes_eq k token then rest else (k, v) ∷ rest

unfoldable pub set_revoked : List ℕ → ℕ → List (List ℕ × ℕ) → List (List ℕ × ℕ)
set_revoked token until [] = (token, until) ∷ []
set_revoked token until ((k, v) ∷ l) =
    let rest = set_revoked token until l in
    if bytes_eq k token then (token, until) ∷ l else (k, v) ∷ rest

unfoldable pub revoke_token : List ℕ → ℕ → Gate → Gate
revoke_token token now g = record {
  cache = delete_entry token g.cache;
  revoked = set_revoked token (now + token_ttl_ms) g.revoked;
}

abbrev pub revoked_at : List ℕ → ℕ → Gate → Option ℕ → Gate × Bool
revoked_at token now g none = (g, false)
revoked_at token now g (some expires_at) =
    if ltb now expires_at
    then (g, true)
    else (record g { revoked = delete_revoked token g.revoked }, false)

unfoldable pub is_token_revoked : List ℕ → ℕ → Gate → Gate × Bool
is_token_revoked token now g = revoked_at token now g (find_revoked token g.revoked)

-- The user of a session: the id and the name.
abbrev pub Session : Type 0
Session = ℕ × List ℕ

abbrev pub cache_ttl : ℕ → Option ℕ → ℕ
cache_ttl now none = session_cache_ttl_ms
cache_ttl now (some exp) = min session_cache_ttl_ms (exp * 1000 - now)

abbrev pub entered : List ℕ → ℕ → Payload → ℕ → Gate → Gate × Option Session
entered token now p ttl g = if leb ttl 0 then (g, none) else (
  record g {
    cache =
        set_entry
          (record { token = token; user_id = p.sub; username = p.username; expire_at = now + ttl })
          g.cache;
  },
  some (p.sub, p.username),
)

-- The comparison of the claims with the row of their id.
abbrev pub matched : List ℕ → ℕ → Payload → Gate → Option Account → Gate × Option Session
matched token now p g none = (g, none)
matched token now p g (some row) =
    if not (bytes_eq row.username p.username)
    then (g, none)
    else if not (version_of p.cv == row.credential_version)
    then (g, none)
    else entered token now p (cache_ttl now p.exp) g

abbrev pub unless_revoked : List ℕ → ℕ → Payload → Tables → Gate × Bool → Gate × Option Session
unless_revoked token now p t (g, true) = (g, none)
unless_revoked token now p t (g, false) = matched token now p g (get_user_by_id p.sub t)

-- The check of a token that is not in the cache.
abbrev pub checked : List ℕ → ℕ → ℕ → Tables → Gate → Option Payload → Gate × Option Session
checked token now later t g none = (g, none)
checked token now later t g (some p) = unless_revoked token now p t (is_token_revoked token later g)

abbrev pub looked_up :
    (ℕ → List ℕ → Option Payload)
    → List ℕ
    → ℕ
    → ℕ
    → Tables
    → Gate
    → Option Entry
    → Gate × Option Session
looked_up verify token now later t g none = checked token now later t g (verify now token)
looked_up verify token now later t g (some e) =
    if ltb now e.expire_at
    then (g, some (e.user_id, e.username))
    else checked token now later t (record g { cache = delete_entry token g.cache })
        (verify now token)

-- `sessionOf` on the token of the cookie; `now` is the clock at the start and `later` at the look
-- into the revoked tokens.
unfoldable pub session_of :
    (ℕ → List ℕ → Option Payload) → List ℕ → ℕ → ℕ → Tables → Gate → Gate × Option Session
session_of verify token now later t g =
    if is_empty token
    then (g, none)
    else looked_up verify token now later t g (find_entry token g.cache)

-- The entries of a user go when the credentials have changed.
unfoldable pub invalidate_user : ℕ → List Entry → List Entry
invalidate_user user_id [] = []
invalidate_user user_id (e ∷ l) =
    let rest = invalidate_user user_id l in if e.user_id == user_id then rest else e ∷ rest

-- The sweep every ten minutes, and the cut of a cache of more than 10,000 entries to half.
abbrev pub live_entries : ℕ → List Entry → List Entry
live_entries now [] = []
live_entries now (e ∷ l) =
    let rest = live_entries now l in if leb e.expire_at now then rest else e ∷ rest

abbrev pub live_revoked : ℕ → List (List ℕ × ℕ) → List (List ℕ × ℕ)
live_revoked now [] = []
live_revoked now ((k, v) ∷ l) =
    let rest = live_revoked now l in if leb v now then rest else (k, v) ∷ rest

abbrev pub capped : List Entry → List Entry
capped l = if leb (length l) 10000 then l else drop ((length l + 1) / 2) l

unfoldable pub sweep : ℕ → Gate → Gate
sweep now g = record {
  cache = capped (live_entries now g.cache);
  revoked = live_revoked now g.revoked;
}
