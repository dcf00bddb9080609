-- ===== src/Auth.antt =====
-- `AuthService.login` of src/auth.ts, with the tables `login_attempts` and `ip_throttle` of
-- src/db.ts. `lookup_hash` (an HMAC) and `compare` (`bcrypt.compare`) are parameters; a hash is
-- a number, a time is in milliseconds. The audit rows and the token's text are left out: a login
-- that succeeds gives the user for whom the token is signed. A login is
-- modelled as running alone: no other one runs at its `await` points.
pub mod Locks
pub mod Guarded
pub mod History
pub mod Tests
use dsh_passwords.Prelude.{
  ℕ, zero, suc, ◌+◌, ◌-◌, ◌*◌, ◌/◌, min, Bool, true, false, not, ◌&&◌, ◌||◌, Option, none, some,
  List, [], ◌∷◌, ◌++◌, ◌==◌, ltb, leb, if◌then◌else◌, is_some, take,
}
use dsh_passwords.Text.{trim}

abbrev pub max_failed : ℕ
max_failed = 5

abbrev pub lock_minutes : ℕ
lock_minutes = 15

abbrev pub ip_max_failed : ℕ
ip_max_failed = 50

abbrev pub ip_window_ms : ℕ
ip_window_ms = 900000

abbrev pub ip_throttle_minutes : ℕ
ip_throttle_minutes = 15

-- `LOCK_STEPS`, read at `min(round, 3)`.
abbrev pub lock_step : ℕ → ℕ
lock_step zero = 1
lock_step (suc zero) = 5
lock_step (suc (suc zero)) = 15
lock_step (suc (suc (suc n))) = 60

pub record Attempt : Type 0 where
  pub username_hash : ℕ
  pub ip_hash : ℕ
  pub failed_count : ℕ
  pub locked_until : Option ℕ

pub record Throttle : Type 0 where
  pub ip_hash : ℕ
  pub failed_count : ℕ
  pub window_started : ℕ
  pub throttled_until : Option ℕ

pub record User : Type 0 where
  pub id : ℕ
  pub username_hash : ℕ
  pub password_hash : List ℕ
  pub is_admin : Bool
  pub credential_version : ℕ
  pub last_login_at : Option ℕ

pub record Db : Type 0 where
  pub users : List User
  pub attempts : List Attempt
  pub throttles : List Throttle

abbrev pub is_row : ℕ → ℕ → Attempt → Bool
is_row u i a = a.username_hash == u && a.ip_hash == i

pub get_login_attempt : ℕ → ℕ → List Attempt → Option Attempt
get_login_attempt u i [] = none
get_login_attempt u i (a ∷ l) = if is_row u i a then some a else get_login_attempt u i l

pub record_login_failure : ℕ → ℕ → List Attempt → List Attempt
record_login_failure u i [] =
    record { username_hash = u; ip_hash = i; failed_count = 1; locked_until = none } ∷ []
record_login_failure u i (a ∷ l) =
    let rest = record_login_failure u i l in
    if is_row u i a then record a { failed_count = a.failed_count + 1 } ∷ l else a ∷ rest

abbrev pub failed_or : ℕ → Option Attempt → ℕ
failed_or n none = n
failed_or n (some a) = a.failed_count

pub count_failures_by_username : ℕ → List Attempt → ℕ
count_failures_by_username u [] = 0
count_failures_by_username u (a ∷ l) =
    (if a.username_hash == u then a.failed_count else 0) + count_failures_by_username u l

pub lock_all_attempts_by_username : ℕ → ℕ → List Attempt → List Attempt
lock_all_attempts_by_username u until [] = []
lock_all_attempts_by_username u until (a ∷ l) =
    (if a.username_hash == u then record a { locked_until = some until } else a)
    ∷ lock_all_attempts_by_username u until l

pub lock_login_attempt : ℕ → ℕ → ℕ → List Attempt → List Attempt
lock_login_attempt u i until [] =
    record { username_hash = u; ip_hash = i; failed_count = 0; locked_until = some until } ∷ []
lock_login_attempt u i until (a ∷ l) =
    let rest = lock_login_attempt u i until l in
    if is_row u i a then record a { locked_until = some until } ∷ l else a ∷ rest

pub reset_login_attempts : ℕ → ℕ → List Attempt → List Attempt
reset_login_attempts u i [] = []
reset_login_attempts u i (a ∷ l) =
    let rest = reset_login_attempts u i l in if is_row u i a then rest else a ∷ rest

pub get_ip_throttle : ℕ → List Throttle → Option Throttle
get_ip_throttle i [] = none
get_ip_throttle i (r ∷ l) = if r.ip_hash == i then some r else get_ip_throttle i l

-- `UPDATE ip_throttle SET … WHERE ip_hash = ?`.
abbrev pub update_ip : ℕ → (Throttle → Throttle) → List Throttle → List Throttle
update_ip i f [] = []
update_ip i f (r ∷ l) = (if r.ip_hash == i then f r else r) ∷ update_ip i f l

abbrev pub fresh_throttle : ℕ → ℕ → Throttle
fresh_throttle i now = record {
  ip_hash = i;
  failed_count = 1;
  window_started = now;
  throttled_until = none;
}

-- Whether a time that is set lies after `now`.
abbrev pub is_after : ℕ → Option ℕ → Bool
is_after now none = false
is_after now (some until) = ltb now until

abbrev pub is_expired : ℕ → ℕ → Throttle → Bool
is_expired window now r =
    ltb window (now - r.window_started)
    || (is_some r.throttled_until && not (is_after now r.throttled_until))

-- The row is looked up first; the result is the table and the failures in the window.
abbrev pub record_ip_failure_at : ℕ → ℕ → ℕ → Option Throttle → List Throttle → List Throttle × ℕ
record_ip_failure_at i window now none l = (l ++ fresh_throttle i now ∷ [], 1)
record_ip_failure_at i window now (some r) l =
    if is_expired window now r
    then (update_ip i (λ x. fresh_throttle x.ip_hash now) l, 1)
    else (update_ip i (λ x. record x { failed_count = x.failed_count + 1 }) l, r.failed_count + 1)

pub record_ip_failure : ℕ → ℕ → ℕ → List Throttle → List Throttle × ℕ
record_ip_failure i window now l = record_ip_failure_at i window now (get_ip_throttle i l) l

pub throttle_ip : ℕ → ℕ → List Throttle → List Throttle
throttle_ip i until l = update_ip i (λ x. record x { throttled_until = some until }) l

pub reset_ip_throttle : ℕ → List Throttle → List Throttle
reset_ip_throttle i [] = []
reset_ip_throttle i (r ∷ l) =
    let rest = reset_ip_throttle i l in if r.ip_hash == i then rest else r ∷ rest

pub get_user : ℕ → List User → Option User
get_user u [] = none
get_user u (x ∷ l) = if x.username_hash == u then some x else get_user u l

pub touch_login : ℕ → ℕ → List User → List User
touch_login id now [] = []
touch_login id now (x ∷ l) =
    (if x.id == id then record x { last_login_at = some now } else x) ∷ touch_login id now l

-- `throttled` is the error 429 for an address, `refused` the 401 for credentials and locks,
-- `locked_fresh` the 429 for a lock that this failure set.
pub data Outcome : Type 0 where
  throttled refused : Outcome
  locked_fresh : ℕ → ℕ → Outcome
  signed_in : User → Outcome

abbrev pub throttled_until_of : Option Throttle → Option ℕ
throttled_until_of none = none
throttled_until_of (some r) = r.throttled_until

abbrev pub locked_until_of : Option Attempt → Option ℕ
locked_until_of none = none
locked_until_of (some a) = a.locked_until

-- The checks before the password: the error, or none.
pub admit : ℕ → ℕ → ℕ → Db → Option Outcome
admit u i now db =
    if is_after now (throttled_until_of (get_ip_throttle i db.throttles))
    then some throttled
    else if is_after now (locked_until_of (get_login_attempt u i db.attempts))
    then some refused
    else none

abbrev pub minutes : ℕ → ℕ → ℕ
minutes now n = now + n * 60000

-- The counts after a failure that did not throttle the address.
abbrev pub fail_counted : ℕ → ℕ → ℕ → Bool → ℕ → Db → Db × Outcome
fail_counted u i now is_admin count db =
    if leb max_failed count
    then (
      record db {
        attempts =
            lock_login_attempt u i (minutes now (lock_step ((count - 1) / max_failed))) db.attempts;
      },
      locked_fresh count (lock_step ((count - 1) / max_failed)),
    )
    else if not is_admin && leb (max_failed * 3) (count_failures_by_username u db.attempts)
    then (
      record db {
        attempts = lock_all_attempts_by_username u (minutes now lock_minutes) db.attempts;
      },
      locked_fresh (max_failed * 3) lock_minutes,
    )
    else (db, refused)

abbrev pub fail_attempt : ℕ → ℕ → ℕ → Bool → Db → Db × Outcome
fail_attempt u i now is_admin db =
    let rows = record_login_failure u i db.attempts in
    fail_counted u i now is_admin (failed_or 1 (get_login_attempt u i rows))
      (record db { attempts = rows })

-- A failed comparison, from the count of the address on.
pub fail_login : ℕ → ℕ → ℕ → Bool → Db → Db × Outcome
fail_login u i now is_admin db =
    let (rows, n) = record_ip_failure i ip_window_ms now db.throttles in
    if leb ip_max_failed n
    then (record db { throttles = throttle_ip i (minutes now ip_throttle_minutes) rows }, throttled)
    else fail_attempt u i now is_admin (record db { throttles = rows })

pub succeed : ℕ → ℕ → ℕ → User → Db → Db × Outcome
succeed u i now user db = (
  record {
    users = touch_login user.id now db.users;
    attempts = reset_login_attempts u i db.attempts;
    throttles = reset_ip_throttle i db.throttles;
  },
  signed_in user,
)

-- What follows the comparison, for the user that was looked up before it.
abbrev pub finish : (List ℕ → List ℕ → Bool) → ℕ → ℕ → ℕ → List ℕ → Option User → Db → Db × Outcome
finish compare u i now password none db = fail_login u i now false db
finish compare u i now password (some user) db =
    if compare password user.password_hash
    then succeed u i now user db
    else fail_login u i now user.is_admin db

-- What follows the checks, by their error.
abbrev pub after_checks :
    (List ℕ → List ℕ → Bool) → ℕ → ℕ → ℕ → List ℕ → Db → Option Outcome → Db × Outcome
after_checks compare u i later password db (some e) = (db, e)
after_checks compare u i later password db none =
    finish compare u i later password (get_user u db.users) db

abbrev pub login_hashed : (List ℕ → List ℕ → Bool) → ℕ → ℕ → ℕ → ℕ → List ℕ → Db → Db × Outcome
login_hashed compare u i now later password db =
    after_checks compare u i later password db (admit u i now db)

-- `login`; `now` is the clock at the checks and `later` behind the comparison.
pub login :
    (List ℕ → ℕ) → (List ℕ → List ℕ → Bool) → List ℕ → List ℕ → List ℕ → ℕ → ℕ → Db → Db × Outcome
login lookup_hash compare username password ip now later db =
    login_hashed compare (lookup_hash (take 64 (trim username))) (lookup_hash ip) now later
      (take 256 password) db
