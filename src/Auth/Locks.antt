-- ===== src/Auth/Locks.antt =====
-- `login` of src/auth.ts: how long throttling holds, what a lock writes, and the login that succeeds.
use dsh_passwords.Prelude.{
  ℕ, ◌+◌, ◌-◌, ◌/◌, ◌≡◌, ◌≢◌, refl, Bool, true, false, none, some, List, [], ◌∷◌, leb, is_some,
  arith, Bool-cases, Option-cases, inl, inr,
}
use dsh_passwords.Auth.{
  Attempt, Throttle, User, Db, get_login_attempt, record_login_failure, failed_or,
  lock_all_attempts_by_username, lock_login_attempt, reset_login_attempts, get_ip_throttle,
  record_ip_failure, record_ip_failure_at, reset_ip_throttle, get_user, Outcome, throttled,
  locked_fresh, signed_in, throttled_until_of, locked_until_of, admit, minutes, fail_counted,
  fail_login, succeed, login_hashed, is_after, ip_window_ms, ip_max_failed, lock_minutes,
  max_failed, lock_step,
}

lock_login_attempt-until :
    (u i until : ℕ) (l : List Attempt)
    → locked_until_of (get_login_attempt u i (lock_login_attempt u i until l)) ≡ some until
unfolding get_login_attempt lock_login_attempt
lock_login_attempt-until u i until [] = ground arith
lock_login_attempt-until u i until (a ∷ l) = ground (arith, lock_login_attempt-until u i until l)

lock_all-until :
    (u i until : ℕ) (l : List Attempt)
    → is_some (get_login_attempt u i l) ≡ true
    → locked_until_of (get_login_attempt u i (lock_all_attempts_by_username u until l)) ≡ some until
unfolding get_login_attempt lock_all_attempts_by_username
lock_all-until u i until [] h = ground arith
lock_all-until u i until (a ∷ l) h = ground (arith, lock_all-until u i until l)

pub record_login_failure-count :
    (u i : ℕ) (l : List Attempt)
    → (is_some (get_login_attempt u i (record_login_failure u i l)) ≡ true)
      × (failed_or 0 (get_login_attempt u i (record_login_failure u i l))
          ≡ failed_or 0 (get_login_attempt u i l) + 1)
unfolding get_login_attempt record_login_failure
record_login_failure-count u i [] = ground arith
record_login_failure-count u i (a ∷ l) = ground (arith, record_login_failure-count u i l)

pub lock_login_attempt-count :
    (u i until : ℕ) (l : List Attempt)
    → failed_or 0 (get_login_attempt u i (lock_login_attempt u i until l))
      ≡ failed_or 0 (get_login_attempt u i l)
unfolding get_login_attempt lock_login_attempt
lock_login_attempt-count u i until [] = ground arith
lock_login_attempt-count u i until (a ∷ l) = ground (arith, lock_login_attempt-count u i until l)

reset_login_attempts-none :
    (u i : ℕ) (l : List Attempt) → get_login_attempt u i (reset_login_attempts u i l) ≡ none
unfolding get_login_attempt reset_login_attempts
reset_login_attempts-none u i [] = refl
reset_login_attempts-none u i (a ∷ l) = ground (arith, reset_login_attempts-none u i l)

reset_ip_throttle-none :
    (i : ℕ) (l : List Throttle) → get_ip_throttle i (reset_ip_throttle i l) ≡ none
unfolding get_ip_throttle reset_ip_throttle
reset_ip_throttle-none i [] = refl
reset_ip_throttle-none i (r ∷ l) = ground (arith, reset_ip_throttle-none i l)

abbrev failures : ℕ → ℕ → List Throttle → List Throttle × ℕ
failures i now l = record_ip_failure_at i ip_window_ms now (get_ip_throttle i l) l

fail_counted-throttled :
    (u i now : ℕ) (is_admin : Bool) (count : ℕ) (db : Db)
    → (fail_counted u i now is_admin count db).1 ≢ throttled
fail_counted-throttled u i now is_admin count db e = ground arith

-- A login that the checks refuse is not taken further.
pub refused-early :
    (compare : List ℕ → List ℕ → Bool) (v i t later : ℕ) (password : List ℕ) (db : Db) (e : Outcome)
    → admit v i t db ≡ some e
    → login_hashed compare v i t later password db ≡ (db, e)
refused-early compare v i t later password db e h = ground arith

fail_counted-until :
    (u i now : ℕ) (is_admin : Bool) (c : ℕ) (db : Db) (count length : ℕ)
    → is_some (get_login_attempt u i db.attempts) ≡ true
    → (fail_counted u i now is_admin c db).1 ≡ locked_fresh count length
    → locked_until_of (get_login_attempt u i (fail_counted u i now is_admin c db).0.attempts)
      ≡ some (minutes now length)
fail_counted-until u i now is_admin c db count length h e = ground (
  arith,
  lock_login_attempt-until u i (minutes now (lock_step ((c - 1) / max_failed))) db.attempts,
  lock_all-until u i (minutes now lock_minutes) db.attempts h,
)

-- The row of the pair after a failure that locked it.
pub fail_login-lock :
    (u i now : ℕ) (is_admin : Bool) (db : Db) (count length : ℕ)
    → (fail_login u i now is_admin db).1 ≡ locked_fresh count length
    → locked_until_of (get_login_attempt u i (fail_login u i now is_admin db).0.attempts)
      ≡ some (minutes now length)
unfolding fail_login record_ip_failure
fail_login-lock u i now is_admin db count length e =
    elim (Bool-cases (leb ip_max_failed (failures i now db.throttles).1)) [
      | inl h ↦ absurd (ground arith)
      | inr h ↦ ground (
        arith,
        fail_counted-until u i now is_admin
            (failed_or 1 (get_login_attempt u i (record_login_failure u i db.attempts)))
            (record {
              users = db.users;
              attempts = record_login_failure u i db.attempts;
              throttles = (failures i now db.throttles).0;
            })
            count length ((record_login_failure-count u i db.attempts).0),
      )
    ]

fail_login-signed_in :
    (u i now : ℕ) (is_admin : Bool) (db : Db) (user : User)
    → (fail_login u i now is_admin db).1 ≢ signed_in user
unfolding fail_login
fail_login-signed_in u i now is_admin db user e = ground arith

-- A login that succeeds gives the user of that name with the password's hash, was neither
-- throttled nor locked, and clears the failures of the pair and of the address.
pub login-signed_in :
    (compare : List ℕ → List ℕ → Bool) (u i now later : ℕ) (password : List ℕ) (db db' : Db)
    → (user : User) → login_hashed compare u i now later password db ≡ (db', signed_in user)
    → (get_user u db.users ≡ some user)
      × (compare password user.password_hash ≡ true)
      × (is_after now (throttled_until_of (get_ip_throttle i db.throttles)) ≡ false)
      × (is_after now (locked_until_of (get_login_attempt u i db.attempts)) ≡ false)
      × (get_ip_throttle i db'.throttles ≡ none)
      × (get_login_attempt u i db'.attempts ≡ none)
unfolding admit succeed
login-signed_in compare u i now later password db db' user e =
    elim (Option-cases (admit u i now db)) [
      | inr (x, h) ↦ absurd (ground arith)
      | inl h ↦ elim (Option-cases (get_user u db.users)) [
        | inl k ↦ absurd (ground (arith, fail_login-signed_in u i later false db user))
        | inr (x, k) ↦ elim (Bool-cases (compare password x.password_hash)) [
          | inl z ↦ ground (
            arith,
            reset_ip_throttle-none i db.throttles,
            reset_login_attempts-none u i db.attempts,
          )
          | inr z ↦ absurd (ground (arith, fail_login-signed_in u i later x.is_admin db user))
        ]
      ]
    ]
