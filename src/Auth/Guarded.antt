-- ===== src/Auth/Guarded.antt =====
-- The rows of `login_attempts` under `login` of src/auth.ts: failure counts against locks.
use dsh_passwords.Prelude.{
  ℕ, ◌-◌, ◌*◌, ◌/◌, ◌<◌, ◌≡◌, ◌⊎◌, refl, Bool, true, false, not, ◌&&◌, Option, none, some, List, [],
  ◌∷◌, leb, if_cases, is_some, arith, All,
}
use dsh_passwords.Auth.{
  Attempt, Db, get_login_attempt, record_login_failure, failed_or, lock_all_attempts_by_username,
  lock_login_attempt, reset_login_attempts, admit, minutes, fail_counted, fail_login, succeed,
  finish, login_hashed, after_checks, Outcome, get_user, record_ip_failure, max_failed, lock_step,
  record_ip_failure_at, get_ip_throttle, ip_window_ms, User, count_failures_by_username,
  lock_minutes, ip_max_failed,
}

abbrev pub IsGuarded : Attempt → Type 0
IsGuarded a = (a.failed_count < max_failed) ⊎ (is_some a.locked_until ≡ true)

lock-record :
    (u i until : ℕ) (l : List Attempt)
    → All IsGuarded l
    → All IsGuarded (lock_login_attempt u i until (record_login_failure u i l))
unfolding lock_login_attempt record_login_failure
lock-record u i until [] h = ground arith
lock-record u i until (a ∷ l) h = ground (arith, lock-record u i until l)

record-IsGuarded :
    (u i : ℕ) (l : List Attempt)
    → All IsGuarded l
    → failed_or 1 (get_login_attempt u i (record_login_failure u i l)) < max_failed
    → All IsGuarded (record_login_failure u i l)
unfolding record_login_failure get_login_attempt
record-IsGuarded u i [] h k = ground arith
record-IsGuarded u i (a ∷ l) h k = ground (arith, record-IsGuarded u i l)

lock_every-IsGuarded :
    (u until : ℕ) (l : List Attempt)
    → All IsGuarded l
    → All IsGuarded (lock_all_attempts_by_username u until l)
unfolding lock_all_attempts_by_username
lock_every-IsGuarded u until [] h = ground arith
lock_every-IsGuarded u until (a ∷ l) h = ground (arith, lock_every-IsGuarded u until l)

reset-IsGuarded :
    (u i : ℕ) (l : List Attempt) → All IsGuarded l → All IsGuarded (reset_login_attempts u i l)
unfolding reset_login_attempts
reset-IsGuarded u i [] h = ground arith
reset-IsGuarded u i (a ∷ l) h = ground (arith, reset-IsGuarded u i l)

abbrev pub IsSafe : Db → Type 0
IsSafe db = All IsGuarded db.attempts

fail_counted-IsSafe :
    (u i now : ℕ) (is_admin : Bool) (db : Db) (l : List Attempt) (count : ℕ)
    → db.attempts ≡ record_login_failure u i l
    → All IsGuarded l
    → failed_or 1 (get_login_attempt u i (record_login_failure u i l)) ≡ count
    → IsSafe (fail_counted u i now is_admin count db).0
fail_counted-IsSafe u i now is_admin db l count e h k =
    if_cases {A = Db × Outcome} (λ r. IsSafe r.0) (leb max_failed count)
      (λ _. rw e (lock-record u i (minutes now (lock_step ((count - 1) / max_failed))) l h))
      (λ z.
        if_cases {A = Db × Outcome} (λ r. IsSafe r.0)
          (not is_admin && leb (max_failed * 3) (count_failures_by_username u db.attempts))
          (λ _. rw e (
            lock_every-IsGuarded u (minutes now lock_minutes) (record_login_failure u i l)
              (record-IsGuarded u i l h (ground arith))))
          (λ _. rw e (record-IsGuarded u i l h (ground arith))))

fail_login-IsSafe :
    (u i now : ℕ) (is_admin : Bool) (db : Db)
    → IsSafe db
    → IsSafe (fail_login u i now is_admin db).0
unfolding fail_login record_ip_failure
fail_login-IsSafe u i now is_admin db h =
    if_cases {A = Db × Outcome} (λ r. IsSafe r.0)
      (leb ip_max_failed
        (record_ip_failure_at i ip_window_ms now (get_ip_throttle i db.throttles) db.throttles).1)
      (λ _. h) (λ _. fail_counted-IsSafe u i now is_admin _ db.attempts _ refl h refl)

finish-IsSafe :
    (compare : List ℕ → List ℕ → Bool) (u i now : ℕ) (password : List ℕ) (o : Option User) (db : Db)
    → IsSafe db
    → IsSafe (finish compare u i now password o db).0
unfolding succeed
finish-IsSafe compare u i now password none db h = fail_login-IsSafe u i now false db h
finish-IsSafe compare u i now password (some x) db h =
    if_cases {A = Db × Outcome} (λ r. IsSafe r.0) (compare password x.password_hash)
      (λ _. reset-IsGuarded u i db.attempts h) (λ _. fail_login-IsSafe u i now x.is_admin db h)

after_checks-IsSafe :
    (compare : List ℕ → List ℕ → Bool) (u i now : ℕ) (password : List ℕ) (db : Db)
    → IsSafe db
    → (o : Option Outcome) → IsSafe (after_checks compare u i now password db o).0
after_checks-IsSafe compare u i now password db h (some e) = h
after_checks-IsSafe compare u i now password db h none =
    finish-IsSafe compare u i now password (get_user u db.users) db h

-- A login, on every branch, keeps that each pair of user and address with five failures or more
-- has a lock set.
pub login-IsSafe :
    (compare : List ℕ → List ℕ → Bool) (u i now later : ℕ) (password : List ℕ) (db : Db)
    → IsSafe db
    → IsSafe (login_hashed compare u i now later password db).0
login-IsSafe compare u i now later password db h =
    after_checks-IsSafe compare u i later password db h (admit u i now db)
