-- ===== src/Auth/History.antt =====
-- A lock that `login` of src/auth.ts has set, through the logins that follow it.
use dsh_passwords.Prelude.{
  ℕ, ◌-◌, ◌*◌, ◌/◌, ◌≤◌, ◌<◌, ◌≡◌, ◌⊎◌, inl, inr, Bool, true, false, not, ◌&&◌, Option, none, some,
  List, [], ◌∷◌, ◌==◌, leb, min, if_cases, arith, All, All-mono, Bool-cases,
}
use dsh_passwords.Auth.{
  Attempt, User, Db, Outcome, throttled, refused, locked_fresh, get_login_attempt,
  record_login_failure, lock_all_attempts_by_username, lock_login_attempt, reset_login_attempts,
  locked_until_of, throttled_until_of, get_ip_throttle, is_after, admit, minutes, fail_counted,
  fail_login, succeed, finish, login_hashed, after_checks, get_user, lock_step, lock_minutes,
  max_failed, record_ip_failure, record_ip_failure_at, ip_window_ms, ip_max_failed,
  count_failures_by_username,
}
use dsh_passwords.Auth.Locks.{refused-early, fail_login-lock}

-- A login, with the clock at its checks and behind the comparison.
pub record Login : Type 0 where
  pub username_hash : ℕ
  pub ip_hash : ℕ
  pub password : List ℕ
  pub now : ℕ
  pub later : ℕ

abbrev pub run_login : (List ℕ → List ℕ → Bool) → Login → Db → Db
run_login compare x db =
    (login_hashed compare x.username_hash x.ip_hash x.now x.later x.password db).0

-- Logins one after the other.
abbrev pub run_logins : (List ℕ → List ℕ → Bool) → List Login → Db → Db
run_logins compare [] db = db
run_logins compare (x ∷ xs) db = run_logins compare xs (run_login compare x db)

-- Whether a time that is set is not before `end`.
abbrev holds_to : ℕ → Option ℕ → Bool
holds_to end none = false
holds_to end (some until) = leb end until

abbrev IsLocked : ℕ → ℕ → ℕ → List Attempt → Type 0
IsLocked u i end l = holds_to end (locked_until_of (get_login_attempt u i l)) ≡ true

-- What a login gets while the pair is locked: it is refused, and no table changes.
abbrev pub IsRefused : Db → Db × Outcome → Type 0
IsRefused db r = (r ≡ (db, refused)) ⊎ (r ≡ (db, throttled))

module _ (u i end : ℕ) where
  record-IsLocked :
      (v j : ℕ) (l : List Attempt)
      → IsLocked u i end l
      → IsLocked u i end (record_login_failure v j l)
  unfolding get_login_attempt record_login_failure
  record-IsLocked v j [] h = ground arith
  record-IsLocked v j (a ∷ l) h = ground (arith, record-IsLocked v j l)

  lock-IsLocked :
      (v j until : ℕ) (l : List Attempt)
      → (v == u && j == i) ≡ false
      → IsLocked u i end l
      → IsLocked u i end (lock_login_attempt v j until l)
  unfolding get_login_attempt lock_login_attempt
  lock-IsLocked v j until [] n h = ground arith
  lock-IsLocked v j until (a ∷ l) n h = ground (arith, lock-IsLocked v j until l n)

  lock_all-IsLocked :
      (v until : ℕ) (l : List Attempt)
      → end ≤ until
      → IsLocked u i end l
      → IsLocked u i end (lock_all_attempts_by_username v until l)
  unfolding get_login_attempt lock_all_attempts_by_username
  lock_all-IsLocked v until [] k h = ground arith
  lock_all-IsLocked v until (a ∷ l) k h = ground (arith, lock_all-IsLocked v until l k)

  reset-IsLocked :
      (v j : ℕ) (l : List Attempt)
      → (v == u && j == i) ≡ false
      → IsLocked u i end l
      → IsLocked u i end (reset_login_attempts v j l)
  unfolding get_login_attempt reset_login_attempts
  reset-IsLocked v j [] n h = ground arith
  reset-IsLocked v j (a ∷ l) n h = ground (arith, reset-IsLocked v j l n)

  counted-IsLocked :
      (v j later : ℕ) (is_admin : Bool) (count : ℕ) (db : Db)
      → (v == u && j == i) ≡ false
      → end ≤ minutes later lock_minutes
      → IsLocked u i end db.attempts
      → IsLocked u i end (fail_counted v j later is_admin count db).0.attempts
  counted-IsLocked v j later is_admin count db n k h =
      if_cases (λ (r : Db × Outcome). IsLocked u i end r.0.attempts) (leb max_failed count)
        (λ _.
          lock-IsLocked v j (minutes later (lock_step ((count - 1) / max_failed))) db.attempts n h)
        (λ _.
          if_cases (λ (r : Db × Outcome). IsLocked u i end r.0.attempts)
            (not is_admin && leb (max_failed * 3) (count_failures_by_username v db.attempts))
            (λ _. lock_all-IsLocked v (minutes later lock_minutes) db.attempts k h) (λ _. h))

  failed-IsLocked :
      (v j later : ℕ) (is_admin : Bool) (db : Db)
      → (v == u && j == i) ≡ false
      → end ≤ minutes later lock_minutes
      → IsLocked u i end db.attempts
      → IsLocked u i end (fail_login v j later is_admin db).0.attempts
  unfolding fail_login record_ip_failure
  failed-IsLocked v j later is_admin db n k h =
      if_cases (λ (r : Db × Outcome). IsLocked u i end r.0.attempts)
        (leb ip_max_failed
          (record_ip_failure_at j ip_window_ms later (get_ip_throttle j db.throttles)
            db.throttles).1)
        (λ _. h)
        (λ _. counted-IsLocked v j later is_admin _ _ n k (record-IsLocked v j db.attempts h))

  finished-IsLocked :
      (compare : List ℕ → List ℕ → Bool) (v j later : ℕ) (password : List ℕ) (o : Option User)
      → (db : Db) → (v == u && j == i) ≡ false
      → end ≤ minutes later lock_minutes
      → IsLocked u i end db.attempts
      → IsLocked u i end (finish compare v j later password o db).0.attempts
  unfolding succeed
  finished-IsLocked compare v j later password none db n k h =
      failed-IsLocked v j later false db n k h
  finished-IsLocked compare v j later password (some x) db n k h =
      if_cases (λ (r : Db × Outcome). IsLocked u i end r.0.attempts)
        (compare password x.password_hash) (λ _. reset-IsLocked v j db.attempts n h)
        (λ _. failed-IsLocked v j later x.is_admin db n k h)

  checked-IsLocked :
      (compare : List ℕ → List ℕ → Bool) (v j later : ℕ) (password : List ℕ) (db : Db)
      → (v == u && j == i) ≡ false
      → end ≤ minutes later lock_minutes
      → IsLocked u i end db.attempts
      → (o : Option Outcome)
      → IsLocked u i end (after_checks compare v j later password db o).0.attempts
  checked-IsLocked compare v j later password db n k h none =
      finished-IsLocked compare v j later password (get_user v db.users) db n k h
  checked-IsLocked compare v j later password db n k h (some e) = h

  locked-IsRefused :
      (compare : List ℕ → List ℕ → Bool) (t later : ℕ) (password : List ℕ) (db : Db)
      → t < end
      → IsLocked u i end db.attempts
      → IsRefused db (login_hashed compare u i t later password db)
  unfolding admit
  locked-IsRefused compare t later password db b h =
      elim (Bool-cases (is_after t (throttled_until_of (get_ip_throttle i db.throttles)))) [
        | inl z ↦ inr (refused-early compare u i t later password db throttled (ground arith))
        | inr z ↦ inl (refused-early compare u i t later password db refused (ground arith))
      ]

  refused-IsLocked :
      (db : Db) (r : Db × Outcome)
      → IsRefused db r
      → IsLocked u i end db.attempts
      → IsLocked u i end r.0.attempts
  refused-IsLocked db r (inl e) h = rw e h
  refused-IsLocked db r (inr e) h = rw e h

  same-IsLocked :
      (compare : List ℕ → List ℕ → Bool) (v j t later : ℕ) (password : List ℕ) (db : Db)
      → v ≡ u
      → j ≡ i
      → t < end
      → IsLocked u i end db.attempts
      → IsLocked u i end (login_hashed compare v j t later password db).0.attempts
  same-IsLocked compare v j t later password db d e b h =
      rw (d, e)
        (refused-IsLocked db (login_hashed compare u i t later password db)
          (locked-IsRefused compare t later password db b h) h)

  login-IsLocked :
      (compare : List ℕ → List ℕ → Bool) (x : Login) (db : Db)
      → x.now < end
      → end ≤ minutes x.later lock_minutes
      → IsLocked u i end db.attempts
      → IsLocked u i end (run_login compare x db).attempts
  login-IsLocked compare x db b k h = elim (Bool-cases (x.username_hash == u && x.ip_hash == i)) [
    | inl e ↦
        same-IsLocked compare x.username_hash x.ip_hash x.now x.later x.password db (ground arith)
          (ground arith) b h
    | inr n ↦
        checked-IsLocked compare x.username_hash x.ip_hash x.later x.password db n k h
          (admit x.username_hash x.ip_hash x.now db)
  ]

  logins-IsLocked :
      (compare : List ℕ → List ℕ → Bool) (xs : List Login) (db : Db)
      → All (λ x. (x.now < end) × (end ≤ minutes x.later lock_minutes)) xs
      → IsLocked u i end db.attempts
      → IsLocked u i end (run_logins compare xs db).attempts
  logins-IsLocked compare [] db k h = h
  logins-IsLocked compare (x ∷ xs) db ((b, k), ks) h =
      logins-IsLocked compare xs (run_login compare x db) ks (login-IsLocked compare x db b k h)

-- The time up to which a lock of some minutes is sure to hold: a lock of the user's name at all
-- addresses may take its place, and ends 15 minutes after it is set.
abbrev pub sure_until : ℕ → ℕ → ℕ
sure_until now length = minutes now (min length lock_minutes)

-- After a failed comparison that locks the account for some minutes, whatever logins follow, of any
-- users and from any addresses, a login of this user from this address is refused and changes no
-- table, until these minutes are over or 15 of them if they are more.
pub run_logins-locked :
    (compare : List ℕ → List ℕ → Bool) (u i now : ℕ) (is_admin : Bool) (db : Db)
    → (count length t later : ℕ) (password : List ℕ) (xs : List Login)
    → (fail_login u i now is_admin db).1 ≡ locked_fresh count length
    → All (λ x. (x.now < sure_until now length) × (now ≤ x.later)) xs
    → t < sure_until now length
    → IsRefused (run_logins compare xs (fail_login u i now is_admin db).0) (
        login_hashed compare u i t later password
          (run_logins compare xs (fail_login u i now is_admin db).0))
run_logins-locked compare u i now is_admin db count length t later password xs e k b =
    locked-IsRefused u i (sure_until now length) compare t later password _ b (
      logins-IsLocked u i (sure_until now length) compare xs (fail_login u i now is_admin db).0
        (All-mono xs (λ x h. (h.0, omega (arith, h.1))) k)
        (ground (arith, fail_login-lock u i now is_admin db count length e)))
