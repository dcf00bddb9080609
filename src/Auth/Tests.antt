-- ===== src/Auth/Tests.antt =====
-- Logins on small inputs.
use dsh_passwords.Prelude.{◌≡◌, refl, false, none, List, [], ◌∷◌, arith, bytes_eq}
use dsh_passwords.Auth.{
  User, Db, locked_fresh, signed_in, fail_login, record_ip_failure, get_ip_throttle,
  get_login_attempt, record_login_failure, get_user, login_hashed, admit, succeed,
}
use dsh_passwords.Auth.Guarded.{IsSafe, login-IsSafe}
use dsh_passwords.Auth.History.{Login, IsRefused, run_logins, run_logins-locked}

abbrev alice : User
alice = record {
  id = 1;
  username_hash = 11;
  password_hash = 5 ∷ 6 ∷ [];
  is_admin = false;
  credential_version = 1;
  last_login_at = none;
}

-- One failure short of a lock and of throttling.
abbrev near_lock : Db
near_lock = record {
  users = alice ∷ [];
  attempts = record { username_hash = 11; ip_hash = 7; failed_count = 4; locked_until = none } ∷ [];
  throttles = [];
}

abbrev near_throttle : Db
near_throttle = record {
  users = alice ∷ [];
  attempts = [];
  throttles =
      record { ip_hash = 7; failed_count = 49; window_started = 0; throttled_until = none } ∷ [];
}

locks_now : (fail_login 11 7 1000 false near_lock).1 ≡ locked_fresh 5 1
unfolding fail_login record_ip_failure get_ip_throttle get_login_attempt record_login_failure
locks_now = refl

-- Another user's login, one of this pair, and the lock.
abbrev later_logins : List Login
later_logins =
    record { username_hash = 12; ip_hash = 7; password = []; now = 1500; later = 1501 }
    ∷ record { username_hash = 11; ip_hash = 7; password = []; now = 1600; later = 1601 }
    ∷ []

abbrev after_later : Db
after_later = run_logins bytes_eq later_logins (fail_login 11 7 1000 false near_lock).0

run_logins-locked_example :
    IsRefused after_later (login_hashed bytes_eq 11 7 2000 2000 (5 ∷ 6 ∷ []) after_later)
run_logins-locked_example =
    run_logins-locked bytes_eq 11 7 1000 false near_lock 5 1 2000 2000 (5 ∷ 6 ∷ []) later_logins
      locks_now ((omega arith, omega arith), ((omega arith, omega arith), tt)) (omega arith)

abbrev cleared : Db
cleared = (login_hashed bytes_eq 11 7 1000 1001 (5 ∷ 6 ∷ []) near_lock).0

signs_in : login_hashed bytes_eq 11 7 1000 1001 (5 ∷ 6 ∷ []) near_lock ≡ (cleared, signed_in alice)
unfolding admit get_ip_throttle get_login_attempt get_user succeed
signs_in = refl

near_lock-IsSafe : IsSafe near_lock
near_lock-IsSafe = ground arith

login-IsSafe_example : IsSafe (login_hashed bytes_eq 11 7 1000 1001 (9 ∷ []) near_lock).0
login-IsSafe_example = login-IsSafe bytes_eq 11 7 1000 1001 (9 ∷ []) near_lock near_lock-IsSafe
