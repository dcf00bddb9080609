-- ===== src/Store/Usage.antt =====
-- The usage of a day in src/db.ts: `touchUsage`, `addTokens`, `resetUsage` and `getUsage`. A time is
-- in milliseconds, as `getTime` gives it.
pub mod Credible
use dsh_passwords.Prelude.{
  ℕ, zero, suc, ◌+◌, ◌-◌, ◌*◌, ◌/◌, ◌≤◌, ◌<◌, ◌≡◌, refl, min, Bool, true, false, ◌&&◌, Option, none,
  some, List, [], ◌∷◌, ◌++◌, ◌==◌, leb, ltb, if◌then◌else◌, bytes_eq, arith, All, All-append,
  Bool-cases, inl, inr, if_cases,
}

pub record UsageRow : Type 0 where
  pub user_id : ℕ
  pub day : List ℕ
  pub first_seen_at : ℕ
  pub last_active_at : Option ℕ
  pub active_seconds : ℕ
  pub hourly_window_start : Option ℕ
  pub hourly_tokens : ℕ

abbrev pub is_of : ℕ → List ℕ → UsageRow → Bool
is_of u day r = r.user_id == u && bytes_eq r.day day

unfoldable pub get_usage : ℕ → List ℕ → List UsageRow → Option UsageRow
get_usage u day [] = none
get_usage u day (r ∷ l) = if is_of u day r then some r else get_usage u day l

-- `UPDATE user_usage SET … WHERE user_id = ? AND day = ?`.
abbrev pub update_usage : ℕ → List ℕ → (UsageRow → UsageRow) → List UsageRow → List UsageRow
update_usage u day f [] = []
update_usage u day f (r ∷ l) = (if is_of u day r then f r else r) ∷ update_usage u day f l

abbrev pub new_usage : ℕ → List ℕ → ℕ → ℕ → UsageRow
new_usage u day tokens now = record {
  user_id = u;
  day = day;
  first_seen_at = now;
  last_active_at = some now;
  active_seconds = 0;
  hourly_window_start = some now;
  hourly_tokens = tokens;
}

-- `Math.round(Math.min((now - last) / 1000, 30))` where `now` is later.
abbrev pub active_delta : ℕ → Option ℕ → ℕ
active_delta now none = 0
active_delta now (some last) = if ltb last now then (min (now - last) 30000 + 500) / 1000 else 0

abbrev pub touched : ℕ → ℕ → UsageRow → UsageRow
touched now delta r = record r {
  last_active_at = some now;
  active_seconds = r.active_seconds + delta;
}

abbrev pub touch_found : ℕ → List ℕ → ℕ → List UsageRow → Option UsageRow → List UsageRow
touch_found u day now l none = l ++ new_usage u day 0 now ∷ []
touch_found u day now l (some r) =
    update_usage u day (touched now (active_delta now r.last_active_at)) l

unfoldable pub touch_usage : ℕ → List ℕ → ℕ → List UsageRow → List UsageRow
touch_usage u day now l = touch_found u day now l (get_usage u day l)

abbrev pub start_or : ℕ → Option ℕ → ℕ
start_or now none = now
start_or now (some start) = start

abbrev pub counted : ℕ → ℕ → UsageRow → UsageRow → UsageRow
counted tokens now found r =
    if leb 3600000 (now - start_or now found.hourly_window_start)
    then record r { hourly_window_start = some now; hourly_tokens = tokens }
    else record r { hourly_tokens = r.hourly_tokens + tokens }

abbrev pub tokens_found : ℕ → List ℕ → ℕ → ℕ → List UsageRow → Option UsageRow → List UsageRow
tokens_found u day tokens now l none = l ++ new_usage u day tokens now ∷ []
tokens_found u day tokens now l (some r) = update_usage u day (counted tokens now r) l

unfoldable pub add_tokens : ℕ → List ℕ → ℕ → ℕ → List UsageRow → List UsageRow
add_tokens u day tokens now l = tokens_found u day tokens now l (get_usage u day l)

unfoldable pub reset_usage : ℕ → List UsageRow → List UsageRow
reset_usage u [] = []
reset_usage u (r ∷ l) = let rest = reset_usage u l in if r.user_id == u then rest else r ∷ rest
