-- ===== src/Timeline/Records.antt =====
-- The records of src/loading-timeline.ts hold listed names, numbers and Booleans only, and observing
-- a function does not change what it does.
use dsh_passwords.Prelude.{
  ℕ, ◌≡◌, refl, Bool, true, false, not, ◌||◌, Option, none, some, List, [], ◌∷◌, All, All-append,
  if_cases,
}
use dsh_passwords.Text.{has_text}
use dsh_passwords.Timeline.{
  stages, numeric_fields, boolean_fields, Arithmetic, Value, number, flag, text, other, Fields,
  Entry, Outcome, returned, thrown, get, normalize_numeric, set_number, numeric_part, set_flag,
  boolean_part, entry_of, push, mark, elapsed, since, failed, span_sync, span_enabled, span_sampled,
  Call, mark_call, elapsed_call, span_call, reset_call, call, run,
}

-- A field that may stand in a record: a listed number or a listed Boolean.
abbrev pub IsListed : {Num : Type 0} → List ℕ × Value Num → Type 0
IsListed (k, number x) = has_text k numeric_fields ≡ true
IsListed (k, flag b) = has_text k boolean_fields ≡ true
IsListed (k, text s) = ⊥
IsListed (k, other) = ⊥

abbrev pub IsSafe : {Num : Type 0} → Entry Num → Type 0
IsSafe e = (has_text (e.stage) stages ≡ true) × All IsListed (e.fields)

module _ {Num : Type 0} (a : Arithmetic Num) where
  set_number-IsListed :
      (key : List ℕ) (x : Option Num) (out : Fields Num)
      → has_text key numeric_fields ≡ true
      → All IsListed out
      → All IsListed (set_number a key x out)
  set_number-IsListed key none out k h = h
  set_number-IsListed key (some x) out k h = (k, h)

  numeric_part-IsListed :
      (keys : List (List ℕ)) (fields : Fields Num)
      → All (λ key. has_text key numeric_fields ≡ true) keys
      → All IsListed (numeric_part a keys fields)
  numeric_part-IsListed [] fields h = tt
  numeric_part-IsListed (key ∷ keys) fields (k, ks) =
      set_number-IsListed key (normalize_numeric a (get a key fields)) (numeric_part a keys fields)
        k (numeric_part-IsListed keys fields ks)

  set_flag-IsListed :
      (key : List ℕ) (v : Value Num) (out : Fields Num)
      → has_text key boolean_fields ≡ true
      → All IsListed out
      → All IsListed (set_flag a key v out)
  set_flag-IsListed key (flag b) out k h = (k, h)
  set_flag-IsListed key (number x) out k h = h
  set_flag-IsListed key (text s) out k h = h
  set_flag-IsListed key other out k h = h

  boolean_part-IsListed :
      (keys : List (List ℕ)) (fields : Fields Num)
      → All (λ key. has_text key boolean_fields ≡ true) keys
      → All IsListed (boolean_part a keys fields)
  boolean_part-IsListed [] fields h = tt
  boolean_part-IsListed (key ∷ keys) fields (k, ks) =
      set_flag-IsListed key (get a key fields) (boolean_part a keys fields) k
        (boolean_part-IsListed keys fields ks)

  entry_of-IsListed :
      (stage : List ℕ) (fields : Fields Num) → All IsListed ((entry_of a stage fields).fields)
  unfolding has_text
  entry_of-IsListed stage fields =
      All-append IsListed (numeric_part a numeric_fields fields)
        (boolean_part a boolean_fields fields)
        (numeric_part-IsListed numeric_fields fields
          (refl, (refl, (refl, (refl, (refl, (refl, (refl, tt))))))))
        (boolean_part-IsListed boolean_fields fields (refl, (refl, tt)))

  push-IsSafe :
      (stage : List ℕ) (fields : Fields Num) (records : List (Entry Num))
      → All IsSafe records
      → All IsSafe (push a stage fields records)
  unfolding push
  push-IsSafe stage fields records h =
      if_cases (All IsSafe) (has_text stage stages)
        (λ e.
          All-append IsSafe records (entry_of a stage fields ∷ []) h
            ((e, entry_of-IsListed stage fields), tt))
        (λ _. h)

  span_enabled-IsSafe :
      {A : Type 0} (stage : List ℕ) (start now : Num) (fn : Outcome A)
      (sample : A → Outcome (Fields Num)) (records : List (Entry Num))
      → All IsSafe records
      → All IsSafe ((span_enabled a stage start now fn sample records).1)
  span_enabled-IsSafe stage start now (thrown error) sample records h =
      push-IsSafe stage (since a start now (failed a)) records h
  span_enabled-IsSafe stage start now (returned value) sample records h =
      elim (sample value)
        as (λ o. All IsSafe ((span_sampled a stage start now value o records).1)) [
          | returned fields ↦ push-IsSafe stage (since a start now fields) records h
          | thrown error ↦ push-IsSafe stage (since a start now (failed a)) records h
        ]

  call-IsSafe :
      (c : Call a) (records : List (Entry Num)) → All IsSafe records → All IsSafe (call a c records)
  unfolding call mark elapsed span_sync
  call-IsSafe (mark_call enabled stage fields) records h =
      if_cases (All IsSafe) enabled (λ _. push-IsSafe stage fields records h) (λ _. h)
  call-IsSafe (elapsed_call enabled stage start now fields) records h =
      if_cases (All IsSafe) (a.is_zero start || not enabled) (λ _. h)
        (λ _. push-IsSafe stage (since a start now fields) records h)
  call-IsSafe (span_call enabled stage start now fn sample) records h =
      if_cases (λ (r : Outcome ℕ × List (Entry Num)). All IsSafe (r.1)) enabled
        (λ _. span_enabled-IsSafe stage start now fn sample records h) (λ _. h)
  call-IsSafe reset_call records h = tt

  run-keeps :
      (cs : List (Call a)) (records : List (Entry Num))
      → All IsSafe records
      → All IsSafe (run a cs records)
  unfolding run
  run-keeps [] records h = h
  run-keeps (c ∷ cs) records h = run-keeps cs (call a c records) (call-IsSafe c records h)

  -- Whatever is passed to a new timeline, its records hold a listed stage, listed numbers and listed
  -- Booleans, and no other text.
  pub run-IsSafe : (cs : List (Call a)) → All IsSafe (run a cs [])
  run-IsSafe cs = run-keeps cs [] tt

  -- A span gives back what the function does, enabled or not, if the sample of a value does not throw.
  pub span_sync-same :
      {A : Type 0} (enabled : Bool) (stage : List ℕ) (start now : Num) (fn : Outcome A)
      (sample : A → Fields Num) (records : List (Entry Num))
      → (span_sync a enabled stage start now fn (λ x. returned (sample x)) records).0 ≡ fn
  unfolding span_sync
  span_sync-same true stage start now (returned value) sample records = refl
  span_sync-same true stage start now (thrown error) sample records = refl
  span_sync-same false stage start now fn sample records = refl
