-- ===== src/Timeline.antt =====
-- src/loading-timeline.ts: the observations of a `LoadingTimeline`. `enabled` is what the option or
-- the environment says at the call. A number is taken from a type `Num`, whose tests and rounding
-- are those of the language; the clock's readings are arguments, and so is what an observed function
-- does.
pub mod Records
pub mod Tests
use dsh_passwords.Prelude.{
  ℕ, Bool, true, false, not, ◌&&◌, ◌||◌, Option, none, some, List, [], ◌∷◌, ◌++◌, if◌then◌else◌,
  bytes_eq,
}
use dsh_passwords.Text.{codes, has_text}

abbrev pub stages : List (List ℕ)
stages =
    codes "mux.carrier.open"
    ∷ codes "mux.upstream.snapshot.prepare"
    ∷ codes "mux.session.follow.firstItem"
    ∷ codes "mux.terminal.follow.firstOutput"
    ∷ codes "mux.history.inFlightAtTerminalOutput"
    ∷ codes "baseline.wait"
    ∷ codes "http.history.firstByte"
    ∷ codes "http.history.complete"
    ∷ codes "http.page.firstByte"
    ∷ codes "http.page.complete"
    ∷ codes "gateway.history.parse"
    ∷ codes "gateway.history.filter"
    ∷ codes "gateway.history.stringify"
    ∷ codes "gateway.page.parse"
    ∷ codes "gateway.page.filter"
    ∷ codes "gateway.page.stringify"
    ∷ codes "gateway.eventLoop.delay"
    ∷ []

abbrev pub numeric_fields : List (List ℕ)
numeric_fields =
    codes "elapsedMs"
    ∷ codes "bytesIn"
    ∷ codes "bytesOut"
    ∷ codes "records"
    ∷ codes "count"
    ∷ codes "eventLoopDelayMs"
    ∷ codes "eventLoopDelayMaxMs"
    ∷ []

abbrev pub boolean_fields : List (List ℕ)
boolean_fields = codes "ok" ∷ codes "historyInFlight" ∷ []

-- The operations on numbers that the module uses.
pub record Arithmetic (Num : Type 0) : Type 0 where
  is_finite : Num → Bool
  round_to_cents : Num → Num
  minus : Num → Num → Num
  is_zero : Num → Bool

pub data Value (Num : Type 0) : Type 0 where
  number : Num → Value Num
  flag : Bool → Value Num
  text : List ℕ → Value Num
  other : Value Num

-- The fields of an object, the last one of a name first.
abbrev pub Fields : Type 0 → Type 0
Fields Num = List (List ℕ × Value Num)

-- A record: its stage, and its other fields in the order in which they are set.
pub record Entry (Num : Type 0) : Type 0 where
  stage : List ℕ
  fields : Fields Num

pub data Outcome (A : Type 0) : Type 0 where
  returned : A → Outcome A
  thrown : List ℕ → Outcome A

module _ {Num : Type 0} (a : Arithmetic Num) where
  abbrev pub get : List ℕ → Fields Num → Value Num
  get key [] = other
  get key ((k, v) ∷ fs) = let rest = get key fs in if bytes_eq k key then v else rest

  abbrev pub normalize_numeric : Value Num → Option Num
  normalize_numeric (number x) = if a.is_finite x then some (a.round_to_cents x) else none
  normalize_numeric _ = none

  abbrev pub set_number : List ℕ → Option Num → Fields Num → Fields Num
  set_number key none out = out
  set_number key (some x) out = (key, number x) ∷ out

  abbrev pub numeric_part : List (List ℕ) → Fields Num → Fields Num
  numeric_part [] fields = []
  numeric_part (key ∷ keys) fields =
      set_number key (normalize_numeric (get key fields)) (numeric_part keys fields)

  abbrev pub set_flag : List ℕ → Value Num → Fields Num → Fields Num
  set_flag key (flag b) out = (key, flag b) ∷ out
  set_flag key _ out = out

  abbrev pub boolean_part : List (List ℕ) → Fields Num → Fields Num
  boolean_part [] fields = []
  boolean_part (key ∷ keys) fields = set_flag key (get key fields) (boolean_part keys fields)

  abbrev pub entry_of : List ℕ → Fields Num → Entry Num
  entry_of stage fields = record {
    stage = stage;
    fields = numeric_part numeric_fields fields ++ boolean_part boolean_fields fields;
  }

  pub push : List ℕ → Fields Num → List (Entry Num) → List (Entry Num)
  push stage fields records =
      if has_text stage stages then records ++ entry_of stage fields ∷ [] else records

  pub mark : Bool → List ℕ → Fields Num → List (Entry Num) → List (Entry Num)
  mark enabled stage fields records = if enabled then push stage fields records else records

  abbrev pub since : Num → Num → Fields Num → Fields Num
  since start now fields = (codes "elapsedMs", number (a.minus now start)) ∷ fields

  pub elapsed : Bool → List ℕ → Num → Num → Fields Num → List (Entry Num) → List (Entry Num)
  elapsed enabled stage start now fields records =
      if a.is_zero start || not enabled
      then records
      else push stage (since start now fields) records

  abbrev pub failed : Fields Num
  failed = (codes "ok", flag false) ∷ []

  -- What a span records when the sample of a returned value is there, and when an error is thrown.
  abbrev pub span_sampled :
      {A : Type 0}
      → List ℕ
      → Num
      → Num
      → A
      → Outcome (Fields Num)
      → List (Entry Num)
      → Outcome A × List (Entry Num)
  span_sampled stage start now value (returned fields) records =
      (returned value, push stage (since start now fields) records)
  span_sampled stage start now value (thrown error) records =
      (thrown error, push stage (since start now failed) records)

  abbrev pub span_enabled :
      {A : Type 0}
      → List ℕ
      → Num
      → Num
      → Outcome A
      → (A → Outcome (Fields Num))
      → List (Entry Num)
      → Outcome A × List (Entry Num)
  span_enabled stage start now (returned value) sample records =
      span_sampled stage start now value (sample value) records
  span_enabled stage start now (thrown error) sample records =
      (thrown error, push stage (since start now failed) records)

  -- `spanSync`; without a sample function, `sample` returns no field.
  pub span_sync :
      {A : Type 0}
      → Bool
      → List ℕ
      → Num
      → Num
      → Outcome A
      → (A → Outcome (Fields Num))
      → List (Entry Num)
      → Outcome A × List (Entry Num)
  span_sync enabled stage start now fn sample records =
      if enabled then span_enabled stage start now fn sample records else (fn, records)

  pub data Call : Type 0 where
    mark_call : Bool → List ℕ → Fields Num → Call
    elapsed_call : Bool → List ℕ → Num → Num → Fields Num → Call
    span_call : Bool → List ℕ → Num → Num → Outcome ℕ → (ℕ → Outcome (Fields Num)) → Call
    reset_call : Call

  pub call : Call → List (Entry Num) → List (Entry Num)
  call (mark_call enabled stage fields) records = mark enabled stage fields records
  call (elapsed_call enabled stage start now fields) records =
      elapsed enabled stage start now fields records
  call (span_call enabled stage start now fn sample) records =
      (span_sync enabled stage start now fn sample records).1
  call reset_call records = []

  pub run : List Call → List (Entry Num) → List (Entry Num)
  run [] records = records
  run (c ∷ cs) records = run cs (call c records)
