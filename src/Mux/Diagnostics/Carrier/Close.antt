-- ===== src/Mux/Diagnostics/Carrier/Close.antt =====
-- The terminal record of src/remote-mux-diagnostics.ts is latched and its counters are bounded.
use dsh_passwords.Prelude.{
  ℕ, ◌≤◌, ◌≡◌, refl, ap, Option, none, some, List, [], ◌∷◌, arith, if_cases, is_some,
}
use dsh_passwords.Mux.Diagnostics.{
  Value, text, natural, fraction, negative, not_finite, truth, other, normalize_counter,
  max_safe_integer, normalize_close_source, normalize_direction, normalize_close_code,
}
use dsh_passwords.Mux.Diagnostics.Carrier.{
  SenderObservation, RejectObservation, CarrierObservation, SenderRecord, RejectRecord, Sample,
  CloseRecord, DiagnosticsState, CloseInput, create_diagnostics, update, update_sender, reject_of,
  normalize_sender_observation, normalize_reject_observation, observe_sample, observe_carrier,
  record_close, Call, observe, close_call, call, to_list, run, read,
}

-- The record of a close, for what was observed before it.
abbrev pub terminal : CloseInput → Sample → CloseRecord
terminal input seen = record {
  source = normalize_close_source (read (input.source));
  leg = normalize_direction (read (input.leg));
  code = normalize_close_code (read (input.code));
  sample = observe_sample seen (input.observation);
}

-- What is observed before the first close, with what is observed at it, makes the record that is
-- due; without a close there is none.
abbrev pub first_close : List Call → Sample → Option CloseRecord
first_close [] seen = none
first_close (observe o ∷ cs) seen = first_close cs (observe_sample seen o)
first_close (close_call input ∷ cs) seen = some (terminal input seen)

-- A closed state returns nothing any more and keeps its record.
run_closed :
    (cs : List Call) (state : DiagnosticsState) (r : CloseRecord)
    → state.close ≡ some r
    → ((run cs state).1 ≡ []) × ((run cs state).0.close ≡ some r)
unfolding run call observe_carrier record_close
run_closed [] state r e = (refl, e)
run_closed (observe o ∷ cs) state r e = run_closed cs (observe_carrier state o) r e
run_closed (close_call input ∷ cs) state r e =
    let (h, k) = run_closed cs state r e in (simp e h, simp e k)

run_open :
    (cs : List Call) (state : DiagnosticsState)
    → state.close ≡ none
    → ((run cs state).1 ≡ to_list (first_close cs state.sample))
      × ((run cs state).0.close ≡ first_close cs state.sample)
unfolding run call observe_carrier record_close
run_open [] state e = (refl, e)
run_open (observe o ∷ cs) state e = run_open cs (observe_carrier state o) e
run_open (close_call input ∷ cs) state e =
    let latched : DiagnosticsState = record {
      sample = observe_sample (state.sample) (input.observation);
      close = some (terminal input state.sample);
    } in
    let (h, k) = run_closed cs latched (terminal input state.sample) refl in
    (simp e (ap (λ l. terminal input state.sample ∷ l) h), simp e k)

-- Whatever calls a new handle gets, all that they return together is the record of the first close,
-- once, and nothing without a close; this record is also what is kept in the end. It has what was
-- observed up to that close, and no later call changes it.
pub run_lem :
    (carrier : Value) (cs : List Call)
    → ((run cs (create_diagnostics carrier)).1
        ≡ to_list (first_close cs (create_diagnostics carrier).sample))
      × ((run cs (create_diagnostics carrier)).0.close
          ≡ first_close cs (create_diagnostics carrier).sample)
unfolding create_diagnostics
run_lem carrier cs = run_open cs (create_diagnostics carrier) refl

-- A safe integer.
abbrev pub IsCount : ℕ → Type 0
IsCount n = n ≤ max_safe_integer

abbrev pub IsBoundedSender : SenderRecord → Type 0
IsBoundedSender s =
    IsCount (s.queued_messages)
    × IsCount (s.queued_bytes)
    × IsCount (s.accepted_bytes_seen)
    × IsCount (s.buffered_amount)

abbrev pub IsBoundedReject : Option RejectRecord → Type 0
IsBoundedReject none = Unit
IsBoundedReject (some r) = IsCount (r.message_size)

-- Every counter is a safe integer.
abbrev pub IsBoundedSample : Sample → Type 0
IsBoundedSample s =
    (IsCount (s.buffered_bytes)
      × IsCount (s.pending_bytes)
      × IsCount (s.streams)
      × IsCount (s.probe_elapsed_ms)
      × IsCount (s.stall_elapsed_ms))
    × IsBoundedSender (s.client_sender)
    × IsBoundedSender (s.upstream_sender)
    × IsBoundedReject (s.reject)

normalize_counter-IsCount : (v : Value) → IsCount (normalize_counter v)
unfolding normalize_counter
normalize_counter-IsCount (natural n) = omega arith
normalize_counter-IsCount (fraction n) = omega arith
normalize_counter-IsCount (text s) = omega arith
normalize_counter-IsCount negative = omega arith
normalize_counter-IsCount not_finite = omega arith
normalize_counter-IsCount (truth b) = omega arith
normalize_counter-IsCount other = omega arith

update_counter : (n : ℕ) (o : Option Value) → IsCount n → IsCount (update normalize_counter n o)
update_counter n none h = h
update_counter n (some v) h = normalize_counter-IsCount v

update_sender-IsBoundedSender :
    (s : SenderRecord) (o : Option SenderObservation)
    → IsBoundedSender s
    → IsBoundedSender (update_sender s o)
unfolding normalize_sender_observation
update_sender-IsBoundedSender s none h = h
update_sender-IsBoundedSender s (some o) (a, b, c, d) = (
  update_counter (s.queued_messages) (o.queued_messages) a,
  update_counter (s.queued_bytes) (o.queued_bytes) b,
  update_counter (s.accepted_bytes_seen) (o.accepted_bytes_seen) c,
  update_counter (s.buffered_amount) (o.buffered_amount) d,
)

update_reject-IsBoundedReject :
    (r : Option RejectRecord) (o : Option (Option RejectObservation))
    → IsBoundedReject r
    → IsBoundedReject (update reject_of r o)
unfolding normalize_reject_observation
update_reject-IsBoundedReject r none h = h
update_reject-IsBoundedReject r (some none) h = tt
update_reject-IsBoundedReject r (some (some v)) h =
    normalize_counter-IsCount (read (v.message_size))

observe_sample-IsBoundedSample :
    (s : Sample) (o : CarrierObservation) → IsBoundedSample s → IsBoundedSample (observe_sample s o)
unfolding observe_sample
observe_sample-IsBoundedSample s o ((a, b, c, d, e), f, g, h) = (
  (
    update_counter (s.buffered_bytes) (o.buffered_bytes) a,
    update_counter (s.pending_bytes) (o.pending_bytes) b,
    update_counter (s.streams) (o.streams) c,
    update_counter (s.probe_elapsed_ms) (o.probe_elapsed_ms) d,
    update_counter (s.stall_elapsed_ms) (o.stall_elapsed_ms) e,
  ),
  update_sender-IsBoundedSender (s.client_sender) (o.client_sender) f,
  update_sender-IsBoundedSender (s.upstream_sender) (o.upstream_sender) g,
  update_reject-IsBoundedReject (s.reject) (o.reject) h,
)

abbrev pub IsBoundedClose : Option CloseRecord → Type 0
IsBoundedClose none = Unit
IsBoundedClose (some r) = IsBoundedSample (r.sample)

abbrev pub IsBoundedState : DiagnosticsState → Type 0
IsBoundedState st = IsBoundedSample (st.sample) × IsBoundedClose (st.close)

record_close-IsBoundedState :
    (input : CloseInput) (st : DiagnosticsState)
    → IsBoundedState st
    → IsBoundedState (record_close st input)
unfolding record_close
record_close-IsBoundedState input st (h, k) =
    let g = observe_sample-IsBoundedSample (st.sample) (input.observation) h in
    if_cases IsBoundedState (is_some (st.close)) (λ _. (h, k)) (λ _. (g, g))

call-IsBoundedState :
    (c : Call) (st : DiagnosticsState) → IsBoundedState st → IsBoundedState ((call c st).0)
unfolding call observe_carrier
call-IsBoundedState (observe o) st (h, k) = (observe_sample-IsBoundedSample (st.sample) o h, k)
call-IsBoundedState (close_call input) st h =
    if_cases (λ (r : DiagnosticsState × Option CloseRecord). IsBoundedState (r.0))
      (is_some (st.close)) (λ _. record_close-IsBoundedState input st h)
      (λ _. record_close-IsBoundedState input st h)

run-IsBoundedState :
    (cs : List Call) (st : DiagnosticsState) → IsBoundedState st → IsBoundedState ((run cs st).0)
unfolding run
run-IsBoundedState [] st h = h
run-IsBoundedState (c ∷ cs) st h =
    run-IsBoundedState cs ((call c st).0) (call-IsBoundedState c st h)

create_diagnostics-IsBoundedState : (carrier : Value) → IsBoundedState (create_diagnostics carrier)
unfolding create_diagnostics
create_diagnostics-IsBoundedState carrier =
    let z : IsCount 0 = omega arith in (((z, z, z, z, z), (z, z, z, z), (z, z, z, z), tt), tt)

-- What the calls of a new handle return is bounded: whatever values are passed, every counter of a
-- returned record is at most 2^53 - 1.
pub run-IsBoundedClose :
    (carrier : Value) (cs : List Call)
    → IsBoundedClose ((run cs (create_diagnostics carrier)).0.close)
run-IsBoundedClose carrier cs =
    (run-IsBoundedState cs (create_diagnostics carrier)
      (create_diagnostics-IsBoundedState carrier)).1
