-- ===== src/Mux/Diagnostics/Carrier.antt =====
-- The state of one carrier's diagnostics in src/remote-mux-diagnostics.ts, its observations, its
-- close, and the handle that the proxy keeps.
pub mod Close
pub mod Tests
use dsh_passwords.Prelude.{
  ℕ, Bool, true, false, Option, none, some, List, [], ◌∷◌, ◌++◌, is_some, if◌then◌else◌,
}
use dsh_passwords.Mux.Diagnostics.{
  Value, text, natural, fraction, negative, not_finite, truth, other, CloseSource, Direction,
  ProbeState, idle, StallKind, no_stall, RejectKind, SenderDirection, normalize_counter,
  normalize_carrier_id, normalize_close_source, normalize_direction, normalize_close_code,
  normalize_probe_state, normalize_stall_kind, normalize_sender_direction, normalize_reject_kind,
}

pub record SenderObservation : Type 0 where
  queued_messages : Option Value
  queued_bytes : Option Value
  accepted_bytes_seen : Option Value
  in_flight : Option Value
  buffered_amount : Option Value

pub record RejectObservation : Type 0 where
  direction : Option Value
  kind : Option Value
  message_size : Option Value

-- `reject` is absent, `null` or an observation.
pub record CarrierObservation : Type 0 where
  buffered_bytes : Option Value
  pending_bytes : Option Value
  streams : Option Value
  probe : Option Value
  probe_elapsed_ms : Option Value
  stall : Option Value
  stall_elapsed_ms : Option Value
  client_sender : Option SenderObservation
  upstream_sender : Option SenderObservation
  reject : Option (Option RejectObservation)

pub record SenderRecord : Type 0 where
  queued_messages : ℕ
  queued_bytes : ℕ
  accepted_bytes_seen : ℕ
  in_flight : Bool
  buffered_amount : ℕ

pub record RejectRecord : Type 0 where
  direction : SenderDirection
  kind : RejectKind
  message_size : ℕ

-- The fields that the state and the terminal record share.
pub record Sample : Type 0 where
  carrier : List ℕ
  buffered_bytes : ℕ
  pending_bytes : ℕ
  streams : ℕ
  probe : ProbeState
  probe_elapsed_ms : ℕ
  stall : StallKind
  stall_elapsed_ms : ℕ
  client_sender : SenderRecord
  upstream_sender : SenderRecord
  reject : Option RejectRecord

pub record CloseRecord : Type 0 where
  source : CloseSource
  leg : Direction
  code : ℕ
  sample : Sample

pub record DiagnosticsState : Type 0 where
  sample : Sample
  close : Option CloseRecord

pub record CloseInput : Type 0 where
  source : Option Value
  leg : Option Value
  code : Option Value
  observation : CarrierObservation

abbrev pub no_sender : SenderRecord
no_sender = record {
  queued_messages = 0;
  queued_bytes = 0;
  accepted_bytes_seen = 0;
  in_flight = false;
  buffered_amount = 0;
}

pub create_diagnostics : Value → DiagnosticsState
create_diagnostics carrier = record {
  sample = record {
    carrier = normalize_carrier_id carrier;
    buffered_bytes = 0;
    pending_bytes = 0;
    streams = 0;
    probe = idle;
    probe_elapsed_ms = 0;
    stall = no_stall;
    stall_elapsed_ms = 0;
    client_sender = no_sender;
    upstream_sender = no_sender;
    reject = none;
  };
  close = none;
}

-- A key that is absent keeps the previous value.
abbrev pub update {ℓ κ} : {A : Type ℓ} {B : Type κ} → (B → A) → A → Option B → A
update f old none = old
update f old (some v) = f v

-- A value that is absent is `undefined`, which every normalizer reads as it reads `other`.
abbrev pub read : Option Value → Value
read none = other
read (some v) = v

abbrev pub is_true : Value → Bool
is_true (truth b) = b
is_true v = false

pub normalize_sender_observation : SenderObservation → SenderRecord → SenderRecord
normalize_sender_observation value previous = record {
  queued_messages = update normalize_counter (previous.queued_messages) (value.queued_messages);
  queued_bytes = update normalize_counter (previous.queued_bytes) (value.queued_bytes);
  accepted_bytes_seen =
      update normalize_counter (previous.accepted_bytes_seen) (value.accepted_bytes_seen);
  in_flight = update is_true (previous.in_flight) (value.in_flight);
  buffered_amount = update normalize_counter (previous.buffered_amount) (value.buffered_amount);
}

pub normalize_reject_observation : RejectObservation → RejectRecord
normalize_reject_observation value = record {
  direction = normalize_sender_direction (read (value.direction));
  kind = normalize_reject_kind (read (value.kind));
  message_size = normalize_counter (read (value.message_size));
}

abbrev pub update_sender : SenderRecord → Option SenderObservation → SenderRecord
update_sender previous o = update (λ v. normalize_sender_observation v previous) previous o

abbrev pub reject_of : Option RejectObservation → Option RejectRecord
reject_of none = none
reject_of (some v) = some (normalize_reject_observation v)

pub observe_sample : Sample → CarrierObservation → Sample
observe_sample s o = record {
  carrier = s.carrier;
  buffered_bytes = update normalize_counter (s.buffered_bytes) (o.buffered_bytes);
  pending_bytes = update normalize_counter (s.pending_bytes) (o.pending_bytes);
  streams = update normalize_counter (s.streams) (o.streams);
  probe = update normalize_probe_state (s.probe) (o.probe);
  probe_elapsed_ms = update normalize_counter (s.probe_elapsed_ms) (o.probe_elapsed_ms);
  stall = update normalize_stall_kind (s.stall) (o.stall);
  stall_elapsed_ms = update normalize_counter (s.stall_elapsed_ms) (o.stall_elapsed_ms);
  client_sender = update_sender (s.client_sender) (o.client_sender);
  upstream_sender = update_sender (s.upstream_sender) (o.upstream_sender);
  reject = update reject_of (s.reject) (o.reject);
}

pub observe_carrier : DiagnosticsState → CarrierObservation → DiagnosticsState
observe_carrier state o = record { sample = observe_sample (state.sample) o; close = state.close }

-- The first close is recorded, with what is observed then.
pub record_close : DiagnosticsState → CloseInput → DiagnosticsState
record_close state input =
    if is_some (state.close)
    then state
    else let sample = observe_sample (state.sample) (input.observation) in
      record {
        sample = sample;
        close = some (record {
          source = normalize_close_source (read (input.source));
          leg = normalize_direction (read (input.leg));
          code = normalize_close_code (read (input.code));
          sample = sample;
        });
      }

pub data Call : Type 0 where
  observe : CarrierObservation → Call
  close_call : CloseInput → Call

-- A call of the handle: the state after it, and the record that it returns.
pub call : Call → DiagnosticsState → DiagnosticsState × Option CloseRecord
call (observe o) state = (observe_carrier state o, none)
call (close_call input) state =
    let next = record_close state input in
    if is_some (state.close) then (next, none) else (next, next.close)

abbrev pub to_list {ℓ} : {A : Type ℓ} → Option A → List A
to_list none = []
to_list (some a) = a ∷ []

-- The calls of one handle in their order: the last state, and all that they return.
pub run : List Call → DiagnosticsState → DiagnosticsState × List CloseRecord
run [] state = (state, [])
run (c ∷ cs) state =
    let (next, out) = call c state in let (last, rest) = run cs next in (last, to_list out ++ rest)
