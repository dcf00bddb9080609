-- ===== src/Mux/Heartbeat.antt =====
-- `MuxHeartbeat` of src/remote-mux-heartbeat.ts. A pending timer is the time at which it is due, and
-- a cancelled one is gone; the environment calls `on_interval`, `on_pong_timeout`,
-- `on_stall_timeout` and `on_probe_write_timeout`, also late. `now` is the monotonic clock at the
-- call. `pings` and `closes` list the nonces handed to `socket.ping` and the calls of `onClose`,
-- newest first. A probe's identity is `id`; `ping` is taken not to call back before it returns.
pub mod Invariant
pub mod Deadlines
pub mod Tests
use dsh_passwords.Prelude.{
  ℕ, ◌+◌, Bool, true, false, not, ◌&&◌, ◌||◌, Option, none, some, List, [], ◌∷◌, ◌==◌,
  if◌then◌else◌, is_some, bytes_eq,
}

abbrev pub mux_socket_open : ℕ
mux_socket_open = 1

pub data CloseSource : Type 0 where
  ping_timeout ping_send_failed write_stall : CloseSource

pub record Options : Type 0 where
  pub ping_interval_ms : ℕ
  pub pong_timeout_ms : ℕ
  pub write_stall_ms : ℕ

pub record Probe : Type 0 where
  pub id : ℕ
  pub generation : ℕ
  pub nonce : List ℕ
  pub queued_at : ℕ
  pub flushed_at : Option ℕ
  pub deadline : Option ℕ

pub record Heartbeat : Type 0 where
  pub generation : ℕ
  pub disposed : Bool
  pub probe : Option Probe
  pub last_pong_at : Option ℕ
  pub interval : Option ℕ
  pub stall : Option ℕ
  pub probe_write : Option ℕ
  pub busy : Bool
  pub next_id : ℕ
  pub pings : List (List ℕ)
  pub closes : List CloseSource

pub new_heartbeat : Heartbeat
new_heartbeat = record {
  generation = 0;
  disposed = false;
  probe = none;
  last_pong_at = none;
  interval = none;
  stall = none;
  probe_write = none;
  busy = false;
  next_id = 0;
  pings = [];
  closes = [];
}

-- What a call reads of the socket: `readyState`, and whether `ping` throws.
pub record Socket : Type 0 where
  pub ready_state : ℕ
  pub ping_throws : Bool

pub teardown : Heartbeat → Heartbeat
teardown h = if h.disposed then h else record h {
  disposed = true;
  generation = h.generation + 1;
  busy = false;
  interval = none;
  stall = none;
  probe = none;
  probe_write = none;
}

pub dispose : Heartbeat → Heartbeat
dispose h = teardown h

pub fail : CloseSource → Heartbeat → Heartbeat
fail source h =
    if h.disposed then h else (let t = teardown h in record t { closes = source ∷ t.closes })

pub arm_interval : Options → ℕ → Heartbeat → Heartbeat
arm_interval o now h = record h { interval = some (now + o.ping_interval_ms) }

pub start : Options → ℕ → Heartbeat → Heartbeat
start o now h = if h.disposed || is_some h.interval then h else arm_interval o now h

pub arm_stall : Options → ℕ → Heartbeat → Heartbeat
arm_stall o now h = record h { stall = some (now + o.write_stall_ms) }

pub arm_probe_write_deadline : Options → ℕ → Heartbeat → Heartbeat
arm_probe_write_deadline o now h = record h { probe_write = some (now + o.write_stall_ms) }

pub begin_probe : Options → Socket → List ℕ → ℕ → Heartbeat → Heartbeat
begin_probe o sock nonce now h =
    let p : Probe = record {
      id = h.next_id;
      generation = h.generation;
      nonce = nonce;
      queued_at = now;
      flushed_at = none;
      deadline = none;
    } in
    let armed =
      arm_probe_write_deadline o now (record h { probe = some p; next_id = h.next_id + 1 }) in
    if sock.ping_throws
    then fail ping_send_failed armed
    else record armed { pings = nonce ∷ armed.pings }

-- `tick`; `disposes` says that `onTick` disposes of this instance.
pub tick : Options → Socket → Bool → List ℕ → ℕ → Heartbeat → Heartbeat
tick o sock disposes nonce now h =
    if h.disposed
    then h
    else (let h' = if disposes then dispose h else h in
        if h'.disposed || is_some h'.probe || not (sock.ready_state == mux_socket_open)
        then h'
        else begin_probe o sock nonce now h')

-- The interval's callback: a tick, and the next interval unless that disposed of the instance.
pub on_interval : Options → Socket → Bool → List ℕ → ℕ → Heartbeat → Heartbeat
on_interval o sock disposes nonce now h =
    let t = tick o sock disposes nonce now (record h { interval = none }) in
    if t.disposed then t else arm_interval o now t

abbrev pub matches : List ℕ → Option Probe → Bool
matches payload none = false
matches payload (some p) = bytes_eq payload p.nonce

pub note_pong : List ℕ → ℕ → Heartbeat → Heartbeat
note_pong payload now h =
    if h.disposed || not (matches payload h.probe)
    then h
    else record h { probe_write = none; probe = none; last_pong_at = some now }

pub mark_busy : Options → ℕ → Heartbeat → Heartbeat
mark_busy o now h = if h.disposed || h.busy then h else arm_stall o now (record h { busy = true })

pub mark_idle : Heartbeat → Heartbeat
mark_idle h = if h.disposed then h else record h { busy = false; stall = none }

abbrev pub is_queued : Option Probe → Bool
is_queued none = false
is_queued (some p) = not (is_some p.flushed_at)

pub note_write_progress : Options → ℕ → Heartbeat → Heartbeat
note_write_progress o now h =
    if h.disposed
    then h
    else (let h' = if is_queued h.probe then arm_probe_write_deadline o now h else h in
        if h'.busy then arm_stall o now h' else h')

abbrev pub is_probe : ℕ → ℕ → Option Probe → Bool
is_probe id g none = false
is_probe id g (some p) = (p.id == id) && (p.generation == g)

abbrev pub set_flushed : Options → ℕ → Option Probe → Option Probe
set_flushed o now none = none
set_flushed o now (some p) =
    some (record p { flushed_at = some now; deadline = some (now + o.pong_timeout_ms) })

-- The write callback of the Ping of probe `id`; `failed` says that it carries an error.
pub on_ping_flushed : Options → ℕ → Bool → ℕ → Heartbeat → Heartbeat
on_ping_flushed o id failed now h =
    if h.disposed || not (is_probe id h.generation h.probe)
    then h
    else if failed
    then fail ping_send_failed h
    else record h { probe = set_flushed o now h.probe; probe_write = none }

pub on_pong_timeout : ℕ → Heartbeat → Heartbeat
on_pong_timeout id h =
    if h.disposed || not (is_probe id h.generation h.probe) then h else fail ping_timeout h

pub on_stall_timeout : Heartbeat → Heartbeat
on_stall_timeout h = if h.disposed || not h.busy then h else fail write_stall h

pub on_probe_write_timeout : ℕ → Heartbeat → Heartbeat
on_probe_write_timeout id h =
    if h.disposed || not (is_probe id h.generation h.probe) then h else fail write_stall h

pub data State : Type 0 where
  idle queued flushed : State

abbrev pub probe_state : Option Probe → State
probe_state none = idle
probe_state (some p) = if is_some p.flushed_at then flushed else queued

pub record Snapshot : Type 0 where
  pub state : State
  pub generation : ℕ
  pub queued_at : Option ℕ
  pub flushed_at : Option ℕ
  pub last_pong_at : Option ℕ
  pub stall_armed : Bool

pub snapshot : Heartbeat → Snapshot
snapshot h = record {
  state = probe_state h.probe;
  generation = h.generation;
  queued_at = elim h.probe [ none ↦ none | some p ↦ some p.queued_at ];
  flushed_at = elim h.probe [ none ↦ none | some p ↦ p.flushed_at ];
  last_pong_at = h.last_pong_at;
  stall_armed = is_some h.stall;
}
