-- ===== src/Mux/Heartbeat/Invariant.antt =====
-- What holds of a heartbeat of src/remote-mux-heartbeat.ts between two calls.
use dsh_passwords.Prelude.{
  ℕ, ◌+◌, ◌≡◌, ◌≤◌, Bool, true, false, not, ◌||◌, Option, none, some, List, [], ◌==◌, ◌⊎◌,
  if◌then◌else◌, is_some, arith, length, if_cases,
}
use dsh_passwords.Mux.Heartbeat
use dsh_passwords.Mux.Heartbeat.{
  Heartbeat, Probe, Options, Socket, new_heartbeat, teardown, dispose, fail, start, arm_interval,
  arm_stall, arm_probe_write_deadline, begin_probe, tick, on_interval, note_pong, mark_busy,
  mark_idle, note_write_progress, on_ping_flushed, on_pong_timeout, on_stall_timeout,
  on_probe_write_timeout, is_queued, mux_socket_open,
}

-- Exactly one deadline watches a pending probe: the write deadline until its Ping is flushed,
-- and from then on its own Pong deadline, counted from the flush.
abbrev pub Watched : Options → ℕ → Option Probe → Option ℕ → Type 0
Watched o g none w = w ≡ none
Watched o g (some p) w =
    (p.generation ≡ g)
    × (((p.flushed_at ≡ none) × (p.deadline ≡ none) × (is_some w ≡ true))
        ⊎ ((t : ℕ) × (p.flushed_at ≡ some t)
            × (p.deadline ≡ some (t + o.pong_timeout_ms))
            × (w ≡ none)))

abbrev pub IsClosed : Heartbeat → Type 0
IsClosed h =
    (h.probe ≡ none)
    × (h.interval ≡ none)
    × (h.stall ≡ none)
    × (h.busy ≡ false)
    × (h.probe_write ≡ none)

pub record IsSound (o : Options) (h : Heartbeat) : Type 0 where
  pub watched : Watched o h.generation h.probe h.probe_write
  pub stall_iff : is_some h.stall ≡ h.busy
  pub shut : (h.disposed ≡ false) ⊎ IsClosed h
  pub once :
      ((h.disposed ≡ false) × (h.closes ≡ [])) ⊎ ((h.disposed ≡ true) × (length h.closes ≤ 1))

module _ (o : Options) where
  fail-IsSound : (c : Heartbeat.CloseSource) (h : Heartbeat) → IsSound o h → IsSound o (fail c h)
  unfolding fail teardown
  fail-IsSound c h s = ground arith

  note_pong-IsSound :
      (payload : List ℕ) (now : ℕ) (h : Heartbeat)
      → IsSound o h
      → IsSound o (note_pong payload now h)
  unfolding note_pong
  note_pong-IsSound payload now h s = ground arith

  begin_probe-IsSound :
      (sock : Socket) (nonce : List ℕ) (now : ℕ) (h : Heartbeat)
      → h.disposed ≡ false
      → IsSound o h
      → IsSound o (begin_probe o sock nonce now h)
  unfolding begin_probe arm_probe_write_deadline fail teardown
  begin_probe-IsSound sock nonce now h n s = ground arith

  dispose-IsSound : (h : Heartbeat) → IsSound o h → IsSound o (dispose h)
  unfolding dispose teardown
  dispose-IsSound h s = ground arith

  tick-IsSound :
      (sock : Socket) (d : Bool) (nonce : List ℕ) (now : ℕ) (h : Heartbeat)
      → IsSound o h
      → IsSound o (tick o sock d nonce now h)
  unfolding tick
  tick-IsSound sock d nonce now h s =
      if_cases (IsSound o) h.disposed (λ _. s)
        (λ n.
          if_cases (IsSound o)
            ((if d then dispose h else h).disposed
              || is_some (if d then dispose h else h).probe
              || not (sock.ready_state == mux_socket_open))
            (λ _. after) (λ z. begin_probe-IsSound sock nonce now _ (ground arith) after))
    where
      after : IsSound o (if d then dispose h else h)
      after = if_cases (IsSound o) d (λ _. dispose-IsSound h s) (λ _. s)

  on_interval-IsSound :
      (sock : Socket) (d : Bool) (nonce : List ℕ) (now : ℕ) (h : Heartbeat)
      → IsSound o h
      → IsSound o (on_interval o sock d nonce now h)
  unfolding on_interval arm_interval
  on_interval-IsSound sock d nonce now h s =
      let t : IsSound o (tick o sock d nonce now (record h { interval = none })) =
        tick-IsSound sock d nonce now _ (ground arith) in
      ground arith

  start-IsSound : (now : ℕ) (h : Heartbeat) → IsSound o h → IsSound o (start o now h)
  unfolding start arm_interval
  start-IsSound now h s = ground arith

  mark_busy-IsSound : (now : ℕ) (h : Heartbeat) → IsSound o h → IsSound o (mark_busy o now h)
  unfolding mark_busy arm_stall
  mark_busy-IsSound now h s = ground arith

  mark_idle-IsSound : (h : Heartbeat) → IsSound o h → IsSound o (mark_idle h)
  unfolding mark_idle
  mark_idle-IsSound h s = ground arith

  note_write_progress-IsSound :
      (now : ℕ) (h : Heartbeat) → IsSound o h → IsSound o (note_write_progress o now h)
  unfolding note_write_progress arm_stall arm_probe_write_deadline
  note_write_progress-IsSound now h s = ground arith

  on_ping_flushed-IsSound :
      (id : ℕ) (failed : Bool) (now : ℕ) (h : Heartbeat)
      → IsSound o h
      → IsSound o (on_ping_flushed o id failed now h)
  unfolding on_ping_flushed fail teardown
  on_ping_flushed-IsSound id failed now h s = ground arith

  on_pong_timeout-IsSound :
      (id : ℕ) (h : Heartbeat) → IsSound o h → IsSound o (on_pong_timeout id h)
  unfolding on_pong_timeout fail teardown
  on_pong_timeout-IsSound id h s = ground arith

  on_stall_timeout-IsSound : (h : Heartbeat) → IsSound o h → IsSound o (on_stall_timeout h)
  unfolding on_stall_timeout fail teardown
  on_stall_timeout-IsSound h s = ground arith

  on_probe_write_timeout-IsSound :
      (id : ℕ) (h : Heartbeat) → IsSound o h → IsSound o (on_probe_write_timeout id h)
  unfolding on_probe_write_timeout fail teardown
  on_probe_write_timeout-IsSound id h s = ground arith

-- Runs: any interleaving of calls, write callbacks and timers, late ones too.
pub data Step (o : Options) : Heartbeat → Heartbeat → Type 0 where
  started : (now : ℕ) (h : Heartbeat) → Step o h (start o now h)
  interval :
      (sock : Socket) (d : Bool) (nonce : List ℕ) (now : ℕ) (h : Heartbeat)
      → Step o h (on_interval o sock d nonce now h)
  ticked :
      (sock : Socket) (d : Bool) (nonce : List ℕ) (now : ℕ) (h : Heartbeat)
      → Step o h (tick o sock d nonce now h)
  pong : (payload : List ℕ) (now : ℕ) (h : Heartbeat) → Step o h (note_pong payload now h)
  busied : (now : ℕ) (h : Heartbeat) → Step o h (mark_busy o now h)
  idled : (h : Heartbeat) → Step o h (mark_idle h)
  progressed : (now : ℕ) (h : Heartbeat) → Step o h (note_write_progress o now h)
  flushed :
      (id : ℕ) (failed : Bool) (now : ℕ) (h : Heartbeat)
      → Step o h (on_ping_flushed o id failed now h)
  pong_due : (id : ℕ) (h : Heartbeat) → Step o h (on_pong_timeout id h)
  stall_due : (h : Heartbeat) → Step o h (on_stall_timeout h)
  write_due : (id : ℕ) (h : Heartbeat) → Step o h (on_probe_write_timeout id h)
  disposed : (h : Heartbeat) → Step o h (dispose h)

pub data Reach (o : Options) (h : Heartbeat) : Heartbeat → Type 0 where
  here : Reach o h h
  next : {t u : Heartbeat} → Reach o h t → Step o t u → Reach o h u

module _ (o : Options) where
  Step-IsSound : {h t : Heartbeat} → Step o h t → IsSound o h → IsSound o t
  Step-IsSound (started now h) s = start-IsSound o now h s
  Step-IsSound (interval sock d nonce now h) s = on_interval-IsSound o sock d nonce now h s
  Step-IsSound (ticked sock d nonce now h) s = tick-IsSound o sock d nonce now h s
  Step-IsSound (pong payload now h) s = note_pong-IsSound o payload now h s
  Step-IsSound (busied now h) s = mark_busy-IsSound o now h s
  Step-IsSound (idled h) s = mark_idle-IsSound o h s
  Step-IsSound (progressed now h) s = note_write_progress-IsSound o now h s
  Step-IsSound (flushed id failed now h) s = on_ping_flushed-IsSound o id failed now h s
  Step-IsSound (pong_due id h) s = on_pong_timeout-IsSound o id h s
  Step-IsSound (stall_due h) s = on_stall_timeout-IsSound o h s
  Step-IsSound (write_due id h) s = on_probe_write_timeout-IsSound o id h s
  Step-IsSound (disposed h) s = dispose-IsSound o h s

  new_heartbeat-IsSound : IsSound o new_heartbeat
  unfolding new_heartbeat
  new_heartbeat-IsSound = ground arith

  -- Every state that a new heartbeat can reach is sound: a pending probe is watched by exactly
  -- one deadline (the write deadline before its Ping is flushed, and then a Pong deadline at the
  -- flush plus the timeout), the stall timer is armed exactly while busy, nothing is armed after
  -- the end, and `onClose` has been called at most once and never on a live instance.
  pub Reach-IsSound : (h : Heartbeat) → Reach o new_heartbeat h → IsSound o h
  Reach-IsSound h here = new_heartbeat-IsSound
  Reach-IsSound h (next {t} r st) = Step-IsSound st (Reach-IsSound t r)
