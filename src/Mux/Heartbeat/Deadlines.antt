-- ===== src/Mux/Heartbeat/Deadlines.antt =====
-- The events of src/remote-mux-heartbeat.ts that move, clear or meet a deadline.
use dsh_passwords.Prelude.{
  ℕ, ◌+◌, ◌≡◌, ◌≢◌, Bool, false, none, some, List, [], ◌∷◌, ◌⊎◌, if◌then◌else◌, arith, bytes_eq_iff,
}
use dsh_passwords.Mux.Heartbeat.{
  Heartbeat, Probe, Options, teardown, fail, arm_stall, arm_probe_write_deadline, note_pong,
  note_write_progress, on_ping_flushed, on_pong_timeout, on_probe_write_timeout, is_queued,
  ping_timeout, write_stall,
}
use dsh_passwords.Mux.Heartbeat.Invariant.{IsSound, IsClosed}

-- A Pong clears a pending probe of a live instance exactly if its payload is the probe's nonce,
-- byte for byte; any other Pong changes nothing.
pub note_pong_iff :
    (payload : List ℕ) (now : ℕ) (h : Heartbeat) (p : Probe)
    → h.disposed ≡ false
    → h.probe ≡ some p
    → ((payload ≡ p.nonce)
        × ((note_pong payload now h).probe ≡ none)
        × ((note_pong payload now h).probe_write ≡ none)
        × ((note_pong payload now h).last_pong_at ≡ some now))
      ⊎ ((payload ≢ p.nonce) × (note_pong payload now h ≡ h))
unfolding note_pong
note_pong_iff payload now h p n e = ground (arith, bytes_eq_iff payload p.nonce)

-- On a live instance write progress never touches the probe, so a Pong deadline is never put off; it moves the write
-- deadline only while the Ping is not flushed, and the stall timer only while busy.
pub note_write_progress_lem :
    (o : Options) (now : ℕ) (h : Heartbeat)
    → h.disposed ≡ false
    → ((note_write_progress o now h).probe ≡ h.probe)
      × ((note_write_progress o now h).probe_write
          ≡ (if is_queued h.probe then some (now + o.write_stall_ms) else h.probe_write))
      × ((note_write_progress o now h).stall
          ≡ (if h.busy then some (now + o.write_stall_ms) else h.stall))
unfolding note_write_progress arm_stall arm_probe_write_deadline
note_write_progress_lem o now h n = ground arith

-- A sound live instance with a pending probe is closed by either deadline of that probe, with one
-- reason, that of the deadline, and nothing stays armed.
pub on_timeout-IsClosed :
    (o : Options) (h : Heartbeat) (p : Probe)
    → IsSound o h
    → h.disposed ≡ false
    → h.probe ≡ some p
    → IsClosed (on_pong_timeout p.id h)
      × ((on_pong_timeout p.id h).closes ≡ ping_timeout ∷ [])
      × IsClosed (on_probe_write_timeout p.id h)
      × ((on_probe_write_timeout p.id h).closes ≡ write_stall ∷ [])
unfolding on_pong_timeout on_probe_write_timeout fail teardown
on_timeout-IsClosed o h p s n e = ground arith

-- A callback of another probe than the pending one changes nothing.
pub stale_callback :
    (o : Options) (id now : ℕ) (failed : Bool) (h : Heartbeat) (p : Probe)
    → h.probe ≡ some p
    → id ≢ p.id
    → (on_ping_flushed o id failed now h ≡ h)
      × (on_pong_timeout id h ≡ h)
      × (on_probe_write_timeout id h ≡ h)
unfolding on_ping_flushed on_pong_timeout on_probe_write_timeout
stale_callback o id now failed h p e d = ground arith
