-- ===== src/Mux/Heartbeat/Tests.antt =====
-- Runs of the heartbeat on small inputs.
use dsh_passwords.Prelude.{◌≡◌, refl, false, none, some, [], ◌∷◌}
use dsh_passwords.Mux.Heartbeat.{
  Heartbeat, Probe, Options, Socket, new_heartbeat, start, begin_probe, tick, on_pong_timeout,
  on_probe_write_timeout, arm_interval, arm_probe_write_deadline, ping_timeout, write_stall,
}
use dsh_passwords.Mux.Heartbeat.Invariant.{
  IsSound, IsClosed, Reach, here, next, started, ticked, Reach-IsSound,
}
use dsh_passwords.Mux.Heartbeat.Deadlines.{on_timeout-IsClosed}

abbrev brief : Options
brief = record { ping_interval_ms = 10; pong_timeout_ms = 5; write_stall_ms = 3 }

abbrev ready : Socket
ready = record { ready_state = 1; ping_throws = false }

abbrev running : Heartbeat
running = start brief 0 new_heartbeat

abbrev probing : Heartbeat
probing = tick brief ready false (1 ∷ 2 ∷ []) 10 running

abbrev to_probing : Reach brief new_heartbeat probing
to_probing = next (next here (started 0 new_heartbeat)) (ticked ready false (1 ∷ 2 ∷ []) 10 running)

abbrev first_probe : Probe
first_probe = record {
  id = 0;
  generation = 0;
  nonce = 1 ∷ 2 ∷ [];
  queued_at = 10;
  flushed_at = none;
  deadline = none;
}

probing-live : probing.disposed ≡ false
unfolding start tick begin_probe new_heartbeat arm_interval arm_probe_write_deadline
probing-live = refl

probing-probe : probing.probe ≡ some first_probe
unfolding start tick begin_probe new_heartbeat arm_interval arm_probe_write_deadline
probing-probe = refl

probing-IsSound : IsSound brief probing
probing-IsSound = Reach-IsSound brief probing to_probing

Reach-IsSound_example : IsSound brief probing
Reach-IsSound_example = Reach-IsSound brief probing to_probing

on_timeout-IsClosed_example :
    IsClosed (on_pong_timeout 0 probing)
    × ((on_pong_timeout 0 probing).closes ≡ ping_timeout ∷ [])
    × IsClosed (on_probe_write_timeout 0 probing)
    × ((on_probe_write_timeout 0 probing).closes ≡ write_stall ∷ [])
on_timeout-IsClosed_example =
    on_timeout-IsClosed brief probing first_probe probing-IsSound probing-live probing-probe
