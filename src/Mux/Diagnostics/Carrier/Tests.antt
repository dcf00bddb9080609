-- ===== src/Mux/Diagnostics/Carrier/Tests.antt =====
-- Two closes of one carrier.
use dsh_passwords.Prelude.{ℕ, ◌≡◌, none, some, List, [], ◌∷◌}
use dsh_passwords.Text.{codes}
use dsh_passwords.Mux.Diagnostics.{text, natural}
use dsh_passwords.Mux.Diagnostics.Carrier.{
  CarrierObservation, CloseInput, create_diagnostics, Call, observe, close_call, to_list, run,
}
use dsh_passwords.Mux.Diagnostics.Carrier.Close.{first_close, run_lem}

abbrev nothing_seen : CarrierObservation
nothing_seen = record {
  buffered_bytes = some (natural 5);
  pending_bytes = none;
  streams = none;
  probe = none;
  probe_elapsed_ms = none;
  stall = none;
  stall_elapsed_ms = none;
  client_sender = none;
  upstream_sender = none;
  reject = none;
}

abbrev close_with : ℕ → CloseInput
close_with code = record {
  source = some (text (codes "upstream closed"));
  leg = none;
  code = some (natural code);
  observation = nothing_seen;
}

abbrev two_closes : List Call
two_closes = observe nothing_seen ∷ close_call (close_with 1000) ∷ close_call (close_with 1011) ∷ []

run_lem_example :
    ((run two_closes (create_diagnostics (text (codes "c#1")))).1
      ≡ to_list (first_close two_closes (create_diagnostics (text (codes "c#1"))).sample))
    × ((run two_closes (create_diagnostics (text (codes "c#1")))).0.close
        ≡ first_close two_closes (create_diagnostics (text (codes "c#1"))).sample)
run_lem_example = run_lem (text (codes "c#1")) two_closes
