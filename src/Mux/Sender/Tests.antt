-- ===== src/Mux/Sender/Tests.antt =====
-- Runs of the sender on small inputs.
use dsh_passwords.Prelude.{◌≡◌, refl, true, false, Option, none, some, [], ◌∷◌, arith}
use dsh_passwords.Mux.Sender.{
  Sender, Options, Socket, Budget, new_sender, enqueue, enqueue_behind, accept, pump,
  submit_fragment, commit, write, dispose, refresh_busy, reserve_and_accept, try_reserve,
  fire_flush, on_flush, finish_message, fire_flush,
}
use dsh_passwords.Mux.Sender.Invariant.{IsValid}
use dsh_passwords.Mux.Sender.Accept.{enqueue-Takes, Takes}
use dsh_passwords.Mux.Sender.Steps.{fire_flush-Settles, Settles}
use dsh_passwords.Mux.Sender.Drain.{flush_times-IsDelivered, flush_times, IsDelivered, IsGood, work}
use dsh_passwords.Mux.Sender.Wire.{promised}
use dsh_passwords.Mux.Sender.Run.{Reach, here, next, acts, enqueued, flushed, Reach-IsValid}

abbrev pub small : Options
small = record {
  fragment_bytes = 2;
  high_water_bytes = 10;
  low_water_bytes = 4;
  max_message_bytes = 8;
  accept_budget_bytes = 20;
  max_queue_messages = 4;
  max_queue_bytes = 20;
}

abbrev pub calm : Socket
calm = record { ready_state = 1; buffered_amount = 0; send_throws = false }

abbrev full : Socket
full = record { ready_state = 1; buffered_amount = 11; send_throws = false }

abbrev shared : Option Budget
shared = some record { max_bytes = 100; reserved_bytes = 30 }

abbrev first : Sender
first = (enqueue small calm true (some 7) (1 ∷ 2 ∷ 3 ∷ []) (new_sender shared)).0

abbrev second : Sender
second = (enqueue small calm true (some 8) (4 ∷ []) first).0

abbrev to_second : Reach small (new_sender shared) second
to_second =
    next (next here (acts (enqueued calm true (some 7) (1 ∷ 2 ∷ 3 ∷ []) (new_sender shared))))
      (acts (enqueued calm true (some 8) (4 ∷ []) first))

second-IsValid : IsValid small second
second-IsValid = Reach-IsValid small shared second to_second

second-live : second.disposed ≡ false
unfolding enqueue enqueue_behind accept pump submit_fragment commit write refresh_busy
    reserve_and_accept try_reserve new_sender
second-live = refl

-- A write callback on a full socket starts draining.
abbrev drained : Sender
drained = fire_flush small full false second

drained-draining : drained.draining ≡ true
unfolding enqueue enqueue_behind accept pump submit_fragment commit write refresh_busy
    reserve_and_accept try_reserve new_sender fire_flush on_flush finish_message
drained-draining = refl

enqueue-Takes_example :
    Takes small calm none (9 ∷ []) second (enqueue small calm true none (9 ∷ []) second)
enqueue-Takes_example = enqueue-Takes small calm none (9 ∷ []) true second second-IsValid

fire_flush-Settles_example : Settles small calm second (fire_flush small calm false second)
fire_flush-Settles_example = fire_flush-Settles small calm second false second-IsValid

drained-IsValid : IsValid small drained
drained-IsValid =
    Reach-IsValid small shared drained (next to_second (acts (flushed full false second)))

calm-IsGood : IsGood small calm
calm-IsGood = record { is_open = refl; is_low = omega arith; no_throw = refl }

second-flowing : second.draining ≡ false
unfolding enqueue enqueue_behind accept pump submit_fragment commit write refresh_busy
    reserve_and_accept try_reserve new_sender
second-flowing = refl

flush_times-IsDelivered_example :
    IsDelivered small calm calm-IsGood
      (promised second)
      (flush_times (work second) small calm second)
flush_times-IsDelivered_example =
    flush_times-IsDelivered small calm calm-IsGood second second-IsValid second-live second-flowing

Reach-IsValid_example : IsValid small second
Reach-IsValid_example = Reach-IsValid small shared second to_second

abbrev closed_second : Sender
closed_second = dispose second

closed_second-disposed : closed_second.disposed ≡ true
unfolding dispose enqueue enqueue_behind accept pump submit_fragment commit write refresh_busy
    reserve_and_accept try_reserve new_sender
closed_second-disposed = refl
