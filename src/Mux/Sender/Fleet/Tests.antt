-- ===== src/Mux/Sender/Fleet/Tests.antt =====
-- Two carriers on one budget.
use dsh_passwords.Prelude.{◌≤◌, ◌≡◌, ◌∷◌, [], true, none, some}
use dsh_passwords.Mux.Sender.{Sender, Budget, new_sender, enqueue, dispose}
use dsh_passwords.Mux.Sender.Run.{enqueued, disposed}
use dsh_passwords.Mux.Sender.Tests.{small, calm}
use dsh_passwords.Mux.Sender.Fleet.{
  Fleet, Reach, new_fleet, carrier, reads, left_by, opened, acted, start, then_step, accepted_by,
  Reach-counted,
}

abbrev whole : Budget
whole = (new_fleet 100).budget

abbrev fresh : Sender
fresh = new_sender (some whole)

abbrev filled : Sender
filled = (enqueue small calm true none (1 ∷ 2 ∷ 3 ∷ []) (reads whole fresh)).0

abbrev after_first : Budget
after_first = left_by whole filled.shared_budget

abbrev second_filled : Sender
second_filled = (enqueue small calm true none (4 ∷ []) (reads after_first fresh)).0

abbrev after_second : Budget
after_second = left_by after_first second_filled.shared_budget

abbrev closed : Sender
closed = dispose (reads after_second filled)

abbrev one_left : Fleet
one_left = record {
  budget = left_by after_second closed.shared_budget;
  carriers = carrier small closed ∷ carrier small second_filled ∷ [];
}

abbrev to_one_left : Reach (new_fleet 100) one_left
to_one_left =
    then_step
      (then_step
        (then_step
          (then_step (then_step start (opened small (new_fleet 100)))
            (opened small (record { budget = whole; carriers = carrier small fresh ∷ [] })))
          (acted small whole [] (carrier small fresh ∷ []) fresh filled
            (enqueued calm true none (1 ∷ 2 ∷ 3 ∷ []) (reads whole fresh))))
        (acted small after_first (carrier small filled ∷ []) [] fresh second_filled
          (enqueued calm true none (4 ∷ []) (reads after_first fresh))))
      (acted small after_second [] (carrier small second_filled ∷ []) filled closed
        (disposed (reads after_second filled)))

Reach-counted_example :
    (one_left.budget.reserved_bytes ≡ accepted_by one_left.carriers)
    × (accepted_by one_left.carriers ≤ 100)
Reach-counted_example = Reach-counted 100 one_left to_one_left
