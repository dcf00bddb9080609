-- ===== src/Timeline/Tests.antt =====
-- A timeline over whole numbers of cents.
use dsh_passwords.Prelude.{ℕ, ◌-◌, true, List, [], ◌∷◌, ◌==◌, All}
use dsh_passwords.Text.{codes}
use dsh_passwords.Timeline.{
  Arithmetic, number, flag, text, returned, Call, mark_call, span_call, run,
}
use dsh_passwords.Timeline.Records.{IsSafe, run-IsSafe}

abbrev cents : Arithmetic ℕ
cents = record {
  is_finite = λ x. true;
  round_to_cents = λ x. x;
  minus = λ x y. x - y;
  is_zero = λ x. x == 0;
}

abbrev some_calls : List (Call cents)
some_calls =
    mark_call true (codes "baseline.wait")
      ((codes "url", text (codes "/secret")) ∷ (codes "count", number 3) ∷ [])
    ∷ span_call true (codes "gateway.page.parse") 10 25 (returned 7)
        (λ x. returned ((codes "ok", flag true) ∷ []))
    ∷ mark_call true (codes "/secret") []
    ∷ []

run-IsSafe_example : All IsSafe (run cents some_calls [])
run-IsSafe_example = run-IsSafe cents some_calls
