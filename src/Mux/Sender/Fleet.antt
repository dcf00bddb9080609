-- ===== src/Mux/Sender/Fleet.antt =====
-- The senders of all carriers in src/remote-mux-sender.ts, which share one `MuxSenderBudget` by
-- reference: each call of a sender finds the budget as the last call of any of them left it.
pub mod Tests
use dsh_passwords.Prelude.{
  ℕ, ◌+◌, ◌≤◌, ◌≡◌, refl, true, Option, none, some, List, [], ◌∷◌, ◌++◌, All, arith,
}
use dsh_passwords.Mux.Sender.{Sender, Options, Budget, new_sender}
use dsh_passwords.Mux.Sender.Invariant.{IsValid}
use dsh_passwords.Mux.Sender.Shared.{Holds, reserved, capacity}
use dsh_passwords.Mux.Sender.Run.{Act, Act-IsValid, Act-Holds, budget-IsValid, new_sender-IsValid}

-- A sender with the options that it was made with.
pub record Carrier : Type 0 where
  pub options : Options
  pub sender : Sender

pub record Fleet : Type 0 where
  pub budget : Budget
  pub carriers : List Carrier

abbrev pub new_fleet : ℕ → Fleet
new_fleet max = record { budget = record { max_bytes = max; reserved_bytes = 0 }; carriers = [] }

abbrev pub carrier : Options → Sender → Carrier
carrier o s = record { options = o; sender = s }

-- A sender that reads the shared budget.
abbrev pub reads : Budget → Sender → Sender
reads b s = record s { shared_budget = some b }

abbrev pub left_by : Budget → Option Budget → Budget
left_by b none = b
left_by b (some b') = b'

-- A new carrier, or one call of one of the carriers, wherever it stands.
pub data Step : Fleet → Fleet → Type 0 where
  opened :
      (o : Options) (f : Fleet)
      → Step f (record f { carriers = carrier o (new_sender (some f.budget)) ∷ f.carriers })
  acted :
      (o : Options) (b : Budget) (before after : List Carrier) (s t : Sender)
      → Act o (reads b s) t
      → Step
          (record { budget = b; carriers = before ++ carrier o s ∷ after })
          (record { budget = left_by b t.shared_budget; carriers = before ++ carrier o t ∷ after })

pub data Reach (f : Fleet) : Fleet → Type 0 where
  start : Reach f f
  then_step : {g h : Fleet} → Reach f g → Step g h → Reach f h

-- What all senders have accepted and not finished writing.
abbrev pub accepted_by : List Carrier → ℕ
accepted_by [] = 0
accepted_by (c ∷ cs) = c.sender.accepted_bytes + accepted_by cs

accepted_by-append :
    (xs ys : List Carrier) → accepted_by (xs ++ ys) ≡ accepted_by xs + accepted_by ys
accepted_by-append [] ys = omega arith
accepted_by-append (x ∷ xs) ys = omega (arith, accepted_by-append xs ys)

abbrev IsValidCarrier : Carrier → Type 0
IsValidCarrier c = IsValid c.options c.sender

-- One of the carriers is valid, and any valid one may stand in its place.
All-replace :
    (xs ys : List Carrier) (c : Carrier)
    → All IsValidCarrier (xs ++ c ∷ ys)
    → IsValidCarrier c × ((d : Carrier) → IsValidCarrier d → All IsValidCarrier (xs ++ d ∷ ys))
All-replace [] ys c (h, hs) = (h, λ d k. (k, hs))
All-replace (x ∷ xs) ys c (h, hs) = let (v, g) = All-replace xs ys c hs in (v, λ d k. (h, g d k))

abbrev IsSound : ℕ → Fleet → Type 0
IsSound max f =
    All IsValidCarrier f.carriers
    × (f.budget.max_bytes ≡ max)
    × (f.budget.reserved_bytes ≡ accepted_by f.carriers)
    × (accepted_by f.carriers ≤ max)

left_by-Holds :
    (k max : ℕ) (b : Budget) (t : Sender)
    → Holds k max t
    → ((left_by b t.shared_budget).max_bytes ≡ max)
      × ((left_by b t.shared_budget).reserved_bytes ≡ k + t.accepted_bytes)
left_by-Holds k max b t h = ground arith

acted-IsSound :
    (max : ℕ) (o : Options) (b : Budget) (before after : List Carrier) (s t : Sender)
    → Act o (reads b s) t
    → IsSound max (record { budget = b; carriers = before ++ carrier o s ∷ after })
    → IsSound max
        (record { budget = left_by b t.shared_budget; carriers = before ++ carrier o t ∷ after })
acted-IsSound max o b before after s t a (vs, m, e, l) =
    let (v, g) = All-replace before after (carrier o s) vs in
    let at_s = accepted_by-append before (carrier o s ∷ after) in
    let at_t = accepted_by-append before (carrier o t ∷ after) in
    let w = budget-IsValid o (some b) s v in
    let h =
      Act-Holds o (accepted_by before + accepted_by after) max a w
        (refl, omega (arith, e, at_s), m, omega (arith, l, at_s)) in
    let (m', e') = left_by-Holds (accepted_by before + accepted_by after) max b t h in
    (g (carrier o t) (Act-IsValid o a w), m', omega (arith, e', at_t), omega (arith, h.3, at_t))

Step-IsSound : (max : ℕ) {f g : Fleet} → Step f g → IsSound max f → IsSound max g
unfolding new_sender
Step-IsSound max (opened o f) (vs, m, e, l) =
    ((new_sender-IsValid o (some f.budget), vs), m, omega (arith, e), omega (arith, l))
Step-IsSound max (acted o b before after s t a) h = acted-IsSound max o b before after s t a h

Reach-IsSound : (max : ℕ) (f : Fleet) → Reach (new_fleet max) f → IsSound max f
Reach-IsSound max f start = (tt, refl, refl, omega arith)
Reach-IsSound max f (then_step {g} r st) = Step-IsSound max st (Reach-IsSound max g r)

-- In every state that the carriers can reach, in any number and with their calls, write callbacks
-- and polls in any order, the shared budget counts exactly the bytes that all of them together have
-- accepted and not finished writing, and these are never more than its limit.
pub Reach-counted :
    (max : ℕ) (f : Fleet)
    → Reach (new_fleet max) f
    → (f.budget.reserved_bytes ≡ accepted_by f.carriers) × (accepted_by f.carriers ≤ max)
Reach-counted max f r = let (vs, m, e, l) = Reach-IsSound max f r in (e, l)
