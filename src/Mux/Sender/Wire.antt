-- ===== src/Mux/Sender/Wire.antt =====
-- The receiving end: what a peer has reassembled from the frames of `wire`, and what the sender
-- still owes.
use dsh_passwords.Prelude.{
  ℕ, ◌+◌, ◌≤◌, ◌<◌, ◌≡◌, refl, Bool, true, false, Option, none, some, List, [], ◌∷◌, ◌++◌, map,
  length, take, if◌then◌else◌,
}
use dsh_passwords.Mux.Sender.{Sender, Item, Frame, size}

-- Whole messages, and the part of the next one.
pub record Received : Type 0 where
  pub messages : List (List ℕ)
  pub partial : List ℕ

abbrev pub feed : Received → Frame → Received
feed r f =
    if f.fin
    then record { messages = r.messages ++ (r.partial ++ f.chunk) ∷ []; partial = [] }
    else record r { partial = r.partial ++ f.chunk }

abbrev pub receive : Received → List Frame → Received
receive r [] = r
receive r (f ∷ fs) = receive (feed r f) fs

pub receive-append :
    (r : Received) (fs : List Frame) (f : Frame) → receive r (fs ++ f ∷ []) ≡ feed (receive r fs) f
receive-append r [] f = refl
receive-append r (g ∷ fs) f = receive-append (feed r g) fs f

abbrev pub received : Sender → Received
received s = receive (record { messages = []; partial = [] }) s.wire

abbrev pub contents : List Item → List (List ℕ)
contents q = map (λ m. m.bytes) q

-- The message in flight is still owed until its last fragment is on the wire.
abbrev pub owed_with : List Frame → Option Item → List Item → List (List ℕ)
owed_with u none q = contents q
owed_with [] (some m) q = m.bytes ∷ contents q
owed_with (f ∷ u) (some m) q = if f.fin then contents q else m.bytes ∷ contents q

-- The messages that the peer has or will have, in order.
abbrev pub promised : Sender → List (List ℕ)
promised s = (received s).messages ++ owed_with s.unflushed s.current s.queue

abbrev AheadOf : Bool → ℕ → List ℕ → Item → List ℕ → Type 0
AheadOf true n c m p = p ≡ []
AheadOf false n c m p = (p ≡ take (n + length c) m.bytes) × (n + length c ≤ size m) × (0 < length c)

-- The unfinished part that the peer holds is what the sender has written of the current message.
abbrev pub Agrees : Option Item → List Frame → ℕ → List ℕ → Type 0
Agrees none [] n p = p ≡ []
Agrees (some m) [] n p = (p ≡ take n m.bytes) × (n ≤ size m)
Agrees (some m) (f ∷ []) n p = (f.message ≡ m) × AheadOf f.fin n f.chunk m p × (n ≤ size m)
Agrees c u n p = ⊥
