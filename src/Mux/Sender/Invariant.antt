-- ===== src/Mux/Sender/Invariant.antt =====
-- What holds of a sender between two calls, for the accounting of src/remote-mux-sender.ts.
use dsh_passwords.Prelude.{
  ℕ, ◌+◌, ◌≤◌, ◌<◌, ◌≡◌, Bool, true, false, ◌&&◌, ◌||◌, Option, none, some, List, [], ◌∷◌, ◌++◌,
  ltb, is_some, length, All, arith, ◌⊎◌,
}
use dsh_passwords.Mux.Sender.{Sender, Item, Options, Frame, size, removed_bytes, kept}
use dsh_passwords.Mux.Sender.Wire.{Agrees, received}

abbrev pub total : List Item → ℕ
total [] = 0
total (m ∷ ms) = size m + total ms

abbrev pub current_size : Option Item → ℕ
current_size none = 0
current_size (some m) = size m

-- The sums: what is queued and what is accepted but not written.
pub record IsCounted (o : Options) (s : Sender) : Type 0 where
  pub queue_sum : s.queue_bytes ≡ total s.queue
  pub accepted_sum : s.accepted_bytes ≡ current_size s.current + s.queue_bytes
  pub in_budget : s.accepted_bytes ≤ o.accept_budget_bytes
  pub edge : s.is_busy ≡ ltb 0 s.accepted_bytes

-- The phases: idle with an empty queue, one fragment awaiting its callback, or draining.
pub record IsSettled (o : Options) (s : Sender) : Type 0 where
  pub phase : is_some s.current ≡ (s.awaiting_flush || s.draining)
  pub alone : (s.awaiting_flush && s.draining) ≡ false
  pub waiting : (is_some s.current ≡ true) ⊎ (s.queue ≡ [])
  pub queue_count : length s.queue ≤ o.max_queue_messages
  pub queue_room : s.queue_bytes ≤ o.max_queue_bytes
  pub shut : (s.disposed ≡ false) ⊎ (s.current ≡ none)

abbrev pub holds_one : List Frame → Bool
holds_one [] = false
holds_one (f ∷ u) = true

-- In single-frame mode no message is ever written in part.
abbrev pub Whole : ℕ → List Frame → Type 0
Whole n [] = n ≡ 0
Whole n (f ∷ u) = (n ≡ 0) × (f.fin ≡ true)

-- The frames: at most the last one is without its callback, and the peer's part agrees.
pub record IsWired (o : Options) (s : Sender) : Type 0 where
  pub held : s.awaiting_flush ≡ holds_one s.unflushed
  pub agrees : Agrees s.current s.unflushed s.fragment_offset (received s).partial
  pub single : (0 < o.fragment_bytes) ⊎ Whole s.fragment_offset s.unflushed

abbrev pub IsBorn : ℕ → Item → Type 0
IsBorn g m = m.generation ≡ g

abbrev pub IsCurrentBorn : ℕ → Option Item → Type 0
IsCurrentBorn g none = Unit
IsCurrentBorn g (some m) = IsBorn g m

-- No message outlives the generation in which it was accepted.
pub record IsCurrent (s : Sender) : Type 0 where
  pub in_flight : IsCurrentBorn s.generation s.current
  pub queued : All (IsBorn s.generation) s.queue

pub record IsValid (o : Options) (s : Sender) : Type 0 where
  pub counted : IsCounted o s
  pub settled : IsSettled o s
  pub wired : (s.disposed ≡ true) ⊎ IsWired o s
  pub fresh : IsCurrent s

pub total-append : (q : List Item) (m : Item) → total (q ++ m ∷ []) ≡ total q + size m
total-append [] m = omega arith
total-append (x ∷ q) m = omega (arith, total-append q m)

pub total-kept : (t : ℕ) (q : List Item) → total q ≡ removed_bytes t q + total (kept t q)
total-kept t [] = omega arith
total-kept t (m ∷ q) = ground (arith, total-kept t q)

pub length-kept : (t : ℕ) (q : List Item) → length (kept t q) ≤ length q
length-kept t [] = omega arith
length-kept t (m ∷ q) = ground (arith, length-kept t q)

module _ {ℓ} (P : Item → Type ℓ) where
  pub All-kept : (t : ℕ) (q : List Item) → All P q → All P (kept t q)
  All-kept t [] h = tt
  All-kept t (m ∷ q) h = ground (arith, All-kept t q h.1)

  pub All-append_one : (q : List Item) (m : Item) → All P q → P m → All P (q ++ m ∷ [])
  All-append_one [] m h p = (p, tt)
  All-append_one (x ∷ q) m h p = (h.0, All-append_one q m h.1 p)
