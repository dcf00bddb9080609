-- ===== src/Permissions/Host/Expand.antt =====
-- The expansion of the parts in `parseIpv4Literal` of src/permissions.ts, against `inet_aton`.
use dsh_passwords.Prelude.{
  ℕ, ◌+◌, ◌*◌, ◌^◌, ◌<◌, ◌≡◌, ◌&&◌, Option, none, some, List, [], ◌∷◌, ltb, if◌then◌else◌, arith,
}
use dsh_passwords.Permissions.Host.{Quad, expand}

abbrev pub IsBytes : Quad → Type 0
IsBytes q = (q.a < 256) × (q.b < 256) × (q.c < 256) × (q.d < 256)

-- The address as a 32-bit number.
abbrev pub address : Quad → ℕ
address q = q.a * 2 ^ 24 + q.b * 2 ^ 16 + q.c * 2 ^ 8 + q.d

-- `inet_aton`: the last part fills what the bytes before it leave.
abbrev pub inet_aton : List ℕ → Option ℕ
inet_aton (n ∷ []) = if ltb n (2 ^ 32) then some n else none
inet_aton (a ∷ n ∷ []) = if ltb a 256 && ltb n (2 ^ 24) then some (a * 2 ^ 24 + n) else none
inet_aton (a ∷ b ∷ n ∷ []) =
    if ltb a 256 && ltb b 256 && ltb n (2 ^ 16) then some (a * 2 ^ 24 + b * 2 ^ 16 + n) else none
inet_aton (a ∷ b ∷ c ∷ n ∷ []) =
    if ltb a 256 && ltb b 256 && ltb c 256 && ltb n 256
    then some (a * 2 ^ 24 + b * 2 ^ 16 + c * 2 ^ 8 + n)
    else none
inet_aton _ = none

abbrev pub Same : Option Quad → Option ℕ → Type 0
Same none none = Unit
Same (some q) (some n) = IsBytes q × (address q ≡ n)
Same _ _ = ⊥

pub expand-Same : (parts : List ℕ) → Same (expand parts) (inet_aton parts)
unfolding expand
expand-Same [] = tt
expand-Same (n ∷ []) = ground arith
expand-Same (a ∷ n ∷ []) = ground arith
expand-Same (a ∷ b ∷ n ∷ []) = ground arith
expand-Same (a ∷ b ∷ c ∷ n ∷ []) = ground arith
expand-Same (a ∷ b ∷ c ∷ d ∷ e ∷ l) = tt
