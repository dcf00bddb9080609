-- ===== src/Accounts/Input/Bytes.antt =====
-- The bytes of two texts together, as `Buffer.byteLength` counts them: two halves of a surrogate pair
-- that meet take fewer.
use dsh_passwords.Prelude.{ℕ, ◌+◌, ◌*◌, ◌≤◌, List, [], ◌∷◌, ◌++◌, length, arith}
use dsh_passwords.Accounts.Input.{next_bytes, bytes_after, byte_length}

next_bytes-first : (prev c : ℕ) → next_bytes prev c ≤ next_bytes 0 c
next_bytes-first prev c = ground arith

next_bytes-three : (prev c : ℕ) → next_bytes prev c ≤ 3
next_bytes-three prev c = ground arith

bytes_after-first : (prev : ℕ) (s : List ℕ) → bytes_after prev s ≤ bytes_after 0 s
unfolding bytes_after
bytes_after-first prev [] = omega arith
bytes_after-first prev (c ∷ s) = omega (arith, next_bytes-first prev c)

bytes_after-append :
    (prev : ℕ) (p q : List ℕ) → bytes_after prev (p ++ q) ≤ bytes_after prev p + bytes_after 0 q
unfolding bytes_after
bytes_after-append prev [] q = omega (arith, bytes_after-first prev q)
bytes_after-append prev (c ∷ p) q = omega (arith, bytes_after-append c p q)

bytes_after-narrow : (prev : ℕ) (s : List ℕ) → bytes_after prev s ≤ 3 * length s
unfolding bytes_after
bytes_after-narrow prev [] = omega arith
bytes_after-narrow prev (c ∷ s) = omega (arith, next_bytes-three prev c, bytes_after-narrow c s)

pub byte_length-append : (p q : List ℕ) → byte_length (p ++ q) ≤ byte_length p + byte_length q
byte_length-append p q = bytes_after-append 0 p q

pub byte_length-narrow : (s : List ℕ) → byte_length s ≤ 3 * length s
byte_length-narrow s = bytes_after-narrow 0 s
