-- ===== src/Permissions/Host/Ranges.antt =====
-- The byte tests of `isPrivateIpv4Bytes` in src/permissions.ts, against ranges of 32-bit addresses.
use dsh_passwords.Prelude.{
  ℕ, ◌+◌, ◌*◌, ◌/◌, ◌^◌, ◌<◌, ◌≡◌, Bool, true, ◌||◌, ◌==◌, arith, leb, ◌&&◌,
}
use dsh_passwords.Permissions.Host.{Quad, is_private_ipv4_bytes}
use dsh_passwords.Permissions.Host.Expand.{IsBytes, address}

-- The address of `a.b.0.0`, and whether `v` lies in its block of `2 ^ k` addresses.
pub in_block : ℕ → ℕ → ℕ → ℕ → Bool
in_block a b k v = v / 2 ^ k == (a * 2 ^ 24 + b * 2 ^ 16) / 2 ^ k

-- 0/8, 10/8, 127/8, 169.254/16, 172.16/12, 192.168/16, 100.64/10, 198.18/15 and 224/3.
abbrev pub is_reserved : ℕ → Bool
is_reserved v =
    in_block 0 0 24 v
    || in_block 10 0 24 v
    || in_block 127 0 24 v
    || in_block 169 254 16 v
    || in_block 172 16 20 v
    || in_block 192 168 16 v
    || in_block 100 64 22 v
    || in_block 198 18 17 v
    || in_block 224 0 29 v

module _ (q : Quad) (h : IsBytes q) where
  in_byte : (n : ℕ) → n < 256 → in_block n 0 24 (address q) ≡ (q.a == n)
  unfolding in_block
  in_byte n l = ground arith

  in_pair : (m n : ℕ) → n < 256 → in_block m n 16 (address q) ≡ (q.a == m && q.b == n)
  unfolding in_block
  in_pair m n l = ground arith

  in_172_16 : in_block 172 16 20 (address q) ≡ (q.a == 172 && leb 16 q.b && leb q.b 31)
  unfolding in_block
  in_172_16 = ground arith

  in_100_64 : in_block 100 64 22 (address q) ≡ (q.a == 100 && leb 64 q.b && leb q.b 127)
  unfolding in_block
  in_100_64 = ground arith

  in_198_18 : in_block 198 18 17 (address q) ≡ (q.a == 198 && (q.b == 18 || q.b == 19))
  unfolding in_block
  in_198_18 = ground arith

  in_224 : in_block 224 0 29 (address q) ≡ leb 224 q.a
  unfolding in_block
  in_224 = ground arith

  -- On four bytes, the byte tests decide whether the 32-bit address lies in a reserved block.
  pub is_private-is_reserved : is_private_ipv4_bytes q ≡ is_reserved (address q)
  unfolding is_private_ipv4_bytes
  is_private-is_reserved = rw (
    in_byte 0 (omega arith),
    in_byte 10 (omega arith),
    in_byte 127 (omega arith),
    in_pair 169 254 (omega arith),
    in_172_16,
    in_pair 192 168 (omega arith),
    in_100_64,
    in_198_18,
    in_224,
  )

-- The block 0/8 is private.
pub private_zero : (q : Quad) → q.a ≡ 0 → is_private_ipv4_bytes q ≡ true
unfolding is_private_ipv4_bytes
private_zero q e = ground arith
