-- ===== src/Permissions/Host6/Embedded.antt =====
-- `isPrivateIpv6` of src/permissions.ts on IPv4 addresses embedded in IPv6 addresses.
use dsh_passwords.Prelude.{ℕ, ◌≡◌, refl, List, [], ◌∷◌, ◌++◌, arith}
use dsh_passwords.Permissions.Host.{Quad, is_private_ipv4_bytes}
use dsh_passwords.Permissions.Host.Ranges.{private_zero}
use dsh_passwords.Permissions.Host6.{is_private_ipv6, zeros}

abbrev pub quad_bytes : Quad → List ℕ
quad_bytes q = q.a ∷ q.b ∷ q.c ∷ q.d ∷ []

-- Mapped (`::ffff:a.b.c.d`), compatible (`::a.b.c.d`) and NAT64 (`64:ff9b::a.b.c.d`) addresses are
-- judged as the IPv4 address in them.
pub is_private_ipv6-embedded :
    (q : Quad)
    → (is_private_ipv6 (zeros 10 ++ 0xff ∷ 0xff ∷ quad_bytes q) ≡ is_private_ipv4_bytes q)
      × (is_private_ipv6 (zeros 12 ++ quad_bytes q) ≡ is_private_ipv4_bytes q)
      × (is_private_ipv6 (0 ∷ 0x64 ∷ 0xff ∷ 0x9b ∷ zeros 8 ++ quad_bytes q)
          ≡ is_private_ipv4_bytes q)
unfolding is_private_ipv6
is_private_ipv6-embedded q = (refl, ground (arith, private_zero q), refl)
