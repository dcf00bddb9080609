-- ===== src/Permissions/Host/Tests.antt =====
-- Spellings of 127.0.0.1 with parts in several bases.
use dsh_passwords.Prelude.{ℕ, ◌≡◌, List, [], ◌∷◌, arith}
use dsh_passwords.Permissions.Host.{Quad, parse_ipv4_literal}
use dsh_passwords.Permissions.Host.Expand.{IsBytes, inet_aton}
use dsh_passwords.Permissions.Host.Literal.{
  Spelling, octal, decimal, hexadecimal, literal, private_literal-reserved_address, private_literal,
  reserved_address,
}

abbrev rest : List (Spelling × ℕ)
rest = (hexadecimal, 0) ∷ (decimal, 1) ∷ []

private_literal-reserved_address_example :
    private_literal (parse_ipv4_literal (literal octal 127 rest))
    ≡ reserved_address (inet_aton (127 ∷ 0 ∷ 1 ∷ []))
private_literal-reserved_address_example =
    private_literal-reserved_address octal 127 rest (omega arith)

abbrev carrier : Quad
carrier = record { a = 100; b = 127; c = 3; d = 4 }

carrier-IsBytes : IsBytes carrier
carrier-IsBytes = ground arith
