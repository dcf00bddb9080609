-- ===== src/Permissions/Host6/Tests.antt =====
-- Hosts on small inputs.
use dsh_passwords.Permissions.Host.{Quad}

abbrev metadata : Quad
metadata = record { a = 169; b = 254; c = 169; d = 254 }
