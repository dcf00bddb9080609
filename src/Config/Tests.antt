-- ===== src/Config/Tests.antt =====
-- Settings on small inputs.
use dsh_passwords.Prelude.{
  ℕ, ◌≤◌, ◌≡◌, ◌⊎◌, refl, Option, none, some, List, if◌then◌else◌, bytes_eq,
}
use dsh_passwords.Text.{codes, trim, trim_start}
use dsh_passwords.Permissions.Host.{parse_int}
use dsh_passwords.Config.{resolve_remote_mux_config, parse_decimal_int}
use dsh_passwords.Config.Ranges.{resolve_remote_mux_config-ranges}

-- No fragments, a ping that is too frequent, and the defaults.
abbrev small_env : List ℕ → Option (List ℕ)
small_env name =
    if bytes_eq name (codes "MCP_GATEWAY_MUX_FRAGMENT_BYTES")
    then some (codes " 0 ")
    else if bytes_eq name (codes "MCP_GATEWAY_MUX_PING_INTERVAL_MS")
    then some (codes "10")
    else none

small_ping : (resolve_remote_mux_config small_env).ping_interval_ms ≡ 2000
unfolding resolve_remote_mux_config parse_decimal_int trim trim_start parse_int
small_ping = refl

resolve_remote_mux_config-ranges_example :
    (((resolve_remote_mux_config small_env).fragment_bytes ≡ 0)
      ⊎ ((16384 ≤ (resolve_remote_mux_config small_env).fragment_bytes)
          × ((resolve_remote_mux_config small_env).fragment_bytes ≤ 1048576)))
    × (250 ≤ (resolve_remote_mux_config small_env).ping_interval_ms)
    × ((resolve_remote_mux_config small_env).ping_interval_ms ≤ 60000)
    × (2000 ≤ (resolve_remote_mux_config small_env).pong_timeout_ms)
    × ((resolve_remote_mux_config small_env).pong_timeout_ms ≤ 600000)
    × (5000 ≤ (resolve_remote_mux_config small_env).write_stall_ms)
    × ((resolve_remote_mux_config small_env).write_stall_ms ≤ 600000)
resolve_remote_mux_config-ranges_example = resolve_remote_mux_config-ranges small_env
