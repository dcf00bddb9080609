-- ===== src/Permissions/Sandbox/Tests.antt =====
-- The sandbox levels on small values.
use dsh_passwords.Prelude.{ℕ, ◌≡◌, refl, false, some, List}
use dsh_passwords.Text.{codes, has_text}
use dsh_passwords.Json.{Json, string, object, end, field, get_field}
use dsh_passwords.Permissions.Sandbox.{
  read_only, workspace_write, force_reject_approval, set_outcome, clamp_session_history_sandbox,
  clamp_to, clamp_child, clamp_named, clamp_text, event_of, sandbox_rank, sandbox_preset_rank,
  exceeds,
}
use dsh_passwords.Permissions.Sandbox.Levels.{IsClamped}
use dsh_passwords.Permissions.Sandbox.Clamp.{clamp_session_history_sandbox-IsClamped}

abbrev answer : List ℕ → Json
answer outcome =
    object (
      field (codes "approvalId") (string (codes "7"))
        (field (codes "outcome") (string outcome) end))

answer_rejected : force_reject_approval 0 (answer (codes "approved")) ≡ answer (codes "rejected")
unfolding force_reject_approval set_outcome get_field
answer_rejected = refl

abbrev preset_change : List ℕ → Json
preset_change preset = object (
    field (codes "type") (string (codes "permission/preset"))
      (field (codes "data") (object (field (codes "preset") (string preset) end)) end))

preset_clamped :
    clamp_session_history_sandbox
      (some workspace_write)
      (preset_change (codes "danger-full-access"))
    ≡ preset_change (codes "workspace-write")
unfolding clamp_session_history_sandbox clamp_to clamp_child clamp_named clamp_text event_of
    sandbox_rank get_field
preset_clamped = refl

clamp_session_history_sandbox-IsClamped_example :
    IsClamped read_only 0
      (clamp_session_history_sandbox (some read_only) (preset_change (codes "danger-full-access")))
clamp_session_history_sandbox-IsClamped_example =
    clamp_session_history_sandbox-IsClamped read_only (preset_change (codes "danger-full-access"))

-- An inherited name is above no level.
inherited_preset : exceeds (sandbox_preset_rank (codes "constructor")) 0 ≡ false
unfolding sandbox_preset_rank sandbox_rank has_text
inherited_preset = refl
