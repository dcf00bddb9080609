-- ===== src/Store/Tests.antt =====
-- The tables of src/db.ts on small inputs.
use dsh_passwords.Prelude.{ℕ, ◌≡◌, refl, true, false, none, some, List, [], ◌∷◌, arith, if_cases}
use dsh_passwords.Text.{
  codes, has_text, split, starts_with, ends_with, strip_prefix, trim, trim_start,
}
use dsh_passwords.Posix.{posix_normalize, absolute_path, push_segments, push_segment, pop_segment}
use dsh_passwords.Permissions.Folders.{normalize_path, folder_allowed, equals_or_below}
use dsh_passwords.Store.{
  Store, PermissionRow, absent, column_of, sanitize_allowed_folders, normalize_session_id_set,
  texts_of_user, sort_texts, distinct, same_string_set, is_invalid_folder, parse_allowed_folders,
}
use dsh_passwords.Store.Permissions.{
  Request, saved, set_permissions, commit_permissions, conflict_of, list_user_session_grants,
}
use dsh_passwords.Store.Reading.{find_row}
use dsh_passwords.Store.Sanitize.{below_one, sanitize-below}
use dsh_passwords.Store.Rows.{granted}
use dsh_passwords.Store.Grants.Refined.{run, effect, grants_of, seed_call, run-effect}
use dsh_passwords.Store.Baseline.{set_permissions-baseline}
use dsh_passwords.Store.Workspaces.{remove_user_owned_workspace}
use dsh_passwords.Store.Tree.{cleanup_deleted_workspace_tree}
use dsh_passwords.Store.Workspaces.Deletion.{row_allows, deletions-narrow}
use dsh_passwords.Store.Usage.{UsageRow, is_of, get_usage, touch_usage, add_tokens}
use dsh_passwords.Store.Usage.Credible.{IsFoundCredible, usage-credible}

-- A user with one folder, made by a workspace of that user.
abbrev bob : PermissionRow
bob = record {
  user_id = 2;
  allowed_folders = column_of (codes "/a" ∷ []);
  hourly_token_limit = none;
  daily_minutes_limit = none;
  allow_upload = false;
  allow_git_download = false;
  allow_workspace_create = true;
  allow_ssh = false;
  allowed_agent_presets = absent;
  allowed_models = absent;
  allow_chat_media = false;
  banned = false;
  sandbox_mode = none;
  disabled_sessions = column_of [];
  session_grants_seeded = false;
}

abbrev small : Store
small = record {
  permissions = bob ∷ [];
  grants = (2, codes "s1") ∷ (3, codes "s1") ∷ [];
  workspaces = (2, codes "/a") ∷ [];
  auto_granted = (2, codes "/a") ∷ [];
}

-- A save whose caller has seen the one grant.
abbrev save : Request
save = record {
  allowed_folders = codes "/b" ∷ [];
  hourly_token_limit = none;
  daily_minutes_limit = some 60;
  allow_upload = false;
  allow_git_download = false;
  allow_workspace_create = false;
  allow_ssh = none;
  allowed_agent_presets = none;
  allowed_models = none;
  allow_chat_media = none;
  banned = false;
  sandbox_mode = some (some (codes "read-only"));
  disabled_sessions = none;
  expected_disabled_sessions = none;
  allowed_session_ids = some (codes "s2" ∷ []);
  session_grants_seeded = none;
  expected_allowed_session_ids = some (codes "s1" ∷ []);
  expected_permission_state = none;
}

abbrev after_save : Store
after_save = commit_permissions 2 save small

saves : set_permissions 2 save small ≡ saved after_save
unfolding set_permissions conflict_of list_user_session_grants texts_of_user sort_texts
    normalize_session_id_set distinct same_string_set has_text
saves = refl

set_permissions-baseline_example :
    (granted 2 (codes "s1") small.grants
      ≡ has_text (codes "s1") (normalize_session_id_set (codes "s1" ∷ [])))
    × (granted 2 (codes "s1") after_save.grants
        ≡ has_text (codes "s1") (normalize_session_id_set (codes "s2" ∷ [])))
set_permissions-baseline_example =
    set_permissions-baseline 2 save small after_save (codes "s2" ∷ []) (codes "s1" ∷ []) refl refl
      saves (codes "s1")

run-effect_example :
    grants_of (run (seed_call 2 (codes "s4" ∷ [])) small) 2 (codes "s4")
    ≡ effect (seed_call 2 (codes "s4" ∷ [])) small (grants_of small) 2 (codes "s4")
run-effect_example = run-effect (seed_call 2 (codes "s4" ∷ [])) small 2 (codes "s4")

allowed_inside : folder_allowed (codes "/a/b") (sanitize_allowed_folders (codes " /a" ∷ [])) ≡ true
unfolding folder_allowed equals_or_below normalize_path posix_normalize absolute_path push_segments
    push_segment pop_segment split ends_with starts_with strip_prefix has_text
    sanitize_allowed_folders is_invalid_folder trim trim_start
allowed_inside = refl

sanitize-below_example :
    below_one (normalize_path (codes "/a/b")) (sanitize_allowed_folders (codes " /a" ∷ [])) ≡ true
sanitize-below_example = sanitize-below (codes "/a/b") (codes " /a") [] allowed_inside

outside : row_allows (codes "/etc") (find_row 2 small.permissions) ≡ false
unfolding folder_allowed equals_or_below normalize_path posix_normalize absolute_path push_segments
    push_segment pop_segment split ends_with starts_with strip_prefix has_text
    sanitize_allowed_folders is_invalid_folder trim trim_start find_row parse_allowed_folders
outside = refl

deletions-narrow_example :
    (row_allows
        (codes "/etc")
        (find_row 2 (remove_user_owned_workspace 2 (codes "/a") [] small).0.permissions)
      ≡ false)
    × (row_allows (codes "/etc") (
          find_row 2
            (cleanup_deleted_workspace_tree false (λ p. p) (codes "/a") [] small).0.permissions)
        ≡ false)
deletions-narrow_example =
    deletions-narrow false (λ p. p) (codes "/a") [] 2 2 (codes "/etc") small outside

-- Three seconds of use.
abbrev used : UsageRow
used = record {
  user_id = 2;
  day = codes "2024-01-01";
  first_seen_at = 1000;
  last_active_at = some 4000;
  active_seconds = 3;
  hourly_window_start = some 1000;
  hourly_tokens = 10;
}

used-IsFoundCredible : (u : ℕ) (day : List ℕ) → IsFoundCredible 4000 (get_usage u day (used ∷ []))
unfolding get_usage
used-IsFoundCredible u day =
    if_cases (IsFoundCredible 4000) (is_of u day used)
      (λ _. (omega arith, omega arith, omega arith)) (λ _. tt)

usage-credible_example :
    IsFoundCredible 9000
      (get_usage 2 (codes "2024-01-01") (touch_usage 2 (codes "2024-01-01") 9000 (used ∷ [])))
    × IsFoundCredible 9000
        (get_usage 2 (codes "2024-01-01") (add_tokens 2 (codes "2024-01-01") 7 9000 (used ∷ [])))
usage-credible_example =
    usage-credible 4000 9000 (used ∷ []) used-IsFoundCredible (omega arith) 2 7 (codes "2024-01-01")
      2 (codes "2024-01-01")
