-- ===== src/Permissions/Routes/Tests.antt =====
-- The tests of routes on small inputs.
use dsh_passwords.Prelude.{◌≡◌, refl, true, false}
use dsh_passwords.Text.{codes, starts_with, strip_prefix, lower}
use dsh_passwords.Permissions.Routes.{
  is_session_scoped, is_workspace_write, is_workspace_create, is_workspace_delete_or_rename,
  is_workspace_order_write, verb_route, is_dangerous_upload_name,
}

adopt_is_write : is_workspace_write (codes "/api/workspace.adopt/x") ≡ true
unfolding is_workspace_write is_workspace_create is_workspace_delete_or_rename
    is_workspace_order_write verb_route strip_prefix
adopt_is_write = refl

php_is_dangerous : is_dangerous_upload_name (codes "x.PHP7.txt") ≡ true
unfolding is_dangerous_upload_name lower strip_prefix starts_with
php_is_dangerous = refl

read_is_scoped : is_session_scoped (codes "/api/workspaceFiles/read") ≡ true
unfolding is_session_scoped verb_route strip_prefix
read_is_scoped = refl

-- A dot before the slash leaves the session's scope.
dotted_is_unscoped : is_session_scoped (codes "/api/workspaceFiles./read") ≡ false
unfolding is_session_scoped verb_route strip_prefix
dotted_is_unscoped = refl
