-- ===== src/Permissions/Routes/Query/Tests.antt =====
-- Calls of `workspaceFiles` on small inputs.
use dsh_passwords.Prelude.{◌≡◌, refl, true}
use dsh_passwords.Text.{codes, split, has_text, has_code, strip_prefix}
use dsh_passwords.Permissions.Classify.{api_endpoint_of}
use dsh_passwords.Permissions.Routes.Query.{
  is_workspace_files_session_scoped_request, workspace_files_method_of,
}

-- With a dot before the slash a path is a call of `workspaceFiles`.
dotted_is_call :
    is_workspace_files_session_scoped_request (codes "/api/workspaceFiles./read") ≡ true
unfolding is_workspace_files_session_scoped_request workspace_files_method_of api_endpoint_of split
    has_text has_code strip_prefix
dotted_is_call = refl
