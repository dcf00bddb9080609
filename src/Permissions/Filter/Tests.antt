-- ===== src/Permissions/Filter/Tests.antt =====
-- The response filters on small values.
use dsh_passwords.Prelude.{ℕ, ◌≡◌, refl, Bool, false, some, List, bytes_eq}
use dsh_passwords.Text.{codes}
use dsh_passwords.Json.{Json, string, array, object, nil, cons, end, field, get_field, is_proto}
use dsh_passwords.Permissions.Filter.{
  filter_session_items, is_hidden_session, archived_changed, all_kept, filter_copy,
}
use dsh_passwords.Permissions.Filter.Clean.{IsClean}
use dsh_passwords.Permissions.Filter.Copy.{IsSessionAllowed, filter_session_items-IsClean, IsShown}

abbrev is_mine : List ℕ → Bool
is_mine id = bytes_eq id (codes "a")

abbrev in_home : List ℕ → Bool
in_home cwd = bytes_eq cwd (codes "/home")

abbrev session_of : List ℕ → Json
session_of id =
    object
      (field (codes "sessionId") (string id) (field (codes "cwd") (string (codes "/home")) end))

abbrev mine : Json
mine = object (field (codes "items") (array (cons (session_of (codes "a")) nil)) end)

abbrev both : Json
both = object (
    field (codes "items")
      (array (cons (session_of (codes "a")) (cons (session_of (codes "b")) nil))) end)

filter_both : filter_session_items both is_mine (some in_home) 0 ≡ mine
unfolding filter_session_items filter_copy get_field is_proto
filter_both = refl

filter_session_items-IsClean_example :
    IsClean
      (IsSessionAllowed is_mine (some in_home))
      (filter_session_items both is_mine (some in_home) 0)
filter_session_items-IsClean_example = filter_session_items-IsClean both is_mine (some in_home) 0

mine-IsShown : IsShown 16 (is_hidden_session is_mine (some in_home)) 0 mine
unfolding IsShown get_field is_proto
mine-IsShown = (refl, (refl, (refl, (refl, (refl, (refl, refl, (refl, refl, tt))), tt)), tt))

abbrev workspaces : Json
workspaces = object (
    field (codes "sessionIds") (array (cons (string (codes "a")) (cons (string (codes "b")) nil)))
      end)

abbrev archive : Json
archive = object (field (codes "archivedSessionIds") (array (cons (string (codes "a")) nil)) end)

archive_unchanged : archived_changed is_mine 0 archive ≡ false
unfolding archived_changed all_kept
archive_unchanged = refl
