-- ===== src/Permissions/Folders/Tests.antt =====
-- Paths and folders on small inputs.
use dsh_passwords.Prelude.{ℕ, ◌≡◌, refl, ◌↔◌, true, false, List, [], ◌∷◌, ◌++◌, map}
use dsh_passwords.Text.{codes, split, starts_with, ends_with, strip_prefix, has_text}
use dsh_passwords.Posix.{posix_normalize, absolute_path, push_segments, push_segment, pop_segment}
use dsh_passwords.Posix.Laws.{IsDotless}
use dsh_passwords.Permissions.Folders.{
  normalize_path, path_within, folder_allowed, equals_or_below, to_slash,
}
use dsh_passwords.Permissions.Folders.Segments.{IsFolder, path_within_iff}
use dsh_passwords.Permissions.Folders.Dots.{normalize_path-IsDotless}

normalized : normalize_path (codes "/home\\a/./b/../c/") ≡ codes "/home/a/c/"
unfolding normalize_path posix_normalize absolute_path push_segments push_segment pop_segment split
    ends_with starts_with strip_prefix
normalized = refl

-- A folder that is entered with a slash at its end holds none of its children.
slash_folder : folder_allowed (codes "/home/a/x") (codes "/home/a/" ∷ []) ≡ false
unfolding folder_allowed equals_or_below normalize_path posix_normalize absolute_path push_segments
    push_segment pop_segment split ends_with starts_with strip_prefix has_text
slash_folder = refl

home-IsFolder : IsFolder (codes "/home/a")
unfolding normalize_path posix_normalize absolute_path push_segments push_segment pop_segment split
    ends_with starts_with strip_prefix
home-IsFolder = (refl, refl)

path_within_iff_example : (path_within (codes "/home/ab") (codes "/home/a") ≡ true) ↔ (
    (rest : List (List ℕ)) × (split b'/' (normalize_path (codes "/home/ab"))
      ≡ split b'/' (normalize_path (codes "/home/a")) ++ rest))
path_within_iff_example = path_within_iff (codes "/home/ab") (codes "/home/a") home-IsFolder

from_root : starts_with (codes "/") (map to_slash (codes "\\home/../etc")) ≡ true
unfolding starts_with strip_prefix
from_root = refl

normalize_path-IsDotless_example : IsDotless (normalize_path (codes "\\home/../etc"))
normalize_path-IsDotless_example = normalize_path-IsDotless (codes "\\home/../etc") from_root
