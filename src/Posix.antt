-- ===== src/Posix.antt =====
-- Node's `path.posix.normalize`, `path.posix.join` and `path.posix.dirname`, which src/permissions.ts calls. The segments
-- are on a stack, the last one first.
pub mod Laws
use mathlib.Core.List.{reverse}
use dsh_passwords.Prelude.{
  ℕ, Bool, true, false, not, ◌||◌, List, [], ◌∷◌, ◌++◌, ◌==◌, if◌then◌else◌, bytes_eq,
}
use dsh_passwords.Text.{codes, is_empty, split, starts_with, ends_with, drop_run}
use dsh_passwords.Text.Laws.{join}

abbrev pub is_dot : List ℕ → Bool
is_dot s = bytes_eq s (codes ".")

abbrev pub is_up : List ℕ → Bool
is_up s = bytes_eq s (codes "..")

-- The stack behind a `..`; `above` keeps it where there is nothing left to go up from.
unfoldable pub pop_segment : Bool → List (List ℕ) → List (List ℕ)
pop_segment above [] = if above then codes ".." ∷ [] else []
pop_segment above (t ∷ ts) = if is_up t then if above then codes ".." ∷ t ∷ ts else t ∷ ts else ts

unfoldable pub push_segment : Bool → List ℕ → List (List ℕ) → List (List ℕ)
push_segment above s stack =
    if is_empty s || is_dot s then stack else if is_up s then pop_segment above stack else s ∷ stack

unfoldable pub push_segments : Bool → List (List ℕ) → List (List ℕ) → List (List ℕ)
push_segments above [] stack = stack
push_segments above (s ∷ ss) stack = push_segments above ss (push_segment above s stack)

abbrev pub join_segments : List (List ℕ) → List ℕ
join_segments [] = []
join_segments (s ∷ ss) = join b'/' s ss

abbrev pub trailing : Bool → List ℕ → List ℕ
trailing true s = s ++ codes "/"
trailing false s = s

-- The parts put together: `slash` says that the path ended with a slash.
unfoldable pub absolute_path : Bool → List ℕ → List ℕ
absolute_path slash [] = codes "/"
absolute_path slash (c ∷ s) = b'/' ∷ trailing slash (c ∷ s)

unfoldable pub relative_path : Bool → List ℕ → List ℕ
relative_path slash [] = trailing slash (codes ".")
relative_path slash (c ∷ s) = trailing slash (c ∷ s)

abbrev pub plain_segments : Bool → List ℕ → List (List ℕ)
plain_segments above p = reverse (push_segments above (split b'/' p) [])

unfoldable pub posix_normalize : List ℕ → List ℕ
posix_normalize [] = codes "."
posix_normalize (c ∷ s) =
    if c == b'/'
    then absolute_path (ends_with (codes "/") (c ∷ s))
        (join_segments (plain_segments false (c ∷ s)))
    else relative_path (ends_with (codes "/") (c ∷ s)) (join_segments (plain_segments true (c ∷ s)))

-- `path.posix.join(a, b)`.
unfoldable pub posix_join : List ℕ → List ℕ → List ℕ
posix_join [] b = posix_normalize b
posix_join (c ∷ s) [] = posix_normalize (c ∷ s)
posix_join (c ∷ s) (d ∷ t) = posix_normalize ((c ∷ s) ++ b'/' ∷ d ∷ t)

abbrev pub is_slash : ℕ → Bool
is_slash c = c == b'/'

abbrev pub root_or_dot : Bool → List ℕ
root_or_dot true = codes "/"
root_or_dot false = codes "."

-- What stands before the last slash, read from its end.
abbrev pub directory_before : Bool → List ℕ → List ℕ
directory_before rooted [] = root_or_dot rooted
directory_before rooted (c ∷ []) = root_or_dot rooted
directory_before rooted (c ∷ d ∷ []) = if rooted then codes "//" else d ∷ []
directory_before rooted (c ∷ s) = reverse s

-- `path.posix.dirname(p)`: the slashes at the end do not count.
unfoldable pub posix_dirname : List ℕ → List ℕ
posix_dirname p =
    directory_before (starts_with (codes "/") p)
      (drop_run (λ c. not (is_slash c)) (drop_run is_slash (reverse p)))
