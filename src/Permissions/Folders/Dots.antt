-- ===== src/Permissions/Folders/Dots.antt =====
-- `normalizePath` of src/permissions.ts resolves the dot segments.
use dsh_passwords.Prelude.{ℕ, ◌≡◌, refl, true, false, List, [], ◌∷◌, ◌==◌, map, arith, if_cases}
use dsh_passwords.Text.{codes, starts_with, ends_with, strip_prefix}
use dsh_passwords.Posix.{posix_normalize, join_segments, plain_segments, trailing}
use dsh_passwords.Posix.Laws.{absolute_path-cases, IsDotless, posix_normalize-IsDotless}
use dsh_passwords.Permissions.Folders.{to_slash, lower_drive, normalize_path}

lower_drive-rooted : (t : List ℕ) → lower_drive (b'/' ∷ t) ≡ b'/' ∷ t
lower_drive-rooted [] = refl
lower_drive-rooted (d ∷ t) = if_cases (λ l. l ≡ b'/' ∷ d ∷ t) (d == b':') (λ _. refl) (λ _. refl)

lower_drive-posix_normalize :
    (s : List ℕ) → lower_drive (posix_normalize (b'/' ∷ s)) ≡ posix_normalize (b'/' ∷ s)
unfolding posix_normalize
lower_drive-posix_normalize s =
    absolute_path-cases (λ l. lower_drive l ≡ l) (ends_with (codes "/") (b'/' ∷ s))
      (join_segments (plain_segments false (b'/' ∷ s))) refl
      (lower_drive-rooted (
        trailing (ends_with (codes "/") (b'/' ∷ s))
          (join_segments (plain_segments false (b'/' ∷ s)))))

starts_with-slash : (c : ℕ) (s : List ℕ) → starts_with (codes "/") (c ∷ s) ≡ true → c ≡ b'/'
unfolding starts_with strip_prefix
starts_with-slash c s h = ground arith

-- The normalised form of a path from the root, with slashes of either kind, has no segment that is
-- `.` or `..`.
pub normalize_path-IsDotless :
    (p : List ℕ) → starts_with (codes "/") (map to_slash p) ≡ true → IsDotless (normalize_path p)
unfolding normalize_path starts_with strip_prefix
normalize_path-IsDotless [] h = cc
normalize_path-IsDotless (c ∷ p) h =
    rw (starts_with-slash (to_slash c) (map to_slash p) h) (
      rw (lower_drive-posix_normalize (map to_slash p))
        (posix_normalize-IsDotless (map to_slash p)))
