-- ===== src/Store/Sanitize.antt =====
-- `sanitizeAllowedFolders` of src/db.ts: a list of folders that is not empty never means all of them.
use dsh_passwords.Prelude.{
  ℕ, ◌≡◌, refl, ◌∙◌, sym, Bool, true, false, ◌||◌, List, [], ◌∷◌, ◌==◌, map, if_cases,
  if◌then◌else◌, bytes_eq, arith, All, ==_iff, Bool-cases, inl, inr,
}
use dsh_passwords.Text.{codes, has_text, trim, is_space}
use dsh_passwords.Text.Trimming.{map-trim, trim-trim}
use dsh_passwords.Posix.{posix_normalize}
use dsh_passwords.Permissions.Folders.{
  to_slash, lower_drive, normalize_path, is_drive_only, equals_or_below, in_folder, some_folder,
  folder_allowed,
}
use dsh_passwords.Store.{
  deny, clean_folder, is_invalid_folder, some_invalid, set_key, set_all, values, sanitize_cleaned,
  sanitize_allowed_folders,
}

-- A folder that passes the check, with slashes of one kind.
abbrev pub IsFine : List ℕ → Type 0
IsFine f = (is_invalid_folder f ≡ false) × (map to_slash f ≡ f) × (clean_folder f ≡ f)

abbrev pub IsFinePair : List ℕ × List ℕ → Type 0
IsFinePair e = IsFine e.1

to_slash_twice : (s : List ℕ) → map to_slash (map to_slash s) ≡ map to_slash s
to_slash_twice [] = refl
to_slash_twice (c ∷ s) = ground (arith, to_slash_twice s)

space-to_slash : (c : ℕ) → is_space (to_slash c) ≡ is_space c
space-to_slash c =
    if_cases (λ d. is_space d ≡ is_space c) (c == b'\\') (λ e. rw ((==_iff c b'\\').0 e) refl)
      (λ _. refl)

clean_twice : (s : List ℕ) → clean_folder (clean_folder s) ≡ clean_folder s
clean_twice s =
    rw (map-trim to_slash space-to_slash (trim s), trim-trim s) (to_slash_twice (trim s))

pub cleaned-IsFine :
    (l : List (List ℕ))
    → some_invalid (map clean_folder l) ≡ false
    → All IsFine (map clean_folder l)
cleaned-IsFine [] h = tt
cleaned-IsFine (f ∷ l) h = elim (Bool-cases (is_invalid_folder (clean_folder f))) [
  | inl bad ↦ absurd (ground arith)
  | inr good ↦ ((good, to_slash_twice (trim f), clean_twice f), cleaned-IsFine l (ground arith))
]

pub set_key-All :
    (k v : List ℕ) (m : List (List ℕ × List ℕ))
    → IsFine v
    → All IsFinePair m
    → All IsFinePair (set_key k v m)
set_key-All k v [] p h = (p, tt)
set_key-All k v (e ∷ m) p (q, h) =
    if_cases (All IsFinePair) (bytes_eq e.0 k) (λ _. (p, h)) (λ _. (q, set_key-All k v m p h))

pub set_all-All :
    (m : List (List ℕ × List ℕ)) (l : List (List ℕ))
    → All IsFine l
    → All IsFinePair m
    → All IsFinePair (set_all m l)
set_all-All m [] h k = k
set_all-All m (f ∷ l) (p, h) k =
    set_all-All (set_key (posix_normalize f) f m) l h (set_key-All (posix_normalize f) f m p k)

pub values-All : (m : List (List ℕ × List ℕ)) → All IsFinePair m → All IsFine (values m)
values-All [] h = tt
values-All (e ∷ m) (p, h) = (p, values-All m h)

-- Nothing is lost to the point of emptiness.
abbrev some_pair : List (List ℕ × List ℕ) → Bool
some_pair [] = false
some_pair (e ∷ m) = true

set_key-some : (k v : List ℕ) (m : List (List ℕ × List ℕ)) → some_pair (set_key k v m) ≡ true
set_key-some k v [] = refl
set_key-some k v (e ∷ m) =
    if_cases (λ l. some_pair l ≡ true) (bytes_eq e.0 k) (λ _. refl) (λ _. refl)

pub set_all-some :
    (m : List (List ℕ × List ℕ)) (l : List (List ℕ))
    → some_pair m ≡ true
    → some_pair (set_all m l) ≡ true
set_all-some m [] h = h
set_all-some m (f ∷ l) h = set_all-some (set_key (posix_normalize f) f m) l (set_key-some _ f m)

last_of_three : (a b c : Bool) → (if a then true else if b then true else c) ≡ false → c ≡ false
last_of_three true b c h = cc
last_of_three false true c h = cc
last_of_three false false c h = h

or-none : (a b c : Bool) → (a || b || c) ≡ false → (a ≡ false) × (b ≡ false)
or-none true b c h = cc
or-none false true c h = cc
or-none false false c h = (refl, refl)

lower_drive-short :
    (c : ℕ) (s : List ℕ) → bytes_eq s (c ∷ []) ≡ false → bytes_eq (lower_drive s) (c ∷ []) ≡ false
lower_drive-short c [] h = refl
lower_drive-short c (d ∷ []) h = h
lower_drive-short c (d ∷ e ∷ s) h = ground arith

-- A folder that passes the check contains only what equals it or lies below it.
fine-in_folder : (p v : List ℕ) → IsFine v → in_folder p v ≡ equals_or_below (normalize_path v) p
unfolding is_invalid_folder normalize_path
fine-in_folder p v (good, slashes, _) =
    let (dot, rest) = or-none _ _ (is_drive_only (posix_normalize v)) (last_of_three _ _ _ good) in
    let dot' = lower_drive-short b'.' (posix_normalize v) dot in
    let root' = lower_drive-short b'/' (posix_normalize v) rest in rw (slashes, dot', root') refl

abbrev pub below_one : List ℕ → List (List ℕ) → Bool
below_one c [] = false
below_one c (entry ∷ rest) = equals_or_below (normalize_path entry) c || below_one c rest

pub fine-some_folder :
    (p : List ℕ) (l : List (List ℕ)) → All IsFine l → some_folder p l ≡ below_one p l
fine-some_folder p [] h = refl
fine-some_folder p (v ∷ l) (q, h) = rw (fine-in_folder p v q, fine-some_folder p l h) refl

pub unguarded : (b c : Bool) → (if b then false else c) ≡ true → c ≡ true
unguarded true c h = absurd (cc h)
unguarded false c h = h

pub denied : (path : List ℕ) → ¬ (folder_allowed path deny ≡ true)
unfolding folder_allowed has_text
denied path h = cc

pub fine-allowed :
    (path : List ℕ) (m : List (List ℕ × List ℕ))
    → All IsFinePair m
    → some_pair m ≡ true
    → folder_allowed path (values m) ≡ true
    → below_one (normalize_path path) (values m) ≡ true
unfolding folder_allowed
fine-allowed path [] h k a = cc
fine-allowed path (e ∷ m) h k a =
    sym (fine-some_folder (normalize_path path) (values (e ∷ m)) (values-All (e ∷ m) h))
    ∙ unguarded (has_text (codes "__deny__") (values (e ∷ m))) _ a

cleaned-allowed :
    (path f : List ℕ) (fs : List (List ℕ))
    → folder_allowed path (sanitize_cleaned (map clean_folder (f ∷ fs))) ≡ true
    → below_one (normalize_path path) (sanitize_cleaned (map clean_folder (f ∷ fs))) ≡ true
cleaned-allowed path f fs =
    if_cases (λ l. folder_allowed path l ≡ true → below_one (normalize_path path) l ≡ true)
      (some_invalid (map clean_folder (f ∷ fs))) (λ _ a. absurd (denied path a))
      (λ good a.
        let h = set_all-All [] (map clean_folder (f ∷ fs)) (cleaned-IsFine (f ∷ fs) good) tt in
        fine-allowed path _ h (set_all-some _ (map clean_folder fs) refl) a)

-- A list of folders that is not empty, however it is written, is stored as one that allows only
-- what equals one of its folders or lies below it: it never becomes a list that allows all.
pub sanitize-below :
    (path f : List ℕ) (fs : List (List ℕ))
    → folder_allowed path (sanitize_allowed_folders (f ∷ fs)) ≡ true
    → below_one (normalize_path path) (sanitize_allowed_folders (f ∷ fs)) ≡ true
unfolding sanitize_allowed_folders
sanitize-below path f fs =
    if_cases (λ l. folder_allowed path l ≡ true → below_one (normalize_path path) l ≡ true)
      (has_text (codes "__deny__") (f ∷ fs)) (λ _ a. absurd (denied path a))
      (λ _. cleaned-allowed path f fs)
