-- ===== src/Permissions/Folders/Segments.antt =====
-- `pathWithin` of src/permissions.ts compares whole segments of the paths.
use mathlib.Core.Path.{ap₂}
use dsh_passwords.Prelude.{
  ℕ, ◌≡◌, refl, sym, ap, ◌∙◌, ◌↔◌, Bool, true, false, ◌&&◌, ◌||◌, List, [], ◌∷◌, ◌++◌, ◌==◌,
  if_cases, bytes_eq, bytes_eq_iff, arith, Bool-cases, inl, inr,
}
use dsh_passwords.Text.{codes, split, cons_head, starts_with, strip_prefix, is_empty}
use dsh_passwords.Permissions.Folders.{normalize_path, equals_or_below, path_within}

-- Whether the second list starts with the first one.
abbrev pub seg_prefix : List (List ℕ) → List (List ℕ) → Bool
seg_prefix [] ys = true
seg_prefix (x ∷ xs) [] = false
seg_prefix (x ∷ xs) (y ∷ ys) = bytes_eq y x && seg_prefix xs ys

cons_head-none : (d : ℕ) (xs : List (List ℕ)) → seg_prefix (cons_head d xs) [] ≡ false
cons_head-none d [] = refl
cons_head-none d (x ∷ xs) = refl

cons_head-not-empty : (d : ℕ) (xs : List (List ℕ)) → seg_prefix ([] ∷ []) (cons_head d xs) ≡ false
cons_head-not-empty d [] = refl
cons_head-not-empty d (x ∷ xs) = refl

cons_head-empty : (d : ℕ) (xs ys : List (List ℕ)) → seg_prefix (cons_head d xs) ([] ∷ ys) ≡ false
cons_head-empty d [] ys = refl
cons_head-empty d (x ∷ xs) ys = refl

empty-cons_head : (d : ℕ) (xs ys : List (List ℕ)) → seg_prefix ([] ∷ xs) (cons_head d ys) ≡ false
empty-cons_head d xs [] = refl
empty-cons_head d xs (y ∷ ys) = refl

seg_prefix-none : (c : ℕ) (s : List ℕ) → seg_prefix (split c s) [] ≡ false
unfolding split
seg_prefix-none c [] = refl
seg_prefix-none c (d ∷ s) =
    if_cases (λ l. seg_prefix l [] ≡ false) (c == d) (λ _. refl) (λ _. cons_head-none d (split c s))

seg_prefix-cons_head :
    (a b : ℕ) (xs ys : List (List ℕ))
    → seg_prefix xs [] ≡ false
    → seg_prefix ys [] ≡ false
    → seg_prefix (cons_head a xs) (cons_head b ys) ≡ ((b == a) && seg_prefix xs ys)
seg_prefix-cons_head a b (x ∷ xs) (y ∷ ys) h k = ground arith
seg_prefix-cons_head a b [] ys h k = cc
seg_prefix-cons_head a b (x ∷ xs) [] h k = cc

seg_prefix-empty : (p : List ℕ) → equals_or_below [] p ≡ seg_prefix (split b'/' []) (split b'/' p)
unfolding equals_or_below split starts_with strip_prefix
seg_prefix-empty [] = refl
seg_prefix-empty (c ∷ s) = elim (Bool-cases (b'/' == c)) [
  | inl e ↦ simp e refl
  | inr e ↦ simp e (sym (cons_head-not-empty c (split b'/' s)))
]

equals_or_below-cons :
    (b c : ℕ) (bs cs : List ℕ)
    → equals_or_below (b ∷ bs) (c ∷ cs) ≡ ((c == b) && equals_or_below bs cs)
unfolding equals_or_below starts_with strip_prefix
equals_or_below-cons b c bs cs = ground (arith)

below_same :
    (b c : ℕ) (bs cs : List ℕ)
    → (c == b) ≡ true
    → equals_or_below (b ∷ bs) (c ∷ cs) ≡ equals_or_below bs cs
below_same b c bs cs h = equals_or_below-cons b c bs cs ∙ ap (λ t. t && equals_or_below bs cs) h

below_other :
    (b c : ℕ) (bs cs : List ℕ) → (c == b) ≡ false → equals_or_below (b ∷ bs) (c ∷ cs) ≡ false
below_other b c bs cs h = equals_or_below-cons b c bs cs ∙ ap (λ t. t && equals_or_below bs cs) h

below_nothing : (b : ℕ) (bs : List ℕ) → equals_or_below (b ∷ bs) [] ≡ false
unfolding equals_or_below starts_with strip_prefix
below_nothing b bs = refl

-- The test on the texts is the test on their segments: a sibling with a longer name is not below.
pub equals_or_below-segments :
    (base p : List ℕ) → equals_or_below base p ≡ seg_prefix (split b'/' base) (split b'/' p)
unfolding split
equals_or_below-segments [] p = seg_prefix-empty p
equals_or_below-segments (b ∷ bs) [] =
    if_cases (λ l. equals_or_below (b ∷ bs) [] ≡ seg_prefix l ([] ∷ [])) (b'/' == b)
      (λ _. below_nothing b bs ∙ sym (seg_prefix-none b'/' bs))
      (λ _. below_nothing b bs ∙ sym (cons_head-empty b (split b'/' bs) []))
equals_or_below-segments (b ∷ bs) (c ∷ cs) = elim (Bool-cases (b'/' == b)) [
  | inl e ↦ elim (Bool-cases (b'/' == c)) [
    | inl g ↦ simp (e, g) (below_same b c bs cs (ground arith) ∙ equals_or_below-segments bs cs)
    | inr g ↦
        simp (e, g)
          (below_other b c bs cs (ground arith)
            ∙ sym (empty-cons_head c (split b'/' bs) (split b'/' cs)))
  ]
  | inr e ↦ elim (Bool-cases (b'/' == c)) [
    | inl g ↦
        simp (e, g)
          (below_other b c bs cs (ground arith)
            ∙ sym (cons_head-empty b (split b'/' bs) (split b'/' cs)))
    | inr g ↦
        simp (e, g)
          (equals_or_below-cons b c bs cs
            ∙ ap (λ t. (c == b) && t) (equals_or_below-segments bs cs)
            ∙ sym (
                seg_prefix-cons_head b c (split b'/' bs) (split b'/' cs) (seg_prefix-none b'/' bs)
                  (seg_prefix-none b'/' cs)))
  ]
]

&&-fst : (a b : Bool) → (a && b) ≡ true → a ≡ true
&&-fst a b h = ground arith

&&-snd : (a b : Bool) → (a && b) ≡ true → b ≡ true
&&-snd a b h = ground arith

seg_prefix-append :
    (xs ys : List (List ℕ)) → seg_prefix xs ys ≡ true → (rest : List (List ℕ)) × (ys ≡ xs ++ rest)
seg_prefix-append [] ys h = (ys, refl)
seg_prefix-append (x ∷ xs) [] h = cc
seg_prefix-append (x ∷ xs) (y ∷ ys) h =
    let (rest, e) = seg_prefix-append xs ys (&&-snd _ _ h) in
    (rest, ap₂ (λ a l. a ∷ l) ((bytes_eq_iff y x).0 (&&-fst _ _ h)) e)

pub append-seg_prefix : (xs rest : List (List ℕ)) → seg_prefix xs (xs ++ rest) ≡ true
append-seg_prefix [] rest = refl
append-seg_prefix (x ∷ xs) rest =
    ap₂ (λ a b. a && b) ((bytes_eq_iff x x).1 refl) (append-seg_prefix xs rest)

-- A root that is neither the current folder nor the whole file system.
abbrev pub IsFolder : List ℕ → Type 0
IsFolder root =
    (is_empty (normalize_path root) || bytes_eq (normalize_path root) (codes ".") ≡ false)
    × (bytes_eq (normalize_path root) (codes "/") ≡ false)

-- If the root, normalised, is neither the current folder nor the whole file system, a path is
-- within it exactly if the path's segments are those of the root and then any others.
pub path_within_iff :
    (candidate root : List ℕ)
    → IsFolder root
    → (path_within candidate root ≡ true) ↔ (
        (rest : List (List ℕ)) × (split b'/' (normalize_path candidate)
          ≡ split b'/' (normalize_path root) ++ rest))
unfolding path_within
path_within_iff candidate root (h, k) =
    let e = equals_or_below-segments (normalize_path root) (normalize_path candidate) in
    simp (h, k, e)
      (
        λ w.
            seg_prefix-append (split b'/' (normalize_path root))
              (split b'/' (normalize_path candidate)) w,
        λ (rest, w).
            ap (seg_prefix (split b'/' (normalize_path root))) w
            ∙ append-seg_prefix (split b'/' (normalize_path root)) rest,
      )
