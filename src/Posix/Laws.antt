-- ===== src/Posix/Laws.antt =====
-- A normalised absolute path has no dot segment.
use mathlib.Core.List.{reverse, reverse-cons}
use mathlib.Core.Path.{ap₂}
use dsh_passwords.Prelude.{
  ℕ, ◌≡◌, refl, ap, ◌∙◌, Bool, true, false, ◌||◌, List, [], ◌∷◌, ◌++◌, ◌==◌, All, All-append,
  append_assoc, if_cases, arith,
}
use dsh_passwords.Text.{codes, split, cons_head, has_code, ends_with, is_empty}
use dsh_passwords.Text.Laws.{join, split-join}
use dsh_passwords.Posix.{
  is_dot, is_up, pop_segment, push_segment, push_segments, join_segments, trailing, absolute_path,
  plain_segments, posix_normalize,
}

abbrev pub IsDotless : List ℕ → Type 0
IsDotless p = All (λ s. (is_dot s || is_up s) ≡ false) (split b'/' p)

-- A segment that is a name.
abbrev pub IsName : List ℕ → Type 0
IsName s = ((is_dot s || is_up s) ≡ false) × (has_code b'/' s ≡ false)

abbrev IsFree : List ℕ → Type 0
IsFree s = has_code b'/' s ≡ false

cons_head-IsFree :
    (d : ℕ) (xs : List (List ℕ)) → (b'/' == d) ≡ false → All IsFree xs → All IsFree (cons_head d xs)
unfolding has_code
cons_head-IsFree d [] h k = (ap (λ b. b || false) h, tt)
cons_head-IsFree d (x ∷ xs) h (k, ks) = (ap₂ (λ a b. a || b) h k, ks)

split-IsFree : (p : List ℕ) → All IsFree (split b'/' p)
unfolding split has_code
split-IsFree [] = (refl, tt)
split-IsFree (d ∷ s) =
    if_cases (All IsFree) (b'/' == d) (λ _. (refl, split-IsFree s))
      (λ e. cons_head-IsFree d (split b'/' s) e (split-IsFree s))

pop_segment-IsName :
    (stack : List (List ℕ)) → All IsName stack → All IsName (pop_segment false stack)
unfolding pop_segment
pop_segment-IsName [] h = tt
pop_segment-IsName (t ∷ ts) (h, hs) = if_cases (All IsName) (is_up t) (λ _. (h, hs)) (λ _. hs)

||-false : (a b : Bool) → a ≡ false → b ≡ false → (a || b) ≡ false
||-false a b h k = ground arith

||-right : (a b : Bool) → (a || b) ≡ false → b ≡ false
||-right a b h = ground arith

push_segment-IsName :
    (s : List ℕ) (stack : List (List ℕ))
    → IsFree s
    → All IsName stack
    → All IsName (push_segment false s stack)
unfolding push_segment
push_segment-IsName s stack free h =
    if_cases (All IsName) (is_empty s || is_dot s) (λ _. h)
      (λ e.
        if_cases (All IsName) (is_up s) (λ _. pop_segment-IsName stack h)
          (λ g. ((||-false _ _ (||-right _ _ e) g, free), h)))

push_segments-IsName :
    (ss stack : List (List ℕ))
    → All IsFree ss
    → All IsName stack
    → All IsName (push_segments false ss stack)
unfolding push_segments
push_segments-IsName [] stack free h = h
push_segments-IsName (s ∷ ss) stack (f, fs) h =
    push_segments-IsName ss (push_segment false s stack) fs (push_segment-IsName s stack f h)

All-reverse {ℓ κ} : {A : Type ℓ} (P : A → Type κ) (xs : List A) → All P xs → All P (reverse xs)
All-reverse P [] h = tt
All-reverse P (x ∷ xs) (h, hs) =
    rw (reverse-cons) (All-append P (reverse xs) (x ∷ []) (All-reverse P xs hs) (h, tt))

All-mono {ℓ κ λ'} :
    {A : Type ℓ} (P : A → Type κ) (Q : A → Type λ') (xs : List A)
    → ((a : A) → P a → Q a)
    → All P xs
    → All Q xs
All-mono P Q [] f h = tt
All-mono P Q (x ∷ xs) f (h, hs) = (f x h, All-mono P Q xs f hs)

plain_segments-IsName : (p : List ℕ) → All IsName (plain_segments false p)
plain_segments-IsName p =
    All-reverse IsName (push_segments false (split b'/' p) [])
      (push_segments-IsName (split b'/' p) [] (split-IsFree p) tt)

join-trailing :
    (s : List ℕ) (ss : List (List ℕ)) → join b'/' s ss ++ codes "/" ≡ join b'/' s (ss ++ [] ∷ [])
join-trailing s [] = refl
join-trailing s (t ∷ ss) =
    append_assoc s (b'/' ∷ join b'/' t ss) (codes "/")
    ∙ ap (λ l. s ++ b'/' ∷ l) (join-trailing t ss)

join-IsDotless :
    (s : List ℕ) (ss : List (List ℕ)) → All IsName (s ∷ ss) → IsDotless (join b'/' s ss)
join-IsDotless s ss (h, hs) =
    rw (split-join b'/' s ss h.1 (All-mono IsName IsFree ss (λ q k. k.1) hs))
      (All-mono IsName (λ q. (is_dot q || is_up q) ≡ false) (s ∷ ss) (λ q k. k.0) (h, hs))

trailing-IsDotless :
    (slash : Bool) (s : List ℕ) (ss : List (List ℕ))
    → All IsName (s ∷ ss)
    → IsDotless (trailing slash (join b'/' s ss))
unfolding has_code
trailing-IsDotless false s ss h = join-IsDotless s ss h
trailing-IsDotless true s ss (h, hs) =
    rw (join-trailing s ss)
      (join-IsDotless s (ss ++ [] ∷ []) (h, All-append IsName ss ([] ∷ []) hs ((refl, refl), tt)))

rooted-IsDotless : (p : List ℕ) → IsDotless p → IsDotless (b'/' ∷ p)
unfolding split
rooted-IsDotless p h = (refl, h)

pub absolute_path-cases :
    (P : List ℕ → Type 0) (slash : Bool) (t : List ℕ)
    → P (codes "/")
    → P (b'/' ∷ trailing slash t)
    → P (absolute_path slash t)
unfolding absolute_path
absolute_path-cases P slash [] h k = h
absolute_path-cases P slash (c ∷ t) h k = k

absolute_path-IsDotless :
    (slash : Bool) (ss : List (List ℕ))
    → All IsName ss
    → IsDotless (absolute_path slash (join_segments ss))
unfolding absolute_path split
absolute_path-IsDotless slash [] h = (refl, (refl, tt))
absolute_path-IsDotless slash (s ∷ ss) h =
    absolute_path-cases IsDotless slash (join b'/' s ss) (refl, (refl, tt))
      (rooted-IsDotless (trailing slash (join b'/' s ss)) (trailing-IsDotless slash s ss h))

-- An absolute path stays one, and keeps no segment that is `.` or `..`.
pub posix_normalize-IsDotless : (s : List ℕ) → IsDotless (posix_normalize (b'/' ∷ s))
unfolding posix_normalize
posix_normalize-IsDotless s =
    absolute_path-IsDotless (ends_with (codes "/") (b'/' ∷ s)) (plain_segments false (b'/' ∷ s))
      (plain_segments-IsName (b'/' ∷ s))
