-- ===== src/Store/Sets.antt =====
-- Sets of texts in src/db.ts: `new Set`, the cleaned session ids and `sameStringSet`.
use dsh_passwords.Prelude.{
  ℕ, zero, suc, ◌≤◌, ◌≡◌, refl, ap, ◌∙◌, sym, Bool, true, false, ◌||◌, List, [], ◌∷◌, if_cases,
  if◌then◌else◌, bytes_eq, bytes_eq_iff, arith, Bool-cases, inl, inr, length, take, and-left,
  and-right, or-cases,
}
use dsh_passwords.Text.{has_text}
use dsh_passwords.Store.{
  remove_text, distinct, session_ids, normalize_session_id_set, insert_text, sort_texts, text_leb,
  all_in, same_string_set,
}

-- No text stands twice.
abbrev pub HasNoTwins : List (List ℕ) → Type 0
HasNoTwins [] = Unit
HasNoTwins (x ∷ l) = (has_text x l ≡ false) × HasNoTwins l

has_text-remove :
    (x y : List ℕ) (l : List (List ℕ)) → has_text y l ≡ false → has_text y (remove_text x l) ≡ false
unfolding has_text
has_text-remove x y [] h = refl
has_text-remove x y (z ∷ l) h = ground (arith, has_text-remove x y l)

removed : (x : List ℕ) (l : List (List ℕ)) → has_text x (remove_text x l) ≡ false
unfolding has_text
removed x [] = refl
removed x (z ∷ l) = ground (arith, removed x l)

remove-HasNoTwins : (x : List ℕ) (l : List (List ℕ)) → HasNoTwins l → HasNoTwins (remove_text x l)
remove-HasNoTwins x [] h = tt
remove-HasNoTwins x (z ∷ l) (p, h) =
    if_cases HasNoTwins (bytes_eq x z) (λ _. remove-HasNoTwins x l h)
      (λ _. (has_text-remove x z l p, remove-HasNoTwins x l h))

distinct-HasNoTwins : (l : List (List ℕ)) → HasNoTwins (distinct l)
unfolding distinct
distinct-HasNoTwins [] = tt
distinct-HasNoTwins (x ∷ l) =
    (removed x (distinct l), remove-HasNoTwins x (distinct l) (distinct-HasNoTwins l))

has_text-take :
    (n : ℕ) (x : List ℕ) (l : List (List ℕ)) → has_text x l ≡ false → has_text x (take n l) ≡ false
unfolding has_text
has_text-take zero x l h = refl
has_text-take (suc n) x [] h = refl
has_text-take (suc n) x (y ∷ l) h = ground (arith, has_text-take n x l)

take-HasNoTwins : (n : ℕ) (l : List (List ℕ)) → HasNoTwins l → HasNoTwins (take n l)
take-HasNoTwins zero l h = tt
take-HasNoTwins (suc n) [] h = tt
take-HasNoTwins (suc n) (x ∷ l) (p, h) = (has_text-take n x l p, take-HasNoTwins n l h)

pub ids-HasNoTwins : (l : List (List ℕ)) → HasNoTwins (normalize_session_id_set l)
unfolding normalize_session_id_set
ids-HasNoTwins l =
    take-HasNoTwins 2000 (distinct (session_ids l)) (distinct-HasNoTwins (session_ids l))

-- Sorting keeps the elements and their number.
insert-has_text :
    (x y : List ℕ) (l : List (List ℕ)) → has_text y (insert_text x l) ≡ has_text y (x ∷ l)
unfolding has_text
insert-has_text x y [] = refl
insert-has_text x y (z ∷ l) =
    if_cases (λ m. has_text y m ≡ has_text y (x ∷ z ∷ l)) (text_leb x z) (λ _. refl)
      (λ _. rw (insert-has_text x y l) (swapped (bytes_eq y z) (bytes_eq y x) (has_text y l)))
  where
    swapped : (a b c : Bool) → (a || (b || c)) ≡ (b || (a || c))
    swapped true true c = refl
    swapped true false c = refl
    swapped false b c = refl

pub sort-has_text : (y : List ℕ) (l : List (List ℕ)) → has_text y (sort_texts l) ≡ has_text y l
unfolding sort_texts has_text
sort-has_text y [] = refl
sort-has_text y (x ∷ l) =
    insert-has_text x y (sort_texts l) ∙ ap (λ b. bytes_eq y x || b) (sort-has_text y l)

-- The first occurrence of a text taken out.
abbrev without : List ℕ → List (List ℕ) → List (List ℕ)
without x [] = []
without x (y ∷ l) = let rest = without x l in if bytes_eq x y then l else y ∷ rest

without-length :
    (x : List ℕ) (l : List (List ℕ)) → has_text x l ≡ true → suc (length (without x l)) ≡ length l
unfolding has_text
without-length x [] h = cc
without-length x (y ∷ l) h = ground (arith, without-length x l)

without-other :
    (x y : List ℕ) (l : List (List ℕ))
    → bytes_eq y x ≡ false
    → has_text y (without x l) ≡ has_text y l
unfolding has_text
without-other x y [] ne = refl
without-other x y (z ∷ l) ne = elim (Bool-cases (bytes_eq x z)) [
  | inl same ↦
      let other : bytes_eq y z ≡ false = rw (sym ((bytes_eq_iff x z).0 same)) ne in
      simp (same, other) refl
  | inr apart ↦ simp apart (ap (λ b. bytes_eq y z || b) (without-other x y l ne))
]

bytes_ne : (x y : List ℕ) → bytes_eq x y ≡ false → bytes_eq y x ≡ false
bytes_ne x y h = elim (Bool-cases (bytes_eq y x)) [
  | inl same ↦
      let e : bytes_eq x y ≡ true = (bytes_eq_iff x y).1 (sym ((bytes_eq_iff y x).0 same)) in
      absurd (cc (e, h))
  | inr other ↦ other
]

or-false : (a b : Bool) → (a || b) ≡ false → (a ≡ false) × (b ≡ false)
or-false true b h = absurd (cc h)
or-false false b h = (refl, h)

all_in-without :
    (x : List ℕ) (b a : List (List ℕ))
    → has_text x b ≡ false
    → all_in b a ≡ true
    → all_in b (without x a) ≡ true
unfolding has_text
all_in-without x [] a n h = refl
all_in-without x (y ∷ b) a n h =
    let (ne, rest) = or-false (bytes_eq x y) (has_text x b) n in
    rw
      (
        without-other x y a (bytes_ne x y ne),
        and-left (has_text y a) (all_in b a) h,
        all_in-without x b a rest (and-right (has_text y a) (all_in b a) h),
      )
      refl

-- As many texts, each of which is in `a`, are all of `a`.
all_in-full :
    (b a : List (List ℕ)) (x : List ℕ)
    → HasNoTwins b
    → all_in b a ≡ true
    → length a ≤ length b
    → has_text x a ≡ true
    → has_text x b ≡ true
unfolding has_text
all_in-full [] [] x u h le k = k
all_in-full [] (y ∷ a) x u h le k = absurd (omega arith)
all_in-full (y ∷ b) a x (p, u) h le k =
    let there : has_text y a ≡ true = and-left (has_text y a) (all_in b a) h in
    elim (Bool-cases (bytes_eq x y)) [
      | inl same ↦ rw same refl
      | inr ne ↦ rw ne (
          all_in-full b (without y a) x u
            (all_in-without y b a p (and-right (has_text y a) (all_in b a) h))
            (omega (arith, without-length y a there)) (without-other y x a ne ∙ k))
    ]

all_in-has_text :
    (b a : List (List ℕ)) (x : List ℕ)
    → all_in b a ≡ true
    → has_text x b ≡ true
    → has_text x a ≡ true
unfolding has_text
all_in-has_text [] a x h k = cc
all_in-has_text (y ∷ b) a x h k = elim (or-cases (bytes_eq x y) (has_text x b) k) [
  | inl same ↦ rw ((bytes_eq_iff x y).0 same) (and-left (has_text y a) (all_in b a) h)
  | inr more ↦ all_in-has_text b a x (and-right (has_text y a) (all_in b a) h) more
]

Bool-ext : (a b : Bool) → (a ≡ true → b ≡ true) → (b ≡ true → a ≡ true) → a ≡ b
Bool-ext true b f g = sym (f refl)
Bool-ext false true f g = g refl
Bool-ext false false f g = refl

same-length :
    (a b : List (List ℕ)) → same_string_set a b ≡ true → (length a ≡ length b) × (all_in b a ≡ true)
unfolding same_string_set
same-length a b h = ground (arith, h)

-- `sameStringSet`, which compares the lengths and looks up each text of the second list only,
-- accepts two lists of the same texts if no text stands twice in the second one.
pub same_string_set-has_text :
    (a b : List (List ℕ))
    → HasNoTwins b
    → same_string_set a b ≡ true
    → (x : List ℕ) → has_text x a ≡ has_text x b
same_string_set-has_text a b u h x =
    let (lengths, inside) = same-length a b h in
    Bool-ext (has_text x a) (has_text x b) (λ k. all_in-full b a x u inside (omega arith) k)
      (λ k. all_in-has_text b a x inside k)
