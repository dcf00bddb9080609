-- ===== src/Text/Trimming.antt =====
-- `trim` of Text: trimming again changes nothing, and a map that keeps the white space commutes.
use mathlib.Core.List.{reverse, reverse-append, reverse-reverse, reverse-cons}
use dsh_passwords.Prelude.{
  ℕ, ◌≡◌, refl, sym, ap, ◌∙◌, subst, Bool, true, not, List, [], ◌∷◌, ◌++◌, map, if_cases,
  Bool-cases, inl, inr,
}
use dsh_passwords.Text.{is_space, trim, trim_start}

-- Trimming twice is trimming once.
abbrev pub starts_full : List ℕ → Bool
starts_full [] = true
starts_full (c ∷ s) = not (is_space c)

trim_start-starts_full : (s : List ℕ) → starts_full (trim_start s) ≡ true
unfolding trim_start
trim_start-starts_full [] = refl
trim_start-starts_full (c ∷ s) =
    if_cases (λ r. starts_full r ≡ true) (is_space c) (λ _. trim_start-starts_full s)
      (λ e. rw e refl)

trim_start_id : (s : List ℕ) → starts_full s ≡ true → trim_start s ≡ s
unfolding trim_start
trim_start_id [] h = refl
trim_start_id (c ∷ s) h =
    if_cases (λ r. r ≡ c ∷ s) (is_space c) (λ e. absurd (cc (e, h))) (λ _. refl)

trim_start-cut : (s : List ℕ) → (p : List ℕ) × (s ≡ p ++ trim_start s)
unfolding trim_start
trim_start-cut [] = ([], refl)
trim_start-cut (c ∷ s) = elim (Bool-cases (is_space c)) [
  | inl e ↦ let (p, q) = trim_start-cut s in (c ∷ p, simp e (ap (λ l. c ∷ l) q))
  | inr e ↦ ([], simp e refl)
]

starts_full-append : (x y : List ℕ) → starts_full (x ++ y) ≡ true → starts_full x ≡ true
starts_full-append [] y h = refl
starts_full-append (c ∷ x) y h = h

reverse_trim-starts_full :
    (a : List ℕ) → starts_full a ≡ true → starts_full (reverse (trim_start (reverse a))) ≡ true
reverse_trim-starts_full a h =
    let (p, q) = trim_start-cut (reverse a) in
    let t = trim_start (reverse a) in
    let e : a ≡ reverse t ++ reverse p =
      sym (reverse-reverse a) ∙ ap reverse q ∙ reverse-append p t in
    starts_full-append (reverse t) (reverse p) (subst (λ l. starts_full l ≡ true) e h)

pub trim-trim : (s : List ℕ) → trim (trim s) ≡ trim s
unfolding trim
trim-trim s =
    let a = trim_start s in
    let b = trim_start (reverse a) in
    let first : trim_start (reverse b) ≡ reverse b =
      trim_start_id (reverse b) (reverse_trim-starts_full a (trim_start-starts_full s)) in
    let second : trim_start b ≡ b = trim_start_id b (trim_start-starts_full (reverse a)) in
    rw (first, reverse-reverse b, second) refl

module _ (f : ℕ → ℕ) (keeps : (c : ℕ) → is_space (f c) ≡ is_space c) where
  map-append : (s t : List ℕ) → map f (s ++ t) ≡ map f s ++ map f t
  map-append [] t = refl
  map-append (c ∷ s) t = ap (λ l. f c ∷ l) (map-append s t)

  map-reverse : (s : List ℕ) → reverse (map f s) ≡ map f (reverse s)
  map-reverse [] = refl
  map-reverse (c ∷ s) =
      reverse-cons (f c) (map f s)
      ∙ ap (λ l. l ++ f c ∷ []) (map-reverse s)
      ∙ sym (map-append (reverse s) (c ∷ []))
      ∙ ap (map f) (sym (reverse-cons c s))

  map-trim_start : (s : List ℕ) → trim_start (map f s) ≡ map f (trim_start s)
  unfolding trim_start
  map-trim_start [] = refl
  map-trim_start (c ∷ s) = elim (Bool-cases (is_space c)) [
    | inl e ↦ let e' = keeps c ∙ e in simp (e, e') (map-trim_start s)
    | inr e ↦ let e' = keeps c ∙ e in simp (e, e') refl
  ]

  pub map-trim : (s : List ℕ) → trim (map f s) ≡ map f (trim s)
  unfolding trim
  map-trim s =
      rw
        (
          map-trim_start s,
          map-reverse (trim_start s),
          map-trim_start (reverse (trim_start s)),
          map-reverse (trim_start (reverse (trim_start s))),
        )
        refl
