-- ===== src/Store/Usage/Credible.antt =====
-- The time that `touchUsage` of src/db.ts counts, against the clock.
use dsh_passwords.Prelude.{
  ℕ, ◌+◌, ◌-◌, ◌*◌, ◌≤◌, ◌≡◌, refl, ap, ◌∙◌, sym, subst, Bool, true, false, ◌&&◌, Option, none,
  some, List, [], ◌∷◌, ◌++◌, ◌==◌, ==_iff, leb, ltb, if◌then◌else◌, bytes_eq, bytes_eq_iff, arith,
  Bool-cases, inl, inr, ◌⊎◌, if_cases, some_inj, and-left, and-right,
}
use dsh_passwords.Store.Usage.{
  UsageRow, is_of, get_usage, update_usage, new_usage, active_delta, touched, touch_found,
  touch_usage, counted, start_or, tokens_found, add_tokens,
}

-- The counted time is at most twice the time from the first use to the last one, and the last use
-- is not ahead of the clock.
abbrev pub Credible : ℕ → ℕ → Option ℕ → ℕ → Type 0
Credible first seconds none now = (seconds ≡ 0) × (first ≤ now)
Credible first seconds (some last) now =
    (first ≤ last) × (last ≤ now) × (seconds * 1000 ≤ 2 * (last - first))

abbrev pub IsCredible : ℕ → UsageRow → Type 0
IsCredible now r = Credible r.first_seen_at r.active_seconds r.last_active_at now

abbrev pub AllCredible : ℕ → List UsageRow → Type 0
AllCredible now l =
    (u : ℕ) (day : List ℕ) (r : UsageRow) → get_usage u day l ≡ some r → IsCredible now r

delta-bound : (now last : ℕ) → last ≤ now → active_delta now (some last) * 1000 ≤ 2 * (now - last)
delta-bound now last h = elim (Bool-cases (ltb last now)) [
  | inl e ↦ simp e (omega arith)
  | inr e ↦ simp e (omega arith)
]

touched-Credible :
    (first seconds now later : ℕ) (o : Option ℕ)
    → now ≤ later
    → Credible first seconds o now
    → Credible first (seconds + active_delta later o) (some later) later
touched-Credible first seconds now later none le (z, f) = (omega arith, omega arith, omega arith)
touched-Credible first seconds now later (some last) le (f, p, b) =
    (omega arith, omega arith, omega (arith, delta-bound later last (omega arith)))

later-Credible :
    (first seconds now later : ℕ) (o : Option ℕ)
    → now ≤ later
    → Credible first seconds o now
    → Credible first seconds o later
later-Credible first seconds now later none le (z, f) = (z, omega arith)
later-Credible first seconds now later (some last) le (f, p, b) = (f, omega arith, b)

abbrev mapped : (UsageRow → UsageRow) → Option UsageRow → Option UsageRow
mapped f none = none
mapped f (some r) = some (f r)

-- A write on the row of a key, seen from this key and from another one.
get_usage-update :
    (u : ℕ) (day : List ℕ) (f : UsageRow → UsageRow) (l : List UsageRow)
    → ((r : UsageRow) → is_of u day (f r) ≡ is_of u day r)
    → get_usage u day (update_usage u day f l) ≡ mapped f (get_usage u day l)
unfolding get_usage
get_usage-update u day f [] keeps = refl
get_usage-update u day f (r ∷ l) keeps = elim (Bool-cases (is_of u day r)) [
  | inl e ↦ let e' = keeps r ∙ e in simp (e, e') refl
  | inr e ↦ simp e (get_usage-update u day f l keeps)
]

get_usage-update_other :
    (u v : ℕ) (day day' : List ℕ) (f : UsageRow → UsageRow) (l : List UsageRow)
    → ((r : UsageRow) (w : ℕ) (d : List ℕ) → is_of w d (f r) ≡ is_of w d r)
    → ((r : UsageRow) → is_of u day r ≡ true → is_of v day' r ≡ false)
    → get_usage v day' (update_usage u day f l) ≡ get_usage v day' l
unfolding get_usage
get_usage-update_other u v day day' f [] keeps ne = refl
get_usage-update_other u v day day' f (r ∷ l) keeps ne = elim (Bool-cases (is_of u day r)) [
  | inl e ↦
      let apart = ne r e in
      let apart' = keeps r v day' ∙ apart in
      simp (e, apart, apart') (get_usage-update_other u v day day' f l keeps ne)
  | inr e ↦ simp e (
      ap (λ o. if is_of v day' r then some r else o)
        (get_usage-update_other u v day day' f l keeps ne))
]

apart_keys :
    (u v : ℕ) (day day' : List ℕ)
    → (u == v && bytes_eq day day') ≡ false
    → (r : UsageRow) → is_of u day r ≡ true
    → is_of v day' r ≡ false
apart_keys u v day day' ne r e =
    let i : r.user_id ≡ u =
      (==_iff r.user_id u).0 (and-left (r.user_id == u) (bytes_eq r.day day) e) in
    let d : r.day ≡ day =
      (bytes_eq_iff r.day day).0 (and-right (r.user_id == u) (bytes_eq r.day day) e) in
    rw (i, d) ne

-- What is found after a write was there before, or is the row that was written.
found_after :
    (u v : ℕ) (day day' : List ℕ) (f : UsageRow → UsageRow) (l : List UsageRow) (old r : UsageRow)
    → ((x : UsageRow) (w : ℕ) (d : List ℕ) → is_of w d (f x) ≡ is_of w d x)
    → get_usage u day l ≡ some old
    → get_usage v day' (update_usage u day f l) ≡ some r
    → (get_usage v day' l ≡ some r) ⊎ (f old ≡ r)
found_after u v day day' f l old r keeps found e = elim (Bool-cases (u == v && bytes_eq day day')) [
  | inl same ↦
      let i : u ≡ v = (==_iff u v).0 (and-left (u == v) (bytes_eq day day') same) in
      let d : day ≡ day' =
        (bytes_eq_iff day day').0 (and-right (u == v) (bytes_eq day day') same) in
      let here : get_usage u day (update_usage u day f l) ≡ some r =
        subst (λ w. get_usage w day (update_usage u day f l) ≡ some r) (sym i)
          (subst (λ w. get_usage v w (update_usage u day f l) ≡ some r) (sym d) e) in
      let written = get_usage-update u day f l (λ x. keeps x u day) ∙ ap (mapped f) found in
      inr (some_inj (f old) r (sym written ∙ here))
  | inr ne ↦
      inl (sym (get_usage-update_other u v day day' f l keeps (apart_keys u v day day' ne)) ∙ e)
]

found_appended :
    (v : ℕ) (day : List ℕ) (x r : UsageRow) (l : List UsageRow)
    → get_usage v day (l ++ x ∷ []) ≡ some r
    → (get_usage v day l ≡ some r) ⊎ (x ≡ r)
unfolding get_usage
found_appended v day x r [] =
    if_cases (λ o. o ≡ some r → ((none ≡ some r) ⊎ (x ≡ r))) (is_of v day x)
      (λ _ e. inr (some_inj x r e)) (λ _ e. absurd (cc e))
found_appended v day x r (y ∷ l) = both (is_of v day y) (found_appended v day x r l)
  where
    both :
        (b : Bool) {o o' : Option UsageRow}
        → (o' ≡ some r → (o ≡ some r) ⊎ (x ≡ r))
        → (if b then some y else o') ≡ some r
        → ((if b then some y else o) ≡ some r) ⊎ (x ≡ r)
    both true f e = inl e
    both false f e = f e

module _ (now later : ℕ) (le : now ≤ later) (l : List UsageRow) (all : AllCredible now l) where
  still : (v : ℕ) (day : List ℕ) (r : UsageRow) → get_usage v day l ≡ some r → IsCredible later r
  still v day r e =
      later-Credible r.first_seen_at r.active_seconds now later r.last_active_at le (all v day r e)

  new-Credible : (u tokens : ℕ) (day : List ℕ) → IsCredible later (new_usage u day tokens later)
  new-Credible u tokens day = (omega arith, omega arith, omega arith)

  touch_found-credible :
      (u : ℕ) (day : List ℕ) (o : Option UsageRow)
      → get_usage u day l ≡ o
      → AllCredible later (touch_found u day later l o)
  touch_found-credible u day none e v d r k =
      elim (found_appended v d (new_usage u day 0 later) r l k) [
        | inl old ↦ still v d r old
        | inr new ↦ subst (IsCredible later) new (new-Credible u 0 day)
      ]
  touch_found-credible u day (some x) e v d r k =
      let f = touched later (active_delta later x.last_active_at) in
      elim (found_after u v day d f l x r (λ y w c. refl) e k) [
        | inl old ↦ still v d r old
        | inr new ↦ subst (IsCredible later) new (
            touched-Credible x.first_seen_at x.active_seconds now later x.last_active_at le
              (all u day x e))
      ]

  tokens_found-credible :
      (u tokens : ℕ) (day : List ℕ) (o : Option UsageRow)
      → get_usage u day l ≡ o
      → AllCredible later (tokens_found u day tokens later l o)
  tokens_found-credible u tokens day none e v d r k =
      elim (found_appended v d (new_usage u day tokens later) r l k) [
        | inl old ↦ still v d r old
        | inr new ↦ subst (IsCredible later) new (new-Credible u tokens day)
      ]
  tokens_found-credible u tokens day (some x) e v d r k =
      let late = leb 3600000 (later - start_or later x.hourly_window_start) in
      elim (found_after u v day d (counted tokens later x) l x r
        (λ y w c.
          if_cases {A = UsageRow} (λ z. is_of w c z ≡ is_of w c y) late (λ _. refl) (λ _. refl))
        e k) [
          | inl old ↦ still v d r old
          | inr new ↦ subst (IsCredible later) new (
              if_cases {A = UsageRow} (IsCredible later) late (λ _. still u day x e)
                (λ _. still u day x e))
        ]

-- The same of the row that is found for a key, if there is one.
abbrev pub IsFoundCredible : ℕ → Option UsageRow → Type 0
IsFoundCredible now none = Unit
IsFoundCredible now (some r) = IsCredible now r

all_found :
    (now : ℕ) (l : List UsageRow)
    → ((u : ℕ) (day : List ℕ) → IsFoundCredible now (get_usage u day l))
    → AllCredible now l
all_found now l all u day r e = subst (IsFoundCredible now) e (all u day)

one_found :
    (now : ℕ) (o : Option UsageRow)
    → ((r : UsageRow) → o ≡ some r → IsCredible now r)
    → IsFoundCredible now o
one_found now none f = tt
one_found now (some r) f = f r refl

-- Where the row of every user and day is credible and the clock has not gone back, a write on the
-- usage keeps it so: the seconds counted for a day are at most twice the time from the first use
-- of the day to the last one, which is not ahead of the clock.
pub usage-credible :
    (now later : ℕ) (l : List UsageRow)
    → ((u : ℕ) (day : List ℕ) → IsFoundCredible now (get_usage u day l))
    → now ≤ later
    → (u tokens : ℕ) (day : List ℕ) (v : ℕ) (day' : List ℕ)
    → IsFoundCredible later (get_usage v day' (touch_usage u day later l))
      × IsFoundCredible later (get_usage v day' (add_tokens u day tokens later l))
unfolding touch_usage add_tokens
usage-credible now later l all le u tokens day v day' = (
  one_found later _ (
      touch_found-credible now later le l (all_found now l all) u day (get_usage u day l) refl v
        day'),
  one_found later _ (
      tokens_found-credible now later le l (all_found now l all) u tokens day (get_usage u day l)
        refl v day'),
)
