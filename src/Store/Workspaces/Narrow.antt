-- ===== src/Store/Workspaces/Narrow.antt =====
-- A deletion in src/db.ts never widens what a user may use, as the row is read afterwards.
use dsh_passwords.Prelude.{
  ℕ, ◌≡◌, refl, sym, ap, ◌∙◌, subst, Bool, true, false, ◌||◌, Option, none, some, List, [], ◌∷◌,
  ◌==◌, map, length, if_cases, bytes_eq, All, some_inj, inl, inr, ◌⊎◌,
}
use dsh_passwords.Text.{codes, has_text}
use dsh_passwords.Posix.{posix_normalize}
use dsh_passwords.Json.{null, boolean, number, other_number, string, array, object}
use dsh_passwords.Permissions.Folders.{normalize_path, equals_or_below, folder_allowed}
use dsh_passwords.Store.{
  Column, absent, unparsable, parsed, texts_of, items_of, column_of, parse_allowed_folders,
  sanitize_or_deny, sanitize_allowed_folders, clean_folder, some_invalid, set_key, set_all, values,
  deny,
}
use dsh_passwords.Store.Sanitize.{
  IsFine, cleaned-IsFine, set_all-All, values-All, below_one, fine-some_folder, denied,
  fine-allowed, set_all-some,
}
use dsh_passwords.Store.Workspaces.{kept_folders, or_deny, folders_without, has_none}

-- What is written is read again.
pub texts_of-items_of : (l : List (List ℕ)) → texts_of (items_of l) ≡ some l
texts_of-items_of [] = refl
texts_of-items_of (s ∷ l) = rw (texts_of-items_of l) refl

pub parse-column_of :
    (l : List (List ℕ)) → parse_allowed_folders (column_of l) ≡ sanitize_allowed_folders l
unfolding parse_allowed_folders
parse-column_of l = ap sanitize_or_deny (texts_of-items_of l)

-- A list that is read is clean, or has the sentinel.
abbrev IsRead : List (List ℕ) → Type 0
IsRead l = All IsFine l ⊎ (has_text (codes "__deny__") l ≡ true)

deny-IsRead : IsRead deny
unfolding has_text
deny-IsRead = inr refl

sanitize-IsRead : (l : List (List ℕ)) → IsRead (sanitize_allowed_folders l)
unfolding sanitize_allowed_folders
sanitize-IsRead [] = inl tt
sanitize-IsRead (f ∷ fs) =
    if_cases IsRead (has_text (codes "__deny__") (f ∷ fs)) (λ _. deny-IsRead)
      (λ _.
        if_cases IsRead (some_invalid (map clean_folder (f ∷ fs))) (λ _. deny-IsRead)
          (λ good. inl (
            values-All _
              (set_all-All [] (map clean_folder (f ∷ fs)) (cleaned-IsFine (f ∷ fs) good) tt))))

texts-IsRead : (o : Option (List (List ℕ))) → IsRead (sanitize_or_deny o)
texts-IsRead none = deny-IsRead
texts-IsRead (some l) = sanitize-IsRead l

parse-IsRead : (c : Column) → IsRead (parse_allowed_folders c)
unfolding parse_allowed_folders
parse-IsRead absent = inl tt
parse-IsRead unparsable = deny-IsRead
parse-IsRead (parsed null) = deny-IsRead
parse-IsRead (parsed (boolean b)) = deny-IsRead
parse-IsRead (parsed (number n)) = deny-IsRead
parse-IsRead (parsed (other_number n)) = deny-IsRead
parse-IsRead (parsed (string s)) = deny-IsRead
parse-IsRead (parsed (array items)) = texts-IsRead (texts_of items)
parse-IsRead (parsed (object fs)) = deny-IsRead

-- A clean list stands for itself: sanitising it again adds nothing.
clean-map : (l : List (List ℕ)) → All IsFine l → map clean_folder l ≡ l
clean-map [] h = refl
clean-map (f ∷ l) ((_, _, e), h) = rw (e, clean-map l h) refl

widened : (x y z : Bool) → (x || z) ≡ true → (x || (y || z)) ≡ true
widened true y z h = refl
widened false true z h = refl
widened false false z h = h

passed : (x y z w : Bool) → (w ≡ true → (x || z) ≡ true) → (y || w) ≡ true → (x || (y || z)) ≡ true
passed true y z w f h = refl
passed false true z w f h = refl
passed false false z w f h = f h

joined : (s l x z : Bool) → (s ≡ true → (x || z) ≡ true) → (s || l) ≡ true → (z || (x || l)) ≡ true
joined s l x true f h = refl
joined s l true false f h = refl
joined true l false false f h = absurd (cc (f refl))
joined false l false false f h = h

module _ (c : List ℕ) where
  below_one-set_key :
      (k v : List ℕ) (m : List (List ℕ × List ℕ))
      → below_one c (values (set_key k v m)) ≡ true
      → (equals_or_below (normalize_path v) c || below_one c (values m)) ≡ true
  below_one-set_key k v [] h = h
  below_one-set_key k v (e ∷ m) h =
      let x = equals_or_below (normalize_path v) c in
      let y = equals_or_below (normalize_path e.1) c in
      if_cases (λ l. below_one c (values l) ≡ true → (x || (y || below_one c (values m))) ≡ true)
        (bytes_eq e.0 k) (λ _ h. widened x y (below_one c (values m)) h)
        (λ _ h. passed x y (below_one c (values m)) _ (below_one-set_key k v m) h) h

  below_one-set_all :
      (m : List (List ℕ × List ℕ)) (l : List (List ℕ))
      → below_one c (values (set_all m l)) ≡ true
      → (below_one c (values m) || below_one c l) ≡ true
  below_one-set_all m [] h = rw h refl
  below_one-set_all m (f ∷ l) h =
      joined (below_one c (values (set_key (posix_normalize f) f m))) (below_one c l)
        (equals_or_below (normalize_path f) c) (below_one c (values m))
        (below_one-set_key (posix_normalize f) f m)
        (below_one-set_all (set_key (posix_normalize f) f m) l h)

-- What the stored form of a clean list allows lies below one of its folders.
read-below :
    (path f : List ℕ) (fs : List (List ℕ))
    → All IsFine (f ∷ fs)
    → folder_allowed path (sanitize_allowed_folders (f ∷ fs)) ≡ true
    → below_one (normalize_path path) (f ∷ fs) ≡ true
unfolding sanitize_allowed_folders
read-below path f fs h =
    let l = map clean_folder (f ∷ fs) in
    let goal : List (List ℕ) → Type 0 =
      λ r. folder_allowed path r ≡ true → below_one (normalize_path path) (f ∷ fs) ≡ true in
    if_cases goal (has_text (codes "__deny__") (f ∷ fs)) (λ _ a. absurd (denied path a))
      (λ _.
        if_cases goal (some_invalid l) (λ _ a. absurd (denied path a))
          (λ good a.
            let fine = set_all-All [] l (cleaned-IsFine (f ∷ fs) good) tt in
            let below = fine-allowed path _ fine (set_all-some _ (map clean_folder fs) refl) a in
            subst (λ m. below_one (normalize_path path) m ≡ true) (clean-map (f ∷ fs) h)
              (below_one-set_all (normalize_path path) [] l below)))

module _ (doomed : List ℕ → Bool) where
  kept-All : (l : List (List ℕ)) → All IsFine l → All IsFine (kept_folders doomed l)
  kept-All [] h = tt
  kept-All (f ∷ l) (p, h) =
      if_cases (All IsFine) (doomed f) (λ _. kept-All l h) (λ _. (p, kept-All l h))

  kept-below :
      (c : List ℕ) (l : List (List ℕ))
      → below_one c (kept_folders doomed l) ≡ true
      → below_one c l ≡ true
  kept-below c [] h = h
  kept-below c (f ∷ l) h =
      let x = equals_or_below (normalize_path f) c in
      if_cases (λ m. below_one c m ≡ true → (x || below_one c l) ≡ true) (doomed f)
        (λ _ h. rw (kept-below c l h) (or_true x)) (λ _ h. or_map x _ _ (kept-below c l) h) h
    where
      or_true : (b : Bool) → (b || true) ≡ true
      or_true true = refl
      or_true false = refl

      or_map : (b k m : Bool) → (k ≡ true → m ≡ true) → (b || k) ≡ true → (b || m) ≡ true
      or_map true k m f h = refl
      or_map false k m f h = f h

  -- The folders that are written in place of a clean list.
  or_deny-below :
      (path : List ℕ) (l : List (List ℕ))
      → All IsFine l
      → folder_allowed path (sanitize_allowed_folders (or_deny l)) ≡ true
      → below_one (normalize_path path) l ≡ true
  unfolding sanitize_allowed_folders has_text
  or_deny-below path [] h a = absurd (denied path a)
  or_deny-below path (f ∷ fs) h a = read-below path f fs h a

  allowed-again :
      (path : List ℕ) (l : List (List ℕ))
      → All IsFine l
      → has_text (codes "__deny__") l ≡ false
      → below_one (normalize_path path) l ≡ true
      → folder_allowed path l ≡ true
  unfolding folder_allowed
  allowed-again path [] h n b = refl
  allowed-again path (f ∷ fs) h n b = rw n (fine-some_folder (normalize_path path) (f ∷ fs) h ∙ b)

  narrow-list :
      (l next : List (List ℕ)) (path : List ℕ)
      → IsRead l
      → folders_without doomed l ≡ some next
      → folder_allowed path (sanitize_allowed_folders next) ≡ true
      → folder_allowed path l ≡ true
  unfolding folders_without
  narrow-list l next path r e a =
      let goal : Option (List (List ℕ)) → Type 0 =
        λ o. o ≡ some next → folder_allowed path l ≡ true in
      if_cases goal (has_none l || has_text (codes "__deny__") l) (λ _ n. absurd (cc n))
        (λ free.
          if_cases goal (length (kept_folders doomed l) == length l) (λ _ n. absurd (cc n))
            (λ _ w. elim r [
              | inl fine ↦
                  let a' =
                    subst (λ m. folder_allowed path (sanitize_allowed_folders m) ≡ true)
                      (sym (some_inj _ _ w)) a in
                  allowed-again path l fine (or_second (has_none l) _ free) (
                    kept-below (normalize_path path) l
                      (or_deny-below path (kept_folders doomed l) (kept-All l fine) a'))
              | inr d ↦ absurd (cc (d, or_second (has_none l) _ free))
            ]))
        e
    where
      or_second : (b k : Bool) → (b || k) ≡ false → k ≡ false
      or_second true k h = absurd (cc h)
      or_second false k h = h

  -- Where a deletion rewrites a user's folders, because some of them are doomed, the row as it is
  -- read afterwards allows only what it allowed before, whatever text the row had.
  pub folders_without-narrow :
      (column : Column) (next : List (List ℕ)) (path : List ℕ)
      → folders_without doomed (parse_allowed_folders column) ≡ some next
      → folder_allowed path (parse_allowed_folders (column_of next)) ≡ true
      → folder_allowed path (parse_allowed_folders column) ≡ true
  folders_without-narrow column next path e a =
      narrow-list (parse_allowed_folders column) next path (parse-IsRead column) e
        (subst (λ l. folder_allowed path l ≡ true) (parse-column_of next) a)
