-- ===== src/Sensitive/Laws.antt =====
-- What src/sensitive-paths.ts refuses.
use dsh_passwords.Prelude.{
  ℕ, ◌≡◌, sym, ap, ◌∙◌, Bool, true, ◌||◌, ◌⊎◌, inl, inr, List, [], ◌∷◌, ◌++◌, arith,
}
use dsh_passwords.Text.{split}
use dsh_passwords.Permissions.Folders.{normalize_path, equals_or_below}
use dsh_passwords.Permissions.Folders.Segments.{
  seg_prefix, equals_or_below-segments, append-seg_prefix,
}
use dsh_passwords.Sensitive.{
  System, CheckerConfig, case_fold, under_some, sensitive_path_bases, is_sensitive_path,
}

-- Membership in a list of folders.
abbrev pub IsIn : List ℕ → List (List ℕ) → Type 0
IsIn p [] = ⊥
IsIn p (q ∷ qs) = (p ≡ q) ⊎ IsIn p qs

or_left_true : (a b : Bool) → a ≡ true → (a || b) ≡ true
or_left_true a b h = ground arith

or_right_true : (a b : Bool) → b ≡ true → (a || b) ≡ true
or_right_true a b h = ground arith

module _ (sys : System) where
  under_some-IsIn :
      (p base : List ℕ) (bases : List (List ℕ))
      → IsIn base bases
      → equals_or_below (case_fold sys (normalize_path base)) p ≡ true
      → under_some sys p bases ≡ true
  under_some-IsIn p base [] h e = absurd h
  under_some-IsIn p base (q ∷ qs) (inl h) e =
      or_left_true _ _ (ap (λ b. equals_or_below (case_fold sys (normalize_path b)) p) (sym h) ∙ e)
  under_some-IsIn p base (q ∷ qs) (inr h) e = or_right_true _ _ (under_some-IsIn p base qs h e)

  -- A path whose segments, as they are compared, extend those of one of the folders is refused.
  pub is_sensitive_path-below :
      (config : CheckerConfig) (candidate base : List ℕ) (rest : List (List ℕ))
      → IsIn base (sensitive_path_bases sys config)
      → split b'/' (case_fold sys (normalize_path candidate))
        ≡ split b'/' (case_fold sys (normalize_path base)) ++ rest
      → is_sensitive_path sys config candidate ≡ true
  unfolding is_sensitive_path
  is_sensitive_path-below config candidate base rest h e =
      under_some-IsIn (case_fold sys (normalize_path candidate)) base
        (sensitive_path_bases sys config) h
        (equals_or_below-segments (case_fold sys (normalize_path base))
            (case_fold sys (normalize_path candidate))
          ∙ ap (seg_prefix (split b'/' (case_fold sys (normalize_path base)))) e
          ∙ append-seg_prefix (split b'/' (case_fold sys (normalize_path base))) rest)
