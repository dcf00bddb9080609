-- ===== src/Permissions/Host6/Fuel.antt =====
-- The fuel of `is_private_host`, for `isPrivateHost` of src/permissions.ts, which calls itself.
use dsh_passwords.Prelude.{
  ℕ, zero, suc, ◌-◌, ◌<◌, ◌≡◌, refl, Bool, false, List, [], ◌∷◌, arith, length, Option, none, some,
  length-take, if_cong, Option-cases, inl, inr, ◌||◌, bytes_eq,
}
use dsh_passwords.Text.{codes, is_empty, has_code, trim, cut}
use dsh_passwords.Text.Laws.{length-cut, length-trim, length-lower}
use dsh_passwords.Permissions.Host6.{
  private_host_from, host_with, is_private_host, inner, colon_host, bracket_port, colon_digits,
  is_bracketed,
}

colon_digits-eq : (q r p : List ℕ) → colon_digits q r ≡ some p → q ≡ p
colon_digits-eq q [] p e = cc
colon_digits-eq q (c ∷ r) p e = ground arith

length-bracket_port : (t p : List ℕ) → bracket_port t ≡ some p → length p < length t
length-bracket_port [] p e = cc
length-bracket_port (c ∷ s) p e = elim (Option-cases (cut b']' s)) [
  | inl z ↦ ground arith
  | inr ((q, r), z) ↦ ground (arith, length-cut b']' s q r z, colon_digits-eq q r p)
]

length-inner : (h : List ℕ) → is_empty h ≡ false → length (inner h) < length h
length-inner [] e = cc
length-inner (c ∷ s) e = omega (arith, length-take (length (c ∷ s) - 2) s)

module _ (f g : List ℕ → Bool) (h : List ℕ)
    (same : (p : List ℕ) → length p < length h → f p ≡ g p) where
  colon_host-cong :
      (b : Option (List ℕ))
      → ((p : List ℕ) → b ≡ some p → length p < length h)
      → colon_host f b h ≡ colon_host g b h
  colon_host-cong none l = refl
  colon_host-cong (some p) l = same p (l p refl)

  -- What a call decides depends on its inner call only at shorter texts.
  host_with-cong : host_with f h ≡ host_with g h
  unfolding host_with
  host_with-cong =
      if_cong
        (is_empty h || bytes_eq h (codes "localhost") || bytes_eq h (codes "localhost.localdomain"))
        (λ _. refl)
        (λ e.
          if_cong (is_bracketed h) (λ _. same (inner h) (length-inner h (ground arith)))
            (λ _.
              if_cong (has_code b':' h)
                (λ _.
                  if_cong (has_code b'%' h) (λ _. refl)
                    (λ _. colon_host-cong (bracket_port h) (length-bracket_port h)))
                (λ _. refl)))

-- More fuel than the length of the text makes no difference.
private_host_from-step :
    (n m : ℕ) (host : List ℕ)
    → length host < n
    → length host < m
    → private_host_from n host ≡ private_host_from m host
unfolding private_host_from
private_host_from-step zero m host h k = absurd (omega arith)
private_host_from-step (suc n) zero host h k = absurd (omega arith)
private_host_from-step (suc n) (suc m) host h k = host_with-cong _ _ _ (λ p l.
    private_host_from-step n m p (omega (arith, length-lower (trim host), length-trim host))
      (omega (arith, length-lower (trim host), length-trim host)))

-- The fuel of `is_private_host` is enough: any fuel above the length of the host decides the same.
pub is_private_host-fuel :
    (n : ℕ) (host : List ℕ) → length host < n → private_host_from n host ≡ is_private_host host
unfolding is_private_host
is_private_host-fuel n host h = private_host_from-step n (suc (length host)) host h (omega arith)
