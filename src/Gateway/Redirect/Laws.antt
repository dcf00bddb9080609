-- ===== src/Gateway/Redirect/Laws.antt =====
-- Where `safeNext` of src/gateway.ts leads to.
use mathlib.Core.Bool.{false≢true}
use dsh_passwords.Prelude.{
  ℕ, ◌≡◌, refl, sym, Bool, true, false, not, ◌||◌, Option, none, some, List, [], ◌∷◌, if_cases,
}
use dsh_passwords.Text.{codes, has_code, starts_with, strip_prefix}
use dsh_passwords.Gateway.Redirect.{has_control, checked_next, safe_next}

-- A path of this site: it starts with one slash only, and has no backslash and no control character.
unfoldable pub IsOnSite : List ℕ → Type 0
IsOnSite p =
    (starts_with (codes "/") p ≡ true)
    × (starts_with (codes "//") p ≡ false)
    × (has_code b'\\' p ≡ false)
    × (has_control p ≡ false)

root-IsOnSite : IsOnSite (codes "/")
unfolding IsOnSite starts_with strip_prefix has_code
root-IsOnSite = (refl, refl, refl, refl)

not_or : (a b : Bool) → (not a || b) ≡ false → (a ≡ true) × (b ≡ false)
not_or true b h = (refl, h)
not_or false b h = absurd (false≢true (sym h))

on_site :
    (p : List ℕ)
    → (starts_with (codes "/") p ≡ true) × (starts_with (codes "//") p ≡ false)
    → has_code b'\\' p ≡ false
    → has_control p ≡ false
    → IsOnSite p
unfolding IsOnSite
on_site p (a, b) c d = (a, b, c, d)

checked_next-IsOnSite : (o : Option (List ℕ)) → IsOnSite (checked_next o)
checked_next-IsOnSite none = root-IsOnSite
checked_next-IsOnSite (some decoded) =
    if_cases IsOnSite (has_code b'\\' decoded) (λ _. root-IsOnSite)
      (λ a.
        if_cases IsOnSite
          (not (starts_with (codes "/") decoded) || starts_with (codes "//") decoded)
          (λ _. root-IsOnSite)
          (λ b.
            if_cases IsOnSite (has_control decoded) (λ _. root-IsOnSite)
              (λ c. on_site decoded (not_or _ _ b) a c)))

-- Whatever the query says and however it is decoded, a login leads to a path of this site: it starts
-- with one slash only and has no backslash, no white space of ASCII and no control character.
pub safe_next-IsOnSite :
    (decode : List ℕ → Option (List ℕ)) (next : Option (List ℕ)) → IsOnSite (safe_next decode next)
unfolding safe_next
safe_next-IsOnSite decode none = root-IsOnSite
safe_next-IsOnSite decode (some []) = root-IsOnSite
safe_next-IsOnSite decode (some (c ∷ next)) = checked_next-IsOnSite (decode (c ∷ next))
