-- ===== src/Gateway/Redirect/Tests.antt =====
-- A login that is to lead to another site.
use dsh_passwords.Prelude.{◌≡◌, refl, some}
use dsh_passwords.Text.{codes, has_code, starts_with, strip_prefix}
use dsh_passwords.Gateway.Redirect.{safe_next, escape_html}
use dsh_passwords.Gateway.Redirect.Laws.{IsOnSite, safe_next-IsOnSite}

other_site : safe_next (λ s. some s) (some (codes "//evil.example")) ≡ codes "/"
unfolding safe_next has_code starts_with strip_prefix
other_site = refl

escaped : escape_html (codes "<b>") ≡ codes "&lt;b&gt;"
unfolding escape_html
escaped = refl

safe_next-IsOnSite_example : IsOnSite (safe_next (λ s. some s) (some (codes "/\\evil.example")))
safe_next-IsOnSite_example = safe_next-IsOnSite (λ s. some s) (some (codes "/\\evil.example"))
