-- ===== src/Gateway/Cookies/Tests.antt =====
-- Cookies and queries with the gateway's secrets in them.
use dsh_passwords.Prelude.{◌≡◌, refl, none, some}
use dsh_passwords.Text.{codes, starts_with, strip_prefix, split, cut}
use dsh_passwords.Gateway.Cookies.{
  read_cookie, strip_gateway_auth_query, decoded_query_key, upstream_cookie_header,
}

first_that_is_not_empty :
    read_cookie (λ s. none) (codes "a=1; \tb=; b=2=3; b=4") (codes "b") ≡ some (codes "2=3")
unfolding read_cookie split cut
first_that_is_not_empty = refl

launch_token_stripped :
    strip_gateway_auth_query (λ s. some s) (codes "/?a=1&token=x&dsh_gateway_token=y&b") (codes "/")
    ≡ codes "?a=1&b"
unfolding strip_gateway_auth_query decoded_query_key split cut
launch_token_stripped = refl

business_token_kept :
    strip_gateway_auth_query (λ s. some s) (codes "/plugins/??a&token=x") (codes "/plugins/")
    ≡ codes "??a&token=x"
unfolding strip_gateway_auth_query decoded_query_key split cut
business_token_kept = refl

own_cookie_last :
    upstream_cookie_header (codes "dsh_gateway_token=x; a=1; dsh-auth-u=2; s=3; =4") (codes "s=5")
    ≡ some (codes "a=1; s=5")
unfolding upstream_cookie_header starts_with strip_prefix split cut
own_cookie_last = refl

nothing_left : upstream_cookie_header (codes "dsh_gateway_token=x") (codes "") ≡ none
unfolding upstream_cookie_header starts_with strip_prefix split cut
nothing_left = refl
