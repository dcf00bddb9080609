-- ===== src/Accounts/Sessions/Logout.antt =====
-- A token that `revokeToken` of src/gateway.ts was called with stays out.
use dsh_passwords.Prelude.{
  ℕ, ◌+◌, ◌<◌, ◌≤◌, ◌≡◌, refl, ap, ◌∙◌, inl, inr, Bool, true, false, not, Option, none, some, List,
  [], ◌∷◌, ◌==◌, leb, ltb, if_cases, bytes_eq, bytes_eq_iff, arith, All, Bool-cases,
}
use dsh_passwords.Text.{is_empty}
use dsh_passwords.Accounts.{Account, Tables, get_user_by_id}
use dsh_passwords.Accounts.Sessions.{
  Payload, version_of, Entry, Gate, find_entry, delete_entry, revoke_token, find_revoked,
  is_token_revoked, revoked_at, Session, cache_ttl, entered, matched, unless_revoked, checked,
  looked_up, session_of, invalidate_user, sweep, token_ttl_ms,
}
use dsh_passwords.Accounts.Sessions.Entries.{
  delete_entry-All, set_entry-All, invalidate_user-All, sweep-All,
}
use dsh_passwords.Accounts.Sessions.Revoked.{
  find_revoked-set, find_revoked-set_other, find_revoked-delete, find_revoked-live,
}

-- The gateway's calls whose clock lies between the logout and the end of the token's life.
pub data After (verify : ℕ → List ℕ → Option Payload) (out : ℕ) (g : Gate) : Gate → Type 0 where
  here : After verify out g g
  asked :
      {u : Gate} (token : List ℕ) (now later : ℕ) (t : Tables)
      → After verify out g u
      → later < out + token_ttl_ms
      → After verify out g (session_of verify token now later t u).0
  logged_out :
      {u : Gate} (token : List ℕ) (now : ℕ)
      → After verify out g u
      → out ≤ now
      → After verify out g (revoke_token token now u)
  changed :
      {u : Gate} (user_id : ℕ)
      → After verify out g u
      → After verify out g (record u { cache = invalidate_user user_id u.cache })
  swept :
      {u : Gate} (now : ℕ)
      → After verify out g u
      → now < out + token_ttl_ms
      → After verify out g (sweep now u)

-- Nothing of the token is cached, and it is revoked until twelve hours after the logout.
record IsOut (token : List ℕ) (out : ℕ) (g : Gate) : Type 0 where
  uncached : All (λ e. bytes_eq e.token token ≡ false) g.cache
  until : ℕ
  revoked : find_revoked token g.revoked ≡ some until
  long : out + token_ttl_ms ≤ until

delete_entry-gone :
    (token : List ℕ) (l : List Entry)
    → All (λ e. bytes_eq e.token token ≡ false) (delete_entry token l)
unfolding delete_entry
delete_entry-gone token [] = tt
delete_entry-gone token (e ∷ l) =
    if_cases (All (λ x. bytes_eq x.token token ≡ false)) (bytes_eq e.token token)
      (λ _. delete_entry-gone token l) (λ other. (other, delete_entry-gone token l))

module _ (verify : ℕ → List ℕ → Option Payload) (token : List ℕ) (out : ℕ) where
  abbrev P : Entry → Type 0
  P e = bytes_eq e.token token ≡ false

  revoke-IsOut : (now : ℕ) (g : Gate) → out ≤ now → IsOut token out (revoke_token token now g)
  unfolding revoke_token
  revoke-IsOut now g le = record {
    uncached = delete_entry-gone token g.cache;
    until = now + token_ttl_ms;
    revoked = find_revoked-set token (now + token_ttl_ms) g.revoked;
    long = omega arith;
  }

  recached :
      (g : Gate) (l : List Entry)
      → IsOut token out g
      → All P l
      → IsOut token out (record g { cache = l })
  recached g l v a = record { uncached = a; until = v.until; revoked = v.revoked; long = v.long }

  revoke_other-IsOut :
      (token' : List ℕ) (now : ℕ) (g : Gate)
      → bytes_eq token' token ≡ false
      → IsOut token out g
      → IsOut token out (revoke_token token' now g)
  unfolding revoke_token
  revoke_other-IsOut token' now g ne v = record {
    uncached = delete_entry-All P token' g.cache v.uncached;
    until = v.until;
    revoked = find_revoked-set_other token token' (now + token_ttl_ms) g.revoked ne ∙ v.revoked;
    long = v.long;
  }

  -- The token itself is refused.
  refused :
      (later : ℕ) (g : Gate)
      → later < out + token_ttl_ms
      → IsOut token out g
      → is_token_revoked token later g ≡ (g, true)
  unfolding is_token_revoked
  refused later g lt v =
      rw v.revoked (let e : ltb later v.until ≡ true = ground (arith, v.long) in simp e refl)

  uncached_find : (l : List Entry) → All P l → find_entry token l ≡ none
  unfolding find_entry
  uncached_find [] a = refl
  uncached_find (e ∷ l) (p, a) = rw p (uncached_find l a)

  session_of-refused :
      (now later : ℕ) (t : Tables) (g : Gate)
      → later < out + token_ttl_ms
      → IsOut token out g
      → session_of verify token now later t g ≡ (g, none)
  unfolding session_of
  session_of-refused now later t g lt v =
      if_cases (λ r. r ≡ (g, none)) (is_empty token) (λ _. refl)
        (λ _. rw (uncached_find g.cache v.uncached) (checked_refused (verify now token)))
    where
      checked_refused : (o : Option Payload) → checked token now later t g o ≡ (g, none)
      checked_refused none = refl
      checked_refused (some p) = rw (refused later g lt v) refl

  module _ (token' : List ℕ) (ne : bytes_eq token' token ≡ false) where
    revoked_at-IsOut :
        (later : ℕ) (g : Gate) (o : Option ℕ)
        → IsOut token out g
        → IsOut token out (revoked_at token' later g o).0
    revoked_at-IsOut later g none v = v
    revoked_at-IsOut later g (some x) v =
        if_cases {A = Gate × Bool} (λ r. IsOut token out r.0) (ltb later x) (λ _. v)
          (λ _. record {
            uncached = v.uncached;
            until = v.until;
            revoked = find_revoked-delete token token' g.revoked ne ∙ v.revoked;
            long = v.long;
          })

    entered-IsOut :
        (now ttl : ℕ) (p : Payload) (g : Gate)
        → IsOut token out g
        → IsOut token out (entered token' now p ttl g).0
    entered-IsOut now ttl p g v =
        if_cases {A = Gate × Option Session} (λ r. IsOut token out r.0) (leb ttl 0) (λ _. v)
          (λ _. recached g _ v (set_entry-All P _ g.cache ne v.uncached))

    matched-IsOut :
        (now : ℕ) (p : Payload) (g : Gate) (o : Option Account)
        → IsOut token out g
        → IsOut token out (matched token' now p g o).0
    matched-IsOut now p g none v = v
    matched-IsOut now p g (some row) v =
        if_cases {A = Gate × Option Session} (λ r. IsOut token out r.0)
          (not (bytes_eq row.username p.username)) (λ _. v)
          (λ _.
            if_cases {A = Gate × Option Session} (λ r. IsOut token out r.0)
              (not (version_of p.cv == row.credential_version)) (λ _. v)
              (λ _. entered-IsOut now (cache_ttl now p.exp) p g v))

    unless_revoked-IsOut :
        (now : ℕ) (p : Payload) (t : Tables) (r : Gate × Bool)
        → IsOut token out r.0
        → IsOut token out (unless_revoked token' now p t r).0
    unless_revoked-IsOut now p t (g, true) v = v
    unless_revoked-IsOut now p t (g, false) v = matched-IsOut now p g (get_user_by_id p.sub t) v

    checked-IsOut :
        (now later : ℕ) (t : Tables) (g : Gate) (o : Option Payload)
        → IsOut token out g
        → IsOut token out (checked token' now later t g o).0
    unfolding is_token_revoked
    checked-IsOut now later t g none v = v
    checked-IsOut now later t g (some p) v =
        unless_revoked-IsOut now p t (is_token_revoked token' later g)
          (revoked_at-IsOut later g (find_revoked token' g.revoked) v)

    looked_up-IsOut :
        (now later : ℕ) (t : Tables) (g : Gate) (o : Option Entry)
        → IsOut token out g
        → IsOut token out (looked_up verify token' now later t g o).0
    looked_up-IsOut now later t g none v = checked-IsOut now later t g (verify now token') v
    looked_up-IsOut now later t g (some e) v =
        if_cases {A = Gate × Option Session} (λ r. IsOut token out r.0) (ltb now e.expire_at)
          (λ _. v)
          (λ _.
            checked-IsOut now later t (record g { cache = delete_entry token' g.cache })
              (verify now token') (recached g _ v (delete_entry-All P token' g.cache v.uncached)))

    session_of-IsOut :
        (now later : ℕ) (t : Tables) (g : Gate)
        → IsOut token out g
        → IsOut token out (session_of verify token' now later t g).0
    unfolding session_of
    session_of-IsOut now later t g v =
        if_cases {A = Gate × Option Session} (λ r. IsOut token out r.0) (is_empty token') (λ _. v)
          (λ _. looked_up-IsOut now later t g (find_entry token' g.cache) v)

  After-IsOut : {g u : Gate} → After verify out g u → IsOut token out g → IsOut token out u
  unfolding sweep
  After-IsOut here v = v
  After-IsOut (asked {u} token' now later t r lt) v =
      let w = After-IsOut r v in
      elim (Bool-cases (bytes_eq token' token)) [
        | inl same ↦
            rw ((bytes_eq_iff token' token).0 same, session_of-refused now later t u lt w) w
        | inr other ↦ session_of-IsOut token' other now later t u w
      ]
  After-IsOut (logged_out {u} token' now r le) v = elim (Bool-cases (bytes_eq token' token)) [
    | inl same ↦ rw ((bytes_eq_iff token' token).0 same) (revoke-IsOut now u le)
    | inr other ↦ revoke_other-IsOut token' now u other (After-IsOut r v)
  ]
  After-IsOut (changed {u} i r) v =
      let w = After-IsOut r v in recached u _ w (invalidate_user-All P i u.cache w.uncached)
  After-IsOut (swept {u} now r lt) v =
      let w = After-IsOut r v in
      record {
        uncached = sweep-All P now u w.uncached;
        until = w.until;
        revoked = find_revoked-live token now w.until u.revoked w.revoked (omega (arith, w.long));
        long = w.long;
      }

  -- Once a token has been logged out, `sessionOf` refuses it in the next twelve hours, which is as
  -- long as a token lives, whatever calls for this and other tokens come in between.
  pub session_of-logged_out :
      (g u : Gate)
      → After verify out (revoke_token token out g) u
      → (now later : ℕ) (t : Tables) → later < out + token_ttl_ms
      → (session_of verify token now later t u).1 ≡ none
  session_of-logged_out g u r now later t lt =
      ap (λ r. r.1)
        (session_of-refused now later t u lt (After-IsOut r (revoke-IsOut out g (omega arith))))
