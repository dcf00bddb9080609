-- ===== src/Accounts/Sessions/Fresh.antt =====
-- A session that `sessionOf` of src/gateway.ts gives was checked against the tables in the last 30
-- seconds.
use dsh_passwords.Prelude.{
  ℕ, ◌+◌, ◌*◌, ◌≤◌, ◌≡◌, ◌⊎◌, refl, inl, inr, subst, Bool, true, false, not, Option, none, some,
  List, [], ◌∷◌, ◌==◌, ==_iff, leb, ltb, if_cases, bytes_eq, bytes_eq_iff, arith, All, All-mono,
  Bool-cases, not-false,
}
use dsh_passwords.Text.{is_empty}
use dsh_passwords.Accounts.{Account, Tables, get_user_by_id}
use dsh_passwords.Accounts.Sessions.{
  Payload, version_of, Entry, Gate, empty_gate, find_entry, delete_entry, revoke_token,
  is_token_revoked, revoked_at, Session, cache_ttl, entered, matched, unless_revoked, checked,
  looked_up, session_of, invalidate_user, sweep, session_cache_ttl_ms, find_revoked,
}
use dsh_passwords.Accounts.Sessions.Entries.{
  delete_entry-All, set_entry-All, invalidate_user-All, sweep-All, find_entry-All,
}

-- A property of some element; it computes to sums.
abbrev pub Any {ℓ} : {A : Type ℓ} → (A → Type 0) → List A → Type 0
Any P [] = ⊥
Any P (x ∷ xs) = P x ⊎ Any P xs

abbrev pub Before : Option ℕ → ℕ → Type 0
Before none time = Unit
Before (some exp) time = time ≤ exp * 1000

-- At the time and in the tables of a check, the token was one of this user, whose name and
-- version agree with the row; `until` is at most 30 seconds later and not behind the end of the
-- token.
pub record Vouches (verify : ℕ → List ℕ → Option Payload) (token : List ℕ) (user_id : ℕ)
    (username : List ℕ) (until : ℕ) (check : ℕ × Tables) : Type 0 where
  pub payload : Payload
  pub row : Account
  pub verified : verify check.0 token ≡ some payload
  pub found : get_user_by_id user_id check.1 ≡ some row
  pub named : (payload.sub ≡ user_id) × (payload.username ≡ username) × (row.username ≡ username)
  pub current : version_of payload.cv ≡ row.credential_version
  pub recent : until ≤ check.0 + session_cache_ttl_ms
  pub unexpired : Before payload.exp until

-- The gateway's calls; the list has the time and the tables of each `sessionOf`.
pub data Reach (verify : ℕ → List ℕ → Option Payload) : List (ℕ × Tables) → Gate → Type 0 where
  start : Reach verify [] empty_gate
  asked :
      {h : List (ℕ × Tables)} {g : Gate} (token : List ℕ) (now later : ℕ) (t : Tables)
      → Reach verify h g
      → Reach verify ((now, t) ∷ h) (session_of verify token now later t g).0
  logged_out :
      {h : List (ℕ × Tables)} {g : Gate} (token : List ℕ) (now : ℕ)
      → Reach verify h g
      → Reach verify h (revoke_token token now g)
  changed :
      {h : List (ℕ × Tables)} {g : Gate} (user_id : ℕ)
      → Reach verify h g
      → Reach verify h (record g { cache = invalidate_user user_id g.cache })
  swept :
      {h : List (ℕ × Tables)} {g : Gate} (now : ℕ) → Reach verify h g → Reach verify h (sweep now g)

revoked-cache :
    (token : List ℕ) (now : ℕ) (g : Gate) → (is_token_revoked token now g).0.cache ≡ g.cache
unfolding is_token_revoked
revoked-cache token now g = go (find_revoked token g.revoked)
  where
    go : (o : Option ℕ) → (revoked_at token now g o).0.cache ≡ g.cache
    go none = refl
    go (some v) =
        if_cases {A = Gate × Bool} (λ r. r.0.cache ≡ g.cache) (ltb now v) (λ _. refl) (λ _. refl)

Before-mono : (o : Option ℕ) (early late : ℕ) → early ≤ late → Before o late → Before o early
Before-mono none early late le b = tt
Before-mono (some exp) early late le b = omega arith

ttl-recent : (now : ℕ) (o : Option ℕ) → now + cache_ttl now o ≤ now + session_cache_ttl_ms
ttl-recent now none = omega arith
ttl-recent now (some exp) = omega arith

ttl-Before :
    (now : ℕ) (o : Option ℕ) → leb (cache_ttl now o) 0 ≡ false → Before o (now + cache_ttl now o)
ttl-Before now none e = tt
ttl-Before now (some exp) e = ground arith

ttl-positive : (n : ℕ) → leb n 0 ≡ false → 1 ≤ n
ttl-positive n e = ground arith

module _ (verify : ℕ → List ℕ → Option Payload) where
  Vouches-mono :
      (token : List ℕ) (i : ℕ) (name : List ℕ) (early late : ℕ) (c : ℕ × Tables)
      → early ≤ late
      → Vouches verify token i name late c
      → Vouches verify token i name early c
  Vouches-mono token i name early late c le v = record {
    payload = v.payload;
    row = v.row;
    verified = v.verified;
    found = v.found;
    named = v.named;
    current = v.current;
    recent = omega (arith, v.recent);
    unexpired = Before-mono v.payload.exp early late le v.unexpired;
  }

  -- Each entry of the cache rests on a check.
  abbrev Rests : List (ℕ × Tables) → Entry → Type 0
  Rests h e = Any (Vouches verify e.token e.user_id e.username e.expire_at) h

  abbrev Answered : List ℕ → ℕ → List (ℕ × Tables) → Option Session → Type 0
  Answered token now h none = Unit
  Answered token now h (some (i, name)) = Any (Vouches verify token i name (now + 1)) h

  abbrev Sound : List ℕ → ℕ → List (ℕ × Tables) → Gate × Option Session → Type 0
  Sound token now h r = All (Rests h) r.0.cache × Answered token now h r.1

  Any-mono :
      {P Q : ℕ × Tables → Type 0} (h : List (ℕ × Tables))
      → ((c : ℕ × Tables) → P c → Q c)
      → Any P h
      → Any Q h
  Any-mono [] f a = a
  Any-mono (c ∷ h) f (inl p) = inl (f c p)
  Any-mono (c ∷ h) f (inr a) = inr (Any-mono h f a)

  module _ (token : List ℕ) (now : ℕ) (t : Tables) (h : List (ℕ × Tables)) where
    entered-Sound :
        (p : Payload) (row : Account) (g : Gate)
        → verify now token ≡ some p
        → get_user_by_id p.sub t ≡ some row
        → row.username ≡ p.username
        → version_of p.cv ≡ row.credential_version
        → All (Rests ((now, t) ∷ h)) g.cache
        → Sound token now ((now, t) ∷ h) (entered token now p (cache_ttl now p.exp) g)
    entered-Sound p row g e k name version a = elim (Bool-cases (leb (cache_ttl now p.exp) 0)) [
      | inl over ↦ simp over (a, tt)
      | inr left ↦
          let fresh : Vouches verify token p.sub p.username (now + cache_ttl now p.exp) (now, t) =
            record {
              payload = p;
              row = row;
              verified = e;
              found = k;
              named = (refl, refl, name);
              current = version;
              recent = ttl-recent now p.exp;
              unexpired = ttl-Before now p.exp left;
            } in
          simp left (
            set_entry-All (Rests ((now, t) ∷ h)) _ g.cache (inl fresh) a,
            inl (
                Vouches-mono token p.sub p.username (now + 1) _ (now, t)
                  (omega (arith, ttl-positive (cache_ttl now p.exp) left)) fresh),
          )
    ]

    matched-Sound :
        (p : Payload) (g : Gate) (o : Option Account)
        → verify now token ≡ some p
        → get_user_by_id p.sub t ≡ o
        → All (Rests ((now, t) ∷ h)) g.cache
        → Sound token now ((now, t) ∷ h) (matched token now p g o)
    matched-Sound p g none e k a = (a, tt)
    matched-Sound p g (some row) e k a =
        if_cases (Sound token now ((now, t) ∷ h)) (not (bytes_eq row.username p.username))
          (λ _. (a, tt))
          (λ same.
            if_cases (Sound token now ((now, t) ∷ h))
              (not (version_of p.cv == row.credential_version)) (λ _. (a, tt))
              (λ current.
                entered-Sound p row g e k
                  ((bytes_eq_iff row.username p.username).0 (not-false _ same))
                  ((==_iff (version_of p.cv) row.credential_version).0 (not-false _ current)) a))

    unless_revoked-Sound :
        (p : Payload) (r : Gate × Bool)
        → verify now token ≡ some p
        → All (Rests ((now, t) ∷ h)) r.0.cache
        → Sound token now ((now, t) ∷ h) (unless_revoked token now p t r)
    unless_revoked-Sound p (g, true) e a = (a, tt)
    unless_revoked-Sound p (g, false) e a = matched-Sound p g (get_user_by_id p.sub t) e refl a

    checked-Sound :
        (later : ℕ) (g : Gate) (o : Option Payload)
        → verify now token ≡ o
        → All (Rests ((now, t) ∷ h)) g.cache
        → Sound token now ((now, t) ∷ h) (checked token now later t g o)
    checked-Sound later g none e a = (a, tt)
    checked-Sound later g (some p) e a =
        unless_revoked-Sound p (is_token_revoked token later g) e
          (rw (revoked-cache token later g) a)

    looked_up-Sound :
        (later : ℕ) (g : Gate) (o : Option Entry)
        → find_entry token g.cache ≡ o
        → All (Rests ((now, t) ∷ h)) g.cache
        → Sound token now ((now, t) ∷ h) (looked_up verify token now later t g o)
    looked_up-Sound later g none k a = checked-Sound later g (verify now token) refl a
    looked_up-Sound later g (some e) k a =
        let (rests, same) = find_entry-All (Rests ((now, t) ∷ h)) token e g.cache k a in
        if_cases (Sound token now ((now, t) ∷ h)) (ltb now e.expire_at)
          (λ before. (
            a,
            Any-mono ((now, t) ∷ h)
                (λ c v.
                  Vouches-mono token e.user_id e.username (now + 1) e.expire_at c
                    (ground (arith, before))
                    (subst (λ s. Vouches verify s e.user_id e.username e.expire_at c) same v))
                rests,
          ))
          (λ _.
            checked-Sound later (record g { cache = delete_entry token g.cache }) (verify now token)
              refl (delete_entry-All (Rests ((now, t) ∷ h)) token g.cache a))

    asked-Sound :
        (later : ℕ) (g : Gate)
        → All (Rests h) g.cache
        → Sound token now ((now, t) ∷ h) (session_of verify token now later t g)
    unfolding session_of
    asked-Sound later g a =
        let a' : All (Rests ((now, t) ∷ h)) g.cache = All-mono g.cache (λ e r. inr r) a in
        if_cases (Sound token now ((now, t) ∷ h)) (is_empty token) (λ _. (a', tt))
          (λ _. looked_up-Sound later g (find_entry token g.cache) refl a')

  Reach-Rests : {h : List (ℕ × Tables)} {g : Gate} → Reach verify h g → All (Rests h) g.cache
  unfolding revoke_token
  Reach-Rests start = tt
  Reach-Rests (asked {h} {g} token now later t r) =
      (asked-Sound token now t h later g (Reach-Rests r)).0
  Reach-Rests (logged_out {h} {g} token now r) =
      delete_entry-All (Rests h) token g.cache (Reach-Rests r)
  Reach-Rests (changed {h} {g} i r) = invalidate_user-All (Rests h) i g.cache (Reach-Rests r)
  Reach-Rests (swept {h} {g} now r) = sweep-All (Rests h) now g (Reach-Rests r)

  -- Whatever calls came before, a user that `sessionOf` gives was checked in this call or in an
  -- earlier one less than 30 seconds before: the token was valid, its id, name and credential
  -- version were those of a row of the tables, and the token's own end is not past now.
  pub session_of-recent :
      {h : List (ℕ × Tables)} {g : Gate}
      → Reach verify h g
      → (token : List ℕ) (now later : ℕ) (t : Tables) (i : ℕ) (name : List ℕ)
      → (session_of verify token now later t g).1 ≡ some (i, name)
      → Any (Vouches verify token i name (now + 1)) ((now, t) ∷ h)
  session_of-recent {h} {g} r token now later t i name e =
      subst (Answered token now ((now, t) ∷ h)) e
        (asked-Sound token now t h later g (Reach-Rests r)).1
