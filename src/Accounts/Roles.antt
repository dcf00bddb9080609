-- ===== src/Accounts/Roles.antt =====
-- The writes of src/auth.ts and src/db.ts on the accounts as steps, in any order and with the calls
-- of several users under way: an admin is left after each of them.
pub mod Rows
use dsh_passwords.Prelude.{
  ℕ, ◌+◌, ◌<◌, ◌≡◌, refl, Bool, true, false, ◌||◌, Option, none, some, List, [], ◌∷◌, ◌++◌, ◌==◌,
  arith, All, not, length, ◌⊎◌, inl, inr, ◌∙◌, All-append, All-mono, if_cases, is_some, ==_iff,
  or-cases,
}
use dsh_passwords.Text.{trim}
use dsh_passwords.Auth.{Attempt}
use dsh_passwords.Store.{Store}
use dsh_passwords.Accounts.{
  Account, Tables, count_users, get_user_by_username, find_hash, account_of, create_user,
  setup_initial_admin, update_username, update_password_hash, update_id, renamed, rehashed,
  delete_user, delete_id, is_taken,
}
use dsh_passwords.Accounts.Service.{
  Caller, AuthError, already_initialized, removable, setup_commit, setup_ended, updated_or_failed,
  Ended,
}
use dsh_passwords.Accounts.Roles.Rows.*

-- The tables with the ids of the removals that have passed their checks and not yet written.
pub record Platform : Type 0 where
  pub tables : Tables
  pub removing : List ℕ

abbrev pub added : Option (Tables × ℕ) → Tables → Tables
added none t = t
added (some (t', id)) t = t'

-- One write, or the checks of one removal.
pub data Step (lookup_hash : List ℕ → ℕ) : Platform → Platform → Type 0 where
  setup_writes :
      (name hash : List ℕ) (s : Platform)
      → Step lookup_hash s (record s { tables = (setup_commit lookup_hash name hash s.tables).0 })
  password_writes :
      (id : ℕ) (hash : List ℕ) (s : Platform)
      → Step lookup_hash s (record s { tables = update_password_hash id hash s.tables })
  name_writes :
      (id : ℕ) (name : List ℕ) (s : Platform)
      → Step lookup_hash s (record s {
        tables = (updated_or_failed (update_username lookup_hash id name s.tables) s.tables).0;
      })
  user_writes :
      (name hash : List ℕ) (s : Platform)
      → Step lookup_hash s
          (record s { tables = added (create_user lookup_hash name hash false s.tables) s.tables })
  other_writes :
      (attempts : List Attempt) (store : Store) (s : Platform)
      → Step lookup_hash s
          (record s { tables = record (s.tables) { attempts = attempts; store = store } })
  removal_checks :
      (caller : Caller) (target : List ℕ) (x : Account) (s : Platform)
      → get_user_by_username lookup_hash (trim target) s.tables ≡ some x
      → removable caller x ≡ none
      → Step lookup_hash s (record s { removing = x.id ∷ s.removing })
  removal_writes :
      (id : ℕ) (s : Platform)
      → has_id id s.removing ≡ true
      → Step lookup_hash s (record s { tables = delete_user lookup_hash id s.tables })

pub data Reach (lookup_hash : List ℕ → ℕ) (s : Platform) : Platform → Type 0 where
  here : Reach lookup_hash s s
  next : {t u : Platform} → Reach lookup_hash s t → Step lookup_hash t u → Reach lookup_hash s u

-- An admin is there, ids are distinct and below the next one, and no removal names an admin.
pub record IsValid (s : Platform) : Type 0 where
  pub admin : has_admin s.tables.users ≡ true
  pub fresh : All (λ x. x.id < s.tables.next_id) s.tables.users
  pub unique : HasUnique s.tables.users
  pub pending : All (λ i. (i < s.tables.next_id) × IsUser i s.tables.users) s.removing

abbrev Pending : ℕ → List Account → ℕ → Type 0
Pending n l i = (i < n) × IsUser i l

-- The ids and the admins are untouched by a write on one row.
update-IsValid :
    (i : ℕ) (f : Account → Account) (s : Platform)
    → ((x : Account) → ((f x).id ≡ x.id) × ((f x).is_admin ≡ x.is_admin))
    → IsValid s
    → IsValid (record s { tables = record (s.tables) { users = update_id i f s.tables.users } })
update-IsValid i f s keeps v = record {
  admin = update-has_admin i f keeps s.tables.users ∙ v.admin;
  fresh = update-Below i f keeps s.tables.next_id s.tables.users v.fresh;
  unique = update-HasUnique i f keeps s.tables.users v.unique;
  pending =
      All-mono s.removing (λ j (k, u). (k, update-IsUser i f keeps j s.tables.users u)) v.pending;
}

added-IsValid :
    (s : Platform) (x : Account)
    → x.id ≡ s.tables.next_id
    → IsValid s
    → IsValid (record s {
      tables = record (s.tables) {
        users = s.tables.users ++ x ∷ [];
        next_id = s.tables.next_id + 1;
      };
    })
added-IsValid s x e v = record {
  admin = rw (append-has_admin s.tables.users (x ∷ []), v.admin) refl;
  fresh =
      All-append _ s.tables.users (x ∷ [])
        (All-mono {P = λ y. y.id < s.tables.next_id} s.tables.users (λ y k. omega arith) v.fresh)
        (omega arith, tt);
  unique = append-HasUnique s.tables.users x (rw e v.fresh) v.unique;
  pending =
      All-mono {P = Pending s.tables.next_id s.tables.users} s.removing
        (λ j (k, u).
          (omega arith, All-append _ s.tables.users (x ∷ []) u ((λ w. absurd (omega arith)), tt)))
        v.pending;
}

removable-user : (caller : Caller) (x : Account) → removable caller x ≡ none → x.is_admin ≡ false
removable-user caller x e = ground arith

admin-count : (l : List Account) → has_admin l ≡ true → not (length l == 0) ≡ true
admin-count [] h = cc
admin-count (x ∷ l) h = ground arith

removed-IsUser :
    (i : ℕ) (l : List ℕ) (n : ℕ) (users : List Account)
    → has_id i l ≡ true
    → All (Pending n users) l
    → IsUser i users
removed-IsUser i [] n users e h = cc
removed-IsUser i (j ∷ l) n users e ((k, u), h) = elim (or-cases (i == j) (has_id i l) e) [
  | inl same ↦ rw ((==_iff i j).0 same) u
  | inr more ↦ removed-IsUser i l n users more h
]

module _ (lookup_hash : List ℕ → ℕ) where
  -- A new user has the next id, and so no id that a removal names.
  created-IsValid :
      (name hash : List ℕ) (is_admin : Bool) (s : Platform)
      → IsValid s
      → IsValid (record s {
        tables = added (create_user lookup_hash name hash is_admin s.tables) s.tables;
      })
  unfolding create_user
  created-IsValid name hash is_admin s v =
      if_cases (λ o. IsValid (record s { tables = added o s.tables }))
        (is_some (find_hash (lookup_hash name) s.tables.users)) (λ _. v)
        (λ _. added-IsValid s (account_of lookup_hash s.tables.next_id name hash is_admin) refl v)

  -- A platform with a user refuses another setup.
  setup_commit-refused :
      (name hash : List ℕ) (s : Platform)
      → IsValid s
      → setup_commit lookup_hash name hash s.tables ≡ (s.tables, some already_initialized)
  unfolding setup_commit setup_initial_admin count_users
  setup_commit-refused name hash s v = rw (admin-count s.tables.users v.admin) refl

  Step-IsValid : {s t : Platform} → Step lookup_hash s t → IsValid s → IsValid t
  unfolding update_username update_password_hash delete_user get_user_by_username
  Step-IsValid (setup_writes name hash s) v = rw (setup_commit-refused name hash s v) v
  Step-IsValid (password_writes id hash s) v =
      update-IsValid id (rehashed hash) s (λ x. (refl, refl)) v
  Step-IsValid (name_writes id name s) v =
      if_cases (λ o. IsValid (record s { tables = (updated_or_failed o s.tables).0 }))
        (is_taken id (lookup_hash name) s.tables.users) (λ _. v)
        (λ _. update-IsValid id (renamed lookup_hash name) s (λ x. (refl, refl)) v)
  Step-IsValid (user_writes name hash s) v = created-IsValid name hash false s v
  Step-IsValid (other_writes attempts store s) v = record {
    admin = v.admin;
    fresh = v.fresh;
    unique = v.unique;
    pending = v.pending;
  }
  Step-IsValid (removal_checks caller target x s found ok) v = record {
    admin = v.admin;
    fresh = v.fresh;
    unique = v.unique;
    pending = (
      (
        find_hash-All (λ y. y.id < s.tables.next_id) _ x s.tables.users found v.fresh,
        find_hash-IsUser _ x s.tables.users found (removable-user caller x ok) v.unique,
      ),
      v.pending,
    );
  }
  Step-IsValid (removal_writes id s named) v =
      let user = removed-IsUser id s.removing s.tables.next_id s.tables.users named v.pending in
      record {
        admin = delete-has_admin id s.tables.users user ∙ v.admin;
        fresh = delete-All _ id s.tables.users v.fresh;
        unique = delete-HasUnique id s.tables.users v.unique;
        pending =
            All-mono {P = Pending s.tables.next_id s.tables.users} s.removing
              (λ j (k, u). (k, delete-All _ id s.tables.users u)) v.pending;
      }

  Reach-IsValid : {s t : Platform} → Reach lookup_hash s t → IsValid s → IsValid t
  Reach-IsValid here v = v
  Reach-IsValid (next {t} r step) v = Step-IsValid step (Reach-IsValid r v)

  -- The first setup.
  first_setup :
      (name hash : List ℕ) (t : Tables)
      → t.users ≡ []
      → IsValid (record { tables = (setup_commit lookup_hash name hash t).0; removing = [] })
  unfolding setup_commit setup_initial_admin count_users create_user
  first_setup name hash t e =
      rw e (record { admin = refl; fresh = (omega arith, tt); unique = (tt, tt); pending = tt })

  -- After a setup of tables without users, and whatever writes of the service follow in whatever
  -- order, those of removals whose checks lie further back included, an admin is there, and the
  -- write of every other setup is refused and changes nothing.
  pub Reach-admin :
      (name hash : List ℕ) (t : Tables)
      → t.users ≡ []
      → (u : Platform)
      → Reach lookup_hash
          (record { tables = (setup_commit lookup_hash name hash t).0; removing = [] })
          u
      → (name' hash' : List ℕ)
      → (has_admin u.tables.users ≡ true)
        × (setup_commit lookup_hash name' hash' u.tables ≡ (u.tables, some already_initialized))
  Reach-admin name hash t e u r name' hash' =
      let v = Reach-IsValid r (first_setup name hash t e) in
      (v.admin, setup_commit-refused name' hash' u v)
