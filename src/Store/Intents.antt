-- ===== src/Store/Intents.antt =====
-- The intents of a clean-up in src/db.ts, which outlive a restart: `recordWorkspaceCleanupIntent`,
-- `findWorkspaceCleanupIntent` and `clearWorkspaceCleanupIntent`. An owner is a natural number, and
-- 0 is refused. The time of a row is left out.
use dsh_passwords.Prelude.{
  ℕ, ◌+◌, ◌≡◌, refl, Bool, ◌||◌, Option, none, some, List, [], ◌∷◌, ◌++◌, ◌==◌, ltb, length, take,
  if◌then◌else◌, bytes_eq, Bool-cases, inl, inr,
}
use dsh_passwords.Text.{is_empty}
use dsh_passwords.Store.{
  Column, column_of, parse_json_array, distinct, session_ids, normalize_session_id_set,
}
use dsh_passwords.Store.Reading.{or_empty}
use dsh_passwords.Store.Tree.{normalize_for_match, same_path_for_match}

pub record IntentRow : Type 0 where
  pub root : List ℕ
  pub session_ids_text : Column
  pub owner_user_id : ℕ

-- `WorkspaceCleanupIntent`.
pub record Intent : Type 0 where
  pub root : List ℕ
  pub sessions : List (List ℕ)
  pub owner_user_id : ℕ

abbrev pub read_intent : IntentRow → Intent
read_intent r = record {
  root = r.root;
  sessions = take 2000 (session_ids (or_empty (parse_json_array r.session_ids_text)));
  owner_user_id = r.owner_user_id;
}

abbrev pub update_intent : List ℕ → List (List ℕ) → ℕ → List IntentRow → List IntentRow
update_intent root sessions owner [] = []
update_intent root sessions owner (r ∷ l) =
    (if bytes_eq r.root root
      then record r { session_ids_text = column_of sessions; owner_user_id = owner }
      else r)
    ∷ update_intent root sessions owner l

module _ (windows : Bool) (canonical : List ℕ → List ℕ) where
  abbrev pub find_same : List ℕ → List IntentRow → Option Intent
  find_same root [] = none
  find_same root (r ∷ l) =
      if same_path_for_match windows canonical r.root root
      then some (read_intent r)
      else find_same root l

  unfoldable pub find_workspace_cleanup_intent : List ℕ → List IntentRow → Option Intent
  find_workspace_cleanup_intent root l = if is_empty root then none else find_same root l

  abbrev pub merge_intent :
      List ℕ → List (List ℕ) → ℕ → List IntentRow → Option Intent → List IntentRow
  merge_intent root sessions owner l none =
      l ++ record { root = root; session_ids_text = column_of sessions; owner_user_id = owner } ∷ []
  merge_intent root sessions owner l (some i) =
      update_intent i.root (take 2000 (distinct (i.sessions ++ sessions))) owner l

  -- None where the function throws.
  unfoldable pub record_workspace_cleanup_intent :
      List ℕ → List (List ℕ) → ℕ → List IntentRow → Option (List IntentRow)
  record_workspace_cleanup_intent root ids owner l =
      if is_empty root || ltb 4096 (length root)
      then none
      else if owner == 0
      then none
      else some (
          merge_intent (normalize_for_match root) (normalize_session_id_set ids) owner l
            (find_workspace_cleanup_intent (normalize_for_match root) l))

  abbrev pub kept_intents : List ℕ → List IntentRow → List IntentRow
  kept_intents root [] = []
  kept_intents root (r ∷ l) =
      let rest = kept_intents root l in
      if same_path_for_match windows canonical r.root root then rest else r ∷ rest

  abbrev pub doomed_count : List ℕ → List IntentRow → ℕ
  doomed_count root [] = 0
  doomed_count root (r ∷ l) =
      (if same_path_for_match windows canonical r.root root then 1 else 0) + doomed_count root l

  unfoldable pub clear_workspace_cleanup_intent : List ℕ → List IntentRow → List IntentRow × ℕ
  clear_workspace_cleanup_intent root l =
      if is_empty root then (l, 0) else (kept_intents root l, doomed_count root l)

  find-kept : (root : List ℕ) (l : List IntentRow) → find_same root (kept_intents root l) ≡ none
  find-kept root [] = refl
  find-kept root (r ∷ l) = elim (Bool-cases (same_path_for_match windows canonical r.root root)) [
    | inl e ↦ simp e (find-kept root l)
    | inr e ↦ simp e (find-kept root l)
  ]

  -- After a path's intents were cleared, none is found for it, under whatever spelling it stood.
  pub find-clear :
      (root : List ℕ) (l : List IntentRow)
      → find_workspace_cleanup_intent root (clear_workspace_cleanup_intent root l).0 ≡ none
  unfolding find_workspace_cleanup_intent clear_workspace_cleanup_intent
  find-clear root l = elim (Bool-cases (is_empty root)) [
    | inl e ↦ simp e refl
    | inr e ↦ simp e (find-kept root l)
  ]
