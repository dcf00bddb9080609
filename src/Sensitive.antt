-- ===== src/Sensitive.antt =====
-- src/sensitive-paths.ts: the folders that no user may reach, whatever is granted, and the test of a
-- path against them. The file system, the environment and Node's `path` for the platform are a
-- record of functions; the cache of the host's root only saves work.
pub mod Laws
pub mod Tests
use dsh_passwords.Prelude.{
  ℕ, Bool, true, false, not, ◌||◌, Option, none, some, List, [], ◌∷◌, ◌++◌, if◌then◌else◌,
}
use dsh_passwords.Text.{codes, is_empty}
use dsh_passwords.Permissions.Folders.{normalize_path, equals_or_below}

pub record CheckerConfig : Type 0 where
  db_path : List ℕ
  dsh_root : List ℕ
  gateway_root : List ℕ
  configured_root : List ℕ

-- `realpath` is `none` where it throws, `dsh_home` is the variable `DSH_HOME`, `find_dsh_root` the
-- search of src/patch.ts, and `fold` is `toLowerCase`.
pub record System : Type 0 where
  windows : Bool
  resolve : List ℕ → List ℕ
  realpath : List ℕ → Option (List ℕ)
  dirname : List ℕ → List ℕ
  join : List ℕ → List ℕ → List ℕ
  homedir : List ℕ
  dsh_home : Option (List ℕ)
  find_dsh_root : List ℕ → Option (List ℕ)
  fold : List ℕ → List ℕ

module _ (sys : System) where
  abbrev pub real_or : List ℕ → Option (List ℕ) → List ℕ
  real_or value none = sys.resolve value
  real_or value (some real) = real

  abbrev pub realpath_best_effort : List ℕ → List ℕ
  realpath_best_effort value = real_or value (sys.realpath value)

  abbrev pub path_ancestors : List ℕ → List (List ℕ)
  path_ancestors value = value ∷ sys.dirname value ∷ sys.dirname (sys.dirname value) ∷ []

  abbrev pub dsh_home_from : Option (List ℕ) → List ℕ
  dsh_home_from none = sys.join (sys.homedir) (codes ".dsh")
  dsh_home_from (some []) = sys.join (sys.homedir) (codes ".dsh")
  dsh_home_from (some (c ∷ s)) = sys.resolve (c ∷ s)

  abbrev pub dsh_roots : Option (List ℕ) → List (List ℕ)
  dsh_roots none = [] ∷ [] ∷ []
  dsh_roots (some root) = sys.resolve root ∷ realpath_best_effort root ∷ []

  abbrev pub system_folders : List (List ℕ)
  system_folders =
      if sys.windows
      then []
      else codes "/etc" ∷ codes "/proc" ∷ codes "/sys" ∷ codes "/dev" ∷ codes "/boot" ∷ []

  abbrev pub not_empty : List (List ℕ) → List (List ℕ)
  not_empty [] = []
  not_empty (p ∷ ps) = let rest = not_empty ps in if is_empty p then rest else p ∷ rest

  abbrev pub all_bases : CheckerConfig → List (List ℕ)
  all_bases config =
      let home = dsh_home_from (sys.dsh_home) in
      let ssh = sys.join (sys.homedir) (codes ".ssh") in
      (sys.resolve (config.gateway_root)
        ∷ realpath_best_effort (config.gateway_root)
        ∷ sys.resolve (config.configured_root)
        ∷ realpath_best_effort (config.configured_root)
        ∷ [])
      ++ path_ancestors (sys.resolve (config.db_path))
      ++ path_ancestors (realpath_best_effort (config.db_path))
      ++ dsh_roots (sys.find_dsh_root (config.dsh_root))
      ++ (home ∷ realpath_best_effort home ∷ ssh ∷ realpath_best_effort ssh ∷ [])
      ++ system_folders

  pub sensitive_path_bases : CheckerConfig → List (List ℕ)
  sensitive_path_bases config = not_empty (all_bases config)

  abbrev pub case_fold : List ℕ → List ℕ
  case_fold value = if sys.windows then sys.fold value else value

  abbrev pub under_some : List ℕ → List (List ℕ) → Bool
  under_some normalized [] = false
  under_some normalized (base ∷ bases) =
      equals_or_below (case_fold (normalize_path base)) normalized || under_some normalized bases

  pub is_sensitive_path : CheckerConfig → List ℕ → Bool
  is_sensitive_path config candidate =
      under_some (case_fold (normalize_path candidate)) (sensitive_path_bases config)
