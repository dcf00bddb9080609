-- ===== src/Sensitive/Tests.antt =====
-- A file of the system on a machine without links.
use dsh_passwords.Prelude.{◌≡◌, refl, true, false, inl, inr, none, [], ◌∷◌, ◌++◌}
use dsh_passwords.Text.{codes, split, starts_with, ends_with, strip_prefix}
use dsh_passwords.Posix.{posix_normalize, absolute_path, push_segments, push_segment, pop_segment}
use dsh_passwords.Permissions.Folders.{normalize_path}
use dsh_passwords.Sensitive.{
  System, CheckerConfig, case_fold, sensitive_path_bases, is_sensitive_path,
}
use dsh_passwords.Sensitive.Laws.{IsIn, is_sensitive_path-below}

abbrev no_links : System
no_links = record {
  windows = false;
  resolve = λ p. p;
  realpath = λ p. none;
  dirname = λ p. codes "/srv";
  join = λ p s. p ++ codes "/" ++ s;
  homedir = codes "/root";
  dsh_home = none;
  find_dsh_root = λ p. none;
  fold = λ p. p;
}

abbrev srv_config : CheckerConfig
srv_config = record {
  db_path = codes "/srv/db";
  dsh_root = [];
  gateway_root = codes "/srv";
  configured_root = codes "/srv";
}

etc-IsIn : IsIn (codes "/etc") (sensitive_path_bases no_links srv_config)
unfolding sensitive_path_bases
etc-IsIn =
    inr (inr (inr (inr (inr (inr (inr (inr (inr (inr (inr (inr (inr (inr (inl refl))))))))))))))

below_etc :
    split b'/' (case_fold no_links (normalize_path (codes "/etc/../etc/passwd")))
    ≡ split b'/' (case_fold no_links (normalize_path (codes "/etc"))) ++ codes "passwd" ∷ []
unfolding normalize_path posix_normalize absolute_path push_segments push_segment pop_segment split
    ends_with starts_with strip_prefix
below_etc = refl

is_sensitive_path-below_example :
    is_sensitive_path no_links srv_config (codes "/etc/../etc/passwd") ≡ true
is_sensitive_path-below_example =
    is_sensitive_path-below no_links srv_config (codes "/etc/../etc/passwd") (codes "/etc")
      (codes "passwd" ∷ []) etc-IsIn below_etc
