-- ===== src/Config/Ranges.antt =====
-- What the settings of src/config.ts can be, whatever the environment says.
use dsh_passwords.Prelude.{
  ℕ, ◌≤◌, ◌≡◌, ◌⊎◌, inl, inr, refl, Bool, true, false, not, ◌&&◌, ◌||◌, Option, none, some, List,
  [], ◌∷◌, ◌==◌, leb, if◌then◌else◌, if_cases, arith, All,
}
use dsh_passwords.Text.{is_empty, has_code, has_text, trim}
use dsh_passwords.Permissions.Folders.{
  normalize_path, is_fully_qualified_path, is_filesystem_root_path,
}
use dsh_passwords.Config.{
  Spec, fragment_spec, ping_spec, pong_spec, stall_spec, parse_decimal_int, valid_or, read_raw,
  resolve_remote_mux_config, is_root_candidate, seen_with, collect_roots,
  parse_directory_picker_root_list, split_list,
}

abbrev IsIn : Spec → Bool → ℕ → Type 0
IsIn spec zero_valid n = ((zero_valid ≡ true) × (n ≡ 0)) ⊎ ((spec.min ≤ n) × (n ≤ spec.max))

valid_or-IsIn :
    (spec : Spec) (zero_valid : Bool) (o : Option ℕ)
    → spec.min ≤ spec.value
    → spec.value ≤ spec.max
    → IsIn spec zero_valid (valid_or spec zero_valid o)
valid_or-IsIn spec zero_valid none l h = inr (l, h)
valid_or-IsIn spec zero_valid (some n) l h =
    if_cases (IsIn spec zero_valid) ((zero_valid && n == 0) || (leb spec.min n && leb n spec.max))
      (λ e. ground arith) (λ _. inr (l, h))

read_raw-IsIn :
    (spec : Spec) (zero_valid : Bool) (o : Option (List ℕ))
    → spec.min ≤ spec.value
    → spec.value ≤ spec.max
    → IsIn spec zero_valid (read_raw spec zero_valid o)
read_raw-IsIn spec zero_valid none l h = inr (l, h)
read_raw-IsIn spec zero_valid (some raw) l h =
    if_cases (IsIn spec zero_valid) (is_empty (trim raw)) (λ _. inr (l, h))
      (λ _. valid_or-IsIn spec zero_valid (parse_decimal_int (some raw)) l h)

-- Whatever the environment holds, the fragments of the mux are off or have 16 KiB to 1 MiB, and
-- its three times lie in their ranges and are not 0.
pub resolve_remote_mux_config-ranges :
    (env : List ℕ → Option (List ℕ))
    → (((resolve_remote_mux_config env).fragment_bytes ≡ 0)
        ⊎ ((16384 ≤ (resolve_remote_mux_config env).fragment_bytes)
            × ((resolve_remote_mux_config env).fragment_bytes ≤ 1048576)))
      × (250 ≤ (resolve_remote_mux_config env).ping_interval_ms)
      × ((resolve_remote_mux_config env).ping_interval_ms ≤ 60000)
      × (2000 ≤ (resolve_remote_mux_config env).pong_timeout_ms)
      × ((resolve_remote_mux_config env).pong_timeout_ms ≤ 600000)
      × (5000 ≤ (resolve_remote_mux_config env).write_stall_ms)
      × ((resolve_remote_mux_config env).write_stall_ms ≤ 600000)
unfolding resolve_remote_mux_config
resolve_remote_mux_config-ranges env =
    let (pl, ph) = ranged ping_spec _ (read_raw-IsIn ping_spec false _ ping_low ping_high) in
    let (ol, oh) = ranged pong_spec _ (read_raw-IsIn pong_spec false _ pong_low pong_high) in
    let (sl, sh) = ranged stall_spec _ (read_raw-IsIn stall_spec false _ stall_low stall_high) in
    (off_or _ (read_raw-IsIn fragment_spec true _ frag_low frag_high), pl, ph, ol, oh, sl, sh)
  where
    ping_low : ping_spec.min ≤ ping_spec.value
    ping_low = omega arith

    ping_high : ping_spec.value ≤ ping_spec.max
    ping_high = omega arith

    pong_low : pong_spec.min ≤ pong_spec.value
    pong_low = omega arith

    pong_high : pong_spec.value ≤ pong_spec.max
    pong_high = omega arith

    stall_low : stall_spec.min ≤ stall_spec.value
    stall_low = omega arith

    stall_high : stall_spec.value ≤ stall_spec.max
    stall_high = omega arith

    frag_low : fragment_spec.min ≤ fragment_spec.value
    frag_low = omega arith

    frag_high : fragment_spec.value ≤ fragment_spec.max
    frag_high = omega arith

    ranged : (spec : Spec) (n : ℕ) → IsIn spec false n → (spec.min ≤ n) × (n ≤ spec.max)
    ranged spec n (inl (e, z)) = absurd (cc e)
    ranged spec n (inr h) = h

    off_or : (n : ℕ) → IsIn fragment_spec true n → (n ≡ 0) ⊎ ((16384 ≤ n) × (n ≤ 1048576))
    off_or n (inl (e, z)) = inl z
    off_or n (inr h) = inr h

candidate-IsSafe :
    (windows : Bool) (seen : List (List ℕ)) (c : List ℕ)
    → is_root_candidate windows seen c ≡ true
    → (is_fully_qualified_path windows c ≡ true)
      × (is_filesystem_root_path (normalize_path c) ≡ false)
      × (has_text (normalize_path c) seen ≡ false)
candidate-IsSafe windows seen c h = four (is_empty c || has_code 0 c) _ _ _ h
  where
    four :
        (a b d e : Bool)
        → (if a then false else if not b then false else if d then false else not e) ≡ true
        → (b ≡ true) × (d ≡ false) × (e ≡ false)
    four true b d e h = absurd (cc h)
    four false false d e h = absurd (cc h)
    four false true true e h = absurd (cc h)
    four false true false true h = absurd (cc h)
    four false true false false h = (refl, refl, refl)

abbrev IsRoot : Bool → List ℕ → Type 0
IsRoot windows c =
    (is_fully_qualified_path windows c ≡ true)
    × (is_filesystem_root_path (normalize_path c) ≡ false)

collect_roots-IsRoot :
    (windows : Bool) (seen parts : List (List ℕ))
    → All (IsRoot windows) (collect_roots windows seen parts)
collect_roots-IsRoot windows seen [] = tt
collect_roots-IsRoot windows seen (part ∷ parts) =
    let rest = collect_roots-IsRoot windows (seen_with windows seen (trim part)) parts in
    if_cases (All (IsRoot windows)) (is_root_candidate windows seen (trim part))
      (λ e. let (q, r, _) = candidate-IsSafe windows seen (trim part) e in ((q, r), rest))
      (λ _. rest)

-- The roots of the directory picker are absolute paths and none is the whole file system, whatever
-- the text.
pub roots-IsRoot :
    (windows : Bool) (raw : List ℕ)
    → All (IsRoot windows) (parse_directory_picker_root_list windows raw)
unfolding parse_directory_picker_root_list
roots-IsRoot windows raw = collect_roots-IsRoot windows [] (split_list raw)
