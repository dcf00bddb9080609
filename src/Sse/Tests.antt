-- ===== src/Sse/Tests.antt =====
-- Chunks on small inputs.
use dsh_passwords.Prelude.{length, map, ℕ, ◌≡◌, refl, List, [], ◌∷◌, false}
use dsh_passwords.Accounts.Input.{byte_length}
use dsh_passwords.Accounts.Input.Bytes.{byte_length-append, byte_length-narrow}
use dsh_passwords.Sse.{Buffer, new_buffer, find_blank, split_frames, push}
use dsh_passwords.Sse.Lines.{unify, split_lines, split_frames-lines}
use dsh_passwords.Sse.Bounds.{IsBounded, new-IsBounded, push-IsBounded}

abbrev chunk : List ℕ
chunk = 65 ∷ 13 ∷ 10 ∷ 10 ∷ 66 ∷ []

abbrev IsBoundedText : Buffer → Type 0
IsBoundedText = IsBounded byte_length 4 byte_length-append byte_length-narrow

push-IsBounded_example : IsBoundedText (push byte_length 4 chunk new_buffer).0
push-IsBounded_example =
    push-IsBounded byte_length 4 byte_length-append byte_length-narrow chunk new_buffer
      (new-IsBounded byte_length 4 byte_length-append byte_length-narrow)

mixed_ends : split_frames 5 false chunk ≡ ((65 ∷ []) ∷ [], 66 ∷ [])
unfolding split_frames find_blank
mixed_ends = refl

bare_returns : split_frames 4 false (65 ∷ 13 ∷ 13 ∷ 66 ∷ []) ≡ ((65 ∷ []) ∷ [], 66 ∷ [])
unfolding split_frames find_blank
bare_returns = refl

two_pairs : split_frames 5 false (65 ∷ 13 ∷ 10 ∷ 13 ∷ 10 ∷ []) ≡ ((65 ∷ []) ∷ [], [])
unfolding split_frames find_blank
two_pairs = refl

one_pair : split_frames 4 false (65 ∷ 13 ∷ 10 ∷ 66 ∷ []) ≡ ([], 65 ∷ 13 ∷ 10 ∷ 66 ∷ [])
unfolding split_frames find_blank
one_pair = refl

-- Three kinds of line ends around two frames.
abbrev mixed : List ℕ
mixed = 65 ∷ 13 ∷ 10 ∷ 13 ∷ 66 ∷ 13 ∷ 13 ∷ 10 ∷ 67 ∷ 10 ∷ []

split_frames-lines_example : split_lines (unify false mixed) ≡ (
  map (unify false) (split_frames (length mixed) false mixed).0,
  unify false (split_frames (length mixed) false mixed).1,
)
split_frames-lines_example = split_frames-lines mixed
