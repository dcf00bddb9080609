-- ===== src/Sse.antt =====
-- `SseFrameBuffer` of src/sse-frames.ts. The pattern of an empty line is two line ends, each CRLF, a
-- CR before no LF, or a LF behind no CR. `byte_length` (`Buffer.byteLength` in UTF-8) is a parameter.
pub mod Bounds
pub mod Lines
pub mod Tests
use dsh_passwords.Prelude.{
  ℕ, zero, suc, ◌+◌, ◌-◌, Bool, true, false, not, ◌&&◌, Option, none, some, List, [], ◌∷◌, ◌++◌,
  ◌==◌, ltb, if◌then◌else◌, length, drop,
}
use dsh_passwords.Text.{is_empty}

pub record Buffer : Type 0 where
  pub pending : List ℕ
  pub pending_bytes : ℕ
  pub resyncing : Bool

pub new_buffer : Buffer
new_buffer = record { pending = []; pending_bytes = 0; resyncing = false }

-- A line end at the start of a text, for whether a CR stands before it: whether it ends in a CR, and
-- what is behind it.
abbrev pub line_end : Bool → List ℕ → Option (Bool × List ℕ)
line_end after_cr [] = none
line_end after_cr (c ∷ []) =
    if c == 13 then some (true, []) else if c == 10 && not after_cr then some (false, []) else none
line_end after_cr (c ∷ d ∷ s) =
    if c == 13
    then (if d == 10 then some (false, s) else some (true, d ∷ s))
    else if c == 10 && not after_cr
    then some (false, d ∷ s)
    else none

abbrev pub second_end : Option (Bool × List ℕ) → Option (Bool × List ℕ)
second_end none = none
second_end (some (cr, s)) = line_end cr s

-- `SSE_BLANK_LINE` at the start of a text.
abbrev pub blank_here : Bool → List ℕ → Option (Bool × List ℕ)
blank_here after_cr s = second_end (line_end after_cr s)

pub record Match : Type 0 where
  pub before : List ℕ
  pub ends_cr : Bool
  pub behind : List ℕ

abbrev pub later_match : ℕ → Option Match → Option Match
later_match c none = none
later_match c (some m) = some (record m { before = c ∷ m.before })

abbrev pub choose : Option (Bool × List ℕ) → Option Match → Option Match
choose none later = later
choose (some (cr, s)) later = some record { before = []; ends_cr = cr; behind = s }

-- The first empty line of a text.
pub find_blank : Bool → List ℕ → Option Match
find_blank after_cr [] = none
find_blank after_cr (c ∷ s) =
    choose (blank_here after_cr (c ∷ s)) (later_match c (find_blank (c == 13) s))

-- `split(SSE_BLANK_LINE)` as the parts before the last and the last.
abbrev pub cons_frame : List ℕ → List (List ℕ) × List ℕ → List (List ℕ) × List ℕ
cons_frame f r = (f ∷ r.0, r.1)

pub split_frames : ℕ → Bool → List ℕ → List (List ℕ) × List ℕ
split_frames zero after_cr s = ([], s)
split_frames (suc n) after_cr s = elim (find_blank after_cr s) [
  | none ↦ ([], s)
  | some m ↦ cons_frame m.before (split_frames n m.ends_cr m.behind)
]

module _ (byte_length : List ℕ → ℕ) (max_pending_bytes : ℕ) where
  -- A text without an empty line keeps the running count.
  abbrev pub tail_bytes : ℕ → List (List ℕ) × List ℕ → ℕ
  tail_bytes counted ([], tail) = counted
  tail_bytes counted (f ∷ l, tail) = if is_empty tail then 0 else byte_length tail

  abbrev pub limited : List ℕ → ℕ → Buffer
  limited tail bytes =
      if ltb max_pending_bytes bytes
      then record { pending = []; pending_bytes = 0; resyncing = true }
      else record { pending = tail; pending_bytes = bytes; resyncing = false }

  pub collect : List ℕ → Buffer → Buffer × List (List ℕ)
  collect text b =
      let r = split_frames (length (b.pending ++ text)) false (b.pending ++ text) in
      (limited r.1 (tail_bytes (b.pending_bytes + byte_length text) r), r.0)

  abbrev pub resync : List ℕ → Option Match → Buffer → Buffer × List (List ℕ)
  resync window none b = (record b { pending = drop (length window - 3) window }, [])
  resync window (some m) b =
      if is_empty m.behind then (new_buffer, []) else collect m.behind new_buffer

  pub push : List ℕ → Buffer → Buffer × List (List ℕ)
  push text b =
      if is_empty text
      then (b, [])
      else if b.resyncing
      then resync (b.pending ++ text) (find_blank false (b.pending ++ text)) b
      else collect text b

  pub flush : Buffer → Buffer × List (List ℕ)
  flush b =
      if b.resyncing
      then (b, [])
      else if is_empty b.pending
      then (b, [])
      else (record b { pending = []; pending_bytes = 0 }, b.pending ∷ [])
