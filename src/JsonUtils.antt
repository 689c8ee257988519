-- ===== src/JsonUtils.antt =====
-- app/services/json_utils.py: the JSON in an answer of a model, and what can be saved of one that
-- was cut off.
pub mod Recovered
pub mod Complete
use study_helper_backend.Prelude.{
  ℕ, zero, suc, ◌+◌, ◌-◌, Bool, true, false, ◌&&◌, List, [], ◌∷◌, ◌++◌, Option, none, some, take,
  drop, is_empty, length, ◌==◌, if◌then◌else◌,
}
use study_helper_backend.Prelude.Int.{ℤ, pos, negsuc}
use study_helper_backend.Text.{Text, text, text_eq, starts_with, strip, split, join}
use study_helper_backend.Outcome.{Result, ok, err, generation_error}
use study_helper_backend.Json.{Value, list, dict, Fields, end, field, from_list}
use study_helper_backend.Runtime.{Runtime}

-- `s[a : b]`
abbrev pub slice : ℕ → ℕ → Text → Text
slice a b s = take (b - a) (drop a s)

-- `s.find(t)`, counting from `i`; `none` is -1.
unfoldable pub find_from : Text → ℕ → Text → Option ℕ
unfolding starts_with
find_from t i [] = if starts_with [] t then some i else none
find_from t i (c ∷ s) =
    let later = find_from t (i + 1) s in if starts_with (c ∷ s) t then some i else later

-- `s.find(t, start)`, for a start that is not negative.
unfoldable pub find : Text → ℕ → Text → Option ℕ
unfolding find_from
find t start s = find_from t start (drop start s)

-- The start that `find` gives for a `start` of -1: Python counts it from the end.
abbrev pub from_find : Option ℕ → Text → ℕ
from_find none s = length s - 1
from_find (some i) s = i

unfoldable pub array_start : Text → Option ℕ
unfolding find text
array_start s = find (text "[") (from_find (find (text "\"questions\"") 0 s) s) s

-- The variables of the loop of `recover_partial_questions`.
pub record Scan : Type 0 where
  pub depth : ℤ
  pub obj_start : Option ℕ
  pub questions : List Value

abbrev pub is_zero : ℤ → Bool
is_zero (pos zero) = true
is_zero _ = false

abbrev pub inc : ℤ → ℤ
inc (pos n) = pos (suc n)
inc (negsuc zero) = pos 0
inc (negsuc (suc n)) = negsuc n

abbrev pub dec : ℤ → ℤ
dec (pos zero) = negsuc 0
dec (pos (suc n)) = pos n
dec (negsuc n) = negsuc (suc n)

abbrev pub parsed : Option Value → List Value
parsed none = []
parsed (some v) = v ∷ []

module _ (rt : Runtime) (s : Text) where
  -- `}` at the position `i`: the object that is open, if there is one, ends here.
  close : ℕ → Scan → Scan
  close i z =
      let depth = dec z.depth in
      elim z.obj_start [
        | some a ↦
            if is_zero depth
            then record {
              depth = depth;
              obj_start = none;
              questions = z.questions ++ parsed (rt.loads (slice a (i + 1) s));
            }
            else record z { depth = depth }
        | none ↦ record z { depth = depth }
      ]

  -- One character of the loop, at the position `i`.
  pub visit : ℕ → ℕ → Scan → Scan
  unfolding close
  visit c i z =
      if c == b'{'
      then record z {
        depth = inc z.depth;
        obj_start = if is_zero z.depth then some i else z.obj_start;
      }
      else if c == b'}'
      then close i z
      else z

  pub scan : Text → ℕ → Scan → Scan
  unfolding visit
  scan [] i z = z
  scan (c ∷ rest) i z = scan rest (i + 1) (visit c i z)

abbrev pub at_start : Scan
at_start = record { depth = pos 0; obj_start = none; questions = [] }

abbrev non_empty : List Value → Option (List Value)
non_empty [] = none
non_empty (q ∷ qs) = some (q ∷ qs)

-- The questions of `recover_partial_questions`; `none` where it returns None.
unfoldable pub recover : Runtime → Text → Option (List Value)
unfolding array_start scan
recover rt s = elim (array_start s) [
  | none ↦ none
  | some a ↦ non_empty (scan rt s (drop a s) a at_start).questions
]

-- `{"questions": questions}`
abbrev pub with_questions : List Value → Value
with_questions qs = dict (field (text "questions") (list (from_list qs)) end)

-- All lines of a list but the last.
abbrev pub without_last : List Text → List Text
without_last [] = []
without_last (line ∷ []) = []
without_last (line ∷ line' ∷ lines) = line ∷ without_last (line' ∷ lines)

abbrev pub last_line : List Text → Text
last_line [] = []
last_line (line ∷ []) = line
last_line (line ∷ line' ∷ lines) = last_line (line' ∷ lines)

-- The lines between the fences. The first line of a text that starts with a fence does so too, so
-- that `start` is 1. A text of one line has no line between: `lines[1:0]` and `lines[1:1]` are empty.
abbrev pub unfence : List Text → List Text
unfence lines =
    drop 1 (if text_eq (strip (last_line lines)) (text "```") then without_last lines else lines)

unfoldable pub strip_fences : Text → Text
unfolding strip split join text starts_with text_eq
strip_fences raw =
    let s = strip raw in
    if starts_with s (text "```") then join (text "\n") (unfence (split (text "\n") s)) else s

unfoldable pub parse_or_recover : Runtime → Text → Result Value
unfolding recover text
parse_or_recover rt s = elim (rt.loads s) [
  | some v ↦ ok v
  | none ↦ elim (recover rt s) [
    | some qs ↦ ok (with_questions qs)
    | none ↦ err (generation_error 500 (text "서비스에 일시적인 문제가 발생했습니다. 잠시 후 다시 시도해주세요."))
  ]
]

unfoldable pub extract_json : Runtime → Text → Result Value
unfolding strip_fences parse_or_recover
extract_json rt raw = parse_or_recover rt (strip_fences raw)
