-- ===== src/Coerce.antt =====
-- How a raw value becomes a level or a question type: `_coerce_level` and `_coerce_question_type` of
-- app/services/response_validator.py, and `_coerce_fields` of app/models/schemas.py, which is the
-- same for MCQQuestion and FillQuestion.
pub mod Laws
pub mod Old
use study_helper_backend.Prelude.{
  ℕ, Bool, true, false, not, ◌&&◌, Option, none, some, min, max, if◌then◌else◌,
}
use study_helper_backend.Prelude.Int.{ℤ, pos, negsuc}
use study_helper_backend.Text.{Text, text, text_eq}
use study_helper_backend.Outcome.{Result, ok, err, ◌>>=◌, crash, type_error, value_error}
use study_helper_backend.Json.{
  Value, null, bool, int, float, str, list, dict, Fields, get, get_or, set,
}
use study_helper_backend.Runtime.{Runtime}
use study_helper_backend.Runtime.Number.{to_int, to_str}
use study_helper_backend.Schema.{QuestionType, concept, application}

-- `_DIFFICULTY_TO_LEVEL.get(s)`
unfoldable pub difficulty_level : Text → Option ℕ
unfolding text text_eq
difficulty_level s =
    if text_eq s (text "easy")
    then some 2
    else if text_eq s (text "medium")
    then some 3
    else if text_eq s (text "hard")
    then some 4
    else none

-- `max(1, min(5, n))`
unfoldable pub clamp : ℤ → ℕ
clamp (pos n) = max 1 (min 5 n)
clamp (negsuc n) = 1

-- `except (ValueError, TypeError)`: 3. Any other exception is passed on.
abbrev pub clamp_or_three : Result ℤ → Result ℕ
clamp_or_three (ok n) = ok (clamp n)
clamp_or_three (err (crash value_error)) = ok 3
clamp_or_three (err (crash type_error)) = ok 3
clamp_or_three (err e) = err e

-- `x in _VALID_QUESTION_TYPES`; a list and a dict have no hash.
unfoldable pub question_type_of : Value → Result (Option QuestionType)
unfolding text text_eq
question_type_of (str s) = ok (
    if text_eq s (text "concept")
    then some concept
    else if text_eq s (text "application")
    then some application
    else none)
question_type_of (list vs) = err (crash type_error)
question_type_of (dict fs) = err (crash type_error)
question_type_of v = ok none

abbrev pub or_concept : Option QuestionType → QuestionType
or_concept none = concept
or_concept (some t) = t

unfoldable pub coerce_question_type : Value → Result QuestionType
unfolding question_type_of
coerce_question_type v = do found ← question_type_of v; ok (or_concept found)

module _ (rt : Runtime) where
  unfoldable pub coerce_level : Value → Result ℕ
  unfolding difficulty_level clamp to_int
  coerce_level (str s) = elim (difficulty_level s) [
    | some n ↦ ok n
    | none ↦ clamp_or_three (to_int rt (str s))
  ]
  coerce_level v = clamp_or_three (to_int rt v)

  -- `q.get("level", q.get("difficulty", 3))`, coerced.
  unfoldable pub level_of : Fields → Result ℕ
  unfolding coerce_level get_or text
  level_of fs =
      coerce_level (get_or fs (text "level") (get_or fs (text "difficulty") (int (pos 3))))

  abbrev three_or : Option ℕ → ℕ
  three_or none = 3
  three_or (some n) = n

  -- The first step of `_coerce_fields`: a level for old data that has only a difficulty.
  unfoldable pub from_difficulty : Fields → Fields
  unfolding difficulty_level get set to_str text
  from_difficulty fs = elim (get fs (text "level")) [
    | some _ ↦ fs
    | none ↦ elim (get fs (text "difficulty")) [
      | none ↦ fs
      | some v ↦ set fs (text "level") (int (pos (three_or (difficulty_level (to_str rt v)))))
    ]
  ]

  -- The second: the level is clamped.
  unfoldable pub clamp_level : Fields → Result Fields
  unfolding get set to_int clamp text
  clamp_level fs = elim (get fs (text "level")) [
    | none ↦ ok fs
    | some v ↦ do n ← clamp_or_three (to_int rt v); ok (set fs (text "level") (int (pos n)))
  ]

  abbrev or_default_type : Fields → Option QuestionType → Fields
  or_default_type fs (some _) = fs
  or_default_type fs none = set fs (text "question_type") (str (text "concept"))

  -- The third: a question type that is not valid becomes "concept".
  unfoldable pub default_type : Fields → Result Fields
  unfolding get_or question_type_of set text
  default_type fs = do
    found ← question_type_of (get_or fs (text "question_type") null)
    ok (or_default_type fs found)

  unfoldable pub coerce_fields : Fields → Result Fields
  unfolding from_difficulty clamp_level default_type
  coerce_fields fs = do clamped ← clamp_level (from_difficulty fs); default_type clamped
