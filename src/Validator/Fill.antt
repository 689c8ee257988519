-- ===== src/Validator/Fill.antt =====
-- `validate_fill`.
pub mod Blank
pub mod Accepted
use study_helper_backend.Prelude.{
  ℕ, Bool, true, false, List, [], ◌∷◌, ◌++◌, Option, none, some, is_empty, ltb, if◌then◌else◌,
}
use study_helper_backend.Text.{Text, text, strip, contains, split, join, count, remove}
use study_helper_backend.Outcome.{Result, ok, err, ◌>>=◌, crash, attribute_error, validation_error}
use study_helper_backend.Json.{Value, null, str, list, dict, Fields, get_or, to_list, from_list}
use study_helper_backend.Runtime.{Runtime}
use study_helper_backend.Runtime.Number.{to_str}
use study_helper_backend.Schema.{FillQuestion}
use study_helper_backend.Coerce.{level_of, coerce_question_type}
use study_helper_backend.Validator.{ensure_id, str_field, concept_for}

-- "___"
abbrev pub blank : Text
blank = 95 ∷ 95 ∷ 95 ∷ []

abbrev first_part : List Text → Text
first_part [] = []
first_part (part ∷ parts) = part

abbrev later_parts : List Text → List Text
later_parts [] = []
later_parts (part ∷ parts) = parts

-- The sentence with its first blank alone.
unfoldable pub one_blank : Text → Text
one_blank s =
    let parts = split blank s in
    first_part parts ++ (blank ++ remove blank (join blank (later_parts parts)))

-- The blank that the code asks for; `none` where there is none.
unfoldable pub normalise : Text → Option Text
normalise s =
    if contains s blank then some (if ltb 1 (count blank s) then one_blank s else s) else none

-- What a raw question holds once its tests are passed.
pub record Draft : Type 0 where
  pub sentence : Text
  pub answer : Text
  pub variants : List Text
  pub hint : Text
  pub concept_id : Text

pub record Progress : Type 0 where
  pub draws : ℕ
  pub validated : List FillQuestion

unfoldable pub require_some : Progress → Result (List FillQuestion × ℕ)
unfolding text
require_some s =
    if is_empty s.validated
    then err (validation_error (text "No valid fill-in-blank questions could be extracted."))
    else ok (s.validated, s.draws)

unfoldable pub questions_of : Fields → Result (List Value)
unfolding get_or text
questions_of fs = elim (get_or fs (text "questions") (list (from_list []))) [
  | list vs ↦ ok (to_list vs)
  | _ ↦ err (validation_error (text "Fill response missing 'questions' array."))
]

module _ (rt : Runtime) where
  -- `str(fs.get(key, "")).strip()`
  unfoldable pub stripped : Fields → Text → Text
  unfolding strip to_str get_or
  stripped fs key = strip (to_str rt (get_or fs key (str [])))

  -- `[str(v).strip() for v in variants if str(v).strip()]`
  unfoldable pub keep_texts : List Value → List Text
  unfolding strip to_str
  keep_texts [] = []
  keep_texts (v ∷ vs) =
      let rest = keep_texts vs in
      let kept = strip (to_str rt v) in if is_empty kept then rest else kept ∷ rest

  unfoldable pub variants_of : Value → List Text
  unfolding keep_texts
  variants_of (list vs) = keep_texts (to_list vs)
  variants_of _ = []

  unfoldable pub check : List Text → Fields → Option Draft
  check ids fs = elim (normalise (stripped fs (text "sentence_with_blank"))) [
    | none ↦ none
    | some sentence ↦
        let answer = stripped fs (text "answer") in
        if is_empty answer
        then none
        else some (record {
          sentence = sentence;
          answer = answer;
          variants = variants_of (get_or fs (text "acceptable_variants") (list (from_list [])));
          hint = stripped fs (text "hint");
          concept_id = concept_for rt ids fs;
        })
  ]

  unfoldable pub complete : Fields → Draft → Result FillQuestion
  complete fs q = do
    level ← level_of rt fs
    question_type ← coerce_question_type (get_or fs (text "question_type") null)
    id ← str_field (get_or fs (text "id") null)
    ok (record {
      id = id;
      sentence_with_blank = q.sentence;
      answer = q.answer;
      acceptable_variants = q.variants;
      hint = q.hint;
      concept_id = q.concept_id;
      level = level;
      question_type = question_type;
    })

  -- One round of the loop.
  unfoldable pub visit : List Text → Value → Progress → Result Progress
  visit ids (dict fs) s =
      let (fs', draws) = ensure_id rt fs s.draws in
      elim (check ids fs') [
        | none ↦ ok (record s { draws = draws })
        | some q ↦ do
          kept ← complete fs' q
          ok (record { draws = draws; validated = s.validated ++ kept ∷ [] })
      ]
  visit ids _ s = ok s

  unfoldable pub visit_all : List Text → List Value → Progress → Result Progress
  visit_all ids [] s = ok s
  visit_all ids (v ∷ vs) s = do s' ← visit ids v s; visit_all ids vs s'

  -- The questions and the draws.
  unfoldable pub validate_fill : Value → List Text → ℕ → Result (List FillQuestion × ℕ)
  validate_fill (dict fs) ids draws = do
    values ← questions_of fs
    s ← visit_all ids values (record { draws = draws; validated = [] })
    require_some s
  validate_fill _ ids draws = err (crash attribute_error)
