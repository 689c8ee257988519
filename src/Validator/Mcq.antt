-- ===== src/Validator/Mcq.antt =====
-- `validate_mcq`.
pub mod Steps
pub mod Accepted
pub mod Distinct
pub mod Kept
use study_helper_backend.Prelude.{
  ℕ, ◌+◌, ◌*◌, Bool, true, false, not, ◌&&◌, ◌||◌, List, [], ◌∷◌, ◌++◌, Option, none, some, any,
  is_empty, length, ltb, if◌then◌else◌,
}
use study_helper_backend.Text.{Text, text, text_eq, strip}
use study_helper_backend.Outcome.{Result, ok, err, ◌>>=◌, crash, attribute_error, validation_error}
use study_helper_backend.Json.{
  Value, null, str, list, dict, Fields, end, get_or, to_list, from_list,
}
use study_helper_backend.Runtime.{Runtime}
use study_helper_backend.Runtime.Number.{to_str}
use study_helper_backend.Schema.{Letter, a, b, c, d, McqOptions, McqQuestion}
use study_helper_backend.Coerce.{level_of, coerce_question_type}
use study_helper_backend.Validator.{tokenize, both, to_set, ensure_id, str_field, concept_for}

-- More than 70% of the tokens of the two questions are shared. The code divides and compares with
-- the double 0.70; no quotient of numbers below 2 ^ 48 lies between that double and 7/10.
unfoldable pub near_duplicate : Runtime → Text → Text → Bool
unfolding tokenize both to_set
near_duplicate rt question prev =
    let q_tokens = tokenize rt question in
    let prev_tokens = tokenize rt prev in
    let all_tokens = to_set (q_tokens ++ prev_tokens) in
    not (is_empty all_tokens)
    && ltb (7 * length all_tokens) (10 * length (both q_tokens prev_tokens))

-- The loop over `seen_questions`.
unfoldable pub is_dup : Runtime → List Text → Text → Bool
is_dup rt seen question = any (near_duplicate rt question) seen

unfoldable pub letter_of : Text → Option Letter
unfolding text text_eq
letter_of s =
    if text_eq s (text "A")
    then some a
    else if text_eq s (text "B")
    then some b
    else if text_eq s (text "C")
    then some c
    else if text_eq s (text "D")
    then some d
    else none

unfoldable pub letter_text : Letter → Text
unfolding text
letter_text a = text "A"
letter_text b = text "B"
letter_text c = text "C"
letter_text d = text "D"

-- `len(set(opt_values)) < 4`, negated.
unfoldable pub are_distinct : McqOptions → Bool
unfolding text_eq
are_distinct o = not (
    text_eq o.option_a o.option_b
    || (text_eq o.option_a o.option_c
        || (text_eq o.option_a o.option_d
            || (text_eq o.option_b o.option_c
                || (text_eq o.option_b o.option_d || text_eq o.option_c o.option_d)))))

unfoldable pub are_present : McqOptions → Bool
are_present o =
    not (is_empty o.option_a)
    && (not (is_empty o.option_b) && (not (is_empty o.option_c) && not (is_empty o.option_d)))

-- A short explanation gives way to a stock one.
unfoldable pub explain : Letter → Text → Text
unfolding letter_text text
explain correct given =
    if ltb (length given) 20
    then text "The correct answer is " ++ (letter_text correct ++ text ".")
    else given

-- What a raw question holds once the tests up to the one for duplicates are passed.
pub record Draft : Type 0 where
  pub question : Text
  pub options : McqOptions
  pub correct_answer : Letter
  pub explanation : Text
  pub concept_id : Text

-- A question is skipped if it has no text, no four options that differ, or no letter for an answer.
unfoldable pub judge : Text → Option McqOptions → Option Letter → Text → Text → Option Draft
judge question (some options) (some correct) explanation concept_id =
    if is_empty question
    then none
    else some (record {
      question = question;
      options = options;
      correct_answer = correct;
      explanation = explain correct explanation;
      concept_id = concept_id;
    })
judge question _ _ explanation concept_id = none

-- The variables of the loop: the draws of `uuid4`, the questions seen and those that are kept.
pub record Progress : Type 0 where
  pub draws : ℕ
  pub seen : List Text
  pub validated : List McqQuestion

abbrev pub start : ℕ → Progress
start draws = record { draws = draws; seen = []; validated = [] }

unfoldable pub require_some : Progress → Result (List McqQuestion × ℕ)
unfolding text
require_some s =
    if is_empty s.validated
    then err
        (validation_error (text "No valid MCQ questions could be extracted from the LLM response."))
    else ok (s.validated, s.draws)

unfoldable pub questions_of : Fields → Result (List Value)
unfolding get_or text
questions_of fs = elim (get_or fs (text "questions") (list (from_list []))) [
  | list vs ↦ ok (to_list vs)
  | _ ↦ err (validation_error (text "MCQ response missing 'questions' array."))
]

module _ (rt : Runtime) where
  -- `str(fs.get(key, "")).strip()`
  unfoldable pub stripped : Fields → Text → Text
  unfolding strip to_str get_or
  stripped fs key = strip (to_str rt (get_or fs key (str [])))

  unfoldable pub read_options : Value → Option McqOptions
  read_options (dict fs) =
      let o : McqOptions = record {
        option_a = stripped fs (text "A");
        option_b = stripped fs (text "B");
        option_c = stripped fs (text "C");
        option_d = stripped fs (text "D");
      } in
      if are_present o && are_distinct o then some o else none
  read_options _ = none

  -- The tests that a raw question passes or is skipped, but for the one for duplicates.
  unfoldable pub check : List Text → Fields → Option Draft
  check ids fs =
      judge (stripped fs (text "question")) (read_options (get_or fs (text "options") (dict end)))
        (letter_of (rt.upper (to_str rt (get_or fs (text "correct_answer") (str [])))))
        (stripped fs (text "explanation")) (concept_for rt ids fs)

  -- The level, the type and the id of a question that is kept.
  unfoldable pub complete : Fields → Draft → Result McqQuestion
  complete fs q = do
    level ← level_of rt fs
    question_type ← coerce_question_type (get_or fs (text "question_type") null)
    id ← str_field (get_or fs (text "id") null)
    ok (record {
      id = id;
      question = q.question;
      options = q.options;
      correct_answer = q.correct_answer;
      explanation = q.explanation;
      concept_id = q.concept_id;
      level = level;
      question_type = question_type;
    })

  unfoldable pub keep : Fields → Progress → Draft → Result Progress
  keep fs s q = if is_dup rt s.seen q.question then ok s else (do
    kept ← complete fs q
    ok (record s { seen = s.seen ++ q.question ∷ []; validated = s.validated ++ kept ∷ [] }))

  -- One round of the loop.
  unfoldable pub visit : List Text → Value → Progress → Result Progress
  visit ids (dict fs) s =
      let (fs', draws) = ensure_id rt fs s.draws in
      elim (check ids fs') [
        | none ↦ ok (record s { draws = draws })
        | some q ↦ keep fs' (record s { draws = draws }) q
      ]
  visit ids _ s = ok s

  unfoldable pub visit_all : List Text → List Value → Progress → Result Progress
  visit_all ids [] s = ok s
  visit_all ids (v ∷ vs) s = do s' ← visit ids v s; visit_all ids vs s'

  -- The questions and the draws.
  unfoldable pub validate_mcq : Value → List Text → ℕ → Result (List McqQuestion × ℕ)
  validate_mcq (dict fs) ids draws = do
    values ← questions_of fs
    s ← visit_all ids values (start draws)
    require_some s
  validate_mcq _ ids draws = err (crash attribute_error)
