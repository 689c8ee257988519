-- ===== src/Validator/Mcq/Accepted.antt =====
-- What every question that `validate_mcq` returns satisfies.
use study_helper_backend.Prelude.{
  ℕ, ◌≤◌, ◌≡◌, ◌≢◌, refl, true, false, List, [], ◌∷◌, Option, none, some, arith, All, All-append,
  is_empty,
}
use study_helper_backend.Text.{Text, text}
use study_helper_backend.Outcome.{ok, >>=-eq-ok}
use study_helper_backend.Json.{Value, null, str, dict, Fields, end, get_or}
use study_helper_backend.Runtime.Number.{to_str}
use study_helper_backend.Runtime.{Runtime, IsSound}
use study_helper_backend.Schema.{Letter, McqOptions, McqQuestion}
use study_helper_backend.Coerce.{level_of, coerce_question_type}
use study_helper_backend.Coerce.Laws.{InRange, level_of-InRange}
use study_helper_backend.Validator.{str_field, concept_for}
use study_helper_backend.Validator.Linked.{IsLinked, concept_for-IsLinked}
use study_helper_backend.Validator.Mcq.Steps.{
  Step, skip, add, visit_all_induction, validate_mcq_lem,
}
use study_helper_backend.Validator.Mcq.{
  start, Draft, Progress, read_options, letter_of, stripped, are_present, are_distinct, explain,
  judge, check, complete, validate_mcq,
}

-- A question that a student can be shown: a text, four options that are there and differ, an
-- explanation, a level between 1 and 5, and a concept that the notes have.
pub record IsAccepted (ids : List Text) (q : McqQuestion) : Type 0 where
  pub has_question : is_empty q.question ≡ false
  pub has_options : are_present q.options ≡ true
  pub options_differ : are_distinct q.options ≡ true
  pub has_explanation : is_empty q.explanation ≡ false
  pub level_low : 1 ≤ q.level
  pub level_high : q.level ≤ 5
  pub linked : IsLinked ids q.concept_id

record IsDraft (ids : List Text) (q : Draft) : Type 0 where
  has_question : is_empty q.question ≡ false
  has_options : are_present q.options ≡ true
  options_differ : are_distinct q.options ≡ true
  has_explanation : is_empty q.explanation ≡ false
  linked : IsLinked ids q.concept_id

explain_nonempty : (correct : Letter) (given : Text) → is_empty (explain correct given) ≡ false
unfolding explain text
explain_nonempty correct given = ground arith

read_options_lem :
    (rt : Runtime) (v : Value) (o : McqOptions)
    → read_options rt v ≡ some o
    → (are_present o ≡ true) × (are_distinct o ≡ true)
unfolding read_options
read_options_lem rt (dict fs) o h = ground arith
read_options_lem rt _ o h = cc

judge-IsDraft :
    (ids : List Text) (question explanation concept_id : Text) (options : Option McqOptions)
    (correct : Option Letter) (q : Draft)
    → ((o : McqOptions) → options ≡ some o → (are_present o ≡ true) × (are_distinct o ≡ true))
    → IsLinked ids concept_id
    → judge question options correct explanation concept_id ≡ some q
    → IsDraft ids q
unfolding judge
judge-IsDraft ids question explanation concept_id (some o) (some correct) q valid linked h =
    let (present, distinct) = valid o refl in ground (arith, explain_nonempty correct explanation)
judge-IsDraft ids question explanation concept_id (some o) none q valid linked h = absurd (cc)
judge-IsDraft ids question explanation concept_id none correct q valid linked h = absurd (cc)

module _ (rt : Runtime) (sound : IsSound rt) where
  check-IsDraft :
      (ids : List Text) (fs : Fields) (q : Draft) → check rt ids fs ≡ some q → IsDraft ids q
  unfolding check
  check-IsDraft ids fs q h =
      judge-IsDraft ids (stripped rt fs (text "question")) (stripped rt fs (text "explanation"))
        (concept_for rt ids fs) (read_options rt (get_or fs (text "options") (dict end)))
        (letter_of (rt.upper (to_str rt (get_or fs (text "correct_answer") (str []))))) q
        (read_options_lem rt (get_or fs (text "options") (dict end)))
        (concept_for-IsLinked rt sound ids fs) h

  complete_lem :
      (fs : Fields) (q : Draft) (m : McqQuestion)
      → complete rt fs q ≡ ok m
      → (m.question ≡ q.question)
        × (m.options ≡ q.options)
        × (m.explanation ≡ q.explanation)
        × (m.concept_id ≡ q.concept_id)
        × InRange m.level
  unfolding complete
  complete_lem fs q m h =
      let (level, e, r) = >>=-eq-ok (level_of rt fs) _ h in
      let (kind, e', r') =
        >>=-eq-ok (coerce_question_type (get_or fs (text "question_type") null)) _ r in
      let (id, e'', r'') = >>=-eq-ok (str_field (get_or fs (text "id") null)) _ r' in
      let range = level_of-InRange rt fs level e in ground arith

  complete-IsAccepted :
      (ids : List Text) (fs : Fields) (q : Draft) (m : McqQuestion)
      → IsDraft ids q
      → complete rt fs q ≡ ok m
      → IsAccepted ids m
  complete-IsAccepted ids fs q m d h = ground (arith, complete_lem fs q m h)

  Step-IsAccepted :
      (ids : List Text) (s s' : Progress)
      → Step rt ids s s'
      → All (IsAccepted ids) s.validated
      → All (IsAccepted ids) s'.validated
  Step-IsAccepted ids s s' (skip _ same) h = rw same h
  Step-IsAccepted ids s s' (add fs q m checked _ completed _ grown) h = rw grown (
      All-append (IsAccepted ids) s.validated (m ∷ []) h
        (complete-IsAccepted ids fs q m (check-IsDraft ids fs q checked) completed, tt))

  -- Every question that `validate_mcq` returns is accepted: it has a text, four options that are
  -- there and differ, an explanation, a level from 1 to 5, and the id of a concept that is valid, or
  -- none where no concept is, if the runtime iterates a set over its members. And it returns at
  -- least one.
  pub validate_mcq-IsAccepted :
      (raw : Value) (ids : List Text) (draws draws' : ℕ) (qs : List McqQuestion)
      → validate_mcq rt raw ids draws ≡ ok (qs, draws')
      → All (IsAccepted ids) qs × (qs ≢ [])
  validate_mcq-IsAccepted raw ids draws draws' qs h =
      let (values, s, visited, (same, some_question)) =
        validate_mcq_lem rt ids raw draws draws' qs h in
      (
        rw same (
            visit_all_induction rt ids (λ t. All (IsAccepted ids) t.validated) (Step-IsAccepted ids)
              values (start draws) s visited tt),
        some_question,
      )
