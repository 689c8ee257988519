-- ===== src/Validator/Fill/Accepted.antt =====
-- What every question that `validate_fill` returns satisfies.
use study_helper_backend.Prelude.{
  ℕ, ◌≤◌, ◌≡◌, ◌≢◌, inl, inr, false, List, [], ◌∷◌, ◌++◌, some, arith, All, All-append, Bool-cases,
  Option-cases, is_empty,
}
use study_helper_backend.Text.{Text, text, strip, count}
use study_helper_backend.Outcome.{ok, >>=-eq-ok}
use study_helper_backend.Json.{Value, null, list, dict, Fields, get_or, to_list, from_list}
use study_helper_backend.Runtime.{Runtime, IsSound}
use study_helper_backend.Runtime.Number.{to_str}
use study_helper_backend.Schema.{FillQuestion}
use study_helper_backend.Coerce.{level_of, coerce_question_type}
use study_helper_backend.Coerce.Laws.{InRange, level_of-InRange}
use study_helper_backend.Validator.{str_field, concept_for, ensure_id}
use study_helper_backend.Validator.Linked.{IsLinked, concept_for-IsLinked}
use study_helper_backend.Validator.Fill.Blank.{normalise-HasOneBlank}
use study_helper_backend.Validator.Fill.{
  blank, normalise, Draft, Progress, stripped, keep_texts, variants_of, check, complete, visit,
  visit_all, require_some, questions_of, validate_fill,
}

abbrev pub NonEmpty : Text → Type 0
NonEmpty s = is_empty s ≡ false

-- A question that a student can be shown: exactly one blank, an answer, variants that are no empty
-- texts, a level between 1 and 5, and a concept that the notes have.
pub record IsAccepted (ids : List Text) (q : FillQuestion) : Type 0 where
  pub one_blank : count blank q.sentence_with_blank ≡ 1
  pub has_answer : NonEmpty q.answer
  pub has_variants : All NonEmpty q.acceptable_variants
  pub level_low : 1 ≤ q.level
  pub level_high : q.level ≤ 5
  pub linked : IsLinked ids q.concept_id

record IsDraft (ids : List Text) (q : Draft) : Type 0 where
  one_blank : count blank q.sentence ≡ 1
  has_answer : NonEmpty q.answer
  has_variants : All NonEmpty q.variants
  linked : IsLinked ids q.concept_id

module _ (rt : Runtime) where
  keep_texts-NonEmpty : (vs : List Value) → All NonEmpty (keep_texts rt vs)
  unfolding keep_texts
  keep_texts-NonEmpty [] = tt
  keep_texts-NonEmpty (v ∷ vs) = elim (Bool-cases (is_empty (strip (to_str rt v)))) [
    | inl gone ↦ rw gone (keep_texts-NonEmpty vs)
    | inr kept ↦ rw kept (kept, keep_texts-NonEmpty vs)
  ]

  variants_of-NonEmpty : (v : Value) → All NonEmpty (variants_of rt v)
  unfolding variants_of
  variants_of-NonEmpty (list vs) = keep_texts-NonEmpty (to_list vs)
  variants_of-NonEmpty _ = tt

  complete_lem :
      (fs : Fields) (q : Draft) (m : FillQuestion)
      → complete rt fs q ≡ ok m
      → (m.sentence_with_blank ≡ q.sentence)
        × (m.answer ≡ q.answer)
        × (m.acceptable_variants ≡ q.variants)
        × (m.concept_id ≡ q.concept_id)
        × InRange m.level
  unfolding complete
  complete_lem fs q m h =
      let (level, e, r) = >>=-eq-ok (level_of rt fs) _ h in
      let (kind, e', r') =
        >>=-eq-ok (coerce_question_type (get_or fs (text "question_type") null)) _ r in
      let (id, e'', r'') = >>=-eq-ok (str_field (get_or fs (text "id") null)) _ r' in
      let range = level_of-InRange rt fs level e in ground arith

  complete-IsAccepted :
      (ids : List Text) (fs : Fields) (q : Draft) (m : FillQuestion)
      → IsDraft ids q
      → complete rt fs q ≡ ok m
      → IsAccepted ids m
  complete-IsAccepted ids fs q m d h =
      let (sentence, answer, variants, concept, (low, high)) = complete_lem fs q m h in
      record {
        one_blank = rw sentence d.one_blank;
        has_answer = rw answer d.has_answer;
        has_variants = rw variants d.has_variants;
        level_low = low;
        level_high = high;
        linked = rw concept d.linked;
      }

module _ (rt : Runtime) (sound : IsSound rt) (ids : List Text) where
  check-IsDraft : (fs : Fields) (q : Draft) → check rt ids fs ≡ some q → IsDraft ids q
  unfolding check
  check-IsDraft fs q h =
      elim (Option-cases (normalise (stripped rt fs (text "sentence_with_blank")))) [
        | inl missing ↦ absurd (ground arith)
        | inr (sentence, found) ↦ elim (Bool-cases (is_empty (stripped rt fs (text "answer")))) [
          | inl empty ↦ absurd (ground arith)
          | inr full ↦
              let same_sentence : q.sentence ≡ sentence = ground arith in
              let same_answer : q.answer ≡ stripped rt fs (text "answer") = ground arith in
              let same_variants : q.variants
                  ≡ variants_of rt (get_or fs (text "acceptable_variants") (list (from_list []))) =
                ground arith in
              let same_concept : q.concept_id ≡ concept_for rt ids fs = ground arith in
              record {
                one_blank =
                    rw same_sentence
                      (normalise-HasOneBlank (stripped rt fs (text "sentence_with_blank")) sentence
                        found).0;
                has_answer = rw same_answer full;
                has_variants = rw same_variants (variants_of-NonEmpty rt _);
                linked = rw same_concept (concept_for-IsLinked rt sound ids fs);
              }
        ]
      ]

  visit-IsAccepted :
      (v : Value) (s s' : Progress)
      → visit rt ids v s ≡ ok s'
      → All (IsAccepted ids) s.validated
      → All (IsAccepted ids) s'.validated
  unfolding visit
  visit-IsAccepted (dict fs) s s' h accepted =
      let (fs', draws) = ensure_id rt fs s.draws in
      elim (Option-cases (check rt ids fs')) [
        | inl refused ↦ let e : s'.validated ≡ s.validated = ground arith in rw e accepted
        | inr (q, found) ↦
            let (m, completed, grown) = >>=-eq-ok (complete rt fs' q) _ (rw (found, visit) at h) in
            let e : s'.validated ≡ s.validated ++ m ∷ [] = ground arith in
            rw e (
              All-append (IsAccepted ids) s.validated (m ∷ []) accepted
                (complete-IsAccepted rt ids fs' q m (check-IsDraft fs' q found) completed, tt))
      ]
  visit-IsAccepted _ s s' h accepted =
      let e : s'.validated ≡ s.validated = ground arith in rw e accepted

  loop-IsAccepted :
      (vs : List Value) (s s' : Progress)
      → visit_all rt ids vs s ≡ ok s'
      → All (IsAccepted ids) s.validated
      → All (IsAccepted ids) s'.validated
  unfolding visit_all
  loop-IsAccepted [] s s' h accepted = let e : s' ≡ s = ground arith in rw e accepted
  loop-IsAccepted (v ∷ vs) s s' h accepted =
      let (t, first, rest) = >>=-eq-ok (visit rt ids v s) _ h in
      loop-IsAccepted vs t s' rest (visit-IsAccepted v s t first accepted)

  require_some_lem :
      (s : Progress) (draws : ℕ) (qs : List FillQuestion)
      → require_some s ≡ ok (qs, draws)
      → (qs ≡ s.validated) × (qs ≢ [])
  unfolding require_some
  require_some_lem s draws qs h = (ground arith, λ e. ground arith)

  -- Every question that `validate_fill` returns is accepted: it has exactly one blank, an answer,
  -- variants that are no empty texts, a level from 1 to 5, and the id of a concept that is valid, or
  -- none where no concept is, if the runtime iterates a set over its members. And it returns at
  -- least one.
  pub validate_fill-IsAccepted :
      (raw : Value) (draws draws' : ℕ) (qs : List FillQuestion)
      → validate_fill rt raw ids draws ≡ ok (qs, draws')
      → All (IsAccepted ids) qs × (qs ≢ [])
  unfolding validate_fill
  validate_fill-IsAccepted (dict fs) draws draws' qs h =
      let (values, _, r) = >>=-eq-ok (questions_of fs) _ h in
      let empty : Progress = record { draws = draws; validated = [] } in
      let (s, visited, r') = >>=-eq-ok (visit_all rt ids values empty) _ r in
      let (same, some_question) = require_some_lem s draws' qs r' in
      (rw same (loop-IsAccepted values empty s visited tt), some_question)
  validate_fill-IsAccepted _ draws draws' qs h = absurd (cc)
