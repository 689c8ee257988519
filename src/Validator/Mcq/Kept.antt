-- ===== src/Validator/Mcq/Kept.antt =====
-- What `validate_mcq` may leave out: only questions that fail a test, and duplicates.
use study_helper_backend.Prelude.{
  ℕ, ◌≡◌, refl, true, false, ◌||◌, List, [], ◌∷◌, ◌++◌, some, arith, All, any, Bool, ap, ◌∙◌,
  if◌then◌else◌, Bool-cases, inl, inr,
}
use study_helper_backend.Text.{Text, text, text_eq, member, strip}
use study_helper_backend.Text.Laws.{text_eq_refl}
use study_helper_backend.Outcome.{ok, >>=-eq-ok}
use study_helper_backend.Json.{Value, null, str, dict, Fields, end, get_or}
use study_helper_backend.Json.Laws.{get_or-set_ne}
use study_helper_backend.Runtime.{Runtime}
use study_helper_backend.Schema.{McqQuestion}
use study_helper_backend.Validator.{ensure_id, concept_for, first_id}
use study_helper_backend.Runtime.Number.{to_str}
use study_helper_backend.Validator.Mcq.Steps.{
  Step, skip, add, visit_all_induction, require_some_lem,
}
use study_helper_backend.Validator.Mcq.Distinct.{question_texts, loop-IsApart}
use study_helper_backend.Validator.Mcq.{
  Draft, Progress, near_duplicate, is_dup, stripped, check, complete, start, keep, visit, visit_all,
  questions_of, validate_mcq,
}

-- The text was kept before, or one that was kept is close to it.
abbrev pub covers : Runtime → List Text → Text → Bool
covers rt seen q = any (λ prev. text_eq q prev || near_duplicate rt q prev) seen

covers-append_left :
    (rt : Runtime) (xs ys : List Text) (q : Text)
    → covers rt xs q ≡ true
    → covers rt (xs ++ ys) q ≡ true
covers-append_left rt [] ys q h = absurd (cc)
covers-append_left rt (x ∷ xs) ys q h = ground (arith, covers-append_left rt xs ys q)

covers-append_self : (rt : Runtime) (xs : List Text) (q : Text) → covers rt (xs ++ q ∷ []) q ≡ true
covers-append_self rt [] q = rw text_eq_refl
covers-append_self rt (x ∷ xs) q = ground (arith, covers-append_self rt xs q)

covers_of_dup :
    (rt : Runtime) (xs : List Text) (q : Text) → is_dup rt xs q ≡ true → covers rt xs q ≡ true
unfolding is_dup
covers_of_dup rt [] q h = absurd (cc)
covers_of_dup rt (x ∷ xs) q h = ground (arith, covers_of_dup rt xs q)

other_keys :
    (text_eq (text "id") (text "question") ≡ false)
    × (text_eq (text "id") (text "options") ≡ false)
    × (text_eq (text "id") (text "correct_answer") ≡ false)
    × (text_eq (text "id") (text "explanation") ≡ false)
    × (text_eq (text "id") (text "concept_id") ≡ false)
unfolding text text_eq
other_keys = (refl, refl, refl, refl, refl)

module _ (rt : Runtime) (ids : List Text) where
  get_or-ensure_id :
      (fs : Fields) (draws : ℕ) (key : Text) (v : Value)
      → text_eq (text "id") key ≡ false
      → get_or (ensure_id rt fs draws).0 key v ≡ get_or fs key v
  unfolding ensure_id
  get_or-ensure_id fs draws key v h =
      ground (arith, get_or-set_ne fs (text "id") key (str (rt.uuid4 draws)) v)

  -- The tests do not read the id.
  stripped-ensure_id :
      (fs : Fields) (draws : ℕ) (key : Text)
      → text_eq (text "id") key ≡ false
      → stripped rt (ensure_id rt fs draws).0 key ≡ stripped rt fs key
  unfolding stripped
  stripped-ensure_id fs draws key h =
      ap (λ v. strip (to_str rt v)) (get_or-ensure_id fs draws key (str []) h)

  concept_for-ensure_id :
      (fs : Fields) (draws : ℕ)
      → concept_for rt ids (ensure_id rt fs draws).0 ≡ concept_for rt ids fs
  unfolding concept_for
  concept_for-ensure_id fs draws =
      let (_, _, _, _, concept) = other_keys in
      ap (λ v. let named = to_str rt v in if member named ids then named else first_id rt ids)
        (get_or-ensure_id fs draws (text "concept_id") (str []) concept)

  -- The tests do not read the id.
  check-ensure_id :
      (fs : Fields) (draws : ℕ) → check rt ids (ensure_id rt fs draws).0 ≡ check rt ids fs
  unfolding check
  check-ensure_id fs draws =
      let (question, options, correct, explanation, _) = other_keys in
      cc (
        stripped-ensure_id fs draws (text "question") question,
        get_or-ensure_id fs draws (text "options") (dict end) options,
        get_or-ensure_id fs draws (text "correct_answer") (str []) correct,
        stripped-ensure_id fs draws (text "explanation") explanation,
        concept_for-ensure_id fs draws,
      )

  abbrev IsCovered : List Text → Value → Type 0
  IsCovered seen (dict fs) =
      (q : Draft) → check rt ids fs ≡ some q → covers rt seen q.question ≡ true
  IsCovered seen _ = Unit

  keep-covers :
      (fs : Fields) (s s' : Progress) (q : Draft)
      → keep rt fs s q ≡ ok s'
      → covers rt s'.seen q.question ≡ true
  unfolding keep
  keep-covers fs s s' q h = elim (Bool-cases (is_dup rt s.seen q.question)) [
    | inl dup ↦
        let e : s'.seen ≡ s.seen = ground arith in rw e (covers_of_dup rt s.seen q.question dup)
    | inr new ↦
        let (m, completed, grown) = >>=-eq-ok (complete rt fs q) _ (rw (new, keep) at h) in
        let e : s'.seen ≡ s.seen ++ q.question ∷ [] = ground arith in
        rw e (covers-append_self rt s.seen q.question)
  ]

  visit-covers : (v : Value) (s s' : Progress) → visit rt ids v s ≡ ok s' → IsCovered s'.seen v
  unfolding visit
  visit-covers (dict fs) s s' h = λ q checked.
      let (fs', draws) = ensure_id rt fs s.draws in
      let found = check-ensure_id fs s.draws ∙ checked in
      keep-covers fs' (record s { draws = draws }) s' q (rw (found, visit) at h)
  visit-covers null s s' h = tt
  visit-covers _ s s' h = tt

  Step-IsCovered :
      (v : Value) (s s' : Progress) → Step rt ids s s' → IsCovered s.seen v → IsCovered s'.seen v
  Step-IsCovered (dict fs) s s' (skip seen _) h = λ q checked. rw seen (h q checked)
  Step-IsCovered (dict fs) s s' (add _ r _ _ _ _ seen _) h =
      λ q checked. rw seen (covers-append_left rt s.seen (r.question ∷ []) q.question (h q checked))
  Step-IsCovered null s s' st h = tt
  Step-IsCovered _ s s' st h = tt

  loop-covers :
      (vs : List Value) (s s' : Progress)
      → visit_all rt ids vs s ≡ ok s'
      → All (IsCovered s'.seen) vs
  unfolding visit_all
  loop-covers [] s s' h = tt
  loop-covers (v ∷ vs) s s' h =
      let (t, first, rest) = >>=-eq-ok (visit rt ids v s) _ h in
      (
        visit_all_induction rt ids (λ z. IsCovered z.seen v) (Step-IsCovered v) vs t s' rest
            (visit-covers v s t first),
        loop-covers vs t s' rest,
      )

  loop-covers_at :
      (pre post : List Value) (item : Fields) (q : Draft) (seen : List Text)
      → All (IsCovered seen) (pre ++ dict item ∷ post)
      → check rt ids item ≡ some q
      → covers rt seen q.question ≡ true
  loop-covers_at [] post item q seen h checked = h.0 q checked
  loop-covers_at (v ∷ pre) post item q seen h checked =
      loop-covers_at pre post item q seen h.1 checked

  -- A raw question that passes the tests is left out of a result only as a duplicate: a question in
  -- the result has its text, or more than 70% of the tokens that are in one of the two are in both.
  pub validate_mcq-covers :
      (raw item : Fields) (pre post : List Value) (draws draws' : ℕ) (q : Draft)
      (qs : List McqQuestion)
      → questions_of raw ≡ ok (pre ++ dict item ∷ post)
      → check rt ids item ≡ some q
      → validate_mcq rt (dict raw) ids draws ≡ ok (qs, draws')
      → covers rt (question_texts qs) q.question ≡ true
  unfolding validate_mcq
  validate_mcq-covers raw item pre post draws draws' q qs given checked h =
      let values = pre ++ dict item ∷ post in
      let (s, visited, r) =
        >>=-eq-ok (visit_all rt ids values (start draws)) _ (rw (given, validate_mcq) at h) in
      let (same, _) = require_some_lem s draws' qs r in
      rw (same, ← (loop-IsApart rt ids values draws s visited).same)
        (loop-covers_at pre post item q s.seen (loop-covers values (start draws) s visited) checked)
