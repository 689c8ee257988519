-- ===== src/Validator/Mcq/Steps.antt =====
-- The rounds of the loop of `validate_mcq`, and induction over them.
use study_helper_backend.Prelude.{
  ℕ, ◌≡◌, ◌≢◌, subst, inl, inr, false, List, [], ◌∷◌, ◌++◌, some, arith, Bool-cases, Option-cases,
}
use study_helper_backend.Text.{Text, text}
use study_helper_backend.Outcome.{ok, >>=-eq-ok}
use study_helper_backend.Json.{Value, null, dict, Fields, get_or}
use study_helper_backend.Coerce.{level_of, coerce_question_type}
use study_helper_backend.Runtime.{Runtime}
use study_helper_backend.Schema.{McqQuestion}
use study_helper_backend.Validator.{ensure_id, str_field}
use study_helper_backend.Validator.Mcq.{
  Draft, Progress, is_dup, check, complete, keep, visit, visit_all, start, require_some,
  questions_of, validate_mcq,
}

pub complete-question :
    (rt : Runtime) (fs : Fields) (q : Draft) (m : McqQuestion)
    → complete rt fs q ≡ ok m
    → m.question ≡ q.question
unfolding complete
complete-question rt fs q m h =
    let (level, e, r) = >>=-eq-ok (level_of rt fs) _ h in
    let (kind, e', r') =
      >>=-eq-ok (coerce_question_type (get_or fs (text "question_type") null)) _ r in
    let (id, e'', r'') = >>=-eq-ok (str_field (get_or fs (text "id") null)) _ r' in ground arith

-- A round keeps what is seen and validated, or it adds a question that is no duplicate.
pub data Step (rt : Runtime) (ids : List Text) (s s' : Progress) : Type 0 where
  skip : s'.seen ≡ s.seen → s'.validated ≡ s.validated → Step rt ids s s'
  add :
      (fs : Fields) (q : Draft) (m : McqQuestion)
      → check rt ids fs ≡ some q
      → is_dup rt s.seen q.question ≡ false
      → complete rt fs q ≡ ok m
      → s'.seen ≡ s.seen ++ q.question ∷ []
      → s'.validated ≡ s.validated ++ m ∷ []
      → Step rt ids s s'

pub require_some_lem :
    (s : Progress) (draws : ℕ) (qs : List McqQuestion)
    → require_some s ≡ ok (qs, draws)
    → (qs ≡ s.validated) × (qs ≢ [])
unfolding require_some
require_some_lem s draws qs h = (ground arith, λ e. ground arith)

module _ (rt : Runtime) (ids : List Text) where
  forget_draws :
      (s s' : Progress) (draws : ℕ) → Step rt ids (record s { draws = draws }) s' → Step rt ids s s'
  forget_draws s s' draws (skip seen kept) = skip seen kept
  forget_draws s s' draws (add fs q m checked new completed seen kept) =
      add fs q m checked new completed seen kept

  keep-Step :
      (fs : Fields) (s s' : Progress) (q : Draft)
      → check rt ids fs ≡ some q
      → keep rt fs s q ≡ ok s'
      → Step rt ids s s'
  unfolding keep
  keep-Step fs s s' q checked h = elim (Bool-cases (is_dup rt s.seen q.question)) [
    | inl dup ↦ skip (ground arith) (ground arith)
    | inr new ↦
        let (m, completed, grown) = >>=-eq-ok (complete rt fs q) _ (rw (new, keep) at h) in
        add fs q m checked new completed (ground arith) (ground arith)
  ]

  pub visit-Step : (v : Value) (s s' : Progress) → visit rt ids v s ≡ ok s' → Step rt ids s s'
  unfolding visit
  visit-Step (dict fs) s s' h =
      let (fs', draws) = ensure_id rt fs s.draws in
      elim (Option-cases (check rt ids fs')) [
        | inl refused ↦ skip (ground arith) (ground arith)
        | inr (q, found) ↦
            forget_draws s s' draws
              (keep-Step fs' (record s { draws = draws }) s' q found (rw (found, visit) at h))
      ]
  visit-Step _ s s' h = skip (ground arith) (ground arith)

  -- What every round keeps, the loop keeps.
  pub visit_all_induction {ℓ} :
      (P : Progress → Type ℓ)
      → ((s s' : Progress) → Step rt ids s s' → P s → P s')
      → (vs : List Value) (s s' : Progress) → visit_all rt ids vs s ≡ ok s'
      → P s
      → P s'
  unfolding visit_all
  visit_all_induction P keeps [] s s' h p = subst P (ground arith) p
  visit_all_induction P keeps (v ∷ vs) s s' h p =
      let (t, first, rest) = >>=-eq-ok (visit rt ids v s) _ h in
      visit_all_induction P keeps vs t s' rest (keeps s t (visit-Step v s t first) p)

  -- A result of `validate_mcq` is what its loop ends with, from the start and over some values.
  pub validate_mcq_lem :
      (raw : Value) (draws draws' : ℕ) (qs : List McqQuestion)
      → validate_mcq rt raw ids draws ≡ ok (qs, draws')
      → (values : List Value) × (s : Progress) × (visit_all rt ids values (start draws) ≡ ok s)
        × ((qs ≡ s.validated) × (qs ≢ []))
  unfolding validate_mcq
  validate_mcq_lem (dict fs) draws draws' qs h =
      let (values, _, r) = >>=-eq-ok (questions_of fs) _ h in
      let (s, visited, r') = >>=-eq-ok (visit_all rt ids values (start draws)) _ r in
      (values, s, visited, require_some_lem s draws' qs r')
  validate_mcq_lem _ draws draws' qs h = absurd (cc)
