-- ===== src/Validator/Mcq/Distinct.antt =====
-- No two questions that `validate_mcq` returns are near-duplicates.
use study_helper_backend.Prelude.{
  ℕ, ◌≡◌, ◌≤◌, ◌*◌, refl, true, false, is_empty, length, Bool-cases, inl, inr, List, [], ◌∷◌, ◌++◌,
  arith, All, All-append, any, ap,
}
use study_helper_backend.Text.{Text, member}
use study_helper_backend.Outcome.{ok}
use study_helper_backend.Json.{Value}
use study_helper_backend.Runtime.{Runtime}
use study_helper_backend.Schema.{McqQuestion}
use study_helper_backend.Validator.{tokenize, both, to_set}
use study_helper_backend.Validator.Mcq.Steps.{
  Step, skip, add, complete-question, visit_all_induction, validate_mcq_lem,
}
use study_helper_backend.Validator.Mcq.{
  Progress, near_duplicate, is_dup, start, visit_all, validate_mcq,
}

abbrev pub question_texts : List McqQuestion → List Text
question_texts [] = []
question_texts (q ∷ qs) = q.question ∷ question_texts qs

question_texts-append :
    (qs : List McqQuestion) (q : McqQuestion)
    → question_texts (qs ++ q ∷ []) ≡ question_texts qs ++ q.question ∷ []
question_texts-append [] q = refl
question_texts-append (p ∷ qs) q = ap (λ ts. p.question ∷ ts) (question_texts-append qs q)

-- Of the tokens that are in one of the two texts or in both, at most 70% are in both.
abbrev pub Differ : Runtime → Text → Text → Type 0
Differ rt y x =
    10 * length (both (tokenize rt y) (tokenize rt x))
    ≤ 7 * length (to_set (tokenize rt y ++ tokenize rt x))

member-empty : (x : Text) (xs : List Text) → is_empty xs ≡ true → member x xs ≡ false
unfolding member
member-empty x [] h = refl
member-empty x (y ∷ xs) h = absurd (cc h)

-- Only the set of no text is empty.
set-empty : (xs : List Text) → is_empty (to_set xs) ≡ true → xs ≡ []
unfolding to_set
set-empty [] h = refl
set-empty (x ∷ xs) h = elim (Bool-cases (member x (to_set xs))) [
  | inl there ↦ absurd (cc (there, member-empty x (to_set xs) (rw (there, to_set) at h)))
  | inr new ↦ absurd (cc (rw (new, to_set) at h))
]

both-empty : (xs ys : List Text) → (xs ++ ys) ≡ [] → both xs ys ≡ []
unfolding both
both-empty [] ys h = refl
both-empty (x ∷ xs) ys h = absurd (cc h)

near_duplicate-Differ : (rt : Runtime) (y x : Text) → near_duplicate rt y x ≡ false → Differ rt y x
unfolding near_duplicate
near_duplicate-Differ rt y x h =
    let all_tokens = to_set (tokenize rt y ++ tokenize rt x) in
    elim (Bool-cases (is_empty all_tokens)) [
      | inl nothing ↦
          let e = both-empty (tokenize rt y) (tokenize rt x) (set-empty _ nothing) in
          rw e (omega arith)
      | inr something ↦ ground (arith, h, something)
    ]

-- Each text differs from each one before it.
abbrev pub Apart : Runtime → List Text → Type 0
Apart rt [] = Unit
Apart rt (x ∷ xs) = All (λ y. Differ rt y x) xs × Apart rt xs

Apart-append :
    (rt : Runtime) (xs : List Text) (y : Text)
    → Apart rt xs
    → any (near_duplicate rt y) xs ≡ false
    → Apart rt (xs ++ y ∷ [])
Apart-append rt [] y h e = (tt, tt)
Apart-append rt (x ∷ xs) y (apart, h) e = (
  All-append (λ z. Differ rt z x) xs (y ∷ []) apart
      (near_duplicate-Differ rt y x (ground arith), tt),
  Apart-append rt xs y h (ground arith),
)

-- The questions that are seen are those that are kept, and they are apart.
pub record IsApart (rt : Runtime) (s : Progress) : Type 0 where
  pub same : s.seen ≡ question_texts s.validated
  pub apart : Apart rt s.seen

Step-IsApart :
    (rt : Runtime) (ids : List Text) (s s' : Progress)
    → Step rt ids s s'
    → IsApart rt s
    → IsApart rt s'
unfolding is_dup
Step-IsApart rt ids s s' (skip seen kept) h = record {
  same = rw (seen, kept) h.same;
  apart = rw seen h.apart;
}
Step-IsApart rt ids s s' (add fs q m _ new completed seen kept) h = record {
  same = rw (seen, kept, question_texts-append, h.same, complete-question rt fs q m completed);
  apart = rw seen (Apart-append rt s.seen q.question h.apart new);
}

pub loop-IsApart :
    (rt : Runtime) (ids : List Text) (values : List Value) (draws : ℕ) (s : Progress)
    → visit_all rt ids values (start draws) ≡ ok s
    → IsApart rt s
loop-IsApart rt ids values draws s visited =
    visit_all_induction rt ids (IsApart rt) (Step-IsApart rt ids) values (start draws) s visited
      (record { same = refl; apart = tt })

-- For two of the questions that `validate_mcq` returns: of the tokens that are in the one, in the
-- other or in both, at most 70% are in both.
pub validate_mcq-Apart :
    (rt : Runtime) (raw : Value) (ids : List Text) (draws draws' : ℕ) (qs : List McqQuestion)
    → validate_mcq rt raw ids draws ≡ ok (qs, draws')
    → Apart rt (question_texts qs)
validate_mcq-Apart rt raw ids draws draws' qs h =
    let (values, s, visited, (same, _)) = validate_mcq_lem rt ids raw draws draws' qs h in
    let found = loop-IsApart rt ids values draws s visited in rw (same, ← found.same) found.apart
