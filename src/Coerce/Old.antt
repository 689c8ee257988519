-- ===== src/Coerce/Old.antt =====
-- What `_coerce_fields` makes of a stored question.
use study_helper_backend.Prelude.{
  ℕ, ◌≡◌, ◌≢◌, refl, ◌∙◌, ◌⊎◌, inl, inr, Option, none, some, Bool-cases, Option-cases,
}
use study_helper_backend.Prelude.Int.{pos}
use study_helper_backend.Text.{Text, text, text_eq}
use study_helper_backend.Text.Laws.{text_eq_iff}
use study_helper_backend.Outcome.{ok, >>=-eq-ok}
use study_helper_backend.Json.{Value, null, int, str, list, dict, Fields, get, get_or, set}
use study_helper_backend.Json.Laws.{get-set}
use study_helper_backend.Runtime.{Runtime}
use study_helper_backend.Runtime.Number.{to_int, to_str}
use study_helper_backend.Schema.{QuestionType}
use study_helper_backend.Coerce.{
  three_or, difficulty_level, clamp_or_three, question_type_of, from_difficulty, clamp_level,
  or_default_type, default_type, coerce_fields,
}
use study_helper_backend.Coerce.Laws.{InRange, clamp_or_three-InRange}

-- One of the two types.
pub data IsType (v : Option Value) : Type 0 where
  is_concept : v ≡ some (str (text "concept")) → IsType v
  is_application : v ≡ some (str (text "application")) → IsType v

question_type_of-IsType :
    (v : Value) (t : QuestionType) → question_type_of v ≡ ok (some t) → IsType (some v)
unfolding question_type_of
question_type_of-IsType (str s) t h = elim (Bool-cases (text_eq s (text "concept"))) [
  | inl e ↦ let same = (text_eq_iff s (text "concept")).0 e in is_concept (cc same)
  | inr other ↦ elim (Bool-cases (text_eq s (text "application"))) [
    | inl e ↦ let same = (text_eq_iff s (text "application")).0 e in is_application (cc same)
    | inr neither ↦ absurd (cc (rw (other, neither, question_type_of) at h))
  ]
]
question_type_of-IsType (list vs) t h = absurd (cc h)
question_type_of-IsType (dict fs) t h = absurd (cc h)
question_type_of-IsType _ t h = absurd (cc h)

missing-IsType : (t : QuestionType) → question_type_of null ≢ ok (some t)
unfolding question_type_of
missing-IsType t h = cc h

get_or-none : (fs : Fields) (k : Text) (d : Value) → get fs k ≡ none → get_or fs k d ≡ d
unfolding get_or
get_or-none fs k d h = rw (h, get_or) refl

get_or-some : (fs : Fields) (k : Text) (v d : Value) → get fs k ≡ some v → get_or fs k d ≡ v
unfolding get_or
get_or-some fs k v d h = rw (h, get_or) refl

module _ (rt : Runtime) where
  or_default_type-IsType :
      (fs : Fields) (found : Option QuestionType)
      → question_type_of (get_or fs (text "question_type") null) ≡ ok found
      → IsType (get (or_default_type rt fs found) (text "question_type"))
        × (get (or_default_type rt fs found) (text "level") ≡ get fs (text "level"))
  unfolding text text_eq
  or_default_type-IsType fs (some t) h = elim (Option-cases (get fs (text "question_type"))) [
    | inl missing ↦
        let e = get_or-none fs (text "question_type") null missing in
        absurd (missing-IsType t (cc (e, h)))
    | inr (v, there) ↦
        let e = get_or-some fs (text "question_type") v null there in
        (rw there (question_type_of-IsType v t (cc (e, h))), refl)
  ]
  or_default_type-IsType fs none h =
      let kind = str (text "concept") in
      (
        is_concept (get-set fs (text "question_type") (text "question_type") kind),
        get-set fs (text "question_type") (text "level") kind,
      )

  default_type-IsType :
      (fs fs' : Fields)
      → default_type rt fs ≡ ok fs'
      → IsType (get fs' (text "question_type")) × (get fs' (text "level") ≡ get fs (text "level"))
  unfolding default_type
  default_type-IsType fs fs' h =
      let (found, e, r) =
        >>=-eq-ok (question_type_of (get_or fs (text "question_type") null)) _ h in
      let same : or_default_type rt fs found ≡ fs' = cc r in
      rw (← same) (or_default_type-IsType fs found e)

  clamp_level-InRange :
      (fs fs' : Fields)
      → clamp_level rt fs ≡ ok fs'
      → ((get fs (text "level") ≡ none) × (get fs' (text "level") ≡ none))
        ⊎ ((n : ℕ) × (get fs' (text "level") ≡ some (int (pos n))) × InRange n)
  unfolding clamp_level text_eq
  clamp_level-InRange fs fs' h = elim (Option-cases (get fs (text "level"))) [
    | inl missing ↦
        let same : fs ≡ fs' = cc (rw (missing, clamp_level) at h) in
        inl (missing, cc (missing, same))
    | inr (v, there) ↦
        let (n, clamped, r) =
          >>=-eq-ok (clamp_or_three (to_int rt v)) _ (rw (there, clamp_level) at h) in
        let same : set fs (text "level") (int (pos n)) ≡ fs' = cc r in
        inr (
          n,
          rw (← same) (get-set fs (text "level") (text "level") (int (pos n))),
          clamp_or_three-InRange (to_int rt v) n clamped,
        )
  ]

  from_difficulty-level :
      (fs : Fields)
      → get (from_difficulty rt fs) (text "level") ≡ none
      → (get fs (text "level") ≡ none) × (get fs (text "difficulty") ≡ none)
  unfolding from_difficulty text_eq
  from_difficulty-level fs h = elim (Option-cases (get fs (text "level"))) [
    | inl no_level ↦ elim (Option-cases (get fs (text "difficulty"))) [
      | inl no_difficulty ↦ (no_level, no_difficulty)
      | inr (v, there) ↦
          let n = int (pos (three_or rt (difficulty_level (to_str rt v)))) in
          absurd (
            cc (
              rw (no_level, there, from_difficulty) at h,
              get-set fs (text "level") (text "level") n,
            ))
    ]
    | inr (v, there) ↦ absurd (cc (there, rw (there, from_difficulty) at h))
  ]

  -- A question that `_coerce_fields` lets pass has one of the two types; its level is a number from 1
  -- to 5, or it has none, where the data had neither a level nor a difficulty.
  pub coerce_fields_lem :
      (fs fs' : Fields)
      → coerce_fields rt fs ≡ ok fs'
      → IsType (get fs' (text "question_type"))
        × (((get fs (text "level") ≡ none)
              × (get fs (text "difficulty") ≡ none)
              × (get fs' (text "level") ≡ none))
            ⊎ ((n : ℕ) × (get fs' (text "level") ≡ some (int (pos n))) × InRange n))
  unfolding coerce_fields
  coerce_fields_lem fs fs' h =
      let (clamped, c, r) = >>=-eq-ok (clamp_level rt (from_difficulty rt fs)) _ h in
      let (kind, same) = default_type-IsType clamped fs' r in
      (
        kind,
        elim (clamp_level-InRange (from_difficulty rt fs) clamped c) [
          | inl (m, m') ↦
              let (no_level, no_difficulty) = from_difficulty-level fs m in
              inl (no_level, no_difficulty, same ∙ m')
          | inr (n, e, range) ↦ inr (n, same ∙ e, range)
        ],
      )
