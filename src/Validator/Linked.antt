-- ===== src/Validator/Linked.antt =====
-- The concept that a question is linked to is a valid one, whatever the question names.
use study_helper_backend.Prelude.{
  ◌≡◌, refl, ◌⊎◌, inl, inr, true, List, [], ◌∷◌, Bool-cases, if◌then◌else◌,
}
use study_helper_backend.Text.{Text, text, member}
use study_helper_backend.Json.{str, Fields, get_or}
use study_helper_backend.Runtime.{Runtime, IsSound}
use study_helper_backend.Runtime.Number.{to_str}
use study_helper_backend.Validator.{concept_for}

-- One of the ids, or the empty text where there are none.
abbrev pub IsLinked : List Text → Text → Type 0
IsLinked ids id = (member id ids ≡ true) ⊎ ((ids ≡ []) × (id ≡ []))

module _ (rt : Runtime) (sound : IsSound rt) where
  chosen-member :
      (named x : Text) (xs : List Text)
      → member (if member named (x ∷ xs) then named else rt.first x xs) (x ∷ xs) ≡ true
  chosen-member named x xs = elim (Bool-cases (member named (x ∷ xs))) [
    | inl valid ↦ rw valid valid
    | inr other ↦ rw other (sound.first_member x xs)
  ]

  concept_for-nil : (fs : Fields) → concept_for rt [] fs ≡ []
  unfolding concept_for member
  concept_for-nil fs = refl

  pub concept_for-IsLinked : (ids : List Text) (fs : Fields) → IsLinked ids (concept_for rt ids fs)
  unfolding concept_for
  concept_for-IsLinked [] fs = inr (refl, concept_for-nil fs)
  concept_for-IsLinked (x ∷ xs) fs =
      inl (chosen-member (to_str rt (get_or fs (text "concept_id") (str []))) x xs)
