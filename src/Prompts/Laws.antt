-- ===== src/Prompts/Laws.antt =====
-- When the prompts can be built, and how many questions they ask for.
use study_helper_backend.Prelude.{
  ℕ, ◌≤◌, ◌≡◌, refl, Bool, true, false, ◌&&◌, List, [], ◌∷◌, Option, none, some, all, arith,
}
use study_helper_backend.Text.{text}
use study_helper_backend.Outcome.{Result, ok, err}
use study_helper_backend.Json.{Value, dict, get}
use study_helper_backend.Prompts.{list_concepts, calculate_question_counts}

-- Whatever the document, between 10 and 20 multiple-choice and between 6 and 15 fill-in questions
-- are asked for.
pub calculate_question_counts-bounds :
    (n : ℕ)
    → ((10 ≤ (calculate_question_counts n).0) × ((calculate_question_counts n).0 ≤ 20))
      × ((6 ≤ (calculate_question_counts n).1) × ((calculate_question_counts n).1 ≤ 15))
unfolding calculate_question_counts
calculate_question_counts-bounds n = ground arith

abbrev pub is_some : {A : Type 0} → Option A → Bool
is_some none = false
is_some (some a) = true

abbrev pub is_ok : {A : Type 0} → Result A → Bool
is_ok (ok a) = true
is_ok (err e) = false

-- A dict with the two keys that the list of concepts quotes.
abbrev pub is_listable : Value → Bool
is_listable (dict fs) = is_some (get fs (text "id")) && is_some (get fs (text "term"))
is_listable _ = false

pub list_concepts-is_listable : (vs : List Value) → is_ok (list_concepts vs) ≡ all is_listable vs
unfolding list_concepts
list_concepts-is_listable [] = refl
list_concepts-is_listable (v ∷ vs) = ground (arith, list_concepts-is_listable vs)
