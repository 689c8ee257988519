-- ===== src/Examples/Questions.antt =====
-- The checks of questions, at an answer with a near duplicate and an unknown concept.
use study_helper_backend.Validator.{to_set, tokenize, concept_for, ensure_id, both}
use study_helper_backend.Prelude.{
  ℕ, ◌≡◌, ◌≢◌, refl, true, List, [], ◌∷◌, Option, none, some, All, length, all, ◌++◌,
}
use study_helper_backend.Text.{
  strip_by, member, is_space, text_eq, contains, strip, strip_left, Text, text, count, remove,
}
use study_helper_backend.Outcome.{Result, ok, err}
use study_helper_backend.Json.{truncate, set, get_or, truthy, get, Value, dict, Fields, end}
use study_helper_backend.Schema.{Letter, McqQuestion, FillQuestion}
use study_helper_backend.Runtime.Number.{digits, to_int, to_str, decimal}
use study_helper_backend.Coerce.{
  coerce_fields, coerce_question_type, difficulty_level, clamp, coerce_level, question_type_of,
  level_of,
}
use study_helper_backend.Prompts.{en, build_mcq_prompt, build_fill_prompt}
use study_helper_backend.Prompts.Laws.{is_ok}
use study_helper_backend.Validator.Notes.{Notes, validate_notes}
use study_helper_backend.Validator.Notes.Laws.{is_named, dicts, concepts_in, validate_notes_lem}
use study_helper_backend.Validator.Mcq
use study_helper_backend.Validator.Mcq.{
  near_duplicate, letter_of, letter_text, read_options, is_dup, are_distinct, are_present, explain,
  keep, judge, Draft, check, questions_of, validate_mcq,
}
use study_helper_backend.Validator.Mcq.Accepted.{validate_mcq-IsAccepted}
use study_helper_backend.Validator.Mcq.Distinct.{question_texts, Apart, validate_mcq-Apart}
use study_helper_backend.Validator.Mcq.Kept.{covers, validate_mcq-covers}
use study_helper_backend.Validator.Fill
use study_helper_backend.Validator.Fill.{one_blank, blank, normalise, validate_fill}
use study_helper_backend.Validator.Fill.Blank.{KeepsFirst, normalise-HasOneBlank}
use study_helper_backend.Validator.Fill.Accepted.{validate_fill-IsAccepted}
use study_helper_backend.Examples.Ascii.{
  ascii, ascii-IsSound, loads, entry, literal, question, mcq_answer, mcq_fields, fill_answer,
  notes_fields,
}

abbrev valid_ids : List Text
valid_ids = text "c1" ∷ []

abbrev questions_in : Result (List McqQuestion × ℕ) → List McqQuestion
questions_in (ok (qs, _)) = qs
questions_in (err _) = []

abbrev mcqs : List McqQuestion
mcqs = questions_in (validate_mcq (ascii loads) mcq_answer valid_ids 0)

mcqs_found : validate_mcq (ascii loads) mcq_answer valid_ids 0 ≡ ok (mcqs, 3)
unfolding study_helper_backend.Validator.Mcq.visit is_space text strip letter_text both
    study_helper_backend.Validator.Mcq.stripped explain read_options questions_of are_distinct keep
    truthy coerce_level strip_by ensure_id decimal clamp study_helper_backend.Validator.Mcq.complete
    near_duplicate coerce_question_type check get digits
    study_helper_backend.Validator.Mcq.visit_all get_or tokenize letter_of validate_mcq judge
    level_of is_dup difficulty_level text_eq study_helper_backend.Validator.Mcq.require_some
    are_present concept_for to_str truncate set question_type_of to_set to_int member strip_left
mcqs_found = refl

validate_mcq-IsAccepted_example : All (Mcq.Accepted.IsAccepted valid_ids) mcqs × (mcqs ≢ [])
validate_mcq-IsAccepted_example =
    validate_mcq-IsAccepted (ascii loads) (ascii-IsSound loads) mcq_answer valid_ids 0 3 mcqs
      mcqs_found

validate_mcq-Apart_example : Apart (ascii loads) (question_texts mcqs)
validate_mcq-Apart_example =
    validate_mcq-Apart (ascii loads) mcq_answer valid_ids 0 3 mcqs mcqs_found

-- The second question of the answer, with the id that it gets.
abbrev second_fields : Fields
second_fields = elim (question "Which layer routes packets now" "c1") [ dict fs ↦ fs | _ ↦ end ]

abbrev first_value : Value
first_value = question "Which layer routes packets" "c1"

abbrev last_value : Value
last_value = question "What encrypts traffic" "zz"

abbrev no_draft : Draft
no_draft = record {
  question = [];
  options = record { option_a = []; option_b = []; option_c = []; option_d = [] };
  correct_answer = Letter.a;
  explanation = [];
  concept_id = [];
}

abbrev draft_in : Option Draft → Draft
draft_in none = no_draft
draft_in (some q) = q

abbrev second_draft : Draft
second_draft = draft_in (check (ascii loads) valid_ids second_fields)

second_checked : check (ascii loads) valid_ids second_fields ≡ some second_draft
unfolding study_helper_backend.Validator.Mcq.stripped check are_present text_eq get_or are_distinct
    read_options judge text letter_of
second_checked = refl

second_given :
    questions_of mcq_fields ≡ ok ((first_value ∷ []) ++ dict second_fields ∷ last_value ∷ [])
unfolding text_eq questions_of
second_given = refl

validate_mcq-covers_example :
    covers (ascii loads) (question_texts mcqs) second_draft.question ≡ true
validate_mcq-covers_example =
    validate_mcq-covers (ascii loads) valid_ids mcq_fields second_fields (first_value ∷ [])
      (last_value ∷ []) 0 3 second_draft mcqs second_given second_checked mcqs_found

abbrev fills_in : Result (List FillQuestion × ℕ) → List FillQuestion
fills_in (ok (qs, _)) = qs
fills_in (err _) = []

abbrev fills : List FillQuestion
fills = fills_in (validate_fill (ascii loads) fill_answer valid_ids 0)

fills_found : validate_fill (ascii loads) fill_answer valid_ids 0 ≡ ok (fills, 1)
unfolding level_of ensure_id study_helper_backend.Validator.Fill.check text_eq normalise
    study_helper_backend.Validator.Fill.visit coerce_question_type contains validate_fill
    study_helper_backend.Validator.Fill.questions_of
    study_helper_backend.Validator.Fill.require_some study_helper_backend.Validator.Fill.complete
    study_helper_backend.Validator.Fill.stripped study_helper_backend.Validator.Fill.visit_all
fills_found = refl

validate_fill-IsAccepted_example : All (Fill.Accepted.IsAccepted valid_ids) fills × (fills ≢ [])
validate_fill-IsAccepted_example =
    validate_fill-IsAccepted (ascii loads) (ascii-IsSound loads) valid_ids fill_answer 0 1 fills
      fills_found

normalised : normalise (text "A ___ routes ___ packets.") ≡ some (text "A ___ routes  packets.")
unfolding normalise remove one_blank text count contains
normalised = refl

normalise-HasOneBlank_example :
    (count blank (text "A ___ routes  packets.") ≡ 1)
    × KeepsFirst (text "A ___ routes ___ packets.") (text "A ___ routes  packets.")
normalise-HasOneBlank_example =
    normalise-HasOneBlank (text "A ___ routes ___ packets.") (text "A ___ routes  packets.")
      normalised

abbrev level_fields : Fields
level_fields = entry "level" (literal " 12 ") end

level_found : level_of (ascii loads) level_fields ≡ ok 5
unfolding level_of
level_found = refl

abbrev no_notes : Notes
no_notes = record {
  raw = end;
  notes = record { key_concepts = []; sections = []; glossary = [] };
  draws = 0;
}

abbrev notes_in : Result Notes → Notes
notes_in (ok n) = n
notes_in (err _) = no_notes

abbrev notes : Notes
notes = notes_in (validate_notes (ascii loads) (dict notes_fields) 0)

notes_found : validate_notes (ascii loads) (dict notes_fields) 0 ≡ ok notes
unfolding validate_notes
notes_found = refl

validate_notes_lem_example :
    (is_ok (build_mcq_prompt (ascii loads) (text "Text") notes.raw 10 en)
      ≡ all is_named (concepts_in (dict notes_fields)))
    × (is_ok (build_fill_prompt (ascii loads) (text "Text") notes.raw 10 en)
        ≡ all is_named (concepts_in (dict notes_fields)))
    × (length notes.notes.key_concepts ≡ dicts (concepts_in (dict notes_fields)))
    × (notes.notes.sections ≢ [])
validate_notes_lem_example =
    validate_notes_lem (ascii loads) (dict notes_fields) 0 notes (text "Text") 10 en notes_found

-- A question as it was stored before there were levels.
abbrev old_fields : Fields
old_fields = entry "difficulty" (literal "hard") end

abbrev fields_in : Result Fields → Fields
fields_in (ok fs) = fs
fields_in (err _) = end

abbrev new_fields : Fields
new_fields = fields_in (coerce_fields (ascii loads) old_fields)

old_coerced : coerce_fields (ascii loads) old_fields ≡ ok new_fields
unfolding study_helper_backend.Coerce.coerce_fields
old_coerced = refl
