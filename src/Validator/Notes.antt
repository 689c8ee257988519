-- ===== src/Validator/Notes.antt =====
-- `validate_notes`. The dicts of the key concepts get their ids in place, so that the notes that the
-- prompts quote afterwards are the raw notes with these ids; they come back beside the result.
pub mod Laws
use study_helper_backend.Prelude.{
  ℕ, Bool, true, false, not, ◌&&◌, ◌||◌, List, [], ◌∷◌, ◌++◌, Option, none, some, map, is_empty,
  if◌then◌else◌,
}
use study_helper_backend.Text.{Text, text, text_eq}
use study_helper_backend.Outcome.{
  Result, ok, err, ◌>>=◌, crash, type_error, schema_error, validation_error,
}
use study_helper_backend.Json.{
  Value, null, bool, int, float, str, list, dict, Fields, Items, get_or, set, to_list, from_list,
}
use study_helper_backend.Runtime.{Runtime}
use study_helper_backend.Runtime.Number.{to_str}
use study_helper_backend.Schema.{
  Importance, high, medium, low, KeyConcept, StudySection, GlossaryEntry, StudyNotes,
}
use study_helper_backend.Validator.{ensure_id, str_field}

-- `importance in ("high", "medium", "low")`, and the default.
unfoldable pub importance_of : Value → Importance
unfolding text_eq text
importance_of (str s) =
    if text_eq s (text "high") then high else if text_eq s (text "low") then low else medium
importance_of _ = medium

-- What a `for` loop goes over: the members of a list; the keys of a dict and the characters of a
-- string, none of which is a dict, so that the loops skip them all.
abbrev pub iterate : Value → Result (List Value)
iterate (list vs) = ok (to_list vs)
iterate (dict fs) = ok []
iterate (str s) = ok []
iterate _ = err (crash type_error)

-- The concepts, the values with their ids, and the draws.
pub record Concepts : Type 0 where
  pub concepts : List KeyConcept
  pub values : List Value
  pub draws : ℕ

abbrev default_section : StudySection
default_section = record {
  title = text "Document Summary";
  summary = text "Auto-generated summary.";
  bullets = [];
}

abbrev or_default : List StudySection → List StudySection
or_default [] = default_section ∷ []
or_default (s ∷ ss) = s ∷ ss

abbrev pub no_concepts : Result (List Value)
no_concepts = err (validation_error (text "No key_concepts found in generated notes."))

abbrev pub concept_values : Value → Result (List Value)
concept_values (list (Items.cons v vs)) = ok (v ∷ to_list vs)
concept_values _ = no_concepts

-- The raw notes with the ids, the notes, and the draws.
pub record Notes : Type 0 where
  pub raw : Fields
  pub notes : StudyNotes
  pub draws : ℕ

module _ (rt : Runtime) where
  key_concept : Fields → Result KeyConcept
  unfolding importance_of get_or to_str text
  key_concept fs = do
    id ← str_field (get_or fs (text "id") null)
    ok (record {
      id = id;
      term = to_str rt (get_or fs (text "term") (str (text "Unknown")));
      definition = to_str rt (get_or fs (text "definition") (str []));
      importance = importance_of (get_or fs (text "importance") (str (text "medium")));
    })

  unfoldable pub read_concepts : List Value → ℕ → Result Concepts
  unfolding key_concept ensure_id
  read_concepts [] draws = ok (record { concepts = []; values = []; draws = draws })
  read_concepts (dict fs ∷ vs) draws =
      let (fs', draws') = ensure_id rt fs draws in
      (do
        concept ← key_concept fs'
        rest ← read_concepts vs draws'
        ok (record rest { concepts = concept ∷ rest.concepts; values = dict fs' ∷ rest.values }))
  read_concepts (v ∷ vs) draws = do
    rest ← read_concepts vs draws
    ok (record rest { values = v ∷ rest.values })

  abbrev texts_of : Value → List Text
  texts_of (list vs) = map (to_str rt) (to_list vs)
  texts_of _ = []

  study_section : Fields → StudySection
  unfolding get_or to_str text
  study_section fs = record {
    title = to_str rt (get_or fs (text "title") (str (text "Section")));
    summary = to_str rt (get_or fs (text "summary") (str []));
    bullets = texts_of (get_or fs (text "bullets") (list (from_list [])));
  }

  unfoldable pub read_sections : List Value → List StudySection
  unfolding study_section
  read_sections [] = []
  read_sections (dict fs ∷ vs) = study_section fs ∷ read_sections vs
  read_sections (_ ∷ vs) = read_sections vs

  glossary_entry : Fields → GlossaryEntry
  unfolding get_or to_str text
  glossary_entry fs = record {
    term = to_str rt (get_or fs (text "term") (str []));
    brief_def = to_str rt (get_or fs (text "brief_def") (str []));
  }

  unfoldable pub read_glossary : List Value → List GlossaryEntry
  unfolding glossary_entry
  read_glossary [] = []
  read_glossary (dict fs ∷ vs) = glossary_entry fs ∷ read_glossary vs
  read_glossary (_ ∷ vs) = read_glossary vs

  unfoldable pub validate_fields : Fields → ℕ → Result Notes
  unfolding read_concepts read_sections read_glossary get_or set text
  validate_fields fs draws = do
    values ← concept_values (get_or fs (text "key_concepts") (list (from_list [])))
    found ← read_concepts values draws
    sections ← iterate (get_or fs (text "sections") (list (from_list [])))
    glossary ← iterate (get_or fs (text "glossary") (list (from_list [])))
    ok (record {
      raw = set fs (text "key_concepts") (list (from_list found.values));
      notes = record {
        key_concepts = found.concepts;
        sections = or_default (read_sections sections);
        glossary = read_glossary glossary;
      };
      draws = found.draws;
    })

  unfoldable pub validate_notes : Value → ℕ → Result Notes
  unfolding validate_fields
  validate_notes (dict fs) draws = validate_fields fs draws
  validate_notes _ draws = err (validation_error (text "Notes response is not a JSON object."))
