-- ===== src/Schema.antt =====
-- app/models/schemas.py: the study content that the program makes and stores.
use study_helper_backend.Prelude.{ℕ, List}
use study_helper_backend.Text.{Text}

pub data Importance : Type 0 where
  high medium low : Importance

pub data QuestionType : Type 0 where
  concept application : QuestionType

pub data Letter : Type 0 where
  a b c d : Letter

pub record KeyConcept : Type 0 where
  pub id : Text
  pub term : Text
  pub definition : Text
  pub importance : Importance

pub record StudySection : Type 0 where
  pub title : Text
  pub summary : Text
  pub bullets : List Text

pub record GlossaryEntry : Type 0 where
  pub term : Text
  pub brief_def : Text

pub record StudyNotes : Type 0 where
  pub key_concepts : List KeyConcept
  pub sections : List StudySection
  pub glossary : List GlossaryEntry

pub record McqOptions : Type 0 where
  pub option_a : Text
  pub option_b : Text
  pub option_c : Text
  pub option_d : Text

pub record McqQuestion : Type 0 where
  pub id : Text
  pub question : Text
  pub options : McqOptions
  pub correct_answer : Letter
  pub explanation : Text
  pub concept_id : Text
  pub level : ℕ
  pub question_type : QuestionType

pub record FillQuestion : Type 0 where
  pub id : Text
  pub sentence_with_blank : Text
  pub answer : Text
  pub acceptable_variants : List Text
  pub hint : Text
  pub concept_id : Text
  pub level : ℕ
  pub question_type : QuestionType

pub record ContentMetadata : Type 0 where
  pub page_count : ℕ
  pub word_count : ℕ
  pub generated_at : Text
  pub model_used : Text
  pub section_count : ℕ

pub record StudyContent : Type 0 where
  pub session_id : Text
  pub notes : StudyNotes
  pub mcq_questions : List McqQuestion
  pub fill_questions : List FillQuestion
  pub metadata : ContentMetadata
