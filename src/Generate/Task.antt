-- ===== src/Generate/Task.antt =====
-- `_run_generation`.
pub mod Ends
pub mod Steps
pub mod Cache
pub mod Uploaded
mod Examples
use study_helper_backend.Prelude.{
  ℕ, suc, ◌||◌, ◌&&◌, Bool, true, false, not, Option, none, some, List, [], ◌∷◌, ◌++◌, is_empty,
  length, map, ◌==◌, max, if◌then◌else◌,
}
use study_helper_backend.Text.{Text, text}
use study_helper_backend.Outcome.{Failure, Result, ok, err, crash, type_error, attribute_error}
use study_helper_backend.Json.{
  Value, null, bool, int, float, str, list, dict, Fields, end, get_or, to_list, from_list, truthy,
}
use study_helper_backend.Runtime.{Runtime}
use study_helper_backend.Config.{Settings}
use study_helper_backend.Client.Request.{Prompt, model_or}
use study_helper_backend.Prompts.{
  Lang, build_notes_prompt, build_mcq_prompt, build_fill_prompt, calculate_question_counts,
}
use study_helper_backend.Schema.{KeyConcept, StudyNotes, McqQuestion, FillQuestion, StudyContent}
use study_helper_backend.Validator.Notes.{Notes, validate_notes}
use study_helper_backend.Validator.Mcq.{validate_mcq}
use study_helper_backend.Validator.Fill.{validate_fill}
use study_helper_backend.Sessions.{SessionRecord, get, progress}
use study_helper_backend.QuestionBank.{get_cached, save_to_bank}
use study_helper_backend.Generate.Job.{
  Clients, World, Job, End, done, stopped, died, ◌>>=◌, ◌>>◌, pure, modify, stop,
}
use study_helper_backend.Generate.Finish.{fail, update_session, finalize_ready}
use study_helper_backend.Generate.Stages.{
  Plan, paid, gpt, timely, Services, ask, generation_message, validation_message, catching, redrawn,
}

pub record GenerateOptions : Type 0 where
  pub mcq_count : Option ℕ
  pub fill_count : Option ℕ
  pub model : Option Text

-- The arguments of the task.
pub record Task : Type 0 where
  pub session_id : Text
  pub api_key : Text
  pub options : Option GenerateOptions
  pub plan : Plan
  pub lang : Lang

-- The text of a document and the number of its sections.
pub record Document : Type 0 where
  pub full_text : Text
  pub section_count : ℕ

-- `options.x if options and options.x else None`, and then the count that is computed.
abbrev or_auto : Option ℕ → ℕ → ℕ
or_auto none auto = auto
or_auto (some n) auto = if n == 0 then auto else n

abbrev wanted : (GenerateOptions → Option ℕ) → Option GenerateOptions → Option ℕ
wanted f none = none
wanted f (some o) = f o

unfoldable pub question_counts : Option GenerateOptions → ℕ → ℕ × ℕ
unfolding calculate_question_counts
question_counts options sections =
    let (auto_mcq, auto_fill) = calculate_question_counts sections in
    (
      or_auto (wanted (λ o. o.mcq_count) options) auto_mcq,
      or_auto (wanted (λ o. o.fill_count) options) auto_fill,
    )

abbrev wanted_model : Option GenerateOptions → Option Text
wanted_model none = none
wanted_model (some o) = o.model

abbrev field_count : Fields → ℕ
field_count end = 0
field_count (Fields.field _ _ fs) = suc (field_count fs)

-- `len(v)`
abbrev size_of : Value → Result ℕ
size_of (list vs) = ok (length (to_list vs))
size_of (str s) = ok (length s)
size_of (dict fs) = ok (field_count fs)
size_of _ = err (crash type_error)

-- `record.result_json or "{}"`
abbrev or_braces : Option Text → Text
or_braces none = text "{}"
or_braces (some t) = if is_empty t then text "{}" else t

abbrev pub concept_ids : List KeyConcept → List Text
concept_ids [] = []
concept_ids (c ∷ cs) = c.id ∷ concept_ids cs

-- `settings.OPENAI_MODEL if plan == "gpt" else …`
abbrev default_model : Settings → Plan → Text
default_model settings gpt = settings.openai_model
default_model settings timely = settings.timely_model
default_model settings paid = settings.anthropic_model

-- `dump_content` is `model_dump_json`, and `generated_at` the time that the content is stamped with.
module _ (rt : Runtime) (settings : Settings) (services : Services)
    (dump_content : StudyContent → Text) (generated_at : Text) where
  module _ (r : SessionRecord) (task : Task) where
    pub at_progress : ℕ → Job (Unit {0})
    at_progress pct = modify (update_session task.session_id (progress pct))

    -- `await _fail(message); return`
    refuse : {A : Type 0} → Text → Job A
    refuse message w = (fail r.user_id task.session_id message w, stopped)

    -- An exception that nothing catches.
    pub raising : {A : Type 0} → Result A → Job A
    raising (ok a) w = (w, done a)
    raising (err e) w = (w, died e)

    finish_cached : Option Text → Job (Unit {0})
    finish_cached none w = (w, done tt)
    finish_cached (some content) w =
        if is_empty content
        then (w, done tt)
        else (finalize_ready r.user_id task.session_id content w, stopped)

    use_cache : Job (Unit {0})
    use_cache w =
        let (bank, found) = get_cached r.pdf_hash w.bank in
        finish_cached found (record w { bank = bank })

    -- The program writes only texts under "full_text". With another value the code would go on, and end
    -- in the same exception where `_keyword_overlap` reads the document.
    text_document : Value → ℕ → Job Document
    text_document (str s) sections w =
        (w, done (record { full_text = s; section_count = max 1 sections }))
    text_document _ sections w = (w, died (crash attribute_error))

    document_of : Value → ℕ → Job Document
    document_of full_text sections w =
        if truthy full_text
        then text_document full_text sections w
        else refuse (text "Document text is empty.") w

    read_document : Value → Job Document
    read_document (dict fs) = do
      sections ← raising (size_of (get_or fs (text "sections") (list (from_list []))))
      document_of (get_or fs (text "full_text") (str [])) sections
    read_document _ = raising (err (crash attribute_error))

    pub load_document : Job Document
    load_document w = elim (rt.loads (or_braces r.result_json)) [
      | none ↦ refuse (text "Failed to load parsed document.") w
      | some parsed ↦ read_document parsed w
    ]

    -- One call of the model of the plan, at a stage of the pipeline.
    pub generate_stage : ℕ → Text × Text → ℕ → Text → Job Value
    generate_stage stage (system, user) max_tokens message w =
        let p : Prompt = record {
          api_key = task.api_key;
          system_prompt = system;
          user_prompt = user;
          max_tokens = max_tokens;
          model = wanted_model task.options;
        } in
        let (clients, result) = ask rt settings services stage task.plan p w.clients in
        catching r.user_id task.session_id (generation_message message) result
          (record w { clients = clients })

    pub check_notes : Value → Job Notes
    check_notes raw w =
        let found = validate_notes rt raw w.draws in
        catching r.user_id task.session_id (validation_message (text "Notes validation failed: "))
          found (redrawn (λ n. n.draws) found w)

    pub check_mcq : Value → List Text → Job (List McqQuestion × ℕ)
    check_mcq raw ids w =
        let found = validate_mcq rt raw ids w.draws in
        catching r.user_id task.session_id (validation_message (text "Validation failed: ")) found
          (redrawn (λ q. q.1) found w)

    pub check_fill : Value → List Text → Job (List FillQuestion × ℕ)
    check_fill raw ids w =
        let found = validate_fill rt raw ids w.draws in
        catching r.user_id task.session_id (validation_message (text "Validation failed: ")) found
          (redrawn (λ q. q.1) found w)

    content_of : Document → StudyNotes → List McqQuestion → List FillQuestion → StudyContent
    content_of doc notes mcqs fills = record {
      session_id = task.session_id;
      notes = notes;
      mcq_questions = mcqs;
      fill_questions = fills;
      metadata = record {
        page_count = r.page_count;
        word_count = r.word_count;
        generated_at = generated_at;
        model_used = model_or (wanted_model task.options) (default_model settings task.plan);
        section_count = doc.section_count;
      };
    }

    publish : Text → Job (Unit {0})
    publish content w =
        let w' = finalize_ready r.user_id task.session_id content w in
        (
          record w' {
            bank =
                save_to_bank
                  (record {
                    pdf_hash = r.pdf_hash;
                    pdf_name = r.pdf_name;
                    page_count = r.page_count;
                    word_count = r.word_count;
                    content_json = content;
                    hit_count = 0;
                  })
                  w'.bank;
          },
          done tt,
        )

    -- The notes, the questions and the content, once the document is there.
    run_stages : Document → Job (Unit {0})
    run_stages doc = do
      let counts = question_counts task.options doc.section_count
      at_progress 5
      at_progress 10
      notes_raw ←
          generate_stage 0 (build_notes_prompt doc.full_text task.lang) 4096
            (text "Notes generation failed: ")
      at_progress 40
      notes ← check_notes notes_raw
      mcq_prompt ← raising (build_mcq_prompt rt doc.full_text notes.raw counts.0 task.lang)
      mcq_raw ← generate_stage 1 mcq_prompt 8192 (text "MCQ generation failed: ")
      at_progress 70
      fill_prompt ← raising (build_fill_prompt rt doc.full_text notes.raw counts.1 task.lang)
      fill_raw ← generate_stage 2 fill_prompt 2048 (text "Fill generation failed: ")
      at_progress 85
      let ids = concept_ids notes.notes.key_concepts
      mcqs ← check_mcq mcq_raw ids
      fills ← check_fill fill_raw ids
      publish (dump_content (content_of doc notes.notes mcqs.0 fills.0))

    run_session : Job (Unit {0})
    run_session = do use_cache; doc ← load_document; run_stages doc

  -- A session that is not there is only logged.
  pub run_generation : Task → Job (Unit {0})
  unfolding run_session
  run_generation task w = elim (get w.sessions task.session_id) [
    | none ↦ (w, stopped)
    | some r ↦ run_session r task w
  ]
