-- ===== src/Generate/Task/Examples.antt =====
-- The background task and the endpoints, for a session whose document the models answer well.
mod Known
use study_helper_backend.JsonUtils.{extract_json}
use study_helper_backend.Client.Anthropic.{settle}
use study_helper_backend.Validator.Fill.{validate_fill, normalise}
use study_helper_backend.Json.{get_or, truthy}
use study_helper_backend.Coerce.{coerce_question_type, level_of}
use study_helper_backend.Validator.Notes.{validate_notes}
use study_helper_backend.Validator.Mcq.{
  validate_mcq, near_duplicate, letter_of, read_options, is_dup, are_distinct, are_present, keep,
  judge,
}
use study_helper_backend.Prelude.{
  All, ℕ, zero, suc, ◌≡◌, refl, ap, true, false, List, [], ◌∷◌, Option, none, some, is_empty, arith,
}
use study_helper_backend.Text.{text_eq, Text, text}
use study_helper_backend.Config.{defaults}
use study_helper_backend.Breaker.{is_open, closed}
use study_helper_backend.Schema.{StudyContent}
use study_helper_backend.Prompts.{build_fill_prompt, build_mcq_prompt, en}
use study_helper_backend.Client.Request.{Prompt, Exchange, Reply, timeout_error, replied}
use study_helper_backend.Client.Timely.{timed_out, Service}
use study_helper_backend.Sessions.{SessionRecord, complete, get, apply}
use study_helper_backend.Sessions.Laws.{IsKeyed}
use study_helper_backend.Text.Laws.{text_eq_iff}
use study_helper_backend.UserStore.{
  is_row, set_status, update_session_status, require_pool, RowStatus, SessionRow, find_session,
}
use study_helper_backend.QuestionBank.{get_cached}
use study_helper_backend.Generate.Job.{◌>>=◌, World, done}
use study_helper_backend.Generate.Finish.{success, finalize_ready}
use study_helper_backend.Generate.Finish.Laws.{Has, Finished, finalize_ready_consistent}
use study_helper_backend.Generate.Stages.{redrawn, ask, catching, paid, Services}
use study_helper_backend.Generate.Ending.{survived}
use study_helper_backend.Generate.Task.{
  concept_ids, read_document, at_progress, finish_cached, check_notes, check_fill, check_mcq,
  load_document, raising, publish, generate_stage, document_of, run_stages, text_document,
  use_cache, Task, run_generation,
}
use study_helper_backend.Generate.Task.Ends.{
  Published, run_generation-Published, run_generation-Finished,
}
use study_helper_backend.Validator.Mcq
use study_helper_backend.Validator.Fill
use study_helper_backend.Generate.Endpoints.{get_result, parse_result}
use study_helper_backend.Generate.Endpoints.Delivery.{run_generation-get_result}
use study_helper_backend.Generate.Task.Cache.{Served, run_generation-Served}
use study_helper_backend.Examples.Ascii.{ascii, ascii-IsSound, loads}
use study_helper_backend.Examples.Stores.{session, store, store-IsKeyed, users, bank}

-- Anthropic answers; the others time out.
abbrev texts : ℕ → Text
texts zero = text "notes"
texts (suc zero) = text "mcq"
texts _ = text "fill"

abbrev claude : ℕ → Text → Prompt → ℕ → Exchange (Reply (List Text))
claude stage model p attempt = record {
  asked = stage;
  answered = stage;
  reply = replied (texts stage ∷ []);
}

abbrev gpt_down : ℕ → Text → Prompt → ℕ → Exchange (Reply (List (Option Text)))
gpt_down stage model p attempt = record { asked = 0; answered = 0; reply = timeout_error }

abbrev timely_down : ℕ → Service
timely_down stage = record {
  issue = λ key attempt. timed_out;
  complete = λ key p token attempt. timed_out;
  asked = λ n. n;
  checked = λ n. n;
  issued = λ n. n;
  answered = λ n. n;
}

abbrev services : Services
services = record { claude = claude; openai = gpt_down; timelygpt = timely_down }

abbrev dumped : StudyContent → Text
dumped c = text "content"

abbrev today : Text
today = text "2026-01-01"

abbrev task : Task
task = record {
  session_id = text "s1";
  api_key = text "sk-ant-key";
  options = none;
  plan = paid;
  lang = en;
}

abbrev world : World
world = record {
  sessions = store;
  users = users;
  bank = bank;
  clients = record {
    anthropic = closed;
    openai = closed;
    timely = record { breaker = closed; tokens = [] };
  };
  draws = 0;
}

world-Has : Has (text "s1") world
unfolding text text_eq get
world-Has = record { keyed = store-IsKeyed; at = session; found = refl }

runs : (run_generation (ascii loads) defaults services dumped today task world).1 ≡ done tt
unfolding finish_cached get_or get_cached read_document use_cache raising truthy text_document
    at_progress get text text_eq run_generation ◌>>=◌ document_of load_document run_stages
    build_fill_prompt extract_json redrawn study_helper_backend.Validator.Mcq.visit_all is_open
    build_mcq_prompt study_helper_backend.Validator.Mcq.check
    study_helper_backend.Validator.Mcq.visit generate_stage ask validate_notes catching
    study_helper_backend.Validator.Mcq.questions_of check_notes check_mcq validate_mcq settle judge
    are_distinct level_of study_helper_backend.Validator.Fill.questions_of keep coerce_question_type
    study_helper_backend.Validator.Mcq.require_some study_helper_backend.Validator.Mcq.complete
    near_duplicate read_options study_helper_backend.Validator.Fill.visit_all validate_fill
    letter_of check_fill are_present is_dup study_helper_backend.Validator.Mcq.stripped
    study_helper_backend.Validator.Fill.stripped study_helper_backend.Validator.Fill.complete
    publish study_helper_backend.Validator.Fill.require_some normalise
    study_helper_backend.Validator.Fill.check study_helper_backend.Validator.Fill.visit
runs = refl

run_generation-Published_example :
    Published
      (ascii loads)
      dumped
      task.session_id
      (run_generation (ascii loads) defaults services dumped today task world).0
run_generation-Published_example =
    run_generation-Published (ascii loads) defaults services dumped today task world
      (ascii-IsSound loads) world-Has runs

survives :
    survived (run_generation (ascii loads) defaults services dumped today task world).1 ≡ true
survives = ap survived runs

run_generation-Finished_example :
    Finished task.session_id
      (run_generation (ascii loads) defaults services dumped today task world).0
run_generation-Finished_example =
    run_generation-Finished (ascii loads) defaults services dumped today task world
      (ascii-IsSound loads) world-Has survives

abbrev after : World
after = (run_generation (ascii loads) defaults services dumped today task world).0

abbrev or_session : Option SessionRecord → SessionRecord
or_session none = session
or_session (some r) = r

abbrev published : SessionRecord
published = or_session (get after.sessions (text "s1"))

published_found : get after.sessions (text "s1") ≡ some published
unfolding finish_cached get_or get_cached read_document use_cache raising truthy text_document
    at_progress get text text_eq run_generation ◌>>=◌ document_of load_document run_stages
    build_fill_prompt extract_json redrawn study_helper_backend.Validator.Mcq.visit_all is_open
    build_mcq_prompt study_helper_backend.Validator.Mcq.check
    study_helper_backend.Validator.Mcq.visit generate_stage ask validate_notes catching
    study_helper_backend.Validator.Mcq.questions_of check_notes check_mcq validate_mcq settle judge
    are_distinct level_of study_helper_backend.Validator.Fill.questions_of keep coerce_question_type
    study_helper_backend.Validator.Mcq.require_some study_helper_backend.Validator.Mcq.complete
    near_duplicate read_options study_helper_backend.Validator.Fill.visit_all validate_fill
    letter_of check_fill are_present is_dup study_helper_backend.Validator.Mcq.stripped
    study_helper_backend.Validator.Fill.stripped study_helper_backend.Validator.Fill.complete
    publish study_helper_backend.Validator.Fill.require_some normalise
    study_helper_backend.Validator.Fill.check study_helper_backend.Validator.Fill.visit
    finalize_ready update_session_status set_status is_row require_pool
published_found = refl

published_complete : published.status ≡ complete
unfolding finish_cached get_or get_cached read_document use_cache raising truthy text_document
    at_progress get text text_eq run_generation ◌>>=◌ document_of load_document run_stages
    build_fill_prompt extract_json redrawn study_helper_backend.Validator.Mcq.visit_all is_open
    build_mcq_prompt study_helper_backend.Validator.Mcq.check
    study_helper_backend.Validator.Mcq.visit generate_stage ask validate_notes catching
    study_helper_backend.Validator.Mcq.questions_of check_notes check_mcq validate_mcq settle judge
    are_distinct level_of study_helper_backend.Validator.Fill.questions_of keep coerce_question_type
    study_helper_backend.Validator.Mcq.require_some study_helper_backend.Validator.Mcq.complete
    near_duplicate read_options study_helper_backend.Validator.Fill.visit_all validate_fill
    letter_of check_fill are_present is_dup study_helper_backend.Validator.Mcq.stripped
    study_helper_backend.Validator.Fill.stripped study_helper_backend.Validator.Fill.complete
    publish study_helper_backend.Validator.Fill.require_some normalise
    study_helper_backend.Validator.Fill.check study_helper_backend.Validator.Fill.visit
    finalize_ready update_session_status set_status is_row require_pool
published_complete = refl

not_empty : (c : StudyContent) → is_empty (dumped c) ≡ false
unfolding text
not_empty c = refl

run_generation-get_result_example :
    (c : StudyContent) × ((get_result
        (λ id. some id)
        (λ id. some id)
        (λ t. none)
        (text "s1")
        published.user_id
        after.sessions
        after.users
        after.bank).1
      ≡ parse_result (λ id. some id) (λ id. some id) (λ t. none) (dumped c))
    × All (Mcq.Accepted.IsAccepted (concept_ids c.notes.key_concepts)) c.mcq_questions
    × All (Fill.Accepted.IsAccepted (concept_ids c.notes.key_concepts)) c.fill_questions
run_generation-get_result_example =
    run_generation-get_result (λ id. some id) (λ id. some id) (λ t. none) (ascii loads) defaults
      services dumped today task world published not_empty refl (ascii-IsSound loads) world-Has runs
      published_found published_complete
