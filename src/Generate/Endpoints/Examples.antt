-- ===== src/Generate/Endpoints/Examples.antt =====
-- The endpoints, for the owner of a session and for a guest.
use study_helper_backend.Prelude.{◌≡◌, ◌≢◌, ◌⊎◌, refl, true, [], ◌∷◌, Option, none, some}
use study_helper_backend.Text.{text_eq, Text, text}
use study_helper_backend.Outcome.{ok}
use study_helper_backend.Prompts.{en}
use study_helper_backend.Schema.{StudyContent}
use study_helper_backend.Sessions.{
  SessionRecord, Store, uploaded, processing, complete, failed, get,
}
use study_helper_backend.Generate.Stages.{paid}
use study_helper_backend.Generate.Task.{Task}
use study_helper_backend.Generate.Endpoints.{
  is_uuid, task_of, resolved_key, check_ownership, GenerateRequest, task_of, validate_api_key,
  start_generation, get_result, delete_session,
}
use study_helper_backend.Generate.Endpoints.Access.{
  start_generation-task, get_result-own, delete_session-foreign,
}
use study_helper_backend.Examples.Stores.{session, store, users, bank}

abbrev content : StudyContent
content = record {
  session_id = text "s1";
  notes = record { key_concepts = []; sections = []; glossary = [] };
  mcq_questions = [];
  fill_questions = [];
  metadata = record {
    page_count = 1;
    word_count = 1;
    generated_at = [];
    model_used = [];
    section_count = 1;
  };
}

abbrev read_content : Text → Option StudyContent
read_content t = some content

abbrev request : GenerateRequest
request = record {
  session_id = text "s1";
  api_key = some (text " sk-ant-0123456789abcdef ");
  options = none;
  plan = paid;
  lang = en;
}

abbrev scheduled : Task
scheduled = task_of request (text "sk-ant-0123456789abcdef")

is_scheduled :
    start_generation
      (λ id. some id)
      (λ id. some id)
      read_content
      none
      (some (text "u1"))
      request
      store
    ≡ ok (processing, some scheduled)
unfolding start_generation resolved_key check_ownership get validate_api_key text_eq text
is_scheduled = refl

start_generation-task_example :
    (r : SessionRecord) × (get store request.session_id ≡ some r)
    × (r.user_id ≡ some (text "u1"))
    × ((r.status ≡ uploaded) ⊎ (r.status ≡ failed))
    × (is_uuid (some request.session_id) ≡ true)
    × (validate_api_key scheduled.api_key scheduled.plan ≡ true)
    × (scheduled.session_id ≡ request.session_id)
    × (scheduled.api_key ≡ resolved_key none request)
    × (scheduled ≡ task_of request (resolved_key none request))
start_generation-task_example =
    start_generation-task (λ id. some id) (λ id. some id) read_content none (some (text "u1"))
      request store processing scheduled is_scheduled

abbrev finished : SessionRecord
finished = record session { status = complete; result_json = some (text "content") }

abbrev finished_store : Store
finished_store = (text "s1", finished) ∷ []

finished_found : get finished_store (text "s1") ≡ some finished
unfolding text_eq text get
finished_found = refl

is_answered :
    (get_result
      (λ id. some id)
      (λ id. some id)
      read_content
      (text "s1")
      (some (text "u1"))
      finished_store
      users
      bank).1
    ≡ ok content
unfolding check_ownership get_result get text_eq text
is_answered = refl

get_result-own_example : finished.user_id ≡ some (text "u1")
get_result-own_example =
    get_result-own (λ id. some id) (λ id. some id) read_content (text "s1") (some (text "u1"))
      finished_store users bank finished content finished_found is_answered

owned_by_other : finished.user_id ≢ none
owned_by_other e = cc e

delete_session-foreign_example :
    (delete_session (λ id. some id) (λ id. some id) read_content (text "s1") none finished_store).0
    ≡ finished_store
delete_session-foreign_example =
    delete_session-foreign (λ id. some id) (λ id. some id) read_content (text "s1") none
      finished_store finished finished_found owned_by_other
