-- ===== src/Generate/Endpoints.antt =====
-- routers/generate.py: the endpoints; core/validators.py: the format of keys.
pub mod Access
pub mod Delivery
mod Examples
use study_helper_backend.Prelude.{
  ℕ, List, [], Bool, true, false, ◌&&◌, not, Option, none, some, is_empty, length, leb,
  if◌then◌else◌,
}
use study_helper_backend.Text.{Text, text, text_eq, strip, starts_with}
use study_helper_backend.Outcome.{Failure, Result, ok, err, ◌>>=◌, ◌>>◌, http_exception}
use study_helper_backend.Prompts.{Lang}
use study_helper_backend.Schema.{StudyContent}
use study_helper_backend.Sessions.{
  SessionRecord, Store, Status, uploaded, processing, complete, failed, get, delete,
}
use study_helper_backend.UserStore.{SessionRow, UserDb, find_session}
use study_helper_backend.QuestionBank.{Bank, get_cached}
use study_helper_backend.Generate.Stages.{Plan, paid, gpt, timely}
use study_helper_backend.Generate.Task.{GenerateOptions, Task}

pub record GenerateRequest : Type 0 where
  pub session_id : Text
  pub api_key : Option Text
  pub options : Option GenerateOptions
  pub plan : Plan
  pub lang : Lang

pub record StatusResponse : Type 0 where
  pub status : Status
  pub progress_pct : ℕ
  pub error_message : Option Text

unfoldable pub validate_api_key : Text → Plan → Bool
unfolding starts_with text
validate_api_key key plan = leb 20 (length key) && (elim plan [
  | paid ↦ starts_with key (text "sk-ant-")
  | gpt ↦ starts_with key (text "sk-")
  | timely ↦ leb 20 (length key)
])

-- `x or y`
abbrev or_text : Option Text → Text → Text
or_text none y = y
or_text (some x) y = if is_empty x then y else x

-- The key of the header, or else of the body.
unfoldable pub resolved_key : Option Text → GenerateRequest → Text
unfolding strip
resolved_key header body = strip (or_text header (or_text body.api_key []))

abbrev pub key_required : Plan → Text
key_required paid = text "A valid Anthropic API key is required."
key_required gpt = text "A valid OpenAI API key is required."
key_required timely = text "A valid TimelyGPT API key is required."

-- `_check_ownership`: a guest's session is for guests, and a user's session for that user.
unfoldable pub check_ownership : SessionRecord → Option Text → Result (Unit {0})
unfolding text text_eq
check_ownership r user = elim r.user_id [
  | none ↦ elim user [
    | none ↦ ok tt
    | some u ↦ err (http_exception 403 (text "해당 세션에 대한 접근 권한이 없습니다"))
  ]
  | some owner ↦ elim user [
    | none ↦ err (http_exception 403 (text "해당 세션에 대한 접근 권한이 없습니다"))
    | some u ↦
        if text_eq u owner then ok tt else err (http_exception 403 (text "해당 세션에 대한 접근 권한이 없습니다"))
  ]
]

abbrev pub require : Bool → Failure → Result (Unit {0})
require true e = ok tt
require false e = err e

abbrev pub existing : Option SessionRecord → Result SessionRecord
existing none = err (http_exception 404 (text "Session not found."))
existing (some r) = ok r

abbrev pub is_uuid : Option Text → Bool
is_uuid none = false
is_uuid (some id) = true

-- The answer of `start_generation` for a session by its status, and the task that it hands over.
abbrev pub started : Status → Task → Status × Option Task
started complete task = (complete, none)
started processing task = (processing, none)
started _ task = (processing, some task)

-- The arguments of `add_task`.
abbrev pub task_of : GenerateRequest → Text → Task
task_of body key = record {
  session_id = body.session_id;
  api_key = key;
  options = body.options;
  plan = body.plan;
  lang = body.lang;
}

-- `uuid` is Python's `uuid.UUID` and `cast` the cast of PostgreSQL, which give the canonical text of
-- a UUID; `read_content` is `StudyContent.model_validate_json`.
module _ (uuid cast : Text → Option Text) (read_content : Text → Option StudyContent) where
  unfoldable pub start_generation :
      Option Text → Option Text → GenerateRequest → Store → Result (Status × Option Task)
  unfolding text
  start_generation header user body store = do
    let key = resolved_key header body
    require (validate_api_key key body.plan) (http_exception 400 (key_required body.plan))
    require (is_uuid (uuid body.session_id))
        (http_exception 400 (text "Invalid session ID format."))
    r ← existing (get store body.session_id)
    check_ownership r user
    ok (started r.status (task_of body key))

  unfoldable pub get_status : Text → Option Text → Store → Result StatusResponse
  unfolding text
  get_status id user store = do
    require (is_uuid (uuid id)) (http_exception 400 (text "Invalid session ID format."))
    r ← existing (get store id)
    check_ownership r user
    ok (record {
      status = r.status;
      progress_pct = r.progress_pct;
      error_message = r.error_message;
    })

  delete_existing : Text → Option Text → Option SessionRecord → Store → Store × Result Bool
  delete_existing id user none store = (store, ok false)
  delete_existing id user (some r) store = elim (check_ownership r user) [
    | err e ↦ (store, err e)
    | ok _ ↦ let (store', deleted) = delete id store in (store', ok deleted)
  ]

  unfoldable pub delete_session : Text → Option Text → Store → Store × Result Bool
  unfolding delete_existing text
  delete_session id user store =
      if is_uuid (uuid id)
      then delete_existing id user (get store id) store
      else (store, err (http_exception 400 (text "Invalid session ID format.")))

  -- `_load_result_from_db`: whatever goes wrong, there is no result.
  load_row : Option Text → Bank → Bank × Option Text
  load_row none bank = (bank, none)
  load_row (some hash) bank = if is_empty hash then (bank, none) else get_cached hash bank

  abbrev hash_of : Option SessionRow → Option Text
  hash_of none = none
  hash_of (some row) = row.pdf_hash

  unfoldable pub load_result_from_db : Text → Text → UserDb → Bank → Bank × Option Text
  unfolding load_row
  load_result_from_db id user db bank =
      if db.connected && db.reachable
      then load_row
          (elim (cast id) [ none ↦ none | some i ↦ hash_of (find_session user i db.sessions) ]) bank
      else (bank, none)

  abbrev pub parse_result : Text → Result StudyContent
  parse_result t = elim (read_content t) [
    | none ↦ err (http_exception 500 (text "Failed to parse result."))
    | some c ↦ ok c
  ]

  abbrev parse_cached : Option Text → Result StudyContent
  parse_cached none = err (http_exception 404 (text "Session not found."))
  parse_cached (some t) = parse_result t

  -- What the store does not answer.
  fall_back : Text → Option Text → UserDb → Bank → Bank × Result StudyContent
  unfolding load_result_from_db
  fall_back id none db bank = (bank, err (http_exception 404 (text "Session not found.")))
  fall_back id (some user) db bank =
      let (bank', cached) = load_result_from_db id user db bank in (bank', parse_cached cached)

  abbrev or_generic : Option Text → Text
  or_generic none = text "Generation failed."
  or_generic (some t) = if is_empty t then text "Generation failed." else t

  stored_text : Option Text → Option (Result StudyContent)
  stored_text none = none
  stored_text (some t) = if is_empty t then none else some (parse_result t)

  -- The result of a session that the store has; `none` where it is complete without a text.
  stored_result : SessionRecord → Option (Result StudyContent)
  unfolding stored_text
  stored_result r = elim r.status [
    | uploaded ↦
        some (err (http_exception 400 (text "Generation not started. Call /generate first.")))
    | processing ↦ some (err (http_exception 202 (text "Generation still in progress.")))
    | failed ↦ some (err (http_exception 500 (or_generic r.error_message)))
    | complete ↦ stored_text r.result_json
  ]

  abbrev or_else :
      Option (Result StudyContent) → Bank → Bank × Result StudyContent → Bank × Result StudyContent
  or_else none bank other = other
  or_else (some a) bank other = (bank, a)

  result_of : Text → Option Text → UserDb → Bank → Option SessionRecord → Bank × Result StudyContent
  unfolding fall_back stored_result
  result_of id user db bank none = fall_back id user db bank
  result_of id user db bank (some r) = elim (check_ownership r user) [
    | err e ↦ (bank, err e)
    | ok _ ↦ or_else (stored_result r) bank (fall_back id user db bank)
  ]

  unfoldable pub get_result :
      Text → Option Text → Store → UserDb → Bank → Bank × Result StudyContent
  unfolding result_of text
  get_result id user store db bank =
      if is_uuid (uuid id)
      then result_of id user db bank (get store id)
      else (bank, err (http_exception 400 (text "Invalid session ID format.")))
