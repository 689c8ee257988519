-- ===== src/Upload.antt =====
-- app/routers/upload.py. The parser of the multipart form, sha256 and `json.dumps` are parameters.
pub mod Names
pub mod Laws
pub mod Shared
use study_helper_backend.Prelude.{
  ℕ, ◌+◌, Bool, true, false, not, ◌&&◌, ◌||◌, Option, none, some, List, [], ◌∷◌, ◌++◌, map, length,
  is_empty, ltb, ◌==◌, if◌then◌else◌,
}
use study_helper_backend.Prelude.Int.{pos}
use study_helper_backend.Text.{Text, text, text_eq, member, is_space, strip, ends_with}
use study_helper_backend.Outcome.{
  Failure, Result, ok, err, ◌>>=◌, ◌>>◌, pdf_parse_error, generation_error, validation_error,
  http_exception, crash, schema_error,
}
use study_helper_backend.Json.{Value, null, int, str, list, dict, end, field, from_list}
use study_helper_backend.Runtime.{Runtime}
use study_helper_backend.Config.{Settings}
use study_helper_backend.Pdf.{ParsedSection, ParsedDocument}
use study_helper_backend.Pdf.Parse.{Opened, parse_pdf}
use study_helper_backend.Sessions.{SessionRecord, uploaded, Status, save}
use study_helper_backend.UserStore.{pending, SessionRow, UserDb, Server}
use study_helper_backend.UserStore.Create.{SessionCreate, upsert_session}
use study_helper_backend.UserApi.{valid_session}
use study_helper_backend.Generate.Job.{World}

pub record UploadFile : Type 0 where
  pub filename : Option Text
  pub content_type : Option Text
  pub file_bytes : List ℕ

pub record UploadForm : Type 0 where
  pub x_api_key : Option Text
  pub api_key : Option Text
  pub plan : Text
  pub subject_id : Option Text

pub record UploadResponse : Type 0 where
  pub session_id : Text
  pub pdf_name : Text
  pub page_count : ℕ
  pub word_count : ℕ
  pub status : Status

abbrev pub allowed_content_types : List Text
allowed_content_types =
    text "application/pdf" ∷ text "application/x-pdf" ∷ text "binary/octet-stream" ∷ []

-- `x or y`
abbrev or_text : Option Text → Text → Text
or_text none y = y
or_text (some x) y = if is_empty x then y else x

unfoldable pub upload_key : UploadForm → Text
unfolding strip
upload_key form = strip (or_text form.x_api_key (or_text form.api_key []))

unfoldable pub key_missing : UploadForm → Bool
unfolding upload_key text_eq text
key_missing form =
    text_eq form.plan (text "paid")
    && (is_empty (upload_key form) || ltb (length (upload_key form)) 10)

-- `os.path.basename`: what follows the last slash. `cur` is what was read since one.
unfoldable pub basename_from : Text → Text → Text
basename_from cur [] = cur
basename_from cur (c ∷ s) =
    let fresh = basename_from [] s in
    let longer = basename_from (cur ++ c ∷ []) s in if c == b'/' then fresh else longer

unfoldable pub basename : Text → Text
unfolding basename_from
basename s = basename_from [] s

-- `file.content_type and file.content_type not in ALLOWED_CONTENT_TYPES`
abbrev wrong_type : Option Text → Bool
wrong_type none = false
wrong_type (some t) = not (is_empty t) && not (member t allowed_content_types)

abbrev pub require : Bool → Text → Result (Unit {0})
require true message = ok tt
require false message = err (http_exception 400 message)

-- `except PDFParseError`
abbrev pub as_http : {A : Type 0} → Result A → Result A
as_http (ok a) = ok a
as_http (err (pdf_parse_error code message)) = err (http_exception code message)
as_http (err (generation_error code message)) = err (generation_error code message)
as_http (err (validation_error message)) = err (validation_error message)
as_http (err (http_exception code message)) = err (http_exception code message)
as_http (err (crash c)) = err (crash c)

abbrev pub warning_value : Option Text → Value
warning_value none = null
warning_value (some w) = str w

unfoldable pub section_value : ParsedSection → Value
unfolding text
section_value s = dict (
    field (text "title") (str s.title) (
      field (text "content") (str s.content) (
        field (text "page_range")
          (list (from_list (int (pos s.first_page) ∷ int (pos s.last_page) ∷ []))) end)))

-- What `/generate` reads again.
unfoldable pub document_value : ParsedDocument → Value
unfolding section_value text
document_value d = dict (
    field (text "full_text") (str d.full_text) (
      field (text "sections") (list (from_list (map section_value d.sections)))
        (field (text "warning") (warning_value d.warning) end)))

module _ (rt : Runtime) (st : Settings) (srv : Server) (open_pdf : List ℕ → Opened)
    (sha256 : List ℕ → Text) (json_dumps : Value → Text) where
  unfoldable pub is_pdf_name : Text → Bool
  unfolding ends_with text
  is_pdf_name name = ends_with (rt.lower name) (text ".pdf")

  -- `re.sub(r'[^\w\s\-.]', '_', filename)`
  unfoldable pub safe_char : ℕ → ℕ
  unfolding is_space
  safe_char c = if rt.is_word c || (is_space c || (c == b'-' || c == b'.')) then c else b'_'

  unfoldable pub sanitize : Text → Text
  unfolding basename safe_char is_pdf_name text
  sanitize name =
      let safe = map safe_char (basename name) in
      if is_pdf_name safe then safe else text "document.pdf"

  -- The checks of the request, and the document with the name that it is stored under.
  unfoldable pub read_upload : UploadForm → UploadFile → Result (Text × ParsedDocument)
  unfolding key_missing is_pdf_name sanitize parse_pdf member text
  read_upload form file = do
    let name = or_text file.filename (text "document.pdf")
    require (not (key_missing form)) (text "A valid Anthropic API key is required.")
    require (is_pdf_name name) (text "Only PDF files are accepted.")
    require (not (wrong_type file.content_type)) (text "Only PDF files are accepted.")
    require (not (is_empty file.file_bytes)) (text "Uploaded file is empty.")
    doc ← as_http (parse_pdf rt st open_pdf file.file_bytes)
    ok (sanitize name, doc)

  -- The row that is sent to the database of the users.
  unfoldable pub cloud_session :
      UploadForm → UploadFile → Text → Text → ParsedDocument → SessionCreate
  cloud_session form file id name doc = record {
    id = some id;
    pdf_name = name;
    pdf_hash = some (sha256 file.file_bytes);
    subject_id = form.subject_id;
    page_count = doc.page_count;
    word_count = doc.word_count;
    status = pending;
  }

  abbrev pub id_or : Text → UserDb × Result SessionRow → UserDb × Text
  id_or id (db, ok row) = (db, row.id)
  id_or id (db, err e) = (db, id)

  -- The id of the row, or the tentative one where there is no user or whatever exception there is: a
  -- body that pydantic refuses is one too.
  unfoldable pub cloud_save : Option Text → SessionCreate → Text → UserDb → UserDb × Text
  unfolding upsert_session valid_session
  cloud_save none body id db = (db, id)
  cloud_save (some user) body id db =
      if valid_session body then id_or id (upsert_session srv user body db) else (db, id)

  unfoldable pub record_of : Option Text → UploadFile → Text → Text → ParsedDocument → SessionRecord
  unfolding document_value text
  record_of user file id name doc = record {
    session_id = id;
    pdf_name = name;
    page_count = doc.page_count;
    word_count = doc.word_count;
    s3_key = text "uploads/" ++ (id ++ (text "/" ++ name));
    pdf_hash = sha256 file.file_bytes;
    user_id = user;
    status = uploaded;
    progress_pct = 0;
    error_message = none;
    result_json = some (json_dumps (document_value doc));
  }

  abbrev pub response_of : Text → Text → ParsedDocument → UploadResponse
  response_of id name doc = record {
    session_id = id;
    pdf_name = name;
    page_count = doc.page_count;
    word_count = doc.word_count;
    status = uploaded;
  }

  -- What a document that was read is stored as.
  unfoldable pub store_upload :
      UploadForm → UploadFile → Option Text → Text → ParsedDocument → World → World × UploadResponse
  unfolding cloud_save cloud_session record_of save
  store_upload form file user name doc w =
      let tentative = rt.uuid4 w.draws in
      let saved = cloud_save user (cloud_session form file tentative name doc) tentative w.users in
      (
        record w {
          users = saved.0;
          sessions = save (record_of user file saved.1 name doc) w.sessions;
          draws = w.draws + 1;
        },
        response_of saved.1 name doc,
      )

  abbrev pub stored :
      UploadForm
      → UploadFile
      → Option Text
      → World
      → Result (Text × ParsedDocument)
      → World × Result UploadResponse
  stored form file user w (err e) = (w, err e)
  stored form file user w (ok (name, doc)) =
      let (w', response) = store_upload form file user name doc w in (w', ok response)

  unfoldable pub upload_pdf :
      UploadForm → UploadFile → Option Text → World → World × Result UploadResponse
  unfolding read_upload store_upload
  upload_pdf form file user w = stored form file user w (read_upload form file)
