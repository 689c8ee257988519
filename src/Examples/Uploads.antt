-- ===== src/Examples/Uploads.antt =====
-- An upload of two pages, of which the settings take one.
use study_helper_backend.UserStore.Query.{◌>>=◌}
use study_helper_backend.Upload.Laws.{Rejected, upload_pdf-total}
use study_helper_backend.Upload.Shared.{NotSaved, Shares, upload_pdf-Shares}
use study_helper_backend.Generate.Stages.{Services, paid}
use study_helper_backend.Generate.Task.{Task, load_document}
use study_helper_backend.Generate.Job.{done}
use study_helper_backend.Prompts.{en}
use study_helper_backend.Client.Request.{timeout_error}
use study_helper_backend.Client.Timely.{timed_out}
use study_helper_backend.Sessions.{SessionRecord, get}
use study_helper_backend.Pdf.Parse.Laws.{
  Accepted, Refused, Broken, parse_pdf-total, content, content-take,
}
use study_helper_backend.Pdf.Parse.{read_pdf, texts_of, read_all, read_page}
use study_helper_backend.Pdf.Sections.{
  is_title, read_line, flush, read_lines, heading_words, section_of, read_pages, groups,
}
use study_helper_backend.Pdf.Sections.Lines.{body}
use study_helper_backend.Pdf.Sections.Contents.{
  Filled, cleaned, contents, joined, extract_sections-contents,
}
use study_helper_backend.Pdf.Sections.{extract_sections, whole_document}
use study_helper_backend.Pdf.Sections.Pages.{Spans, groups-Spans}
use study_helper_backend.Runtime.Number.{decimal}
use study_helper_backend.Generate.Task.Uploaded.{IsJson, document_read, upload-load_document}
use study_helper_backend.Upload.Names.{IsPlain, NoSlash, sanitize-NoSlash}
use study_helper_backend.Upload.{sanitize, is_pdf_name}
use study_helper_backend.UserStore.{require_pool, ready}
use study_helper_backend.Sessions.{uploaded}
use study_helper_backend.Examples.Stores.{user_row}
use study_helper_backend.Prelude.{◌⊎◌, ◌++◌, All}
use study_helper_backend.Prelude.{
  ℕ, ◌≡◌, ◌≢◌, refl, true, false, List, [], ◌∷◌, Option, none, some, arith, take, length, is_empty,
}
use study_helper_backend.Prelude.Int.{pos}
use study_helper_backend.Text.{Text, text}
use study_helper_backend.Outcome.{Result, ok, err}
use study_helper_backend.Json.{Value}
use study_helper_backend.Config.{Settings, defaults}
use study_helper_backend.Runtime.{Runtime}
use study_helper_backend.Pdf.{PdfPage, Page, Word, ParsedDocument}
use study_helper_backend.Pdf.Parse.{Opened, opened, parse_pdf}
use study_helper_backend.Upload.{UploadForm, UploadFile, UploadResponse, document_value, upload_pdf}
use study_helper_backend.UserStore.{Server}
use study_helper_backend.Generate.Job.{World}
use study_helper_backend.Examples.Ascii.{ascii}
use study_helper_backend.Examples.Stores.{store, users, bank}
use study_helper_backend.Breaker.{closed}

abbrev first_words : List Word
first_words =
    record { word = text "Routing"; fontname = text "Arial-Bold"; size = none }
    ∷ record {
      word = text "sends";
      fontname = text "Arial";
      size = some (record { mantissa = pos 21; scale = 1 });
    }
    ∷ []

abbrev first_text : Text
first_text = text "Routing\nA router sends each packet to the next hop of its path.\n1"

-- The second page cannot be read, and is after the limit.
abbrev pub two_pages : List PdfPage
two_pages =
    record { extract_words = some first_words; extract_text = some first_text }
    ∷ record { extract_words = none; extract_text = none }
    ∷ []

abbrev legible_pages : List Page
legible_pages =
    record { words = first_words; page_text = first_text }
    ∷ record { words = []; page_text = text "More." }
    ∷ []

abbrev pub small : Settings
small = record defaults { max_pdf_pages = 1; chunk_token_size = 8 }

abbrev pub open_two : List ℕ → Opened
open_two bytes = opened false (some two_pages)

abbrev pub bytes : List ℕ
bytes = 37 ∷ 80 ∷ []

abbrev pub plain : Runtime
plain = ascii (λ t. none)

abbrev document_or : Result ParsedDocument → ParsedDocument
document_or (ok d) = d
document_or (err e) = record {
  sections = [];
  full_text = [];
  page_count = 0;
  word_count = 0;
  truncated = false;
  warning = none;
}

abbrev doc : ParsedDocument
doc = document_or (parse_pdf plain small open_two bytes)

parsed : parse_pdf plain small open_two bytes ≡ ok doc
unfolding section_of groups parse_pdf read_pdf texts_of read_all read_page heading_words is_title
    read_line flush read_lines read_pages
parsed = refl

positive : small.chunk_token_size ≢ 0
positive e = absurd (omega (arith, e))

abbrev Answer : Type 0
Answer =
    Accepted plain small open_two bytes (parse_pdf plain small open_two bytes)
    ⊎ (Refused plain small (parse_pdf plain small open_two bytes)
        ⊎ Broken plain small (open_two bytes) (parse_pdf plain small open_two bytes))

parse_pdf-total_example : Answer
parse_pdf-total_example = parse_pdf-total plain small open_two bytes positive

content-take_example :
    content (read_pdf plain small two_pages)
    ≡ content (read_pdf plain small (take small.max_pdf_pages two_pages))
content-take_example = content-take plain small two_pages

extract_sections-contents_example :
    ((body legible_pages ≡ [])
      × (extract_sections plain legible_pages ≡ whole_document plain legible_pages ∷ []))
    ⊎ ((runs : List (List Text)) × (joined runs ≡ body legible_pages)
        × Filled runs
        × (runs ≢ [])
        × (contents (extract_sections plain legible_pages) ≡ cleaned plain runs))
extract_sections-contents_example = extract_sections-contents plain legible_pages

groups-Spans_example : All (Spans (length legible_pages)) (groups legible_pages)
groups-Spans_example = groups-Spans legible_pages

-- The server reads every text but the empty one as a UUID.
abbrev uuid : Text → Option Text
uuid [] = none
uuid (c ∷ t) = some (c ∷ t)

abbrev pub postgres : Server
postgres = record { uuid = uuid; gen_random_uuid = λ n. text "id" ++ decimal n; now = λ n. n }

abbrev pub hash : Text
hash = text "0123456789abcdef0123456789abcdef0123456789abcdef0123456789abcdef"

-- `json` writes one text for this document, and reads it.
abbrev loads : Text → Option Value
loads [] = none
loads (c ∷ t) = some (document_value doc)

abbrev dumps : Value → Text
dumps v = text "json"

abbrev rt : Runtime
rt = record (ascii loads) { uuid4 = λ n. text "00000000-0000-4000-8000-000000000000" }

again : parse_pdf rt small open_two bytes ≡ ok doc
unfolding parse_pdf read_pdf texts_of read_all read_page section_of text groups flush read_pages
    read_line heading_words is_title read_lines
again = refl

json : (d : ParsedDocument) → parse_pdf rt small open_two bytes ≡ ok d → IsJson rt.loads dumps d
unfolding text
json d h =
    let same : doc ≡ d = cc (again, h) in rw (← same) (record { reads = refl; nothing = refl })

rt-IsPlain : IsPlain rt
unfolding text
rt-IsPlain = record { slash = refl; lower_name = refl }

sanitize-NoSlash_example :
    NoSlash (sanitize rt small postgres open_two (λ b. hash) dumps (text "../a/../b?.PDF"))
    × (is_pdf_name rt small postgres open_two
          (λ b. hash)
          dumps
          (sanitize rt small postgres open_two (λ b. hash) dumps (text "../a/../b?.PDF"))
        ≡ true)
sanitize-NoSlash_example =
    sanitize-NoSlash rt small postgres open_two (λ b. hash) dumps rt-IsPlain (text "../a/../b?.PDF")

abbrev form : UploadForm
form = record {
  x_api_key = some (text "sk-ant-0123456789");
  api_key = none;
  plan = text "paid";
  subject_id = none;
}

abbrev file : UploadFile
file = record {
  filename = some (text "dir/notes.pdf");
  content_type = some (text "application/pdf");
  file_bytes = bytes;
}

-- The user has uploaded this PDF before.
abbrev world : World
world = record {
  sessions = store;
  users = record users { sessions = record user_row { pdf_hash = some hash; status = ready } ∷ [] };
  bank = bank;
  clients = record {
    anthropic = closed;
    openai = closed;
    timely = record { breaker = closed; tokens = [] };
  };
  draws = 0;
}

abbrev result : World × Result UploadResponse
result = upload_pdf rt small postgres open_two (λ b. hash) dumps form file (some (text "u1")) world

abbrev response : UploadResponse
response = record {
  session_id = text "s1";
  pdf_name = text "notes.pdf";
  page_count = 2;
  word_count = doc.word_count;
  status = uploaded;
}

answered :
    upload_pdf rt small postgres open_two (λ b. hash) dumps form file (some (text "u1")) world
    ≡ (result.0, ok response)
unfolding section_of is_title read_lines ◌>>=◌ heading_words upload_pdf read_line require_pool text
    groups read_pages flush read_pdf texts_of read_all read_page
answered = refl

upload_pdf-total_example :
    ((w' : World) × (resp : UploadResponse) × (upload_pdf rt small postgres open_two
          (λ b. hash)
          dumps
          form
          file
          (some (text "u1"))
          world
        ≡ (w', ok resp)))
    ⊎ (((upload_pdf rt small postgres open_two
            (λ b. hash)
            dumps
            form
            file
            (some (text "u1"))
            world).0
          ≡ world)
        × (Rejected rt small postgres open_two (λ b. hash) dumps result.1
            ⊎ Broken rt small (open_two bytes) result.1))
upload_pdf-total_example =
    upload_pdf-total rt small postgres open_two (λ b. hash) dumps form file (some (text "u1")) world
      positive

hash-shown : is_empty hash ≡ false
unfolding text
hash-shown = refl

upload_pdf-Shares_example :
    NotSaved rt small postgres open_two (λ b. hash) dumps form file (text "u1") world response
    ⊎ Shares rt small postgres open_two
        (λ b. hash)
        dumps
        (text "u1")
        hash
        (text "s1")
        world.users
        result.0.users
upload_pdf-Shares_example =
    upload_pdf-Shares rt small postgres open_two (λ b. hash) dumps form file (text "u1") world
      result.0 response answered hash-shown

abbrev silent : Services
silent = record {
  claude = λ stage model p attempt. record { asked = 0; answered = 0; reply = timeout_error };
  openai = λ stage model p attempt. record { asked = 0; answered = 0; reply = timeout_error };
  timelygpt = λ stage. record {
    issue = λ key attempt. timed_out;
    complete = λ key p token attempt. timed_out;
    asked = λ n. n;
    checked = λ n. n;
    issued = λ n. n;
    answered = λ n. n;
  };
}

abbrev task : Task
task = record {
  session_id = text "s1";
  api_key = text "sk-ant-key";
  options = none;
  plan = paid;
  lang = en;
}

upload-load_document_example :
    (d : ParsedDocument) × (r : SessionRecord) × (parse_pdf rt small open_two bytes ≡ ok d)
    × (get result.0.sessions (text "s1") ≡ some r)
    × (load_document rt small silent (λ c. text "content") (text "now") r task world
        ≡ (world, done (document_read d)))
upload-load_document_example =
    upload-load_document rt small silent (λ c. text "content") (text "now") postgres open_two
      (λ b. hash) dumps form file (some (text "u1")) world result.0 world response task json
      answered
