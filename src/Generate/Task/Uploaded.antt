-- ===== src/Generate/Task/Uploaded.antt =====
-- What the task reads of an upload.
use study_helper_backend.Prelude.{
  ℕ, ◌≡◌, refl, ap, ◌∙◌, false, Option, none, some, List, [], ◌∷◌, map, max, length, is_empty,
  arith,
}
use study_helper_backend.Text.{Text, text, text_eq}
use study_helper_backend.Outcome.{ok}
use study_helper_backend.Json.{Value, get, get_or, truthy, to_list, from_list}
use study_helper_backend.Runtime.{Runtime}
use study_helper_backend.Config.{Settings}
use study_helper_backend.Schema.{StudyContent}
use study_helper_backend.Pdf.{ParsedSection, ParsedDocument}
use study_helper_backend.Pdf.Parse.{Opened, parse_pdf}
use study_helper_backend.Pdf.Parse.Shown.{parse_pdf-shown}
use study_helper_backend.Sessions.{SessionRecord}
use study_helper_backend.Sessions as Sessions
use study_helper_backend.UserStore.{Server}
use study_helper_backend.Upload.{
  UploadForm, UploadFile, UploadResponse, section_value, document_value, record_of, upload_pdf,
}
use study_helper_backend.Upload.Laws.{upload_pdf-Uploaded}
use study_helper_backend.Generate.Job.{World, done, ◌>>=◌}
use study_helper_backend.Generate.Stages.{Services}
use study_helper_backend.Generate.Task.{
  Task, Document, or_braces, raising, load_document, document_of, read_document, text_document,
}

-- What `json` documents of the value of a document that it writes, and of the empty text.
pub record IsJson (loads : Text → Option Value) (dumps : Value → Text) (d : ParsedDocument)
    : Type 0 where
  pub reads : loads (dumps (document_value d)) ≡ some (document_value d)
  pub nothing : loads [] ≡ none

abbrev pub document_read : ParsedDocument → Document
document_read d = record { full_text = d.full_text; section_count = max 1 (length d.sections) }

length-from_list : (vs : List Value) → length (to_list (from_list vs)) ≡ length vs
length-from_list [] = refl
length-from_list (v ∷ vs) = omega (arith, length-from_list vs)

length-section_values : (ss : List ParsedSection) → length (map section_value ss) ≡ length ss
length-section_values [] = refl
length-section_values (s ∷ ss) = omega (arith, length-section_values ss)

dumps-some :
    (loads : Text → Option Value) (dumps : Value → Text) (d : ParsedDocument)
    → IsJson loads dumps d
    → is_empty (dumps (document_value d)) ≡ false
dumps-some loads dumps d json = go (dumps (document_value d)) json.reads
  where
    go : (t : Text) → loads t ≡ some (document_value d) → is_empty t ≡ false
    go [] h = absurd (cc (h, json.nothing))
    go (c ∷ t) h = refl

module _ (rt : Runtime) (settings : Settings) (services : Services)
    (dump_content : StudyContent → Text) (generated_at : Text) where
  load_document-reads :
      (json_dumps : Value → Text) (r : SessionRecord) (task : Task) (d : ParsedDocument) (w : World)
      → IsJson rt.loads json_dumps d
      → r.result_json ≡ some (json_dumps (document_value d))
      → is_empty d.full_text ≡ false
      → load_document rt settings services dump_content generated_at r task w
        ≡ (w, done (document_read d))
  unfolding load_document read_document raising document_of text_document document_value get_or get
      text_eq text truthy ◌>>=◌
  load_document-reads json_dumps r task d w json kept shown =
      let sections : length (to_list (from_list (map section_value d.sections)))
          ≡ length d.sections =
        length-from_list (map section_value d.sections) ∙ length-section_values d.sections in
      let parsed : rt.loads (or_braces r.result_json) ≡ some (document_value d) =
        rw (kept, dumps-some rt.loads json_dumps d json) json.reads in
      rw (parsed, load_document, shown)
        (ap (λ n. (w, done (record { full_text = d.full_text; section_count = max 1 n }))) sections)

  -- The text and the number of sections that an upload was parsed to are what the background task
  -- reads back from its session, if `json` reads what it wrote of this document and nothing from an
  -- empty text.
  pub upload-load_document :
      (srv : Server) (open_pdf : List ℕ → Opened) (sha256 : List ℕ → Text)
      (json_dumps : Value → Text) (form : UploadForm) (file : UploadFile) (user : Option Text)
      (w w' later : World) (resp : UploadResponse) (task : Task)
      → ((d : ParsedDocument)
          → parse_pdf rt settings open_pdf file.file_bytes ≡ ok d
          → IsJson rt.loads json_dumps d)
      → upload_pdf rt settings srv open_pdf sha256 json_dumps form file user w ≡ (w', ok resp)
      → (d : ParsedDocument) × (r : SessionRecord) × (parse_pdf rt settings open_pdf file.file_bytes
          ≡ ok d)
        × (Sessions.get w'.sessions resp.session_id ≡ some r)
        × (load_document rt settings services dump_content generated_at r task later
            ≡ (later, done (document_read d)))
  unfolding record_of
  upload-load_document srv open_pdf sha256 json_dumps form file user w w' later resp task json h =
      let u =
        upload_pdf-Uploaded rt settings srv open_pdf sha256 json_dumps form file user w w' resp h in
      (
        u.doc,
        record_of rt settings srv open_pdf sha256 json_dumps user file resp.session_id resp.pdf_name
            u.doc,
        u.parsed,
        u.kept,
        load_document-reads json_dumps _ task u.doc later (json u.doc u.parsed) refl
            (parse_pdf-shown rt settings open_pdf file.file_bytes u.doc u.parsed),
      )
