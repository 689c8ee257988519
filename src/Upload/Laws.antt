-- ===== src/Upload/Laws.antt =====
-- What an upload leaves in the stores, and what it refuses.
use study_helper_backend.Prelude.{
  ℕ, ◌≡◌, ◌≢◌, ◌⊎◌, refl, ap, ◌∙◌, Bool, true, false, not, Option, some, List, is_empty, inl, inr,
}
use study_helper_backend.Text.{Text, text_eq}
use study_helper_backend.Text.Laws.{text_eq_refl}
use study_helper_backend.Outcome.{
  Result, ok, err, ◌>>=◌, >>=-eq-ok, pdf_parse_error, http_exception, crash, validation_error,
  generation_error,
}
use study_helper_backend.Json.{Value}
use study_helper_backend.Runtime.{Runtime}
use study_helper_backend.Config.{Settings}
use study_helper_backend.Pdf.{ParsedDocument}
use study_helper_backend.Pdf.Parse.{Opened, parse_pdf}
use study_helper_backend.Pdf.Parse.Laws.{Accepted, Refused, Broken, parse_pdf-total}
use study_helper_backend.Sessions.{get, save}
use study_helper_backend.Sessions.Laws.{get-put}
use study_helper_backend.UserStore.{Server}
use study_helper_backend.Generate.Job.{World}
use study_helper_backend.Upload.{
  UploadForm, UploadFile, UploadResponse, require, as_http, read_upload, cloud_save, record_of,
  stored, store_upload, upload_pdf, key_missing, is_pdf_name, wrong_type,
}

module _ (rt : Runtime) (st : Settings) (srv : Server) (open_pdf : List ℕ → Opened)
    (sha256 : List ℕ → Text) (json_dumps : Value → Text) where
  as_http-ok : {A : Type 0} (r : Result A) (a : A) → as_http r ≡ ok a → r ≡ ok a
  as_http-ok (ok b) a h = h
  as_http-ok (err (pdf_parse_error c m)) a h = absurd (cc h)
  as_http-ok (err (generation_error c m)) a h = absurd (cc h)
  as_http-ok (err (validation_error m)) a h = absurd (cc h)
  as_http-ok (err (http_exception c m)) a h = absurd (cc h)
  as_http-ok (err (crash c)) a h = absurd (cc h)

  pub read_upload-ok :
      (form : UploadForm) (file : UploadFile) (name : Text) (doc : ParsedDocument)
      → read_upload rt st srv open_pdf sha256 json_dumps form file ≡ ok (name, doc)
      → parse_pdf rt st open_pdf file.file_bytes ≡ ok doc
  unfolding read_upload
  read_upload-ok form file name doc h =
      let (_, e1, r1) = >>=-eq-ok (require (not (key_missing form)) _) _ h in
      let (_, e2, r2) =
        >>=-eq-ok (require (is_pdf_name rt st srv open_pdf sha256 json_dumps _) _) _ r1 in
      let (_, e3, r3) = >>=-eq-ok (require (not (wrong_type file.content_type)) _) _ r2 in
      let (_, e4, r4) = >>=-eq-ok (require (not (is_empty file.file_bytes)) _) _ r3 in
      let (d, e5, r5) = >>=-eq-ok (as_http (parse_pdf rt st open_pdf file.file_bytes)) _ r4 in
      let same : d ≡ doc = cc r5 in
      as_http-ok (parse_pdf rt st open_pdf file.file_bytes) doc (e5 ∙ ap ok same)

  -- What an upload that is answered has left.
  pub record Uploaded (form : UploadForm) (file : UploadFile) (user : Option Text) (w w' : World)
      (resp : UploadResponse) : Type 0 where
    pub doc : ParsedDocument
    pub parsed : parse_pdf rt st open_pdf file.file_bytes ≡ ok doc
    pub kept :
        get w'.sessions resp.session_id
        ≡ some (
            record_of rt st srv open_pdf sha256 json_dumps user file resp.session_id resp.pdf_name
              doc)
    pub others :
        (id : Text) → text_eq resp.session_id id ≡ false → get w'.sessions id ≡ get w.sessions id

  stored-Uploaded :
      (form : UploadForm) (file : UploadFile) (user : Option Text) (name : Text)
      (doc : ParsedDocument) (w : World)
      → parse_pdf rt st open_pdf file.file_bytes ≡ ok doc
      → Uploaded form file user w
          (store_upload rt st srv open_pdf sha256 json_dumps form file user name doc w).0
          (store_upload rt st srv open_pdf sha256 json_dumps form file user name doc w).1
  unfolding store_upload save record_of
  stored-Uploaded form file user name doc w p =
      let id =
        (cloud_save rt st srv open_pdf sha256 json_dumps user _ (rt.uuid4 w.draws) w.users).1 in
      record {
        doc = doc;
        parsed = p;
        kept = get-put w.sessions id id _ ∙ rw (text_eq_refl id) refl;
        others = λ j other. get-put w.sessions id j _ ∙ rw other refl;
      }

  -- An upload that is answered was parsed: its session is in the store, under the id and the name of
  -- the answer and with the counts, the hash and the text of the document, and every other session is
  -- as it was.
  pub upload_pdf-Uploaded :
      (form : UploadForm) (file : UploadFile) (user : Option Text) (w w' : World)
      (resp : UploadResponse)
      → upload_pdf rt st srv open_pdf sha256 json_dumps form file user w ≡ (w', ok resp)
      → Uploaded form file user w w' resp
  unfolding upload_pdf
  upload_pdf-Uploaded form file user w w' resp h =
      go (read_upload rt st srv open_pdf sha256 json_dumps form file) refl h
    where
      go :
          (r : Result (Text × ParsedDocument))
          → read_upload rt st srv open_pdf sha256 json_dumps form file ≡ r
          → stored rt st srv open_pdf sha256 json_dumps form file user w r ≡ (w', ok resp)
          → Uploaded form file user w w' resp
      go (err e) q k = absurd (cc k)
      go (ok (name, doc)) q k =
          let out = store_upload rt st srv open_pdf sha256 json_dumps form file user name doc w in
          let worlds : out.0 ≡ w' = cc k in
          let answers : out.1 ≡ resp = cc k in
          rw (← worlds, ← answers)
            (stored-Uploaded form file user name doc w (read_upload-ok form file name doc q))

  -- A refusal of the request: an answer of HTTP with one of three statuses.
  abbrev pub Rejected : {A : Type 0} → Result A → Type 0
  Rejected r =
      (code : ℕ) × (message : Text) × (r ≡ err (http_exception code message))
      × ((code ≡ 413) ⊎ ((code ≡ 400) ⊎ (code ≡ 422)))

  abbrev Decided : {A : Type 0} → List ℕ → Result A → Type 0
  Decided {A} bytes r = ((a : A) × (r ≡ ok a)) ⊎ (Rejected r ⊎ Broken rt st (open_pdf bytes) r)

  require-Decided :
      {A : Type 0} (bytes : List ℕ) (b : Bool) (message : Text) (next : Unit {0} → Result A)
      → Decided bytes (next tt)
      → Decided bytes (require b message >>= next)
  require-Decided bytes true message next h = h
  require-Decided bytes false message next h = inr (inl (400, message, refl, inr (inl refl)))

  as_http-Decided :
      (bytes : List ℕ) (r : Result ParsedDocument)
      → Accepted rt st open_pdf bytes r ⊎ (Refused rt st r ⊎ Broken rt st (open_pdf bytes) r)
      → Decided bytes (as_http r)
  as_http-Decided bytes r (inl (pages, read, d, e, parsed, rest)) = inl (d, rw e refl)
  as_http-Decided bytes r (inr (inl (code, message, e, known))) =
      inr (inl (code, message, rw e refl, known))
  as_http-Decided bytes r (inr (inr (e, which))) = inr (inr (rw e refl, which))

  then-Decided :
      {A B : Type 0} (bytes : List ℕ) (r : Result A) (f : A → B)
      → Decided bytes r
      → Decided bytes (r >>= λ a. ok (f a))
  then-Decided bytes r f (inl (a, e)) = inl (f a, rw e refl)
  then-Decided bytes r f (inr (inl (code, message, e, known))) =
      inr (inl (code, message, rw e refl, known))
  then-Decided bytes r f (inr (inr (e, which))) = inr (inr (rw e refl, which))

  read_upload-Decided :
      (form : UploadForm) (file : UploadFile)
      → st.chunk_token_size ≢ 0
      → Decided file.file_bytes (read_upload rt st srv open_pdf sha256 json_dumps form file)
  unfolding read_upload
  read_upload-Decided form file positive =
      require-Decided file.file_bytes (not (key_missing form)) _ _ (
        require-Decided file.file_bytes (is_pdf_name rt st srv open_pdf sha256 json_dumps _) _ _ (
          require-Decided file.file_bytes (not (wrong_type file.content_type)) _ _ (
            require-Decided file.file_bytes (not (is_empty file.file_bytes)) _ _ (
              then-Decided file.file_bytes (as_http (parse_pdf rt st open_pdf file.file_bytes)) _ (
                as_http-Decided file.file_bytes (parse_pdf rt st open_pdf file.file_bytes)
                  (parse_pdf-total rt st open_pdf file.file_bytes positive))))))

  -- For a chunk size that is not 0, an upload is answered, or it changes nothing, whatever the database
  -- does, and ends in one of two: it is refused with the status 400, 413 or 422, or an exception of
  -- the library leaves it, and then the PDF opens, but the list of its pages or one of its pages up to
  -- the limit cannot be read.
  pub upload_pdf-total :
      (form : UploadForm) (file : UploadFile) (user : Option Text) (w : World)
      → st.chunk_token_size ≢ 0
      → ((w' : World) × (resp : UploadResponse) × (upload_pdf rt st srv open_pdf sha256 json_dumps
              form file user w
            ≡ (w', ok resp)))
        ⊎ (((upload_pdf rt st srv open_pdf sha256 json_dumps form file user w).0 ≡ w)
            × (Rejected (upload_pdf rt st srv open_pdf sha256 json_dumps form file user w).1
                ⊎ Broken rt st
                    (open_pdf file.file_bytes)
                    (upload_pdf rt st srv open_pdf sha256 json_dumps form file user w).1))
  unfolding upload_pdf
  upload_pdf-total form file user w positive = elim (read_upload-Decided form file positive) [
    | inl ((name, doc), e) ↦
        let out = store_upload rt st srv open_pdf sha256 json_dumps form file user name doc w in
        inl (out.0, out.1, rw e refl)
    | inr (inl (code, message, e, known)) ↦ inr (rw e refl, inl (code, message, rw e refl, known))
    | inr (inr (e, which)) ↦ inr (rw e refl, inr (rw e refl, which))
  ]
