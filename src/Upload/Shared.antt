-- ===== src/Upload/Shared.antt =====
-- The id that an upload shares with the row of the user.
use study_helper_backend.Prelude.{
  ℕ, ◌≡◌, ◌⊎◌, refl, false, some, List, is_empty, Bool-cases, inl, inr,
}
use study_helper_backend.Text.{Text}
use study_helper_backend.Outcome.{Failure, Result, ok, err}
use study_helper_backend.Json.{Value}
use study_helper_backend.Runtime.{Runtime}
use study_helper_backend.Config.{Settings}
use study_helper_backend.Pdf.{ParsedDocument}
use study_helper_backend.Pdf.Parse.{Opened, parse_pdf}
use study_helper_backend.UserStore.{SessionRow, UserDb, Server}
use study_helper_backend.UserStore.Create.{SessionCreate, find_session_hash, upsert_session}
use study_helper_backend.UserStore.Upsert.{Reuses, upsert_session-Found}
use study_helper_backend.UserApi.{valid_session}
use study_helper_backend.Generate.Job.{World}
use study_helper_backend.Upload.{
  UploadForm, UploadFile, UploadResponse, read_upload, cloud_session, cloud_save, id_or, stored,
  store_upload, upload_pdf,
}
use study_helper_backend.Upload.Laws.{read_upload-ok}

module _ (rt : Runtime) (st : Settings) (srv : Server) (open_pdf : List ℕ → Opened)
    (sha256 : List ℕ → Text) (json_dumps : Value → Text) where
  -- The cloud has no row from this upload.
  abbrev pub Unsaved : Text → SessionCreate → UserDb → Type 0
  Unsaved user body db =
      (valid_session body ≡ false) ⊎ ((e : Failure) × ((upsert_session srv user body db).1 ≡ err e))

  -- The row of the user and the PDF has the id, and it is the one that was there before, if one was.
  abbrev pub Shares : Text → Text → Text → UserDb → UserDb → Type 0
  Shares user hash id old new =
      (row : SessionRow) × (find_session_hash user (some hash) new.sessions ≡ some row)
      × (row.id ≡ id)
      × Reuses (find_session_hash user (some hash) old.sessions) row

  cloud_save-Shares :
      (user hash id : Text) (body : SessionCreate) (db : UserDb)
      → body.pdf_hash ≡ some hash
      → is_empty hash ≡ false
      → Unsaved user body db
        ⊎ Shares user hash
            (cloud_save rt st srv open_pdf sha256 json_dumps (some user) body id db).1
            db
            (cloud_save rt st srv open_pdf sha256 json_dumps (some user) body id db).0
  unfolding cloud_save
  cloud_save-Shares user hash id body db hashed shown = elim (Bool-cases (valid_session body)) [
    | inr invalid ↦ inl (inl invalid)
    | inl valid ↦ elim (saved (upsert_session srv user body db) refl) [
      | inl failed ↦ inl (inr failed)
      | inr shares ↦ inr (rw valid shares)
    ]
  ]
    where
      saved :
          (r : UserDb × Result SessionRow)
          → upsert_session srv user body db ≡ r
          → ((e : Failure) × (r.1 ≡ err e))
            ⊎ Shares user hash
                (id_or rt st srv open_pdf sha256 json_dumps id r).1
                db
                (id_or rt st srv open_pdf sha256 json_dumps id r).0
      saved (db', err e) h = inl (e, refl)
      saved (db', ok row) h =
          let (found, reuses) = upsert_session-Found srv user body hash hashed shown db db' row h in
          inr (row, rw (← hashed) found, refl, rw (← hashed) reuses)

  -- The body that this upload sends was not saved.
  abbrev pub NotSaved : UploadForm → UploadFile → Text → World → UploadResponse → Type 0
  NotSaved form file user w resp =
      (doc : ParsedDocument) × (parse_pdf rt st open_pdf file.file_bytes ≡ ok doc)
      × Unsaved user
          (cloud_session rt st srv open_pdf sha256 json_dumps form file (rt.uuid4 w.draws)
            resp.pdf_name doc)
          w.users

  -- For a logged-in user, and a hash that is not empty: the session id of an answered upload is the id
  -- of the one row that the user has for this PDF, which is the row of an earlier upload of it, if
  -- there was one, with its id and a final status kept; or else the row could not be saved, because
  -- its fields are out of bounds or the database raised an exception.
  pub upload_pdf-Shares :
      (form : UploadForm) (file : UploadFile) (user : Text) (w w' : World) (resp : UploadResponse)
      → upload_pdf rt st srv open_pdf sha256 json_dumps form file (some user) w ≡ (w', ok resp)
      → is_empty (sha256 file.file_bytes) ≡ false
      → NotSaved form file user w resp
        ⊎ Shares user (sha256 file.file_bytes) resp.session_id w.users w'.users
  unfolding upload_pdf store_upload cloud_session
  upload_pdf-Shares form file user w w' resp h shown =
      go (read_upload rt st srv open_pdf sha256 json_dumps form file) refl h
    where
      go :
          (r : Result (Text × ParsedDocument))
          → read_upload rt st srv open_pdf sha256 json_dumps form file ≡ r
          → stored rt st srv open_pdf sha256 json_dumps form file (some user) w r ≡ (w', ok resp)
          → NotSaved form file user w resp
            ⊎ Shares user (sha256 file.file_bytes) resp.session_id w.users w'.users
      go (err e) q k = absurd (cc k)
      go (ok (name, doc)) q k =
          let id = rt.uuid4 w.draws in
          let body = cloud_session rt st srv open_pdf sha256 json_dumps form file id name doc in
          let out =
            store_upload rt st srv open_pdf sha256 json_dumps form file (some user) name doc w in
          let worlds : out.0 ≡ w' = cc k in
          let answers : out.1 ≡ resp = cc k in
          elim (cloud_save-Shares user (sha256 file.file_bytes) id body w.users refl shown) [
            | inl unsaved ↦ inl (
                rw (← answers) (
                  doc,
                  read_upload-ok rt st srv open_pdf sha256 json_dumps form file name doc q,
                  unsaved,
                ))
            | inr shares ↦ inr (rw (← worlds, ← answers) shares)
          ]
