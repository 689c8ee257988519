-- ===== src/UserStore/Owners/Kept.antt =====
-- What every statement keeps, every method of the store keeps, if it may use that the subject of a
-- new or refreshed session is the user's.
pub mod Bulk
use study_helper_backend.Prelude.{
  ℕ, ◌≡◌, refl, Bool, true, false, Option, none, some, List, [], ◌∷◌, any, length, is_empty,
  Bool-cases, Option-cases, inl, inr, if◌then◌else◌,
}
use study_helper_backend.Text.{Text, text_eq}
use study_helper_backend.UserStore.{RowStatus, SessionRow, UserDb, Server, update_session_status}
use study_helper_backend.UserStore.Query.{Query, ◌>>=◌, ◌>>◌, pure, pool, cast, cast_opt, for_each}
use study_helper_backend.UserStore.Query.Triples.{
  Triple, Keeps, CastTo, >>=-Triple, >>=-Keeps, Triple-weaken, Triple-both, pool-Triple,
  cast_opt-Triple, pool-Keeps, bulk-Keeps, cast-Keeps,
}
use study_helper_backend.UserStore.Subjects.{
  SubjectCreate, find_subject, insert_subject, upsert_subject, create_subject, remove_subject,
  delete_subject, add_subject, add_subjects, sync_subjects,
}
use study_helper_backend.UserStore.Create.{
  SessionCreate, given, has_hash, subject_exists, new_session, check_subject, insert_session,
  insert_or_pass, create_session, insert_or_refresh, upsert_checked, upsert_session, remove_session,
  delete_session, subject_ids, check_subjects, add_session, add_sessions, sync_sessions,
}
use study_helper_backend.UserStore.Listing.{get_sessions}
use study_helper_backend.UserStore.Reviews.{
  ReviewUpsert, find_review, insert_review, upsert_row, upsert_review, add_row, add_reviews,
  sync_reviews,
}
use study_helper_backend.QuestionBank.{Bank}
use study_helper_backend.UserStore.Owners.{IsPostgres, SubjectOf}
use study_helper_backend.UserStore.Owners.Checks.{
  Checked, check_subject-Triple, AllChecked, check_subjects-Triple,
}

pub record Kept (srv : Server) (user : Text) (I : UserDb → Type 0) : Type 1 where
  pub inserts_subject : (s : SubjectCreate) → Keeps I (insert_subject srv user s)
  pub upserts_subject : (s : SubjectCreate) → Keeps I (upsert_subject srv user s)
  pub removes_subject : (id : Text) → Keeps I (remove_subject user id)
  pub inserts_session :
      (id subject : Option Text) (body : SessionCreate)
      → Triple I
          (λ db. SubjectOf db.subjects user subject × I db)
          (insert_session srv user id subject body)
          (λ _. I)
  pub refreshes_session :
      (id subject : Option Text) (body : SessionCreate)
      → Triple I
          (λ db. SubjectOf db.subjects user subject × I db)
          (insert_or_refresh srv user id subject body)
          (λ _. I)
  pub removes_session : (id : Text) → Keeps I (remove_session user id)
  pub sets_status : (id : Text) (s : RowStatus) → Keeps I (update_session_status user id s)
  pub lists_sessions : (bank : Bank) → Keeps I (get_sessions bank user)
  pub inserts_review :
      (session : Text) (body : ReviewUpsert) → Keeps I (insert_review srv user session body)
  pub upserts_review :
      (session : Text) (body : ReviewUpsert) → Keeps I (upsert_row srv user session body)

module _ (srv : Server) (pg : IsPostgres srv) (user : Text) (I : UserDb → Type 0)
    (kept : Kept srv user I) where
  pub create_subject-Keeps : (s : SubjectCreate) → Keeps I (create_subject srv user s)
  unfolding create_subject
  create_subject-Keeps s =
      >>=-Keeps I pool (λ _. upsert_subject srv user s) (pool-Keeps I) (λ _. kept.upserts_subject s)

  pub delete_subject-Keeps : (subject_id : Text) → Keeps I (delete_subject srv user subject_id)
  unfolding delete_subject
  delete_subject-Keeps subject_id =
      >>=-Keeps I pool (λ _. cast (srv.uuid subject_id) >>= remove_subject user) (pool-Keeps I)
        (λ _.
          >>=-Keeps I (cast (srv.uuid subject_id)) (remove_subject user)
            (cast-Keeps I (srv.uuid subject_id)) kept.removes_subject)

  add_subject-Keeps : (s : SubjectCreate) → Keeps I (add_subject srv user s)
  unfolding add_subject
  add_subject-Keeps s db h = elim (Option-cases (find_subject user s.name db.subjects)) [
    | inl missing ↦
        rw (missing, add_subject)
          (>>=-Keeps I (insert_subject srv user s) (λ _. pure tt) (kept.inserts_subject s)
            (λ _ db h. h) db h)
    | inr (r, found) ↦ rw (found, add_subject) h
  ]

  add_subjects-Keeps : (ss : List SubjectCreate) → Keeps I (add_subjects srv user ss)
  unfolding add_subjects for_each
  add_subjects-Keeps [] = λ db h. h
  add_subjects-Keeps (s ∷ ss) =
      >>=-Keeps I (add_subject srv user s) (λ _. add_subjects srv user ss) (add_subject-Keeps s)
        (λ _. add_subjects-Keeps ss)

  pub sync_subjects-Keeps : (ss : List SubjectCreate) → Keeps I (sync_subjects srv user ss)
  unfolding sync_subjects
  sync_subjects-Keeps ss = bulk-Keeps I ss (add_subjects srv user ss) (add_subjects-Keeps ss)

  -- With the check of the subject behind it.
  abbrev Ready : Option Text → UserDb → Type 0
  Ready subject db = Checked srv user subject db × I db

  -- Casts, and then a statement for a session.
  casts-Keeps :
      (id subject : Option Text) (f : Option Text → Option Text → Query SessionRow)
      → ((id' subject' : Option Text)
          → Triple I (λ db. SubjectOf db.subjects user subject' × I db) (f id' subject') (λ _. I))
      → Triple I
          (Ready subject)
          (cast_opt srv id >>= λ id'. cast_opt srv subject >>= λ subject'. f id' subject')
          (λ _. I)
  casts-Keeps id subject f h =
      >>=-Triple I (Ready subject) (cast_opt srv id)
        (λ id'. cast_opt srv subject >>= λ subject'. f id' subject')
        (λ out db. CastTo srv id out × Ready subject db) (λ _. I)
        (cast_opt-Triple srv I (Ready subject) id (λ db (c, p). p))
        (λ id' db (e, ready).
          >>=-Triple I (Ready subject) (cast_opt srv subject) (λ subject'. f id' subject')
            (λ out db. CastTo srv subject out × Ready subject db) (λ _. I)
            (cast_opt-Triple srv I (Ready subject) subject (λ db (c, p). p))
            (λ subject' db (to, (c, p)). h id' subject' db (c subject' to, p)) db ready)

  checked-Keeps :
      (subject : Option Text) (m : Query SessionRow)
      → Triple I (Ready subject) m (λ _. I)
      → Keeps I (pool >> (check_subject srv user subject >> m))
  checked-Keeps subject m h =
      >>=-Keeps I pool (λ _. check_subject srv user subject >> m) (pool-Keeps I)
        (λ _.
          >>=-Triple I I (check_subject srv user subject) (λ _. m) (λ _. Ready subject) (λ _. I)
            (check_subject-Triple srv pg user I I subject (λ db p. p)) (λ _. h))

  pub create_session-Keeps : (body : SessionCreate) → Keeps I (create_session srv user body)
  unfolding create_session
  create_session-Keeps body =
      checked-Keeps body.subject_id
        (cast_opt srv (given body.id) >>= λ id.
          cast_opt srv body.subject_id >>= λ subject. insert_session srv user id subject body)
        (casts-Keeps (given body.id) body.subject_id
          (λ id subject. insert_session srv user id subject body)
          (λ id subject. kept.inserts_session id subject body))

  upsert_checked-Keeps :
      (body : SessionCreate)
      → Triple I (Ready body.subject_id) (upsert_checked srv user body) (λ _. I)
  unfolding upsert_checked
  upsert_checked-Keeps body db (c, p) = elim (Option-cases (given body.pdf_hash)) [
    | inl missing ↦ rw (missing, upsert_checked) (create_session-Keeps body db p)
    | inr (hash, found) ↦
        rw (found, upsert_checked)
          (casts-Keeps (given body.id) body.subject_id
            (λ id subject. insert_or_refresh srv user id subject body)
            (λ id subject. kept.refreshes_session id subject body) db (c, p))
  ]

  pub upsert_session-Keeps : (body : SessionCreate) → Keeps I (upsert_session srv user body)
  unfolding upsert_session
  upsert_session-Keeps body =
      checked-Keeps body.subject_id (upsert_checked srv user body) (upsert_checked-Keeps body)

  pub delete_session-Keeps : (session_id : Text) → Keeps I (delete_session srv user session_id)
  unfolding delete_session
  delete_session-Keeps session_id =
      >>=-Keeps I pool (λ _. cast (srv.uuid session_id) >>= remove_session user) (pool-Keeps I)
        (λ _.
          >>=-Keeps I (cast (srv.uuid session_id)) (remove_session user)
            (cast-Keeps I (srv.uuid session_id)) kept.removes_session)
