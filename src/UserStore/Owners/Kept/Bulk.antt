-- ===== src/UserStore/Owners/Kept/Bulk.antt =====
-- The bulk uploads of sessions and reviews, and the reviews.
use study_helper_backend.Prelude.{
  Option, none, List, [], ◌∷◌, any, Bool-cases, Option-cases, inl, inr,
}
use study_helper_backend.Text.{Text, text_eq}
use study_helper_backend.UserStore.{SessionRow, UserDb, Server}
use study_helper_backend.UserStore.Query.{◌>>=◌, ◌>>◌, pure, pool, cast, cast_opt, for_each}
use study_helper_backend.UserStore.Query.Triples.{
  Triple, Keeps, CastTo, >>=-Triple, >>=-Keeps, Triple-both, cast_opt-Triple, pool-Keeps,
  bulk-Keeps, cast-Keeps,
}
use study_helper_backend.UserStore.Create.{
  SessionCreate, has_hash, subject_exists, new_session, insert_session, insert_or_pass, subject_ids,
  check_subjects, add_session, add_sessions, sync_sessions,
}
use study_helper_backend.UserStore.Reviews.{
  ReviewUpsert, find_review, insert_review, upsert_row, upsert_review, add_row, add_review,
  add_reviews, sync_reviews,
}
use study_helper_backend.UserStore.Owners.{IsPostgres, SubjectOf}
use study_helper_backend.UserStore.Owners.Checks.{AllChecked, check_subjects-Triple}
use study_helper_backend.UserStore.Owners.Kept.{Kept}

module _ (srv : Server) (pg : IsPostgres srv) (user : Text) (I : UserDb → Type 0)
    (kept : Kept srv user I) where
  -- An insertion of a session changes no subject.
  insert_session-AllChecked :
      (ss : List SessionCreate) (id subject : Option Text) (body : SessionCreate)
      → Triple
          (λ _. Unit)
          (AllChecked srv pg user ss)
          (insert_session srv user id subject body)
          (λ _. AllChecked srv pg user ss)
  unfolding insert_session
  insert_session-AllChecked ss id subject body db h =
      let r = new_session srv user id subject body db in
      elim (Bool-cases (any (λ (q : SessionRow). text_eq q.id r.id) db.sessions)) [
        | inl taken ↦ rw taken tt
        | inr fresh ↦ elim (Bool-cases (any (has_hash user body.pdf_hash) db.sessions)) [
          | inl known ↦ rw (fresh, known) tt
          | inr new ↦ elim (Bool-cases (subject_exists subject db)) [
            | inl there ↦ rw (fresh, new, there) h
            | inr missing ↦ rw (fresh, new, missing) tt
          ]
        ]
      ]

  abbrev Rest : List SessionCreate → UserDb → Type 0
  Rest ss db = AllChecked srv pg user ss db × I db

  insert_or_pass-Keeps :
      (s : SessionCreate) (ss : List SessionCreate) (subject : Option Text)
      → Triple I
          (λ db. SubjectOf db.subjects user subject × Rest ss db)
          (insert_or_pass srv user s subject)
          (λ _. Rest ss)
  unfolding insert_or_pass
  insert_or_pass-Keeps s ss subject db (own, (cs, p)) =
      elim (Bool-cases (any (has_hash user s.pdf_hash) db.sessions)) [
        | inl known ↦ rw known (cs, p)
        | inr new ↦ rw new (
            >>=-Triple I
              (λ db. AllChecked srv pg user ss db × (SubjectOf db.subjects user subject × I db))
              (insert_session srv user none subject s) (λ _. pure tt) (λ _. Rest ss) (λ _. Rest ss)
              (Triple-both I (λ db. SubjectOf db.subjects user subject × I db)
                (AllChecked srv pg user ss) (insert_session srv user none subject s) (λ _. I)
                (λ _. AllChecked srv pg user ss) (kept.inserts_session none subject s)
                (insert_session-AllChecked ss none subject s))
              (λ _ db h. h) db (cs, (own, p)))
      ]

  add_session-Keeps :
      (s : SessionCreate) (ss : List SessionCreate)
      → Triple I (Rest (s ∷ ss)) (add_session srv user s) (λ _. Rest ss)
  unfolding add_session
  add_session-Keeps s ss =
      >>=-Triple I (Rest (s ∷ ss)) (cast_opt srv s.subject_id) (insert_or_pass srv user s)
        (λ out db. CastTo srv s.subject_id out × Rest (s ∷ ss) db) (λ _. Rest ss)
        (cast_opt-Triple srv I (Rest (s ∷ ss)) s.subject_id (λ db (c, p). p))
        (λ subject db (to, ((c, cs), p)).
          insert_or_pass-Keeps s ss subject db (c subject to, (cs, p)))

  add_sessions-Keeps :
      (ss : List SessionCreate) → Triple I (Rest ss) (add_sessions srv user ss) (λ _. I)
  unfolding add_sessions for_each
  add_sessions-Keeps [] = λ db (c, p). p
  add_sessions-Keeps (s ∷ ss) =
      >>=-Triple I (Rest (s ∷ ss)) (add_session srv user s) (λ _. add_sessions srv user ss)
        (λ _. Rest ss) (λ _. I) (add_session-Keeps s ss) (λ _. add_sessions-Keeps ss)

  pub sync_sessions-Keeps : (ss : List SessionCreate) → Keeps I (sync_sessions srv user ss)
  unfolding sync_sessions
  sync_sessions-Keeps ss =
      let check = check_subjects srv user (subject_ids ss) in
      bulk-Keeps I ss (check >> add_sessions srv user ss) (
        >>=-Triple I I check (λ _. add_sessions srv user ss) (λ _. Rest ss) (λ _. I)
          (check_subjects-Triple srv pg user I I ss (λ db p. p)) (λ _. add_sessions-Keeps ss))

  pub upsert_review-Keeps : (body : ReviewUpsert) → Keeps I (upsert_review srv user body)
  unfolding upsert_review
  upsert_review-Keeps body =
      >>=-Keeps I pool
        (λ _. cast (srv.uuid body.session_id) >>= λ session. upsert_row srv user session body)
        (pool-Keeps I)
        (λ _.
          >>=-Keeps I (cast (srv.uuid body.session_id))
            (λ session. upsert_row srv user session body) (cast-Keeps I (srv.uuid body.session_id))
            (λ session. kept.upserts_review session body))

  add_row-Keeps : (session : Text) (body : ReviewUpsert) → Keeps I (add_row srv user session body)
  unfolding add_row
  add_row-Keeps session body db h =
      elim (Option-cases (find_review user session body.question_id db.reviews)) [
        | inl missing ↦
            rw (missing, add_row)
              (>>=-Keeps I (insert_review srv user session body) (λ _. pure tt)
                (kept.inserts_review session body) (λ _ db h. h) db h)
        | inr (r, found) ↦ rw (found, add_row) h
      ]

  add_review-Keeps : (r : ReviewUpsert) → Keeps I (add_review srv user r)
  unfolding add_review
  add_review-Keeps r =
      >>=-Keeps I (cast (srv.uuid r.session_id)) (λ session. add_row srv user session r)
        (cast-Keeps I (srv.uuid r.session_id)) (λ session. add_row-Keeps session r)

  add_reviews-Keeps : (rs : List ReviewUpsert) → Keeps I (add_reviews srv user rs)
  unfolding add_reviews for_each
  add_reviews-Keeps [] = λ db h. h
  add_reviews-Keeps (r ∷ rs) =
      >>=-Keeps I (add_review srv user r) (λ _. add_reviews srv user rs) (add_review-Keeps r)
        (λ _. add_reviews-Keeps rs)

  pub sync_reviews-Keeps : (rs : List ReviewUpsert) → Keeps I (sync_reviews srv user rs)
  unfolding sync_reviews
  sync_reviews-Keeps rs = bulk-Keeps I rs (add_reviews srv user rs) (add_reviews-Keeps rs)
