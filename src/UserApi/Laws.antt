-- ===== src/UserApi/Laws.antt =====
-- `POST /user/sync`, twice.
use study_helper_backend.Prelude.{
  ◌≡◌, refl, sym, subst, ◌∙◌, true, List, All, any, Option, length, Bool-cases, inl, inr,
}
use study_helper_backend.Text.{Text}
use study_helper_backend.Outcome.{ok}
use study_helper_backend.UserStore.{SessionRow, UserDb, Server}
use study_helper_backend.UserStore.Query.Loops.{Gives, >>=-Gives, >>=-same, Open}
use study_helper_backend.UserStore.Query.Triples.{CastTo}
use study_helper_backend.UserStore.Subjects.{
  SubjectCreate, find_subject, add_subjects, sync_subjects,
}
use study_helper_backend.UserStore.Create.{SessionCreate, has_hash, sync_sessions}
use study_helper_backend.UserStore.Reviews.{add_reviews, sync_reviews}
use study_helper_backend.UserStore.Again.Subjects.{
  is_some, AllSubjects, sync_subjects-Gives, sync_subjects-again,
}
use study_helper_backend.UserStore.Again.Sessions.{
  body, HasSession, SessionsDone, Hashed, sync_sessions-Gives, sync_sessions-again,
}
use study_helper_backend.UserStore.Again.Reviews.{
  ReviewsDone, sync_reviews-Gives, sync_reviews-again,
}
use study_helper_backend.UserApi.{SyncPayload, SyncResponse, valid_payload, sync_valid, sync}

module _ (srv : Server) (user : Text) (p : SyncPayload) where
  abbrev counts : SyncResponse
  counts = record {
    subjects_synced = length p.subjects;
    sessions_synced = length p.sessions;
    reviews_synced = length p.review_schedule;
  }

  abbrev Synced : SyncResponse → UserDb → Type 0
  Synced resp db =
      (resp ≡ counts) × (All Hashed p.sessions → sync_valid srv user p db ≡ (db, ok counts))

  all_subjects :
      (a b : UserDb)
      → b.subjects ≡ a.subjects
      → AllSubjects srv user p.subjects a
      → AllSubjects srv user p.subjects b
  all_subjects a b e h =
      subst
        (λ rows.
          All (λ (s : SubjectCreate). is_some (find_subject user s.name rows) ≡ true) p.subjects)
        (sym e) h

  abbrev HasSessions : List SessionRow → Type 0
  HasSessions rows =
      All
        (λ (s : SessionCreate).
          is_some s.pdf_hash ≡ true
          → ((out : Option Text) × CastTo srv s.subject_id out)
            × (any (has_hash user s.pdf_hash) rows ≡ true))
        p.sessions

  all_sessions :
      (a b : UserDb)
      → b.sessions ≡ a.sessions
      → All (λ s. HasSession srv user s a) p.sessions
      → All (λ s. HasSession srv user s b) p.sessions
  all_sessions a b e h = subst HasSessions (sym e) h

  -- What the three runs leave is there for a second one.
  sync_valid-again :
      (db1 db2 db3 : UserDb)
      → Open p.subjects (add_subjects srv user p.subjects) db1 × AllSubjects srv user p.subjects db1
      → Open p.sessions (body srv user p.sessions) db2 × SessionsDone srv user p.sessions db1 db2
      → Open p.review_schedule (add_reviews srv user p.review_schedule) db3
        × ReviewsDone srv user p.review_schedule db2 db3
      → All Hashed p.sessions
      → sync_valid srv user p db3 ≡ (db3, ok counts)
  unfolding sync_valid
  sync_valid-again db1 db2 db3 (up1, all1) (up2, (pool2, subjects2, all2, check2))
        (up3, (pool3, subjects3, sessions3, all3)) hashed =
      >>=-same (sync_subjects srv user p.subjects) _ db3 (length p.subjects) (
        sync_subjects-again srv user p.subjects db3 (λ e. (pool3 ∙ pool2) ∙ up1 e)
          (all_subjects db1 db3 (subjects3 ∙ subjects2) all1))
      ∙ >>=-same (sync_sessions srv user p.sessions) _ db3 (length p.sessions) (
          sync_sessions-again srv user p.sessions db3 (λ e. pool3 ∙ up2 e)
            (all_sessions db2 db3 sessions3 all2) (check2 db3 subjects3) hashed)
      ∙ >>=-same (sync_reviews srv user p.review_schedule) _ db3 (length p.review_schedule)
          (sync_reviews-again srv user p.review_schedule db3 up3 all3)

  sync_valid-Gives : (db : UserDb) → Gives Synced (sync_valid srv user p db)
  unfolding sync_valid
  sync_valid-Gives db =
      >>=-Gives (sync_subjects srv user p.subjects) _ db
        (λ n db1.
          (n ≡ length p.subjects)
          × (Open p.subjects (add_subjects srv user p.subjects) db1
              × AllSubjects srv user p.subjects db1))
        Synced (sync_subjects-Gives srv user p.subjects db)
        (λ a db1 (na, done1).
          >>=-Gives (sync_sessions srv user p.sessions) _ db1
            (λ n db2.
              (n ≡ length p.sessions)
              × (Open p.sessions (body srv user p.sessions) db2
                  × SessionsDone srv user p.sessions db1 db2))
            Synced (sync_sessions-Gives srv user p.sessions db1)
            (λ b db2 (nb, done2).
              >>=-Gives (sync_reviews srv user p.review_schedule) _ db2
                (λ n db3.
                  (n ≡ length p.review_schedule)
                  × (Open p.review_schedule (add_reviews srv user p.review_schedule) db3
                      × ReviewsDone srv user p.review_schedule db2 db3))
                Synced (sync_reviews-Gives srv user p.review_schedule db2)
                (λ c db3 (nc, done3).
                  (rw (na, nb, nc) refl, sync_valid-again db1 db2 db3 done1 done2 done3))))

  -- A bulk upload that succeeded, of sessions that have a hash, can be sent again: it gives the same
  -- answer, the numbers of what was sent, and leaves the database exactly as it is.
  pub sync_idempotent :
      (db db' : UserDb) (resp : SyncResponse)
      → sync srv user p db ≡ (db', ok resp)
      → All Hashed p.sessions
      → sync srv user p db' ≡ (db', ok resp)
  unfolding sync
  sync_idempotent db db' resp h hashed = elim (Bool-cases (valid_payload p)) [
    | inr invalid ↦ absurd (cc (rw (invalid, sync) at h))
    | inl valid ↦
        let (same, again) : Synced resp db' =
          subst (λ r. Gives Synced r) (rw (valid, sync) at h) (sync_valid-Gives db) in
        rw (valid, sync) (again hashed ∙ rw same refl)
  ]
