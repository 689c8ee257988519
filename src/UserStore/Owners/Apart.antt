-- ===== src/UserStore/Owners/Apart.antt =====
-- The statements of one user keep the rows of another.
use study_helper_backend.Prelude.{
  ◌≡◌, ◌∙◌, false, not, ◌&&◌, Option, any, arith, Bool-cases, Option-cases, inl, inr,
}
use study_helper_backend.Text.{Text, text_eq}
use study_helper_backend.UserStore.{SubjectRow, SessionRow, UserDb, Server, is_row}
use study_helper_backend.UserStore.Query.Triples.{Keeps}
use study_helper_backend.UserStore.Subjects.{
  SubjectCreate, new_subject, owns, find_subject, insert_subject, upsert_subject, in_use,
  remove_subject,
}
use study_helper_backend.UserStore.Create.{
  SessionCreate, has_hash, subject_exists, new_session, insert_session, find_session_hash,
  insert_or_refresh, remove_session,
}
use study_helper_backend.UserStore.Owners.{sessions_of, subjects_of}
use study_helper_backend.UserStore.Owners.Isolation.{
  filter-snoc, filter-filter, not_other, recolor-apart, set_status-apart, refresh_all-apart,
  heal-apart,
}
use study_helper_backend.UserStore.Owners.Kept.{Kept}
use study_helper_backend.UserStore.Owners.Statements.{
  set_status-Keeps, get_sessions-Keeps, insert_review-Keeps, upsert_row-Keeps,
}

-- The rows of a user are those that they were.
abbrev pub Same : Text → UserDb → UserDb → Type 0
Same other old db =
    (sessions_of other db ≡ sessions_of other old) × (subjects_of other db ≡ subjects_of other old)

module _ (srv : Server) (user other : Text) (apart : text_eq user other ≡ false)
    (old : UserDb) where
  abbrev I : UserDb → Type 0
  I = Same other old

  inserts_subject : (s : SubjectCreate) → Keeps I (insert_subject srv user s)
  unfolding insert_subject
  inserts_subject s db (h, k) =
      let r = new_subject srv user s db in
      elim (Bool-cases (any (λ (q : SubjectRow). text_eq q.id r.id) db.subjects)) [
        | inl taken ↦ rw taken (h, k)
        | inr fresh ↦
            rw fresh
              (h, filter-snoc (λ (q : SubjectRow). text_eq q.user_id other) db.subjects r apart ∙ k)
      ]

  upserts_subject : (s : SubjectCreate) → Keeps I (upsert_subject srv user s)
  unfolding upsert_subject
  upserts_subject s db (h, k) = elim (Option-cases (find_subject user s.name db.subjects)) [
    | inl missing ↦ rw (missing, upsert_subject) (inserts_subject s db (h, k))
    | inr (r, found) ↦
        rw (found, upsert_subject)
          (h, recolor-apart user other apart s.name s.color db.subjects ∙ k)
  ]

  removes_subject : (id : Text) → Keeps I (remove_subject user id)
  unfolding remove_subject
  removes_subject id db (h, k) = elim (Bool-cases (owns user id db.subjects)) [
    | inl own ↦ elim (Bool-cases (any (in_use id) db.sessions)) [
      | inl used ↦ rw (own, used) (h, k)
      | inr unused ↦
          rw (own, unused)
            (
              h,
              filter-filter (λ (q : SubjectRow). text_eq q.user_id other)
                    (λ (r : SubjectRow). not (text_eq r.id id && text_eq r.user_id user))
                    db.subjects (λ r e. ground (arith, not_other user other apart r.user_id, e))
                  ∙ k,
            )
    ]
    | inr missing ↦ rw missing (h, k)
  ]

  inserts_session :
      (id subject : Option Text) (body : SessionCreate)
      → Keeps I (insert_session srv user id subject body)
  unfolding insert_session
  inserts_session id subject body db (h, k) =
      let r = new_session srv user id subject body db in
      elim (Bool-cases (any (λ (q : SessionRow). text_eq q.id r.id) db.sessions)) [
        | inl taken ↦ rw taken (h, k)
        | inr fresh ↦ elim (Bool-cases (any (has_hash user body.pdf_hash) db.sessions)) [
          | inl known ↦ rw (fresh, known) (h, k)
          | inr new ↦ elim (Bool-cases (subject_exists subject db)) [
            | inl there ↦
                rw (fresh, new, there)
                  (
                    filter-snoc (λ (q : SessionRow). text_eq q.user_id other) db.sessions r apart
                        ∙ h,
                    k,
                  )
            | inr missing ↦ rw (fresh, new, missing) (h, k)
          ]
        ]
      ]

  refreshes_session :
      (id subject : Option Text) (body : SessionCreate)
      → Keeps I (insert_or_refresh srv user id subject body)
  unfolding insert_or_refresh
  refreshes_session id subject body db (h, k) =
      elim (Option-cases (find_session_hash user body.pdf_hash db.sessions)) [
        | inl missing ↦ rw (missing, insert_or_refresh) (inserts_session id subject body db (h, k))
        | inr (r, found) ↦ elim (Bool-cases (subject_exists subject db)) [
          | inl there ↦
              rw (found, insert_or_refresh, there)
                (
                  refresh_all-apart user other apart subject body (srv.now db.inserted) db.sessions
                      ∙ h,
                  k,
                )
          | inr gone ↦ rw (found, insert_or_refresh, gone) (h, k)
        ]
      ]

  removes_session : (id : Text) → Keeps I (remove_session user id)
  unfolding remove_session is_row
  removes_session id db (h, k) = elim (Bool-cases (any (is_row user id) db.sessions)) [
    | inl there ↦ rw there (
      filter-filter (λ (q : SessionRow). text_eq q.user_id other) (λ r. not (is_row user id r))
            db.sessions (λ r e. ground (arith, not_other user other apart r.user_id, e))
          ∙ h,
      k,
    )
    | inr missing ↦ rw missing (h, k)
  ]

  pub isolated-Kept : Kept srv user I
  isolated-Kept = record {
    inserts_subject = inserts_subject;
    upserts_subject = upserts_subject;
    removes_subject = removes_subject;
    inserts_session = λ id subject body db (own, p). inserts_session id subject body db p;
    refreshes_session = λ id subject body db (own, p). refreshes_session id subject body db p;
    removes_session = removes_session;
    sets_status =
        set_status-Keeps srv user I
          (λ id s db (h, k). (set_status-apart user other apart id s db.sessions ∙ h, k));
    lists_sessions =
        get_sessions-Keeps srv user I
          (λ ids db (h, k). (heal-apart user other apart ids db.sessions ∙ h, k));
    inserts_review = insert_review-Keeps srv user I (λ db reviews n h. h);
    upserts_review = upsert_row-Keeps srv user I (λ db reviews n h. h);
  }
