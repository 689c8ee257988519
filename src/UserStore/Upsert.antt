-- ===== src/UserStore/Upsert.antt =====
-- `upsert_session`: one row for a user and a PDF.
use study_helper_backend.Prelude.{
  ℕ, ◌≡◌, ◌⊎◌, refl, sym, ap, subst, ◌∙◌, true, false, Option, none, some, List, [], ◌∷◌, ◌++◌, any,
  is_empty, Bool-cases, Option-cases, inl, inr,
}
use study_helper_backend.Text.{Text, text_eq}
use study_helper_backend.Text.Laws.{text_eq_refl}
use study_helper_backend.Outcome.{Result, ok, err}
use study_helper_backend.UserStore.{
  RowStatus, pending, ready, failed, SessionRow, UserDb, Server, require_pool,
}
use study_helper_backend.UserStore.Query.{◌>>=◌, ◌>>◌, pool, cast, cast_opt}
use study_helper_backend.UserStore.Query.Triples.{CastTo, cast_opt-Triple}
use study_helper_backend.UserStore.Query.Loops.{Gives, >>=-Gives}
use study_helper_backend.UserStore.Subjects.{owns}
use study_helper_backend.UserStore.Create.{
  SessionCreate, given, has_hash, subject_exists, kept_status, refresh, new_session, require_owned,
  check_subject, insert_session, find_session_hash, refresh_all, insert_or_refresh, upsert_checked,
  upsert_session,
}

-- What becomes of the row that was there: its id stays, and so does a status that is final.
abbrev pub Reuses : Option SessionRow → SessionRow → Type 0
Reuses none row = Unit
Reuses (some old) row = (row.id ≡ old.id) × ((old.status ≡ pending) ⊎ (row.status ≡ old.status))

module _ (srv : Server) (user : Text) (body : SessionCreate) where
  -- The row that the key finds afterwards, from the row that it found before.
  abbrev pub Found : UserDb → SessionRow → UserDb → Type 0
  Found old row new =
      (find_session_hash user body.pdf_hash new.sessions ≡ some row)
      × Reuses (find_session_hash user body.pdf_hash old.sessions) row

  kept_status-cases : (old new : RowStatus) → (old ≡ pending) ⊎ (kept_status old new ≡ old)
  kept_status-cases pending new = inl refl
  kept_status-cases ready new = inr refl
  kept_status-cases failed new = inr refl

  find_session_hash-last :
      (rows : List SessionRow) (r : SessionRow)
      → any (has_hash user body.pdf_hash) rows ≡ false
      → has_hash user body.pdf_hash r ≡ true
      → find_session_hash user body.pdf_hash (rows ++ r ∷ []) ≡ some r
  unfolding find_session_hash
  find_session_hash-last [] r new h = rw h refl
  find_session_hash-last (q ∷ rows) r new h = elim (Bool-cases (has_hash user body.pdf_hash q)) [
    | inl here ↦ absurd (cc (rw here at new))
    | inr there ↦ rw there (find_session_hash-last rows r (rw there at new) h)
  ]

  has_hash-refresh :
      (subject : Option Text) (now : ℕ) (r : SessionRow)
      → has_hash user body.pdf_hash (refresh subject body now r) ≡ has_hash user body.pdf_hash r
  has_hash-refresh subject now r = go body.pdf_hash
    where
      go : (h : Option Text) → has_hash user h (refresh subject body now r) ≡ has_hash user h r
      go none = refl
      go (some k) = refl

  find_session_hash-refresh_all :
      (subject : Option Text) (now : ℕ) (rows : List SessionRow) (r : SessionRow)
      → find_session_hash user body.pdf_hash rows ≡ some r
      → find_session_hash user body.pdf_hash (refresh_all user subject body now rows)
        ≡ some (refresh subject body now r)
  unfolding find_session_hash refresh_all
  find_session_hash-refresh_all subject now [] r h = absurd (cc h)
  find_session_hash-refresh_all subject now (q ∷ rows) r h =
      elim (Bool-cases (has_hash user body.pdf_hash q)) [
        | inl here ↦
            let same : q ≡ r = cc (rw (here, find_session_hash) at h) in
            let still : has_hash user body.pdf_hash (refresh subject body now q) ≡ true =
              has_hash-refresh subject now q ∙ here in
            rw (here, still) (ap (λ x. some (refresh subject body now x)) same)
        | inr there ↦
            rw (there, there)
              (find_session_hash-refresh_all subject now rows r
                (rw (there, find_session_hash) at h))
      ]

  module _ (hash : Text) (hashed : body.pdf_hash ≡ some hash) where
    insert_session-Found :
        (id subject : Option Text) (db : UserDb)
        → Gives
            (λ row db'.
              (find_session_hash user body.pdf_hash db'.sessions ≡ some row) × Reuses none row)
            (insert_session srv user id subject body db)
    unfolding insert_session
    insert_session-Found id subject db =
        let r = new_session srv user id subject body db in
        let mine : has_hash user body.pdf_hash r ≡ true =
          rw (hashed, text_eq_refl user, text_eq_refl hash) refl in
        elim (Bool-cases (any (λ (q : SessionRow). text_eq q.id r.id) db.sessions)) [
          | inl taken ↦ rw taken tt
          | inr fresh ↦ elim (Bool-cases (any (has_hash user body.pdf_hash) db.sessions)) [
            | inl known ↦ rw (fresh, known) tt
            | inr new ↦ elim (Bool-cases (subject_exists subject db)) [
              | inr gone ↦ rw (fresh, new, gone) tt
              | inl there ↦
                  rw (fresh, new, there) (find_session_hash-last db.sessions r new mine, tt)
            ]
          ]
        ]

    insert_or_refresh-Found :
        (id subject : Option Text) (db : UserDb)
        → Gives (λ row db'. Found db row db') (insert_or_refresh srv user id subject body db)
    unfolding insert_or_refresh
    insert_or_refresh-Found id subject db =
        elim (Option-cases (find_session_hash user body.pdf_hash db.sessions)) [
          | inl missing ↦ rw (missing, insert_or_refresh) (insert_session-Found id subject db)
          | inr (r, found) ↦ elim (Bool-cases (subject_exists subject db)) [
            | inr gone ↦ rw (found, insert_or_refresh, gone) tt
            | inl there ↦
                rw (found, insert_or_refresh, there)
                  (
                    find_session_hash-refresh_all subject (srv.now db.inserted) db.sessions r found,
                    (refl, kept_status-cases r.status body.status),
                  )
          ]
        ]

    casts-Found :
        (id subject : Option Text) (db : UserDb)
        → Gives
            (λ row db'. Found db row db')
            ((cast_opt srv id >>= λ id'.
                cast_opt srv subject >>= λ subject'. insert_or_refresh srv user id' subject' body)
              db)
    casts-Found id subject db =
        >>=-Gives (cast_opt srv id)
          (λ id'. cast_opt srv subject >>= λ subject'. insert_or_refresh srv user id' subject' body)
          db (λ out db'. CastTo srv id out × (db' ≡ db)) (λ row db'. Found db row db')
          (cast_opt-Triple srv (λ _. Unit) (λ d. d ≡ db) id (λ d e. tt) db refl)
          (λ id' db1 (to, same).
            >>=-Gives (cast_opt srv subject)
              (λ subject'. insert_or_refresh srv user id' subject' body) db1
              (λ out db'. CastTo srv subject out × (db' ≡ db)) (λ row db'. Found db row db')
              (cast_opt-Triple srv (λ _. Unit) (λ d. d ≡ db) subject (λ d e. tt) db1 same)
              (λ subject' db2 (to', same').
                subst
                  (λ d.
                    Gives (λ row db'. Found db row db')
                      (insert_or_refresh srv user id' subject' body d))
                  (sym same') (insert_or_refresh-Found id' subject' db)))

    check_subject-Gives :
        (subject : Option Text) (db : UserDb)
        → Gives (λ _ db'. db' ≡ db) (check_subject srv user subject db)
    unfolding check_subject require_owned
    check_subject-Gives none db = refl
    check_subject-Gives (some []) db = refl
    check_subject-Gives (some (c ∷ t)) db =
        >>=-Gives (cast (srv.uuid (c ∷ t))) (require_owned user) db (λ _ db'. db' ≡ db)
          (λ _ db'. db' ≡ db) (cast_same (srv.uuid (c ∷ t)))
          (λ id db1 same. rw same (owned_same id))
      where
        cast_same : (o : Option Text) → Gives (λ _ db'. db' ≡ db) (cast o db)
        cast_same none = tt
        cast_same (some id) = refl

        owned_same : (id : Text) → Gives (λ _ db'. db' ≡ db) (require_owned user id db)
        owned_same id = elim (Bool-cases (owns user id db.subjects)) [
          | inl own ↦ rw (own, require_owned) refl
          | inr other ↦ rw (other, require_owned) tt
        ]

    upsert_checked-Found :
        is_empty hash ≡ false
        → (db : UserDb) → Gives (λ row db'. Found db row db') (upsert_checked srv user body db)
    unfolding upsert_checked
    upsert_checked-Found shown db =
        let sent : given body.pdf_hash ≡ some hash = rw (hashed, shown) refl in
        rw (sent, upsert_checked) (casts-Found (given body.id) body.subject_id db)

    -- An upload of a PDF with a hash, if it succeeds, leaves exactly the row that it answers as the
    -- one that the user and the hash find; if there was such a row before, it keeps its id, and its
    -- status unless that was "pending".
    pub upsert_session-Found :
        is_empty hash ≡ false
        → (db db' : UserDb) (row : SessionRow) → upsert_session srv user body db ≡ (db', ok row)
        → Found db row db'
    unfolding upsert_session
    upsert_session-Found shown db db' row h =
        subst (λ r. Gives (λ row db'. Found db row db') r) h
          (>>=-Gives pool
            (λ _. check_subject srv user body.subject_id >> upsert_checked srv user body) db
            (λ _ db'. db' ≡ db) (λ row db'. Found db row db') (looked (require_pool db))
            (λ _ db1 same.
              >>=-Gives (check_subject srv user body.subject_id) (λ _. upsert_checked srv user body)
                db1 (λ _ db'. db' ≡ db) (λ row db'. Found db row db')
                (subst (λ d. Gives (λ _ db'. db' ≡ db) (check_subject srv user body.subject_id d))
                  (sym same) (check_subject-Gives body.subject_id db))
                (λ _ db2 same'.
                  subst (λ d. Gives (λ row db'. Found db row db') (upsert_checked srv user body d))
                    (sym same') (upsert_checked-Found shown db))))
      where
        looked : (r : Result (Unit {0})) → Gives (λ _ db'. db' ≡ db) (db, r)
        looked (ok u) = refl
        looked (err e) = tt
