-- ===== src/UserStore/Owners/Statements.antt =====
-- The statements keep what their tables keep, and the owners of subjects.
use study_helper_backend.Prelude.{
  ℕ, ◌+◌, ◌≡◌, refl, List, any, is_empty, Bool-cases, Option-cases, inl, inr,
}
use study_helper_backend.Text.{Text, text_eq}
use study_helper_backend.Outcome.{Result, ok, err}
use study_helper_backend.QuestionBank.{Bank}
use study_helper_backend.UserStore.{
  RowStatus, SessionRow, UserDb, Server, set_status, require_pool, update_session_status,
}
use study_helper_backend.UserStore.Query.{pool}
use study_helper_backend.UserStore.Query.Triples.{Post, Keeps, >>=-Keeps, pool-Keeps}
use study_helper_backend.UserStore.Review.{ReviewRow}
use study_helper_backend.UserStore.Reviews.{
  ReviewUpsert, find_review, insert_review, reschedule_all, upsert_row,
}
use study_helper_backend.UserStore.Listing.{
  user_sessions, pending_pairs, ready_hashes, heal_ids, heal, repaired, get_sessions,
}
use study_helper_backend.UserStore.Owners.{Owned}
use study_helper_backend.UserStore.Owners.Inserts.{
  insert_subject-Owned, upsert_subject-Owned, remove_subject-Owned, insert_session-Owned,
  insert_or_refresh-Owned, remove_session-Owned, set_status-Owned, heal-Owned,
}
use study_helper_backend.UserStore.Owners.Kept.{Kept}

module _ (srv : Server) (user : Text) (I : UserDb → Type 0) where
  -- The statements that only the rows of one table concern.
  pub set_status-Keeps :
      ((id : Text) (s : RowStatus) (db : UserDb)
        → I db
        → I (record db { sessions = (set_status user id s db.sessions).0 }))
      → (id : Text) (s : RowStatus) → Keeps I (update_session_status user id s)
  unfolding update_session_status
  set_status-Keeps keeps id s db h = go (require_pool db) refl
    where
      go :
          (p : Result (Unit {0}))
          → require_pool db ≡ p
          → Post I (λ _. I) (update_session_status user id s db)
      go (err e) q = rw (q, update_session_status) h
      go (ok u) q = rw (q, update_session_status) (keeps id s db h)

  repaired-Keeps :
      ((ids : List Text) (db : UserDb)
        → I db
        → I (record db { sessions = heal user ids db.sessions }))
      → (bank : Bank) → Keeps I (repaired bank user)
  unfolding repaired
  repaired-Keeps keeps bank db h =
      let pairs = pending_pairs (user_sessions user db) in
      let ids = heal_ids (ready_hashes bank pairs) pairs in
      elim (Bool-cases (is_empty ids)) [
        | inl nothing ↦ rw nothing h
        | inr some_ids ↦ rw some_ids (keeps ids db h)
      ]

  pub get_sessions-Keeps :
      ((ids : List Text) (db : UserDb)
        → I db
        → I (record db { sessions = heal user ids db.sessions }))
      → (bank : Bank) → Keeps I (get_sessions bank user)
  unfolding get_sessions
  get_sessions-Keeps keeps bank =
      >>=-Keeps I pool (λ _. repaired bank user) (pool-Keeps I) (λ _. repaired-Keeps keeps bank)

  -- The reviews are a table of their own.
  pub insert_review-Keeps :
      ((db : UserDb) (reviews : List ReviewRow) (n : ℕ)
        → I db
        → I (record db { reviews = reviews; inserted = n }))
      → (session : Text) (body : ReviewUpsert) → Keeps I (insert_review srv user session body)
  unfolding insert_review
  insert_review-Keeps keeps session body db h =
      elim (Bool-cases
        (any (λ (q : ReviewRow). text_eq q.id (srv.gen_random_uuid db.inserted)) db.reviews)) [
          | inl taken ↦ rw taken h
          | inr fresh ↦
              elim (Bool-cases (any (λ (s : SessionRow). text_eq s.id session) db.sessions)) [
                | inl there ↦ rw (fresh, there) (keeps db _ (db.inserted + 1) h)
                | inr missing ↦ rw (fresh, missing) h
              ]
        ]

  pub upsert_row-Keeps :
      ((db : UserDb) (reviews : List ReviewRow) (n : ℕ)
        → I db
        → I (record db { reviews = reviews; inserted = n }))
      → (session : Text) (body : ReviewUpsert) → Keeps I (upsert_row srv user session body)
  unfolding upsert_row
  upsert_row-Keeps keeps session body db h =
      elim (Option-cases (find_review user session body.question_id db.reviews)) [
        | inl missing ↦ rw (missing, upsert_row) (insert_review-Keeps keeps session body db h)
        | inr (r, found) ↦
            rw (found, upsert_row)
              (keeps db (reschedule_all user session body db.reviews) db.inserted h)
      ]

pub Owned-Kept : (srv : Server) (user : Text) → Kept srv user Owned
Owned-Kept srv user = record {
  inserts_subject = insert_subject-Owned srv user;
  upserts_subject = upsert_subject-Owned srv user;
  removes_subject = remove_subject-Owned user;
  inserts_session = insert_session-Owned srv user;
  refreshes_session = insert_or_refresh-Owned srv user;
  removes_session = remove_session-Owned user;
  sets_status =
      set_status-Keeps srv user Owned
        (λ id s db h. set_status-Owned db.subjects user id s db.sessions h);
  lists_sessions =
      get_sessions-Keeps srv user Owned (λ ids db h. heal-Owned db.subjects user ids db.sessions h);
  inserts_review = insert_review-Keeps srv user Owned (λ db reviews n h. h);
  upserts_review = upsert_row-Keeps srv user Owned (λ db reviews n h. h);
}
