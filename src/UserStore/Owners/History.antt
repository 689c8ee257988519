-- ===== src/UserStore/Owners/History.antt =====
-- Histories of calls: the methods of the store in any order, by any users.
use study_helper_backend.Prelude.{
  ◌≡◌, refl, ◌∙◌, Bool, true, false, List, [], ◌∷◌, all, not, and-split, arith,
}
use study_helper_backend.Text.{Text, text_eq}
use study_helper_backend.Outcome.{Result, ok, err}
use study_helper_backend.QuestionBank.{Bank}
use study_helper_backend.UserStore.{RowStatus, UserDb, Server, update_session_status}
use study_helper_backend.UserStore.Query.Triples.{Post}
use study_helper_backend.UserStore.Subjects.{
  SubjectCreate, create_subject, delete_subject, sync_subjects,
}
use study_helper_backend.UserStore.Create.{
  SessionCreate, create_session, upsert_session, delete_session, sync_sessions,
}
use study_helper_backend.UserStore.Listing.{get_sessions}
use study_helper_backend.UserStore.Reviews.{ReviewUpsert, upsert_review, sync_reviews}
use study_helper_backend.UserStore.Owners.{IsPostgres, Owned, sessions_of, subjects_of}
use study_helper_backend.UserStore.Owners.Kept.{
  Kept, create_subject-Keeps, delete_subject-Keeps, sync_subjects-Keeps, create_session-Keeps,
  upsert_session-Keeps, delete_session-Keeps,
}
use study_helper_backend.UserStore.Owners.Kept.Bulk.{
  sync_sessions-Keeps, upsert_review-Keeps, sync_reviews-Keeps,
}
use study_helper_backend.UserStore.Owners.Statements.{Owned-Kept}
use study_helper_backend.UserStore.Owners.Apart.{Same, isolated-Kept}

-- The methods that write.
pub data Method : Type 0 where
  creates_subject : SubjectCreate → Method
  deletes_subject : Text → Method
  syncs_subjects : List SubjectCreate → Method
  gets_sessions : Bank → Method
  creates_session : SessionCreate → Method
  upserts_session : SessionCreate → Method
  updates_status : Text → RowStatus → Method
  deletes_session : Text → Method
  syncs_sessions : List SessionCreate → Method
  upserts_review : ReviewUpsert → Method
  syncs_reviews : List ReviewUpsert → Method

-- What a call of a user makes of the database.
unfoldable pub run : Server → Text → Method → UserDb → UserDb
run srv user (creates_subject s) db = (create_subject srv user s db).0
run srv user (deletes_subject id) db = (delete_subject srv user id db).0
run srv user (syncs_subjects ss) db = (sync_subjects srv user ss db).0
run srv user (gets_sessions bank) db = (get_sessions bank user db).0
run srv user (creates_session s) db = (create_session srv user s db).0
run srv user (upserts_session s) db = (upsert_session srv user s db).0
run srv user (updates_status id s) db = (update_session_status user id s db).0
run srv user (deletes_session id) db = (delete_session srv user id db).0
run srv user (syncs_sessions ss) db = (sync_sessions srv user ss db).0
run srv user (upserts_review r) db = (upsert_review srv user r db).0
run srv user (syncs_reviews rs) db = (sync_reviews srv user rs db).0

unfoldable pub run_all : Server → List (Text × Method) → UserDb → UserDb
unfolding run
run_all srv [] db = db
run_all srv ((user, m) ∷ calls) db = run_all srv calls (run srv user m db)

kept : {A : Type 0} (I : UserDb → Type 0) (r : UserDb × Result A) → Post I (λ _. I) r → I r.0
kept I (db, ok a) h = h
kept I (db, err e) h = h

run-kept :
    (srv : Server) (user : Text) (I : UserDb → Type 0)
    → IsPostgres srv
    → Kept srv user I
    → (m : Method) (db : UserDb) → I db
    → I (run srv user m db)
unfolding run
run-kept srv user I pg k (creates_subject s) db h =
    kept I _ (create_subject-Keeps srv pg user I k s db h)
run-kept srv user I pg k (deletes_subject id) db h =
    kept I _ (delete_subject-Keeps srv pg user I k id db h)
run-kept srv user I pg k (syncs_subjects ss) db h =
    kept I _ (sync_subjects-Keeps srv pg user I k ss db h)
run-kept srv user I pg k (gets_sessions bank) db h = kept I _ (k.lists_sessions bank db h)
run-kept srv user I pg k (creates_session s) db h =
    kept I _ (create_session-Keeps srv pg user I k s db h)
run-kept srv user I pg k (upserts_session s) db h =
    kept I _ (upsert_session-Keeps srv pg user I k s db h)
run-kept srv user I pg k (updates_status id s) db h = kept I _ (k.sets_status id s db h)
run-kept srv user I pg k (deletes_session id) db h =
    kept I _ (delete_session-Keeps srv pg user I k id db h)
run-kept srv user I pg k (syncs_sessions ss) db h =
    kept I _ (sync_sessions-Keeps srv pg user I k ss db h)
run-kept srv user I pg k (upserts_review r) db h =
    kept I _ (upsert_review-Keeps srv pg user I k r db h)
run-kept srv user I pg k (syncs_reviews rs) db h =
    kept I _ (sync_reviews-Keeps srv pg user I k rs db h)

-- Where every session's subject is one of its own user's, that stays so, whatever methods of the
-- store are called, by whichever users and with whatever arguments, provided that the empty text is
-- no UUID and that a canonical text is read as itself.
pub run_all-Owned :
    (srv : Server) (calls : List (Text × Method)) (db : UserDb)
    → IsPostgres srv
    → Owned db
    → Owned (run_all srv calls db)
unfolding run_all
run_all-Owned srv [] db pg h = h
run_all-Owned srv ((user, m) ∷ calls) db pg h =
    run_all-Owned srv calls (run srv user m db) pg
      (run-kept srv user Owned pg (Owned-Kept srv user) m db h)

-- None of the calls is by the user.
abbrev pub without_user : Text → List (Text × Method) → Bool
without_user user calls = all (λ (c : Text × Method). not (text_eq c.0 user)) calls

-- Whatever the other users call, the sessions and the subjects of a user stay as they are, under
-- the same two conditions on UUIDs.
pub run_all-Same :
    (srv : Server) (user : Text) (calls : List (Text × Method)) (db : UserDb)
    → IsPostgres srv
    → without_user user calls ≡ true
    → (sessions_of user (run_all srv calls db) ≡ sessions_of user db)
      × (subjects_of user (run_all srv calls db) ≡ subjects_of user db)
unfolding run_all
run_all-Same srv user [] db pg h = (refl, refl)
run_all-Same srv user ((caller, m) ∷ calls) db pg h =
    let (here, later) = and-split (not (text_eq caller user)) (without_user user calls) h in
    let apart : text_eq caller user ≡ false = ground (arith, here) in
    let (s, t) =
      run-kept srv caller (Same user db) pg (isolated-Kept srv caller user apart db) m db
        (refl, refl) in
    let (s', t') = run_all-Same srv user calls (run srv caller m db) pg later in (s' ∙ s, t' ∙ t)
