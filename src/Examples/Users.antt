-- ===== src/Examples/Users.antt =====
-- The database of the users: two users who call the store, a bulk upload that is sent twice, a PDF
-- that is uploaded again, and a session that the question bank repairs.
use study_helper_backend.UserStore.Query.{◌>>=◌}
use study_helper_backend.Runtime.Number.{decimal}
use study_helper_backend.Prelude.{
  if◌then◌else◌, ◌≡◌, refl, true, false, List, [], ◌∷◌, none, some, is_empty,
}
use study_helper_backend.Prelude.Int.{pos}
use study_helper_backend.Text.{Text, text, text_eq}
use study_helper_backend.Json.{finite}
use study_helper_backend.Outcome.{ok}
use study_helper_backend.QuestionBank.{Bank}
use study_helper_backend.UserStore.{
  require_pool, is_row, SubjectRow, SessionRow, UserDb, Server, ready, pending, RowStatus,
}
use study_helper_backend.UserStore.Review.{mcq, ReviewStatus}
use study_helper_backend.UserStore.Subjects.{create_subject, sync_subjects, SubjectCreate}
use study_helper_backend.UserStore.Create.{
  create_session, sync_sessions, SessionCreate, upsert_session,
}
use study_helper_backend.UserStore.Reviews.{sync_reviews, ReviewUpsert}
use study_helper_backend.UserStore.Listing.{user_sessions, get_sessions}
use study_helper_backend.UserStore.Owners.{IsPostgres, Owned, sessions_of, subjects_of}
use study_helper_backend.UserStore.Owners.History.{
  Method, creates_subject, creates_session, syncs_reviews, deletes_session, without_user, run_all,
  run_all-Owned, run_all-Same,
}
use study_helper_backend.UserStore.Upsert.{Found, upsert_session-Found}
use study_helper_backend.UserStore.Healed.{get_sessions-Stored}
use study_helper_backend.UserApi.{SyncPayload, SyncResponse, sync, delete_session}
use study_helper_backend.UserApi.Deletes.{Gone, delete_session-Gone}
use study_helper_backend.Sessions.{get}
use study_helper_backend.UserApi.Laws.{sync_idempotent}
use study_helper_backend.Examples.Stores.{users, store, user_row, bank_row}
use study_helper_backend.Examples.Uploads.{postgres, hash}

postgres-IsPostgres : IsPostgres postgres
postgres-IsPostgres = record { empty = refl; canonical = canonical }
  where
    canonical : (t id : Text) → postgres.uuid t ≡ some id → postgres.uuid id ≡ some id
    canonical [] id h = absurd (cc h)
    canonical (c ∷ t) id h = let same : (c ∷ t) ≡ id = cc h in rw (← same) refl

abbrev networks : SubjectCreate
networks = record { name = text "Networks"; color = text "#00ff7f" }

-- The subject that the first call creates gets the id "id1".
abbrev lecture : SessionCreate
lecture = record {
  id = none;
  pdf_name = text "lecture.pdf";
  pdf_hash = some hash;
  subject_id = some (text "id1");
  page_count = 4;
  word_count = 900;
  status = pending;
}

abbrev review : ReviewUpsert
review = record {
  session_id = text "s1";
  question_id = text "q1";
  question_type = mcq;
  interval_days = 3;
  next_review_at = 7;
  ease_factor = finite (pos 5) 1;
  repetitions = 1;
  status = ReviewStatus.pending;
}

abbrev calls : List (Text × Method)
calls =
    (text "u2", creates_subject networks)
    ∷ (text "u2", creates_session lecture)
    ∷ (text "u3", creates_session lecture)
    ∷ (text "u2", deletes_session (text "s1"))
    ∷ (text "u2", syncs_reviews (review ∷ []))
    ∷ []

run_all-Owned_example : Owned (run_all postgres calls users)
run_all-Owned_example = run_all-Owned postgres calls users postgres-IsPostgres (tt, tt)

by_others : without_user (text "u1") calls ≡ true
unfolding text_eq text
by_others = refl

run_all-Same_example :
    (sessions_of (text "u1") (run_all postgres calls users) ≡ sessions_of (text "u1") users)
    × (subjects_of (text "u1") (run_all postgres calls users) ≡ subjects_of (text "u1") users)
run_all-Same_example = run_all-Same postgres (text "u1") calls users postgres-IsPostgres by_others

-- A test: the second call is answered, the third is not.
created : (run_all postgres calls users).inserted ≡ 4
unfolding sync_reviews require_pool run_all is_row
    study_helper_backend.UserStore.Create.delete_session ◌>>=◌ decimal create_subject text_eq
    create_session
created = refl

-- The first upload of local data.
abbrev payload : SyncPayload
payload = record {
  subjects = networks ∷ [];
  sessions = record lecture { subject_id = none } ∷ [];
  review_schedule = review ∷ [];
}

abbrev counts : SyncResponse
counts = record { subjects_synced = 1; sessions_synced = 1; reviews_synced = 1 }

abbrev synced : UserDb
synced = (sync postgres (text "u1") payload users).0

first_sync : sync postgres (text "u1") payload users ≡ (synced, ok counts)
unfolding sync_subjects decimal text_eq sync_sessions require_pool ◌>>=◌ text sync sync_reviews
first_sync = refl

sync_idempotent_example : sync postgres (text "u1") payload synced ≡ (synced, ok counts)
sync_idempotent_example =
    sync_idempotent postgres (text "u1") payload users synced counts first_sync (refl, tt)

-- The upload of a PDF that is there, and "ready".
abbrev known : UserDb
known = record users { sessions = record user_row { pdf_hash = some hash; status = ready } ∷ [] }

abbrev again : SessionCreate
again = record lecture { subject_id = none }

abbrev row : SessionRow
row = record user_row {
  pdf_name = text "lecture.pdf";
  pdf_hash = some hash;
  page_count = 4;
  word_count = 900;
  status = ready;
  last_accessed = some 1;
}

abbrev upserted : UserDb
upserted = (upsert_session postgres (text "u1") again known).0

upserts : upsert_session postgres (text "u1") again known ≡ (upserted, ok row)
unfolding decimal text_eq require_pool upsert_session text ◌>>=◌
upserts = refl

hash-shown : is_empty hash ≡ false
unfolding text
hash-shown = refl

upsert_session-Found_example : Found postgres (text "u1") again known row upserted
upsert_session-Found_example =
    upsert_session-Found postgres (text "u1") again hash refl hash-shown known upserted row upserts

-- The content of a pending session is in the question bank.
abbrev full_bank : Bank
full_bank = record {
  connected = true;
  reachable = true;
  rows = record bank_row { pdf_hash = text "h1" } ∷ [];
}

abbrev healed : UserDb
healed = (get_sessions full_bank (text "u1") users).0

heals :
    get_sessions full_bank (text "u1") users
    ≡ (healed, ok (record user_row { status = ready } ∷ []))
unfolding text text_eq require_pool get_sessions ◌>>=◌
heals = refl

get_sessions-Stored_example :
    (record user_row { status = ready } ∷ []) ≡ user_sessions (text "u1") healed
get_sessions-Stored_example =
    get_sessions-Stored full_bank (text "u1") users healed (record user_row { status = ready } ∷ [])
      heals

-- A session with a review.
abbrev studied : UserDb
studied = (run_all postgres ((text "u1", syncs_reviews (review ∷ [])) ∷ []) users)

abbrev deleted : UserDb
deleted = (delete_session postgres (text "u1") (text "s1") store studied).1

deletes : delete_session postgres (text "u1") (text "s1") store studied ≡ ([], deleted, ok tt)
unfolding sync_reviews text_eq study_helper_backend.UserStore.Create.delete_session run_all decimal
    ◌>>=◌ require_pool delete_session text is_row
deletes = refl

delete_session-Gone_example :
    Gone postgres (text "u1") (text "s1") deleted
    × ((id : Text) → get [] id ≡ (if text_eq (text "s1") id then none else get store id))
delete_session-Gone_example =
    delete_session-Gone postgres (text "u1") (text "s1") store [] studied deleted deletes
