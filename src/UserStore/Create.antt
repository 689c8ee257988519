-- ===== src/UserStore/Create.antt =====
-- The sessions of a user: how they are created, updated, uploaded in bulk and deleted.
use study_helper_backend.Prelude.{
  ℕ, ◌+◌, Bool, true, false, ◌&&◌, Option, none, some, List, [], ◌∷◌, ◌++◌, filter, any, all, map,
  not, is_empty, if◌then◌else◌,
}
use study_helper_backend.Text.{Text, text, text_eq, member}
use study_helper_backend.Outcome.{Failure, ok, err, http_exception}
use study_helper_backend.UserStore.{
  RowStatus, pending, ready, failed, SubjectRow, SessionRow, UserDb, Server, is_row,
}
use study_helper_backend.UserStore.Review.{ReviewRow}
use study_helper_backend.UserStore.Query.{
  Query, ◌>>=◌, ◌>>◌, pure, pool, refused, cast, cast_opt, for_each, bulk,
}
use study_helper_backend.UserStore.Subjects.{owns}

-- routers/user.py: the body of `POST /user/sessions`, and of the upload.
pub record SessionCreate : Type 0 where
  pub id : Option Text
  pub pdf_name : Text
  pub pdf_hash : Option Text
  pub subject_id : Option Text
  pub page_count : ℕ
  pub word_count : ℕ
  pub status : RowStatus

-- `bool(x)` of a text or None, with the text.
abbrev pub given : Option Text → Option Text
given none = none
given (some t) = if is_empty t then none else some t

abbrev pub no_access : Failure
no_access = http_exception 403 (text "해당 과목에 대한 접근 권한이 없습니다")

unfoldable pub require_owned : Text → Text → Query (Unit {0})
unfolding owns text
require_owned user id db = if owns user id db.subjects then (db, ok tt) else (db, err no_access)

-- The check of the subject, if one is given.
unfoldable pub check_subject : Server → Text → Option Text → Query (Unit {0})
unfolding require_owned
check_subject srv user subject = elim (given subject) [
  | none ↦ pure tt
  | some s ↦ cast (srv.uuid s) >>= require_owned user
]

abbrev pub has_hash : Text → Option Text → SessionRow → Bool
has_hash user none r = false
has_hash user (some h) r =
    text_eq r.user_id user && (elim r.pdf_hash [ none ↦ false | some k ↦ text_eq k h ])

-- The foreign key `subject_id`.
abbrev pub subject_exists : Option Text → UserDb → Bool
subject_exists none db = true
subject_exists (some s) db = any (λ (r : SubjectRow). text_eq r.id s) db.subjects

-- The id that is given, or else one that the server draws.
abbrev pub or_drawn : Server → Option Text → UserDb → Text
or_drawn srv none db = srv.gen_random_uuid db.inserted
or_drawn srv (some id) db = id

abbrev pub new_session :
    Server → Text → Option Text → Option Text → SessionCreate → UserDb → SessionRow
new_session srv user id subject body db = record {
  id = or_drawn srv id db;
  user_id = user;
  pdf_name = body.pdf_name;
  pdf_hash = body.pdf_hash;
  subject_id = subject;
  page_count = body.page_count;
  word_count = body.word_count;
  status = body.status;
  created_at = srv.now db.inserted;
  last_accessed = none;
}

-- `INSERT INTO user_sessions`, with the id and the subject after their cast: the id is a primary
-- key, `(user_id, pdf_hash)` is unique, and the subject has to be there.
unfoldable pub insert_session :
    Server → Text → Option Text → Option Text → SessionCreate → Query SessionRow
insert_session srv user id subject body db =
    let r = new_session srv user id subject body db in
    if any (λ (q : SessionRow). text_eq q.id r.id) db.sessions
    then refused db
    else if any (has_hash user body.pdf_hash) db.sessions
    then refused db
    else if subject_exists subject db
    then (record db { sessions = db.sessions ++ r ∷ []; inserted = db.inserted + 1 }, ok r)
    else refused db

unfoldable pub create_session : Server → Text → SessionCreate → Query SessionRow
unfolding check_subject insert_session
create_session srv user body = do
  pool
  check_subject srv user body.subject_id
  id ← cast_opt srv (given body.id)
  subject ← cast_opt srv body.subject_id
  insert_session srv user id subject body

-- `CASE WHEN user_sessions.status IN ('ready','failed') THEN user_sessions.status ELSE …`
abbrev pub kept_status : RowStatus → RowStatus → RowStatus
kept_status pending new = new
kept_status ready new = ready
kept_status failed new = failed

-- `DO UPDATE SET …` on one row.
abbrev pub refresh : Option Text → SessionCreate → ℕ → SessionRow → SessionRow
refresh subject body now r = record r {
  pdf_name = body.pdf_name;
  subject_id = subject;
  page_count = body.page_count;
  word_count = body.word_count;
  status = kept_status r.status body.status;
  last_accessed = some now;
}

unfoldable pub find_session_hash : Text → Option Text → List SessionRow → Option SessionRow
find_session_hash user hash [] = none
find_session_hash user hash (r ∷ rs) =
    if has_hash user hash r then some r else find_session_hash user hash rs

unfoldable pub refresh_all :
    Text → Option Text → SessionCreate → ℕ → List SessionRow → List SessionRow
refresh_all user subject body now [] = []
refresh_all user subject body now (r ∷ rs) =
    let rest = refresh_all user subject body now rs in
    if has_hash user body.pdf_hash r then refresh subject body now r ∷ rest else r ∷ rest

-- `INSERT … ON CONFLICT (user_id, pdf_hash) DO UPDATE`
unfoldable pub insert_or_refresh :
    Server → Text → Option Text → Option Text → SessionCreate → Query SessionRow
unfolding insert_session find_session_hash refresh_all
insert_or_refresh srv user id subject body db =
    elim (find_session_hash user body.pdf_hash db.sessions) [
      | none ↦ insert_session srv user id subject body db
      | some r ↦
          let now = srv.now db.inserted in
          if subject_exists subject db
          then (
            record db { sessions = refresh_all user subject body now db.sessions },
            ok (refresh subject body now r),
          )
          else refused db
    ]

-- Without a hash there is nothing that could conflict.
unfoldable pub upsert_checked : Server → Text → SessionCreate → Query SessionRow
unfolding create_session insert_or_refresh
upsert_checked srv user body = elim (given body.pdf_hash) [
  | none ↦ create_session srv user body
  | some hash ↦ cast_opt srv (given body.id) >>= λ id.
      cast_opt srv body.subject_id >>= λ subject. insert_or_refresh srv user id subject body
]

unfoldable pub upsert_session : Server → Text → SessionCreate → Query SessionRow
unfolding check_subject upsert_checked
upsert_session srv user body = do
  pool
  check_subject srv user body.subject_id
  upsert_checked srv user body

-- `ON DELETE CASCADE`
unfoldable pub remove_session : Text → Text → Query Bool
remove_session user id db =
    if any (is_row user id) db.sessions
    then (
      record db {
        sessions = filter (λ r. not (is_row user id r)) db.sessions;
        reviews = filter (λ (v : ReviewRow). not (text_eq v.session_id id)) db.reviews;
      },
      ok true,
    )
    else (db, ok false)

unfoldable pub delete_session : Server → Text → Text → Query Bool
unfolding remove_session
delete_session srv user session_id = do
  pool
  id ← cast (srv.uuid session_id)
  remove_session user id

-- `{s.subject_id for s in sessions if s.subject_id}`, whose order and repetitions do not matter.
unfoldable pub subject_ids : List SessionCreate → List Text
subject_ids [] = []
subject_ids (s ∷ ss) = elim (given s.subject_id) [
  | none ↦ subject_ids ss
  | some t ↦ t ∷ subject_ids ss
]

-- `$2::uuid[]`
unfoldable pub cast_all : Server → List Text → Query (List Text)
cast_all srv [] = pure []
cast_all srv (t ∷ ts) = do id ← cast (srv.uuid t); ids ← cast_all srv ts; pure (id ∷ ids)

-- `owned_ids`
unfoldable pub owned_ids : Text → List Text → UserDb → List Text
unfolding member
owned_ids user ids db =
    map (λ (r : SubjectRow). r.id)
      (filter (λ (r : SubjectRow). text_eq r.user_id user && member r.id ids) db.subjects)

unfoldable pub require_all_owned : Text → List Text → List Text → Query (Unit {0})
unfolding owned_ids member text
require_all_owned user wanted ids db =
    if all (λ t. member t (owned_ids user ids db)) wanted then (db, ok tt) else (db, err no_access)

unfoldable pub check_subjects : Server → Text → List Text → Query (Unit {0})
unfolding cast_all require_all_owned
check_subjects srv user wanted =
    if is_empty wanted then pure tt else cast_all srv wanted >>= require_all_owned user wanted

-- `INSERT … ON CONFLICT (user_id, pdf_hash) DO NOTHING`, after the cast of the subject.
unfoldable pub insert_or_pass : Server → Text → SessionCreate → Option Text → Query (Unit {0})
unfolding insert_session
insert_or_pass srv user s subject db =
    if any (has_hash user s.pdf_hash) db.sessions
    then (db, ok tt)
    else (insert_session srv user none subject s >>= λ _. pure tt) db

unfoldable pub add_session : Server → Text → SessionCreate → Query (Unit {0})
unfolding insert_or_pass
add_session srv user s = cast_opt srv s.subject_id >>= insert_or_pass srv user s

unfoldable pub add_sessions : Server → Text → List SessionCreate → Query (Unit {0})
unfolding add_session for_each
add_sessions srv user ss = for_each (add_session srv user) ss

unfoldable pub sync_sessions : Server → Text → List SessionCreate → Query ℕ
unfolding check_subjects subject_ids add_sessions bulk
sync_sessions srv user sessions =
    bulk sessions (check_subjects srv user (subject_ids sessions) >> add_sessions srv user sessions)
