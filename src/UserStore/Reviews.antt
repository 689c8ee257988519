-- ===== src/UserStore/Reviews.antt =====
-- The review schedule of a user.
use study_helper_backend.Prelude.{
  ℕ, ◌+◌, Bool, true, false, not, ◌&&◌, Option, none, some, List, [], ◌∷◌, ◌++◌, filter, order_by,
  any, leb, if◌then◌else◌,
}
use study_helper_backend.Text.{Text, text_eq}
use study_helper_backend.Json.{Double}
use study_helper_backend.Outcome.{ok}
use study_helper_backend.UserStore.{SessionRow, Server}
use study_helper_backend.UserStore.Review.{
  ReviewRow, ReviewKind, ReviewStatus, pending, mastered, done,
}
use study_helper_backend.UserStore.Query.{
  Query, ◌>>=◌, ◌>>◌, pure, pool, refused, cast, for_each, bulk,
}

-- routers/user.py: `ReviewScheduleUpsert`
pub record ReviewUpsert : Type 0 where
  pub session_id : Text
  pub question_id : Text
  pub question_type : ReviewKind
  pub interval_days : ℕ
  pub next_review_at : ℕ
  pub ease_factor : Double
  pub repetitions : ℕ
  pub status : ReviewStatus

abbrev pub is_done : ReviewStatus → Bool
is_done done = true
is_done pending = false
is_done mastered = false

-- `WHERE user_id = … AND next_review_at <= … AND status != 'done'`
abbrev pub is_due : Text → ℕ → ReviewRow → Bool
is_due user now r = text_eq r.user_id user && (leb r.next_review_at now && not (is_done r.status))

-- `ORDER BY next_review_at`. The time is that of the program's clock.
unfoldable pub get_due_reviews : Text → ℕ → Query (List ReviewRow)
get_due_reviews user now = do
  pool
  λ db. (
    db,
    ok (
        order_by (λ a b. leb a.next_review_at b.next_review_at)
          (filter (is_due user now) db.reviews)),
  )

-- `(user_id, session_id, question_id)`
abbrev pub has_question : Text → Text → Text → ReviewRow → Bool
has_question user session question r =
    text_eq r.user_id user && (text_eq r.session_id session && text_eq r.question_id question)

unfoldable pub find_review : Text → Text → Text → List ReviewRow → Option ReviewRow
find_review user session question [] = none
find_review user session question (r ∷ rs) =
    if has_question user session question r then some r else find_review user session question rs

-- `INSERT INTO user_review_schedule`, once the key is known to be new: the session has to be there,
-- whoever's it is.
unfoldable pub insert_review : Server → Text → Text → ReviewUpsert → Query ReviewRow
insert_review srv user session body db =
    let r : ReviewRow = record {
      id = srv.gen_random_uuid db.inserted;
      user_id = user;
      session_id = session;
      question_id = body.question_id;
      question_type = body.question_type;
      interval_days = body.interval_days;
      next_review_at = body.next_review_at;
      ease_factor = body.ease_factor;
      repetitions = body.repetitions;
      status = body.status;
    } in
    if any (λ (q : ReviewRow). text_eq q.id r.id) db.reviews
    then refused db
    else if any (λ (s : SessionRow). text_eq s.id session) db.sessions
    then (record db { reviews = db.reviews ++ r ∷ []; inserted = db.inserted + 1 }, ok r)
    else refused db

-- `DO UPDATE SET …` on one row; the type of the question stays.
abbrev pub reschedule : ReviewUpsert → ReviewRow → ReviewRow
reschedule body r = record r {
  interval_days = body.interval_days;
  next_review_at = body.next_review_at;
  ease_factor = body.ease_factor;
  repetitions = body.repetitions;
  status = body.status;
}

unfoldable pub reschedule_all : Text → Text → ReviewUpsert → List ReviewRow → List ReviewRow
reschedule_all user session body [] = []
reschedule_all user session body (r ∷ rs) =
    let rest = reschedule_all user session body rs in
    if has_question user session body.question_id r then reschedule body r ∷ rest else r ∷ rest

unfoldable pub upsert_row : Server → Text → Text → ReviewUpsert → Query ReviewRow
unfolding find_review insert_review reschedule_all
upsert_row srv user session body db = elim (find_review user session body.question_id db.reviews) [
  | none ↦ insert_review srv user session body db
  | some r ↦
      (record db { reviews = reschedule_all user session body db.reviews }, ok (reschedule body r))
]

unfoldable pub upsert_review : Server → Text → ReviewUpsert → Query ReviewRow
unfolding upsert_row
upsert_review srv user body = do
  pool
  session ← cast (srv.uuid body.session_id)
  upsert_row srv user session body

-- `ON CONFLICT (user_id, session_id, question_id) DO NOTHING`
unfoldable pub add_row : Server → Text → Text → ReviewUpsert → Query (Unit {0})
unfolding find_review insert_review
add_row srv user session body db = elim (find_review user session body.question_id db.reviews) [
  | none ↦ (insert_review srv user session body >>= λ _. pure tt) db
  | some r ↦ (db, ok tt)
]

unfoldable pub add_review : Server → Text → ReviewUpsert → Query (Unit {0})
unfolding add_row
add_review srv user r = cast (srv.uuid r.session_id) >>= λ session. add_row srv user session r

unfoldable pub add_reviews : Server → Text → List ReviewUpsert → Query (Unit {0})
unfolding add_review for_each
add_reviews srv user rs = for_each (add_review srv user) rs

unfoldable pub sync_reviews : Server → Text → List ReviewUpsert → Query ℕ
unfolding add_reviews bulk
sync_reviews srv user reviews = bulk reviews (add_reviews srv user reviews)
