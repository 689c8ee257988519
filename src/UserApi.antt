-- ===== src/UserApi.antt =====
-- app/routers/user.py: the bodies, as pydantic checks them, and the endpoints. `user` is the id of
-- the verified token.
pub mod Laws
pub mod Deletes
use study_helper_backend.Prelude.{
  ℕ, ◌*◌, ◌^◌, Bool, true, false, ◌&&◌, ◌||◌, Option, none, some, List, [], ◌∷◌, all, length, leb,
  ◌==◌, if◌then◌else◌,
}
use study_helper_backend.Prelude.Int.{ℤ, pos, negsuc}
use study_helper_backend.Text.{Text, text}
use study_helper_backend.Json.{Double, finite, infinite, nan}
use study_helper_backend.Outcome.{Failure, Result, ok, err, http_exception, crash, schema_error}
use study_helper_backend.Sessions.{Store, delete}
use study_helper_backend.QuestionBank.{Bank}
use study_helper_backend.UserStore.{SubjectRow, SessionRow, UserDb, Server}
use study_helper_backend.UserStore.Review.{ReviewRow}
use study_helper_backend.UserStore.Query.{Query, ◌>>=◌, ◌>>◌, pure, raise}
use study_helper_backend.UserStore.Subjects.{SubjectCreate, get_subjects, sync_subjects}
use study_helper_backend.UserStore.Subjects as Subjects
use study_helper_backend.UserStore.Create.{SessionCreate, sync_sessions}
use study_helper_backend.UserStore.Create as Create
use study_helper_backend.UserStore.Listing.{get_sessions}
use study_helper_backend.UserStore.Reviews.{ReviewUpsert, get_due_reviews, sync_reviews}
use study_helper_backend.UserStore.Reviews as Reviews

abbrev hex_lower : ℕ → Bool
hex_lower c = leb 48 c && leb c 57 || leb 97 c && leb c 102

abbrev hex_digit : ℕ → Bool
hex_digit c = hex_lower c || leb 65 c && leb c 70

-- `^#[0-9a-fA-F]{6}$`
unfoldable pub is_color : Text → Bool
is_color [] = false
is_color (c ∷ s) = c == b'#' && (length s == 6 && all hex_digit s)

unfoldable pub valid_subject : SubjectCreate → Bool
unfolding is_color
valid_subject s = leb 1 (length s.name) && (leb (length s.name) 50 && is_color s.color)

-- A constraint on a field that may be None.
abbrev optional : (Text → Bool) → Option Text → Bool
optional p none = true
optional p (some t) = p t

unfoldable pub valid_session : SessionCreate → Bool
valid_session s =
    optional (λ t. length t == 36 && all (λ c. hex_lower c || c == b'-') t) s.id
    && (leb 1 (length s.pdf_name)
        && (leb (length s.pdf_name) 255
            && (optional (λ t. length t == 64 && all hex_lower t) s.pdf_hash
                && (optional (λ t. leb (length t) 36) s.subject_id
                    && (leb s.page_count 10000 && leb s.word_count 10000000)))))

-- From 1.0 to 5.0.
unfoldable pub valid_ease : Double → Bool
valid_ease (finite (pos m) k) = leb (2 ^ k) m && leb m (5 * 2 ^ k)
valid_ease (finite (negsuc m) k) = false
valid_ease infinite = false
valid_ease nan = false

unfoldable pub valid_review : ReviewUpsert → Bool
unfolding valid_ease
valid_review r =
    leb (length r.session_id) 36
    && (leb (length r.question_id) 36
        && (leb 1 r.interval_days
            && (leb r.interval_days 365 && (valid_ease r.ease_factor && leb r.repetitions 100))))

pub record SyncPayload : Type 0 where
  pub subjects : List SubjectCreate
  pub sessions : List SessionCreate
  pub review_schedule : List ReviewUpsert

unfoldable pub valid_payload : SyncPayload → Bool
unfolding valid_subject valid_session valid_review
valid_payload p =
    all valid_subject p.subjects
    && (all valid_session p.sessions && all valid_review p.review_schedule)

pub record SyncResponse : Type 0 where
  pub subjects_synced : ℕ
  pub sessions_synced : ℕ
  pub reviews_synced : ℕ

-- A body that does not pass never reaches the endpoint.
abbrev pub checked : {A : Type 0} → Bool → Query A → Query A
checked true m = m
checked false m = raise (crash schema_error)

abbrev pub require_deleted : Failure → Bool → Query (Unit {0})
require_deleted e true = pure tt
require_deleted e false = raise e

unfoldable pub list_subjects : Text → Query (List SubjectRow)
unfolding get_subjects
list_subjects user = get_subjects user

unfoldable pub create_subject : Server → Text → SubjectCreate → Query SubjectRow
unfolding valid_subject
create_subject srv user body = checked (valid_subject body) (Subjects.create_subject srv user body)

unfoldable pub delete_subject : Server → Text → Text → Query (Unit {0})
unfolding text
delete_subject srv user subject_id =
    Subjects.delete_subject srv user subject_id
    >>= require_deleted (http_exception 404 (text "과목을 찾을 수 없습니다"))

unfoldable pub list_sessions : Bank → Text → Query (List SessionRow)
list_sessions bank user = get_sessions bank user

unfoldable pub create_session : Server → Text → SessionCreate → Query SessionRow
unfolding valid_session
create_session srv user body = checked (valid_session body) (Create.create_session srv user body)

unfoldable pub delete_row : Server → Text → Text → Query (Unit {0})
unfolding text
delete_row srv user session_id =
    Create.delete_session srv user session_id
    >>= require_deleted (http_exception 404 (text "세션을 찾을 수 없습니다"))

-- The record in memory goes only where the row was deleted.
abbrev pub then_forget :
    Text → Store → UserDb × Result (Unit {0}) → Store × UserDb × Result (Unit {0})
then_forget id store (db, ok u) = ((delete id store).0, db, ok u)
then_forget id store (db, err e) = (store, db, err e)

unfoldable pub delete_session :
    Server → Text → Text → Store → UserDb → Store × UserDb × Result (Unit {0})
unfolding delete_row delete
delete_session srv user session_id store db =
    then_forget session_id store (delete_row srv user session_id db)

unfoldable pub get_review_schedule : Text → ℕ → Query (List ReviewRow)
get_review_schedule user now = get_due_reviews user now

unfoldable pub upsert_review : Server → Text → ReviewUpsert → Query ReviewRow
unfolding valid_review
upsert_review srv user body = checked (valid_review body) (Reviews.upsert_review srv user body)

unfoldable pub sync_valid : Server → Text → SyncPayload → Query SyncResponse
sync_valid srv user body = do
  subjects ← sync_subjects srv user body.subjects
  sessions ← sync_sessions srv user body.sessions
  reviews ← sync_reviews srv user body.review_schedule
  pure (record { subjects_synced = subjects; sessions_synced = sessions; reviews_synced = reviews })

unfoldable pub sync : Server → Text → SyncPayload → Query SyncResponse
unfolding sync_valid valid_payload
sync srv user body = checked (valid_payload body) (sync_valid srv user body)
