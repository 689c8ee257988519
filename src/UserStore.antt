-- ===== src/UserStore.antt =====
-- app/services/user_store.py: `UserStore`, over the tables of PostgreSQL that its statements name.
-- The ids of rows, and of the users of verified tokens, are the canonical texts of UUIDs. A
-- statement ends in an error where the server is not reachable or where it would break a constraint
-- of the tables; one statement is one atomic step, as PostgreSQL runs it.
pub mod Laws
pub mod Query
pub mod Review
pub mod Subjects
pub mod Create
pub mod Listing
pub mod Reviews
pub mod Owners
pub mod Again
pub mod Upsert
pub mod Healed
use study_helper_backend.Prelude.{
  ℕ, ◌+◌, Bool, true, false, ◌&&◌, Option, none, some, List, [], ◌∷◌, ◌==◌, if◌then◌else◌,
}
use study_helper_backend.Text.{Text, text, text_eq}
use study_helper_backend.UserStore.Review.{ReviewRow}
use study_helper_backend.Outcome.{Result, ok, err, ◌>>=◌, http_exception, crash, database_error}

pub data RowStatus : Type 0 where
  pending ready failed : RowStatus

-- A row of `user_sessions`. Times are numbers.
pub record SessionRow : Type 0 where
  pub id : Text
  pub user_id : Text
  pub pdf_name : Text
  pub pdf_hash : Option Text
  pub subject_id : Option Text
  pub page_count : ℕ
  pub word_count : ℕ
  pub status : RowStatus
  pub created_at : ℕ
  pub last_accessed : Option ℕ

-- A row of `user_subjects`.
pub record SubjectRow : Type 0 where
  pub id : Text
  pub user_id : Text
  pub name : Text
  pub color : Text
  pub created_at : ℕ

-- The database: whether there is a pool, whether the server answers, the rows, and the number of
-- the rows that were inserted so far, which gives the next one its id and its time.
pub record UserDb : Type 0 where
  pub connected : Bool
  pub reachable : Bool
  pub subjects : List SubjectRow
  pub sessions : List SessionRow
  pub reviews : List ReviewRow
  pub inserted : ℕ

-- What PostgreSQL brings along: the cast to a UUID, which gives the canonical text, the draws of
-- `gen_random_uuid()`, and the clock.
pub record Server : Type 0 where
  pub uuid : Text → Option Text
  pub gen_random_uuid : ℕ → Text
  pub now : ℕ → ℕ

-- `_require_pool`, and the connection that a statement needs.
unfoldable pub require_pool : UserDb → Result (Unit {0})
unfolding text
require_pool db =
    if db.connected
    then (if db.reachable then ok tt else err (crash database_error))
    else err (http_exception 503 (text "데이터베이스에 연결할 수 없습니다"))

-- `WHERE id = … AND user_id = …`
unfoldable pub is_row : Text → Text → SessionRow → Bool
is_row user id r = text_eq r.id id && text_eq r.user_id user

-- The rows after `UPDATE … SET status`, and their number.
unfoldable pub set_status : Text → Text → RowStatus → List SessionRow → List SessionRow × ℕ
set_status user id status [] = ([], 0)
set_status user id status (r ∷ rs) =
    let (rest, n) = set_status user id status rs in
    if is_row user id r then (record r { status = status } ∷ rest, n + 1) else (r ∷ rest, n)

-- The server answers "UPDATE n". The id is a primary key, so that n is 0 or 1, and `endswith(" 1")`
-- asks for the one. The callers give ids in canonical form, which the casts leave as they are.
unfoldable pub update_session_status : Text → Text → RowStatus → UserDb → UserDb × Result Bool
update_session_status user id status db = elim (require_pool db) [
  | err e ↦ (db, err e)
  | ok _ ↦
      let (rows, n) = set_status user id status db.sessions in
      (record db { sessions = rows }, ok (n == 1))
]

-- `SELECT … FROM user_sessions WHERE id = … AND user_id = …`, the first row.
unfoldable pub find_session : Text → Text → List SessionRow → Option SessionRow
find_session user id [] = none
find_session user id (r ∷ rs) = if is_row user id r then some r else find_session user id rs
