-- ===== src/UserStore/Subjects.antt =====
-- The subjects of a user.
use study_helper_backend.Prelude.{
  ℕ, ◌+◌, Bool, true, false, ◌&&◌, Option, none, some, List, [], ◌∷◌, ◌++◌, filter, order_by, any,
  leb, not, if◌then◌else◌,
}
use study_helper_backend.Text.{Text, text_eq}
use study_helper_backend.Outcome.{ok}
use study_helper_backend.UserStore.{SubjectRow, SessionRow, UserDb, Server}
use study_helper_backend.UserStore.Query.{
  Query, ◌>>=◌, ◌>>◌, pure, pool, refused, cast, for_each, bulk,
}

pub record SubjectCreate : Type 0 where
  pub name : Text
  pub color : Text

-- `SELECT … WHERE user_id = … ORDER BY created_at`
unfoldable pub get_subjects : Text → Query (List SubjectRow)
get_subjects user = do
  pool
  λ db. (
    db,
    ok (
        order_by (λ a b. leb a.created_at b.created_at)
          (filter (λ (r : SubjectRow). text_eq r.user_id user) db.subjects)),
  )

-- `WHERE user_id = … AND name = …`
unfoldable pub find_subject : Text → Text → List SubjectRow → Option SubjectRow
find_subject user name [] = none
find_subject user name (r ∷ rs) =
    if text_eq r.user_id user && text_eq r.name name then some r else find_subject user name rs

unfoldable pub recolor : Text → Text → Text → List SubjectRow → List SubjectRow
recolor user name color [] = []
recolor user name color (r ∷ rs) =
    let rest = recolor user name color rs in
    if text_eq r.user_id user && text_eq r.name name
    then record r { color = color } ∷ rest
    else r ∷ rest

-- `SELECT 1 … WHERE id = … AND user_id = …`
unfoldable pub owns : Text → Text → List SubjectRow → Bool
owns user id rows = any (λ (r : SubjectRow). text_eq r.id id && text_eq r.user_id user) rows

-- The row that an `INSERT` adds.
abbrev pub new_subject : Server → Text → SubjectCreate → UserDb → SubjectRow
new_subject srv user s db = record {
  id = srv.gen_random_uuid db.inserted;
  user_id = user;
  name = s.name;
  color = s.color;
  created_at = srv.now db.inserted;
}

-- `INSERT INTO user_subjects`, once `(user_id, name)` is known to be new: the id is a primary key.
unfoldable pub insert_subject : Server → Text → SubjectCreate → Query SubjectRow
insert_subject srv user s db =
    let r = new_subject srv user s db in
    if any (λ (q : SubjectRow). text_eq q.id r.id) db.subjects
    then refused db
    else (record db { subjects = db.subjects ++ r ∷ []; inserted = db.inserted + 1 }, ok r)

unfoldable pub upsert_subject : Server → Text → SubjectCreate → Query SubjectRow
unfolding find_subject recolor insert_subject
upsert_subject srv user s db = elim (find_subject user s.name db.subjects) [
  | none ↦ insert_subject srv user s db
  | some r ↦ (
    record db { subjects = recolor user s.name s.color db.subjects },
    ok (record r { color = s.color }),
  )
]

unfoldable pub create_subject : Server → Text → SubjectCreate → Query SubjectRow
unfolding upsert_subject
create_subject srv user s = do pool; upsert_subject srv user s

abbrev pub in_use : Text → SessionRow → Bool
in_use id r = elim r.subject_id [ none ↦ false | some s ↦ text_eq s id ]

-- `DELETE … WHERE id = … AND user_id = …`: a subject that a session names cannot be deleted.
unfoldable pub remove_subject : Text → Text → Query Bool
unfolding owns
remove_subject user id db =
    if owns user id db.subjects
    then if any (in_use id) db.sessions then refused db else (
      record db {
        subjects =
            filter (λ (r : SubjectRow). not (text_eq r.id id && text_eq r.user_id user))
              db.subjects;
      },
      ok true,
    )
    else (db, ok false)

unfoldable pub delete_subject : Server → Text → Text → Query Bool
unfolding remove_subject
delete_subject srv user subject_id = do
  pool
  id ← cast (srv.uuid subject_id)
  remove_subject user id

-- `ON CONFLICT (user_id, name) DO NOTHING`
unfoldable pub add_subject : Server → Text → SubjectCreate → Query (Unit {0})
unfolding find_subject insert_subject
add_subject srv user s db = elim (find_subject user s.name db.subjects) [
  | none ↦ (insert_subject srv user s >>= λ _. pure tt) db
  | some r ↦ (db, ok tt)
]

unfoldable pub add_subjects : Server → Text → List SubjectCreate → Query (Unit {0})
unfolding add_subject for_each
add_subjects srv user ss = for_each (add_subject srv user) ss

unfoldable pub sync_subjects : Server → Text → List SubjectCreate → Query ℕ
unfolding add_subjects bulk
sync_subjects srv user subjects = bulk subjects (add_subjects srv user subjects)
