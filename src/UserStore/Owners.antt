-- ===== src/UserStore/Owners.antt =====
-- Who owns what: the subject of a session is one of the user's, and a call of one user leaves the
-- rows of the others as they are.
pub mod Checks
pub mod Inserts
pub mod Kept
pub mod Isolation
pub mod Statements
pub mod Apart
pub mod History
use study_helper_backend.Prelude.{
  ℕ, ◌≡◌, Bool, true, false, Option, none, some, List, [], ◌∷◌, All, filter,
}
use study_helper_backend.Text.{Text, text_eq}
use study_helper_backend.UserStore.{SubjectRow, SessionRow, UserDb, Server}
use study_helper_backend.UserStore.Subjects.{owns}

-- What PostgreSQL documents of UUIDs: the empty text is none, and a canonical text is read as itself.
pub record IsPostgres (srv : Server) : Type 0 where
  pub empty : srv.uuid [] ≡ none
  pub canonical : (t id : Text) → srv.uuid t ≡ some id → srv.uuid id ≡ some id

abbrev pub SubjectOf : List SubjectRow → Text → Option Text → Type 0
SubjectOf subjects user none = Unit
SubjectOf subjects user (some id) = owns user id subjects ≡ true

-- The row names a subject that its user has, or none.
abbrev pub RowOwned : List SubjectRow → SessionRow → Type 0
RowOwned subjects r = SubjectOf subjects r.user_id r.subject_id

abbrev pub Owned : UserDb → Type 0
Owned db = All (RowOwned db.subjects) db.sessions

-- The rows of one user.
abbrev pub sessions_of : Text → UserDb → List SessionRow
sessions_of user db = filter (λ (r : SessionRow). text_eq r.user_id user) db.sessions

abbrev pub subjects_of : Text → UserDb → List SubjectRow
subjects_of user db = filter (λ (r : SubjectRow). text_eq r.user_id user) db.subjects
