-- ===== src/UserStore/Laws.antt =====
-- The statements on `user_sessions`.
use study_helper_backend.Prelude.{
  ◌≡◌, ◌≢◌, refl, true, Option, none, some, List, [], ◌∷◌, arith, Bool-cases, inl, inr, ◌==◌,
}
use study_helper_backend.Text.{Text}
use study_helper_backend.Outcome.{Result, ok, err}
use study_helper_backend.UserStore.{
  RowStatus, SessionRow, UserDb, require_pool, is_row, set_status, update_session_status,
  find_session,
}

abbrev pub with_status : RowStatus → Option SessionRow → Option SessionRow
with_status s none = none
with_status s (some r) = some (record r { status = s })

pub find_session-set_status :
    (user id : Text) (s : RowStatus) (rows : List SessionRow)
    → find_session user id (set_status user id s rows).0 ≡ with_status s (find_session user id rows)
unfolding find_session set_status is_row
find_session-set_status user id s [] = refl
find_session-set_status user id s (r ∷ rows) =
    ground (arith, find_session-set_status user id s rows)

set_status-some :
    (user id : Text) (s : RowStatus) (rows : List SessionRow)
    → (set_status user id s rows).1 ≢ 0
    → (r : SessionRow) × (find_session user id rows ≡ some r)
unfolding find_session set_status
set_status-some user id s [] h = absurd (h refl)
set_status-some user id s (r ∷ rows) h = elim (Bool-cases (is_row user id r)) [
  | inl here ↦ (r, rw here)
  | inr other ↦
      let (q, found) = set_status-some user id s rows (rw other at h) in (q, rw other found)
]

-- Where the store answers True, the row of the user's session has the status that was asked for.
pub update_session_status-ok :
    (user id : Text) (s : RowStatus) (db : UserDb)
    → (update_session_status user id s db).1 ≡ ok true
    → (r : SessionRow) × (find_session user id (update_session_status user id s db).0.sessions
        ≡ some r)
      × (r.status ≡ s)
unfolding update_session_status
update_session_status-ok user id s db h = go (require_pool db) refl
  where
    go :
        (p : Result (Unit {0}))
        → require_pool db ≡ p
        → (r : SessionRow) × (find_session user id (update_session_status user id s db).0.sessions
            ≡ some r)
          × (r.status ≡ s)
    go (err e) p = absurd (cc (rw (p, update_session_status) at h))
    go (ok u) p =
        let one : ((set_status user id s db.sessions).1 == 1) ≡ true =
          cc (rw (p, update_session_status) at h) in
        let (q, found) = set_status-some user id s db.sessions (λ z. ground arith) in
        (
          record q { status = s },
          rw (p, update_session_status) (rw (find_session-set_status user id s db.sessions, found)),
          refl,
        )
