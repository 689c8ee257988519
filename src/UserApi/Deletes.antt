-- ===== src/UserApi/Deletes.antt =====
-- `DELETE /user/sessions/{session_id}`.
use study_helper_backend.Prelude.{
  ◌≡◌, refl, Bool, true, false, not, Option, none, some, List, [], ◌∷◌, any, filter, Bool-cases,
  inl, inr, if◌then◌else◌,
}
use study_helper_backend.Text.{Text, text, text_eq}
use study_helper_backend.Outcome.{Result, ok, err, http_exception}
use study_helper_backend.Sessions.{Store, get, delete}
use study_helper_backend.Sessions.Laws.{delete_lem}
use study_helper_backend.UserStore.{SessionRow, UserDb, Server, is_row, find_session}
use study_helper_backend.UserStore.Review.{ReviewRow}
use study_helper_backend.UserStore.Query.{◌>>=◌, pool, cast}
use study_helper_backend.UserStore.Query.Loops.{Gives, >>=-Gives}
use study_helper_backend.UserStore.Create.{remove_session}
use study_helper_backend.UserStore.Create as Create
use study_helper_backend.UserApi.{delete_row, require_deleted, then_forget, delete_session}

find_session-filter :
    (user id : Text) (rows : List SessionRow)
    → find_session user id (filter (λ r. not (is_row user id r)) rows) ≡ none
unfolding find_session
find_session-filter user id [] = refl
find_session-filter user id (r ∷ rows) = elim (Bool-cases (is_row user id r)) [
  | inl mine ↦ rw mine (find_session-filter user id rows)
  | inr other ↦ rw (other, other) (find_session-filter user id rows)
]

any-filter :
    (id : Text) (rows : List ReviewRow)
    → any
        (λ (v : ReviewRow). text_eq v.session_id id)
        (filter (λ (v : ReviewRow). not (text_eq v.session_id id)) rows)
      ≡ false
any-filter id [] = refl
any-filter id (v ∷ rows) = elim (Bool-cases (text_eq v.session_id id)) [
  | inl mine ↦ rw mine (any-filter id rows)
  | inr other ↦ rw (other, other) (any-filter id rows)
]

module _ (srv : Server) (user session_id : Text) where
  -- No row of the session is left, and no review of it.
  abbrev pub Gone : UserDb → Type 0
  Gone db =
      (id : Text) × (srv.uuid session_id ≡ some id)
      × (find_session user id db.sessions ≡ none)
      × (any (λ (v : ReviewRow). text_eq v.session_id id) db.reviews ≡ false)

  abbrev Left : Text → Bool → UserDb → Type 0
  Left id deleted db =
      deleted ≡ true
      → (find_session user id db.sessions ≡ none)
        × (any (λ (v : ReviewRow). text_eq v.session_id id) db.reviews ≡ false)

  remove_session-Gives : (id : Text) (db : UserDb) → Gives (Left id) (remove_session user id db)
  unfolding remove_session
  remove_session-Gives id db = elim (Bool-cases (any (is_row user id) db.sessions)) [
    | inl there ↦
        rw there (λ e. (find_session-filter user id db.sessions, any-filter id db.reviews))
    | inr missing ↦ rw missing (λ e. absurd (cc e))
  ]

  cast-Gives : (o : Option Text) (db : UserDb) → Gives (λ id db'. o ≡ some id) (cast o db)
  cast-Gives none db = tt
  cast-Gives (some id) db = refl

  pool-Gives : (db : UserDb) → Gives (λ _ _. Unit) (pool db)
  pool-Gives db = go (pool db)
    where
      go : (r : UserDb × Result (Unit {0})) → Gives (λ _ _. Unit) r
      go (db, ok u) = tt
      go (db, err e) = tt

  delete_store-Gives :
      (db : UserDb)
      → Gives
          (λ deleted db'. deleted ≡ true → Gone db')
          (Create.delete_session srv user session_id db)
  unfolding Create.delete_session
  delete_store-Gives db =
      >>=-Gives pool (λ _. cast (srv.uuid session_id) >>= remove_session user) db (λ _ _. Unit)
        (λ deleted db'. deleted ≡ true → Gone db') (pool-Gives db)
        (λ _ db1 _.
          >>=-Gives (cast (srv.uuid session_id)) (remove_session user) db1
            (λ id db'. srv.uuid session_id ≡ some id) (λ deleted db'. deleted ≡ true → Gone db')
            (cast-Gives (srv.uuid session_id) db1)
            (λ id db2 e. named id e (remove_session user id db2) (remove_session-Gives id db2)))
    where
      named :
          (id : Text)
          → srv.uuid session_id ≡ some id
          → (r : UserDb × Result Bool) → Gives (Left id) r
          → Gives (λ deleted db'. deleted ≡ true → Gone db') r
      named id e (db', ok deleted) h = λ t. let (gone, none_left) = h t in (id, e, gone, none_left)
      named id e (db', err f) h = tt

  delete_row-Gives : (db : UserDb) → Gives (λ _ db'. Gone db') (delete_row srv user session_id db)
  unfolding delete_row
  delete_row-Gives db =
      >>=-Gives (Create.delete_session srv user session_id)
        (require_deleted (http_exception 404 (text "세션을 찾을 수 없습니다"))) db
        (λ deleted db'. deleted ≡ true → Gone db') (λ _ db'. Gone db') (delete_store-Gives db)
        (λ deleted db1 gone. answered deleted db1 gone)
    where
      answered :
          (deleted : Bool) (db1 : UserDb)
          → (deleted ≡ true → Gone db1)
          → Gives
              (λ _ db'. Gone db')
              (require_deleted (http_exception 404 (text "세션을 찾을 수 없습니다")) deleted db1)
      answered true db1 gone = gone refl
      answered false db1 gone = tt

  -- A deletion that is answered leaves in the database neither the row of the UUID that the id is read
  -- as nor a review of it, and of the records in memory it takes away the one under the text of the
  -- id, as it was sent, and no other.
  pub delete_session-Gone :
      (store store' : Store) (db db' : UserDb)
      → delete_session srv user session_id store db ≡ (store', db', ok tt)
      → Gone db'
        × ((id : Text) → get store' id ≡ (if text_eq session_id id then none else get store id))
  unfolding delete_session
  delete_session-Gone store store' db db' h =
      go (delete_row srv user session_id db) (delete_row-Gives db) h
    where
      go :
          (r : UserDb × Result (Unit {0}))
          → Gives (λ _ db'. Gone db') r
          → then_forget session_id store r ≡ (store', db', ok tt)
          → Gone db'
            × ((id : Text) → get store' id ≡ (if text_eq session_id id then none else get store id))
      go (db1, ok u) gone k =
          let stores : (delete session_id store).0 ≡ store' = cc k in
          let bases : db1 ≡ db' = cc k in
          rw (← stores, ← bases) (gone, λ id. (delete_lem store session_id id).0)
      go (db1, err f) gone k = absurd (cc k)
