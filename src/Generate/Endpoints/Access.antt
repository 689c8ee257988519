-- ===== src/Generate/Endpoints/Access.antt =====
-- Who gets at a session, and when a generation starts.
use study_helper_backend.Prelude.{
  ◌≡◌, ◌≢◌, refl, ◌⊎◌, inl, inr, Bool, true, false, Option, none, some, Bool-cases,
}
use study_helper_backend.Text.{Text, text, text_eq}
use study_helper_backend.Text.Laws.{text_eq_iff}
use study_helper_backend.Outcome.{Failure, Result, ok, err, >>=-eq-ok, http_exception}
use study_helper_backend.Schema.{StudyContent}
use study_helper_backend.Sessions.{
  SessionRecord, Store, Status, uploaded, processing, complete, failed, get,
}
use study_helper_backend.UserStore.{UserDb}
use study_helper_backend.QuestionBank.{Bank}
use study_helper_backend.Generate.Task.{Task}
use study_helper_backend.Generate.Endpoints.{
  task_of, GenerateRequest, validate_api_key, check_ownership, require, key_required, resolved_key,
  existing, is_uuid, started, start_generation, result_of, get_result, delete_existing,
  delete_session,
}

owned :
    (owner user : Option Text) (r : SessionRecord)
    → r.user_id ≡ owner
    → check_ownership r user ≡ ok tt
    → r.user_id ≡ user
unfolding check_ownership
owned none none r e h = e
owned none (some u) r e h = absurd (cc (rw (e, check_ownership) at h))
owned (some o) none r e h = absurd (cc (rw (e, check_ownership) at h))
owned (some o) (some u) r e h = elim (Bool-cases (text_eq u o)) [
  | inl same ↦ let s = (text_eq_iff u o).0 same in cc (e, s)
  | inr other ↦ absurd (cc (rw (e, other, check_ownership) at h))
]

-- `_check_ownership` lets a caller in only if the session is his, or a guest's and he is one.
check_ownership_lem :
    (r : SessionRecord) (user : Option Text) (u : Unit {0})
    → check_ownership r user ≡ ok u
    → r.user_id ≡ user
check_ownership_lem r user u h = owned r.user_id user r refl h

require_lem : (b : Bool) (e : Failure) (u : Unit {0}) → require b e ≡ ok u → b ≡ true
require_lem true e u h = refl
require_lem false e u h = absurd (cc h)

existing_lem : (o : Option SessionRecord) (r : SessionRecord) → existing o ≡ ok r → o ≡ some r
existing_lem none r h = absurd (cc h)
existing_lem (some q) r h = let e : q ≡ r = cc h in cc e

started_lem :
    (s s' : Status) (task task' : Task)
    → started s task ≡ (s', some task')
    → ((s ≡ uploaded) ⊎ (s ≡ failed)) × (task ≡ task')
started_lem uploaded s' task task' h = (inl refl, cc h)
started_lem failed s' task task' h = (inr refl, cc h)
started_lem complete s' task task' h = absurd (cc h)
started_lem processing s' task task' h = absurd (cc h)

module _ (uuid cast : Text → Option Text) (read_content : Text → Option StudyContent) where
  -- A task that `start_generation` hands over is that of the request: for its session, with its plan,
  -- its options and its language, and with the key that the header or the body gives, which has the
  -- format of the plan. The id is a UUID, the session is there and the caller's, and it is neither
  -- complete nor being processed.
  pub start_generation-task :
      (header user : Option Text) (body : GenerateRequest) (store : Store) (s : Status)
      (task : Task)
      → start_generation uuid cast read_content header user body store ≡ ok (s, some task)
      → (r : SessionRecord) × (get store body.session_id ≡ some r)
        × (r.user_id ≡ user)
        × ((r.status ≡ uploaded) ⊎ (r.status ≡ failed))
        × (is_uuid (uuid body.session_id) ≡ true)
        × (validate_api_key task.api_key task.plan ≡ true)
        × (task.session_id ≡ body.session_id)
        × (task.api_key ≡ resolved_key header body)
        × (task ≡ task_of body (resolved_key header body))
  unfolding start_generation
  start_generation-task header user body store s task h =
      let key = resolved_key header body in
      let (u1, valid, h1) =
        >>=-eq-ok
          (require (validate_api_key key body.plan) (http_exception 400 (key_required body.plan))) _
          h in
      let (u2, uuid_there, h2) =
        >>=-eq-ok
          (require (is_uuid (uuid body.session_id))
            (http_exception 400 (text "Invalid session ID format.")))
          _ h1 in
      let (r, found, h3) = >>=-eq-ok (existing (get store body.session_id)) _ h2 in
      let (u3, mine, h4) = >>=-eq-ok (check_ownership r user) _ h3 in
      let e : started r.status (task_of body key) ≡ (s, some task) = cc h4 in
      let (startable, same) = started_lem r.status s (task_of body key) task e in
      let id : task.session_id ≡ body.session_id = cc same in
      let own_key : task.api_key ≡ key = cc same in
      let plan : task.plan ≡ body.plan = cc same in
      (
        r,
        existing_lem (get store body.session_id) r found,
        check_ownership_lem r user u3 mine,
        startable,
        require_lem _ _ u2 uuid_there,
        rw (own_key, plan) (require_lem _ _ u1 valid),
        id,
        own_key,
        cc same,
      )

  -- A result that the store has goes only to the caller whose session it is.
  result_of-own :
      (id : Text) (user : Option Text) (db : UserDb) (bank : Bank) (r : SessionRecord)
      (c : StudyContent)
      → (result_of uuid cast read_content id user db bank (some r)).1 ≡ ok c
      → r.user_id ≡ user
  unfolding result_of
  result_of-own id user db bank r c h = go (check_ownership r user) refl
    where
      go : (m : Result (Unit {0})) → check_ownership r user ≡ m → r.user_id ≡ user
      go (ok u) e = check_ownership_lem r user u e
      go (err x) e = absurd (cc (rw (e, result_of) at h))

  -- A result of a session that the store has goes only to the caller whose session it is, or to a
  -- guest for a guest's session.
  pub get_result-own :
      (id : Text) (user : Option Text) (store : Store) (db : UserDb) (bank : Bank)
      → (r : SessionRecord) (c : StudyContent) → get store id ≡ some r
      → (get_result uuid cast read_content id user store db bank).1 ≡ ok c
      → r.user_id ≡ user
  unfolding get_result
  get_result-own id user store db bank r c found h = elim (Bool-cases (is_uuid (uuid id))) [
    | inl valid ↦ result_of-own id user db bank r c (rw (valid, found, get_result) at h)
    | inr broken ↦ absurd (cc (rw (broken, get_result) at h))
  ]

  delete_existing-foreign :
      (id : Text) (user : Option Text) (store : Store) (r : SessionRecord)
      → r.user_id ≢ user
      → (delete_existing uuid cast read_content id user (some r) store).0 ≡ store
  unfolding delete_existing
  delete_existing-foreign id user store r foreign = go (check_ownership r user) refl
    where
      go :
          (m : Result (Unit {0}))
          → check_ownership r user ≡ m
          → (delete_existing uuid cast read_content id user (some r) store).0 ≡ store
      go (ok u) e = absurd (foreign (check_ownership_lem r user u e))
      go (err x) e = rw (e, delete_existing) refl

  -- A caller whose session it is not deletes nothing.
  pub delete_session-foreign :
      (id : Text) (user : Option Text) (store : Store) (r : SessionRecord)
      → get store id ≡ some r
      → r.user_id ≢ user
      → (delete_session uuid cast read_content id user store).0 ≡ store
  unfolding delete_session
  delete_session-foreign id user store r found foreign = elim (Bool-cases (is_uuid (uuid id))) [
    | inl valid ↦
        rw (valid, found, delete_session) (delete_existing-foreign id user store r foreign)
    | inr broken ↦ rw (broken, delete_session) refl
  ]
