-- ===== src/Generate/Finish/Laws.antt =====
-- What `_fail` and `_finalize_ready` leave in the session store and in the database.
use study_helper_backend.Prelude.{
  ◌≡◌, refl, ap, ◌⊎◌, inl, inr, true, false, Bool, Option, none, some, arith, is_empty, Bool-cases,
}
use study_helper_backend.Text.{Text}
use study_helper_backend.Text.Laws.{text_eq_refl}
use study_helper_backend.Outcome.{Result, ok, err}
use study_helper_backend.Sessions.{SessionRecord, Status, complete, Update, get, apply}
use study_helper_backend.Sessions.Laws.{IsKeyed, get-update_status, update_status-IsKeyed}
use study_helper_backend.UserStore.{RowStatus, SessionRow, find_session, update_session_status}
use study_helper_backend.UserStore.Laws.{update_session_status-ok}
use study_helper_backend.Generate.Job.{World}
use study_helper_backend.Generate.Finish.{
  is_true, sync_status, update_session, failure, success, fail, sync_failed, finalize_ready,
}

-- The store keeps every record under its own id, and it has the session.
pub record Has (id : Text) (w : World) : Type 0 where
  pub keyed : IsKeyed w.sessions
  pub at : SessionRecord
  pub found : get w.sessions id ≡ some at

pub update_session-get :
    (id : Text) (u : Update) (w : World) (h : Has id w)
    → get (update_session id u w).sessions id ≡ some (apply u h.at)
unfolding update_session
update_session-get id u w h =
    rw (get-update_status w.sessions id id u h.keyed, text_eq_refl id, h.found)

pub update_session-Has :
    (id : Text) (u : Update) (w : World) → Has id w → Has id (update_session id u w)
unfolding update_session
update_session-Has id u w h = record {
  keyed = update_status-IsKeyed w.sessions id u h.keyed;
  at = apply u h.at;
  found = update_session-get id u w h;
}

pub sync_status-sessions :
    (user : Option Text) (id : Text) (s : RowStatus) (w : World)
    → (sync_status user id s w).0.sessions ≡ w.sessions
unfolding sync_status
sync_status-sessions none id s w = refl
sync_status-sessions (some user) id s w = ground arith

-- A session that is there, and whose work is over.
pub record Finished (id : Text) (w : World) : Type 0 where
  pub keyed : IsKeyed w.sessions
  pub at : SessionRecord
  pub found : get w.sessions id ≡ some at
  pub over : (at.status ≡ complete) ⊎ (at.status ≡ Status.failed)

update_session-Finished :
    (id : Text) (u : Update) (w : World)
    → Has id w
    → (u.status ≡ complete) ⊎ (u.status ≡ Status.failed)
    → Finished id (update_session id u w)
update_session-Finished id u w h over =
    let h' = update_session-Has id u w h in
    record {
      keyed = h'.keyed;
      at = apply u h.at;
      found = update_session-get id u w h;
      over = unfold apply in over;
    }

sync_status-Finished :
    (user : Option Text) (id : Text) (s : RowStatus) (w : World)
    → Finished id w
    → Finished id (sync_status user id s w).0
sync_status-Finished user id s w f =
    let e = sync_status-sessions user id s w in
    record { keyed = rw e f.keyed; at = f.at; found = rw e f.found; over = f.over }

sync_status-Has :
    (user : Option Text) (id : Text) (s : RowStatus) (w : World)
    → Has id w
    → Has id (sync_status user id s w).0
sync_status-Has user id s w h =
    let e = sync_status-sessions user id s w in
    record { keyed = rw e h.keyed; at = h.at; found = rw e h.found }

pub fail-Finished :
    (user : Option Text) (id message : Text) (w : World)
    → Has id w
    → Finished id (fail user id message w)
unfolding fail
fail-Finished user id message w h =
    sync_status-Finished user id RowStatus.failed (update_session id (failure message none) w)
      (update_session-Finished id (failure message none) w h (inr refl))

-- A session whose work is over, and that carries the result.
pub record Ready (id result : Text) (w : World) : Type 0 where
  pub finished : Finished id w
  pub carries : finished.at.result_json ≡ some result

update_session-Ready :
    (id result : Text) (u : Update) (w : World)
    → Has id w
    → (u.status ≡ complete) ⊎ (u.status ≡ Status.failed)
    → u.result_json ≡ some result
    → Ready id result (update_session id u w)
unfolding update_session-Finished
update_session-Ready id result u w h over given = record {
  finished = update_session-Finished id u w h over;
  carries = unfold apply in rw given refl;
}

sync_status-Ready :
    (user : Option Text) (id result : Text) (s : RowStatus) (w : World)
    → Ready id result w
    → Ready id result (sync_status user id s w).0
unfolding sync_status-Finished
sync_status-Ready user id result s w f = record {
  finished = sync_status-Finished user id s w f.finished;
  carries = f.carries;
}

-- Whether or not the database can be brought in line, the session is over and carries the result.
pub finalize_ready-Ready :
    (user : Option Text) (id result : Text) (w : World)
    → Has id w
    → Ready id result (finalize_ready user id result w)
unfolding finalize_ready
finalize_ready-Ready user id result w h =
    let v = update_session id (success result) w in
    let (v', synced) = sync_status user id RowStatus.ready v in
    elim (Bool-cases synced) [
      | inl good ↦
          rw (good, finalize_ready)
            (sync_status-Ready user id result RowStatus.ready v
              (update_session-Ready id result (success result) w h (inl refl) refl))
      | inr bad ↦
          rw (bad, finalize_ready)
            (update_session-Ready id result (failure sync_failed (some result)) v'
              (sync_status-Has user id RowStatus.ready v
                (update_session-Has id (success result) w h))
              (inr refl) refl)
    ]

finalize_ready-get :
    (user : Option Text) (id result : Text) (w : World)
    → (sync_status user id RowStatus.ready (update_session id (success result) w)).1 ≡ false
    → (h : Has id w)
    → get (finalize_ready user id result w).sessions id
      ≡ some (apply (failure sync_failed (some result)) (apply (success result) h.at))
unfolding finalize_ready sync_status-Has update_session-Has
finalize_ready-get user id result w bad h =
    let v = update_session id (success result) w in
    rw (bad, finalize_ready)
      (update_session-get id (failure sync_failed (some result))
        (sync_status user id RowStatus.ready v).0
        (sync_status-Has user id RowStatus.ready v (update_session-Has id (success result) w h)))

is_true_ok : (a : Result Bool) → is_true a ≡ true → a ≡ ok true
is_true_ok (ok b) h = ap ok h
is_true_ok (err e) h = absurd (cc h)

sync_status-ready :
    (user id : Text) (s : RowStatus) (w : World)
    → is_empty user ≡ false
    → (sync_status (some user) id s w).1 ≡ true
    → (r : SessionRow) × (find_session user id (sync_status (some user) id s w).0.users.sessions
        ≡ some r)
      × (r.status ≡ s)
unfolding sync_status
sync_status-ready user id s w some_user h =
    rw (some_user, sync_status)
      (update_session_status-ok user id s w.users
        (is_true_ok (update_session_status user id s w.users).1 (rw (some_user, sync_status) at h)))

-- For a session of a user that the store has, "complete" in the session store is backed by the database: after
-- `_finalize_ready` the session is complete only if the user's row of it has the status "ready".
pub finalize_ready_consistent :
    (user id result : Text) (w : World) (r : SessionRecord)
    → is_empty user ≡ false
    → Has id w
    → get (finalize_ready (some user) id result w).sessions id ≡ some r
    → r.status ≡ complete
    → (row : SessionRow) × (find_session user id
          (finalize_ready (some user) id result w).users.sessions
        ≡ some row)
      × (row.status ≡ RowStatus.ready)
unfolding finalize_ready
finalize_ready_consistent user id result w r some_user h found over =
    let v = update_session id (success result) w in
    elim (Bool-cases (sync_status (some user) id RowStatus.ready v).1) [
      | inl good ↦
          rw (good, finalize_ready) (sync_status-ready user id RowStatus.ready v some_user good)
      | inr bad ↦ absurd (
          let e : r ≡ apply (failure sync_failed (some result)) (apply (success result) h.at) =
            cc (found, finalize_ready-get (some user) id result w bad h) in
          cc (over, e))
    ]
