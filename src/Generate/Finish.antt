-- ===== src/Generate/Finish.antt =====
-- How the task ends: `_sync_user_session_status`, `_fail` and `_finalize_ready`.
pub mod Laws
use study_helper_backend.Prelude.{ℕ, Bool, true, false, Option, none, some, is_empty, if◌then◌else◌}
use study_helper_backend.Text.{Text, text}
use study_helper_backend.Outcome.{Result, ok, err}
use study_helper_backend.Sessions.{SessionRecord, Update, update_status, complete, failed}
use study_helper_backend.UserStore.{RowStatus, UserDb, update_session_status}
use study_helper_backend.Generate.Job.{World, Job, ◌>>=◌, ◌>>◌, modify, stop}

abbrev pub is_true : Result Bool → Bool
is_true (ok b) = b
is_true (err e) = false

-- A guest has no row, so that there is nothing to do.
unfoldable pub sync_status : Option Text → Text → RowStatus → World → World × Bool
sync_status none id status w = (w, true)
sync_status (some user) id status w =
    if is_empty user
    then (w, true)
    else (let (users, updated) = update_session_status user id status w.users in
        (record w { users = users }, is_true updated))

unfoldable pub update_session : Text → Update → World → World
unfolding update_status
update_session id u w = record w { sessions = update_status id u w.sessions }

abbrev pub failure : Text → Option Text → Update
failure message result = record {
  status = failed;
  progress_pct = 0;
  error_message = some message;
  result_json = result;
}

abbrev pub success : Text → Update
success result = record {
  status = complete;
  progress_pct = 100;
  error_message = none;
  result_json = some result;
}

-- `_fail`, whose sync may fail too: its answer is not looked at.
unfoldable pub fail : Option Text → Text → Text → World → World
unfolding update_session sync_status
fail user id message w =
    (sync_status user id RowStatus.failed (update_session id (failure message none) w)).0

-- "The status of the database could not be brought in line; please generate the session again."
abbrev pub sync_failed : Text
sync_failed = text "DB 상태 동기화 실패 — 세션을 다시 생성해주세요."

unfoldable pub finalize_ready : Option Text → Text → Text → World → World
unfolding update_session sync_status
finalize_ready user id result w =
    let (w', synced) = sync_status user id RowStatus.ready (update_session id (success result) w) in
    if synced then w' else update_session id (failure sync_failed (some result)) w'
