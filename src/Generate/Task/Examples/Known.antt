-- ===== src/Generate/Task/Examples/Known.antt =====
-- The background task for a document that the question bank knows, and its end.
use study_helper_backend.Prelude.{◌≡◌, refl, false, [], ◌∷◌, some, is_empty, arith}
use study_helper_backend.Text.{text_eq, text}
use study_helper_backend.Config.{defaults}
use study_helper_backend.Sessions.{SessionRecord, complete, get, apply}
use study_helper_backend.Sessions.Laws.{IsKeyed}
use study_helper_backend.Text.Laws.{text_eq_iff}
use study_helper_backend.UserStore.{
  is_row, set_status, update_session_status, require_pool, RowStatus, SessionRow, find_session,
}
use study_helper_backend.QuestionBank.{get_cached}
use study_helper_backend.Generate.Job.{World}
use study_helper_backend.Generate.Finish.{success, finalize_ready}
use study_helper_backend.Generate.Finish.Laws.{Has, finalize_ready_consistent}
use study_helper_backend.Generate.Task.{run_generation}
use study_helper_backend.Generate.Task.Cache.{Served, run_generation-Served}
use study_helper_backend.Examples.Ascii.{ascii, loads}
use study_helper_backend.Examples.Stores.{session}
use study_helper_backend.Generate.Task.Examples.{services, dumped, today, task, world, world-Has}

-- The document of this session is in the bank.
abbrev known_world : World
known_world = record world { sessions = (text "s1", record session { pdf_hash = text "h2" }) ∷ [] }

known-IsKeyed : IsKeyed known_world.sessions
unfolding text_eq text get
known-IsKeyed = record { own_id = λ id r found. ground (arith, text_eq_iff (text "s1") id) }

known_found : get known_world.sessions (text "s1") ≡ some (record session { pdf_hash = text "h2" })
unfolding text get text_eq
known_found = refl

abbrev known_session : Has (text "s1") known_world
known_session = record {
  keyed = known-IsKeyed;
  at = record session { pdf_hash = text "h2" };
  found = known_found;
}

known_cached : (get_cached (text "h2") known_world.bank).1 ≡ some (text "content")
unfolding text_eq get_cached text
known_cached = refl

some_content : is_empty (text "content") ≡ false
unfolding text
some_content = refl

run_generation-Served_example :
    Served task.session_id
      (text "content")
      known_world
      (run_generation (ascii loads) defaults services dumped today task known_world)
run_generation-Served_example =
    run_generation-Served (ascii loads) defaults services dumped today task known_world
      (text "content") known_session known_cached some_content

abbrev finalized : SessionRecord
finalized = apply (success (text "content")) session

finalized_found :
    get (finalize_ready (some (text "u1")) (text "s1") (text "content") world).sessions (text "s1")
    ≡ some finalized
unfolding text finalize_ready update_session_status get text_eq set_status is_row require_pool
finalized_found = refl

finalized_complete : finalized.status ≡ complete
unfolding study_helper_backend.Validator.Mcq.complete apply
finalized_complete = refl

a_user : is_empty (text "u1") ≡ false
unfolding text
a_user = refl

finalize_ready_consistent_example :
    (row : SessionRow) × (find_session
        (text "u1")
        (text "s1")
        (finalize_ready (some (text "u1")) (text "s1") (text "content") world).users.sessions
      ≡ some row)
    × (row.status ≡ RowStatus.ready)
finalize_ready_consistent_example =
    finalize_ready_consistent (text "u1") (text "s1") (text "content") world finalized a_user
      world-Has finalized_found finalized_complete
