-- ===== src/Generate/Task/Cache.antt =====
-- A document that the question bank knows.
use study_helper_backend.Prelude.{◌≡◌, refl, ◌∙◌, false, Option, none, some, is_empty, arith}
use study_helper_backend.Text.{Text}
use study_helper_backend.Runtime.{Runtime}
use study_helper_backend.Config.{Settings}
use study_helper_backend.Schema.{StudyContent}
use study_helper_backend.Sessions.{SessionRecord}
use study_helper_backend.QuestionBank.{get_cached}
use study_helper_backend.Generate.Job.{World, Job, End, continue, done, stopped, died, ◌>>=◌}
use study_helper_backend.Generate.Finish.{sync_status, update_session, finalize_ready}
use study_helper_backend.Generate.Finish.Laws.{Has, Ready, finalize_ready-Ready}
use study_helper_backend.Generate.Stages.{Services}
use study_helper_backend.Generate.Task.Steps.{same_sessions-Has}
use study_helper_backend.Generate.Task.{Task, use_cache, finish_cached, run_session, run_generation}

finalize_ready-clients :
    (user : Option Text) (id result : Text) (w : World)
    → (finalize_ready user id result w).clients ≡ w.clients
unfolding finalize_ready sync_status update_session
finalize_ready-clients none id result w = refl
finalize_ready-clients (some user) id result w = ground arith

-- What a stop at the cache leaves: the result, and the clients as they were.
pub record Served (id content : Text) (w : World) (r : World × End (Unit {0})) : Type 0 where
  pub ends : r.1 ≡ stopped
  pub clients : r.0.clients ≡ w.clients
  pub ready : Ready id content r.0

finish_cached-Served :
    (rt : Runtime) (settings : Settings) (services : Services) (dump_content : StudyContent → Text)
    (generated_at : Text) (r : SessionRecord) (task : Task)
    → (content : Text) (w : World) → is_empty content ≡ false
    → Has task.session_id w
    → Served task.session_id content w
        (finish_cached rt settings services dump_content generated_at r task (some content) w)
unfolding finish_cached
finish_cached-Served rt settings services dump_content generated_at r task content w some_text h =
    rw (some_text, finish_cached)
      (record {
        ends = refl;
        clients = finalize_ready-clients r.user_id task.session_id content w;
        ready = finalize_ready-Ready r.user_id task.session_id content w h;
      })

continue-Served :
    (id content : Text) (w : World) (f : Unit {0} → Job (Unit {0})) (r : World × End (Unit {0}))
    → Served id content w r
    → Served id content w (continue f r)
continue-Served id content w f (w', done a) h = absurd (cc (h.ends))
continue-Served id content w f (w', stopped) h = h
continue-Served id content w f (w', died e) h = absurd (cc (h.ends))

then-Served :
    (id content : Text) (w : World) (m : Job (Unit {0})) (f : Unit {0} → Job (Unit {0}))
    → Served id content w (m w)
    → Served id content w ((m >>= f) w)
unfolding ◌>>=◌
then-Served id content w m f h = continue-Served id content w f (m w) h

found-Served :
    (rt : Runtime) (settings : Settings) (services : Services) (dump_content : StudyContent → Text)
    (generated_at : Text) (r : SessionRecord) (task : Task)
    → (content : Text) (found : Option Text) (w w' : World) → found ≡ some content
    → is_empty content ≡ false
    → w'.clients ≡ w.clients
    → Has task.session_id w'
    → Served task.session_id content w
        (finish_cached rt settings services dump_content generated_at r task found w')
found-Served rt settings services dump_content generated_at r task content found w w' e some_text
      same h =
    rw e (
      let s =
        finish_cached-Served rt settings services dump_content generated_at r task content w'
          some_text h in
      record { ends = s.ends; clients = s.clients ∙ same; ready = s.ready })

-- For a session that the store has, whose document is in the question bank with a text that is not
-- empty, the task asks no model: the clients stay as
-- they were, and the session is over with the content of the bank.
pub run_generation-Served :
    (rt : Runtime) (settings : Settings) (services : Services) (dump_content : StudyContent → Text)
    (generated_at : Text) (task : Task) (w : World)
    → (content : Text) (h : Has task.session_id w)
    → (get_cached h.at.pdf_hash w.bank).1 ≡ some content
    → is_empty content ≡ false
    → Served task.session_id content w
        (run_generation rt settings services dump_content generated_at task w)
unfolding run_generation run_session use_cache
run_generation-Served rt settings services dump_content generated_at task w content h cached
      some_text =
    rw (h.found, run_generation)
      (then-Served task.session_id content w _ _ (
        found-Served rt settings services dump_content generated_at h.at task content
          (get_cached h.at.pdf_hash w.bank).1 w _ cached some_text refl
          (same_sessions-Has task.session_id w _ refl h)))
