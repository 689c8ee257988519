-- ===== src/Generate/Endpoints/Delivery.antt =====
-- From a task that has run to the answer of `get_result`.
use study_helper_backend.Prelude.{◌≡◌, refl, true, false, Option, none, some, All, is_empty}
use study_helper_backend.Text.{Text}
use study_helper_backend.Text.Laws.{text_eq_refl}
use study_helper_backend.Outcome.{Result, ok}
use study_helper_backend.Runtime.{Runtime, IsSound}
use study_helper_backend.Config.{Settings}
use study_helper_backend.Schema.{StudyContent}
use study_helper_backend.Validator.Mcq
use study_helper_backend.Validator.Fill
use study_helper_backend.Sessions.{SessionRecord, complete, get}
use study_helper_backend.UserStore.{UserDb}
use study_helper_backend.QuestionBank.{Bank}
use study_helper_backend.Generate.Job.{World, done}
use study_helper_backend.Generate.Finish.Laws.{Has}
use study_helper_backend.Generate.Stages.{Services}
use study_helper_backend.Generate.Task.{Task, concept_ids, run_generation}
use study_helper_backend.Generate.Task.Ends.{run_generation-Published}
use study_helper_backend.Generate.Endpoints.{
  check_ownership, is_uuid, parse_result, stored_text, stored_result, result_of, get_result,
}

check_ownership-own :
    (user : Option Text) (r : SessionRecord) → r.user_id ≡ user → check_ownership r user ≡ ok tt
unfolding check_ownership
check_ownership-own none r e = rw (e, check_ownership) refl
check_ownership-own (some u) r e = rw (e, check_ownership) (rw (text_eq_refl u) refl)

module _ (uuid cast : Text → Option Text) (read_content : Text → Option StudyContent) where
  stored_text-some :
      (t : Text)
      → is_empty t ≡ false
      → stored_text uuid cast read_content (some t) ≡ some (parse_result uuid cast read_content t)
  unfolding stored_text
  stored_text-some t some_text = rw (some_text, stored_text) refl

  stored_result-complete :
      (r : SessionRecord) (t : Text)
      → r.status ≡ complete
      → r.result_json ≡ some t
      → is_empty t ≡ false
      → stored_result uuid cast read_content r ≡ some (parse_result uuid cast read_content t)
  unfolding stored_result
  stored_result-complete r t over given some_text =
      rw (over, stored_result) (rw given (stored_text-some t some_text))

  result_of-stored :
      (id : Text) (db : UserDb) (bank : Bank) (r : SessionRecord) (a : Result StudyContent)
      → stored_result uuid cast read_content r ≡ some a
      → (result_of uuid cast read_content id r.user_id db bank (some r)).1 ≡ a
  unfolding result_of
  result_of-stored id db bank r a stored =
      let mine = check_ownership-own r.user_id r refl in rw (mine, stored, result_of) refl

  get_result-complete :
      (id : Text) (w : World) (r : SessionRecord) (t : Text)
      → is_uuid (uuid id) ≡ true
      → get w.sessions id ≡ some r
      → r.status ≡ complete
      → r.result_json ≡ some t
      → is_empty t ≡ false
      → (get_result uuid cast read_content id r.user_id w.sessions w.users w.bank).1
        ≡ parse_result uuid cast read_content t
  unfolding get_result
  get_result-complete id w r t valid found over given some_text =
      rw (valid, found, get_result)
        (result_of-stored id w.users w.bank r (parse_result uuid cast read_content t)
          (stored_result-complete r t over given some_text))

-- For a session that the store has, with the id of a UUID: if the task runs to its end and the
-- session is complete then, `get_result` gives its owner what is read from the dump of a content
-- whose questions are all accepted, provided that no dump is an empty text and that the runtime
-- iterates a set over its members.
pub run_generation-get_result :
    (uuid cast : Text → Option Text) (read_content : Text → Option StudyContent) (rt : Runtime)
    (settings : Settings) (services : Services) (dump_content : StudyContent → Text)
    (generated_at : Text) (task : Task) (w : World) (r : SessionRecord)
    → ((c : StudyContent) → is_empty (dump_content c) ≡ false)
    → is_uuid (uuid task.session_id) ≡ true
    → IsSound rt
    → Has task.session_id w
    → (run_generation rt settings services dump_content generated_at task w).1 ≡ done tt
    → get
        (run_generation rt settings services dump_content generated_at task w).0.sessions
        task.session_id
      ≡ some r
    → r.status ≡ complete
    → (c : StudyContent) × ((get_result uuid cast read_content task.session_id r.user_id
          (run_generation rt settings services dump_content generated_at task w).0.sessions
          (run_generation rt settings services dump_content generated_at task w).0.users
          (run_generation rt settings services dump_content generated_at task w).0.bank).1
        ≡ parse_result uuid cast read_content (dump_content c))
      × All (Mcq.Accepted.IsAccepted (concept_ids c.notes.key_concepts)) c.mcq_questions
      × All (Fill.Accepted.IsAccepted (concept_ids c.notes.key_concepts)) c.fill_questions
run_generation-get_result uuid cast read_content rt settings services dump_content generated_at task
      w r some_text valid sound h ran found over =
    let p =
      run_generation-Published rt settings services dump_content generated_at task w sound h ran in
    let same : r ≡ p.finished.at = cc (found, p.finished.found) in
    let given : r.result_json ≡ some (dump_content p.content) = cc (same, p.result) in
    (
      p.content,
      get_result-complete uuid cast read_content task.session_id
          (run_generation rt settings services dump_content generated_at task w).0 r
          (dump_content p.content) valid found over given (some_text p.content),
      p.mcqs,
      p.fills,
    )
