-- ===== src/Generate/Task/Ends.antt =====
-- Where `_run_generation` leaves the session, and what it has published then.
use study_helper_backend.Prelude.{
  ℕ, ◌≡◌, ◌≢◌, refl, inl, inr, true, Option, none, some, [], All, is_empty, Option-cases,
  Bool-cases,
}
use study_helper_backend.Text.{Text}
use study_helper_backend.Json.{Value, str, dict, truthy}
use study_helper_backend.Runtime.{Runtime, IsSound}
use study_helper_backend.Config.{Settings}
use study_helper_backend.Schema.{StudyContent}
use study_helper_backend.Validator.Mcq.{validate_mcq}
use study_helper_backend.Validator.Mcq.Distinct.{question_texts, Apart}
use study_helper_backend.Validator.Fill.{validate_fill}
use study_helper_backend.Validator.Mcq
use study_helper_backend.Validator.Fill
use study_helper_backend.Sessions.{SessionRecord}
use study_helper_backend.Generate.Job.{World, done}
use study_helper_backend.Generate.Finish.Laws.{Has, Finished, fail-Finished, finalize_ready-Ready}
use study_helper_backend.Generate.Stages.{Services}
use study_helper_backend.Generate.Ending.{Ends, then, survived, Ends-survived, Ends-done}
use study_helper_backend.Generate.Task.{
  Task, Document, or_braces, text_document, refuse, raising, finish_cached, use_cache, document_of,
  read_document, load_document, concept_ids, content_of, publish, run_stages, run_session,
  run_generation,
}
use study_helper_backend.Generate.Task.Steps.{
  GoodMcqs, GoodFills, same_sessions-Has, progressing, raised, generating, checking_notes,
  checking_mcq, checking_fill,
}

-- The published content, with what its questions satisfy.
pub record Published (rt : Runtime) (dump_content : StudyContent → Text) (id : Text) (w : World)
    : Type 0 where
  pub content : StudyContent
  pub finished : Finished id w
  pub result : finished.at.result_json ≡ some (dump_content content)
  pub mcqs :
      All (Mcq.Accepted.IsAccepted (concept_ids content.notes.key_concepts)) content.mcq_questions
  pub some_mcq : content.mcq_questions ≢ []
  pub apart : Apart rt (question_texts content.mcq_questions)
  pub fills :
      All (Fill.Accepted.IsAccepted (concept_ids content.notes.key_concepts)) content.fill_questions
  pub some_fill : content.fill_questions ≢ []

module _ (rt : Runtime) (settings : Settings) (services : Services)
    (dump_content : StudyContent → Text) (generated_at : Text) (r : SessionRecord)
    (task : Task) where
  publish-Ends :
      (c : StudyContent) (w : World)
      → GoodMcqs rt (concept_ids c.notes.key_concepts) c.mcq_questions
      → GoodFills (concept_ids c.notes.key_concepts) c.fill_questions
      → Has task.session_id w
      → Ends
          (λ _. Published rt dump_content task.session_id)
          (Finished task.session_id)
          (publish rt settings services dump_content generated_at r task (dump_content c) w)
  unfolding publish
  publish-Ends c w mcqs fills h =
      let f = finalize_ready-Ready r.user_id task.session_id (dump_content c) w h in
      let g = f.finished in
      let (accepted, some_question, apart) = mcqs in
      record {
        content = c;
        finished = record { keyed = g.keyed; at = g.at; found = g.found; over = g.over };
        result = f.carries;
        mcqs = accepted;
        some_mcq = some_question;
        apart = apart;
        fills = fills.0;
        some_fill = fills.1;
      }

  run_stages-Ends :
      (sound : IsSound rt) (doc : Document) (w : World)
      → Has task.session_id w
      → Ends
          (λ _. Published rt dump_content task.session_id)
          (Finished task.session_id)
          (run_stages rt settings services dump_content generated_at r task doc w)
  unfolding run_stages content_of
  run_stages-Ends sound doc w h =
      let P = λ (_ : Unit {0}). Published rt dump_content task.session_id in
      progressing rt settings services dump_content generated_at r task P 5 _ w h λ w1 h1.
        progressing rt settings services dump_content generated_at r task P 10 _ w1 h1 λ w2 h2.
          generating rt settings services dump_content generated_at r task P _ _ _ _ _ w2 h2
            λ notes_raw w3 h3.
              progressing rt settings services dump_content generated_at r task P 40 _ w3 h3
                λ w4 h4.
                  checking_notes rt settings services dump_content generated_at r task P _ _ w4 h4
                    λ notes w5 h5.
                      raised rt settings services dump_content generated_at r task P _ _ w5 h5
                        λ mcq_prompt.
                          generating rt settings services dump_content generated_at r task P _ _ _ _
                            _ w5 h5
                            λ mcq_raw w6 h6.
                              progressing rt settings services dump_content generated_at r task P 70
                                _ w6 h6
                                λ w7 h7.
                                  raised rt settings services dump_content generated_at r task P _ _
                                    w7 h7
                                    λ fill_prompt.
                                      generating rt settings services dump_content generated_at r
                                        task P _ _ _ _ _ w7 h7
                                        λ fill_raw w8 h8.
                                          progressing rt settings services dump_content generated_at
                                            r task P 85 _ w8 h8
                                            λ w9 h9.
                                              checking_mcq rt settings services dump_content
                                                generated_at r task P _ _ _ w9 sound h9
                                                λ mcqs w10 good_mcqs h10.
                                                  checking_fill rt settings services dump_content
                                                    generated_at r task P _ _ _ w10 sound h10
                                                    λ fills w11 good_fills h11.
                                                      publish-Ends
                                                        (content_of rt settings services
                                                          dump_content generated_at r task doc
                                                          notes.notes mcqs.0 fills.0)
                                                        w11 good_mcqs good_fills h11

  text_document-Ends :
      (v : Value) (n : ℕ) (w : World)
      → Has task.session_id w
      → Ends
          (λ _. Has task.session_id)
          (Finished task.session_id)
          (text_document rt settings services dump_content generated_at r task v n w)
  unfolding text_document
  text_document-Ends (str s) n w h = h
  text_document-Ends _ n w h = tt

  document_of-Ends :
      (v : Value) (n : ℕ) (w : World)
      → Has task.session_id w
      → Ends
          (λ _. Has task.session_id)
          (Finished task.session_id)
          (document_of rt settings services dump_content generated_at r task v n w)
  unfolding document_of refuse
  document_of-Ends v n w h = elim (Bool-cases (truthy v)) [
    | inl there ↦ rw (there, document_of) (text_document-Ends v n w h)
    | inr missing ↦ rw (missing, document_of) (fail-Finished r.user_id task.session_id _ w h)
  ]

  read_document-Ends :
      (v : Value) (w : World)
      → Has task.session_id w
      → Ends
          (λ _. Has task.session_id)
          (Finished task.session_id)
          (read_document rt settings services dump_content generated_at r task v w)
  unfolding read_document raising
  read_document-Ends (dict fs) w h =
      raised rt settings services dump_content generated_at r task (λ _. Has task.session_id) _ _ w
        h λ n. document_of-Ends _ n w h
  read_document-Ends _ w h = tt

  load_document-Ends :
      (w : World)
      → Has task.session_id w
      → Ends
          (λ _. Has task.session_id)
          (Finished task.session_id)
          (load_document rt settings services dump_content generated_at r task w)
  unfolding load_document refuse
  load_document-Ends w h = elim (Option-cases (rt.loads (or_braces r.result_json))) [
    | inl none_there ↦
        rw (none_there, load_document) (fail-Finished r.user_id task.session_id _ w h)
    | inr (v, parsed) ↦ rw (parsed, load_document) (read_document-Ends v w h)
  ]

  finish_cached-Ends :
      (found : Option Text) (w : World)
      → Has task.session_id w
      → Ends
          (λ _. Has task.session_id)
          (Finished task.session_id)
          (finish_cached rt settings services dump_content generated_at r task found w)
  unfolding finish_cached
  finish_cached-Ends none w h = h
  finish_cached-Ends (some c) w h = elim (Bool-cases (is_empty c)) [
    | inl no_text ↦ rw (no_text, finish_cached) h
    | inr text_there ↦
        rw (text_there, finish_cached)
          (finalize_ready-Ready r.user_id task.session_id c w h).finished
  ]

  run_session-Ends :
      (w : World)
      → IsSound rt
      → Has task.session_id w
      → Ends
          (λ _. Published rt dump_content task.session_id)
          (Finished task.session_id)
          (run_session rt settings services dump_content generated_at r task w)
  unfolding run_session use_cache
  run_session-Ends w sound h =
      let P = λ (_ : Unit {0}). Published rt dump_content task.session_id in
      then (λ _. Has task.session_id) P (Finished task.session_id) _ _ w
        (finish_cached-Ends _ _ (same_sessions-Has task.session_id w _ refl h))
        λ _ w1 h1.
          then (λ _. Has task.session_id) P (Finished task.session_id) _ _ w1
            (load_document-Ends w1 h1) λ doc w2 h2. run_stages-Ends sound doc w2 h2

run_generation-Ends :
    (rt : Runtime) (settings : Settings) (services : Services) (dump_content : StudyContent → Text)
    (generated_at : Text) (task : Task) (w : World)
    → IsSound rt
    → Has task.session_id w
    → Ends
        (λ _. Published rt dump_content task.session_id)
        (Finished task.session_id)
        (run_generation rt settings services dump_content generated_at task w)
unfolding run_generation
run_generation-Ends rt settings services dump_content generated_at task w sound h =
    rw (h.found, run_generation)
      (run_session-Ends rt settings services dump_content generated_at h.at task w sound h)

-- For a session that the store has, and a runtime that iterates a set over its members: if no
-- exception leaves the background task, the session is complete or failed when the task ends,
-- whatever the models answered and the database did.
pub run_generation-Finished :
    (rt : Runtime) (settings : Settings) (services : Services) (dump_content : StudyContent → Text)
    (generated_at : Text) (task : Task) (w : World)
    → IsSound rt
    → Has task.session_id w
    → survived (run_generation rt settings services dump_content generated_at task w).1 ≡ true
    → Finished task.session_id
        (run_generation rt settings services dump_content generated_at task w).0
run_generation-Finished rt settings services dump_content generated_at task w sound h over =
    Ends-survived (λ _. Published rt dump_content task.session_id) (Finished task.session_id) _
      (run_generation-Ends rt settings services dump_content generated_at task w sound h)
      (λ _ _ p. p.finished) over

-- For a session that the store has, and a runtime that iterates a set over its members: if the
-- background task runs to its end, the session is over and carries a dumped content with at least
-- one multiple-choice and one fill question, all of which are accepted for the concepts of its
-- notes; no multiple-choice question is a near duplicate of an earlier one.
pub run_generation-Published :
    (rt : Runtime) (settings : Settings) (services : Services) (dump_content : StudyContent → Text)
    (generated_at : Text) (task : Task) (w : World)
    → IsSound rt
    → Has task.session_id w
    → (run_generation rt settings services dump_content generated_at task w).1 ≡ done tt
    → Published rt dump_content task.session_id
        (run_generation rt settings services dump_content generated_at task w).0
run_generation-Published rt settings services dump_content generated_at task w sound h over =
    Ends-done (λ _. Published rt dump_content task.session_id) (Finished task.session_id) _ tt
      (run_generation-Ends rt settings services dump_content generated_at task w sound h) over
