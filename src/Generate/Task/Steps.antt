-- ===== src/Generate/Task/Steps.antt =====
-- The steps of `_run_generation`, each with what holds after it.
use study_helper_backend.Prelude.{ℕ, ◌≡◌, ◌≢◌, refl, List, [], All}
use study_helper_backend.Text.{Text}
use study_helper_backend.Outcome.{Result, ok, err}
use study_helper_backend.Json.{Value}
use study_helper_backend.Runtime.{Runtime, IsSound}
use study_helper_backend.Config.{Settings}
use study_helper_backend.Schema.{McqQuestion, FillQuestion, StudyContent}
use study_helper_backend.Validator.Notes.{Notes, validate_notes}
use study_helper_backend.Validator.Mcq.{validate_mcq}
use study_helper_backend.Validator.Mcq.Distinct.{question_texts, Apart, validate_mcq-Apart}
use study_helper_backend.Validator.Fill.{validate_fill}
use study_helper_backend.Validator.Mcq
use study_helper_backend.Validator.Fill
use study_helper_backend.Sessions.{SessionRecord, progress}
use study_helper_backend.Generate.Job.{World, Job, ◌>>=◌}
use study_helper_backend.Generate.Finish.Laws.{Has, Finished, update_session-Has}
use study_helper_backend.Generate.Stages.{Services, generation_message, redrawn}
use study_helper_backend.Generate.Ending.{Ends, then, catching-Ends}
use study_helper_backend.Generate.Task.{
  Task, at_progress, raising, generate_stage, check_notes, check_mcq, check_fill,
}

-- What the checks leave of the questions.
abbrev pub GoodMcqs : Runtime → List Text → List McqQuestion → Type 0
GoodMcqs rt ids qs = All (Mcq.Accepted.IsAccepted ids) qs × (qs ≢ []) × Apart rt (question_texts qs)

abbrev pub GoodFills : List Text → List FillQuestion → Type 0
GoodFills ids qs = All (Fill.Accepted.IsAccepted ids) qs × (qs ≢ [])

pub same_sessions-Has : (id : Text) (w w' : World) → w'.sessions ≡ w.sessions → Has id w → Has id w'
same_sessions-Has id w w' e h = record { keyed = rw e h.keyed; at = h.at; found = rw e h.found }

redrawn-Has :
    {A : Type 0} (id : Text) (f : A → ℕ) (a : Result A) (w : World)
    → Has id w
    → Has id (redrawn f a w)
unfolding redrawn
redrawn-Has id f (ok a) w h = same_sessions-Has id w _ refl h
redrawn-Has id f (err e) w h = h

module _ (rt : Runtime) (settings : Settings) (services : Services)
    (dump_content : StudyContent → Text) (generated_at : Text) (r : SessionRecord)
    (task : Task) where
  module _ {B : Type 0} (Q : B → World → Type 0) where
    pub progressing :
        (pct : ℕ) (f : Unit {0} → Job B) (w : World)
        → Has task.session_id w
        → ((w' : World) → Has task.session_id w' → Ends Q (Finished task.session_id) (f tt w'))
        → Ends Q
            (Finished task.session_id)
            ((at_progress rt settings services dump_content generated_at r task pct >>= f) w)
    unfolding at_progress
    progressing pct f w h next =
        then (λ _ w'. Has task.session_id w') Q (Finished task.session_id)
          (at_progress rt settings services dump_content generated_at r task pct) f w
          (update_session-Has task.session_id (progress pct) w h) (λ _ w' h'. next w' h')

    pub raised :
        {A : Type 0} (a : Result A) (f : A → Job B) (w : World)
        → Has task.session_id w
        → ((x : A) → Ends Q (Finished task.session_id) (f x w))
        → Ends Q
            (Finished task.session_id)
            ((raising rt settings services dump_content generated_at r task a >>= f) w)
    unfolding raising ◌>>=◌
    raised (ok a) f w h next = next a
    raised (err e) f w h next = tt

    pub generating :
        (stage : ℕ) (p : Text × Text) (tokens : ℕ) (message : Text) (f : Value → Job B) (w : World)
        → Has task.session_id w
        → ((v : Value) (w' : World)
            → Has task.session_id w'
            → Ends Q (Finished task.session_id) (f v w'))
        → Ends Q (Finished task.session_id) (
            (generate_stage rt settings services dump_content generated_at r task stage p tokens
                  message
                >>= f)
              w)
    unfolding generate_stage
    generating stage p tokens message f w h next =
        then (λ _ w'. Has task.session_id w') Q (Finished task.session_id)
          (generate_stage rt settings services dump_content generated_at r task stage p tokens
            message)
          f w
          (let h' = same_sessions-Has task.session_id w _ refl h in
            catching-Ends (λ _. Has task.session_id) r.user_id task.session_id
              (generation_message message) _ _ h' (λ _ _. h'))
          next

    pub checking_notes :
        (raw : Value) (f : Notes → Job B) (w : World)
        → Has task.session_id w
        → ((n : Notes) (w' : World)
            → Has task.session_id w'
            → Ends Q (Finished task.session_id) (f n w'))
        → Ends Q
            (Finished task.session_id)
            ((check_notes rt settings services dump_content generated_at r task raw >>= f) w)
    unfolding check_notes
    checking_notes raw f w h next =
        then (λ _ w'. Has task.session_id w') Q (Finished task.session_id)
          (check_notes rt settings services dump_content generated_at r task raw) f w
          (let found = validate_notes rt raw w.draws in
            let h' = redrawn-Has task.session_id (λ n. n.draws) found w h in
            catching-Ends (λ _. Has task.session_id) r.user_id task.session_id _ found _ h'
              (λ _ _. h'))
          next

    pub checking_mcq :
        (raw : Value) (ids : List Text) (f : List McqQuestion × ℕ → Job B) (w : World)
        → IsSound rt
        → Has task.session_id w
        → ((qs : List McqQuestion × ℕ) (w' : World)
            → GoodMcqs rt ids qs.0
            → Has task.session_id w'
            → Ends Q (Finished task.session_id) (f qs w'))
        → Ends Q
            (Finished task.session_id)
            ((check_mcq rt settings services dump_content generated_at r task raw ids >>= f) w)
    unfolding check_mcq
    checking_mcq raw ids f w sound h next =
        then (λ qs w'. GoodMcqs rt ids qs.0 × Has task.session_id w') Q (Finished task.session_id)
          (check_mcq rt settings services dump_content generated_at r task raw ids) f w
          (let found = validate_mcq rt raw ids w.draws in
            let h' = redrawn-Has task.session_id (λ q. q.1) found w h in
            catching-Ends (λ qs w'. GoodMcqs rt ids qs.0 × Has task.session_id w') r.user_id
              task.session_id _ found _ h'
              (λ qs e.
                let (accepted, some_question) =
                  Mcq.Accepted.validate_mcq-IsAccepted rt sound raw ids w.draws qs.1 qs.0 e in
                ((accepted, some_question, validate_mcq-Apart rt raw ids w.draws qs.1 qs.0 e), h')))
          (λ qs w' a. next qs w' a.0 a.1)

    pub checking_fill :
        (raw : Value) (ids : List Text) (f : List FillQuestion × ℕ → Job B) (w : World)
        → IsSound rt
        → Has task.session_id w
        → ((qs : List FillQuestion × ℕ) (w' : World)
            → GoodFills ids qs.0
            → Has task.session_id w'
            → Ends Q (Finished task.session_id) (f qs w'))
        → Ends Q
            (Finished task.session_id)
            ((check_fill rt settings services dump_content generated_at r task raw ids >>= f) w)
    unfolding check_fill
    checking_fill raw ids f w sound h next =
        then (λ qs w'. GoodFills ids qs.0 × Has task.session_id w') Q (Finished task.session_id)
          (check_fill rt settings services dump_content generated_at r task raw ids) f w
          (let found = validate_fill rt raw ids w.draws in
            let h' = redrawn-Has task.session_id (λ q. q.1) found w h in
            catching-Ends (λ qs w'. GoodFills ids qs.0 × Has task.session_id w') r.user_id
              task.session_id _ found _ h'
              (λ qs e.
                (Fill.Accepted.validate_fill-IsAccepted rt sound ids raw w.draws qs.1 qs.0 e, h')))
          (λ qs w' a. next qs w' a.0 a.1)
