-- ===== src/Generate/Stages.antt =====
-- The three calls of a model, by the plan of the request.
use study_helper_backend.Prelude.{ℕ, Option, none, some, List, ◌++◌}
use study_helper_backend.Text.{Text}
use study_helper_backend.Outcome.{Failure, Result, ok, err, generation_error, validation_error}
use study_helper_backend.Json.{Value}
use study_helper_backend.Runtime.{Runtime}
use study_helper_backend.Config.{Settings}
use study_helper_backend.Client.Request.{Prompt, Exchange, Reply}
use study_helper_backend.Client.Anthropic.{generate_with_retry}
use study_helper_backend.Client.OpenAi.{gpt_with_retry}
use study_helper_backend.Client.Timely.{Service, timely_with_retry}
use study_helper_backend.Generate.Job.{Clients, World, Job, End, done, stopped, died}
use study_helper_backend.Generate.Finish.{fail}

pub data Plan : Type 0 where
  paid gpt timely : Plan

-- The services of the three providers, at each of the three stages.
pub record Services : Type 0 where
  pub claude : ℕ → Text → Prompt → ℕ → Exchange (Reply (List Text))
  pub openai : ℕ → Text → Prompt → ℕ → Exchange (Reply (List (Option Text)))
  pub timelygpt : ℕ → Service

module _ (rt : Runtime) (settings : Settings) (services : Services) where
  -- `openai_generate`, `timely_generate` or `anthropic_generate`
  unfoldable pub ask : ℕ → Plan → Prompt → Clients → Clients × Result Value
  unfolding generate_with_retry gpt_with_retry timely_with_retry
  ask stage paid p c =
      let r = generate_with_retry rt settings (services.claude stage) p c.anthropic in
      (record c { anthropic = r.state }, r.result)
  ask stage gpt p c =
      let r = gpt_with_retry rt settings (services.openai stage) p c.openai in
      (record c { openai = r.state }, r.result)
  ask stage timely p c =
      let r = timely_with_retry rt settings (services.timelygpt stage) p c.timely in
      (record c { timely = r.state }, r.result)

-- `except GenerationError`, with the start of the message that the session gets.
abbrev pub generation_message : Text → Failure → Option Text
generation_message start (generation_error code message) = some (start ++ message)
generation_message start _ = none

-- `except ValidationError`
abbrev pub validation_message : Text → Failure → Option Text
validation_message start (validation_error message) = some (start ++ message)
validation_message start _ = none

-- The session fails where the exception is one that the code catches; any other leaves the task.
abbrev pub give_up :
    {A : Type 0} → Option Text → Text → Failure → Option Text → World → World × End A
give_up user id e (some message) w = (fail user id message w, stopped)
give_up user id e none w = (w, died e)

unfoldable pub catching :
    {A : Type 0} → Option Text → Text → (Failure → Option Text) → Result A → Job A
unfolding fail
catching user id message (ok a) w = (w, done a)
catching user id message (err e) w = give_up user id e (message e) w

-- The draws of a check that succeeded are used up.
unfoldable pub redrawn : {A : Type 0} → (A → ℕ) → Result A → World → World
redrawn f (ok a) w = record w { draws = f a }
redrawn f (err e) w = w
