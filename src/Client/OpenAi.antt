-- ===== src/Client/OpenAi.antt =====
-- app/services/openai_client.py: `_call_gpt` and `generate_with_retry`.
use study_helper_backend.Prelude.{
  ℕ, ◌||◌, Option, none, some, List, [], ◌∷◌, ◌++◌, ◌==◌, if◌then◌else◌,
}
use study_helper_backend.Text.{Text, text}
use study_helper_backend.Outcome.{Result, ok, err, ◌>>=◌, generation_error, crash, index_error}
use study_helper_backend.Json.{Value}
use study_helper_backend.Runtime.{Runtime}
use study_helper_backend.Runtime.Number.{decimal}
use study_helper_backend.Config.{Settings}
use study_helper_backend.JsonUtils.{extract_json}
use study_helper_backend.Breaker.{Breaker, is_open, record_success, record_failure}
use study_helper_backend.Client.Request.{
  Prompt, model_or, Exchange, Reply, replied, authentication_error, rate_limit_error, timeout_error,
  connection_error, status_error,
}
use study_helper_backend.Client.Retry.{Run, generate}

abbrev busy : Text
busy = text "서비스에 일시적인 문제가 발생했습니다. 잠시 후 다시 시도해주세요."

-- `response.choices[0].message.content or ""`
abbrev first_choice : List (Option Text) → Result Text
first_choice [] = err (crash index_error)
first_choice (none ∷ _) = ok []
first_choice (some content ∷ _) = ok content

module _ (rt : Runtime) (settings : Settings) where
  -- The answer to a request that the breaker let through, and the breaker after it.
  unfoldable pub settle_gpt : ℕ → Reply (List (Option Text)) → Breaker → Breaker × Result Text
  unfolding record_success record_failure decimal
  settle_gpt now (replied choices) b = (record_success b, first_choice choices)
  settle_gpt now authentication_error b = (
    b,
    err (
        generation_error 401 (text "Invalid OpenAI API key. Please check your key and try again.")),
  )
  settle_gpt now rate_limit_error b = (
    b,
    err (
        generation_error 429
          (text "OpenAI API rate limit reached. Please wait a moment and try again.")),
  )
  settle_gpt now (status_error code message) b =
      if code == 402 || code == 403
      then (
        b,
        err (
            generation_error 503
              (text "OpenAI API quota exceeded or billing issue. Please check your account.")),
      )
      else (record_failure now b, err (generation_error 502 busy))
  settle_gpt now timeout_error b = (
    record_failure now b,
    err (
        generation_error 504 (
          text "OpenAI API timed out after "
          ++ (decimal settings.openai_timeout ++ text "s. Please try again."))),
  )
  settle_gpt now connection_error b = (
    record_failure now b,
    err (generation_error 502 (text "Could not connect to OpenAI API. Please check your network.")),
  )

  module _ (service : Text → Prompt → ℕ → Exchange (Reply (List (Option Text)))) where
    unfoldable pub call_gpt : Prompt → ℕ → Breaker → Breaker × Result Text
    call_gpt p attempt b =
        let x = service (model_or p.model settings.openai_model) p attempt in
        let (b', open_now) = is_open x.asked b in
        if open_now
        then (
          b',
          err (
              generation_error 503
                (text "OpenAI API is temporarily unavailable. Please try again later.")),
        )
        else settle_gpt x.answered x.reply b'

    unfoldable pub attempt_gpt : Prompt → ℕ → Breaker → Breaker × Result Value
    unfolding call_gpt
    attempt_gpt p attempt b = let (b', r) = call_gpt p attempt b in (b', r >>= extract_json rt)

    unfoldable pub gpt_with_retry : Prompt → Breaker → Run Breaker
    unfolding attempt_gpt generate
    gpt_with_retry p b = generate (attempt_gpt p) settings.max_retries b
