-- ===== src/Client/Anthropic.antt =====
-- app/services/anthropic_client.py: `_call_claude` and `generate_with_retry`.
use study_helper_backend.Prelude.{ℕ, ◌&&◌, List, [], ◌∷◌, ◌++◌, ◌==◌, if◌then◌else◌}
use study_helper_backend.Text.{Text, text, contains}
use study_helper_backend.Outcome.{Result, ok, err, ◌>>=◌, generation_error, crash, index_error}
use study_helper_backend.Json.{Value}
use study_helper_backend.Runtime.{Runtime}
use study_helper_backend.Runtime.Number.{decimal}
use study_helper_backend.Config.{Settings}
use study_helper_backend.JsonUtils.{extract_json}
use study_helper_backend.Breaker.{Breaker, is_open, record_success, record_failure}
use study_helper_backend.Client.Request.{
  Prompt, model_or, Exchange, Reply, replied, authentication_error, rate_limit_error, timeout_error,
  connection_error, status_error,
}
use study_helper_backend.Client.Retry.{Run, generate}

abbrev busy : Text
busy = text "서비스에 일시적인 문제가 발생했습니다. 잠시 후 다시 시도해주세요."

-- `message.content[0].text`
abbrev first_block : List Text → Result Text
first_block [] = err (crash index_error)
first_block (block ∷ _) = ok block

module _ (rt : Runtime) (settings : Settings) where
  -- The answer to a request that the breaker let through, and the breaker after it.
  unfoldable pub settle : ℕ → Reply (List Text) → Breaker → Breaker × Result Text
  unfolding record_success record_failure decimal contains
  settle now (replied blocks) b = (record_success b, first_block blocks)
  settle now authentication_error b = (
    b,
    err (
        generation_error 401
          (text "Invalid Anthropic API key. Please check your key and try again.")),
  )
  settle now rate_limit_error b = (
    b,
    err (
        generation_error 429
          (text "Anthropic API rate limit reached. Please wait a moment and try again.")),
  )
  settle now (status_error code message) b =
      if code == 400 && contains (rt.lower message) (text "credit")
      then (b, err (generation_error 503 busy))
      else (record_failure now b, err (generation_error 502 busy))
  settle now timeout_error b = (
    record_failure now b,
    err (
        generation_error 504 (
          text "Anthropic API timed out after "
          ++ (decimal settings.anthropic_timeout ++ text "s. Please try again."))),
  )
  settle now connection_error b = (
    record_failure now b,
    err (
        generation_error 502
          (text "Could not connect to Anthropic API. Please check your network.")),
  )

  -- The service answers a model, the prompts, and the number of the attempt.
  module _ (service : Text → Prompt → ℕ → Exchange (Reply (List Text))) where
    unfoldable pub call_claude : Prompt → ℕ → Breaker → Breaker × Result Text
    call_claude p attempt b =
        let x = service (model_or p.model settings.anthropic_model) p attempt in
        let (b', open_now) = is_open x.asked b in
        if open_now
        then (
          b',
          err (
              generation_error 503
                (text "Anthropic API is temporarily unavailable. Please try again later.")),
        )
        else settle x.answered x.reply b'

    -- One round of the loop: the call, and the parse of its text.
    unfoldable pub attempt_claude : Prompt → ℕ → Breaker → Breaker × Result Value
    unfolding call_claude
    attempt_claude p attempt b =
        let (b', r) = call_claude p attempt b in (b', r >>= extract_json rt)

    unfoldable pub generate_with_retry : Prompt → Breaker → Run Breaker
    unfolding attempt_claude generate
    generate_with_retry p b = generate (attempt_claude p) settings.max_retries b
