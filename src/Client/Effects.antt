-- ===== src/Client/Effects.antt =====
-- What one call of Anthropic or OpenAI does to the breaker.
use study_helper_backend.Prelude.{
  ℕ, inl, inr, ap, ◌∙◌, Bool-cases, ◌+◌, ◌≡◌, refl, ◌||◌, Option, none, some, List, [], ◌∷◌, arith,
  ◌==◌, if◌then◌else◌,
}
use study_helper_backend.Text.{Text}
use study_helper_backend.Outcome.{Result, ok, err, generation_error, crash}
use study_helper_backend.Runtime.{Runtime}
use study_helper_backend.Config.{Settings}
use study_helper_backend.Breaker.{Breaker, is_open}
use study_helper_backend.Breaker.Trace.{failures-is_open, failures-record_failure}
use study_helper_backend.Client.Request.{
  Prompt, model_or, Exchange, Reply, replied, timeout_error, connection_error, status_error,
}
use study_helper_backend.Client.Anthropic.{settle, call_claude}
use study_helper_backend.Client.OpenAi.{settle_gpt, call_gpt}

-- The failures that are counted after a call with a result, from those before it: a call that the
-- service failed to serve adds one, an answer starts again, and every other refusal counts nothing.
abbrev pub counted : Result Text → ℕ → ℕ
counted (ok _) n = 0
counted (err (generation_error code _)) n = if code == 502 || code == 504 then n + 1 else n
counted (err (crash _)) n = 0
counted (err _) n = n

module _ (rt : Runtime) (settings : Settings) where
  settle-counted :
      (now : ℕ) (r : Reply (List Text)) (b : Breaker)
      → (settle rt settings now r b).0.failures ≡ counted (settle rt settings now r b).1 b.failures
  unfolding settle
  settle-counted now (replied []) b = refl
  settle-counted now (replied (block ∷ _)) b = refl
  settle-counted now (status_error code message) b = ground (arith, failures-record_failure b now)
  settle-counted now timeout_error b = failures-record_failure b now
  settle-counted now connection_error b = failures-record_failure b now
  settle-counted now _ b = refl

  settle_gpt-counted :
      (now : ℕ) (r : Reply (List (Option Text))) (b : Breaker)
      → (settle_gpt rt settings now r b).0.failures
        ≡ counted (settle_gpt rt settings now r b).1 b.failures
  unfolding settle_gpt
  settle_gpt-counted now (replied []) b = refl
  settle_gpt-counted now (replied (none ∷ _)) b = refl
  settle_gpt-counted now (replied (some _ ∷ _)) b = refl
  settle_gpt-counted now (status_error code message) b =
      ground (arith, failures-record_failure b now)
  settle_gpt-counted now timeout_error b = failures-record_failure b now
  settle_gpt-counted now connection_error b = failures-record_failure b now
  settle_gpt-counted now _ b = refl

  -- The result of a call of Anthropic says what was counted: one more failure for 502 and 504, none
  -- at all after an answer, and the failures there were after every other refusal.
  pub call_claude-counted :
      (service : Text → Prompt → ℕ → Exchange (Reply (List Text))) (p : Prompt) (attempt : ℕ)
      (b : Breaker)
      → (call_claude rt settings service p attempt b).0.failures
        ≡ counted (call_claude rt settings service p attempt b).1 b.failures
  unfolding call_claude
  call_claude-counted service p attempt b =
      let x = service (model_or p.model settings.anthropic_model) p attempt in
      elim (Bool-cases (is_open x.asked b).1) [
        | inl blocked ↦ rw blocked (failures-is_open b x.asked)
        | inr passed ↦ rw passed (
            settle-counted x.answered x.reply (is_open x.asked b).0
            ∙ ap (counted (settle rt settings x.answered x.reply (is_open x.asked b).0).1)
                (failures-is_open b x.asked))
      ]

  -- The result of a call of OpenAI says what was counted: one more failure for 502 and 504, none at
  -- all after an answer, and the failures there were after every other refusal.
  pub call_gpt-counted :
      (service : Text → Prompt → ℕ → Exchange (Reply (List (Option Text)))) (p : Prompt)
      (attempt : ℕ) (b : Breaker)
      → (call_gpt rt settings service p attempt b).0.failures
        ≡ counted (call_gpt rt settings service p attempt b).1 b.failures
  unfolding call_gpt
  call_gpt-counted service p attempt b =
      let x = service (model_or p.model settings.openai_model) p attempt in
      elim (Bool-cases (is_open x.asked b).1) [
        | inl blocked ↦ rw blocked (failures-is_open b x.asked)
        | inr passed ↦ rw passed (
            settle_gpt-counted x.answered x.reply (is_open x.asked b).0
            ∙ ap (counted (settle_gpt rt settings x.answered x.reply (is_open x.asked b).0).1)
                (failures-is_open b x.asked))
      ]
