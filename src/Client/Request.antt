-- ===== src/Client/Request.antt =====
-- One call of a provider's service, as the wrappers make it.
use study_helper_backend.Prelude.{ℕ, Option, none, some, is_empty, if◌then◌else◌}
use study_helper_backend.Text.{Text}

-- What `generate_with_retry` is called with.
pub record Prompt : Type 0 where
  pub api_key : Text
  pub system_prompt : Text
  pub user_prompt : Text
  pub max_tokens : ℕ
  pub model : Option Text

-- `model or default`
abbrev pub model_or : Option Text → Text → Text
model_or none default = default
model_or (some m) default = if is_empty m then default else m

-- An exchange with a service that is not under this repository: when the breaker was asked, when
-- the answer or the error came, and what it was.
pub record Exchange {ℓ} (A : Type ℓ) : Type ℓ where
  pub asked : ℕ
  pub answered : ℕ
  pub reply : A

-- What the client libraries of Anthropic and OpenAI do: return the texts of the answer, or raise one
-- of their exceptions. A timeout is a connection error too; the code tests for it first.
pub data Reply {ℓ} (A : Type ℓ) : Type ℓ where
  replied : A → Reply A
  authentication_error rate_limit_error timeout_error connection_error : Reply A
  status_error : ℕ → Text → Reply A
