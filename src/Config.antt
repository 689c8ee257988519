-- ===== src/Config.antt =====
-- app/core/config.py: the settings that the modelled code reads, with their defaults.
use study_helper_backend.Prelude.{ℕ}
use study_helper_backend.Text.{Text, text}

pub record Settings : Type 0 where
  pub environment : Text
  pub app_version : Text
  pub max_pdf_pages : ℕ
  pub max_pdf_size_mb : ℕ
  pub chunk_token_size : ℕ
  pub anthropic_model : Text
  pub max_retries : ℕ
  pub anthropic_timeout : ℕ
  pub openai_model : Text
  pub openai_timeout : ℕ
  pub timely_model : Text
  pub timely_timeout : ℕ
  pub supabase_jwt_secret : Text

abbrev pub defaults : Settings
defaults = record {
  environment = text "development";
  app_version = text "1.0.0";
  max_pdf_pages = 50;
  max_pdf_size_mb = 20;
  chunk_token_size = 800;
  anthropic_model = text "claude-sonnet-4-6";
  max_retries = 2;
  anthropic_timeout = 30;
  openai_model = text "gpt-4o-mini";
  openai_timeout = 60;
  timely_model = text "gpt-4.1";
  timely_timeout = 60;
  supabase_jwt_secret = text "";
}
