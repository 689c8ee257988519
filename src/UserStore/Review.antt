-- ===== src/UserStore/Review.antt =====
-- The rows of `user_review_schedule`.
use study_helper_backend.Prelude.{ℕ}
use study_helper_backend.Text.{Text}
use study_helper_backend.Json.{Double}

pub data ReviewStatus : Type 0 where
  pending mastered done : ReviewStatus

pub data ReviewKind : Type 0 where
  mcq fill : ReviewKind

pub record ReviewRow : Type 0 where
  pub id : Text
  pub user_id : Text
  pub session_id : Text
  pub question_id : Text
  pub question_type : ReviewKind
  pub interval_days : ℕ
  pub next_review_at : ℕ
  pub ease_factor : Double
  pub repetitions : ℕ
  pub status : ReviewStatus
