-- ===== src/Client/Retry.antt =====
-- `generate_with_retry`: the loop, which is the same in app/services/anthropic_client.py,
-- openai_client.py and timely_client.py. `call` is one attempt: it has the number of the attempt and
-- the state that the attempts share, and gives the parsed answer or an exception.
-- The optional callback `on_attempt`, which the routes do not pass, is left out.
pub mod Limits
pub mod Answers
use study_helper_backend.Prelude.{
  ℕ, zero, suc, ◌+◌, ◌-◌, ◌^◌, Bool, true, false, ◌||◌, List, [], ◌∷◌, ◌++◌, ◌==◌, if◌then◌else◌,
}
use study_helper_backend.Text.{Text, text}
use study_helper_backend.Outcome.{Failure, Result, ok, err, generation_error}
use study_helper_backend.Json.{Value}
use study_helper_backend.Runtime.Number.{decimal}

pub record Run {ℓ} (S : Type ℓ) : Type ℓ where
  pub state : S
  pub result : Result Value
  -- The attempts made, and the seconds slept between them.
  pub calls : ℕ
  pub slept : ℕ

-- 401, 429 and 503 are raised at once.
unfoldable pub is_final : ℕ → Bool
is_final code = code == 401 || (code == 429 || code == 503)

-- The message of the error after the last attempt.
exhausted : ℕ → Text → Text
unfolding decimal text
exhausted attempts last =
    text "Content generation failed after " ++ (decimal attempts ++ (text " attempts: " ++ last))

module _ {ℓ} {S : Type ℓ} (call : ℕ → S → S × Result Value) where
  -- The rounds that are left, the number of the next attempt, the message of the last error, and
  -- the seconds slept so far.
  loop : ℕ → ℕ → Text → ℕ → S → Run S
  unfolding exhausted is_final
  loop zero attempt last slept s = record {
    state = s;
    result = err (generation_error 500 (exhausted attempt last));
    calls = attempt;
    slept = slept;
  }
  loop (suc left) attempt last slept s =
      let (s', r) = call attempt s in
      elim r [
        | err (generation_error code message) ↦ elim (is_final code) [
          | true ↦ record {
            state = s';
            result = err (generation_error code message);
            calls = attempt + 1;
            slept = slept;
          }
          | false ↦
              loop left (attempt + 1) message (if left == 0 then slept else slept + 2 ^ attempt) s'
        ]
        | other ↦ record { state = s'; result = other; calls = attempt + 1; slept = slept }
      ]

  -- `retries` is `max_retries`, or the setting MAX_RETRIES. No error stands for the last one before
  -- the first attempt.
  unfoldable pub generate : ℕ → S → Run S
  unfolding loop text
  generate retries s = loop (suc retries) 0 (text "None") 0 s
