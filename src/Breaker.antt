-- ===== src/Breaker.antt =====
-- `_CircuitBreaker`: the same class in app/services/anthropic_client.py, openai_client.py and
-- timely_client.py. Times are the readings of `time.monotonic()` in nanoseconds.
pub mod Trace
pub mod Window
use study_helper_backend.Prelude.{
  ℕ, ◌+◌, ◌-◌, ◌*◌, Bool, true, false, Option, none, some, leb, if◌then◌else◌,
}

pub record Breaker : Type 0 where
  pub failures : ℕ
  pub opened_at : Option ℕ

abbrev pub failure_threshold : ℕ
failure_threshold = 5

abbrev pub second : ℕ
second = 1_000_000_000

abbrev pub recovery_timeout : ℕ
recovery_timeout = 60 * second

-- `__init__`
abbrev pub closed : Breaker
closed = record { failures = 0; opened_at = none }

-- The property `is_open`, which may close the breaker as it is read.
unfoldable pub is_open : ℕ → Breaker → Breaker × Bool
is_open now b = elim b.opened_at [
  | none ↦ (b, false)
  | some opened ↦
      if leb recovery_timeout (now - opened)
      then (record b { opened_at = none }, false)
      else (b, true)
]

unfoldable pub record_success : Breaker → Breaker
record_success b = record { failures = 0; opened_at = none }

unfoldable pub record_failure : ℕ → Breaker → Breaker
record_failure now b =
    let failures = b.failures + 1 in
    if leb failure_threshold failures
    then record { failures = failures; opened_at = some now }
    else record b { failures = failures }
