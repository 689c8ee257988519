-- ===== src/Examples/Breakers.antt =====
-- The breaker after five failures.
use study_helper_backend.Prelude.{
  ◌+◌, ◌*◌, ◌≡◌, ◌<◌, ◌≤◌, refl, true, false, List, [], ◌∷◌, none, some, ltb, arith, if◌then◌else◌,
}
use study_helper_backend.Breaker.{
  Breaker, failure_threshold, second, recovery_timeout, closed, is_open, record_success,
  record_failure,
}
use study_helper_backend.Breaker.Trace.{
  step, Event, ask, succeed, fail, run, streak, blocks_after_streak,
}
use study_helper_backend.Breaker.Window.{opens_for_a_minute}

abbrev outage : List Event
outage = succeed ∷ fail 1 ∷ fail 2 ∷ ask 3 ∷ fail 3 ∷ fail 4 ∷ fail 5 ∷ []

blocked : (is_open 6 (run closed outage)).1 ≡ true
unfolding record_failure record_success run step is_open
blocked = refl

blocks_after_streak_example : failure_threshold ≤ streak 0 outage
blocks_after_streak_example = blocks_after_streak outage 6 blocked

abbrev almost : Breaker
almost = record { failures = 4; opened_at = none }

abbrev tripped : Breaker
tripped = record { failures = 5; opened_at = some 0 }

fifth_failure : failure_threshold ≤ almost.failures + 1
fifth_failure = omega arith

opens_for_a_minute_example : is_open (8 * second) (record_failure (7 * second) almost) ≡ (
    if ltb (8 * second) (7 * second + recovery_timeout)
    then (record_failure (7 * second) almost, true)
    else (record { failures = almost.failures + 1; opened_at = none }, false))
opens_for_a_minute_example = opens_for_a_minute almost (7 * second) (8 * second) fifth_failure

enough_failures : failure_threshold ≤ tripped.failures
enough_failures = omega arith

within_a_minute : 90 * second < 70 * second + recovery_timeout
within_a_minute = omega arith
