-- ===== src/Breaker/Trace.antt =====
-- The breaker along a history of requests and answers.
use study_helper_backend.Prelude.{ℕ, ◌+◌, ◌≤◌, ◌≡◌, refl, ap, ◌∙◌, true, some, List, [], ◌∷◌, arith}
use study_helper_backend.Breaker.{
  Breaker, closed, failure_threshold, is_open, record_success, record_failure,
}
use study_helper_backend.Breaker.Window.{is_open_iff}

-- What the client does with its breaker.
pub data Event : Type 0 where
  ask : ℕ → Event
  succeed : Event
  fail : ℕ → Event

unfoldable pub step : Breaker → Event → Breaker
step b (ask now) = (is_open now b).0
step b succeed = record_success b
step b (fail now) = record_failure now b

unfoldable pub run : Breaker → List Event → Breaker
run b [] = b
run b (e ∷ es) = run (step b e) es

-- The failures since the last success, in a history with the latest event first.
abbrev pub streak : ℕ → List Event → ℕ
streak n [] = n
streak n (ask _ ∷ es) = streak n es
streak n (succeed ∷ es) = streak 0 es
streak n (fail _ ∷ es) = streak (n + 1) es

pub failures-is_open : (b : Breaker) (now : ℕ) → (is_open now b).0.failures ≡ b.failures
unfolding is_open
failures-is_open b now = ground arith

pub failures-record_failure :
    (b : Breaker) (now : ℕ) → (record_failure now b).failures ≡ b.failures + 1
unfolding record_failure
failures-record_failure b now = ground arith

-- Whatever the history, the counter is the number of failures since the last success.
pub failures-run : (b : Breaker) (es : List Event) → (run b es).failures ≡ streak b.failures es
unfolding run step record_success record_failure
failures-run b [] = refl
failures-run b (ask now ∷ es) =
    failures-run (is_open now b).0 es ∙ ap (λ n. streak n es) (failures-is_open b now)
failures-run b (succeed ∷ es) = failures-run (record_success b) es
failures-run b (fail now ∷ es) =
    failures-run (record_failure now b) es ∙ ap (λ n. streak n es) (failures-record_failure b now)

abbrev pub IsSound : Breaker → Type 0
IsSound b = (t : ℕ) → b.opened_at ≡ some t → failure_threshold ≤ b.failures

step-IsSound : (b : Breaker) (e : Event) → IsSound b → IsSound (step b e)
unfolding step is_open record_success record_failure
step-IsSound b (ask now) h t = ground (arith, h t)
step-IsSound b succeed h t = ground arith
step-IsSound b (fail now) h t = ground (arith, h t)

run-IsSound : (b : Breaker) (es : List Event) → IsSound b → IsSound (run b es)
unfolding run
run-IsSound b [] h = h
run-IsSound b (e ∷ es) h = run-IsSound (step b e) es (step-IsSound b e h)

IsSound-closed : IsSound closed
IsSound-closed t e = absurd (cc)

-- A new breaker, whatever its history, blocks a request only if the last success, or the start, is
-- followed by at least five failures.
pub blocks_after_streak :
    (es : List Event) (now : ℕ)
    → (is_open now (run closed es)).1 ≡ true
    → failure_threshold ≤ streak 0 es
blocks_after_streak es now h =
    let (opened, held, _) = (is_open_iff (run closed es) now).0.0 h in
    rw (← failures-run closed es) (run-IsSound closed es IsSound-closed opened held)
