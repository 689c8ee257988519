-- ===== src/Breaker/Window.antt =====
-- When the breaker blocks: exactly in the minute after it opened.
use study_helper_backend.Prelude.{
  ℕ, ◌+◌, ◌-◌, ◌≤◌, ◌<◌, ◌≡◌, ◌↔◌, refl, true, false, none, some, arith, ltb, inl, inr,
  Option-cases, if◌then◌else◌,
}
use study_helper_backend.Breaker.{
  Breaker, failure_threshold, recovery_timeout, is_open, record_success, record_failure,
}

-- The breaker reports open exactly when it holds an opening time less than the recovery timeout
-- ago. What it is afterwards is what it was, but for the opening time when it reports closed.
pub is_open_iff :
    (b : Breaker) (now : ℕ)
    → (((is_open now b).1 ≡ true)
        ↔ ((opened : ℕ) × (b.opened_at ≡ some opened) × (now - opened < recovery_timeout)))
      × ((is_open now b).0
          ≡ record b { opened_at = if (is_open now b).1 then b.opened_at else none })
unfolding is_open
is_open_iff b now = (iff, ground arith)
  where
    iff :
        ((is_open now b).1 ≡ true)
        ↔ ((opened : ℕ) × (b.opened_at ≡ some opened) × (now - opened < recovery_timeout))
    iff = (
      λ h. elim (Option-cases b.opened_at) [
        | inl shut ↦ absurd (ground arith)
        | inr (opened, held) ↦ (opened, held, ground arith)
      ],
      λ (opened, held, recent). ground arith,
    )

-- The failure that completes a streak of five blocks every request of the next minute. The first
-- request at or after the end of the minute passes, and the count of failures stays as it is.
pub opens_for_a_minute :
    (b : Breaker) (t now : ℕ)
    → failure_threshold ≤ b.failures + 1
    → is_open now (record_failure t b) ≡ (
        if ltb now (t + recovery_timeout)
        then (record_failure t b, true)
        else (record { failures = b.failures + 1; opened_at = none }, false))
unfolding is_open record_failure
opens_for_a_minute b t now h = ground arith

-- A probe let through after an opening decides: if it fails the breaker is open again at once, and
-- if it succeeds the breaker is as new, so that four further failures leave it closed.
pub probe_decides :
    (b : Breaker) (t now later : ℕ)
    → failure_threshold ≤ b.failures
    → later < now + recovery_timeout
    → ((is_open later (record_failure now (is_open t b).0)).1 ≡ true)
      × ((is_open later (
            record_failure now (
              record_failure now
                (record_failure now (record_failure now (record_success (is_open t b).0)))))).1
          ≡ false)
unfolding is_open record_failure record_success
probe_decides b t now later h k = (ground arith, refl)

-- Once the minute is over, every request passes until a failure is recorded, not only one.
pub probes_unbounded :
    (b : Breaker) (t now later : ℕ)
    → (is_open now b).1 ≡ false
    → is_open later (is_open now b).0 ≡ ((is_open now b).0, false)
unfolding is_open
probes_unbounded b t now later h = ground arith
