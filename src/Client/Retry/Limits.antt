-- ===== src/Client/Retry/Limits.antt =====
-- How far the retry loop goes, and what errors leave it.
use native.Mathlib.Nat.{two-pow-succ}
use native.Mathlib.Numerals.{add-one}
use study_helper_backend.Prelude.{
  ℕ, zero, suc, ◌+◌, ◌-◌, ◌^◌, ◌≤◌, ◌<◌, ◌≡◌, ◌⊎◌, inl, inr, refl, true, arith, Bool-cases, ◌==◌,
  if◌then◌else◌,
}
use study_helper_backend.Text.{Text, text}
use study_helper_backend.Outcome.{Result, ok, err, generation_error}
use study_helper_backend.Json.{Value}
use study_helper_backend.Client.Retry.{Run, is_final, loop, generate}

pow-add-one : (n : ℕ) → 2 ^ (n + 1) ≡ 2 ^ n + 2 ^ n
pow-add-one n = simp (add-one, two-pow-succ)

-- What a run that began at an attempt, with rounds left, may look like.
record IsWithin {ℓ} {S : Type ℓ} (attempt left : ℕ) (r : Run S) : Type ℓ where
  began : attempt < r.calls
  ended : r.calls ≤ attempt + left
  doubled : r.slept + 1 ≡ 2 ^ (r.calls - 1)

module _ {ℓ} {S : Type ℓ} (call : ℕ → S → S × Result Value) where
  round-IsWithin :
      (left attempt : ℕ) (last : Text) (slept : ℕ) (s s' : S) (r : Result Value)
      → call attempt s ≡ (s', r)
      → slept + 1 ≡ 2 ^ attempt
      → ((m : Text)
          → IsWithin
              (attempt + 1)
              (suc left)
              (loop call (suc left) (attempt + 1) m (slept + 2 ^ attempt) s'))
      → IsWithin attempt (suc (suc left)) (loop call (suc (suc left)) attempt last slept s)
  unfolding loop
  round-IsWithin left attempt last slept s s' (err (generation_error code m)) e h ih =
      ground (arith, ih m)
  round-IsWithin left attempt last slept s s' (ok v) e h ih = ground arith
  round-IsWithin left attempt last slept s s' (err _) e h ih = ground arith

  loop-IsWithin :
      (left attempt : ℕ) (last : Text) (slept : ℕ) (s : S)
      → slept + 1 ≡ 2 ^ attempt
      → IsWithin attempt (suc left) (loop call (suc left) attempt last slept s)
  unfolding loop
  loop-IsWithin zero attempt last slept s h = ground arith
  loop-IsWithin (suc left) attempt last slept s h =
      let s' = (call attempt s).0 in
      round-IsWithin left attempt last slept s s' (call attempt s).1 refl h λ m.
        loop-IsWithin left (attempt + 1) m (slept + 2 ^ attempt) s'
          (omega (arith, pow-add-one attempt))

  -- Between 1 and retries + 1 attempts are made, and the seconds slept are one less than 2 to the
  -- number of the waits between them.
  pub generate_bounds :
      (retries : ℕ) (s : S)
      → (1 ≤ (generate call retries s).calls)
        × ((generate call retries s).calls ≤ retries + 1)
        × ((generate call retries s).slept + 1 ≡ 2 ^ ((generate call retries s).calls - 1))
  unfolding generate
  generate_bounds retries s =
      let w = loop-IsWithin retries 0 (text "None") 0 s refl in
      (omega arith, omega arith, w.doubled)

  round-final :
      (left attempt : ℕ) (last : Text) (slept : ℕ) (s s' : S) (r : Result Value) (code : ℕ)
      (m : Text)
      → call attempt s ≡ (s', r)
      → ((m' : Text) (t : ℕ)
          → (loop call left (attempt + 1) m' t s').result ≡ err (generation_error code m)
          → (is_final code ≡ true)
            ⊎ ((code ≡ 500) × ((loop call left (attempt + 1) m' t s').calls ≡ attempt + 1 + left)))
      → (loop call (suc left) attempt last slept s).result ≡ err (generation_error code m)
      → (is_final code ≡ true)
        ⊎ ((code ≡ 500) × ((loop call (suc left) attempt last slept s).calls ≡ attempt + suc left))
  unfolding loop
  round-final left attempt last slept s s' (ok v) code m e ih h = ground arith
  round-final left attempt last slept s s' (err (generation_error c n)) code m e ih h =
      elim (Bool-cases (is_final c)) [
        | inl stop ↦ ground arith
        | inr go ↦ ground (arith, ih n (if left == 0 then slept else slept + 2 ^ attempt))
      ]
  round-final left attempt last slept s s' (err _) code m e ih h = ground arith

  loop-final :
      (left attempt : ℕ) (last : Text) (slept : ℕ) (s : S) (code : ℕ) (m : Text)
      → (loop call left attempt last slept s).result ≡ err (generation_error code m)
      → (is_final code ≡ true)
        ⊎ ((code ≡ 500) × ((loop call left attempt last slept s).calls ≡ attempt + left))
  unfolding loop
  loop-final zero attempt last slept s code m h = inr (ground arith, omega arith)
  loop-final (suc left) attempt last slept s code m h =
      let s' = (call attempt s).0 in
      round-final left attempt last slept s s' (call attempt s).1 code m refl
        (λ m' t. loop-final left (attempt + 1) m' t s' code m) h

  -- A GenerationError that leaves the loop has the status 401, 429 or 503, or it has the status 500
  -- after every one of the retries + 1 attempts.
  pub generate_errors :
      (retries : ℕ) (s : S) (code : ℕ) (m : Text)
      → (generate call retries s).result ≡ err (generation_error code m)
      → (is_final code ≡ true) ⊎ ((code ≡ 500) × ((generate call retries s).calls ≡ retries + 1))
  unfolding generate
  generate_errors retries s code m h =
      elim (loop-final (suc retries) 0 (text "None") 0 s code m h) [
        | inl stop ↦ inl stop
        | inr (server, every) ↦ inr (server, omega arith)
      ]
