-- ===== src/Client/Retry/Answers.antt =====
-- The retry loop against a description of it: the first attempt that answers gives the result.
use study_helper_backend.Prelude.{
  ℕ, zero, suc, ◌+◌, ◌^◌, ◌≤◌, ◌<◌, ◌≡◌, inl, inr, refl, false, arith, Bool-cases, ◌==◌,
  if◌then◌else◌,
}
use study_helper_backend.Text.{Text, text}
use study_helper_backend.Outcome.{Result, ok, err, generation_error}
use study_helper_backend.Json.{Value}
use study_helper_backend.Client.Retry.{is_final, loop, generate}

-- From the attempt `a` in the state `s` on, the attempt `k` is the first that answers, with `v` and
-- the state `t`; each one before it failed with a status that is retried.
pub data Answers {ℓ} {S : Type ℓ} (call : ℕ → S → S × Result Value) (k : ℕ) (t : S) (v : Value)
    : ℕ → S → Type ℓ where
  now : {a : ℕ} {s : S} → a ≡ k → call a s ≡ (t, ok v) → Answers call k t v a s
  later :
      {a : ℕ} {s : S} (s' : S) (code : ℕ) (m : Text)
      → call a s ≡ (s', err (generation_error code m))
      → is_final code ≡ false
      → Answers call k t v (a + 1) s'
      → Answers call k t v a s

module _ {ℓ} {S : Type ℓ} (call : ℕ → S → S × Result Value) where
  after-le : {k : ℕ} {t : S} {v : Value} {a : ℕ} {s : S} → Answers call k t v a s → a ≤ k
  after-le (now e _) = omega arith
  after-le (later s' code m _ _ w) = omega (arith, after-le w)

  Answers-loop :
      {k : ℕ} {t : S} {v : Value} (left attempt : ℕ) (last : Text) (slept : ℕ) (s : S)
      → Answers call k t v attempt s
      → k < attempt + left
      → ((loop call left attempt last slept s).state ≡ t)
        × ((loop call left attempt last slept s).result ≡ ok v)
        × ((loop call left attempt last slept s).calls ≡ k + 1)
  unfolding loop
  Answers-loop zero attempt last slept s w h = absurd (omega (arith, after-le w))
  Answers-loop (suc left) attempt last slept s (now e call_now) h = ground arith
  Answers-loop (suc left) attempt last slept s (later s' code m failed more w) h = ground (
    arith,
    Answers-loop left (attempt + 1) m (if left == 0 then slept else slept + 2 ^ attempt) s' w,
  )

  -- If the attempt k is the first to answer and k is at most the number of retries, the loop gives
  -- its answer and the state that it leaves, after k + 1 attempts.
  pub Answers-generate :
      {k : ℕ} {t : S} {v : Value} (retries : ℕ) (s : S)
      → Answers call k t v 0 s
      → k ≤ retries
      → ((generate call retries s).state ≡ t)
        × ((generate call retries s).result ≡ ok v)
        × ((generate call retries s).calls ≡ k + 1)
  unfolding generate
  Answers-generate retries s w h = Answers-loop (suc retries) 0 (text "None") 0 s w (omega arith)

  round-Answers :
      (left attempt : ℕ) (last : Text) (slept : ℕ) (s s' : S) (r : Result Value) (v : Value)
      → call attempt s ≡ (s', r)
      → ((m : Text) (z : ℕ)
          → (loop call left (attempt + 1) m z s').result ≡ ok v
          → (k : ℕ) × (t : S) × Answers call k t v (attempt + 1) s' × (k < attempt + 1 + left))
      → (loop call (suc left) attempt last slept s).result ≡ ok v
      → (k : ℕ) × (t : S) × Answers call k t v attempt s × (k < attempt + suc left)
  unfolding loop
  round-Answers left attempt last slept s s' (ok u) v e ih h =
      (attempt, s', now refl (ground arith), omega arith)
  round-Answers left attempt last slept s s' (err (generation_error c n)) v e ih h =
      elim (Bool-cases (is_final c)) [
        | inl stop ↦ absurd (ground arith)
        | inr go ↦
            let (k, t, w, lt) =
              ih n (if left == 0 then slept else slept + 2 ^ attempt) (ground arith) in
            (k, t, later s' c n e go w, omega arith)
      ]
  round-Answers left attempt last slept s s' (err _) v e ih h = absurd (ground arith)

  loop-Answers :
      (left attempt : ℕ) (last : Text) (slept : ℕ) (s : S) (v : Value)
      → (loop call left attempt last slept s).result ≡ ok v
      → (k : ℕ) × (t : S) × Answers call k t v attempt s × (k < attempt + left)
  unfolding loop
  loop-Answers zero attempt last slept s v h = absurd (cc)
  loop-Answers (suc left) attempt last slept s v h =
      let s' = (call attempt s).0 in
      round-Answers left attempt last slept s s' (call attempt s).1 v refl
        (λ m z. loop-Answers left (attempt + 1) m z s' v) h

  -- Every answer that the loop gives is that of the first attempt to answer, one of the first
  -- retries + 1; each attempt before it failed with a status that is retried.
  pub generate-Answers :
      (retries : ℕ) (s : S) (v : Value)
      → (generate call retries s).result ≡ ok v
      → (k : ℕ) × (t : S) × Answers call k t v 0 s × (k ≤ retries)
  unfolding generate
  generate-Answers retries s v h =
      let (k, t, w, lt) = loop-Answers (suc retries) 0 (text "None") 0 s v h in
      (k, t, w, omega arith)
