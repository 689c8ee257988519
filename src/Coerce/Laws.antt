-- ===== src/Coerce/Laws.antt =====
-- Levels and types after the coercions.
use study_helper_backend.Prelude.{ℕ, ◌≤◌, ◌≡◌, some, arith}
use study_helper_backend.Prelude.Int.{ℤ, pos, negsuc}
use study_helper_backend.Text.{Text, text}
use study_helper_backend.Outcome.{Result, ok, err, crash, value_error, type_error}
use study_helper_backend.Json.{Value, int, str, Fields, get_or}
use study_helper_backend.Runtime.{Runtime}
use study_helper_backend.Runtime.Number.{to_int}
use study_helper_backend.Coerce.{difficulty_level, clamp, clamp_or_three, coerce_level, level_of}

abbrev pub InRange : ℕ → Type 0
InRange n = (1 ≤ n) × (n ≤ 5)

clamp-InRange : (n : ℤ) → InRange (clamp n)
unfolding clamp
clamp-InRange (pos n) = omega arith
clamp-InRange (negsuc n) = omega arith

pub clamp_or_three-InRange : (r : Result ℤ) (n : ℕ) → clamp_or_three r ≡ ok n → InRange n
clamp_or_three-InRange (ok k) n h = ground (arith, clamp-InRange k)
clamp_or_three-InRange (err (crash value_error)) n h = ground arith
clamp_or_three-InRange (err (crash type_error)) n h = ground arith
clamp_or_three-InRange (err (crash _)) n h = cc
clamp_or_three-InRange (err _) n h = cc

pub difficulty_level-InRange : (s : Text) (n : ℕ) → difficulty_level s ≡ some n → InRange n
unfolding difficulty_level
difficulty_level-InRange s n h = ground arith

module _ (rt : Runtime) where
  coerce_level-InRange : (v : Value) (n : ℕ) → coerce_level rt v ≡ ok n → InRange n
  unfolding coerce_level
  coerce_level-InRange (str s) n h =
      ground (arith, difficulty_level-InRange s n, clamp_or_three-InRange (to_int rt (str s)) n)
  coerce_level-InRange v n h = clamp_or_three-InRange (to_int rt v) n h

  -- A level that `validate_mcq` or `validate_fill` reads is between 1 and 5.
  pub level_of-InRange : (fs : Fields) (n : ℕ) → level_of rt fs ≡ ok n → InRange n
  unfolding level_of
  level_of-InRange fs n h =
      coerce_level-InRange (get_or fs (text "level") (get_or fs (text "difficulty") (int (pos 3))))
        n h
