-- ===== src/Outcome.antt =====
-- What a call may end in: a value, or an exception. The classes are those of core/exceptions.py,
-- FastAPI's HTTPException, and the exceptions of Python and of pydantic that the code can meet.
use study_helper_backend.Prelude.{ℕ, ◌≡◌, refl}
use study_helper_backend.Text.{Text}

-- Exceptions that no class of the program stands for. `schema_error` is pydantic's
-- ValidationError, `database_error` whatever asyncpg raises, `library_error` what another library does
-- that no clause of the code names.
pub data Crash : Type 0 where
  type_error value_error key_error index_error attribute_error : Crash
  overflow_error decode_error schema_error database_error library_error : Crash

pub data Failure : Type 0 where
  pdf_parse_error : ℕ → Text → Failure
  generation_error : ℕ → Text → Failure
  validation_error : Text → Failure
  http_exception : ℕ → Text → Failure
  crash : Crash → Failure

pub data Result {ℓ} (A : Type ℓ) : Type ℓ where
  err : Failure → Result A
  ok : A → Result A

infixl 5 ◌>>=◌ ◌>>◌
abbrev pub ◌>>=◌ {κ μ} : {X : Type κ} {Y : Type μ} → Result X → (X → Result Y) → Result Y
err failed >>= next = err failed
ok x >>= next = next x

abbrev pub ◌>>◌ {κ μ} : {X : Type κ} {Y : Type μ} → Result X → Result Y → Result Y
first >> second = first >>= λ _. second

-- Inversion of a chain that succeeded.
pub >>=-eq-ok {κ μ} :
    {X : Type κ} {Y : Type μ} (first : Result X) (next : X → Result Y) {y : Y}
    → (first >>= next) ≡ ok y
    → (x : X) × (first ≡ ok x) × (next x ≡ ok y)
>>=-eq-ok (err failed) next h = cc
>>=-eq-ok (ok x) next h = (x, refl, h)
