-- ===== src/Generate/Job.antt =====
-- The state that the background task acts on, and its steps: each may go on with a value, end the
-- task in order, or let an exception out of it.
use study_helper_backend.Prelude.{ℕ}
use study_helper_backend.Outcome.{Failure}
use study_helper_backend.Breaker.{Breaker}
use study_helper_backend.Client.Timely.{TimelyState}
use study_helper_backend.Sessions.{Store}
use study_helper_backend.UserStore.{UserDb}
use study_helper_backend.QuestionBank.{Bank}

-- What the three client modules keep in their globals.
pub record Clients : Type 0 where
  pub anthropic : Breaker
  pub openai : Breaker
  pub timely : TimelyState

pub record World : Type 0 where
  pub sessions : Store
  pub users : UserDb
  pub bank : Bank
  pub clients : Clients
  -- The draws of `uuid4` so far.
  pub draws : ℕ

pub data End (A : Type 0) : Type 0 where
  done : A → End A
  stopped : End A
  died : Failure → End A

abbrev pub Job : Type 0 → Type 0
Job A = World → World × End A

abbrev pub continue : {A B : Type 0} → (A → Job B) → World × End A → World × End B
continue f (w, done a) = f a w
continue f (w, stopped) = (w, stopped)
continue f (w, died e) = (w, died e)

infixl 5 ◌>>=◌ ◌>>◌
unfoldable pub ◌>>=◌ : {A B : Type 0} → Job A → (A → Job B) → Job B
◌>>=◌ m f w = continue f (m w)

abbrev pub ◌>>◌ : {A B : Type 0} → Job A → Job B → Job B
m >> n = m >>= λ _. n

abbrev pub pure : {A : Type 0} → A → Job A
pure a w = (w, done a)

abbrev pub modify : (World → World) → Job (Unit {0})
modify f w = (f w, done tt)

abbrev pub stop : {A : Type 0} → Job A
stop w = (w, stopped)
