-- ===== src/UserStore/Query.antt =====
-- A method of the store as a function of the database: what it has written stays written where it
-- ends in an exception, since every statement is committed by itself.
pub mod Triples
pub mod Loops
use study_helper_backend.Prelude.{
  ℕ, Option, none, some, List, [], ◌∷◌, length, is_empty, if◌then◌else◌,
}
use study_helper_backend.Text.{Text}
use study_helper_backend.Outcome.{Failure, Result, ok, err, crash, database_error}
use study_helper_backend.UserStore.{UserDb, Server, require_pool}

abbrev pub Query : Type 0 → Type 0
Query A = UserDb → UserDb × Result A

abbrev pub continue : {A B : Type 0} → (A → Query B) → UserDb × Result A → UserDb × Result B
continue f (db, ok a) = f a db
continue f (db, err e) = (db, err e)

infixl 5 ◌>>=◌ ◌>>◌
unfoldable pub ◌>>=◌ : {A B : Type 0} → Query A → (A → Query B) → Query B
◌>>=◌ m f db = continue f (m db)

abbrev pub ◌>>◌ : {A B : Type 0} → Query A → Query B → Query B
m >> n = m >>= λ _. n

abbrev pub pure : {A : Type 0} → A → Query A
pure a db = (db, ok a)

abbrev pub raise : {A : Type 0} → Failure → Query A
raise e db = (db, err e)

-- What a statement ends in that the server refuses.
abbrev pub refused : {A : Type 0} → Query A
refused = raise (crash database_error)

abbrev pub lift : {A : Type 0} → Result A → Query A
lift r db = (db, r)

abbrev pub pool : Query (Unit {0})
pool db = (db, require_pool db)

-- `$1::uuid`
abbrev pub cast : Option Text → Query Text
cast none = refused
cast (some id) = pure id

-- The same, where the argument may be None.
abbrev pub cast_opt : Server → Option Text → Query (Option Text)
cast_opt srv none = pure none
cast_opt srv (some t) = cast (srv.uuid t) >>= λ id. pure (some id)

-- `for x in xs: await …`
unfoldable pub for_each : {X : Type 0} → (X → Query (Unit {0})) → List X → Query (Unit {0})
for_each step [] = pure tt
for_each step (x ∷ xs) = step x >> for_each step xs

-- The frame of the bulk uploads: nothing is asked of the database for an empty list, and the answer is
-- the number of what was sent.
unfoldable pub bulk : {X : Type 0} → List X → Query (Unit {0}) → Query ℕ
bulk xs body = if is_empty xs then pure 0 else (pool >> body) >>= λ _. pure (length xs)
