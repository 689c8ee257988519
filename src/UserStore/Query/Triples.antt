-- ===== src/UserStore/Query/Triples.antt =====
-- What holds of the database before and after a method of the store.
use study_helper_backend.Prelude.{Option, none, some, List, [], ◌∷◌, length, ◌≡◌, refl}
use study_helper_backend.Text.{Text}
use study_helper_backend.Outcome.{Result, ok, err}
use study_helper_backend.UserStore.{UserDb, Server, require_pool}
use study_helper_backend.UserStore.Query.{
  Query, continue, ◌>>=◌, pure, pool, cast, cast_opt, bulk, ◌>>◌,
}

-- After a value `after` holds, and after an exception `always`.
abbrev pub Post :
    {A : Type 0} → (UserDb → Type 0) → (A → UserDb → Type 0) → UserDb × Result A → Type 0
Post always after (db, ok a) = after a db
Post always after (db, err e) = always db

abbrev pub Triple :
    {A : Type 0} → (UserDb → Type 0) → (UserDb → Type 0) → Query A → (A → UserDb → Type 0) → Type 0
Triple always before m after = (db : UserDb) → before db → Post always after (m db)

-- A method that keeps what always holds, in every case.
abbrev pub Keeps : {A : Type 0} → (UserDb → Type 0) → Query A → Type 0
Keeps always m = Triple always always m (λ _. always)

module _ {A B : Type 0} (always : UserDb → Type 0) where
  continue-Post :
      (f : A → Query B) (mid : A → UserDb → Type 0) (after : B → UserDb → Type 0)
      (r : UserDb × Result A)
      → Post always mid r
      → ((a : A) → Triple always (mid a) (f a) after)
      → Post always after (continue f r)
  continue-Post f mid after (db, ok a) h next = next a db h
  continue-Post f mid after (db, err e) h next = h

  pub >>=-Triple :
      (before : UserDb → Type 0) (m : Query A) (f : A → Query B) (mid : A → UserDb → Type 0)
      (after : B → UserDb → Type 0)
      → Triple always before m mid
      → ((a : A) → Triple always (mid a) (f a) after)
      → Triple always before (m >>= f) after
  unfolding ◌>>=◌
  >>=-Triple before m f mid after h next db p = continue-Post f mid after (m db) (h db p) next

  pub >>=-Keeps :
      (m : Query A) (f : A → Query B)
      → Keeps always m
      → ((a : A) → Keeps always (f a))
      → Keeps always (m >>= f)
  >>=-Keeps m f h next = >>=-Triple always m f (λ _. always) (λ _. always) h next

-- A method that only looks.
pub pool-Triple :
    (always before : UserDb → Type 0)
    → ((db : UserDb) → before db → always db)
    → Triple always before pool (λ _. before)
pool-Triple always before weaker db p = go (require_pool db)
  where
    go : (r : Result (Unit {0})) → Post always (λ _. before) (db, r)
    go (ok u) = p
    go (err e) = weaker db p

pub cast-Triple :
    (always before : UserDb → Type 0) (o : Option Text)
    → ((db : UserDb) → before db → always db)
    → Triple always before (cast o) (λ id db. (o ≡ some id) × before db)
cast-Triple always before none weaker db p = weaker db p
cast-Triple always before (some id) weaker db p = (refl, p)

-- What the cast of an argument that may be None gives.
abbrev pub CastTo : Server → Option Text → Option Text → Type 0
CastTo srv none out = out ≡ none
CastTo srv (some t) out = (id : Text) × (srv.uuid t ≡ some id) × (out ≡ some id)

pub cast_opt-Triple :
    (srv : Server) (always before : UserDb → Type 0) (o : Option Text)
    → ((db : UserDb) → before db → always db)
    → Triple always before (cast_opt srv o) (λ out db. CastTo srv o out × before db)
cast_opt-Triple srv always before none weaker = λ db p. (refl, p)
cast_opt-Triple srv always before (some t) weaker =
    >>=-Triple always before (cast (srv.uuid t)) (λ id. pure (some id))
      (λ id db. (srv.uuid t ≡ some id) × before db) (λ out db. CastTo srv (some t) out × before db)
      (cast-Triple always before (srv.uuid t) weaker) (λ id db (e, p). ((id, e, refl), p))

module _ {A : Type 0} (always before : UserDb → Type 0) where
  Post-weaken :
      (mid after : A → UserDb → Type 0) (r : UserDb × Result A)
      → ((a : A) (db : UserDb) → mid a db → after a db)
      → Post always mid r
      → Post always after r
  Post-weaken mid after (db, ok a) next h = next a db h
  Post-weaken mid after (db, err e) next h = h

  pub Triple-weaken :
      (m : Query A) (mid after : A → UserDb → Type 0)
      → ((a : A) (db : UserDb) → mid a db → after a db)
      → Triple always before m mid
      → Triple always before m after
  Triple-weaken m mid after next h db p = Post-weaken mid after (m db) next (h db p)

  -- What two triples say of one method.
  Post-both :
      (first second : A → UserDb → Type 0) (r : UserDb × Result A)
      → Post always first r
      → Post (λ _. Unit) second r
      → Post always (λ a db. second a db × first a db) r
  Post-both first second (db, ok a) h k = (k, h)
  Post-both first second (db, err e) h k = h

  pub Triple-both :
      (also : UserDb → Type 0) (m : Query A) (first second : A → UserDb → Type 0)
      → Triple always before m first
      → Triple (λ _. Unit) also m second
      → Triple always (λ db. also db × before db) m (λ a db. second a db × first a db)
  Triple-both also m first second h k db (q, p) = Post-both first second (m db) (h db p) (k db q)

module _ (always : UserDb → Type 0) where
  pub pool-Keeps : Keeps always pool
  pool-Keeps = pool-Triple always always (λ db p. p)

  pub cast-Keeps : (o : Option Text) → Keeps always (cast o)
  cast-Keeps o =
      Triple-weaken always always (cast o) (λ id db. (o ≡ some id) × always db) (λ _. always)
        (λ id db (e, p). p) (cast-Triple always always o (λ db p. p))

  pub bulk-Keeps :
      {X : Type 0} (xs : List X) (body : Query (Unit {0}))
      → Keeps always body
      → Keeps always (bulk xs body)
  unfolding bulk
  bulk-Keeps [] body h = λ db p. p
  bulk-Keeps (x ∷ xs) body h =
      >>=-Keeps always (pool >> body) (λ _. pure (length (x ∷ xs)))
        (>>=-Keeps always pool (λ _. body) pool-Keeps (λ _. h)) (λ _ db p. p)
