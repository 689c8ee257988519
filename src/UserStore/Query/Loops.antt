-- ===== src/UserStore/Query/Loops.antt =====
-- A loop of statements whose steps leave something behind that later steps keep: what it leaves,
-- and that a second run finds it.
use study_helper_backend.Prelude.{◌≡◌, refl, ◌∙◌, List, [], ◌∷◌, All, true, false, length, is_empty}
use study_helper_backend.Outcome.{Result, ok, err}
use study_helper_backend.UserStore.{UserDb, require_pool}
use study_helper_backend.UserStore.Query.{Query, continue, ◌>>=◌, ◌>>◌, pure, pool, for_each, bulk}
use study_helper_backend.UserStore.Query.Triples.{Post}

-- Of the database before and after a method that gives a value.
abbrev pub Gives : {A : Type 0} → (A → UserDb → Type 0) → UserDb × Result A → Type 0
Gives after r = Post (λ _. Unit) after r

pub continue-Gives :
    {A B : Type 0} (f : A → Query B) (mid : A → UserDb → Type 0) (after : B → UserDb → Type 0)
    (r : UserDb × Result A)
    → Gives mid r
    → ((a : A) (db : UserDb) → mid a db → Gives after (f a db))
    → Gives after (continue f r)
continue-Gives f mid after (db, ok a) h next = next a db h
continue-Gives f mid after (db, err e) h next = tt

pub >>=-Gives :
    {A B : Type 0} (m : Query A) (f : A → Query B) (db : UserDb) (mid : A → UserDb → Type 0)
    (after : B → UserDb → Type 0)
    → Gives mid (m db)
    → ((a : A) (db : UserDb) → mid a db → Gives after (f a db))
    → Gives after ((m >>= f) db)
unfolding ◌>>=◌
>>=-Gives m f db mid after h next = continue-Gives f mid after (m db) h next

-- A method whose first part changes nothing.
pub >>=-same :
    {A B : Type 0} (m : Query A) (f : A → Query B) (db : UserDb) (a : A)
    → m db ≡ (db, ok a)
    → (m >>= f) db ≡ f a db
unfolding ◌>>=◌
>>=-same m f db a e = rw e refl

-- How a database grows.
pub record Growth (G : UserDb → UserDb → Type 0) : Type 0 where
  pub none_yet : (db : UserDb) → G db db
  pub and_then : (a b c : UserDb) → G a b → G b c → G a c

module _ {X : Type 0} (step : X → Query (Unit {0})) (H : X → UserDb → Type 0) where
  -- A second run.
  pub for_each-again :
      (xs : List X) (db : UserDb)
      → ((x : X) → H x db → step x db ≡ (db, ok tt))
      → All (λ x. H x db) xs
      → for_each step xs db ≡ (db, ok tt)
  unfolding for_each
  for_each-again [] db again h = refl
  for_each-again (x ∷ xs) db again (here, h) =
      >>=-same (step x) (λ _. for_each step xs) db tt (again x here) ∙ for_each-again xs db again h

  module _ (G : UserDb → UserDb → Type 0) (growth : Growth G)
      (keeps : (x : X) (a b : UserDb) → G a b → H x a → H x b)
      (leaves : (x : X) (db : UserDb) → Gives (λ _ db'. G db db' × H x db') (step x db)) where
    -- A first run.
    pub for_each-Gives :
        (xs : List X) (db : UserDb)
        → Gives (λ _ db'. G db db' × All (λ x. H x db') xs) (for_each step xs db)
    unfolding for_each
    for_each-Gives [] db = (growth.none_yet db, tt)
    for_each-Gives (x ∷ xs) db =
        >>=-Gives (step x) (λ _. for_each step xs) db (λ _ db'. G db db' × H x db')
          (λ _ db'. G db db' × (H x db' × All (λ x. H x db') xs)) (leaves x db)
          (λ _ db1 (g, here).
            gives_more db db1 x xs g here (for_each step xs db1) (for_each-Gives xs db1))
      where
        gives_more :
            (db db1 : UserDb) (x : X) (xs : List X)
            → G db db1
            → H x db1
            → (r : UserDb × Result (Unit {0}))
            → Gives (λ _ db'. G db1 db' × All (λ x. H x db') xs) r
            → Gives (λ _ db'. G db db' × (H x db' × All (λ x. H x db') xs)) r
        gives_more db db1 x xs g here (db2, ok u) (g', h) =
            (growth.and_then db db1 db2 g g', (keeps x db1 db2 g' here, h))
        gives_more db db1 x xs g here (db2, err e) h = tt

module _ {X : Type 0} (xs : List X) (body : Query (Unit {0})) where
  -- The pool is there, if it was needed.
  abbrev pub Open : UserDb → Type 0
  Open db = is_empty xs ≡ false → require_pool db ≡ ok tt

  pub bulk-again :
      (db : UserDb) → Open db → body db ≡ (db, ok tt) → bulk xs body db ≡ (db, ok (length xs))
  unfolding bulk
  bulk-again db is_open again = go xs is_open
    where
      go :
          (ys : List X)
          → (is_empty ys ≡ false → require_pool db ≡ ok tt)
          → bulk ys body db ≡ (db, ok (length ys))
      go [] o = refl
      go (y ∷ ys) o =
          >>=-same (pool >> body) (λ _. pure (length (y ∷ ys))) db tt
            (>>=-same pool (λ _. body) db tt (rw (o refl) refl) ∙ again)

pool-Gives : (db : UserDb) → Gives (λ _ db'. (db' ≡ db) × (require_pool db ≡ ok tt)) (pool db)
pool-Gives db = go (require_pool db) refl
  where
    go :
        (r : Result (Unit {0}))
        → require_pool db ≡ r
        → Gives (λ _ db'. (db' ≡ db) × (r ≡ ok tt)) (db, r)
    go (ok u) e = (refl, refl)
    go (err f) e = tt

pub bulk-Gives :
    {X : Type 0} (xs : List X) (body : Query (Unit {0})) (P : UserDb → UserDb → Type 0)
    (db : UserDb)
    → (is_empty xs ≡ true → P db db)
    → Gives (λ _ db'. (require_pool db' ≡ require_pool db) × P db db') (body db)
    → Gives (λ n db'. (n ≡ length xs) × (Open xs body db' × P db db')) (bulk xs body db)
unfolding bulk
bulk-Gives [] body P db nothing h = (refl, ((λ e. absurd (cc e)), nothing refl))
bulk-Gives (x ∷ xs) body P db nothing h =
    >>=-Gives (pool >> body) (λ _. pure (length (x ∷ xs))) db
      (λ _ db'. (require_pool db' ≡ ok tt) × P db db')
      (λ n db'. (n ≡ length (x ∷ xs)) × (Open (x ∷ xs) body db' × P db db'))
      (>>=-Gives pool (λ _. body) db (λ _ db'. (db' ≡ db) × (require_pool db ≡ ok tt))
        (λ _ db'. (require_pool db' ≡ ok tt) × P db db') (pool-Gives db)
        (λ _ db1 (same, up). rw same (opened up (body db) h)))
      (λ _ db' (up, p). (refl, ((λ e. up), p)))
  where
    opened :
        require_pool db ≡ ok tt
        → (r : UserDb × Result (Unit {0}))
        → Gives (λ _ db'. (require_pool db' ≡ require_pool db) × P db db') r
        → Gives (λ _ db'. (require_pool db' ≡ ok tt) × P db db') r
    opened up (db', ok u) (e, p) = (e ∙ up, p)
    opened up (db', err f) p = tt

pub Gives-weaken :
    {A : Type 0} (mid after : A → UserDb → Type 0) (r : UserDb × Result A)
    → ((a : A) (db : UserDb) → mid a db → after a db)
    → Gives mid r
    → Gives after r
Gives-weaken mid after (db, ok a) next h = next a db h
Gives-weaken mid after (db, err e) next h = tt
