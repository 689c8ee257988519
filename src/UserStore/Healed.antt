-- ===== src/UserStore/Healed.antt =====
-- `get_sessions`: the answer is the state that it leaves.
use study_helper_backend.Prelude.{
  ◌≡◌, refl, sym, ap, subst, ◌∙◌, Bool, true, false, ◌&&◌, List, [], ◌∷◌, map, filter, insert_by,
  order_by, leb, is_empty, Bool-cases, inl, inr,
}
use study_helper_backend.Text.{Text, text_eq, member}
use study_helper_backend.Outcome.{Result, ok, err}
use study_helper_backend.QuestionBank.{Bank}
use study_helper_backend.UserStore.{SessionRow, UserDb, require_pool}
use study_helper_backend.UserStore.Query.{pool}
use study_helper_backend.UserStore.Query.Loops.{Gives, >>=-Gives}
use study_helper_backend.UserStore.Listing.{
  user_sessions, pending_pairs, ready_hashes, heal_ids, with_ready, heal, repaired, get_sessions,
}

abbrev newest : SessionRow → SessionRow → Bool
newest a b = leb b.created_at a.created_at

newest-with_ready :
    (p q : Bool) (a b : SessionRow) → newest (with_ready p a) (with_ready q b) ≡ newest a b
newest-with_ready true true a b = refl
newest-with_ready true false a b = refl
newest-with_ready false true a b = refl
newest-with_ready false false a b = refl

module _ (flag : SessionRow → Bool) where
  abbrev marked : SessionRow → SessionRow
  marked r = with_ready (flag r) r

  insert_by-marked :
      (r : SessionRow) (rows : List SessionRow)
      → insert_by newest (marked r) (map marked rows) ≡ map marked (insert_by newest r rows)
  insert_by-marked r [] = refl
  insert_by-marked r (q ∷ rows) = elim (Bool-cases (newest r q)) [
    | inl first ↦ rw (newest-with_ready (flag r) (flag q) r q, first) refl
    | inr later ↦
        rw (newest-with_ready (flag r) (flag q) r q, later)
          (ap (λ rs. marked q ∷ rs) (insert_by-marked r rows))
  ]

  order_by-marked :
      (rows : List SessionRow)
      → order_by newest (map marked rows) ≡ map marked (order_by newest rows)
  order_by-marked [] = refl
  order_by-marked (r ∷ rows) =
      ap (insert_by newest (marked r)) (order_by-marked rows)
      ∙ insert_by-marked r (order_by newest rows)

module _ (user : Text) (ids : List Text) where
  abbrev mine : SessionRow → Bool
  mine r = text_eq r.user_id user

  mine-with_ready : (b : Bool) (r : SessionRow) → mine (with_ready b r) ≡ mine r
  mine-with_ready true r = refl
  mine-with_ready false r = refl

  -- Among the rows of the user, the update marks those whose ids are named.
  filter-heal :
      (rows : List SessionRow)
      → filter mine (heal user ids rows) ≡ map (marked (λ r. member r.id ids)) (filter mine rows)
  unfolding heal
  filter-heal [] = refl
  filter-heal (r ∷ rows) = elim (Bool-cases (mine r)) [
    | inl own ↦
        rw (mine-with_ready (mine r && member r.id ids) r, own)
          (ap (λ rs. marked (λ r. member r.id ids) r ∷ rs) (filter-heal rows))
    | inr other ↦ rw (mine-with_ready (mine r && member r.id ids) r, other) (filter-heal rows)
  ]

repaired-Stored :
    (bank : Bank) (user : Text) (db : UserDb)
    → Gives (λ rows db'. rows ≡ user_sessions user db') (repaired bank user db)
unfolding repaired user_sessions
repaired-Stored bank user db =
    let pairs = pending_pairs (user_sessions user db) in
    let ids = heal_ids (ready_hashes bank pairs) pairs in
    elim (Bool-cases (is_empty ids)) [
      | inl nothing ↦ rw nothing refl
      | inr some_ids ↦ rw some_ids (
          sym (
            ap (order_by newest) (filter-heal user ids db.sessions)
            ∙ order_by-marked (λ r. member r.id ids) (filter (mine user ids) db.sessions)))
    ]

-- The list of sessions that is answered, repaired or not, is what the database has of the user's
-- sessions when the method ends, the newest first.
pub get_sessions-Stored :
    (bank : Bank) (user : Text) (db db' : UserDb) (rows : List SessionRow)
    → get_sessions bank user db ≡ (db', ok rows)
    → rows ≡ user_sessions user db'
unfolding get_sessions
get_sessions-Stored bank user db db' rows h =
    subst (λ r. Gives (λ rows db'. rows ≡ user_sessions user db') r) h
      (>>=-Gives pool (λ _. repaired bank user) db (λ _ _. Unit)
        (λ rows db'. rows ≡ user_sessions user db') (looked (require_pool db))
        (λ _ db1 _. repaired-Stored bank user db1))
  where
    looked : (r : Result (Unit {0})) → Gives (λ _ _. Unit) (db, r)
    looked (ok u) = tt
    looked (err e) = tt
