-- ===== src/UserStore/Again/Reviews.antt =====
-- `sync_reviews`, twice.
use study_helper_backend.Prelude.{
  ◌≡◌, refl, sym, subst, ◌∙◌, true, some, List, [], ◌∷◌, ◌++◌, All, any, length, is_empty,
  Bool-cases, Option-cases, inl, inr,
}
use study_helper_backend.Text.{Text, text_eq}
use study_helper_backend.Text.Laws.{text_eq_refl}
use study_helper_backend.Outcome.{ok}
use study_helper_backend.UserStore.{SessionRow, UserDb, Server, require_pool}
use study_helper_backend.UserStore.Review.{ReviewRow}
use study_helper_backend.UserStore.Query.{◌>>=◌, pure, cast, for_each}
use study_helper_backend.UserStore.Query.Triples.{cast-Triple}
use study_helper_backend.UserStore.Query.Loops.{
  Gives, Gives-weaken, >>=-Gives, Open, bulk-Gives, bulk-again, Growth, for_each-Gives,
  for_each-again,
}
use study_helper_backend.UserStore.Reviews.{
  ReviewUpsert, has_question, find_review, insert_review, add_row, add_review, add_reviews,
  sync_reviews,
}
use study_helper_backend.UserStore.Again.Subjects.{is_some}

module _ (srv : Server) (user : Text) where
  abbrev pub HasReview : ReviewUpsert → UserDb → Type 0
  HasReview r db =
      (session : Text) × (srv.uuid r.session_id ≡ some session)
      × (is_some (find_review user session r.question_id db.reviews) ≡ true)

  pub record Grows (a b : UserDb) : Type 0 where
    pub same_pool : require_pool b ≡ require_pool a
    pub same_subjects : b.subjects ≡ a.subjects
    pub same_sessions : b.sessions ≡ a.sessions
    pub more :
        (session question : Text)
        → is_some (find_review user session question a.reviews) ≡ true
        → is_some (find_review user session question b.reviews) ≡ true

  Grows-Growth : Growth Grows
  Grows-Growth = record {
    none_yet = λ db. record {
      same_pool = refl;
      same_subjects = refl;
      same_sessions = refl;
      more = λ s q h. h;
    };
    and_then = λ a b c g h. record {
      same_pool = h.same_pool ∙ g.same_pool;
      same_subjects = h.same_subjects ∙ g.same_subjects;
      same_sessions = h.same_sessions ∙ g.same_sessions;
      more = λ s q p. h.more s q (g.more s q p);
    };
  }

  find_review-append :
      (session question : Text) (rows : List ReviewRow) (r : ReviewRow)
      → is_some (find_review user session question rows) ≡ true
      → is_some (find_review user session question (rows ++ r ∷ [])) ≡ true
  unfolding find_review
  find_review-append session question [] r h = absurd (cc h)
  find_review-append session question (q ∷ rows) r h =
      elim (Bool-cases (has_question user session question q)) [
        | inl here ↦ rw here refl
        | inr there ↦
            rw there (find_review-append session question rows r (rw (there, find_review) at h))
      ]

  find_review-last :
      (rows : List ReviewRow) (r : ReviewRow)
      → r.user_id ≡ user
      → is_some (find_review user r.session_id r.question_id (rows ++ r ∷ [])) ≡ true
  unfolding find_review
  find_review-last [] r e =
      rw (e, text_eq_refl user, text_eq_refl r.session_id, text_eq_refl r.question_id) refl
  find_review-last (q ∷ rows) r e =
      elim (Bool-cases (has_question user r.session_id r.question_id q)) [
        | inl here ↦ rw here refl
        | inr there ↦ rw there (find_review-last rows r e)
      ]

  abbrev Left : Text → ReviewUpsert → UserDb → UserDb → Type 0
  Left session r a b =
      Grows a b × (is_some (find_review user session r.question_id b.reviews) ≡ true)

  insert_review-Gives :
      (session : Text) (body : ReviewUpsert) (db : UserDb)
      → Gives (λ _ db'. Left session body db db') (insert_review srv user session body db)
  unfolding insert_review require_pool
  insert_review-Gives session body db =
      elim (Bool-cases
        (any (λ (q : ReviewRow). text_eq q.id (srv.gen_random_uuid db.inserted)) db.reviews)) [
          | inl taken ↦ rw taken tt
          | inr fresh ↦
              elim (Bool-cases (any (λ (s : SessionRow). text_eq s.id session) db.sessions)) [
                | inr missing ↦ rw (fresh, missing) tt
                | inl there ↦
                    rw (fresh, there)
                      (
                        record {
                          same_pool = refl;
                          same_subjects = refl;
                          same_sessions = refl;
                          more = λ s q h. find_review-append s q db.reviews _ h;
                        },
                        find_review-last db.reviews _ refl,
                      )
              ]
        ]

  add_row-Gives :
      (session : Text) (body : ReviewUpsert) (db : UserDb)
      → Gives (λ _ db'. Left session body db db') (add_row srv user session body db)
  unfolding add_row
  add_row-Gives session body db =
      elim (Option-cases (find_review user session body.question_id db.reviews)) [
        | inl missing ↦
            rw (missing, add_row)
              (>>=-Gives (insert_review srv user session body) (λ _. pure tt) db
                (λ _ db'. Left session body db db') (λ _ db'. Left session body db db')
                (insert_review-Gives session body db) (λ _ db' h. h))
        | inr (r, found) ↦ rw (found, add_row) (Grows-Growth.none_yet db, rw found refl)
      ]

  add_review-Gives :
      (r : ReviewUpsert) (db : UserDb)
      → Gives (λ _ db'. Grows db db' × HasReview r db') (add_review srv user r db)
  unfolding add_review
  add_review-Gives r db =
      >>=-Gives (cast (srv.uuid r.session_id)) (λ session. add_row srv user session r) db
        (λ session db'. (srv.uuid r.session_id ≡ some session) × (db' ≡ db))
        (λ _ db'. Grows db db' × HasReview r db')
        (cast-Triple (λ _. Unit) (λ d. d ≡ db) (srv.uuid r.session_id) (λ d e. tt) db refl)
        (λ session db1 (e, same).
          subst
            (λ d. Gives (λ _ db'. Grows db db' × HasReview r db') (add_row srv user session r d))
            (sym same)
            (Gives-weaken (λ _ db'. Left session r db db') (λ _ db'. Grows db db' × HasReview r db')
              (add_row srv user session r db) (λ _ db' (g, left). (g, (session, e, left)))
              (add_row-Gives session r db)))

  add_review-again :
      (r : ReviewUpsert) (db : UserDb) → HasReview r db → add_review srv user r db ≡ (db, ok tt)
  unfolding add_review ◌>>=◌ add_row
  add_review-again r db (session, e, there) =
      elim (Option-cases (find_review user session r.question_id db.reviews)) [
        | inl missing ↦ absurd (cc (rw missing at there))
        | inr (q, found) ↦ rw (e, found, add_row) refl
      ]

  -- What a run leaves: the other tables as they were, and as many reviews as were sent.
  abbrev pub ReviewsDone : List ReviewUpsert → UserDb → UserDb → Type 0
  ReviewsDone rs old db =
      (require_pool db ≡ require_pool old)
      × (db.subjects ≡ old.subjects)
      × (db.sessions ≡ old.sessions)
      × All (λ r. HasReview r db) rs

  pub sync_reviews-Gives :
      (rs : List ReviewUpsert) (db : UserDb)
      → Gives
          (λ n db'.
            (n ≡ length rs) × (Open rs (add_reviews srv user rs) db' × ReviewsDone rs db db'))
          (sync_reviews srv user rs db)
  unfolding sync_reviews add_reviews
  sync_reviews-Gives rs db =
      bulk-Gives rs (for_each (add_review srv user) rs) (ReviewsDone rs) db (nothing rs) (
        Gives-weaken (λ _ db'. Grows db db' × All (λ r. HasReview r db') rs)
          (λ _ db'. (require_pool db' ≡ require_pool db) × ReviewsDone rs db db')
          (for_each (add_review srv user) rs db)
          (λ _ db' (g, h). (g.same_pool, (g.same_pool, g.same_subjects, g.same_sessions, h)))
          (for_each-Gives (add_review srv user) HasReview Grows Grows-Growth
            (λ r a b g (session, e, there). (session, e, g.more session r.question_id there))
            add_review-Gives rs db))
    where
      nothing : (rs : List ReviewUpsert) → is_empty rs ≡ true → ReviewsDone rs db db
      nothing [] e = (refl, refl, refl, tt)
      nothing (r ∷ rs) e = absurd (cc e)

  pub sync_reviews-again :
      (rs : List ReviewUpsert) (db : UserDb)
      → Open rs (add_reviews srv user rs) db
      → All (λ r. HasReview r db) rs
      → sync_reviews srv user rs db ≡ (db, ok (length rs))
  unfolding sync_reviews add_reviews
  sync_reviews-again rs db up h =
      bulk-again rs (for_each (add_review srv user) rs) db up
        (for_each-again (add_review srv user) HasReview rs db (λ r. add_review-again r db) h)
