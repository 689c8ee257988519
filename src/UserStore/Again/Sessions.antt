-- ===== src/UserStore/Again/Sessions.antt =====
-- `sync_sessions`, twice.
use study_helper_backend.Prelude.{
  ◌≡◌, refl, sym, subst, ◌∙◌, Bool, true, Option, none, some, List, [], ◌∷◌, ◌++◌, All, any, length,
  is_empty, Bool-cases, Option-cases, inl, inr,
}
use study_helper_backend.Text.{Text, text_eq}
use study_helper_backend.Text.Laws.{text_eq_refl}
use study_helper_backend.Outcome.{ok}
use study_helper_backend.UserStore.{SessionRow, UserDb, Server, require_pool}
use study_helper_backend.UserStore.Query.{Query, ◌>>=◌, ◌>>◌, pure, cast_opt, for_each}
use study_helper_backend.UserStore.Query.Triples.{CastTo, cast_opt-Triple}
use study_helper_backend.UserStore.Query.Loops.{
  Gives, Gives-weaken, >>=-Gives, >>=-same, Open, bulk-Gives, bulk-again, Growth, for_each-Gives,
  for_each-again,
}
use study_helper_backend.UserStore.Create.{
  SessionCreate, has_hash, subject_exists, new_session, insert_session, insert_or_pass, add_session,
  add_sessions, subject_ids, check_subjects, sync_sessions,
}
use study_helper_backend.UserStore.Again.Subjects.{is_some}
use study_helper_backend.UserStore.Again.Checks.{Again, check_subjects-Again}

-- A session that was sent with the hash of its PDF.
abbrev pub Hashed : SessionCreate → Type 0
Hashed s = is_some s.pdf_hash ≡ true

module _ (srv : Server) (user : Text) where
  -- A session of the hash is there, if one was sent, and the subject can be cast.
  abbrev pub HasSession : SessionCreate → UserDb → Type 0
  HasSession s db =
      is_some s.pdf_hash ≡ true
      → ((out : Option Text) × CastTo srv s.subject_id out)
        × (any (has_hash user s.pdf_hash) db.sessions ≡ true)

  pub record Grows (a b : UserDb) : Type 0 where
    pub same_pool : require_pool b ≡ require_pool a
    pub same_subjects : b.subjects ≡ a.subjects
    pub more :
        (h : Option Text)
        → any (has_hash user h) a.sessions ≡ true
        → any (has_hash user h) b.sessions ≡ true

  Grows-Growth : Growth Grows
  Grows-Growth = record {
    none_yet = λ db. record { same_pool = refl; same_subjects = refl; more = λ h p. p };
    and_then = λ a b c g h. record {
      same_pool = h.same_pool ∙ g.same_pool;
      same_subjects = h.same_subjects ∙ g.same_subjects;
      more = λ k p. h.more k (g.more k p);
    };
  }

  any-append :
      (p : SessionRow → Bool) (rows : List SessionRow) (r : SessionRow)
      → any p rows ≡ true
      → any p (rows ++ r ∷ []) ≡ true
  any-append p [] r h = absurd (cc h)
  any-append p (q ∷ rows) r h = elim (Bool-cases (p q)) [
    | inl here ↦ rw here refl
    | inr there ↦ rw there (any-append p rows r (rw there at h))
  ]

  any-last :
      (p : SessionRow → Bool) (rows : List SessionRow) (r : SessionRow)
      → p r ≡ true
      → any p (rows ++ r ∷ []) ≡ true
  any-last p [] r h = rw h refl
  any-last p (q ∷ rows) r h = elim (Bool-cases (p q)) [
    | inl here ↦ rw here refl
    | inr there ↦ rw there (any-last p rows r h)
  ]

  has_hash_self :
      (id subject : Option Text) (s : SessionCreate) (db : UserDb)
      → is_some s.pdf_hash ≡ true
      → has_hash user s.pdf_hash (new_session srv user id subject s db) ≡ true
  has_hash_self id subject s db h = elim (Option-cases s.pdf_hash) [
    | inl missing ↦ absurd (cc (rw missing at h))
    | inr (k, found) ↦ rw (found, text_eq_refl user, text_eq_refl k) refl
  ]

  -- An insertion, with the hash that it leaves.
  abbrev Left : SessionCreate → UserDb → UserDb → Type 0
  Left s a b =
      Grows a b × (is_some s.pdf_hash ≡ true → any (has_hash user s.pdf_hash) b.sessions ≡ true)

  insert_session-Gives :
      (id subject : Option Text) (s : SessionCreate) (db : UserDb)
      → Gives (λ _ db'. Left s db db') (insert_session srv user id subject s db)
  unfolding insert_session require_pool
  insert_session-Gives id subject s db =
      let r = new_session srv user id subject s db in
      elim (Bool-cases (any (λ (q : SessionRow). text_eq q.id r.id) db.sessions)) [
        | inl taken ↦ rw taken tt
        | inr fresh ↦ elim (Bool-cases (any (has_hash user s.pdf_hash) db.sessions)) [
          | inl known ↦ rw (fresh, known) tt
          | inr new ↦ elim (Bool-cases (subject_exists subject db)) [
            | inr missing ↦ rw (fresh, new, missing) tt
            | inl there ↦
                rw (fresh, new, there)
                  (
                    record {
                      same_pool = refl;
                      same_subjects = refl;
                      more = λ h p. any-append (has_hash user h) db.sessions r p;
                    },
                    λ h.
                        any-last (has_hash user s.pdf_hash) db.sessions r
                          (has_hash_self id subject s db h),
                  )
          ]
        ]
      ]

  insert_or_pass-Gives :
      (s : SessionCreate) (subject : Option Text) (db : UserDb)
      → Gives (λ _ db'. Left s db db') (insert_or_pass srv user s subject db)
  unfolding insert_or_pass
  insert_or_pass-Gives s subject db =
      elim (Bool-cases (any (has_hash user s.pdf_hash) db.sessions)) [
        | inl known ↦ rw known (Grows-Growth.none_yet db, λ h. known)
        | inr new ↦ rw new (
            >>=-Gives (insert_session srv user none subject s) (λ _. pure tt) db
              (λ _ db'. Left s db db') (λ _ db'. Left s db db')
              (insert_session-Gives none subject s db) (λ _ db' h. h))
      ]

  add_session-Gives :
      (s : SessionCreate) (db : UserDb)
      → Gives (λ _ db'. Grows db db' × HasSession s db') (add_session srv user s db)
  unfolding add_session
  add_session-Gives s db =
      >>=-Gives (cast_opt srv s.subject_id) (insert_or_pass srv user s) db
        (λ out db'. CastTo srv s.subject_id out × (db' ≡ db))
        (λ _ db'. Grows db db' × HasSession s db')
        (cast_opt-Triple srv (λ _. Unit) (λ d. d ≡ db) s.subject_id (λ d e. tt) db refl)
        (λ out db1 (to, same). rw same (
          Gives-weaken (λ _ db'. Left s db db') (λ _ db'. Grows db db' × HasSession s db')
            (insert_or_pass srv user s out db) (λ _ db' (g, left). (g, λ h. ((out, to), left h)))
            (insert_or_pass-Gives s out db)))

  cast_opt-CastTo :
      (o out : Option Text) (db : UserDb) → CastTo srv o out → cast_opt srv o db ≡ (db, ok out)
  unfolding ◌>>=◌
  cast_opt-CastTo none out db e = rw e refl
  cast_opt-CastTo (some t) out db (id, e, same) = rw (e, same) refl

  -- The hash is there, and the subject can be cast.
  abbrev Known : SessionCreate → UserDb → Type 0
  Known s db =
      ((out : Option Text) × CastTo srv s.subject_id out)
      × (any (has_hash user s.pdf_hash) db.sessions ≡ true)

  add_session-again :
      (s : SessionCreate) (db : UserDb) → Known s db → add_session srv user s db ≡ (db, ok tt)
  unfolding add_session insert_or_pass
  add_session-again s db ((out, to), known) =
      >>=-same (cast_opt srv s.subject_id) (insert_or_pass srv user s) db out
        (cast_opt-CastTo s.subject_id out db to)
      ∙ rw known refl

  all-Known :
      (ss : List SessionCreate) (db : UserDb)
      → All Hashed ss
      → All (λ s. HasSession s db) ss
      → All (λ s. Known s db) ss
  all-Known [] db h k = tt
  all-Known (s ∷ ss) db (here, h) (there, k) = (there here, all-Known ss db h k)

  -- What a run leaves: the subjects as they were, and as many sessions as were sent.
  abbrev pub SessionsDone : List SessionCreate → UserDb → UserDb → Type 0
  SessionsDone ss old db =
      (require_pool db ≡ require_pool old)
      × (db.subjects ≡ old.subjects)
      × All (λ s. HasSession s db) ss
      × ((d : UserDb)
          → d.subjects ≡ db.subjects
          → check_subjects srv user (subject_ids ss) d ≡ (d, ok tt))

  abbrev pub body : List SessionCreate → Query (Unit {0})
  body ss = check_subjects srv user (subject_ids ss) >> add_sessions srv user ss

  body-Gives :
      (ss : List SessionCreate) (db : UserDb)
      → Gives (λ _ db'. (require_pool db' ≡ require_pool db) × SessionsDone ss db db') (body ss db)
  unfolding add_sessions
  body-Gives ss db =
      let check = check_subjects srv user (subject_ids ss) in
      >>=-Gives check (λ _. add_sessions srv user ss) db (Again srv user check db)
        (λ _ db'. (require_pool db' ≡ require_pool db) × SessionsDone ss db db')
        (check_subjects-Again srv user (subject_ids ss) db)
        (λ _ db1 (same, again).
          subst
            (λ d.
              Gives (λ _ db'. (require_pool db' ≡ require_pool db) × SessionsDone ss db db')
                (add_sessions srv user ss d))
            (sym same)
            (Gives-weaken (λ _ db'. Grows db db' × All (λ s. HasSession s db') ss)
              (λ _ db'. (require_pool db' ≡ require_pool db) × SessionsDone ss db db')
              (for_each (add_session srv user) ss db)
              (λ _ db' (g, h). (
                g.same_pool,
                (g.same_pool, g.same_subjects, h, λ d e. again d (e ∙ g.same_subjects)),
              ))
              (for_each-Gives (add_session srv user) HasSession Grows Grows-Growth
                (λ s a b g h hashed.
                  let (cast_to, there) = h hashed in (cast_to, g.more s.pdf_hash there))
                add_session-Gives ss db)))

  pub sync_sessions-Gives :
      (ss : List SessionCreate) (db : UserDb)
      → Gives
          (λ n db'. (n ≡ length ss) × (Open ss (body ss) db' × SessionsDone ss db db'))
          (sync_sessions srv user ss db)
  unfolding sync_sessions
  sync_sessions-Gives ss db =
      bulk-Gives ss (body ss) (SessionsDone ss) db (nothing ss) (body-Gives ss db)
    where
      nothing : (ss : List SessionCreate) → is_empty ss ≡ true → SessionsDone ss db db
      nothing [] e = (refl, refl, tt, λ d e. refl)
      nothing (s ∷ ss) e = absurd (cc e)

  pub sync_sessions-again :
      (ss : List SessionCreate) (db : UserDb)
      → Open ss (body ss) db
      → All (λ s. HasSession s db) ss
      → (check_subjects srv user (subject_ids ss) db ≡ (db, ok tt))
      → All Hashed ss
      → sync_sessions srv user ss db ≡ (db, ok (length ss))
  unfolding sync_sessions add_sessions
  sync_sessions-again ss db up there check hashed = bulk-again ss (body ss) db up (
      >>=-same (check_subjects srv user (subject_ids ss)) (λ _. add_sessions srv user ss) db tt
        check
      ∙ for_each-again (add_session srv user) Known ss db (λ s. add_session-again s db)
          (all-Known ss db hashed there))
