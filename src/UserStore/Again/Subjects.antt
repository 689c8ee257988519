-- ===== src/UserStore/Again/Subjects.antt =====
-- `sync_subjects`, twice.
use study_helper_backend.Prelude.{
  ◌≡◌, refl, ◌∙◌, Bool, true, false, ◌&&◌, Option, none, some, List, [], ◌∷◌, ◌++◌, All, any,
  length, is_empty, Bool-cases, Option-cases, inl, inr,
}
use study_helper_backend.Text.{Text, text_eq}
use study_helper_backend.Text.Laws.{text_eq_refl}
use study_helper_backend.Outcome.{ok}
use study_helper_backend.UserStore.{SubjectRow, UserDb, Server, require_pool}
use study_helper_backend.UserStore.Query.{pure, for_each}
use study_helper_backend.UserStore.Query.Loops.{
  Gives, Gives-weaken, Open, bulk-Gives, bulk-again, >>=-Gives, Growth, for_each-Gives,
  for_each-again,
}
use study_helper_backend.UserStore.Subjects.{
  SubjectCreate, new_subject, find_subject, insert_subject, add_subject, add_subjects,
  sync_subjects,
}

-- A subject of the name is there.
abbrev pub is_some : {A : Type 0} → Option A → Bool
is_some none = false
is_some (some a) = true

module _ (srv : Server) (user : Text) where
  abbrev pub HasSubject : SubjectCreate → UserDb → Type 0
  HasSubject s db = is_some (find_subject user s.name db.subjects) ≡ true

  record Grows (a b : UserDb) : Type 0 where
    same_pool : require_pool b ≡ require_pool a
    more : (s : SubjectCreate) → HasSubject s a → HasSubject s b

  Grows-Growth : Growth Grows
  Grows-Growth = record {
    none_yet = λ db. record { same_pool = refl; more = λ s h. h };
    and_then = λ a b c g h. record {
      same_pool = h.same_pool ∙ g.same_pool;
      more = λ s p. h.more s (g.more s p);
    };
  }

  find_subject-append :
      (name : Text) (rows : List SubjectRow) (r : SubjectRow)
      → is_some (find_subject user name rows) ≡ true
      → is_some (find_subject user name (rows ++ r ∷ [])) ≡ true
  unfolding find_subject
  find_subject-append name [] r h = absurd (cc h)
  find_subject-append name (q ∷ rows) r h =
      elim (Bool-cases (text_eq q.user_id user && text_eq q.name name)) [
        | inl here ↦ rw here refl
        | inr there ↦ rw there (find_subject-append name rows r (rw (there, find_subject) at h))
      ]

  find_subject-last :
      (rows : List SubjectRow) (r : SubjectRow)
      → r.user_id ≡ user
      → is_some (find_subject user r.name (rows ++ r ∷ [])) ≡ true
  unfolding find_subject
  find_subject-last [] r e = rw (e, text_eq_refl user, text_eq_refl r.name) refl
  find_subject-last (q ∷ rows) r e =
      elim (Bool-cases (text_eq q.user_id user && text_eq q.name r.name)) [
        | inl here ↦ rw here refl
        | inr there ↦ rw there (find_subject-last rows r e)
      ]

  insert_subject-Gives :
      (s : SubjectCreate) (db : UserDb)
      → Gives (λ _ db'. Grows db db' × HasSubject s db') (insert_subject srv user s db)
  unfolding insert_subject require_pool
  insert_subject-Gives s db =
      let r = new_subject srv user s db in
      elim (Bool-cases (any (λ (q : SubjectRow). text_eq q.id r.id) db.subjects)) [
        | inl taken ↦ rw taken tt
        | inr fresh ↦ rw fresh (
          record { same_pool = refl; more = λ t h. find_subject-append t.name db.subjects r h },
          find_subject-last db.subjects r refl,
        )
      ]

  add_subject-Gives :
      (s : SubjectCreate) (db : UserDb)
      → Gives (λ _ db'. Grows db db' × HasSubject s db') (add_subject srv user s db)
  unfolding add_subject
  add_subject-Gives s db = elim (Option-cases (find_subject user s.name db.subjects)) [
    | inl missing ↦
        rw (missing, add_subject)
          (>>=-Gives (insert_subject srv user s) (λ _. pure tt) db
            (λ _ db'. Grows db db' × HasSubject s db') (λ _ db'. Grows db db' × HasSubject s db')
            (insert_subject-Gives s db) (λ _ db' h. h))
    | inr (r, found) ↦ rw (found, add_subject) (Grows-Growth.none_yet db, rw found refl)
  ]

  add_subject-again :
      (s : SubjectCreate) (db : UserDb) → HasSubject s db → add_subject srv user s db ≡ (db, ok tt)
  unfolding add_subject
  add_subject-again s db h = elim (Option-cases (find_subject user s.name db.subjects)) [
    | inl missing ↦ absurd (cc (rw missing at h))
    | inr (r, found) ↦ rw (found, add_subject) refl
  ]

  -- What a run leaves: as many as were sent, and each of them is there.
  abbrev pub AllSubjects : List SubjectCreate → UserDb → Type 0
  AllSubjects ss db = All (λ s. HasSubject s db) ss

  add_subjects-Gives :
      (ss : List SubjectCreate) (db : UserDb)
      → Gives (λ _ db'. Grows db db' × AllSubjects ss db') (add_subjects srv user ss db)
  unfolding add_subjects
  add_subjects-Gives =
      for_each-Gives (add_subject srv user) HasSubject Grows Grows-Growth (λ s a b g h. g.more s h)
        add_subject-Gives

  pub sync_subjects-Gives :
      (ss : List SubjectCreate) (db : UserDb)
      → Gives
          (λ n db'. (n ≡ length ss) × (Open ss (add_subjects srv user ss) db' × AllSubjects ss db'))
          (sync_subjects srv user ss db)
  unfolding sync_subjects
  sync_subjects-Gives ss db =
      bulk-Gives ss (add_subjects srv user ss) (λ _ db'. AllSubjects ss db') db (nothing ss)
        (Gives-weaken (λ _ db'. Grows db db' × AllSubjects ss db')
          (λ _ db'. (require_pool db' ≡ require_pool db) × AllSubjects ss db')
          (add_subjects srv user ss db) (λ _ db' (g, h). (g.same_pool, h))
          (add_subjects-Gives ss db))
    where
      nothing : (ss : List SubjectCreate) → is_empty ss ≡ true → AllSubjects ss db
      nothing [] e = tt
      nothing (s ∷ ss) e = absurd (cc e)

  pub sync_subjects-again :
      (ss : List SubjectCreate) (db : UserDb)
      → Open ss (add_subjects srv user ss) db
      → AllSubjects ss db
      → sync_subjects srv user ss db ≡ (db, ok (length ss))
  unfolding sync_subjects add_subjects
  sync_subjects-again ss db up h =
      bulk-again ss (for_each (add_subject srv user) ss) db up
        (for_each-again (add_subject srv user) HasSubject ss db (λ s. add_subject-again s db) h)
