-- ===== src/UserStore/Owners/Checks.antt =====
-- The checks of subjects that come before an insertion.
use study_helper_backend.Prelude.{
  ◌≡◌, refl, true, ◌&&◌, ◌||◌, Option, none, some, List, [], ◌∷◌, All, all, map, filter, arith,
  Bool-cases, inl, inr, and-split,
}
use study_helper_backend.Text.{Text, text_eq, member}
use study_helper_backend.Text.Laws.{text_eq_iff, text_eq_refl}
use study_helper_backend.UserStore.{SubjectRow, UserDb, Server}
use study_helper_backend.UserStore.Query.{◌>>=◌, pure, cast}
use study_helper_backend.UserStore.Query.Triples.{
  Triple, CastTo, >>=-Triple, Triple-weaken, cast-Triple,
}
use study_helper_backend.UserStore.Subjects.{owns}
use study_helper_backend.UserStore.Create.{
  SessionCreate, given, require_owned, check_subject, subject_ids, cast_all, owned_ids,
  require_all_owned, check_subjects,
}
use study_helper_backend.UserStore.Owners.{IsPostgres, SubjectOf}

-- Whatever the argument is cast to is a subject of the user.
abbrev pub Checked : Server → Text → Option Text → UserDb → Type 0
Checked srv user subject db =
    (out : Option Text) → CastTo srv subject out → SubjectOf db.subjects user out

module _ (srv : Server) (pg : IsPostgres srv) (user : Text) where
  require_owned-Triple :
      (always before : UserDb → Type 0) (id : Text)
      → ((db : UserDb) → before db → always db)
      → Triple always before
          (require_owned user id)
          (λ _ db. (owns user id db.subjects ≡ true) × before db)
  unfolding require_owned
  require_owned-Triple always before id weaker db p = elim (Bool-cases (owns user id db.subjects)) [
    | inl own ↦ rw own (own, p)
    | inr other ↦ rw other (weaker db p)
  ]

  Checked-some :
      (t id : Text) (db : UserDb)
      → srv.uuid t ≡ some id
      → owns user id db.subjects ≡ true
      → Checked srv user (some t) db
  Checked-some t id db e own out (id', e', same) =
      let same_id : id ≡ id' = cc (e, e') in rw (same, ← same_id) own

  pub check_subject-Triple :
      (always before : UserDb → Type 0) (subject : Option Text)
      → ((db : UserDb) → before db → always db)
      → Triple always before
          (check_subject srv user subject)
          (λ _ db. Checked srv user subject db × before db)
  unfolding check_subject
  check_subject-Triple always before none weaker = λ db p. ((λ out e. rw e tt), p)
  check_subject-Triple always before (some []) weaker =
      λ db p. ((λ out (id, e, same). absurd (cc (e, pg.empty))), p)
  check_subject-Triple always before (some (c ∷ t)) weaker =
      >>=-Triple always before (cast (srv.uuid (c ∷ t))) (require_owned user)
        (λ id db. (srv.uuid (c ∷ t) ≡ some id) × before db)
        (λ _ db. Checked srv user (some (c ∷ t)) db × before db)
        (cast-Triple always before (srv.uuid (c ∷ t)) weaker)
        (λ id.
          Triple-weaken always (λ db. (srv.uuid (c ∷ t) ≡ some id) × before db)
            (require_owned user id)
            (λ _ db. (owns user id db.subjects ≡ true) × ((srv.uuid (c ∷ t) ≡ some id) × before db))
            (λ _ db. Checked srv user (some (c ∷ t)) db × before db)
            (λ _ db (own, (e, p)). (Checked-some (c ∷ t) id db e own, p))
            (require_owned-Triple always (λ db. (srv.uuid (c ∷ t) ≡ some id) × before db) id
              (λ db (e, p). weaker db p)))

  -- A subject of the user, in its canonical text.
  abbrev Own : UserDb → Text → Type 0
  Own db t = (owns user t db.subjects ≡ true) × (srv.uuid t ≡ some t)

  abbrev Canonical : List Text → Type 0
  Canonical = All (λ id. srv.uuid id ≡ some id)

  member-Canonical :
      (t : Text) (ids : List Text) → Canonical ids → member t ids ≡ true → srv.uuid t ≡ some t
  unfolding member
  member-Canonical t [] h m = absurd (cc m)
  member-Canonical t (id ∷ ids) (here, h) m = elim (Bool-cases (text_eq t id)) [
    | inl same ↦ let e : t ≡ id = (text_eq_iff t id).0 same in rw e here
    | inr other ↦ member-Canonical t ids h (rw (other, member) at m)
  ]

  abbrev listed : List Text → List SubjectRow → List Text
  listed ids rows =
      map (λ (r : SubjectRow). r.id)
        (filter (λ (r : SubjectRow). text_eq r.user_id user && member r.id ids) rows)

  listed-own :
      (t : Text) (ids : List Text) (rows : List SubjectRow)
      → Canonical ids
      → member t (listed ids rows) ≡ true
      → (owns user t rows ≡ true) × (srv.uuid t ≡ some t)
  unfolding member owns
  listed-own t ids [] h m = absurd (cc m)
  listed-own t ids (r ∷ rows) h m = elim (Bool-cases (text_eq r.user_id user && member r.id ids)) [
    | inl taken ↦ elim (Bool-cases (text_eq t r.id)) [
      | inl same ↦
          let (mine, known) = and-split (text_eq r.user_id user) (member r.id ids) taken in
          let e : t ≡ r.id = (text_eq_iff t r.id).0 same in
          rw e (rw (text_eq_refl r.id, mine) refl, member-Canonical r.id ids h known)
      | inr other ↦ later (listed-own t ids rows h (rw (taken, other, member, listed) at m))
    ]
    | inr passed ↦ later (listed-own t ids rows h (rw (passed, member, listed) at m))
  ]
    where
      later :
          (owns user t rows ≡ true) × (srv.uuid t ≡ some t)
          → ((text_eq r.id t && text_eq r.user_id user || owns user t rows) ≡ true)
            × (srv.uuid t ≡ some t)
      later (own, e) = (ground arith, e)

  cast_all-Triple :
      (always before : UserDb → Type 0) (ts : List Text)
      → ((db : UserDb) → before db → always db)
      → Triple always before (cast_all srv ts) (λ ids db. Canonical ids × before db)
  unfolding cast_all
  cast_all-Triple always before [] weaker = λ db p. (tt, p)
  cast_all-Triple always before (t ∷ ts) weaker =
      >>=-Triple always before (cast (srv.uuid t))
        (λ id. cast_all srv ts >>= λ ids. pure (id ∷ ids))
        (λ id db. (srv.uuid t ≡ some id) × before db) (λ ids db. Canonical ids × before db)
        (cast-Triple always before (srv.uuid t) weaker)
        (λ id.
          >>=-Triple always (λ db. (srv.uuid t ≡ some id) × before db) (cast_all srv ts)
            (λ ids. pure (id ∷ ids))
            (λ ids db. Canonical ids × ((srv.uuid t ≡ some id) × before db))
            (λ ids db. Canonical ids × before db)
            (cast_all-Triple always (λ db. (srv.uuid t ≡ some id) × before db) ts
              (λ db (e, p). weaker db p))
            (λ ids db (h, (e, p)). ((pg.canonical t id e, h), p)))

  all-listed :
      (ids wanted : List Text) (db : UserDb)
      → Canonical ids
      → all (λ t. member t (owned_ids user ids db)) wanted ≡ true
      → All (Own db) wanted
  unfolding owned_ids
  all-listed ids [] db h a = tt
  all-listed ids (t ∷ ts) db h a =
      let (here, later) = and-split (member t (owned_ids user ids db)) _ a in
      (listed-own t ids db.subjects h here, all-listed ids ts db h later)

  require_all_owned-Triple :
      (always before : UserDb → Type 0) (wanted ids : List Text)
      → ((db : UserDb) → before db → always db)
      → Triple always
          (λ db. Canonical ids × before db)
          (require_all_owned user wanted ids)
          (λ _ db. All (Own db) wanted × before db)
  unfolding require_all_owned
  require_all_owned-Triple always before wanted ids weaker db (h, p) =
      elim (Bool-cases (all (λ t. member t (owned_ids user ids db)) wanted)) [
        | inl own ↦ rw own (all-listed ids wanted db h own, p)
        | inr other ↦ rw other (weaker db p)
      ]

  check_wanted-Triple :
      (always before : UserDb → Type 0) (wanted : List Text)
      → ((db : UserDb) → before db → always db)
      → Triple always before
          (check_subjects srv user wanted)
          (λ _ db. All (Own db) wanted × before db)
  unfolding check_subjects
  check_wanted-Triple always before [] weaker = λ db p. (tt, p)
  check_wanted-Triple always before (t ∷ ts) weaker =
      >>=-Triple always before (cast_all srv (t ∷ ts)) (require_all_owned user (t ∷ ts))
        (λ ids db. Canonical ids × before db) (λ _ db. All (Own db) (t ∷ ts) × before db)
        (cast_all-Triple always before (t ∷ ts) weaker)
        (λ ids. require_all_owned-Triple always before (t ∷ ts) ids weaker)

  abbrev pub AllChecked : List SessionCreate → UserDb → Type 0
  AllChecked sessions db = All (λ (s : SessionCreate). Checked srv user s.subject_id db) sessions

  Own-Checked : (t : Text) (db : UserDb) → Own db t → Checked srv user (some t) db
  Own-Checked t db (own, e) = Checked-some t t db e own

  split-Checked :
      (o : Option Text) (rest : List Text) (db : UserDb)
      → All (Own db) (elim (given o) [ none ↦ rest | some t ↦ t ∷ rest ])
      → Checked srv user o db × All (Own db) rest
  split-Checked none rest db h = ((λ out e. rw e tt), h)
  split-Checked (some []) rest db h = ((λ out (id, e, same). absurd (cc (e, pg.empty))), h)
  split-Checked (some (c ∷ t)) rest db (own, h) = (Own-Checked (c ∷ t) db own, h)

  subject_ids-Checked :
      (sessions : List SessionCreate) (db : UserDb)
      → All (Own db) (subject_ids sessions)
      → AllChecked sessions db
  unfolding subject_ids
  subject_ids-Checked [] db h = tt
  subject_ids-Checked (s ∷ ss) db h =
      let (here, later) = split-Checked s.subject_id (subject_ids ss) db h in
      (here, subject_ids-Checked ss db later)

  -- After the check of a bulk upload, the subject of every session is the user's.
  pub check_subjects-Triple :
      (always before : UserDb → Type 0) (sessions : List SessionCreate)
      → ((db : UserDb) → before db → always db)
      → Triple always before
          (check_subjects srv user (subject_ids sessions))
          (λ _ db. AllChecked sessions db × before db)
  check_subjects-Triple always before sessions weaker =
      Triple-weaken always before (check_subjects srv user (subject_ids sessions))
        (λ _ db. All (Own db) (subject_ids sessions) × before db)
        (λ _ db. AllChecked sessions db × before db)
        (λ _ db (h, p). (subject_ids-Checked sessions db h, p))
        (check_wanted-Triple always before (subject_ids sessions) weaker)
