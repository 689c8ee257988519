-- ===== src/UserStore/Owners/Inserts.antt =====
-- The statements kept_subject the owner of every subject.
use study_helper_backend.Prelude.{
  ℕ, ◌≡◌, refl, sym, ap, ◌∙◌, subst, Bool, true, false, not, ◌&&◌, ◌||◌, Option, none, some, List,
  [], ◌∷◌, ◌++◌, All, All-append, All-map, any, filter, arith, Bool-cases, Option-cases, inl, inr,
  and-split,
}
use study_helper_backend.Text.{Text, text_eq, member}
use study_helper_backend.Text.Laws.{text_eq_iff}
use study_helper_backend.UserStore.{
  RowStatus, SubjectRow, SessionRow, UserDb, Server, is_row, set_status,
}
use study_helper_backend.UserStore.Query.Triples.{Triple, Keeps}
use study_helper_backend.UserStore.Subjects.{
  SubjectCreate, new_subject, owns, find_subject, recolor, insert_subject, upsert_subject, in_use,
  remove_subject,
}
use study_helper_backend.UserStore.Create.{
  SessionCreate, has_hash, subject_exists, new_session, insert_session, find_session_hash,
  refresh_all, insert_or_refresh, remove_session,
}
use study_helper_backend.UserStore.Listing.{with_ready, heal}
use study_helper_backend.UserStore.Owners.{SubjectOf, RowOwned, Owned}

-- Filtered rows are rows.
All-filter :
    {A : Type 0} (P : A → Type 0) (p : A → Bool) (rows : List A)
    → All P rows
    → All P (filter p rows)
All-filter P p [] h = tt
All-filter P p (r ∷ rows) (here, h) = elim (Bool-cases (p r)) [
  | inl taken ↦ rw taken (here, All-filter P p rows h)
  | inr passed ↦ rw passed (All-filter P p rows h)
]

-- Where everything that is owned stays owned, every row does.
SubjectOf-grows :
    (old new : List SubjectRow) (user : Text) (o : Option Text)
    → ((u id : Text) → owns u id old ≡ true → owns u id new ≡ true)
    → SubjectOf old user o
    → SubjectOf new user o
SubjectOf-grows old new user none more h = tt
SubjectOf-grows old new user (some id) more h = more user id h

Owned-grows :
    (old new : List SubjectRow) (rows : List SessionRow)
    → ((u id : Text) → owns u id old ≡ true → owns u id new ≡ true)
    → All (RowOwned old) rows
    → All (RowOwned new) rows
Owned-grows old new rows more h =
    All-map (RowOwned old) (RowOwned new)
      (λ r p. SubjectOf-grows old new r.user_id r.subject_id more p) rows h

owns-append :
    (user id : Text) (rows : List SubjectRow) (r : SubjectRow)
    → owns user id rows ≡ true
    → owns user id (rows ++ r ∷ []) ≡ true
unfolding owns
owns-append user id [] r h = ground arith
owns-append user id (q ∷ rows) r h = elim (Bool-cases (text_eq q.id id && text_eq q.user_id user)) [
  | inl here ↦ rw here refl
  | inr other ↦ rw other (owns-append user id rows r (rw (other, owns) at h))
]

owns-recolor :
    (user id u name color : Text) (rows : List SubjectRow)
    → owns user id (recolor u name color rows) ≡ owns user id rows
unfolding owns recolor
owns-recolor user id u name color [] = refl
owns-recolor user id u name color (q ∷ rows) =
    elim (Bool-cases (text_eq q.user_id u && text_eq q.name name)) [
      | inl here ↦ rw here (
          ap (λ b. (text_eq q.id id && text_eq q.user_id user) || b)
            (owns-recolor user id u name color rows))
      | inr other ↦ rw other (
          ap (λ b. (text_eq q.id id && text_eq q.user_id user) || b)
            (owns-recolor user id u name color rows))
    ]

owns-filter :
    (user id u s : Text) (rows : List SubjectRow)
    → text_eq s id ≡ false
    → owns user s rows ≡ true
    → owns user s (filter (λ (r : SubjectRow). not (text_eq r.id id && text_eq r.user_id u)) rows)
      ≡ true
unfolding owns
owns-filter user id u s [] differs h = absurd (cc h)
owns-filter user id u s (q ∷ rows) differs h =
    elim (Bool-cases (text_eq q.id id && text_eq q.user_id u)) [
      | inl gone ↦
          let e : q.id ≡ id = (text_eq_iff q.id id).0 (and-split _ _ gone).0 in
          let other : text_eq q.id s ≡ false =
            ground (arith, e, text_eq_iff q.id s, text_eq_iff s id) in
          rw gone (owns-filter user id u s rows differs (rw (other, owns) at h))
      | inr stays ↦ rw stays (elim (Bool-cases (text_eq q.id s && text_eq q.user_id user)) [
        | inl here ↦ rw here refl
        | inr later ↦ rw later (owns-filter user id u s rows differs (rw (later, owns) at h))
      ])
    ]

pub insert_subject-Owned :
    (srv : Server) (user : Text) (s : SubjectCreate) → Keeps Owned (insert_subject srv user s)
unfolding insert_subject
insert_subject-Owned srv user s db h =
    let r = new_subject srv user s db in
    elim (Bool-cases (any (λ (q : SubjectRow). text_eq q.id r.id) db.subjects)) [
      | inl taken ↦ rw taken h
      | inr fresh ↦ rw fresh (
          Owned-grows db.subjects (db.subjects ++ r ∷ []) db.sessions
            (λ u id own. owns-append u id db.subjects r own) h)
    ]

pub upsert_subject-Owned :
    (srv : Server) (user : Text) (s : SubjectCreate) → Keeps Owned (upsert_subject srv user s)
unfolding upsert_subject
upsert_subject-Owned srv user s db h = elim (Option-cases (find_subject user s.name db.subjects)) [
  | inl missing ↦ rw (missing, upsert_subject) (insert_subject-Owned srv user s db h)
  | inr (r, found) ↦
      rw (found, upsert_subject)
        (Owned-grows db.subjects (recolor user s.name s.color db.subjects) db.sessions
          (λ u id own. owns-recolor u id user s.name s.color db.subjects ∙ own) h)
]

unused-Owned :
    (user id : Text) (rows : List SubjectRow) (sessions : List SessionRow)
    → any (in_use id) sessions ≡ false
    → All (RowOwned rows) sessions
    → All
        (RowOwned
          (filter (λ (r : SubjectRow). not (text_eq r.id id && text_eq r.user_id user)) rows))
        sessions
unused-Owned user id rows [] unused h = tt
unused-Owned user id rows (r ∷ rs) unused (own, h) =
    let (here, later) = not_any (in_use id r) (any (in_use id) rs) unused in
    (kept_subject r.subject_id here own, unused-Owned user id rows rs later h)
  where
    not_any : (a b : Bool) → (a || b) ≡ false → (a ≡ false) × (b ≡ false)
    not_any a b e = (ground arith, ground arith)

    kept_subject :
        (o : Option Text)
        → (elim o as (λ _. Bool) [ none ↦ false | some s ↦ text_eq s id ]) ≡ false
        → SubjectOf rows r.user_id o
        → SubjectOf
            (filter (λ (r : SubjectRow). not (text_eq r.id id && text_eq r.user_id user)) rows)
            r.user_id
            o
    kept_subject none differs own = tt
    kept_subject (some s) differs own = owns-filter r.user_id id user s rows differs own

pub remove_subject-Owned : (user id : Text) → Keeps Owned (remove_subject user id)
unfolding remove_subject
remove_subject-Owned user id db h = elim (Bool-cases (owns user id db.subjects)) [
  | inl own ↦ elim (Bool-cases (any (in_use id) db.sessions)) [
    | inl used ↦ rw (own, used) h
    | inr unused ↦ rw (own, unused) (unused-Owned user id db.subjects db.sessions unused h)
  ]
  | inr other ↦ rw other h
]

-- A session whose subject is the user's.
abbrev pub Fit : Text → Option Text → UserDb → Type 0
Fit user subject db = SubjectOf db.subjects user subject × Owned db

pub insert_session-Owned :
    (srv : Server) (user : Text) (id subject : Option Text) (body : SessionCreate)
    → Triple Owned (Fit user subject) (insert_session srv user id subject body) (λ _. Owned)
unfolding insert_session
insert_session-Owned srv user id subject body db (own, h) =
    let r = new_session srv user id subject body db in
    elim (Bool-cases (any (λ (q : SessionRow). text_eq q.id r.id) db.sessions)) [
      | inl taken ↦ rw taken h
      | inr fresh ↦ elim (Bool-cases (any (has_hash user body.pdf_hash) db.sessions)) [
        | inl known ↦ rw (fresh, known) h
        | inr new ↦ elim (Bool-cases (subject_exists subject db)) [
          | inl there ↦
              rw (fresh, new, there)
                (All-append (RowOwned db.subjects) db.sessions (r ∷ []) h (own, tt))
          | inr missing ↦ rw (fresh, new, missing) h
        ]
      ]
    ]

has_hash-user :
    (user : Text) (hash : Option Text) (r : SessionRow)
    → has_hash user hash r ≡ true
    → r.user_id ≡ user
has_hash-user user none r h = absurd (cc h)
has_hash-user user (some k) r h = (text_eq_iff r.user_id user).0 (and-split _ _ h).0

refresh_all-Owned :
    (subjects : List SubjectRow) (user : Text) (subject : Option Text) (body : SessionCreate)
    (now : ℕ) (rows : List SessionRow)
    → SubjectOf subjects user subject
    → All (RowOwned subjects) rows
    → All (RowOwned subjects) (refresh_all user subject body now rows)
unfolding refresh_all
refresh_all-Owned subjects user subject body now [] own h = tt
refresh_all-Owned subjects user subject body now (r ∷ rs) own (here, h) =
    elim (Bool-cases (has_hash user body.pdf_hash r)) [
      | inl same ↦ rw same (
        subst (λ u. SubjectOf subjects u subject) (sym (has_hash-user user body.pdf_hash r same))
            own,
        refresh_all-Owned subjects user subject body now rs own h,
      )
      | inr other ↦ rw other (here, refresh_all-Owned subjects user subject body now rs own h)
    ]

pub insert_or_refresh-Owned :
    (srv : Server) (user : Text) (id subject : Option Text) (body : SessionCreate)
    → Triple Owned (Fit user subject) (insert_or_refresh srv user id subject body) (λ _. Owned)
unfolding insert_or_refresh
insert_or_refresh-Owned srv user id subject body db (own, h) =
    elim (Option-cases (find_session_hash user body.pdf_hash db.sessions)) [
      | inl missing ↦
          rw (missing, insert_or_refresh)
            (insert_session-Owned srv user id subject body db (own, h))
      | inr (r, found) ↦ elim (Bool-cases (subject_exists subject db)) [
        | inl there ↦
            rw (found, insert_or_refresh, there)
              (refresh_all-Owned db.subjects user subject body (srv.now db.inserted) db.sessions own
                h)
        | inr gone ↦ rw (found, insert_or_refresh, gone) h
      ]
    ]

pub remove_session-Owned : (user id : Text) → Keeps Owned (remove_session user id)
unfolding remove_session
remove_session-Owned user id db h = elim (Bool-cases (any (is_row user id) db.sessions)) [
  | inl there ↦
      rw there (All-filter (RowOwned db.subjects) (λ r. not (is_row user id r)) db.sessions h)
  | inr missing ↦ rw missing h
]

pub set_status-Owned :
    (subjects : List SubjectRow) (user id : Text) (status : RowStatus) (rows : List SessionRow)
    → All (RowOwned subjects) rows
    → All (RowOwned subjects) (set_status user id status rows).0
unfolding set_status
set_status-Owned subjects user id status [] h = tt
set_status-Owned subjects user id status (r ∷ rs) (here, h) = elim (Bool-cases (is_row user id r)) [
  | inl same ↦ rw same (here, set_status-Owned subjects user id status rs h)
  | inr other ↦ rw other (here, set_status-Owned subjects user id status rs h)
]

pub heal-Owned :
    (subjects : List SubjectRow) (user : Text) (ids : List Text) (rows : List SessionRow)
    → All (RowOwned subjects) rows
    → All (RowOwned subjects) (heal user ids rows)
unfolding heal
heal-Owned subjects user ids [] h = tt
heal-Owned subjects user ids (r ∷ rs) (here, h) =
    (flagged (text_eq r.user_id user && member r.id ids), heal-Owned subjects user ids rs h)
  where
    flagged : (b : Bool) → RowOwned subjects (with_ready b r)
    flagged true = here
    flagged false = here
