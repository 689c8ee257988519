-- ===== src/UserStore/Owners/Isolation.antt =====
-- The statements of one user leave the rows of another as they are.
use study_helper_backend.Prelude.{
  ℕ, ◌≡◌, refl, ap, ◌∙◌, Bool, true, false, ◌&&◌, Option, none, some, List, [], ◌∷◌, ◌++◌, filter,
  arith, Bool-cases, inl, inr, and-split,
}
use study_helper_backend.Text.{Text, text_eq, member}
use study_helper_backend.Text.Laws.{text_eq_iff}
use study_helper_backend.UserStore.{RowStatus, SubjectRow, SessionRow, is_row, set_status}
use study_helper_backend.UserStore.Subjects.{recolor}
use study_helper_backend.UserStore.Create.{SessionCreate, has_hash, refresh, refresh_all}
use study_helper_backend.UserStore.Listing.{with_ready, heal}

module _ {A : Type 0} (p : A → Bool) where
  -- A new row that a test does not take.
  pub filter-snoc :
      (rows : List A) (r : A) → p r ≡ false → filter p (rows ++ r ∷ []) ≡ filter p rows
  filter-snoc [] r h = rw h refl
  filter-snoc (q ∷ rows) r h = elim (Bool-cases (p q)) [
    | inl taken ↦ rw taken (ap (λ qs. q ∷ qs) (filter-snoc rows r h))
    | inr passed ↦ rw passed (filter-snoc rows r h)
  ]

  -- Rows are dropped that the test does not take.
  pub filter-filter :
      (q : A → Bool) (rows : List A)
      → ((r : A) → p r ≡ true → q r ≡ true)
      → filter p (filter q rows) ≡ filter p rows
  filter-filter q [] h = refl
  filter-filter q (r ∷ rows) h = elim (Bool-cases (p r)) [
    | inl taken ↦ rw (h r taken, taken) (ap (λ rs. r ∷ rs) (filter-filter q rows h))
    | inr passed ↦ elim (Bool-cases (q r)) [
      | inl stays ↦ rw (stays, passed) (filter-filter q rows h)
      | inr gone ↦ rw (gone, passed) (filter-filter q rows h)
    ]
  ]

  -- One row is replaced by another, in front of rows that are equal to the test.
  pub filter-cons :
      (q r : A) (qs rs : List A)
      → p q ≡ p r
      → (p r ≡ true → q ≡ r)
      → filter p qs ≡ filter p rs
      → filter p (q ∷ qs) ≡ filter p (r ∷ rs)
  filter-cons q r qs rs same equal h = elim (Bool-cases (p r)) [
    | inl taken ↦
        let e = equal taken in
        let taken' : p q ≡ true = same ∙ taken in
        rw (taken, taken') (ap (λ x. x ∷ filter p qs) e ∙ ap (λ xs. r ∷ xs) h)
    | inr passed ↦ let passed' : p q ≡ false = same ∙ passed in rw (passed, passed') h
  ]

module _ (user other : Text) (apart : text_eq user other ≡ false) where
  pub not_other : (u : Text) → text_eq u user ≡ true → text_eq u other ≡ false
  not_other u h = ground (arith, text_eq_iff u user, apart)

  abbrev others_subject : SubjectRow → Bool
  others_subject r = text_eq r.user_id other

  abbrev others_session : SessionRow → Bool
  others_session r = text_eq r.user_id other

  pub recolor-apart :
      (name color : Text) (rows : List SubjectRow)
      → filter others_subject (recolor user name color rows) ≡ filter others_subject rows
  unfolding recolor
  recolor-apart name color [] = refl
  recolor-apart name color (r ∷ rows) =
      elim (Bool-cases (text_eq r.user_id user && text_eq r.name name)) [
        | inl here ↦
            let mine = not_other r.user_id (and-split _ _ here).0 in
            rw here (
              filter-cons others_subject (record r { color = color }) r _ rows refl
                (λ e. absurd (cc (e, mine))) (recolor-apart name color rows))
        | inr there ↦
            rw there (
              filter-cons others_subject r r _ rows refl (λ e. refl)
                (recolor-apart name color rows))
      ]

  pub set_status-apart :
      (id : Text) (s : RowStatus) (rows : List SessionRow)
      → filter others_session (set_status user id s rows).0 ≡ filter others_session rows
  unfolding set_status is_row
  set_status-apart id s [] = refl
  set_status-apart id s (r ∷ rows) = elim (Bool-cases (is_row user id r)) [
    | inl here ↦
        let mine : text_eq r.user_id other ≡ false =
          not_other r.user_id (and-split (text_eq r.id id) (text_eq r.user_id user) here).1 in
        rw here (
          filter-cons others_session (record r { status = s }) r _ rows refl
            (λ e. absurd (cc (e, mine))) (set_status-apart id s rows))
    | inr there ↦
        rw there
          (filter-cons others_session r r _ rows refl (λ e. refl) (set_status-apart id s rows))
  ]

  has_hash-mine :
      (hash : Option Text) (r : SessionRow)
      → has_hash user hash r ≡ true
      → text_eq r.user_id other ≡ false
  has_hash-mine none r h = absurd (cc h)
  has_hash-mine (some k) r h = not_other r.user_id (and-split _ _ h).0

  pub refresh_all-apart :
      (subject : Option Text) (body : SessionCreate) (now : ℕ) (rows : List SessionRow)
      → filter others_session (refresh_all user subject body now rows) ≡ filter others_session rows
  unfolding refresh_all
  refresh_all-apart subject body now [] = refl
  refresh_all-apart subject body now (r ∷ rows) =
      elim (Bool-cases (has_hash user body.pdf_hash r)) [
        | inl here ↦
            let mine = has_hash-mine body.pdf_hash r here in
            rw here (
              filter-cons others_session (refresh subject body now r) r _ rows refl
                (λ e. absurd (cc (e, mine))) (refresh_all-apart subject body now rows))
        | inr there ↦ rw there (
            filter-cons others_session r r _ rows refl (λ e. refl)
              (refresh_all-apart subject body now rows))
      ]

  healed-apart :
      (b : Bool) (r : SessionRow) (rs qs : List SessionRow)
      → (b ≡ true → text_eq r.user_id other ≡ false)
      → filter others_session qs ≡ filter others_session rs
      → filter others_session (with_ready b r ∷ qs) ≡ filter others_session (r ∷ rs)
  healed-apart true r rs qs mine h =
      filter-cons others_session (with_ready true r) r qs rs refl (λ e. absurd (cc (e, mine refl)))
        h
  healed-apart false r rs qs mine h = filter-cons others_session r r qs rs refl (λ e. refl) h

  pub heal-apart :
      (ids : List Text) (rows : List SessionRow)
      → filter others_session (heal user ids rows) ≡ filter others_session rows
  unfolding heal
  heal-apart ids [] = refl
  heal-apart ids (r ∷ rows) =
      healed-apart (text_eq r.user_id user && member r.id ids) r rows _
        (λ h. not_other r.user_id (and-split _ _ h).0) (heal-apart ids rows)
