-- ===== src/UserStore/Again/Checks.antt =====
-- The check of the subjects, twice.
use study_helper_backend.Prelude.{
  ◌≡◌, refl, sym, subst, ◌∙◌, Option, none, some, List, [], ◌∷◌, all, Bool-cases, inl, inr,
}
use study_helper_backend.Text.{Text, member}
use study_helper_backend.Outcome.{ok}
use study_helper_backend.UserStore.{UserDb, Server}
use study_helper_backend.UserStore.Query.{Query, ◌>>=◌, pure, cast}
use study_helper_backend.UserStore.Query.Loops.{Gives, Gives-weaken, >>=-Gives, >>=-same}
use study_helper_backend.UserStore.Create.{cast_all, owned_ids, require_all_owned, check_subjects}

module _ (srv : Server) (user : Text) where
  -- What looks only at the subjects gives the same on every database that has the same ones.
  abbrev pub Again : {A : Type 0} → Query A → UserDb → A → UserDb → Type 0
  Again m old a new = (new ≡ old) × ((db : UserDb) → db.subjects ≡ old.subjects → m db ≡ (db, ok a))

  cast-Again : (o : Option Text) (db : UserDb) → Gives (Again (cast o) db) (cast o db)
  cast-Again none db = tt
  cast-Again (some id) db = (refl, λ d e. refl)

  cast_all-Again :
      (ts : List Text) (db : UserDb) → Gives (Again (cast_all srv ts) db) (cast_all srv ts db)
  unfolding cast_all
  cast_all-Again [] db = (refl, λ d e. refl)
  cast_all-Again (t ∷ ts) db =
      >>=-Gives (cast (srv.uuid t)) (λ id. cast_all srv ts >>= λ ids. pure (id ∷ ids)) db
        (Again (cast (srv.uuid t)) db) (Again (cast_all srv (t ∷ ts)) db)
        (cast-Again (srv.uuid t) db)
        (λ id db1 (same, first). rw same (
          >>=-Gives (cast_all srv ts) (λ ids. pure (id ∷ ids)) db (Again (cast_all srv ts) db)
            (Again (cast_all srv (t ∷ ts)) db) (cast_all-Again ts db)
            (λ ids db2 (same', rest). (
              same',
              λ d e.
                  >>=-same (cast (srv.uuid t)) (λ id. cast_all srv ts >>= λ ids. pure (id ∷ ids)) d
                    id (first d e)
                  ∙ >>=-same (cast_all srv ts) (λ ids. pure (id ∷ ids)) d ids (rest d e),
            ))))

  require_all_owned-Again :
      (wanted ids : List Text) (db : UserDb)
      → Gives (Again (require_all_owned user wanted ids) db) (require_all_owned user wanted ids db)
  unfolding require_all_owned owned_ids
  require_all_owned-Again wanted ids db =
      elim (Bool-cases (all (λ t. member t (owned_ids user ids db)) wanted)) [
        | inl own ↦ rw own (refl, λ d e. rw (e, own) refl)
        | inr other ↦ rw other tt
      ]

  pub check_subjects-Again :
      (wanted : List Text) (db : UserDb)
      → Gives (Again (check_subjects srv user wanted) db) (check_subjects srv user wanted db)
  unfolding check_subjects
  check_subjects-Again [] db = (refl, λ d e. refl)
  check_subjects-Again (t ∷ ts) db =
      >>=-Gives (cast_all srv (t ∷ ts)) (require_all_owned user (t ∷ ts)) db
        (Again (cast_all srv (t ∷ ts)) db) (Again (check_subjects srv user (t ∷ ts)) db)
        (cast_all-Again (t ∷ ts) db)
        (λ ids db1 (same, first).
          subst
            (λ d.
              Gives (Again (check_subjects srv user (t ∷ ts)) db)
                (require_all_owned user (t ∷ ts) ids d))
            (sym same)
            (Gives-weaken (Again (require_all_owned user (t ∷ ts) ids) db)
              (Again (check_subjects srv user (t ∷ ts)) db) (require_all_owned user (t ∷ ts) ids db)
              (λ _ db2 (same', rest). (
                same',
                λ d e.
                    >>=-same (cast_all srv (t ∷ ts)) (require_all_owned user (t ∷ ts)) d ids
                      (first d e)
                    ∙ rest d e,
              ))
              (require_all_owned-Again (t ∷ ts) ids db)))
