-- ===== src/Sessions/Laws.antt =====
-- What the operations of the session store do to the records of all sessions.
use study_helper_backend.Prelude.{
  ◌≡◌, refl, ◌∙◌, true, false, Bool, Option, none, some, [], ◌∷◌, arith, Option-cases, Bool-cases,
  inl, inr, if◌then◌else◌,
}
use study_helper_backend.Text.{Text, text_eq}
use study_helper_backend.Text.Laws.{text_eq_iff}
use study_helper_backend.Sessions.{
  SessionRecord, Store, get, put, without, delete, Update, apply, update_status,
}

pub get-put :
    (store : Store) (id j : Text) (r : SessionRecord)
    → get (put store id r) j ≡ (if text_eq id j then some r else get store j)
unfolding get put
get-put [] id j r = refl
get-put ((k, r') ∷ store) id j r =
    ground (arith, get-put store id j r, text_eq_iff k id, text_eq_iff k j, text_eq_iff id j)

pub get-without :
    (store : Store) (id j : Text)
    → get (without store id) j ≡ (if text_eq id j then none else get store j)
unfolding get without
get-without [] id j = ground arith
get-without ((k, r) ∷ store) id j =
    ground (arith, get-without store id j, text_eq_iff k id, text_eq_iff k j, text_eq_iff id j)

-- Every record is kept under its own id.
pub record IsKeyed (store : Store) : Type 0 where
  pub own_id : (id : Text) (r : SessionRecord) → get store id ≡ some r → r.session_id ≡ id

abbrev pub updated : Update → Option SessionRecord → Option SessionRecord
updated u none = none
updated u (some r) = some (apply u r)

-- In a store that keeps every record under its own id, `update_status` changes the record of its
-- session, and no other; an unknown one stays unknown.
pub get-update_status :
    (store : Store) (id j : Text) (u : Update)
    → IsKeyed store
    → get (update_status id u store) j
      ≡ (if text_eq id j then updated u (get store id) else get store j)
unfolding update_status
get-update_status store id j u keyed = elim (Option-cases (get store id)) [
  | inl missing ↦ rw missing (ground (arith, text_eq_iff id j))
  | inr (r, found) ↦
      let own = keyed.own_id id r found in
      ground (arith, get-put store r.session_id j (apply u r), own)
]

updated-own :
    (store : Store) (id j : Text) (u : Update) (r : SessionRecord)
    → IsKeyed store
    → (if text_eq id j then updated u (get store id) else get store j) ≡ some r
    → r.session_id ≡ j
unfolding apply
updated-own store id j u r keyed h = elim (Bool-cases (text_eq id j)) [
  | inl same ↦ elim (Option-cases (get store id)) [
    | inl missing ↦ absurd (ground arith)
    | inr (old, found) ↦
        let own = keyed.own_id id old found in
        let e : r.session_id ≡ old.session_id = ground arith in e ∙ own ∙ (text_eq_iff id j).0 same
  ]
  | inr other ↦ keyed.own_id j r (ground arith)
]

pub update_status-IsKeyed :
    (store : Store) (id : Text) (u : Update) → IsKeyed store → IsKeyed (update_status id u store)
update_status-IsKeyed store id u keyed = record {
  own_id = λ j r found.
      updated-own store id j u r keyed (rw (get-update_status store id j u keyed) at found);
}

-- A deleted session is gone, the others stay, and the flag says whether it was there.
pub delete_lem :
    (store : Store) (id j : Text)
    → (get (delete id store).0 j ≡ (if text_eq id j then none else get store j))
      × ((delete id store).1
          ≡ (elim (get store id) as (λ _. Bool) [ none ↦ false | some _ ↦ true ]))
unfolding delete
delete_lem store id j = elim (Option-cases (get store id)) [
  | inl missing ↦ ground (arith, text_eq_iff id j)
  | inr (r, found) ↦ ground (arith, get-without store id j)
]
