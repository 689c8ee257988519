-- ===== src/Validator/Notes/Laws.antt =====
-- The notes that pass, and the prompts that are built from them.
use study_helper_backend.Prelude.{
  ℕ, ◌+◌, ◌≡◌, ◌≢◌, refl, ap, ◌∙◌, Bool, true, false, List, [], ◌∷◌, some, all, length, arith,
  Bool-cases, Option-cases, inl, inr,
}
use study_helper_backend.Text.{Text, text, text_eq}
use study_helper_backend.Outcome.{Result, ok, err, ◌>>=◌, >>=-eq-ok}
use study_helper_backend.Json.{
  Value, null, str, list, dict, Fields, get, get_or, set, to_list, from_list, truthy,
}
use study_helper_backend.Json.Laws.{get-set}
use study_helper_backend.Runtime.{Runtime}
use study_helper_backend.Schema.{StudySection}
use study_helper_backend.Prompts.{
  Lang, list_concepts, concepts_of, concept_items, build_mcq_prompt, build_fill_prompt,
}
use study_helper_backend.Prompts.Laws.{is_some, is_ok, is_listable, list_concepts-is_listable}
use study_helper_backend.Validator.{ensure_id}
use study_helper_backend.Validator.Notes.{
  Concepts, Notes, concept_values, key_concept, read_concepts, read_sections, or_default, iterate,
  validate_fields, validate_notes,
}

-- A dict with a term.
abbrev pub is_named : Value → Bool
is_named (dict fs) = is_some (get fs (text "term"))
is_named _ = false

abbrev pub dicts : List Value → ℕ
dicts [] = 0
dicts (dict fs ∷ vs) = dicts vs + 1
dicts (_ ∷ vs) = dicts vs

-- The members of the list of concepts in an answer.
abbrev pub concepts_in : Value → List Value
concepts_in (dict fs) =
    elim (concept_values (get_or fs (text "key_concepts") (list (from_list [])))) [
      | ok vs ↦ vs
      | err _ ↦ []
    ]
concepts_in _ = []

ensure_id-get :
    (rt : Runtime) (fs : Fields) (draws : ℕ)
    → (is_some (get (ensure_id rt fs draws).0 (text "id")) ≡ true)
      × (get (ensure_id rt fs draws).0 (text "term") ≡ get fs (text "term"))
unfolding ensure_id get_or text_eq
ensure_id-get rt fs draws = elim (Bool-cases (truthy (get_or fs (text "id") null))) [
  | inl there ↦ elim (Option-cases (get fs (text "id"))) [
    | inl missing ↦ absurd (cc (rw (missing, get_or) at there))
    | inr (v, found) ↦ rw (there, ensure_id) (rw found refl, refl)
  ]
  | inr missing ↦
      let v = str (rt.uuid4 draws) in
      rw (missing, ensure_id)
        (rw (get-set fs (text "id") (text "id") v) refl, get-set fs (text "id") (text "term") v)
]

read_concepts-values :
    (rt : Runtime) (vs : List Value) (draws : ℕ) (c : Concepts)
    → read_concepts rt vs draws ≡ ok c
    → (all is_listable c.values ≡ all is_named vs) × (length c.concepts ≡ dicts vs)
unfolding read_concepts
read_concepts-values rt [] draws c h =
    let e : c ≡ record { concepts = []; values = []; draws = draws } = cc h in rw e (refl, refl)
read_concepts-values rt (dict fs ∷ vs) draws c h =
    let (concept, _, r) = >>=-eq-ok (key_concept rt (ensure_id rt fs draws).0) _ h in
    let (rest, e, r') = >>=-eq-ok (read_concepts rt vs (ensure_id rt fs draws).1) _ r in
    let (same, count) = read_concepts-values rt vs (ensure_id rt fs draws).1 rest e in
    let (id, term) = ensure_id-get rt fs draws in
    let own : c ≡ (record rest {
      concepts = concept ∷ rest.concepts;
      values = dict (ensure_id rt fs draws).0 ∷ rest.values;
    }) =
      cc r' in
    rw own (rw (id, term, same) refl, omega (arith, count))
read_concepts-values rt (v ∷ vs) draws c h =
    let (rest, e, r') = >>=-eq-ok (read_concepts rt vs draws) _ h in
    let (same, count) = read_concepts-values rt vs draws rest e in
    let own : c ≡ (record rest { values = v ∷ rest.values }) = cc r' in rw own (refl, count)

to_list-from_list : (vs : List Value) → to_list (from_list vs) ≡ vs
to_list-from_list [] = refl
to_list-from_list (v ∷ vs) = ap (λ ws. v ∷ ws) (to_list-from_list vs)

or_default-nonempty : (ss : List StudySection) → or_default ss ≢ []
or_default-nonempty [] h = cc h
or_default-nonempty (s ∷ ss) h = cc h

concepts_of-is_listable :
    (fs : Fields) (vs : List Value)
    → get fs (text "key_concepts") ≡ some (list (from_list vs))
    → is_ok (concepts_of fs) ≡ all is_listable vs
unfolding concepts_of get_or
concepts_of-is_listable fs vs h =
    let g : get_or fs (text "key_concepts") (list (from_list [])) ≡ list (from_list vs) =
      rw (h, get_or) refl in
    let e : concepts_of fs ≡ list_concepts vs =
      ap (λ v. concept_items v >>= λ ws. list_concepts ws) g
      ∙ ap (λ ws. list_concepts ws) (to_list-from_list vs) in
    rw e (list_concepts-is_listable vs)

is_ok-map : {A B : Type 0} (m : Result A) (f : A → B) → is_ok (m >>= λ a. ok (f a)) ≡ is_ok m
is_ok-map (ok a) f = refl
is_ok-map (err e) f = refl

concepts_in-ok :
    (fs : Fields) (vs : List Value)
    → concept_values (get_or fs (text "key_concepts") (list (from_list []))) ≡ ok vs
    → concepts_in (dict fs) ≡ vs
concepts_in-ok fs vs h = rw (h, concepts_in) refl

validate_fields-values :
    (rt : Runtime) (fs : Fields) (draws : ℕ) (n : Notes)
    → validate_fields rt fs draws ≡ ok n
    → (is_ok (concepts_of n.raw) ≡ all is_named (concepts_in (dict fs)))
      × (length n.notes.key_concepts ≡ dicts (concepts_in (dict fs)))
      × (n.notes.sections ≢ [])
unfolding validate_fields text_eq
validate_fields-values rt fs draws n h =
    let (values, given, r1) =
      >>=-eq-ok (concept_values (get_or fs (text "key_concepts") (list (from_list [])))) _ h in
    let (found, read, r2) = >>=-eq-ok (read_concepts rt values draws) _ r1 in
    let (sections, _, r3) =
      >>=-eq-ok (iterate (get_or fs (text "sections") (list (from_list [])))) _ r2 in
    let (glossary, _, r4) =
      >>=-eq-ok (iterate (get_or fs (text "glossary") (list (from_list [])))) _ r3 in
    let (same, count) = read_concepts-values rt values draws found read in
    let kc = text "key_concepts" in
    let raw : n.raw ≡ set fs kc (list (from_list found.values)) = cc r4 in
    let concepts : n.notes.key_concepts ≡ found.concepts = cc r4 in
    let own : n.notes.sections ≡ or_default (read_sections rt sections) = cc r4 in
    let all_in = concepts_in-ok fs values given in
    let listed =
      concepts_of-is_listable n.raw found.values
        (rw raw (get-set fs kc kc (list (from_list found.values)))) in
    (cc (listed, same, all_in), cc (concepts, count, all_in), rw own (or_default-nonempty _))

-- Where the notes pass, both later prompts can be built exactly if every concept of the answer is a
-- dict with a "term"; the ids are there. The notes have a key concept for each concept that is a
-- dict, and at least one section.
pub validate_notes_lem :
    (rt : Runtime) (raw : Value) (draws : ℕ) (n : Notes) (document : Text) (count : ℕ) (lang : Lang)
    → validate_notes rt raw draws ≡ ok n
    → (is_ok (build_mcq_prompt rt document n.raw count lang) ≡ all is_named (concepts_in raw))
      × (is_ok (build_fill_prompt rt document n.raw count lang) ≡ all is_named (concepts_in raw))
      × (length n.notes.key_concepts ≡ dicts (concepts_in raw))
      × (n.notes.sections ≢ [])
unfolding validate_notes build_mcq_prompt build_fill_prompt
validate_notes_lem rt (dict fs) draws n document count lang h =
    let (prompts, concepts, sections) = validate_fields-values rt fs draws n h in
    (
      is_ok-map (concepts_of n.raw) _ ∙ prompts,
      is_ok-map (concepts_of n.raw) _ ∙ prompts,
      concepts,
      sections,
    )
validate_notes_lem rt _ draws n document count lang h = absurd (cc h)
