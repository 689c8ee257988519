-- ===== src/Text/Split.antt =====
-- `split` at a text of three equal characters, such as the blank of a sentence: the parts that it
-- gives, as a relation, and the texts that are put together from such parts.
use mathlib.Core.List.{append_assoc, append-nil}
use study_helper_backend.Prelude.{
  ℕ, zero, suc, ◌-◌, ◌≡◌, refl, sym, ap, ◌∙◌, true, false, List, [], ◌∷◌, ◌++◌, arith, length,
  Bool-cases, inl, inr,
}
use study_helper_backend.Text.{Text, starts_with, split_from, split, join, contains}

-- What is open goes before the first part.
abbrev prepend : Text → List Text → List Text
prepend cur [] = []
prepend cur (part ∷ parts) = (cur ++ part) ∷ parts

prepend-append :
    (cur : Text) (c : ℕ) (parts : List Text)
    → prepend (cur ++ c ∷ []) parts ≡ prepend cur (prepend (c ∷ []) parts)
prepend-append cur c [] = refl
prepend-append cur c (part ∷ parts) = ap (λ p. p ∷ parts) (append_assoc cur (c ∷ []) part)

split_from-prepend :
    (t : Text) (skip : ℕ) (cur s : Text)
    → split_from t skip cur s ≡ prepend cur (split_from t skip [] s)
unfolding split_from
split_from-prepend t skip cur [] = ap (λ p. p ∷ []) (sym (append-nil cur))
split_from-prepend t (suc skip) cur (c ∷ s) = split_from-prepend t skip cur s
split_from-prepend t zero cur (c ∷ s) = elim (Bool-cases (starts_with (c ∷ s) t)) [
  | inl hit ↦ rw hit (ap (λ p. p ∷ split_from t (length t - 1) [] s) (sym (append-nil cur)))
  | inr miss ↦ rw miss (
      split_from-prepend t 0 (cur ++ c ∷ []) s
      ∙ prepend-append cur c (split_from t 0 [] s)
      ∙ ap (prepend cur) (sym (split_from-prepend t 0 (c ∷ []) s)))
]

module _ (u : ℕ) where
  abbrev pub triple : Text
  triple = u ∷ u ∷ u ∷ []

  -- No separator begins in the text.
  abbrev pub Without : Text → Type 0
  Without [] = Unit
  Without (c ∷ s) = (starts_with (c ∷ s) triple ≡ false) × Without s

  -- No separator begins in the text, also where one follows it.
  abbrev pub Clean : Text → Type 0
  Clean [] = Unit
  Clean (c ∷ p) = (starts_with (c ∷ (p ++ triple)) triple ≡ false) × Clean p

  -- The parts of a text between its separators.
  pub data Parts : Text → List Text → Type 0 where
    last : {s : Text} → Without s → Parts s (s ∷ [])
    more :
        {p r : Text} {ps : List Text} → Clean p → Parts r ps → Parts (p ++ (triple ++ r)) (p ∷ ps)

  starts_with-after :
      (c : ℕ) (q y z : Text)
      → starts_with (c ∷ (q ++ (triple ++ y))) triple
        ≡ starts_with (c ∷ (q ++ (triple ++ z))) triple
  unfolding starts_with
  starts_with-after c [] y z = refl
  starts_with-after c (d ∷ []) y z = refl
  starts_with-after c (d ∷ e ∷ q) y z = refl

  starts_with-clean :
      (c : ℕ) (q y : Text)
      → starts_with (c ∷ (q ++ triple)) triple ≡ false
      → starts_with (c ∷ (q ++ y)) triple ≡ false
  unfolding starts_with
  starts_with-clean c [] y h = ground arith
  starts_with-clean c (d ∷ []) y h = ground arith
  starts_with-clean c (d ∷ e ∷ q) y h = ground arith

  pub Without-append : (p y : Text) → Clean p → Without y → Without (p ++ y)
  Without-append [] y h k = k
  Without-append (c ∷ p) y (here, h) k = (starts_with-clean c p y here, Without-append p y h k)

  split-Without : (s : Text) → Without s → split triple s ≡ s ∷ []
  unfolding split split_from
  split-Without [] h = refl
  split-Without (c ∷ s) (here, h) =
      rw here (split_from-prepend triple 0 (c ∷ []) s ∙ ap (prepend (c ∷ [])) (split-Without s h))

  starts_with_self : (y : Text) → starts_with (triple ++ y) triple ≡ true
  unfolding starts_with
  starts_with_self y = ground arith

  split-Clean : (p y : Text) → Clean p → split triple (p ++ (triple ++ y)) ≡ p ∷ split triple y
  unfolding split split_from
  split-Clean [] y h = rw (starts_with_self y)
  split-Clean (c ∷ p) y (here, h) = rw (starts_with-clean c p (triple ++ y) here) (
      split_from-prepend triple 0 (c ∷ []) (p ++ (triple ++ y))
      ∙ ap (prepend (c ∷ [])) (split-Clean p y h))

  -- `split` gives the parts, and no other list of texts is that.
  pub split_of_Parts : {s : Text} {ps : List Text} → Parts s ps → split triple s ≡ ps
  split_of_Parts (last {s} h) = split-Without s h
  split_of_Parts (more {p} {r} h w) = split-Clean p r h ∙ ap (λ qs. p ∷ qs) (split_of_Parts w)

  Parts-cons :
      (c : ℕ) {s : Text} {ps : List Text}
      → starts_with (c ∷ s) triple ≡ false
      → Parts s ps
      → Parts (c ∷ s) (prepend (c ∷ []) ps)
  Parts-cons c miss (last h) = last (miss, h)
  Parts-cons c miss (more {p} {r} h w) = more {p = c ∷ p} {r = r} (miss', h) w
    where
      miss' : starts_with (c ∷ (p ++ triple)) triple ≡ false
      miss' = starts_with-after c p [] r ∙ miss

  all_equal :
      (c d e : ℕ) (s : Text)
      → starts_with (c ∷ d ∷ e ∷ s) triple ≡ true
      → (c ≡ u) × (d ≡ u) × (e ≡ u)
  unfolding starts_with
  all_equal c d e s h = (ground arith, ground arith, ground arith)

  too_short :
      (c d : ℕ) → (starts_with (c ∷ []) triple ≡ false) × (starts_with (c ∷ d ∷ []) triple ≡ false)
  unfolding starts_with
  too_short c d = (ground arith, ground arith)

  Parts-miss :
      (c : ℕ) (s : Text)
      → starts_with (c ∷ s) triple ≡ false
      → Parts s (split triple s)
      → Parts (c ∷ s) (split triple (c ∷ s))
  unfolding split split_from
  Parts-miss c s miss w = rw (miss, split_from-prepend triple 0 (c ∷ []) s) (Parts-cons c miss w)

  Parts-hit :
      (c d e : ℕ) (s : Text)
      → starts_with (c ∷ d ∷ e ∷ s) triple ≡ true
      → Parts s (split triple s)
      → Parts (c ∷ d ∷ e ∷ s) (split triple (c ∷ d ∷ e ∷ s))
  unfolding split split_from
  Parts-hit c d e s hit w =
      let (ec, ed, ee) = all_equal c d e s hit in
      rw hit (rw (ec, ed, ee) (more {p = []} {r = s} tt w))

  pub Parts-split : (s : Text) → Parts s (split triple s)
  Parts-split [] = unfold split split_from in last tt
  Parts-split (c ∷ []) = Parts-miss c [] (too_short c c).0 (Parts-split [])
  Parts-split (c ∷ d ∷ []) = Parts-miss c (d ∷ []) (too_short c d).1 (Parts-split (d ∷ []))
  Parts-split (c ∷ d ∷ e ∷ s) = elim (Bool-cases (starts_with (c ∷ d ∷ e ∷ s) triple)) [
    | inl hit ↦ Parts-hit c d e s hit (Parts-split s)
    | inr miss ↦ Parts-miss c (d ∷ e ∷ s) miss (Parts-split (d ∷ e ∷ s))
  ]

  pub some_part :
      {s : Text} {ps : List Text} → Parts s ps → (q : Text) × (qs : List Text) × (ps ≡ q ∷ qs)
  some_part (last {s} h) = (s, [], refl)
  some_part (more {p} {ps} h w) = (p, ps, refl)

  pub join-more :
      (t p : Text) {s : Text} {ps : List Text}
      → Parts s ps
      → join t (p ∷ ps) ≡ p ++ (t ++ join t ps)
  unfolding join
  join-more t p w = let (q, qs, e) = some_part w in rw e

  -- Joined with the separator the parts give the text, and joined without it they hold none.
  pub join-Parts : {s : Text} {ps : List Text} → Parts s ps → join triple ps ≡ s
  unfolding join
  join-Parts (last h) = refl
  join-Parts (more {p} {r} {ps} h w) =
      join-more triple p w ∙ ap (λ t. p ++ (triple ++ t)) (join-Parts w)

  pub Without-join : {s : Text} {ps : List Text} → Parts s ps → Without (join [] ps)
  unfolding join
  Without-join (last h) = h
  Without-join (more {p} {r} {ps} h w) =
      rw (join-more [] p w) (Without-append p (join [] ps) h (Without-join w))

  pub Without-contains : (s : Text) → Without s → contains s triple ≡ false
  unfolding contains
  Without-contains [] h = refl
  Without-contains (c ∷ s) (here, h) = rw here (Without-contains s h)
