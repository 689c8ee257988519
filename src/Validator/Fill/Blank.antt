-- ===== src/Validator/Fill/Blank.antt =====
-- The blank of a sentence: after `normalise` there is exactly one.
use mathlib.Core.List.{append-nil}
use study_helper_backend.Prelude.{
  ℕ, false, ◌-◌, ◌≤◌, ◌≡◌, refl, true, List, [], ◌∷◌, ◌++◌, some, arith, length, ltb, ap, ◌∙◌, sym,
  Bool-cases, inl, inr,
}
use study_helper_backend.Text.{Text, contains, count, split, join, remove}
use study_helper_backend.Text.Split.{
  Parts, last, more, Parts-split, split_of_Parts, join-Parts, Without-join, Without-contains,
  join-more, some_part, Clean, Without-append,
}
use study_helper_backend.Validator.Fill.{blank, one_blank, normalise}

-- A text with a blank is a part, a blank and the rest, and `one_blank` takes the blanks of the rest.
one_blank_of_Parts :
    (s : Text) (p r : Text) (ps : List Text)
    → Parts 95 r ps
    → split blank s ≡ p ∷ ps
    → one_blank s ≡ p ++ (blank ++ join [] ps)
unfolding one_blank remove
one_blank_of_Parts s p r ps w e = rw (e, join-Parts 95 w, split_of_Parts 95 w)

count_of_Parts : {s : Text} {ps : List Text} → Parts 95 s ps → count blank s ≡ length ps - 1
unfolding count
count_of_Parts w = rw (split_of_Parts 95 w)

-- The second text is the first without some of its blanks.
pub data Drops : Text → Text → Type 0 where
  stop : Drops [] []
  keep : (c : ℕ) {s t : Text} → Drops s t → Drops (c ∷ s) (c ∷ t)
  drop : {s t : Text} → Drops s t → Drops (blank ++ s) t

Drops-self : (s : Text) → Drops s s
Drops-self [] = stop
Drops-self (c ∷ s) = keep c (Drops-self s)

Drops-append : (p : Text) {s t : Text} → Drops s t → Drops (p ++ s) (p ++ t)
Drops-append [] d = d
Drops-append (c ∷ p) d = keep c (Drops-append p d)

Parts-Drops : {s : Text} {ps : List Text} → Parts 95 s ps → Drops s (join [] ps)
unfolding join
Parts-Drops (last {s} h) = Drops-self s
Parts-Drops (more {p} {r} {ps} h w) =
    rw (join-more 95 [] p w) (Drops-append p (drop (Parts-Drops w)))

Clean-contains : (p : Text) → Clean 95 p → contains p blank ≡ false
Clean-contains p h =
    let without = Without-append 95 p [] h tt in
    ap (λ t. contains t blank) (sym (append-nil p)) ∙ Without-contains 95 (p ++ []) without

-- Up to the first blank and with it, the second text is as the first, and after it as the first
-- without some blanks.
abbrev pub KeepsFirst : Text → Text → Type 0
KeepsFirst s s' =
    (p : Text) × (q : Text) × (q' : Text) × (s ≡ p ++ (blank ++ q))
    × (s' ≡ p ++ (blank ++ q'))
    × (contains p blank ≡ false)
    × Drops q q'

abbrev HasOneBlank : Text → Text → Type 0
HasOneBlank s s' = (count blank s' ≡ 1) × KeepsFirst s s'

one_blank_lem :
    (s : Text) (ps : List Text)
    → Parts 95 s ps
    → contains s blank ≡ true
    → HasOneBlank s (one_blank s) × (1 ≤ count blank s) × KeepsFirst s s
unfolding join
one_blank_lem s ps (last h) found = absurd (cc (Without-contains 95 s h))
one_blank_lem s ps (more {p} {r} {ps = qs} h w) found =
    let rest = join [] qs in
    let whole : Parts 95 s (p ∷ qs) = more h w in
    let single : Parts 95 (p ++ (blank ++ rest)) (p ∷ rest ∷ []) =
      more h (last (Without-join 95 w)) in
    let e = one_blank_of_Parts s p r qs w (split_of_Parts 95 whole) in
    let (q, others, e') = some_part 95 w in
    let first = Clean-contains p h in
    (
      (rw e (count_of_Parts single), (p, r, rest, refl, e, first, Parts-Drops w)),
      omega (arith, count_of_Parts whole, ap (length {A = Text}) e'),
      (p, r, r, refl, refl, first, Drops-self r),
    )

-- A sentence that `normalise` accepts has exactly one blank afterwards. It is the sentence that was
-- given up to the first blank in it, this blank, and then the rest of the sentence that was given,
-- from which nothing is taken out but blanks.
pub normalise-HasOneBlank :
    (s s' : Text) → normalise s ≡ some s' → (count blank s' ≡ 1) × KeepsFirst s s'
unfolding normalise
normalise-HasOneBlank s s' h = elim (Bool-cases (contains s blank)) [
  | inl found ↦
      let (lone, some_blank, same) = one_blank_lem s (split blank s) (Parts-split 95 s) found in
      elim (Bool-cases (ltb 1 (count blank s))) [
        | inl many ↦ let e : s' ≡ one_blank s = ground arith in rw e lone
        | inr few ↦ let e : s' ≡ s = ground arith in rw e (ground arith, same)
      ]
  | inr missing ↦ absurd (ground arith)
]
