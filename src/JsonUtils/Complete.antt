-- ===== src/JsonUtils/Complete.antt =====
-- `recover_partial_questions` saves every object that is complete.
use mathlib.Core.List.{append_assoc}
use study_helper_backend.Prelude.{
  ℕ, ◌+◌, ◌-◌, ◌<◌, ◌≤◌, ◌≡◌, refl, sym, ap, ◌∙◌, ◌⊎◌, inl, inr, true, false, ◌==◌, ==_iff, List,
  [], ◌∷◌, ◌++◌, none, some, take, drop, arith, Bool-cases, Option-cases,
}
use study_helper_backend.Prelude.Int.{ℤ, pos}
use study_helper_backend.Text.{Text}
use study_helper_backend.Json.{Value}
use study_helper_backend.Runtime.{Runtime}
use study_helper_backend.JsonUtils.{
  array_start, Scan, is_zero, dec, close, visit, scan, at_start, non_empty, recover, with_questions,
  strip_fences, parse_or_recover, extract_json,
}
use study_helper_backend.Outcome.{ok}
use study_helper_backend.JsonUtils.Recovered.{
  nested, depth_at, IsPositive, IsObjectOf, IsScan, drop_next, drop_nil, drop-drop, depth_next,
  visit-IsScan, at_start-IsScan,
}

-- The value is one of the list.
abbrev pub Among : Value → List Value → Type 0
Among v qs = (pre : List Value) × (post : List Value) × (qs ≡ pre ++ v ∷ post)

Among-append : (v : Value) (qs more : List Value) → Among v qs → Among v (qs ++ more)
Among-append v qs more (pre, post, e) =
    (pre, post ++ more, ap (λ ts. ts ++ more) e ∙ append_assoc pre (v ∷ post) more)

positive-is_zero : (d : ℤ) → IsPositive d → is_zero d ≡ false
positive-is_zero d (n, e) = rw e refl

module _ (rt : Runtime) (s : Text) (start : ℕ) (v : Value) (o : IsObjectOf rt s start v) where
  -- Before the object; within it, which is the one that is open; or it is saved.
  abbrev Tracked : ℕ → Scan → Type 0
  Tracked i z =
      (i ≤ o.from)
      ⊎ (((o.from < i) × (i ≤ o.to) × (z.obj_start ≡ some o.from)) ⊎ Among v z.questions)

  visit-Among : (c i : ℕ) (z : Scan) → Among v z.questions → Among v (visit rt s c i z).questions
  unfolding visit close
  visit-Among c i z h = elim (Bool-cases (c == b'{')) [
    | inl opens ↦ rw (opens, visit) h
    | inr other ↦ elim (Bool-cases (c == b'}')) [
      | inl closes ↦ elim (Option-cases z.obj_start) [
        | inl none_open ↦ rw (other, closes, none_open, visit, close) h
        | inr (a, started) ↦ elim (Bool-cases (is_zero (dec z.depth))) [
          | inl ends ↦
              rw (other, closes, started, ends, visit, close) (Among-append v z.questions _ h)
          | inr goes_on ↦ rw (other, closes, started, goes_on, visit, close) h
        ]
      ]
      | inr neither ↦ rw (other, neither, visit) h
    ]
  ]

  -- The character where the object begins.
  begins :
      (c i : ℕ) (z : Scan)
      → i ≡ o.from
      → c ≡ b'{'
      → z.depth ≡ pos 0
      → Tracked (i + 1) (visit rt s c i z)
  unfolding visit
  begins c i z at_from brace empty = inr (
      inl (
        omega (arith, at_from),
        omega (arith, at_from, o.ordered),
        rw (brace, empty, at_from, visit) refl,
      ))

  -- The character where it ends.
  ends_here :
      (c i : ℕ) (z : Scan)
      → i ≡ o.to
      → c ≡ b'}'
      → z.obj_start ≡ some o.from
      → is_zero (dec z.depth) ≡ true
      → Tracked (i + 1) (visit rt s c i z)
  unfolding visit close
  ends_here c i z at_to brace started ends =
      inr
        (inr (rw (brace, started, ends, at_to, visit, close) (z.questions, [], rw (o.loaded) refl)))

  -- A character within it.
  goes_on :
      (c i : ℕ) (z : Scan)
      → o.from < i
      → i < o.to
      → z.obj_start ≡ some o.from
      → is_zero z.depth ≡ false
      → is_zero (nested c z.depth) ≡ false
      → Tracked (i + 1) (visit rt s c i z)
  unfolding visit close
  goes_on c i z begun early started inner next =
      inr (inl (omega (arith, begun), omega (arith, early), kept))
    where
      kept : (visit rt s c i z).obj_start ≡ some o.from
      kept = elim (Bool-cases (c == b'{')) [
        | inl opens ↦ rw (opens, inner, visit) started
        | inr other ↦ elim (Bool-cases (c == b'}')) [
          | inl closes ↦
              let deeper : is_zero (dec z.depth) ≡ false = rw (other, closes) at next in
              rw (other, closes, started, deeper, visit, close) started
          | inr neither ↦ rw (other, neither, visit) started
        ]
      ]

  visit-Tracked :
      (c i : ℕ) (z : Scan) (rest : Text)
      → start ≤ i
      → drop i s ≡ c ∷ rest
      → z.depth ≡ depth_at s start i
      → Tracked i z
      → Tracked (i + 1) (visit rt s c i z)
  visit-Tracked c i z rest far here counted (inl before) = elim (Bool-cases (i == o.from)) [
    | inl same ↦
        let at_from = (==_iff i o.from).0 same in
        let first : take 1 (drop o.from s) ≡ c ∷ [] = rw (← at_from, here) refl in
        begins c i z at_from (cc (first, o.opens))
          (counted ∙ ap (depth_at s start) at_from ∙ o.outside)
    | inr differs ↦ inl (ground (arith, before, differs))
  ]
  visit-Tracked c i z rest far here counted (inr (inl (begun, early, started))) =
      let next : nested c z.depth ≡ depth_at s start (i + 1) =
        ap (nested c) counted ∙ sym (depth_next rt s start i c rest far here) in
      elim (Bool-cases (i == o.to)) [
        | inl same ↦
            let at_to = (==_iff i o.to).0 same in
            let first : take 1 (drop o.to s) ≡ c ∷ [] = rw (← at_to, here) refl in
            let brace : c ≡ b'}' = cc (first, o.closes) in
            let zero_next : nested c z.depth ≡ pos 0 =
              next ∙ ap (λ k. depth_at s start (k + 1)) at_to ∙ o.ended in
            let down : dec z.depth ≡ pos 0 = rw brace at zero_next in
            ends_here c i z at_to brace started (rw down refl)
        | inr differs ↦
            let later : i < o.to = ground (arith, early, differs) in
            goes_on c i z begun later started
              (rw counted (positive-is_zero _ (o.inside i begun early)))
              (rw next (
                positive-is_zero _
                  (o.inside (i + 1) (omega (arith, begun)) (omega (arith, later)))))
      ]
  visit-Tracked c i z rest far here counted (inr (inr saved)) = inr (inr (visit-Among c i z saved))

  -- The text does not end before the object.
  over : (i : ℕ) → i ≤ o.to → drop i s ≡ [] → ⊥
  over i early here =
      let place : i + (o.to - i) ≡ o.to = omega (arith, early) in
      let nothing : drop o.to s ≡ [] =
        sym (ap (λ n. drop n s) place)
        ∙ sym (drop-drop i (o.to - i) s)
        ∙ ap (λ t. drop (o.to - i) t) here
        ∙ drop_nil (o.to - i) in
      absurd (cc (o.closes, ap (λ t. take 1 t) nothing))

  scan-Among :
      (rest : Text) (i : ℕ) (z : Scan)
      → start ≤ i
      → drop i s ≡ rest
      → IsScan rt s start i z
      → Tracked i z
      → Among v (scan rt s rest i z).questions
  unfolding scan
  scan-Among [] i z far here h (inl before) =
      absurd (over i (omega (arith, before, o.ordered)) here)
  scan-Among [] i z far here h (inr (inl (begun, early, started))) = absurd (over i early here)
  scan-Among [] i z far here h (inr (inr saved)) = saved
  scan-Among (c ∷ rest) i z far here h t =
      scan-Among rest (i + 1) (visit rt s c i z) (omega (arith, far)) (drop_next i s c rest here)
        (visit-IsScan rt s start c i z rest far here h)
        (visit-Tracked c i z rest far here h.counted t)

-- Every object that is complete is recovered, however the text goes on.
recover_complete :
    (rt : Runtime) (s : Text) (start : ℕ) (v : Value)
    → array_start s ≡ some start
    → IsObjectOf rt s start v
    → (qs : List Value) × (recover rt s ≡ some qs) × Among v qs
unfolding recover
recover_complete rt s start v array o =
    let found =
      scan-Among rt s start v o (drop start s) start at_start (omega arith) refl
        (at_start-IsScan rt s start) (inl o.after) in
    let (qs, e, among) = shown (scan rt s (drop start s) start at_start).questions found in
    (qs, rw (array, recover) e, among)
  where
    shown :
        (qs : List Value)
        → Among v qs
        → (qs' : List Value) × (non_empty qs ≡ some qs') × Among v qs'
    shown [] ([], post, e) = absurd (cc e)
    shown [] (q ∷ pre, post, e) = absurd (cc e)
    shown (q ∷ qs) h = (q ∷ qs, refl, h)

-- An answer without a value as a whole is not lost where the array of the questions has begun: every
-- object behind its start that is complete, outside of all braces, and has a value, is among the
-- questions that are given, wherever the answer is cut off.
pub extract_json_complete :
    (rt : Runtime) (raw : Text) (start : ℕ) (v : Value)
    → rt.loads (strip_fences raw) ≡ none
    → array_start (strip_fences raw) ≡ some start
    → IsObjectOf rt (strip_fences raw) start v
    → (qs : List Value) × (extract_json rt raw ≡ ok (with_questions qs)) × Among v qs
unfolding extract_json parse_or_recover
extract_json_complete rt raw start v broken array o =
    let (qs, saved, among) = recover_complete rt (strip_fences raw) start v array o in
    (qs, rw (broken, saved, parse_or_recover) refl, among)
