-- ===== src/JsonUtils/Recovered.antt =====
-- What `recover_partial_questions` saves of an answer that was cut off.
use study_helper_backend.Prelude.{
  ℕ, zero, suc, ◌+◌, ◌-◌, ◌<◌, ◌≤◌, ◌≡◌, ◌≢◌, refl, sym, ap, subst, ◌∙◌, ◌⊎◌, inl, inr, true, false,
  leb, leb→le, if◌then◌else◌, ◌++◌, List, [], ◌∷◌, Option, none, some, take, drop, All, All-append,
  ◌==◌, ==_iff, arith, Bool-cases, Option-cases,
}
use study_helper_backend.Prelude.Int.{ℤ, pos, negsuc}
use study_helper_backend.Text.{Text}
use study_helper_backend.Outcome.{ok}
use study_helper_backend.Json.{Value}
use study_helper_backend.Runtime.{Runtime}
use study_helper_backend.JsonUtils.{
  slice, array_start, Scan, is_zero, inc, dec, close, visit, scan, at_start, parsed, non_empty,
  recover, with_questions, strip_fences, parse_or_recover, extract_json,
}

-- The depth of braces that a character leaves.
abbrev pub nested : ℕ → ℤ → ℤ
nested c d = if c == b'{' then inc d else if c == b'}' then dec d else d

-- The depth after a text, for the depth before it.
unfoldable pub balance : Text → ℤ → ℤ
balance [] d = d
balance (c ∷ s) d = balance s (nested c d)

abbrev pub IsPositive : ℤ → Type 0
IsPositive d = (n : ℕ) × (d ≡ pos (suc n))

-- The depth at a position, counted from another one.
abbrev pub depth_at : Text → ℕ → ℕ → ℤ
depth_at s start k = balance (slice start k s) (pos 0)

-- The value of a part of the text that goes from a `{` outside of all braces to the `}` of it: in
-- between the depth is positive, and behind it is 0 again.
pub record IsObjectOf (rt : Runtime) (s : Text) (start : ℕ) (v : Value) : Type 0 where
  pub from : ℕ
  pub to : ℕ
  pub after : start ≤ from
  pub ordered : from < to
  pub opens : take 1 (drop from s) ≡ b'{' ∷ []
  pub closes : take 1 (drop to s) ≡ b'}' ∷ []
  pub outside : depth_at s start from ≡ pos 0
  pub inside : (k : ℕ) → from < k → k ≤ to → IsPositive (depth_at s start k)
  pub ended : depth_at s start (to + 1) ≡ pos 0
  pub loaded : rt.loads (slice from (to + 1) s) ≡ some v

-- The object that is open began before the position, at a `{` outside of all braces.
record Began (s : Text) (start i a : ℕ) : Type 0 where
  after : start ≤ a
  before : a < i
  opens : take 1 (drop a s) ≡ b'{' ∷ []
  outside : depth_at s start a ≡ pos 0
  inside : (k : ℕ) → a < k → k ≤ i → IsPositive (depth_at s start k)

abbrev Opened : Text → ℕ → ℕ → Option ℕ → Type 0
Opened s start i none = Unit {0}
Opened s start i (some a) = Began s start i a

pub record IsScan (rt : Runtime) (s : Text) (start i : ℕ) (z : Scan) : Type 0 where
  pub counted : z.depth ≡ depth_at s start i
  opened : Opened s start i z.obj_start
  objects : All (IsObjectOf rt s start) z.questions

pub drop_next :
    (i : ℕ) (s : Text) (c : ℕ) (rest : Text) → drop i s ≡ c ∷ rest → drop (i + 1) s ≡ rest
drop_next zero [] c rest h = absurd (cc h)
drop_next (suc i) [] c rest h = absurd (cc h)
drop_next zero (d ∷ s) c rest h = cc h
drop_next (suc i) (d ∷ s) c rest h =
    let e : suc i + 1 ≡ suc (i + 1) = omega arith in rw e (drop_next i s c rest h)

balance-append : (s : Text) (c : ℕ) (d : ℤ) → balance (s ++ c ∷ []) d ≡ nested c (balance s d)
unfolding balance
balance-append [] c d = refl
balance-append (x ∷ s) c d = balance-append s c (nested x d)

take_next :
    (n : ℕ) (s : Text) (c : ℕ) (rest : Text)
    → drop n s ≡ c ∷ rest
    → take (suc n) s ≡ take n s ++ c ∷ []
take_next zero [] c rest h = absurd (cc h)
take_next (suc n) [] c rest h = absurd (cc h)
take_next zero (d ∷ s) c rest h = cc h
take_next (suc n) (d ∷ s) c rest h = ap (λ t. d ∷ t) (take_next n s c rest h)

pub drop_nil : (n : ℕ) → drop {A = ℕ} n [] ≡ []
drop_nil zero = refl
drop_nil (suc n) = refl

pub drop-drop : (a n : ℕ) (s : Text) → drop n (drop a s) ≡ drop (a + n) s
drop-drop zero n s = let e : 0 + n ≡ n = omega arith in rw e refl
drop-drop (suc a) n [] = drop_nil n ∙ sym (drop_nil (suc a + n))
drop-drop (suc a) n (d ∷ s) =
    let e : suc a + n ≡ suc (a + n) = omega arith in rw e (drop-drop a n s)

module _ (rt : Runtime) (s : Text) (start : ℕ) where
  pub depth_next :
      (i c : ℕ) (rest : Text)
      → start ≤ i
      → drop i s ≡ c ∷ rest
      → depth_at s start (i + 1) ≡ nested c (depth_at s start i)
  depth_next i c rest h here =
      let ahead : i + 1 - start ≡ suc (i - start) = omega (arith, h) in
      let place : start + (i - start) ≡ i = omega (arith, h) in
      let there : drop (i - start) (drop start s) ≡ c ∷ rest =
        drop-drop start (i - start) s ∙ ap (λ n. drop n s) place ∙ here in
      ap (λ n. balance (take n (drop start s)) (pos 0)) ahead
      ∙ ap (λ t. balance t (pos 0)) (take_next (i - start) (drop start s) c rest there)
      ∙ balance-append (slice start i s) c (pos 0)

  -- An open object goes on where the depth stays positive.
  Began-later :
      (i a : ℕ)
      → IsPositive (depth_at s start (i + 1))
      → Began s start i a
      → Began s start (i + 1) a
  Began-later i a here b = record {
    after = b.after;
    before = omega (arith, b.before);
    opens = b.opens;
    outside = b.outside;
    inside = λ k from to. elim (Bool-cases (leb k i)) [
      | inl old ↦ b.inside k from (leb→le k i old)
      | inr new ↦
          let past : i < k = ground (arith, new) in
          let last : i + 1 ≡ k = omega (arith, to, past) in
          subst (λ n. IsPositive (depth_at s start n)) last here
    ];
  }

  parsed-objects :
      (a i : ℕ) (v : Option Value)
      → rt.loads (slice a (i + 1) s) ≡ v
      → Began s start i a
      → take 1 (drop i s) ≡ b'}' ∷ []
      → depth_at s start (i + 1) ≡ pos 0
      → All (IsObjectOf rt s start) (parsed v)
  parsed-objects a i none e b closes ended = tt
  parsed-objects a i (some v) e b closes ended = (
    record {
      from = a;
      to = i;
      after = b.after;
      ordered = b.before;
      opens = b.opens;
      closes = closes;
      outside = b.outside;
      inside = b.inside;
      ended = ended;
      loaded = e;
    },
    tt,
  )

  zero_depth : (d : ℤ) → is_zero d ≡ true → d ≡ pos 0
  zero_depth (pos zero) h = refl
  zero_depth (pos (suc n)) h = absurd (cc h)
  zero_depth (negsuc n) h = absurd (cc h)

  dec-IsPositive : (d : ℤ) → IsPositive d → is_zero (dec d) ≡ false → IsPositive (dec d)
  dec-IsPositive d (zero, e) h = absurd (cc (rw e at h))
  dec-IsPositive d (suc n, e) h = (n, rw e refl)

  inc-IsPositive : (d : ℤ) → IsPositive d → IsPositive (inc d)
  inc-IsPositive d (n, e) = (suc n, rw e refl)

  now-IsPositive : (i a : ℕ) → Began s start i a → IsPositive (depth_at s start i)
  now-IsPositive i a b = b.inside i b.before (omega arith)

  close-IsScan :
      (i : ℕ) (z : Scan)
      → take 1 (drop i s) ≡ b'}' ∷ []
      → depth_at s start (i + 1) ≡ dec (depth_at s start i)
      → IsScan rt s start i z
      → IsScan rt s start (i + 1) (close rt s i z)
  unfolding close
  close-IsScan i z closes next h =
      let counted : dec z.depth ≡ depth_at s start (i + 1) = ap dec h.counted ∙ sym next in
      elim (Option-cases z.obj_start) [
        | inl none_open ↦
            rw (none_open, close)
              (record { counted = counted; opened = rw none_open tt; objects = h.objects })
        | inr (a, started) ↦
            let b : Began s start i a = rw started at h.opened in
            elim (Bool-cases (is_zero (dec z.depth))) [
              | inl ends ↦
                  let ended = sym counted ∙ zero_depth (dec z.depth) ends in
                  rw (started, ends, close)
                    (record {
                      counted = counted;
                      opened = tt;
                      objects =
                          All-append (IsObjectOf rt s start) z.questions _ h.objects
                            (parsed-objects a i (rt.loads (slice a (i + 1) s)) refl b closes ended);
                    })
              | inr goes_on ↦
                  let inner : IsPositive (dec z.depth) =
                    dec-IsPositive z.depth (rw (h.counted) (now-IsPositive i a b)) goes_on in
                  rw (started, goes_on, close)
                    (record {
                      counted = counted;
                      opened = rw started (Began-later i a (subst IsPositive counted inner) b);
                      objects = h.objects;
                    })
            ]
      ]

  Opened-later :
      (i : ℕ) (o : Option ℕ)
      → ((a : ℕ) → Began s start i a → IsPositive (depth_at s start (i + 1)))
      → Opened s start i o
      → Opened s start (i + 1) o
  Opened-later i none f h = tt
  Opened-later i (some a) f b = Began-later i a (f a b) b

  pub visit-IsScan :
      (c i : ℕ) (z : Scan) (rest : Text)
      → start ≤ i
      → drop i s ≡ c ∷ rest
      → IsScan rt s start i z
      → IsScan rt s start (i + 1) (visit rt s c i z)
  unfolding visit
  visit-IsScan c i z rest far here h =
      let next = depth_next i c rest far here in
      let first : take 1 (drop i s) ≡ c ∷ [] = rw here refl in
      elim (Bool-cases (c == b'{')) [
        | inl opens ↦
            let up : depth_at s start (i + 1) ≡ inc (depth_at s start i) = rw opens at next in
            let counted : inc z.depth ≡ depth_at s start (i + 1) = ap inc h.counted ∙ sym up in
            elim (Bool-cases (is_zero z.depth)) [
              | inl outer ↦
                  let outside = sym h.counted ∙ zero_depth z.depth outer in
                  rw (opens, outer, visit)
                    (record {
                      counted = counted;
                      opened = record {
                        after = far;
                        before = omega arith;
                        opens = cc (first, (==_iff c b'{').0 opens);
                        outside = outside;
                        inside = λ k from to.
                            let last : i + 1 ≡ k = omega (arith, from, to) in
                            subst (λ n. IsPositive (depth_at s start n)) last
                              (0, up ∙ ap inc outside);
                      };
                      objects = h.objects;
                    })
              | inr inner ↦
                  rw (opens, inner, visit)
                    (record {
                      counted = counted;
                      opened =
                          Opened-later i z.obj_start
                            (λ a b.
                              subst IsPositive (sym up) (inc-IsPositive _ (now-IsPositive i a b)))
                            h.opened;
                      objects = h.objects;
                    })
            ]
        | inr other ↦ elim (Bool-cases (c == b'}')) [
          | inl closes ↦
              let down : depth_at s start (i + 1) ≡ dec (depth_at s start i) =
                rw (other, closes) at next in
              rw (other, closes, visit)
                (close-IsScan i z (cc (first, (==_iff c b'}').0 closes)) down h)
          | inr neither ↦
              let same : depth_at s start (i + 1) ≡ depth_at s start i =
                rw (other, neither) at next in
              rw (other, neither, visit)
                (record {
                  counted = h.counted ∙ sym same;
                  opened =
                      Opened-later i z.obj_start
                        (λ a b. subst IsPositive (sym same) (now-IsPositive i a b)) h.opened;
                  objects = h.objects;
                })
        ]
      ]

  scan-objects :
      (rest : Text) (i : ℕ) (z : Scan)
      → start ≤ i
      → drop i s ≡ rest
      → IsScan rt s start i z
      → All (IsObjectOf rt s start) (scan rt s rest i z).questions
  unfolding scan
  scan-objects [] i z far here h = h.objects
  scan-objects (c ∷ rest) i z far here h =
      scan-objects rest (i + 1) (visit rt s c i z) (omega (arith, far)) (drop_next i s c rest here)
        (visit-IsScan c i z rest far here h)

start_depth : (s : Text) (start : ℕ) → pos 0 ≡ depth_at s start start
unfolding balance
start_depth s start =
    let none_taken : 0 ≡ start - start = omega arith in
    ap (λ n. balance (take n (drop start s)) (pos 0)) none_taken

pub at_start-IsScan : (rt : Runtime) (s : Text) (start : ℕ) → IsScan rt s start start at_start
at_start-IsScan rt s start = record { counted = start_depth s start; opened = tt; objects = tt }

non_empty-some :
    (P : Value → Type 0) (qs qs' : List Value)
    → non_empty qs ≡ some qs'
    → All P qs
    → All P qs' × (qs' ≢ [])
non_empty-some P [] qs' h hq = absurd (cc h)
non_empty-some P (q ∷ qs) qs' h hq = let same : (q ∷ qs) ≡ qs' = cc h in rw (← same) (hq, λ e. cc e)

-- Every question that is recovered is the value of an object that stands in the array of the
-- questions outside of all braces.
pub recover-objects :
    (rt : Runtime) (s : Text) (qs : List Value)
    → recover rt s ≡ some qs
    → (start : ℕ) × (array_start s ≡ some start) × All (IsObjectOf rt s start) qs × (qs ≢ [])
unfolding recover
recover-objects rt s qs h = elim (Option-cases (array_start s)) [
  | inl nowhere ↦ absurd (cc (rw (nowhere, recover) at h))
  | inr (a, start) ↦
      let saved =
        scan-objects rt s a (drop a s) a at_start (omega arith) refl (at_start-IsScan rt s a) in
      let found = non_empty-some (IsObjectOf rt s a) _ qs (rw (start, recover) at h) saved in
      (a, start, found.0, found.1)
]

-- `extract_json` gives the value of the whole answer without its fences if it has one. Only where it
-- has none, the answer is a dict of the questions, at least one, each of which is the value of an
-- object that stands behind the start of the array outside of all braces: from a `{` at depth 0 to
-- the first `}` that leads back to depth 0.
pub extract_json-cases :
    (rt : Runtime) (raw : Text) (v : Value)
    → extract_json rt raw ≡ ok v
    → (rt.loads (strip_fences raw) ≡ some v)
      ⊎ ((rt.loads (strip_fences raw) ≡ none)
          × ((qs : List Value) × (start : ℕ) × (v ≡ with_questions qs)
              × (array_start (strip_fences raw) ≡ some start)
              × All (IsObjectOf rt (strip_fences raw) start) qs
              × (qs ≢ [])))
unfolding extract_json parse_or_recover
extract_json-cases rt raw v h = elim (Option-cases (rt.loads (strip_fences raw))) [
  | inl broken ↦ elim (Option-cases (recover rt (strip_fences raw))) [
    | inl lost ↦ absurd (cc (rw (broken, lost, parse_or_recover) at h))
    | inr (qs, saved) ↦ inr (
        let (start, begins, objects, some_question) =
          recover-objects rt (strip_fences raw) qs saved in
        let same : with_questions qs ≡ v = cc (rw (broken, saved, parse_or_recover) at h) in
        (broken, (qs, start, cc same, begins, objects, some_question)))
  ]
  | inr (w, whole) ↦
      let same : w ≡ v = cc (rw (whole, parse_or_recover) at h) in inl (cc (whole, same))
]
