-- ===== src/Pdf/Chunks/Laws.antt =====
-- The chunks have the words of the sections, and no chunk has too many.
use mathlib.Core.List.{append_assoc, append-nil}
use study_helper_backend.Prelude.{
  ℕ, zero, suc, ◌+◌, ◌-◌, ◌≤◌, ◌≡◌, refl, sym, ap, ◌∙◌, List, [], ◌∷◌, ◌++◌, take, drop, length,
  leb, leb→le, arith, All, All-append, Bool-cases, inl, inr,
}
use study_helper_backend.Text.{Text, words}
use study_helper_backend.Text.Words.{IsWord, words-IsWord, words-join}
use study_helper_backend.Outcome.{ok, >>=-eq-ok}
use study_helper_backend.Pdf.{ParsedSection}
use study_helper_backend.Pdf.Chunks.{
  slices, part, parts, split_section, chunk_section, chunk_sections,
}

-- The words of sections, in order.
abbrev pub all_words : List ParsedSection → List Text
all_words [] = []
all_words (s ∷ ss) = words s.content ++ all_words ss

abbrev pub concat : List (List Text) → List Text
concat [] = []
concat (ws ∷ wss) = ws ++ concat wss

take-drop : (n : ℕ) (ws : List Text) → take n ws ++ drop n ws ≡ ws
take-drop zero ws = refl
take-drop (suc n) [] = refl
take-drop (suc n) (w ∷ ws) = ap (λ vs. w ∷ vs) (take-drop n ws)

length-take : (n : ℕ) (ws : List Text) → length (take n ws) ≤ n
length-take zero ws = omega arith
length-take (suc n) [] = omega arith
length-take (suc n) (w ∷ ws) = omega (arith, length-take n ws)

length-drop : (n : ℕ) (ws : List Text) → length (drop n ws) ≤ length ws - n
length-drop zero ws = omega arith
length-drop (suc n) [] = omega arith
length-drop (suc n) (w ∷ ws) = omega (arith, length-drop n ws)

All-take : (P : Text → Type 0) (n : ℕ) (ws : List Text) → All P ws → All P (take n ws)
All-take P zero ws h = tt
All-take P (suc n) [] h = tt
All-take P (suc n) (w ∷ ws) (p, h) = (p, All-take P n ws h)

All-drop : (P : Text → Type 0) (n : ℕ) (ws : List Text) → All P ws → All P (drop n ws)
All-drop P zero ws h = h
All-drop P (suc n) [] h = tt
All-drop P (suc n) (w ∷ ws) (p, h) = All-drop P n ws h

-- The fuel is enough: no word is left over.
pub concat-slices :
    (fuel n : ℕ) (ws : List Text) → length ws ≤ fuel → concat (slices fuel (suc n) ws) ≡ ws
unfolding slices
concat-slices zero n [] h = refl
concat-slices (suc fuel) n [] h = refl
concat-slices zero n (w ∷ ws) h = absurd (omega (arith, h))
concat-slices (suc fuel) n (w ∷ ws) h =
    ap (λ vs. (w ∷ take n ws) ++ vs)
      (concat-slices fuel n (drop n ws) (omega (arith, h, length-drop n ws)))
    ∙ take-drop (suc n) (w ∷ ws)

-- A slice is a list of words, and not a long one.
abbrev Slice : ℕ → List Text → Type 0
Slice n ws = All IsWord ws × (length ws ≤ n)

slices-Slice : (fuel n : ℕ) (ws : List Text) → All IsWord ws → All (Slice n) (slices fuel n ws)
unfolding slices
slices-Slice zero n [] h = tt
slices-Slice (suc fuel) n [] h = tt
slices-Slice zero n (w ∷ ws) h = tt
slices-Slice (suc fuel) n (w ∷ ws) h = (
  (All-take IsWord n (w ∷ ws) h, length-take n (w ∷ ws)),
  slices-Slice fuel n (drop n (w ∷ ws)) (All-drop IsWord n (w ∷ ws) h),
)

abbrev Short : ℕ → ParsedSection → Type 0
Short n s = length (words s.content) ≤ n

parts-words :
    (n : ℕ) (sec : ParsedSection) (i : ℕ) (chunks : List (List Text))
    → All (Slice n) chunks
    → (all_words (parts sec i chunks) ≡ concat chunks) × All (Short n) (parts sec i chunks)
unfolding parts part
parts-words n sec i [] h = (refl, tt)
parts-words n sec i (chunk ∷ chunks) ((are_words, short), h) =
    let (rest, all_short) = parts-words n sec (i + 1) chunks h in
    let same = words-join chunk are_words in (cc (same, rest), (rw same short, all_short))

-- What a chunking keeps: the words, in chunks that are short.
abbrev pub Keeps : ℕ → List Text → List ParsedSection → Type 0
Keeps n ws out = (all_words out ≡ ws) × All (Short n) out

split_section-Keeps :
    (n : ℕ) (sec : ParsedSection) (out : List ParsedSection)
    → split_section n sec (words sec.content) ≡ ok out
    → Keeps n (words sec.content) out
split_section-Keeps zero sec out h = absurd (cc h)
split_section-Keeps (suc n) sec out h =
    let ws = words sec.content in
    let same : parts sec 0 (slices (length ws) (suc n) ws) ≡ out = cc h in
    let (kept, short) =
      parts-words (suc n) sec 0 (slices (length ws) (suc n) ws)
        (slices-Slice (length ws) (suc n) ws (words-IsWord sec.content)) in
    rw (← same) (kept ∙ concat-slices (length ws) n ws (omega arith), short)

chunk_section-Keeps :
    (n : ℕ) (sec : ParsedSection) (out : List ParsedSection)
    → chunk_section n sec ≡ ok out
    → Keeps n (words sec.content) out
unfolding chunk_section
chunk_section-Keeps n sec out h = elim (Bool-cases (leb (length (words sec.content)) n)) [
  | inl short ↦
      let same : (sec ∷ []) ≡ out = cc (rw (short, chunk_section) at h) in
      rw (← same) (append-nil (words sec.content), (leb→le _ _ short, tt))
  | inr long ↦ split_section-Keeps n sec out (rw (long, chunk_section) at h)
]

all_words-append :
    (ss ts : List ParsedSection) → all_words (ss ++ ts) ≡ all_words ss ++ all_words ts
all_words-append [] ts = refl
all_words-append (s ∷ ss) ts =
    ap (λ ws. words s.content ++ ws) (all_words-append ss ts)
    ∙ sym (append_assoc (words s.content) (all_words ss) (all_words ts))

-- The chunks have the words of the sections in their order, and each has at most as many as asked.
pub chunk_sections-Keeps :
    (n : ℕ) (secs out : List ParsedSection)
    → chunk_sections n secs ≡ ok out
    → Keeps n (all_words secs) out
unfolding chunk_sections
chunk_sections-Keeps n [] out h = let same : [] ≡ out = cc h in rw (← same) (refl, tt)
chunk_sections-Keeps n (sec ∷ secs) out h =
    let (chunked, e, r) = >>=-eq-ok (chunk_section n sec) _ h in
    let (rest, e', r') = >>=-eq-ok (chunk_sections n secs) _ r in
    let same : chunked ++ rest ≡ out = cc r' in
    let (kept, short) = chunk_section-Keeps n sec chunked e in
    let (kept', short') = chunk_sections-Keeps n secs rest e' in
    rw (← same) (
      all_words-append chunked rest ∙ cc (kept, kept'),
      All-append (Short n) chunked rest short short',
    )

chunk_section-total :
    (n : ℕ) (sec : ParsedSection)
    → (out : List ParsedSection) × (chunk_section (suc n) sec ≡ ok out)
unfolding chunk_section
chunk_section-total n sec = elim (Bool-cases (leb (length (words sec.content)) (suc n))) [
  | inl short ↦ (sec ∷ [], rw short refl)
  | inr long ↦
      let ws = words sec.content in (parts sec 0 (slices (length ws) (suc n) ws), rw long refl)
]

-- For a size that is not 0 the chunking gives a result.
pub chunk_sections-total :
    (n : ℕ) (secs : List ParsedSection)
    → (out : List ParsedSection) × (chunk_sections (suc n) secs ≡ ok out)
unfolding chunk_sections
chunk_sections-total n [] = ([], refl)
chunk_sections-total n (sec ∷ secs) =
    let (chunked, e) = chunk_section-total n sec in
    let (rest, e') = chunk_sections-total n secs in (chunked ++ rest, rw (e, e') refl)
