-- ===== src/Text/Words.antt =====
-- `split` at white space, and `join` with a space.
use mathlib.Core.List.{append_assoc, append-nil}
use study_helper_backend.Prelude.{
  ℕ, ◌≡◌, refl, sym, ap, ◌∙◌, true, false, List, [], ◌∷◌, ◌++◌, is_empty, All, Bool-cases, inl, inr,
}
use study_helper_backend.Text.{Text, text, is_space, join, word_scan, words}

-- No white space.
abbrev pub Solid : Text → Type 0
Solid = All (λ c. is_space c ≡ false)

-- A text that `split` gives: not empty, and without white space.
abbrev pub IsWord : Text → Type 0
IsWord w = (is_empty w ≡ false) × Solid w

Solid-snoc : (w : Text) (c : ℕ) → Solid w → is_space c ≡ false → Solid (w ++ c ∷ [])
Solid-snoc [] c h e = (e, tt)
Solid-snoc (d ∷ w) c (here, h) e = (here, Solid-snoc w c h e)

snoc-nonempty : (w : Text) (c : ℕ) → is_empty (w ++ c ∷ []) ≡ false
snoc-nonempty [] c = refl
snoc-nonempty (d ∷ w) c = refl

word_scan-IsWord : (cur s : Text) → Solid cur → All IsWord (word_scan cur s)
unfolding word_scan
word_scan-IsWord cur [] h = elim (Bool-cases (is_empty cur)) [
  | inl none_open ↦ rw none_open tt
  | inr some_open ↦ rw some_open ((some_open, h), tt)
]
word_scan-IsWord cur (c ∷ s) h = elim (Bool-cases (is_space c)) [
  | inl space ↦ elim (Bool-cases (is_empty cur)) [
    | inl none_open ↦ rw (space, none_open) (word_scan-IsWord [] s tt)
    | inr some_open ↦ rw (space, some_open) ((some_open, h), word_scan-IsWord [] s tt)
  ]
  | inr letter ↦ rw letter (word_scan-IsWord (cur ++ c ∷ []) s (Solid-snoc cur c h letter))
]

pub words-IsWord : (s : Text) → All IsWord (words s)
unfolding words
words-IsWord s = word_scan-IsWord [] s tt

word_scan-append : (w cur s : Text) → Solid w → word_scan cur (w ++ s) ≡ word_scan (cur ++ w) s
unfolding word_scan
word_scan-append [] cur s h = rw append-nil refl
word_scan-append (c ∷ w) cur s (here, h) =
    rw here (
      word_scan-append w (cur ++ c ∷ []) s h
      ∙ ap (λ u. word_scan u s) (append_assoc cur (c ∷ []) w))

space-is_space : is_space 32 ≡ true
unfolding is_space
space-is_space = refl

word_scan-join :
    (w : Text) (ws : List Text)
    → IsWord w
    → All IsWord ws
    → word_scan [] (join (text " ") (w ∷ ws)) ≡ w ∷ ws
unfolding word_scan join text
word_scan-join w [] (some_text, h) hs =
    ap (λ u. word_scan [] u) (sym (append-nil w)) ∙ word_scan-append w [] [] h ∙ rw some_text refl
word_scan-join w (v ∷ vs) (some_text, h) (hv, hs) =
    word_scan-append w [] _ h
    ∙ rw (space-is_space, some_text) (ap (λ us. w ∷ us) (word_scan-join v vs hv hs))

-- Words that are joined with a space are split into the same words again.
pub words-join : (ws : List Text) → All IsWord ws → words (join (text " ") ws) ≡ ws
unfolding words word_scan join
words-join [] h = refl
words-join (w ∷ ws) (hw, hs) = word_scan-join w ws hw hs
