-- ===== src/Pdf/Clean.antt =====
-- `_clean_text`. In its pattern `^\s*\d+\s*$` no character is both white space and a digit, so that
-- a match is decided from the left: all white space, all digits, and then as much white space as
-- leaves the end of the text or a new line behind it.
use study_helper_backend.Prelude.{
  ℕ, zero, suc, ◌+◌, Bool, true, false, [], ◌∷◌, Option, none, some, drop, ltb, ◌==◌, if◌then◌else◌,
}
use study_helper_backend.Text.{Text, is_space, strip}
use study_helper_backend.Runtime.{Runtime}
use study_helper_backend.Runtime.Number.{digit_value}

-- `re.sub(r"\n{3,}", "\n\n", text)`, after `run` new lines.
unfoldable pub collapse : ℕ → Text → Text
collapse run [] = []
collapse run (c ∷ s) =
    let next = collapse (run + 1) s in
    let other = collapse 0 s in
    if c == b'\n' then (if ltb run 2 then c ∷ next else next) else c ∷ other

-- The number of characters of a text that a test takes from the left.
unfoldable pub prefix : (ℕ → Bool) → Text → ℕ
prefix p [] = 0
prefix p (c ∷ s) = let more = prefix p s + 1 in if p c then more else 0

-- The characters that `\s*$` takes; `none` where it does not match.
unfoldable pub line_end : Text → Option ℕ
unfolding is_space
line_end [] = some 0
line_end (c ∷ s) =
    let rest = line_end s in
    if is_space c
    then (elim rest [ some n ↦ some (n + 1) | none ↦ if c == b'\n' then some 0 else none ])
    else none

module _ (rt : Runtime) where
  -- `\d`
  unfoldable pub is_digit : ℕ → Bool
  unfolding digit_value
  is_digit c = elim (digit_value rt c) [ none ↦ false | some _ ↦ true ]

  abbrev with_end : ℕ → ℕ → Option ℕ → ℕ
  with_end before zero end = 0
  with_end before (suc digits) none = 0
  with_end before (suc digits) (some after) = before + (suc digits + after)

  -- The length of the match at the start of a line; 0 where there is none.
  unfoldable pub number_line : Text → ℕ
  unfolding prefix line_end is_digit is_space
  number_line s =
      let before = prefix is_space s in
      let digits = prefix is_digit (drop before s) in
      with_end before digits (line_end (drop digits (drop before s)))

  -- `re.sub(r"^\s*\d+\s*$", "", text, flags=re.MULTILINE)`: `skip` characters of a match are still to
  -- be passed, and `starts` says that a line starts here.
  unfoldable pub remove_numbers : ℕ → Bool → Text → Text
  unfolding number_line
  remove_numbers skip starts [] = []
  remove_numbers (suc skip) starts (c ∷ s) = remove_numbers skip (c == b'\n') s
  remove_numbers zero starts (c ∷ s) =
      let kept = c ∷ remove_numbers 0 (c == b'\n') s in
      elim (if starts then number_line (c ∷ s) else 0) [
        | zero ↦ kept
        | suc skip ↦ remove_numbers skip (c == b'\n') s
      ]

  unfoldable pub clean_text : Text → Text
  unfolding collapse remove_numbers strip
  clean_text s = strip (remove_numbers 0 true (collapse 0 s))
