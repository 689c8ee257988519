-- ===== src/Pdf/Chunks.antt =====
-- `_chunk_sections`.
pub mod Laws
use study_helper_backend.Prelude.{
  ℕ, zero, suc, ◌+◌, Bool, true, false, List, [], ◌∷◌, ◌++◌, take, drop, is_empty, length, leb,
  if◌then◌else◌,
}
use study_helper_backend.Text.{Text, text, words, join}
use study_helper_backend.Outcome.{Result, ok, err, ◌>>=◌, crash, value_error}
use study_helper_backend.Runtime.Number.{decimal}
use study_helper_backend.Pdf.{ParsedSection}

-- `words[start : start + max_tokens]`, for every start in `range(0, len(words), max_tokens)`. The
-- fuel is the number of the words: every round but the last takes `max_tokens` of them, and that is
-- at least one.
unfoldable pub slices : ℕ → ℕ → List Text → List (List Text)
slices fuel max_tokens [] = []
slices zero max_tokens (w ∷ ws) = []
slices (suc fuel) max_tokens (w ∷ ws) =
    take max_tokens (w ∷ ws) ∷ slices fuel max_tokens (drop max_tokens (w ∷ ws))

unfoldable pub part : ParsedSection → ℕ → List Text → ParsedSection
unfolding join decimal text
part sec i chunk = record sec {
  title = sec.title ++ (text " (part " ++ (decimal (i + 1) ++ text ")"));
  content = join (text " ") chunk;
}

-- `enumerate`, from the index `i`.
unfoldable pub parts : ParsedSection → ℕ → List (List Text) → List ParsedSection
unfolding part
parts sec i [] = []
parts sec i (chunk ∷ chunks) = part sec i chunk ∷ parts sec (i + 1) chunks

-- A step of 0 is refused by `range`.
abbrev pub split_section : ℕ → ParsedSection → List Text → Result (List ParsedSection)
split_section zero sec ws = err (crash value_error)
split_section (suc n) sec ws = ok (parts sec 0 (slices (length ws) (suc n) ws))

unfoldable pub chunk_section : ℕ → ParsedSection → Result (List ParsedSection)
unfolding parts slices words
chunk_section max_tokens sec =
    let ws = words sec.content in
    if leb (length ws) max_tokens then ok (sec ∷ []) else split_section max_tokens sec ws

unfoldable pub chunk_sections : ℕ → List ParsedSection → Result (List ParsedSection)
unfolding chunk_section
chunk_sections max_tokens [] = ok []
chunk_sections max_tokens (sec ∷ secs) = do
  chunked ← chunk_section max_tokens sec
  rest ← chunk_sections max_tokens secs
  ok (chunked ++ rest)
