-- ===== src/Validator.antt =====
-- app/services/response_validator.py: the helpers of the three validators.
pub mod Linked
pub mod Notes
pub mod Mcq
pub mod Fill
use study_helper_backend.Prelude.{
  ℕ, zero, suc, ◌+◌, ◌*◌, Bool, true, false, not, ◌&&◌, ◌||◌, List, [], ◌∷◌, ◌++◌, Option, none,
  some, all, is_empty, length, leb, ltb, if◌then◌else◌,
}
use study_helper_backend.Text.{Text, text, member}
use study_helper_backend.Outcome.{Result, ok, err, crash, schema_error}
use study_helper_backend.Json.{Value, null, str, Fields, get_or, set, truthy}
use study_helper_backend.Runtime.{Runtime}
use study_helper_backend.Runtime.Number.{to_str}

is_letter : ℕ → Bool
is_letter c = leb b'a' c && leb c b'z' || leb b'A' c && leb c b'Z'

-- The longest runs of characters that `\w` matches. `cur` is the run that is open.
words_from : (ℕ → Bool) → Text → Text → List Text
words_from is_word cur [] = cur ∷ []
words_from is_word cur (c ∷ s) =
    let longer = words_from is_word (cur ++ c ∷ []) s in
    let closed = cur ∷ words_from is_word [] s in if is_word c then longer else closed

-- A run that `\b[a-zA-Z]{4,}\b` matches, which is a run of four or more ASCII letters: between two
-- word characters there is no `\b`, so the pattern matches a whole run or nothing of it.
is_keyword : Text → Bool
unfolding is_letter
is_keyword w = leb 4 (length w) && all is_letter w

keywords : List Text → List Text
keywords [] = []
keywords (w ∷ ws) = let rest = keywords ws in if is_keyword w then w ∷ rest else rest

-- A set of texts, as a list with no text twice.
unfoldable pub to_set : List Text → List Text
unfolding member
to_set [] = []
to_set (x ∷ xs) = let rest = to_set xs in if member x rest then rest else x ∷ rest

-- `a & b`
unfoldable pub both : List Text → List Text → List Text
unfolding member
both [] ys = []
both (x ∷ xs) ys = let rest = both xs ys in if member x ys then x ∷ rest else rest

unfoldable pub tokenize : Runtime → Text → List Text
unfolding words_from keywords to_set is_keyword
tokenize rt s = to_set (keywords (words_from rt.is_word [] (rt.lower s)))

-- `_ensure_id`, with the number of draws of `uuid4` so far.
unfoldable pub ensure_id : Runtime → Fields → ℕ → Fields × ℕ
unfolding truthy get_or set text
ensure_id rt fs draws =
    if truthy (get_or fs (text "id") null)
    then (fs, draws)
    else (set fs (text "id") (str (rt.uuid4 draws)), draws + 1)

-- pydantic takes no value but a string for a field of type `str`.
abbrev pub str_field : Value → Result Text
str_field (str s) = ok s
str_field _ = err (crash schema_error)

-- `next(iter(ids), "")`
abbrev pub first_id : Runtime → List Text → Text
first_id rt [] = []
first_id rt (x ∷ xs) = rt.first x xs

-- The concept that a question is linked to: the one it names, if that is valid.
unfoldable pub concept_for : Runtime → List Text → Fields → Text
unfolding get_or to_str text
concept_for rt ids fs =
    let named = to_str rt (get_or fs (text "concept_id") (str [])) in
    if member named ids then named else first_id rt ids
