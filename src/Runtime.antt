-- ===== src/Runtime.antt =====
-- What the program takes from Python's tables and from its sources of chance, as one parameter:
-- the Unicode data behind `str.lower`, `str.upper`, `\w` and `int`, the text of a list, a dict or a
-- float, `json.loads` and `json.dumps`, the draws of `uuid.uuid4`, and the order in which a set is iterated.
pub mod Number
use study_helper_backend.Prelude.{ℕ, ◌≡◌, Bool, true, List, [], ◌∷◌, Option}
use study_helper_backend.Text.{Text, text, member}
use study_helper_backend.Json.{Value}

pub record Runtime : Type 0 where
  pub lower : Text → Text
  pub upper : Text → Text
  -- A character that `\w` matches.
  pub is_word : ℕ → Bool
  -- The value of a decimal digit outside ASCII.
  pub digit : ℕ → Option ℕ
  -- `str(v)`, for a list, a dict or a float.
  pub render : Value → Text
  -- `json.loads`, with `none` for JSONDecodeError.
  pub loads : Text → Option Value
  -- `json.dumps(v, ensure_ascii=False)`, and the same with `indent=2`.
  pub dumps : Value → Text
  pub dumps_indented : Value → Text
  -- The n-th draw of `str(uuid.uuid4())`.
  pub uuid4 : ℕ → Text
  -- The element that comes first when the set of the members of x ∷ xs is iterated.
  pub first : Text → List Text → Text

-- What Python documents of it: an iteration over a set gives the members of the set.
pub record IsSound (rt : Runtime) : Type 0 where
  pub first_member : (x : Text) (xs : List Text) → member (rt.first x xs) (x ∷ xs) ≡ true
