-- ===== src/Runtime/Number.antt =====
-- `int(x)` and `str(x)`, on the values that JSON has.
pub mod Decimal
use study_helper_backend.Prelude.{
  ℕ, zero, suc, ◌+◌, ◌-◌, ◌*◌, ◌/◌, ◌%◌, Bool, true, false, ◌&&◌, ◌||◌, not, List, [], ◌∷◌, ◌++◌,
  Option, none, some, all, any, length, leb, ltb, ◌==◌, if◌then◌else◌,
}
use study_helper_backend.Prelude.Int.{ℤ, pos, negsuc, neg}
use study_helper_backend.Text.{Text, text, is_space, strip_by}
use study_helper_backend.Outcome.{Result, ok, err, crash, type_error, value_error, overflow_error}
use study_helper_backend.Json.{
  Value, null, bool, int, float, str, list, dict, finite, infinite, nan, truncate,
}
use study_helper_backend.Runtime.{Runtime}

-- The decimal digits of a number, with fuel above it.
unfoldable pub digits : ℕ → ℕ → Text
digits zero n = []
digits (suc fuel) n =
    let more = digits fuel (n / 10) ++ (48 + n % 10) ∷ [] in
    if ltb n 10 then (48 + n) ∷ [] else more

-- `str(n)`
unfoldable pub decimal : ℕ → Text
unfolding digits
decimal n = digits (suc n) n

-- The white space that `int` passes over: only the ASCII one in a text that is ASCII.
int_space : Text → ℕ → Bool
unfolding is_space
int_space s c = if all (λ (d : ℕ). ltb d 128) s then leb 9 c && leb c 13 || c == 32 else is_space c

-- Python refuses a text of more digits than this.
abbrev pub max_str_digits : ℕ
max_str_digits = 4300

module _ (rt : Runtime) where
  unfoldable pub digit_value : ℕ → Option ℕ
  digit_value c =
      if leb 48 c && leb c 57 then some (c - 48) else if ltb c 128 then none else rt.digit c

  -- Digits, with single underscores between them. `after` says that a digit stands before.
  pub parse_digits : ℕ → Bool → ℕ → Text → Option ℕ
  unfolding digit_value
  parse_digits acc after seen [] = if after && leb seen max_str_digits then some acc else none
  parse_digits acc after seen (c ∷ s) = elim (digit_value c) [
    | some d ↦ parse_digits (acc * 10 + d) true (suc seen) s
    | none ↦ elim (c == 95 && after) [ true ↦ parse_digits acc false seen s | false ↦ none ]
  ]

  parse_signed : Text → Option ℤ
  unfolding parse_digits
  parse_signed [] = none
  parse_signed (c ∷ s) =
      if c == 45
      then elim (parse_digits 0 false 0 s) [ none ↦ none | some n ↦ some (neg n) ]
      else elim (parse_digits 0 false 0 (if c == 43 then s else c ∷ s)) [
        | none ↦ none
        | some n ↦ some (pos n)
      ]

  -- `int(v)`
  unfoldable pub to_int : Value → Result ℤ
  unfolding parse_signed int_space strip_by
  to_int null = err (crash type_error)
  to_int (bool true) = ok (pos 1)
  to_int (bool false) = ok (pos 0)
  to_int (int n) = ok n
  to_int (float (finite m k)) = ok (truncate m k)
  to_int (float infinite) = err (crash overflow_error)
  to_int (float nan) = err (crash value_error)
  to_int (str s) = elim (parse_signed (strip_by (int_space s) s)) [
    | none ↦ err (crash value_error)
    | some n ↦ ok n
  ]
  to_int (list vs) = err (crash type_error)
  to_int (dict fs) = err (crash type_error)

  -- `str(v)`
  unfoldable pub to_str : Value → Text
  unfolding decimal text
  to_str null = text "None"
  to_str (bool true) = text "True"
  to_str (bool false) = text "False"
  to_str (int (pos n)) = decimal n
  to_str (int (negsuc n)) = 45 ∷ decimal (suc n)
  to_str (float d) = rt.render (float d)
  to_str (str s) = s
  to_str (list vs) = rt.render (list vs)
  to_str (dict fs) = rt.render (dict fs)
