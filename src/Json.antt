-- ===== src/Json.antt =====
-- The values that `json.loads` gives, as the program tests and takes them apart.
pub mod Laws
use study_helper_backend.Prelude.{
  ℕ, zero, suc, ◌/◌, ◌^◌, Bool, true, false, not, List, [], ◌∷◌, Option, none, some, is_empty, ◌==◌,
  if◌then◌else◌,
}
use study_helper_backend.Prelude.Int.{ℤ, pos, negsuc, neg, abs}
use study_helper_backend.Text.{Text, text_eq}

-- A double: `finite m k` is m / 2 ^ k.
pub data Double : Type 0 where
  finite : ℤ → ℕ → Double
  infinite nan : Double

mutual
  pub data Value : Type 0 where
    null : Value
    bool : Bool → Value
    int : ℤ → Value
    float : Double → Value
    str : Text → Value
    list : Items → Value
    dict : Fields → Value

  pub data Items : Type 0 where
    nil : Items
    cons : Value → Items → Items

  pub data Fields : Type 0 where
    end : Fields
    field : Text → Value → Fields → Fields

abbrev pub to_list : Items → List Value
to_list nil = []
to_list (cons v vs) = v ∷ to_list vs

abbrev pub from_list : List Value → Items
from_list [] = nil
from_list (v ∷ vs) = cons v (from_list vs)

-- `d.get(key)`, with `none` for a key that is not there.
unfoldable pub get : Fields → Text → Option Value
get end key = none
get (field k v fs) key = if text_eq k key then some v else get fs key

-- `d.get(key, default)`
unfoldable pub get_or : Fields → Text → Value → Value
unfolding get
get_or fs key default = elim (get fs key) [ none ↦ default | some v ↦ v ]

-- `d[key] = value`: in place, or at the end.
unfoldable pub set : Fields → Text → Value → Fields
set end key value = field key value end
set (field k v fs) key value =
    if text_eq k key then field k value fs else field k v (set fs key value)

-- `bool(v)`
unfoldable pub truthy : Value → Bool
truthy null = false
truthy (bool b) = b
truthy (int n) = not (abs n == 0)
truthy (float (finite m k)) = not (abs m == 0)
truthy (float infinite) = true
truthy (float nan) = true
truthy (str s) = not (is_empty s)
truthy (list nil) = false
truthy (list (cons v vs)) = true
truthy (dict end) = false
truthy (dict (field k v fs)) = true

-- `int(x)` of a finite double: the part before the point.
unfoldable pub truncate : ℤ → ℕ → ℤ
truncate (pos m) k = pos (m / 2 ^ k)
truncate (negsuc m) k = neg (suc m / 2 ^ k)
