-- ===== src/Json/Laws.antt =====
-- Laws of `get` and `set` on a dict.
use study_helper_backend.Prelude.{◌≡◌, refl, false, some, arith, if◌then◌else◌}
use study_helper_backend.Text.{Text, text_eq}
use study_helper_backend.Text.Laws.{text_eq_iff}
use study_helper_backend.Json.{Value, Fields, end, field, get, get_or, set}

pub get-set :
    (fs : Fields) (k j : Text) (v : Value)
    → get (set fs k v) j ≡ (if text_eq k j then some v else get fs j)
unfolding get set
get-set end k j v = refl
get-set (field i w fs) k j v =
    ground (arith, get-set fs k j v, text_eq_iff i k, text_eq_iff i j, text_eq_iff k j)

pub get_or-set_ne :
    (fs : Fields) (k j : Text) (v w : Value)
    → text_eq k j ≡ false
    → get_or (set fs k v) j w ≡ get_or fs j w
unfolding get_or
get_or-set_ne fs k j v w h = ground (arith, get-set fs k j v)
