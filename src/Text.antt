-- ===== src/Text.antt =====
-- Python's `str`, as the list of its code points, and the methods of it that the program calls.
pub mod Laws
pub mod Split
pub mod Words
use Prim.Native.Char.{code}
use Prim.Native.String.{String}
use mathlib.Core.List.{reverse}
use study_helper_backend.Prelude.{
  ℕ, zero, suc, ◌-◌, Bool, true, false, ◌&&◌, ◌||◌, List, [], ◌∷◌, ◌++◌, length, is_empty, leb,
  ◌==◌, if◌then◌else◌,
}

abbrev pub Text : Type 0
Text = List ℕ

-- A literal of the source. `String` has its own `[]` and `∷`.
unfoldable pub text : String → Text
text String.[] = []
text (String.◌∷◌ c s) = code c ∷ text s

-- `a == b` on strings.
unfoldable pub text_eq : Text → Text → Bool
text_eq [] [] = true
text_eq [] (_ ∷ _) = false
text_eq (_ ∷ _) [] = false
text_eq (a ∷ s) (b ∷ t) = a == b && text_eq s t

-- `x in xs`, for a list or a set of strings.
unfoldable pub member : Text → List Text → Bool
member x [] = false
member x (y ∷ ys) = text_eq x y || member x ys

-- `str.isspace` of one character: the white space of Unicode, and the four separators 0x1c-0x1f.
unfoldable pub is_space : ℕ → Bool
is_space c =
    leb 9 c && leb c 13
    || (leb 28 c && leb c 32
        || (c == 0x85
            || (c == 0xa0
                || (c == 0x1680
                    || (leb 0x2000 c && leb c 0x200a
                        || (c == 0x2028
                            || (c == 0x2029 || (c == 0x202f || (c == 0x205f || c == 0x3000)))))))))

unfoldable pub strip_left : (ℕ → Bool) → Text → Text
strip_left p [] = []
strip_left p (c ∷ s) = elim (p c) [ true ↦ strip_left p s | false ↦ c ∷ s ]

-- `s.strip(chars)`: from both ends, what the test takes.
unfoldable pub strip_by : (ℕ → Bool) → Text → Text
unfolding strip_left
strip_by p s = reverse (strip_left p (reverse (strip_left p s)))

-- `s.strip()`
unfoldable pub strip : Text → Text
unfolding strip_by is_space
strip s = strip_by is_space s

-- `s.startswith(t)`
unfoldable pub starts_with : Text → Text → Bool
starts_with s [] = true
starts_with [] (_ ∷ _) = false
starts_with (a ∷ s) (b ∷ t) = a == b && starts_with s t

-- `s.endswith(t)`
unfoldable pub ends_with : Text → Text → Bool
unfolding starts_with
ends_with s t = starts_with (reverse s) (reverse t)

-- `t in s`
unfoldable pub contains : Text → Text → Bool
unfolding starts_with
contains [] t = starts_with [] t
contains (c ∷ s) t = starts_with (c ∷ s) t || contains s t

-- The scan of `s.split(t)` at a text `s`: `skip` characters of a separator are still to be passed,
-- and `cur` is the part that is open.
unfoldable pub split_from : Text → ℕ → Text → Text → List Text
unfolding starts_with
split_from t skip cur [] = cur ∷ []
split_from t (suc skip) cur (c ∷ s) = split_from t skip cur s
split_from t zero cur (c ∷ s) =
    let closed = cur ∷ split_from t (length t - 1) [] s in
    let longer = split_from t 0 (cur ++ c ∷ []) s in
    if starts_with (c ∷ s) t then closed else longer

-- `s.split(t)`, for a separator that is not empty.
unfoldable pub split : Text → Text → List Text
unfolding split_from
split t s = split_from t 0 [] s

-- `t.join(parts)`
unfoldable pub join : Text → List Text → Text
join t [] = []
join t (part ∷ []) = part
join t (part ∷ parts) = part ++ (t ++ join t parts)

-- `s.count(t)`: the separators that `split` passes.
unfoldable pub count : Text → Text → ℕ
unfolding split
count t s = length (split t s) - 1

-- `s.replace(t, "")`
unfoldable pub remove : Text → Text → Text
unfolding split join
remove t s = join [] (split t s)

-- The scan of `s.split()`: `cur` is the word that is open.
unfoldable pub word_scan : Text → Text → List Text
word_scan cur [] = if is_empty cur then [] else cur ∷ []
word_scan cur (c ∷ s) =
    let closed = word_scan [] s in
    let longer = word_scan (cur ++ c ∷ []) s in
    if is_space c then (if is_empty cur then closed else cur ∷ closed) else longer

-- `s.split()`: the runs of characters that are no white space.
unfoldable pub words : Text → List Text
unfolding word_scan
words s = word_scan [] s
