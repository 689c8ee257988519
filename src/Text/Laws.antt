-- ===== src/Text/Laws.antt =====
-- Laws of the tests on texts.
use mathlib.Core.Path.{ap₂}
use study_helper_backend.Prelude.{◌≡◌, refl, ◌↔◌, true, [], ◌∷◌, arith, ==_iff, and-split}
use study_helper_backend.Text.{Text, text_eq}

text_eq_sound : (s t : Text) → text_eq s t ≡ true → s ≡ t
unfolding text_eq
text_eq_sound [] [] h = refl
text_eq_sound [] (_ ∷ _) h = ground arith
text_eq_sound (_ ∷ _) [] h = ground arith
text_eq_sound (a ∷ s) (b ∷ t) h =
    let (here, later) = and-split _ _ h in ap₂ ◌∷◌ ((==_iff a b).0 here) (text_eq_sound s t later)

pub text_eq_refl : (s : Text) → text_eq s s ≡ true
unfolding text_eq
text_eq_refl [] = refl
text_eq_refl (a ∷ s) = ground (arith, text_eq_refl s)

pub text_eq_iff : (s t : Text) → (text_eq s t ≡ true) ↔ (s ≡ t)
text_eq_iff s t = (text_eq_sound s t, λ e. rw e (text_eq_refl t))
