-- ===== src/Runtime/Number/Decimal.antt =====
-- The decimal digits of a number, read again.
use study_helper_backend.Prelude.{
  ℕ, zero, suc, ◌+◌, ◌*◌, ◌/◌, ◌%◌, ◌<◌, ◌≤◌, ◌≡◌, refl, ap, ◌∙◌, Bool, true, false, [], ◌∷◌, ◌++◌,
  some, length, length-append, ltb, arith, Bool-cases, inl, inr,
}
use study_helper_backend.Text.{Text}
use study_helper_backend.Runtime.{Runtime}
use study_helper_backend.Runtime.Number.{digits, decimal, digit_value, parse_digits, max_str_digits}

append_assoc : (xs ys zs : Text) → (xs ++ ys) ++ zs ≡ xs ++ (ys ++ zs)
append_assoc [] ys zs = refl
append_assoc (x ∷ xs) ys zs = ap (λ w. x ∷ w) (append_assoc xs ys zs)

append_nil : (xs : Text) → xs ≡ xs ++ []
append_nil [] = refl
append_nil (x ∷ xs) = ap (λ w. x ∷ w) (append_nil xs)

module _ (rt : Runtime) where
  digit_value_lem : (d : ℕ) → d < 10 → digit_value rt (48 + d) ≡ some d
  unfolding digit_value
  digit_value_lem d h = ground arith

  parse_digits-digit :
      (acc d seen : ℕ) (after : Bool) (s : Text)
      → d < 10
      → parse_digits rt acc after seen ((48 + d) ∷ s)
        ≡ parse_digits rt (acc * 10 + d) true (suc seen) s
  unfolding parse_digits
  parse_digits-digit acc d seen after s h = rw (digit_value_lem d h, parse_digits) refl

  ltb_lem : (n : ℕ) → ltb n 10 ≡ true → n < 10
  ltb_lem n h = ground arith

  same_digits :
      (acc acc' seen seen' : ℕ) (s : Text)
      → acc ≡ acc'
      → seen ≡ seen'
      → parse_digits rt acc true seen s ≡ parse_digits rt acc' true seen' s
  same_digits acc acc' seen seen' s e e' = cc (e, e')

  large_lem : (n : ℕ) → ltb n 10 ≡ false → 10 ≤ n
  large_lem n h = ground arith

  parse_digits-digits :
      (fuel n seen : ℕ) (after : Bool) (s : Text)
      → n < fuel
      → parse_digits rt 0 after seen (digits fuel n ++ s)
        ≡ parse_digits rt n true (seen + length (digits fuel n)) s
  unfolding digits
  parse_digits-digits zero n seen after s h = absurd (omega (arith, h))
  parse_digits-digits (suc fuel) n seen after s h = elim (Bool-cases (ltb n 10)) [
    | inl small ↦
        rw (small, digits)
          (parse_digits-digit 0 n seen after s (ltb_lem n small)
            ∙ same_digits _ _ _ _ s (omega arith) (omega arith))
    | inr large ↦
        rw (large, digits)
          (rw
            (
              append_assoc (digits fuel (n / 10)) ((48 + n % 10) ∷ []) s,
              length-append (digits fuel (n / 10)) ((48 + n % 10) ∷ []),
            )
            (parse_digits-digits fuel (n / 10) seen after ((48 + n % 10) ∷ s)
                (omega (arith, h, large_lem n large))
              ∙ parse_digits-digit (n / 10) (n % 10) (seen + length (digits fuel (n / 10))) true s
                  (omega arith)
              ∙ same_digits _ _ _ _ s (omega arith) (omega arith)))
  ]

  parse_digits-end :
      (acc seen : ℕ) → seen ≤ max_str_digits → parse_digits rt acc true seen [] ≡ some acc
  unfolding parse_digits
  parse_digits-end acc seen h = ground arith

  -- A number of at most 4300 digits is read from its digits again: `int(str(n))` is n.
  pub parse_digits-decimal :
      (n : ℕ) → length (decimal n) ≤ max_str_digits → parse_digits rt 0 false 0 (decimal n) ≡ some n
  unfolding decimal
  parse_digits-decimal n h =
      ap (λ t. parse_digits rt 0 false 0 t) (append_nil (digits (suc n) n))
      ∙ parse_digits-digits (suc n) n 0 false [] (omega arith)
      ∙ parse_digits-end n _ (omega (arith, h))
