-- ===== src/Canon/Encode/Digits.antt =====
-- encodeInt in canon/canon.go: the decimal text of a number, and what the parser reads in it.
use onym_audit.Prelude.{
  ℕ, zero, suc, ◌+◌, ◌-◌, ◌*◌, ◌/◌, ◌%◌, ◌<◌, ◌≤◌, ◌≡◌, refl, ap, ◌∙◌, Bool, true, false, not, [],
  ◌∷◌, arith, ltb, ◌==◌, all, is_nil, Bytes, Bool-cases, inl, inr,
}
use onym_audit.Canon.Value.{decimal, leading_zero, is_digit, IsNumber, max_safe_integer}
use onym_audit.Canon.Encode.{format_from, format_uint}

-- The first number with more digits than the fuel allows.
abbrev tens : ℕ → ℕ
tens zero = 1
tens (suc f) = 10 * tens f

small : (n : ℕ) → n < 1 → n ≡ 0
small n h = omega arith

digit-back : (n : ℕ) → n / 10 * 10 + (b'0' + n % 10 - b'0') ≡ n
digit-back n = omega arith

decimal-format_from :
    (f n : ℕ) (out : Bytes) → n < tens f → decimal 0 (format_from f n out) ≡ decimal n out
unfolding format_from
decimal-format_from zero n out h = rw (small n h) refl
decimal-format_from (suc f) n out h = elim (Bool-cases (ltb n 10)) [
  | inl p ↦ rw p (unfold decimal in ap (λ (x : ℕ). decimal x out) (omega arith))
  | inr p ↦ rw p (
      decimal-format_from f (n / 10) ((b'0' + n % 10) ∷ out) (omega arith)
      ∙ (unfold decimal in ap (λ (x : ℕ). decimal x out) (digit-back n)))
]

format_from-digits :
    (f n : ℕ) (out : Bytes)
    → n < tens f
    → all is_digit out ≡ true
    → all is_digit (format_from f n out) ≡ true
unfolding format_from
format_from-digits zero n out h d = d
format_from-digits (suc f) n out h d = elim (Bool-cases (ltb n 10)) [
  | inl p ↦ rw p (ground arith)
  | inr p ↦
      rw p (format_from-digits f (n / 10) ((b'0' + n % 10) ∷ out) (omega arith) (ground arith))
]

-- A number that is not 0 starts with a digit that is not 0.
abbrev starts_well : Bytes → Bool
starts_well [] = false
starts_well (c ∷ s) = not (c == b'0')

format_from-start :
    (f n : ℕ) (out : Bytes) → 0 < n → n < tens f → starts_well (format_from f n out) ≡ true
unfolding format_from
format_from-start zero n out z h = absurd (omega arith)
format_from-start (suc f) n out z h = elim (Bool-cases (ltb n 10)) [
  | inl p ↦ rw p (ground arith)
  | inr p ↦ rw p (format_from-start f (n / 10) ((b'0' + n % 10) ∷ out) (ground arith) (omega arith))
]

well-started : (s : Bytes) → starts_well s ≡ true → (is_nil s ≡ false) × (leading_zero s ≡ false)
unfolding leading_zero
well-started [] h = cc
well-started (c ∷ s) h = ground arith

pub decimal-format_uint : (n : ℕ) → n ≤ max_safe_integer → decimal 0 (format_uint n) ≡ n
unfolding format_uint
decimal-format_uint n h = decimal-format_from 20 n [] (omega arith) ∙ (unfold decimal in refl)

-- The text that the encoder writes for a number up to 2^53 - 1 is in the one form that the parser
-- accepts, and stands for the number.
pub format_uint-IsNumber : (n : ℕ) → n ≤ max_safe_integer → IsNumber (format_uint n)
format_uint-IsNumber zero h = record {
  digits = unfold format_uint format_from in refl;
  not_empty = unfold format_uint format_from in refl;
  no_leading_zero = unfold format_uint format_from leading_zero in refl;
  in_range = omega (arith, decimal-format_uint 0 h);
}
format_uint-IsNumber (suc n) h =
    let started =
      well-started (format_uint (suc n))
        (unfold format_uint in format_from-start 20 (suc n) [] (omega arith) (omega arith)) in
    record {
      digits = unfold format_uint in format_from-digits 20 (suc n) [] (omega arith) refl;
      not_empty = started.0;
      no_leading_zero = started.1;
      in_range = omega (arith, decimal-format_uint (suc n) h);
    }
