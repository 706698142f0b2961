-- ===== src/Decimal/Read.antt =====
-- A printed number is read back, and is as long as its digits.
use spoton.Prelude.{
  ℕ, zero, suc, ◌+◌, ◌-◌, ◌*◌, ◌/◌, ◌%◌, ◌^◌, ◌≤◌, ◌<◌, ◌≡◌, refl, ap, ◌∙◌, inl, inr, List, ◌∷◌,
  arith, ltb, Bool-cases, length,
}
use spoton.Env.{digits_from}
use spoton.Env.Bounds.{digit}
use spoton.Decimal.{decimal_before}

digits_from-digit :
    (acc d : ℕ) (s : List ℕ)
    → d < 10
    → digits_from acc ((d + 48) ∷ s) ≡ digits_from (acc * 10 + d) s
unfolding digits_from
digits_from-digit acc d s h =
    let e : acc * 10 + (d + 48 - 48) ≡ acc * 10 + d = omega arith in
    rw (digit d (omega arith), e) refl

pub digits_from-decimal_before :
    (f n : ℕ) (s : List ℕ) → n < 10 ^ f → digits_from 0 (decimal_before f n s) ≡ digits_from n s
unfolding decimal_before
digits_from-decimal_before zero n s h = ap (λ k. digits_from k s) (omega arith)
digits_from-decimal_before (suc f) n s h = elim (Bool-cases (ltb n 10)) [
  | inl e ↦ rw e (digits_from-digit 0 n s (ground arith) ∙ ap (λ k. digits_from k s) (omega arith))
  | inr e ↦ rw e (
      digits_from-decimal_before f (n / 10) ((n % 10 + 48) ∷ s) (grind arith)
      ∙ digits_from-digit (n / 10) (n % 10) s (omega arith)
      ∙ ap (λ k. digits_from k s) (omega arith))
]

pub length-decimal_before : (f n : ℕ) (s : List ℕ) → length (decimal_before f n s) ≤ f + length s
unfolding decimal_before
length-decimal_before zero n s = omega arith
length-decimal_before (suc f) n s =
    ground (arith, length-decimal_before f (n / 10) ((n % 10 + 48) ∷ s))
