-- ===== src/Stream/Usec/Exact.antt =====
-- Where no rounding happens in `pa_usec_to_bytes`.
use spoton.Prelude.{
  ℕ, zero, suc, ◌+◌, ◌-◌, ◌*◌, ◌/◌, ◌^◌, ◌≤◌, ◌<◌, ◌≡◌, refl, ap, ap₂, ◌∙◌, true, false, some, none,
  if◌then◌else◌, arith, ltb, le→leb, ◌==◌,
}
use native.Mathlib.Nat.{
  two-pow-succ, mul-mod_left, mul-div_cancel, mul_right_comm, one-le-pow, add-suc, mul-pos,
  mul-mul-mul_comm, pow-le-pow_right,
}
use mathlib.Core.Path.{subst}
use spoton.Time.{Target, size_mod}
use native.Mathlib.Numerals.{unary_clauses}
use spoton.Stream.Usec.{
  to_size, Ratio, log2, nearest_even, round_to, from_ℕ, times, over, SampleSpec, usec_to_bytes,
}

-- The fraction is the whole number `n`.
record Is (n : ℕ) (x : Ratio) : Type 0 where
  whole : x.num ≡ n * x.den
  pos : 0 < x.den

log2_le : (fuel m k : ℕ) → m < 2 ^ suc k → log2 fuel m ≤ k
unfolding log2
log2_le zero m k h = omega arith
log2_le (suc f) m zero h = ground arith
log2_le (suc f) m (suc k) h =
    let half : m / 2 < 2 ^ suc k = omega (arith, two-pow-succ (suc k)) in
    ground (arith, log2_le f (m / 2) k half)

under : (a b : ℕ) → a < b → ltb a b ≡ true
under a b h = ground arith

nearest_even-exact : (q b : ℕ) → 0 < b → nearest_even (q * b) b ≡ q
unfolding nearest_even
nearest_even-exact q b h = rw (mul-mod_left q b, mul-div_cancel q h, under 0 b h) refl

pow_pos : (k : ℕ) → 0 < 2 ^ k
pow_pos k = one-le-pow k 2 (omega arith)

pow-two_add : (p k : ℕ) → 2 ^ (p + k) ≡ 2 ^ p * 2 ^ k
pow-two_add p zero = simp unary_clauses (omega arith)
pow-two_add p (suc k) =
    ap (λ n. 2 ^ n) (add-suc p k)
    ∙ rw (two-pow-succ (p + k), two-pow-succ k, pow-two_add p k) (omega arith)

suc_add : (p : ℕ) → suc (p + 127) ≡ p + 128
suc_add p = omega arith

-- A whole number below 2 ^ p is rounded to itself.
round_to-Is : (p n : ℕ) (x : Ratio) → n < 2 ^ p → Is n x → Is n (round_to p x)
unfolding round_to
round_to-Is p n x h v =
    let high = log2 512 (x.num * 2 ^ 128 / x.den) in
    let scaled : x.num * 2 ^ 128 / x.den ≡ n * 2 ^ 128 =
      ap (λ m. m * 2 ^ 128 / x.den) v.whole
      ∙ ap (λ m. m / x.den) (mul_right_comm n x.den (2 ^ 128))
      ∙ mul-div_cancel (n * 2 ^ 128) v.pos in
    let below : high ≤ p + 127 =
      log2_le 512 _ (p + 127)
        (omega (arith, scaled, h, pow-two_add p 128, ap (λ k. 2 ^ k) (suc_add p))) in
    let up = 2 ^ (p + 127 - high) in
    rw (le→leb high (p + 127) below) (record {
      whole =
          ap (λ m. nearest_even m x.den) (ap (λ m. m * up) v.whole ∙ mul_right_comm n x.den up)
          ∙ nearest_even-exact (n * up) x.den v.pos;
      pos = pow_pos (p + 127 - high);
    })

from_ℕ-Is : (p n : ℕ) → n < 2 ^ p → Is n (from_ℕ p n)
from_ℕ-Is p n h = round_to-Is p n _ h (record { whole = omega arith; pos = omega arith })

times-Is :
    (p : ℕ) {m n : ℕ} {x y : Ratio} → m * n < 2 ^ p → Is m x → Is n y → Is (m * n) (times p x y)
times-Is p {m} {n} {x} {y} h v w = round_to-Is p (m * n) _ h (record {
  whole = ap₂ ◌*◌ v.whole w.whole ∙ mul-mul-mul_comm m x.den n y.den;
  pos = mul-pos v.pos w.pos;
})

over-Is : (p : ℕ) {m : ℕ} {x : Ratio} (d : ℕ) → 0 < d → m < 2 ^ p → Is (m * d) x → Is m (over p x d)
over-Is p {m} {x} d k h v =
    round_to-Is p m _ h (record { whole = v.whole ∙ omega arith; pos = mul-pos v.pos k })

floor-Is : {n : ℕ} {x : Ratio} → Is n x → x.num / x.den ≡ n
floor-Is {n} {x} v = ap (λ m. m / x.den) v.whole ∙ mul-div_cancel n v.pos

to_size-Is :
    {n : ℕ} {x : Ratio} (target : Target) → Is n x → n < size_mod target → to_size target x ≡ some n
to_size-Is {n} {x} target v h =
    ap (λ m. if ltb m (size_mod target) then some m else none) (floor-Is v)
    ∙ rw (under n (size_mod target) h) refl

le_mul : (t r : ℕ) → 0 < r → t ≤ t * r
le_mul t zero h = elim h [ ]
le_mul t (suc r) h = omega arith

is_zero : (r : ℕ) → 0 < r → (r == 0) ≡ false
is_zero r h = ground arith

-- A time at which a whole number of frames has been played is converted to exactly their bytes, on
-- a target whose `long double` has at least 53 bits, where the frame-microseconds and the bytes are below
-- 2 ^ p, and the bytes are a `size_t` of the target: no rounding happens, and the cast is defined.
pub usec_to_bytes-frames :
    (target : Target) (p t frames : ℕ) (spec : SampleSpec)
    → 53 ≤ p
    → 0 < spec.rate
    → spec.rate < 2 ^ 32
    → spec.channels < 2 ^ 8
    → t * spec.rate ≡ frames * 1_000_000
    → t * spec.rate < 2 ^ p
    → frames * (spec.channels * 4) < 2 ^ p
    → frames * (spec.channels * 4) < size_mod target
    → usec_to_bytes target p t (some spec) ≡ some (frames * (spec.channels * 4))
unfolding usec_to_bytes
usec_to_bytes-frames target p t frames spec pr r rb cb e c f size =
    let big : 2 ^ 53 ≤ 2 ^ p = pow-le-pow_right {n = 2} (omega arith) pr in
    let t_small : t < 2 ^ p = omega (arith, le_mul t spec.rate r, c) in
    let product =
      times-Is p c (from_ℕ-Is p t t_small) (from_ℕ-Is p spec.rate (omega (arith, big))) in
    let quotient =
      over-Is p {m = frames} 1_000_000 (omega arith) (omega (arith, c, e))
        (subst (λ n. Is n (times p (from_ℕ p t) (from_ℕ p spec.rate))) e product) in
    let bytes = times-Is p f quotient (from_ℕ-Is p (spec.channels * 4) (omega (arith, big))) in
    rw (is_zero spec.rate r) (to_size-Is target bytes size)
