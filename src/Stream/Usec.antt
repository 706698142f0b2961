-- ===== src/Stream/Usec.antt =====
-- Plugins/SpotOn/Bin/fake-libpulse/fake-libpulse.c: `pa_usec_to_bytes`, and the `long double` that it
-- computes with: a dyadic number with a significand of `p` bits, 64 on x86, 53 or 113 elsewhere, each
-- operation rounded to the nearest, ties to even. Its exponents do not run out at these sizes.
pub mod Exact
use spoton.Prelude.{
  ℕ, zero, suc, ◌+◌, ◌-◌, ◌*◌, ◌/◌, ◌%◌, ◌^◌, Bool, true, false, ◌||◌, Option, none, some, ltb, leb,
  ◌==◌, if◌then◌else◌,
}
use spoton.Time.{Target, size_mod}

-- A nonnegative fraction.
pub record Ratio : Type 0 where
  pub num : ℕ
  pub den : ℕ

-- The exponent of the highest bit, for a number below 2 ^ fuel.
unfoldable pub log2 : ℕ → ℕ → ℕ
log2 zero n = 0
log2 (suc fuel) n = let rest = log2 fuel (n / 2) in if ltb n 2 then 0 else rest + 1

unfoldable pub nearest_even : ℕ → ℕ → ℕ
nearest_even a b =
    let q = a / b in
    let r = a % b in if ltb (2 * r) b then q else if ltb b (2 * r) then q + 1 else q + q % 2

-- The fraction rounded to `p` bits, for one in 2 ^ -128 .. 2 ^ 384: its highest bit stands at
-- `high` - 128.
unfoldable pub round_to : ℕ → Ratio → Ratio
unfolding log2 nearest_even
round_to p x =
    let high = log2 512 (x.num * 2 ^ 128 / x.den) in
    let up = 2 ^ (p + 127 - high) in
    let down = 2 ^ (high - (p + 127)) in
    if leb high (p + 127)
    then record { num = nearest_even (x.num * up) x.den; den = up }
    else record { num = nearest_even x.num (x.den * down) * down; den = 1 }

abbrev pub from_ℕ : ℕ → ℕ → Ratio
from_ℕ p n = round_to p (record { num = n; den = 1 })

abbrev pub times : ℕ → Ratio → Ratio → Ratio
times p x y = round_to p (record { num = x.num * y.num; den = x.den * y.den })

abbrev pub over : ℕ → Ratio → ℕ → Ratio
over p x n = round_to p (record { num = x.num; den = x.den * n })

-- `pa_sample_spec` less its format, which is not looked at.
pub record SampleSpec : Type 0 where
  pub rate : ℕ
  pub channels : ℕ

-- `(size_t)` of a `long double`: none where the whole part is not a `size_t`, since C leaves the
-- conversion undefined there.
abbrev pub to_size : Target → Ratio → Option ℕ
to_size target x = if ltb (x.num / x.den) (size_mod target) then some (x.num / x.den) else none

-- `pa_usec_to_bytes`, on a target whose `long double` has `p` bits.
unfoldable pub usec_to_bytes : Target → ℕ → ℕ → Option SampleSpec → Option ℕ
unfolding round_to
usec_to_bytes target p t none = some 0
usec_to_bytes target p t (some spec) =
    let bytes =
      times p (over p (times p (from_ℕ p t) (from_ℕ p spec.rate)) 1_000_000)
        (from_ℕ p (spec.channels * 4)) in
    if spec.rate == 0 then some 0 else to_size target bytes
