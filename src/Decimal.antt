-- ===== src/Decimal.antt =====
-- Plugins/SpotOn/Bin/fake-libpulse/fake-libpulse.c: the decimal numbers that `snprintf` prints.
pub mod Read
use spoton.Prelude.{
  ℕ, zero, suc, ◌+◌, ◌/◌, ◌%◌, Option, none, some, List, [], ◌∷◌, ltb, if◌then◌else◌,
}

-- The digits of `n` in front of `tail`. A number below 10 ^ fuel needs no more fuel.
unfoldable pub decimal_before : ℕ → ℕ → List ℕ → List ℕ
decimal_before zero n tail = tail
decimal_before (suc fuel) n tail =
    let rest = decimal_before fuel (n / 10) ((n % 10 + b'0') ∷ tail) in
    if ltb n 10 then (n + b'0') ∷ tail else rest

-- `%lld` and `%zu` of a value of 64 bits, and of a field whose -1 is a sentinel.
abbrev pub number : ℕ → List ℕ
number n = decimal_before 20 n []

abbrev pub signed_number : Option ℕ → List ℕ
signed_number none = b'-' ∷ b'1' ∷ []
signed_number (some n) = number n
