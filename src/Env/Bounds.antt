-- ===== src/Env/Bounds.antt =====
-- The knobs stay in their documented ranges whatever the environment holds, and a plain decimal
-- number in range is read as that number.
use spoton.Prelude.{
  ℕ, ◌+◌, ◌-◌, ◌*◌, ◌≤◌, ◌≡◌, refl, true, false, Option, none, some, List, [], ◌∷◌, arith, map,
}
use spoton.Env.{
  Environ, is_digit, digits_from, within, write_wait_max_ms, flush_decide_env_ms, hold_gap_env_ms,
  hold_max_env_ms, vsink_env_ms, write_orphan_env_ms, hold_gap_ms, vsink_ms, vsink_ms_default,
  strtol,
}

within_bounds :
    (lo hi d : ℕ) (o : Option ℕ)
    → lo ≤ d
    → d ≤ hi
    → (lo ≤ within lo hi d o) × (within lo hi d o ≤ hi)
unfolding within
within_bounds lo hi d none h k = (h, k)
within_bounds lo hi d (some v) h k = ground arith

-- Each knob in milliseconds, whatever text the environment holds.
pub record KnobBounds (e : Environ) : Type 0 where
  pub wait : (1 ≤ write_wait_max_ms e) × (write_wait_max_ms e ≤ 3_599_999)
  pub decide : flush_decide_env_ms e ≤ 5000
  pub gap : hold_gap_env_ms e ≤ 60_000
  pub hold : (1 ≤ hold_max_env_ms e) × (hold_max_env_ms e ≤ 5000)
  pub sink : vsink_env_ms e ≤ 20_000
  pub orphan : (1 ≤ write_orphan_env_ms e) × (write_orphan_env_ms e ≤ 3_599_999)

-- Whatever the six variables hold, the write wait and the orphan bound lie in 1..3599999 ms, the
-- decision window in 0..5000, the hold gap in 0..60000, the hold in 1..5000 and the sink in 0..20000.
pub knobs_bounded : (e : Environ) → KnobBounds e
unfolding write_wait_max_ms flush_decide_env_ms hold_gap_env_ms hold_max_env_ms vsink_env_ms
    write_orphan_env_ms
knobs_bounded e = record {
  wait = ground arith;
  decide = ground arith;
  gap = ground arith;
  hold = ground arith;
  sink = ground arith;
  orphan = ground arith;
}

-- The value of a list of digits, most significant first, read behind `acc`.
abbrev value_from : ℕ → List ℕ → ℕ
value_from acc [] = acc
value_from acc (d ∷ ds) = value_from (acc * 10 + d) ds

abbrev AllDigits : List ℕ → Type 0
AllDigits [] = Unit {0}
AllDigits (d ∷ ds) = (d ≤ 9) × AllDigits ds

-- The decimal text of a list of digits.
abbrev pub decimal : List ℕ → List ℕ
decimal = map (λ d. d + b'0')

pub digit : (d : ℕ) → d ≤ 9 → is_digit (d + 48) ≡ true
unfolding is_digit
digit d h = ground arith

-- A text that starts with a digit is read by `strtol` as its leading digits.
pub strtol-digit :
    (d : ℕ) (s : List ℕ)
    → d ≤ 9
    → strtol ((d + 48) ∷ s) ≡ record {
      negative = false;
      magnitude = (digits_from 0 ((d + 48) ∷ s)).0;
      rest = (digits_from 0 ((d + 48) ∷ s)).1;
      converted = true;
    }
unfolding strtol
strtol-digit d s h = ground arith

digits_from-decimal :
    (ds : List ℕ) (acc : ℕ) → AllDigits ds → digits_from acc (decimal ds) ≡ (value_from acc ds, [])
unfolding digits_from
digits_from-decimal [] acc h = refl
digits_from-decimal (d ∷ ds) acc h =
    let e : acc * 10 + (d + 48 - 48) ≡ acc * 10 + d = omega arith in
    rw (digit d h.0, e) (digits_from-decimal ds (acc * 10 + d) h.1)

-- A variable that holds at least one digit and nothing else reads as its decimal value, if that is
-- at most 60000: the hold gap.
pub hold_gap_env_ms-decimal :
    (e : Environ) (d : ℕ) (ds : List ℕ)
    → AllDigits (d ∷ ds)
    → value_from 0 (d ∷ ds) ≤ 60_000
    → e hold_gap_ms ≡ some (decimal (d ∷ ds))
    → hold_gap_env_ms e ≡ value_from 0 (d ∷ ds)
unfolding hold_gap_env_ms
hold_gap_env_ms-decimal e d ds h k q =
    rw (q, strtol-digit d (decimal ds) h.0, digits_from-decimal (d ∷ ds) 0 h) (ground arith)

-- The virtual sink's T likewise, up to 20000, and its default where the variable is not set.
pub vsink_env_ms-decimal :
    (e : Environ) (d : ℕ) (ds : List ℕ)
    → AllDigits (d ∷ ds)
    → value_from 0 (d ∷ ds) ≤ 20_000
    → e vsink_ms ≡ some (decimal (d ∷ ds))
    → vsink_env_ms e ≡ value_from 0 (d ∷ ds)
unfolding vsink_env_ms
vsink_env_ms-decimal e d ds h k q =
    rw (q, strtol-digit d (decimal ds) h.0, digits_from-decimal (d ∷ ds) 0 h) (ground arith)

pub vsink_env_ms-none : (e : Environ) → e vsink_ms ≡ none → vsink_env_ms e ≡ vsink_ms_default
unfolding vsink_env_ms within
vsink_env_ms-none e q = rw q refl
