-- ===== src/Env.antt =====
-- Plugins/SpotOn/Bin/fake-libpulse/fake-libpulse.c: the knobs that are read from the environment,
-- and the `strtol` that reads them (C library, base 10, in the "C" locale).
pub mod Bounds
use spoton.Prelude.{
  ℕ, ◌+◌, ◌-◌, ◌*◌, Bool, true, false, not, ◌&&◌, ◌||◌, Option, none, some, List, [], ◌∷◌, ltb, leb,
  ◌==◌, if◌then◌else◌, is_some,
}

-- The environment variables of the shim.
pub data Var : Type 0 where
  write_wait_ms flush_decide_ms hold_gap_ms hold_ms vsink_ms write_orphan_ms : Var
  pcm_fd pcm_path http_port_file fakepulse_trace fakepulse_debug boundary_spike : Var

-- `getenv`: the bytes of a variable that is set.
abbrev pub Environ : Type 0
Environ = Var → Option (List ℕ)

is_space : ℕ → Bool
is_space c = c == 32 || (leb 9 c && leb c 13)

pub is_digit : ℕ → Bool
is_digit c = leb b'0' c && leb c b'9'

skip_space : List ℕ → List ℕ
skip_space [] = []
skip_space (c ∷ cs) = if is_space c then skip_space cs else c ∷ cs

-- The number read and the bytes behind it.
unfoldable pub digits_from : ℕ → List ℕ → ℕ × List ℕ
unfolding is_digit
digits_from acc [] = (acc, [])
digits_from acc (c ∷ cs) =
    if is_digit c then digits_from (acc * 10 + (c - b'0')) cs else (acc, c ∷ cs)

-- What `strtol` gives: a signed value, `*endptr`, and whether `endptr != nptr`. A value out of the
-- range of `long` is LONG_MAX or LONG_MIN in C, and is out of every range tested below all the same.
pub record Parsed : Type 0 where
  pub negative : Bool
  pub magnitude : ℕ
  pub rest : List ℕ
  pub converted : Bool

starts_digit : List ℕ → Bool
unfolding is_digit
starts_digit [] = false
starts_digit (c ∷ _) = is_digit c

number : Bool → List ℕ → List ℕ → Parsed
unfolding starts_digit digits_from
number neg whole s =
    if starts_digit s
    then record {
      negative = neg && not ((digits_from 0 s).0 == 0);
      magnitude = (digits_from 0 s).0;
      rest = (digits_from 0 s).1;
      converted = true;
    }
    else record { negative = false; magnitude = 0; rest = whole; converted = false }

signed : List ℕ → List ℕ → Parsed
unfolding number
signed whole [] = number false whole []
signed whole (c ∷ cs) =
    if c == b'-'
    then number true whole cs
    else if c == b'+'
    then number false whole cs
    else number false whole (c ∷ cs)

unfoldable pub strtol : List ℕ → Parsed
unfolding signed skip_space is_space
strtol s = signed s (skip_space s)

abbrev pub is_empty : List ℕ → Bool
is_empty [] = true
is_empty (_ ∷ _) = false

-- `e && *e`, `end != e && *end == '\0'`: the value of a variable that is one number and no more,
-- if that is not negative.
unfoldable pub whole_number : Option (List ℕ) → Option ℕ
unfolding strtol
whole_number none = none
whole_number (some e) =
    let p = strtol e in
    if not (is_empty e) && p.converted && is_empty p.rest && not p.negative
    then some p.magnitude
    else none

-- `e && *e` alone: what the variable starts with, if that is positive.
leading_number : Option (List ℕ) → Option ℕ
unfolding strtol
leading_number none = none
leading_number (some e) =
    let p = strtol e in
    if not (is_empty e) && not p.negative && ltb 0 p.magnitude then some p.magnitude else none

-- The value if it lies in `lo..hi`, else the compiled default.
within : ℕ → ℕ → ℕ → Option ℕ → ℕ
within lo hi def none = def
within lo hi def (some v) = if leb lo v && leb v hi then v else def

abbrev ring_write_wait_max_ms_default : ℕ
ring_write_wait_max_ms_default = 120_000

abbrev flush_decide_ms_default : ℕ
flush_decide_ms_default = 2000

abbrev flush_decide_ms_max : ℕ
flush_decide_ms_max = 5000

abbrev pub hold_gap_ms_default : ℕ
hold_gap_ms_default = 500

abbrev pub hold_ms_default : ℕ
hold_ms_default = 450

abbrev pub vsink_ms_default : ℕ
vsink_ms_default = 3000

abbrev http_write_orphan_ms : ℕ
http_write_orphan_ms = 180_000

pub write_wait_max_ms : Environ → ℕ
unfolding leading_number within
write_wait_max_ms e =
    within 1 3_599_999 ring_write_wait_max_ms_default (leading_number (e write_wait_ms))

unfoldable pub flush_decide_env_ms : Environ → ℕ
unfolding whole_number within
flush_decide_env_ms e =
    within 0 flush_decide_ms_max flush_decide_ms_default (whole_number (e flush_decide_ms))

unfoldable pub hold_gap_env_ms : Environ → ℕ
unfolding whole_number within
hold_gap_env_ms e = within 0 60_000 hold_gap_ms_default (whole_number (e hold_gap_ms))

unfoldable pub hold_max_env_ms : Environ → ℕ
unfolding whole_number within
hold_max_env_ms e = within 1 5000 hold_ms_default (whole_number (e hold_ms))

-- `_vsink_ms`; `_vsink_ms_src` also names, for a log line, where the value came from.
unfoldable pub vsink_env_ms : Environ → ℕ
unfolding whole_number within
vsink_env_ms e = within 0 20_000 vsink_ms_default (whole_number (e vsink_ms))

pub write_orphan_env_ms : Environ → ℕ
unfolding leading_number within
write_orphan_env_ms e = within 1 3_599_999 http_write_orphan_ms (leading_number (e write_orphan_ms))
