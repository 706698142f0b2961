-- ===== src/Time.antt =====
-- Plugins/SpotOn/Bin/fake-libpulse/fake-libpulse.c: the clocks. A `long` is its bit pattern, a
-- number below 2 ^ 32 on armhf and below 2 ^ 64 on the 64-bit targets.
pub mod Wrap
use spoton.Prelude.{ℕ, ◌+◌, ◌-◌, ◌*◌, ◌/◌, ◌%◌, ◌^◌, Bool, ◌&&◌, ◌||◌, ltb, leb, if◌then◌else◌}

pub data Target : Type 0 where
  armhf lp64 : Target

-- LONG_MAX + 1.
abbrev pub long_half : Target → ℕ
long_half armhf = 2 ^ 31
long_half lp64 = 2 ^ 63

abbrev pub long_mod : Target → ℕ
long_mod armhf = 2 ^ 32
long_mod lp64 = 2 ^ 64

-- SIZE_MAX + 1.
abbrev pub size_mod : Target → ℕ
size_mod armhf = 2 ^ 32
size_mod lp64 = 2 ^ 64

-- `v > 0` and `v <= k` for a `long` v and a small constant k.
abbrev pub long_pos : Target → ℕ → Bool
long_pos t v = ltb 0 v && ltb v (long_half t)

abbrev pub long_le : Target → ℕ → ℕ → Bool
long_le t v k = leb v k || leb (long_half t) v

-- `struct timeval`.
pub record Timeval : Type 0 where
  pub sec : ℕ
  pub usec : ℕ

-- One reading of the clocks: `gettimeofday`, and `clock_gettime(CLOCK_MONOTONIC)`.
pub record Clock : Type 0 where
  pub wall : Timeval
  pub mono_sec : ℕ
  pub mono_nsec : ℕ

-- `_elapsed_ms`. A negative result, which every caller compares with a positive bound, reads 0.
unfoldable pub elapsed_ms : Timeval → Timeval → ℕ
elapsed_ms now start =
    if leb start.usec now.usec
    then now.sec * 1000 + (now.usec - start.usec) / 1000 - start.sec * 1000
    else now.sec * 1000 - start.sec * 1000 - (start.usec - now.usec) / 1000

-- `_mono_ms`, a `long` that wraps after 24.8 days where it has 32 bits.
unfoldable pub mono_ms : Target → Clock → ℕ
mono_ms t c = (c.mono_sec * 1000 + c.mono_nsec / 1_000_000) % long_mod t

-- `_mono_since`: the difference of two `long`s taken without sign.
unfoldable pub mono_since : Target → ℕ → ℕ → ℕ
mono_since t now t0 = (now + long_mod t - t0) % long_mod t

-- `_hold_now_ms`, in 64 bits.
unfoldable pub hold_now_ms : Clock → ℕ
hold_now_ms c = c.mono_sec * 1000 + c.mono_nsec / 1_000_000

-- `_vsink_now_us`.
unfoldable pub vsink_now_us : Clock → ℕ
vsink_now_us c = c.mono_sec * 1_000_000 + c.mono_nsec / 1000
