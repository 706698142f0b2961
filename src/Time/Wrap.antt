-- ===== src/Time/Wrap.antt =====
-- The elapsed time read by `_mono_since` is right also where the `long` clock has wrapped.
use spoton.Prelude.{ℕ, ◌+◌, ◌-◌, ◌*◌, ◌/◌, ◌%◌, ◌≤◌, ◌<◌, ◌≡◌, arith}
use spoton.Time.{Target, armhf, lp64, long_mod, mono_since, Timeval, elapsed_ms}

-- From a reading `now` of the `long` clock, `k` milliseconds later the difference reads `k`, for
-- every `k` below the modulus of the target's `long`, whether or not the clock wrapped meanwhile.
pub mono_since-add :
    (t : Target) (now k : ℕ)
    → now < long_mod t
    → k < long_mod t
    → mono_since t ((now + k) % long_mod t) now ≡ k
unfolding mono_since
mono_since-add armhf now k h p = omega arith
mono_since-add lp64 now k h p = omega arith

-- For readings in order, with proper microseconds, `_elapsed_ms` is the elapsed microseconds
-- divided by 1000, or one more where the microseconds of the second went back.
pub elapsed_ms_bounds :
    (now start : Timeval)
    → now.usec < 1_000_000
    → start.usec < 1_000_000
    → start.sec * 1_000_000 + start.usec ≤ now.sec * 1_000_000 + now.usec
    → let us = now.sec * 1_000_000 + now.usec - (start.sec * 1_000_000 + start.usec) in
      (us / 1000 ≤ elapsed_ms now start) × (elapsed_ms now start ≤ us / 1000 + 1)
unfolding elapsed_ms
elapsed_ms_bounds now start h k le = ground arith
