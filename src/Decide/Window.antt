-- ===== src/Decide/Window.antt =====
-- The decision window is open for just its length, also where the `long` clock wraps within it.
use spoton.Prelude.{ℕ, ◌+◌, ◌-◌, ◌%◌, ◌^◌, ◌≤◌, ◌<◌, ◌≡◌, ◌≢◌, true, arith, ltb}
use spoton.Time.{Target, armhf, lp64, long_mod}
use spoton.Decide.{decide_start, flush_decide_open}

-- A window of `ms` milliseconds, at most 5000, opened at any reading of the `long` clock: read `k`
-- milliseconds later, k other than ms and below 2 ^ 31 - 5000, it is open exactly if k < ms.
pub window_length :
    (t : Target) (now ms k : ℕ)
    → now < long_mod t
    → 0 < ms
    → ms ≤ 5000
    → k < 2 ^ 31 - 5000
    → k ≢ ms
    → flush_decide_open t ((now + k) % long_mod t) true (decide_start t now ms) ≡ ltb k ms
unfolding decide_start flush_decide_open
window_length armhf now ms k h p q r ne = ground arith
window_length lp64 now ms k h p q r ne = ground arith
