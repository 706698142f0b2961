-- ===== src/Vsink/Drain.antt =====
-- The virtual sink drains at the byte rate of the stream, with no loss from rounding.
use spoton.Prelude.{ℕ, ◌+◌, ◌-◌, ◌*◌, ◌≤◌, ◌<◌, ◌≡◌, ◌⊎◌, true, false, arith}
use spoton.Ring.{ring_bytes_per_sec}
use spoton.Vsink.{Vsink, vsink_settle}

-- Between two readings at most 100 s apart a running sink plays exactly `ring_bytes_per_sec` a
-- second: either it is empty, and held no more than was played, or what it still holds, in
-- byte-microseconds, has fallen by just the time times the rate.
pub settle_exact :
    (now : ℕ) (v : Vsink)
    → v.running ≡ true
    → 0 < v.last_us
    → v.last_us ≤ now
    → now ≤ v.last_us + 100_000_000
    → v.frac < 1_000_000
    → let v' = vsink_settle now v in
      let played = (now - v.last_us) * ring_bytes_per_sec in
      (v'.frac < 1_000_000)
      × (((v'.q_out ≡ 0) × (v.q_out * 1_000_000 ≤ played + v.frac))
          ⊎ (v'.q_out * 1_000_000 + played + v.frac ≡ v.q_out * 1_000_000 + v'.frac))
unfolding vsink_settle
settle_exact now v run pos ord cap fr = ground arith

-- Settling on the way changes nothing: two settlings end where the later one alone does.
pub settle-settle :
    (mid now : ℕ) (v : Vsink)
    → 0 < v.last_us
    → v.last_us ≤ mid
    → mid ≤ now
    → now ≤ v.last_us + 100_000_000
    → v.frac < 1_000_000
    → vsink_settle now (vsink_settle mid v) ≡ vsink_settle now v
unfolding vsink_settle
settle-settle mid now v pos a b cap fr = ground arith

-- A sink that does not run keeps what it holds, however long.
settle-corked : (now : ℕ) (v : Vsink) → v.running ≡ false → (vsink_settle now v).q_out ≡ v.q_out
unfolding vsink_settle
settle-corked now v h = ground arith
