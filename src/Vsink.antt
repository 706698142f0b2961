-- ===== src/Vsink.antt =====
-- Plugins/SpotOn/Bin/fake-libpulse/fake-libpulse.c: the virtual sink, which answers the daemon as a
-- sink that is `t_ms` milliseconds deep. Its sites run under the ring's lock.
pub mod Drain
pub mod Account
use spoton.Prelude.{
  ℕ, ◌+◌, ◌-◌, ◌*◌, ◌/◌, ◌%◌, min, Bool, true, false, ◌&&◌, ltb, leb, ◌==◌, if◌then◌else◌,
}
use spoton.Ring.{ring_bytes_per_sec}

-- `vsink_t`.
pub record Vsink : Type 0 where
  pub q_out : ℕ
  pub frac : ℕ
  pub last_us : ℕ
  pub running : Bool
  pub t_ms : ℕ
  pub suppressed : ℕ

-- The zeroed static `g_vsink`.
abbrev pub vsink_start : Vsink
vsink_start = record { q_out = 0; frac = 0; last_us = 0; running = false; t_ms = 0; suppressed = 0 }

-- What the sink has played by `now`, in byte-microseconds, with the remainder carried in.
abbrev pub drained : ℕ → Vsink → ℕ
drained now v = min (now - v.last_us) 100_000_000 * ring_bytes_per_sec + v.frac

-- `_vsink_settle_locked` at the time `now`.
unfoldable pub vsink_settle : ℕ → Vsink → Vsink
vsink_settle now v =
    if v.running && (ltb 0 v.last_us && (ltb v.last_us now && ltb 0 v.q_out))
    then if leb v.q_out (drained now v / 1_000_000)
      then record v { q_out = 0; frac = 0; last_us = now }
      else record v {
        q_out = v.q_out - drained now v / 1_000_000;
        frac = drained now v % 1_000_000;
        last_us = now;
      }
    else record v { frac = if v.q_out == 0 then 0 else v.frac; last_us = now }

-- `_vsink_sync_locked`: the T in force, then the settling.
unfoldable pub vsink_sync : ℕ → ℕ → Vsink → Vsink
unfolding vsink_settle
vsink_sync now t_ms v =
    let v' =
      if t_ms == v.t_ms then v else record v { t_ms = t_ms; q_out = 0; frac = 0; last_us = 0 } in
    if ltb 0 t_ms then vsink_settle now v' else v'

-- `_vsink_reset_locked`.
unfoldable pub vsink_reset : ℕ → Vsink → Vsink
vsink_reset now v = record v { q_out = 0; frac = 0; last_us = if ltb 0 v.t_ms then now else 0 }

-- `_vsink_set_running_locked`.
unfoldable pub vsink_set_running : ℕ → Bool → Vsink → Vsink
vsink_set_running now running v = record v {
  running = running;
  last_us = if ltb 0 v.t_ms then now else 0;
}
