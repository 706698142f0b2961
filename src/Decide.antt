-- ===== src/Decide.antt =====
-- Plugins/SpotOn/Bin/fake-libpulse/fake-libpulse.c: the decision window of an unarmed flush.
pub mod Window
use spoton.Prelude.{ℕ, ◌+◌, ◌-◌, ◌%◌, Bool, true, false, ◌&&◌, not, ◌==◌, if◌then◌else◌}
use spoton.Time.{Target, long_mod, long_pos, mono_since}

-- `g_flush_decide_deadline`, `_t0` and `_promoted`. A deadline of 0 is no window.
pub record Decide : Type 0 where
  pub deadline : ℕ
  pub t0 : ℕ
  pub promoted : Bool

-- `_flush_decide_clear`.
abbrev pub no_decide : Decide
no_decide = record { deadline = 0; t0 = 0; promoted = false }

-- A time of the `long` clock that is stored where 0 means none.
abbrev pub nonzero : ℕ → ℕ
nonzero v = if v == 0 then 1 else v

-- The window that `pa_stream_flush` opens at `now` for `ms` > 0 milliseconds.
pub decide_start : Target → ℕ → ℕ → Decide
decide_start t now ms = record {
  deadline = nonzero ((now + ms) % long_mod t);
  t0 = nonzero now;
  promoted = false;
}

-- `_flush_decide_open` at the time `now`.
unfoldable pub flush_decide_open : Target → ℕ → Bool → Decide → Bool
flush_decide_open t now flush_disconnect d =
    flush_disconnect
    && (not (d.deadline == 0) && long_pos t ((d.deadline + long_mod t - now) % long_mod t))

-- The end of the window by `POST /boundary`.
abbrev pub promote : Decide → Decide
promote d = record d { promoted = true; deadline = 0 }
