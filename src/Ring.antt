-- ===== src/Ring.antt =====
-- Plugins/SpotOn/Bin/fake-libpulse/fake-libpulse.c: `ring_buffer_t`, its start, and the release of
-- the gap hold. The children hold its other operations, and what is proved of them.
pub mod Push
pub mod Pop
pub mod Valid
pub mod Fifo
pub mod Queue
pub mod Writer
pub mod Fits
pub mod Losses
pub mod History
pub mod Hold
pub mod View
use spoton.Prelude.{
  ℕ, ◌+◌, ◌-◌, ◌*◌, ◌^◌, ◌%◌, Bool, true, false, Option, none, some, leb, if◌then◌else◌, Memory,
}
use spoton.Time.{Clock, hold_now_ms}
use spoton.Env.{hold_gap_ms_default, hold_ms_default}

-- 44100 Hz, 2 channels, 4 bytes.
abbrev pub ring_bytes_per_sec : ℕ
ring_bytes_per_sec = 44100 * 4 * 2

abbrev pub ring_capacity : ℕ
ring_capacity = ring_bytes_per_sec * 20

-- What `hold_last_release` names.
pub data Reason : Type 0 where
  unset flush boundary plain release timeout takeover attach disconnect departure : Reason

-- `ring_buffer_t`. Positions, byte counts and 64-bit times are natural numbers (2 ^ 63 bytes are
-- 800,000 years of audio), and a -1 in `last_empty_pushed`, `hold_at` and `hold_expired_at` is
-- `none`. The lock and the condition variables are the steps in which the operations are taken.
-- `underrun_fired` is the global `g_ring_underrun_fired`, which this lock guards.
pub record Ring : Type 0 where
  pub buf : Memory
  pub capacity : ℕ
  pub head : ℕ
  pub tail : ℕ
  pub fill : ℕ
  pub total_pushed : ℕ
  pub total_popped : ℕ
  pub last_empty_pushed : Option ℕ
  pub drops_total : ℕ
  pub flush_epoch : ℕ
  pub flushed_away : ℕ
  pub client_connected : Bool
  pub writers_in : ℕ
  pub empty_valid : Bool
  pub empty_since_ms : ℕ
  pub hold_at : Option ℕ
  pub hold_since_ms : ℕ
  pub hold_max_ms : ℕ
  pub hold_gap_ms : ℕ
  pub suppress_valid : Bool
  pub hold_suppress_until_ms : ℕ
  pub hold_expired_at : Option ℕ
  pub hold_armed_total : ℕ
  pub client_gen_copy : ℕ
  pub hold_last_release : Reason
  pub underrun_fired : Bool

-- `_ring_init` over the block that `malloc` returned.
unfoldable pub ring_init : Memory → Ring
ring_init block = record {
  buf = block;
  capacity = ring_capacity;
  head = 0;
  tail = 0;
  fill = 0;
  total_pushed = 0;
  total_popped = 0;
  last_empty_pushed = none;
  drops_total = 0;
  flush_epoch = 0;
  flushed_away = 0;
  client_connected = false;
  writers_in = 0;
  empty_valid = false;
  empty_since_ms = 0;
  hold_at = none;
  hold_since_ms = 0;
  hold_max_ms = hold_ms_default;
  hold_gap_ms = hold_gap_ms_default;
  suppress_valid = false;
  hold_suppress_until_ms = 0;
  hold_expired_at = none;
  hold_armed_total = 0;
  client_gen_copy = 0;
  hold_last_release = unset;
  underrun_fired = false;
}

-- `flush_epoch++` on a `uint64_t`.
abbrev pub next_epoch : ℕ → ℕ
next_epoch e = (e + 1) % 2 ^ 64

-- `hold_rel_t`: the facts of one release, for the reply and the log line.
pub record HoldRel : Type 0 where
  pub active : Bool
  pub at : ℕ
  pub held_ms : ℕ
  pub withheld : ℕ

-- The facts and the ring of a release at a hold that stands at `h`, or with none standing. The
-- clock is monotonic, so the difference of times is not negative.
release_facts : Clock → Ring → Option ℕ → HoldRel
release_facts c r none = record { active = false; at = 0; held_ms = 0; withheld = 0 }
release_facts c r (some h) = record {
  active = true;
  at = h;
  held_ms = hold_now_ms c - r.hold_since_ms;
  withheld = r.total_pushed - h;
}

release_last : Ring → Reason → Option ℕ → Reason
release_last r why none = r.hold_last_release
release_last r why (some h) = why

-- `_hold_release_locked`.
unfoldable pub hold_release : Clock → Reason → Ring → HoldRel × Ring
unfolding release_facts release_last
hold_release c why r = (
  release_facts c r r.hold_at,
  record r {
    hold_last_release = release_last r why r.hold_at;
    hold_at = none;
    empty_valid = false;
  },
)

-- `_ring_set_client`.
unfoldable pub ring_set_client : Clock → Bool → Reason → ℕ → Ring → Ring
unfolding hold_release
ring_set_client c connected why gen r =
    let r' = (hold_release c why (record r { client_connected = connected })).1 in
    record r' {
      hold_expired_at = none;
      client_gen_copy = if connected then gen else r.client_gen_copy;
    }

-- The hold's timeout at the time `now`.
unfoldable timed_out : ℕ → Ring → Option ℕ → Bool
timed_out now r none = false
timed_out now r (some h) = leb (r.hold_since_ms + r.hold_max_ms) now

-- `_hold_timeout_check`.
unfoldable pub hold_timeout_check : Clock → Ring → Ring
unfolding timed_out hold_release
hold_timeout_check c r =
    if timed_out (hold_now_ms c) r r.hold_at
    then record ((hold_release c timeout r).1) { hold_expired_at = r.hold_at }
    else r
