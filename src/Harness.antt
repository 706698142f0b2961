-- ===== src/Harness.antt =====
-- Plugins/SpotOn/Bin/fake-libpulse/fake-libpulse.c: from the test harness that is built with the library
-- under FAKE_LIBPULSE_TEST, the cases of the virtual sink that run in one thread, with a frozen clock.
pub mod Facts
pub mod Begin
pub mod Written
pub mod Cases
pub mod Passes
pub mod Uncorked
pub mod Live
pub mod Timed
pub mod Position
use spoton.Prelude.{
  ℕ, zero, suc, length, ◌+◌, ◌-◌, ◌*◌, ◌/◌, ◌%◌, min, Bool, true, false, not, ◌&&◌, Option, none,
  some, List, [], ◌∷◌, ltb, ◌==◌, if◌then◌else◌, tabulate,
}
use spoton.Time.{Clock, Timeval}
use spoton.Env.{Environ, vsink_ms, hold_gap_ms, flush_decide_ms}
use spoton.Decimal.{number}
use spoton.Ring.{Ring, unset, ring_capacity}
use spoton.Http.Drain.{ring_pop_timed}
use spoton.Stream.Timing.{Timing, refresh_timing}
use spoton.Shim.{Shim, Stream, Format, s16le, float32le}
use spoton.Stream.{modify_stream, stream_cork, stream_flush, writable_size}
use spoton.Stream.Write.{FloatToS32, WriteResult, accepted, waiting, rejected, stream_write}

-- What a case runs on: the shim, the environment, the clock that `g_vsink_test_clock_us` freezes, and
-- the wall clock, which no case looks at.
pub record Harness : Type 0 where
  pub shim : Shim
  pub env : Environ
  pub clock_us : ℕ
  pub wall : Timeval

-- The clocks that the code reads. (Only the sink's is frozen in C; with no client and no gap hold
-- nothing else that these cases look at depends on one.)
abbrev pub clock : Harness → Clock
clock h = record {
  wall = h.wall;
  mono_sec = h.clock_us / 1_000_000;
  mono_nsec = h.clock_us % 1_000_000 * 1000;
}

-- `main` sets three knobs to 0, and `_test_vsink_env` the sink's, or none for a negative one.
abbrev pub zero_text : List ℕ
zero_text = b'0' ∷ []

abbrev pub test_env : Option ℕ → Environ
test_env none vsink_ms = none
test_env (some ms) vsink_ms = some (number ms)
test_env o hold_gap_ms = some zero_text
test_env o flush_decide_ms = some zero_text
test_env o v = none

abbrev pub advance_ms : ℕ → Harness → Harness
advance_ms ms h = record h { clock_us = h.clock_us + ms * 1000 }

-- `_test_vsink_cork` and `_test_vsink_flush`.
unfoldable pub test_cork : ℕ → Bool → Harness → Harness
test_cork s b h = record h { shim = stream_cork h.env (clock h) s b h.shim }

unfoldable pub test_flush : Harness → Harness
test_flush h =
    let flushed = stream_flush h.env (clock h) (record (h.shim) { seek_flush_armed = 1 }) in
    record h { shim = record flushed { seek_flush_armed = 0 } }

-- `_test_ring_reset`.
unfoldable pub ring_reset : Ring → Ring
ring_reset r = record r {
  total_popped = r.total_popped + r.fill;
  head = 0;
  tail = 0;
  fill = 0;
  client_connected = false;
  empty_valid = false;
  empty_since_ms = 0;
  hold_at = none;
  hold_since_ms = 0;
  suppress_valid = false;
  hold_suppress_until_ms = 0;
  hold_expired_at = none;
  hold_armed_total = 0;
  hold_last_release = unset;
}

unfoldable pub test_ring_reset : Harness → Harness
unfolding ring_reset
test_ring_reset h = record h {
  shim = record (h.shim) {
    ring = ring_reset h.shim.ring;
    boundary_at_pushed = none;
    seek_flush_armed = 0;
  };
}

-- `_test_vsink_begin`, at 7000 s: what it sets, then the empty sink and the empty ring.
unfoldable pub set_up : ℕ → Format → Option ℕ → Harness → Harness
unfolding modify_stream
set_up s fmt ms h = record h {
  shim = modify_stream s (λ st. record st { format = fmt }) h.shim;
  env = test_env ms;
  clock_us = 7_000_000_000;
}

unfoldable pub test_begin : ℕ → Format → Option ℕ → Bool → Harness → Harness
test_begin s fmt ms corked h = test_ring_reset (test_flush (test_cork s corked (set_up s fmt ms h)))

-- `_test_vsink_write_n`: silence; none where the call does not come back.
abbrev came_back : Harness → WriteResult → Option Harness
came_back h (accepted g) = some (record h { shim = g })
came_back h (waiting g) = none
came_back h rejected = none

unfoldable pub write_n : FloatToS32 → ℕ → Format → ℕ → Harness → Option Harness
write_n conv s fmt n h =
    came_back h (stream_write conv h.env (clock h) [] (λ v. v) s fmt (tabulate n (λ i. 0)) h.shim)

-- `pa_stream_writable_size`.
unfoldable pub ask : Format → Harness → Harness × ℕ
ask fmt h = let out = writable_size h.env (clock h) fmt h.shim in (record h { shim = out.0 }, out.1)

-- `_test_vsink_end`, with the format of the case and the one that it restores. (In C the clock 0 is
-- the real one, which the next case sets anew.)
unfoldable pub test_end : ℕ → Format → Format → Harness → Harness
unfolding modify_stream
test_end s fmt saved h =
    let flushed = test_flush (test_cork s false h) in
    let off = (ask fmt (record flushed { env = test_env (some 0) })).0 in
    test_ring_reset (record off {
      clock_us = 0;
      shim = modify_stream s (λ st. record st { format = saved }) off.shim;
    })

-- `_test_vsink_pop`: pops until `n` bytes have come or none comes, on fuel, a unit for each byte. (On an
-- empty ring it would wait for no time, in which no other thread of these cases writes.)
unfoldable pub test_pop : ℕ → ℕ → Harness → Harness × ℕ
test_pop zero n h = (h, 0)
test_pop (suc f) n h =
    let out = ring_pop_timed (clock h) [] n h.shim in
    let popped = record h { shim = out.1 } in
    let rest = test_pop f (n - length out.0) popped in
    if n == 0
    then (h, 0)
    else if length out.0 == 0
    then (popped, 0)
    else (rest.0, length out.0 + rest.1)

-- `_test_vsink_update_timing` on the live stream.
unfoldable pub update_timing : Stream → Harness → Harness × Timing
update_timing st h =
    let out = refresh_timing h.env (clock h) st h.shim in (record h { shim = out.0 }, out.1)
