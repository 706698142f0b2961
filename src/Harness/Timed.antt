-- ===== src/Harness/Timed.antt =====
-- The case of the virtual sink that reads the timing.
use spoton.Prelude.{ℕ, ◌+◌, ◌-◌, ◌*◌, ◌/◌, Bool, false, ◌&&◌, Option, none, some, ◌==◌}
use spoton.Prelude.Int.{ℤ, pos, negsuc, sub_ℕ, minus}
use spoton.Shim.{Stream, Format, float32le}
use spoton.Stream.Timing.{Timing}
use spoton.Stream.Write.{FloatToS32}
use spoton.Harness.{Harness, advance_ms, test_begin, write_n, test_pop, update_timing, test_end}
use spoton.Harness.Cases.{Case, after}

-- What follows while the stream lives.
abbrev pub on_stream : Option Stream → (Stream → Option (Harness × Bool)) → Option (Harness × Bool)
on_stream none k = none
on_stream (some st) k = k st

abbrev pub eq_int : ℤ → ℤ → Bool
eq_int (pos m) (pos n) = m == n
eq_int (negsuc m) (negsuc n) = m == n
eq_int (pos m) (negsuc n) = false
eq_int (negsuc m) (pos n) = false

-- `read_index` and `sink_usec` include the virtual sink, which held `q` bytes beside `fill` in the ring.
abbrev pub timing_is : Stream → Timing → ℕ → ℕ → Bool
timing_is st t fill q =
    eq_int t.read_index (minus (sub_ℕ st.bytes_written fill) q)
    && t.sink_usec == (fill + q) * 1_000_000 / 352_800

module _ (conv : FloatToS32) (s : ℕ) (saved : Format) where
  -- Fresh data in the ring beside what the sink holds.
  unfoldable pub fresh_part : Bool → Case
  fresh_part ok w = on_stream (w.shim.streams s) (λ st.
      let second = update_timing st w in
      some (
        test_end s float32le saved second.0,
        ok && timing_is st second.1 100_000 (1_000_000 - 352_800 + 100_000),
      ))

  -- The ring drained as a client would, then a second of the sink.
  unfoldable pub drained_part : Harness × ℕ → Option (Harness × Bool)
  drained_part (w, popped) =
      let later = advance_ms 1000 w in
      on_stream (later.shim.streams s) (λ st.
        let first = update_timing st later in
        after (write_n conv s float32le 100_000 first.0)
          (fresh_part (popped == 1_000_000 && timing_is st first.1 0 (1_000_000 - 352_800))))

  unfoldable pub read_index_case : Case
  read_index_case h =
      after (write_n conv s float32le 1_000_000 (test_begin s float32le (some 5000) false h))
        (λ w. drained_part (test_pop 1_000_000 1_000_000 w))
