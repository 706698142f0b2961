-- ===== src/Tests/Sinks.antt =====
-- Runs of the daemon's writes, the virtual sink, the clocks and the knobs.
use spoton.Stream.Write.{pushes, batches, s16_to_s32, ring_need}
use spoton.Env.{vsink_ms, whole_number}
use spoton.Ring.{ring_capacity}
use spoton.Stream.Write.Convert.{join}
use spoton.Tests.Fixtures.{block}
use spoton.Prelude.{false, true, ◌<◌, ◌≡◌, refl, true, none, some, [], ◌∷◌, arith, tabulate}
use spoton.Time.{vsink_now_us}
use spoton.Env.{Environ, hold_gap_ms, vsink_env_ms}
use spoton.Env.Bounds.{decimal}
use spoton.Ring.{Ring, ring_init}
use spoton.Ring.Valid.{IsValid}
use spoton.Vsink.{Vsink, vsink_sync, vsink_settle}
use spoton.Shim.{s16le, s32le}
use spoton.Stream.{writable_size, sink_room}
use spoton.Prelude.{length}
use spoton.Stream.Write.{Batch, FloatToS32, stream_write}
use spoton.Stream.Write.Total.{Answers, charged_sink, stream_write-Answers}
use spoton.Stream.Write.Stored.{AcceptedAs, stream_write-told}
use spoton.Stream.Timing.{CVolume}
use spoton.Prelude.Int.{pos}
use spoton.Shim.{ready}
use spoton.Stream.{writers_gone}
use spoton.Stream.Timing.{refresh_timing, timeval_diff}
use spoton.Vsink.{vsink_set_running}
use spoton.Tests.Fixtures.{at, unset, two, full, pop_one, shim, full-IsValid}

-- A conversion for the runs, which use no float stream: silence.
abbrev silence : FloatToS32
silence a b c d = 0 ∷ 0 ∷ 0 ∷ 0 ∷ []

-- Four ring bytes for a full ring, and one wake-up behind a pop of another thread: the write is found
-- waiting.
abbrev pop_later : Batch
pop_later = record { before = []; at = at 5 0; wakes = pop_one ∷ [] }

stream_write-Answers_example :
    Answers
      (vsink_env_ms unset)
      full
      (length (join (pushes silence s16le (1 ∷ 2 ∷ []))))
      (charged_sink unset (at 5 0) s16le 2 (shim full).vsink)
      (stream_write silence unset
        (at 5 0)
        (pop_later ∷ [])
        (λ v. v)
        1
        s16le
        (1 ∷ 2 ∷ [])
        (shim full))
stream_write-Answers_example =
    stream_write-Answers silence unset (at 5 0) (pop_later ∷ []) (λ v. v) 1 s16le (1 ∷ 2 ∷ [])
      (shim full) full-IsValid

-- A ring of 200000 bytes that holds two.
abbrev wide : Ring
wide = record two { capacity = 200_000; head = 5 }

wide-IsValid : IsValid wide
unfolding ring_init
wide-IsValid = ground arith

stream_write-told_example : AcceptedAs wide (join (pushes silence s16le (1 ∷ 2 ∷ 3 ∷ 4 ∷ []))) (
    stream_write silence unset
      (at 5 0)
      []
      (λ v. v)
      1
      s16le
      (1 ∷ 2 ∷ 3 ∷ 4 ∷ [])
      (writable_size unset (at 5 0) s16le (shim wide)).0)
unfolding writable_size sink_room ring_init vsink_env_ms vsink_sync vsink_settle vsink_now_us pushes
    batches s16_to_s32
stream_write-told_example =
    stream_write-told silence unset (at 5 0) (at 5 0) (λ v. v) 1 s16le (1 ∷ 2 ∷ 3 ∷ 4 ∷ [])
      (shim wide) wide-IsValid refl (omega arith)

-- With the sink off, an S16LE stream is told all but the margin of an empty ring in its own bytes, which
-- are twice as many in the ring.
abbrev empty : Ring
empty = ring_init block

abbrev sink_off : Environ
sink_off vsink_ms = some (b'0' ∷ [])
sink_off v = none

writable_size-s16-run :
    ring_capacity < ring_need s16le (writable_size sink_off (at 5 0) s16le (shim empty)).1
unfolding writable_size ring_init vsink_env_ms whole_number
writable_size-s16-run = omega arith

abbrev gap_of_700 : Environ
gap_of_700 hold_gap_ms = some (decimal (7 ∷ 0 ∷ 0 ∷ []))
gap_of_700 v = none

abbrev volumes : CVolume
volumes = record { channels = 1; values = tabulate 32 (λ i. i) }

-- The daemon wrote 24 bytes of S32LE; the ring of the run holds two.
refresh_timing-run :
    (refresh_timing unset
      (at 5 0)
      (record {
        state = ready;
        format = s32le;
        index = 1;
        corked = false;
        bytes_written = 24;
        connect_time = record { sec = 4; usec = 0 };
        has_started_cb = false;
        has_underflow_cb = false;
      })
      (shim two)).1.read_index
    ≡ pos 22
unfolding refresh_timing ring_init vsink_env_ms vsink_sync vsink_settle vsink_now_us
refresh_timing-run = refl

timeval_diff-run :
    timeval_diff (some (record { sec = 5; usec = 1 })) (some (record { sec = 4; usec = 0 }))
    ≡ 1_000_001
unfolding timeval_diff
timeval_diff-run = refl

abbrev playing : Vsink
playing = record {
  q_out = 100_000;
  frac = 7;
  last_us = 1_000_000;
  running = true;
  t_ms = 3000;
  suppressed = 0;
}

-- A corked sink starts again at the time of the uncork.
vsink_set_running-run :
    vsink_settle 1_100_000 (vsink_set_running 1_100_000 true (record playing { running = false }))
    ≡ record playing { last_us = 1_100_000 }
unfolding vsink_set_running vsink_settle
vsink_set_running-run = refl

-- A writer that unrefs from its own write waits for the others alone.
writers_gone-run :
    (writers_gone true (record two { writers_in = 1 }) ≡ true)
    × (writers_gone false (record two { writers_in = 1 }) ≡ false)
unfolding writers_gone
writers_gone-run = (refl, refl)
