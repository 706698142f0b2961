-- ===== src/Tests/Accounts.antt =====
-- Runs of the sink's account, of a conversion of time, of the views of a ring, and of the trace.
use spoton.Prelude.{List, ◌≡◌, ◌*◌, refl, true, false, some, [], ◌∷◌, arith}
use spoton.Prelude.Int.{pos, negsuc}
use spoton.Time.{vsink_now_us, armhf, lp64}
use spoton.Env.{vsink_env_ms}
use spoton.Request.{codes}
use spoton.Ring.View.Quotient.{IsViews, queue-IsViews}
use spoton.Vsink.Account.{Account, AtRate, Ordered, account}
use spoton.Daemon.{charge_sink, give_back_lost, cork, query, run_daemon}
use spoton.Stream.{stream_cork, modify_stream, writable_size}
use spoton.Shim.{Shim, s32le}
use spoton.Stream.Usec.{usec_to_bytes}
use spoton.Stream.Usec.Exact.{usec_to_bytes-frames}
use spoton.System.Sink.{
  Touch, call, edge, run_touches, all_sites, sites, run_touch, run_touches-AtRate,
}
use spoton.Trace.{atoi, trace_ts}
use spoton.Tests.Fixtures.{at, unset, two, shim}

queue-IsViews_example : IsViews 4
queue-IsViews_example = queue-IsViews 4 (omega arith)

-- 10 ms of stereo at 44100 Hz, on a target whose `long double` is a `double`.
usec_to_bytes-frames_example :
    usec_to_bytes armhf 53 10_000 (some (record { rate = 44_100; channels = 2 }))
    ≡ some (441 * (2 * 4))
usec_to_bytes-frames_example =
    usec_to_bytes-frames armhf 53 10_000 441 (record { rate = 44_100; channels = 2 }) (omega arith)
      (omega arith) (omega arith) (omega arith) (omega arith) (omega arith) (omega arith)
      (omega arith)

-- The active stream 1 is uncorked, 3628 bytes are charged, 100 of them taken back, and 5 ms later the daemon looks.
abbrev playing : Shim
playing = record (shim two) { active_stream = some 1 }

abbrev touches : List Touch
touches =
    call (cork unset (at 1 0) 1 false)
    ∷ call (charge_sink unset (at 1 0) 3628)
    ∷ call (give_back_lost unset (at 1 0) 100)
    ∷ call (query unset (at 1 5) s32le)
    ∷ edge (at 1 8) true
    ∷ []

abbrev opened : Account
opened = record { charged = 0; dropped = 0; running_us = 0; at = 1_000_000 }

touches-Ordered : Ordered 1_000_000 (all_sites touches playing)
unfolding all_sites sites vsink_env_ms vsink_now_us run_touch run_daemon stream_cork modify_stream
    writable_size
touches-Ordered = (omega arith, (omega arith, (omega arith, (omega arith, (omega arith, tt)))))

run_touches-AtRate_example :
    AtRate
      (run_touches touches playing).vsink
      (account (all_sites touches playing) playing.vsink opened)
run_touches-AtRate_example =
    run_touches-AtRate touches playing opened touches-Ordered
      (record { played = 0; balance = refl; rate = omega arith; read = omega arith })

atoi-run : (atoi armhf (codes "2x") ≡ pos 2) × (atoi lp64 (codes " -1") ≡ negsuc 0)
unfolding atoi
atoi-run = (refl, refl)

trace_ts-run : trace_ts 9 30 0 (record { sec = 5; usec = 7_000 }) ≡ codes "09:30:00.007"
unfolding trace_ts
trace_ts-run = refl
