-- ===== src/Tests/Decisions.antt =====
-- Runs of the flush, its arm, its decision window, and the bounded serving.
use Prim.{tt}
use spoton.Prelude.{ℕ, ◌≡◌, refl, true, false, none, some, [], ◌∷◌, arith, ltb, is_some}
use spoton.Time.{hold_now_ms, mono_ms}
use spoton.Env.{flush_decide_env_ms}
use spoton.Ring.{ring_init}
use spoton.Ring.Pop.{pop_waits}
use spoton.Decide.{flush_decide_open, no_decide}
use spoton.Request.{Pending, would_block}
use spoton.Shim.{Shim, decide_open}
use spoton.Control.{serve_seek_arm, serve_seek_keep, serve_boundary}
use spoton.Stream.{stream_flush, flush_settle, flush_unmark, flush_refresh, flush_discard}
use spoton.Stream.Flush.{stream_flush-between}
use spoton.Stream.Flush.{SameFlush, stream_flush-seek_arm, stream_flush-keep_arm}
use spoton.Http.Loop.{Http, flush_close, takeover}
use spoton.Http.Drain.{DrainTick, bytes, drain_turn, drain_write, applies}
use spoton.Http.Decision.{
  Departed, stream_flush-window, serve_seek_keep-stays, serve_boundary-departs, late_boundary-stale,
}
use spoton.Http.Bounded.{Received, drain_turn-Received, waited, drain_write-stale}
use spoton.Http.Bounded.Taken.{WholeTick, whole_tick}
use spoton.Http.Bounded.Served.{Served, drain_loop-Served}
use spoton.Vsink.{vsink_settle}
use spoton.Time.{vsink_now_us}
use spoton.Http.Drain.{signal_underrun}
use spoton.System.Sink.{Touch, call, edge, run_touch, run_touches}
use spoton.System.Underrun.{any_rearms, signal_underrun-once}
use spoton.Daemon.{query, finish_push, run_daemon}
use spoton.Ring.Push.{push_exit}
use spoton.Stream.{writable_size}
use spoton.Shim.{s32le}
use spoton.Prelude.{List}
use spoton.Ring.{hold_release, ring_set_client}
use spoton.Ring.Pop.{pop_locked, hold_cap, pop_take, pop_bytes, pop_advance}
use spoton.Ring.Fifo.{contents}
use spoton.Daemon.{run_daemons}
use spoton.Http.Drain.{
  drain_loop, http_write_client, bound_left, ring_pop_timed, trim, sent_now, write_slot,
  write_accept, after_write, bounded_close,
}
use spoton.Tests.Fixtures.{at, unset, two, shim, request, attached, two-IsValid}

abbrev arm : Pending
arm = request []

stream_flush-seek_arm_example :
    SameFlush
      (stream_flush unset (at 5 0) (serve_seek_arm (at 5 30) (some 7) arm (shim two)).shim)
      (serve_seek_arm (at 5 30) (some 7) arm (stream_flush unset (at 5 0) (shim two))).shim
stream_flush-seek_arm_example =
    stream_flush-seek_arm unset (at 5 0) (at 5 30) 7 arm (shim two) refl refl refl refl refl refl
      refl

abbrev keeping : Shim
keeping = record (shim two) { browse_keep = true }

stream_flush-keep_arm_example :
    SameFlush
      (stream_flush unset (at 5 0) (serve_seek_arm (at 5 30) (some 7) arm keeping).shim)
      (serve_seek_arm (at 5 30) (some 7) arm (stream_flush unset (at 5 0) keeping)).shim
    × ((serve_seek_arm
          (at 5 30)
          (some 7)
          arm
          (stream_flush unset (at 5 0) keeping)).shim.flush_keep_pending
        ≡ false)
unfolding hold_now_ms
stream_flush-keep_arm_example =
    stream_flush-keep_arm unset (at 5 0) (at 5 30) 7 arm keeping refl refl refl refl refl refl refl
      (omega arith) (omega arith)

window_unset : flush_decide_env_ms unset ≡ 2000
unfolding flush_decide_env_ms
window_unset = refl

-- 1.5 s behind the flush the window of 2 s is open.
stream_flush-window_example :
    is_some
      (flush_close
        (at 6 500)
        (record (attached (shim two)) { shim = stream_flush unset (at 5 0) (shim two) })).client_fd
    ≡ ltb 1500 (flush_decide_env_ms unset)
unfolding hold_now_ms
stream_flush-window_example =
    stream_flush-window unset (at 5 0) (at 6 500) 1500 7 (attached (shim two)) refl refl refl refl
      (omega (arith, window_unset)) refl (omega arith)
      (λ q. absurd (omega (arith, q, window_unset)))

-- A window that began at 5.0 s, as `pa_stream_flush` opens it.
abbrev deciding : Shim
deciding = record (shim two) {
  flush_disconnect = true;
  decide = record { deadline = 7000; t0 = 5000; promoted = false };
}

is_open : decide_open (at 6 0) deciding ≡ true
unfolding flush_decide_open mono_ms
is_open = refl

serve_seek_keep-stays_example :
    flush_close
      (at 9 0)
      (record (attached deciding) { shim = (serve_seek_keep (at 6 0) (some 7) arm deciding).shim })
    ≡ record (attached deciding) {
      shim = record deciding { flush_disconnect = false; decide = no_decide };
    }
serve_seek_keep-stays_example =
    serve_seek_keep-stays (at 6 0) (at 9 0) 7 arm (attached deciding) refl refl refl is_open

serve_boundary-departs_example : Departed (attached deciding) (
    flush_close
      (at 6 1)
      (record (attached deciding) { shim = (serve_boundary (at 6 0) (some 7) arm deciding).shim }))
serve_boundary-departs_example =
    serve_boundary-departs (at 6 0) (at 6 1) 7 arm (attached deciding) refl refl refl is_open

abbrev closed : Http
closed = record (attached (record (shim two) { departed_client_generation = some 3 })) {
  client_fd = none;
}

late_boundary-stale_example :
    let h' =
      takeover
        (at 6 1)
        true
        (record closed { shim = (serve_boundary (at 6 0) none arm closed.shim).shim }) in
    (h'.shim.client_generation ≡ 4)
    × (applies h'.shim.boundary_client_generation h'.shim.client_generation ≡ false)
    × (h'.shim.ring.client_connected ≡ true)
late_boundary-stale_example = late_boundary-stale (at 6 0) (at 6 1) arm closed refl refl refl

-- A marker behind the first of two bytes, for the client that is attached.
abbrev marked : ℕ → Shim
marked b = record (shim two) { boundary_at_pushed = some b; boundary_client_generation = some 3 }

abbrev tick : DrainTick
tick = record {
  at = at 6 0;
  waiting = [];
  writing =
      record {
        daemon = [];
        at = at 6 0;
        hangup = false;
        wrote = bytes 100;
        arrival = none;
        slot_read = would_block;
      }
      ∷ [];
  after_write = at 6 0;
}

drain_turn-Received_example :
    Received 8 (waited tick (marked 8)).ring (drain_turn tick 1000 (attached (marked 8))).received
unfolding ring_init pop_waits
drain_turn-Received_example =
    drain_turn-Received tick 1000 8 (attached (marked 8)) two-IsValid refl refl (omega arith)

abbrev full_tick : DrainTick
full_tick = record tick { writing = whole_tick (at 6 0) would_block 16_384 ∷ [] }

full_tick-Whole : WholeTick full_tick
full_tick-Whole = record {
  clock = at 6 0;
  res = would_block;
  taken = 16_384;
  once = refl;
  whole = omega arith;
}

drain_loop-Served_example :
    Served 7
      (attached (marked 7))
      (drain_loop (full_tick ∷ full_tick ∷ []) 1000 0 (attached (marked 7)))
unfolding ring_init
drain_loop-Served_example =
    drain_loop-Served (full_tick ∷ full_tick ∷ []) 1000 0 (attached (marked 7))
      (full_tick-Whole, (full_tick-Whole, tt))
      (record {
        valid = two-IsValid;
        marker = refl;
        current = refl;
        ahead = omega arith;
        stored = omega arith;
        unheld = refl;
        quiet = refl;
        unarmed = refl;
        no_slot = refl;
      })
      (omega arith) (omega arith)

abbrev stale : Http
stale = attached (record (marked 6) { boundary_client_generation = some 2 })

drain_write-stale_example :
    drain_write tick 1000 (13 ∷ []) stale
    ≡ drain_write tick 1000
        (13 ∷ [])
        (record stale { shim = record (stale.shim) { boundary_at_pushed = none } })
drain_write-stale_example = drain_write-stale tick 1000 6 (13 ∷ []) stale refl refl (omega arith)

abbrev dry : Shim
dry = record (shim (record two { fill = 0; tail = 1; total_popped = 9 })) {
  vsink = record {
    q_out = 0;
    frac = 0;
    last_us = 5_000_000;
    running = true;
    t_ms = 3000;
    suppressed = 0;
  };
}

signals : (signal_underrun (at 6 0) true dry).0 ≡ true
unfolding signal_underrun ring_init vsink_settle vsink_now_us
signals = refl

-- The daemon asks, an empty push ends, and the edge is looked at again.
abbrev idle_calls : List Touch
idle_calls = call (query unset (at 6 10) s32le) ∷ call finish_push ∷ edge (at 6 20) true ∷ []

nothing_rearms : any_rearms idle_calls (signal_underrun (at 6 0) true dry).1 ≡ false
unfolding any_rearms run_touch run_daemon writable_size signal_underrun push_exit ring_init
    vsink_settle vsink_now_us
nothing_rearms = refl

signal_underrun-once_example :
    (signal_underrun
      (at 6 50)
      true
      (run_touches idle_calls (signal_underrun (at 6 0) true dry).1)).0
    ≡ false
signal_underrun-once_example =
    signal_underrun-once (at 6 0) (at 6 50) true true idle_calls dry signals nothing_rearms

-- A marker behind the first of two bytes: the client receives 13 and is closed, and 10 stays.
drain_loop-run :
    ((drain_loop (tick ∷ tick ∷ []) 1000 0 (attached (marked 8))).0 ≡ 13 ∷ [])
    × ((drain_loop (tick ∷ tick ∷ []) 1000 0 (attached (marked 8))).1.client_fd ≡ none)
    × (contents (drain_loop (tick ∷ tick ∷ []) 1000 0 (attached (marked 8))).1.shim.ring ≡ 10 ∷ [])
unfolding drain_loop drain_turn bound_left ring_pop_timed pop_waits pop_locked hold_cap pop_take
    pop_bytes pop_advance drain_write trim http_write_client sent_now write_slot write_accept
    run_daemons after_write bounded_close ring_set_client hold_release hold_now_ms ring_init
drain_loop-run = (refl, refl, refl)

stream_flush-between_example :
    flush_settle unset
      (at 5 0)
      (serve_seek_arm (at 5 30) (some 7) arm (
        flush_unmark (flush_refresh unset (at 5 0) (flush_discard unset (at 5 0) (shim two))))).shim
    ≡ stream_flush unset (at 5 0) (serve_seek_arm (at 5 30) (some 7) arm (shim two)).shim
stream_flush-between_example =
    stream_flush-between unset (at 5 0) (at 5 30) 7 arm (shim two) refl refl refl refl refl
