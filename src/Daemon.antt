-- ===== src/Daemon.antt =====
-- Plugins/SpotOn/Bin/fake-libpulse/fake-libpulse.c: what the daemon's threads do to the shared state,
-- one critical section of a `pa_stream_*` call at a time.
use spoton.Prelude.{ℕ, ◌+◌, ◌-◌, Bool, false, Option, List, [], ◌∷◌, ltb, if◌then◌else◌}
use spoton.Time.{Clock, vsink_now_us}
use spoton.Env.{Environ, vsink_env_ms}
use spoton.Ring.{Ring}
use spoton.Ring.Push.{RingWrite, Turn, stop, again, wait, push_turn, push_exit}
use spoton.Vsink.{vsink_sync}
use spoton.Shim.{Shim, Format}
use spoton.Stream.{
  stream_set_started_callback, stream_set_underflow_callback, modify_stream, stream_new,
  stream_unref, stream_free, connect_playback, stream_disconnect, stream_cork, stream_flush,
  flush_discard, flush_refresh, flush_unmark, flush_settle, writable_size,
}
use spoton.Stream.Parts.{Part, run_part}

-- The ring that one turn of the writer's loop leaves.
abbrev pub turn_ring : Ring → Turn → Ring
turn_ring r (stop r' w) = r'
turn_ring r (again r' rest w) = r'
turn_ring r (wait w) = r

-- A call in one step, or a part of one; the parts of a write have steps of their own: the entry, the
-- started callback, the charge of the sink, the turns of the pushes, what the sink is given back of the
-- bytes that were refused or abandoned, the count of the stream and the end. (The clock of
-- `give_back_lost` dates the step; the code reads none.)
pub data Daemon : Type 0 where
  create : ℕ → Format → Daemon
  connect : Environ → Clock → ℕ → Daemon
  disconnect : Clock → ℕ → Daemon
  unref : Clock → ℕ → Daemon
  release : ℕ → Daemon
  on_started on_underflow : ℕ → Bool → Daemon
  cork : Environ → Clock → ℕ → Bool → Daemon
  flush : Environ → Clock → Daemon
  discard : Environ → Clock → Daemon
  refresh : Environ → Clock → Daemon
  unmark : Daemon
  settle : Environ → Clock → Daemon
  query : Environ → Clock → Format → Daemon
  enter_write : Daemon
  call_started : ℕ → Daemon
  charge_sink : Environ → Clock → ℕ → Daemon
  give_back_lost : Environ → Clock → ℕ → Daemon
  push : Environ → Clock → (x : ℕ) → (xs : List ℕ) → Option RingWrite → Daemon
  finish_push : Daemon
  count_bytes : ℕ → ℕ → Daemon
  leave_write : Daemon
  part : Part → Daemon

unfoldable pub run_daemon : Daemon → Shim → Shim
run_daemon (create s fmt) g = stream_new s fmt g
run_daemon (connect e c s) g = connect_playback e c s g
run_daemon (disconnect c s) g = stream_disconnect c s g
run_daemon (unref c s) g = stream_unref c s g
run_daemon (release s) g = stream_free s g
run_daemon (on_started s cb) g = stream_set_started_callback s cb g
run_daemon (on_underflow s cb) g = stream_set_underflow_callback s cb g
run_daemon (cork e c s b) g = stream_cork e c s b g
run_daemon (flush e c) g = stream_flush e c g
run_daemon (discard e c) g = flush_discard e c g
run_daemon (refresh e c) g = flush_refresh e c g
run_daemon unmark g = flush_unmark g
run_daemon (settle e c) g = flush_settle e c g
run_daemon (query e c fmt) g = (writable_size e c fmt g).0
run_daemon enter_write g = record g {
  ring = record (g.ring) { writers_in = g.ring.writers_in + 1 };
}
run_daemon (call_started s) g = stream_set_started_callback s false g
run_daemon (charge_sink e c need) g =
    let v = vsink_sync (vsink_now_us c) (vsink_env_ms e) g.vsink in
    record g {
      vsink = record v { q_out = if ltb 0 (vsink_env_ms e) then v.q_out + need else v.q_out };
    }
run_daemon (give_back_lost e c lost) g = record g {
  vsink =
      if ltb 0 (vsink_env_ms e) then record (g.vsink) { q_out = g.vsink.q_out - lost } else g.vsink;
}
run_daemon (push e c x xs w) g = record g {
  ring = turn_ring g.ring (push_turn e c g.ring (x ∷ xs) w);
}
run_daemon finish_push g = record g { ring = push_exit g.ring }
run_daemon (count_bytes s n) g =
    modify_stream s (λ st. record st { bytes_written = st.bytes_written + n }) g
run_daemon (part p) g = run_part p g
run_daemon leave_write g = record g {
  ring = record (g.ring) { writers_in = g.ring.writers_in - 1 };
}

unfoldable pub run_daemons : List Daemon → Shim → Shim
run_daemons [] g = g
run_daemons (d ∷ ds) g = run_daemons ds (run_daemon d g)
