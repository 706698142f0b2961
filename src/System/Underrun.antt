-- ===== src/System/Underrun.antt =====
-- The underrun edge under any run of the daemon's calls: `g_ring_underrun_fired`.
use spoton.Prelude.{◌≡◌, refl, ◌∙◌, Bool, true, false, ◌||◌, List, [], ◌∷◌, arith, ltb}
use spoton.Time.{Clock}
use spoton.Ring.Push.{push_turn, push_chunk, push_copy, refill, push_exit}
use spoton.Shim.{Shim}
use spoton.Stream.{
  modify_stream, stream_new, stream_free, stream_set_started_callback,
  stream_set_underflow_callback, vsink_stop, release_writers, stream_unref, stream_disconnect,
  stream_cork, unarmed_flush, flush_refresh, flush_settle, writable_size,
}
use spoton.Stream.Parts.{
  Part, reset_ring, use_arm, set_active, start_sink, make_ready, end_stream, stop_sink,
  wake_writers, detach, flag_cork, run_part,
}
use spoton.Daemon.{
  Daemon, create, connect, disconnect, unref, release, on_started, on_underflow, cork, flush,
  discard, refresh, unmark, settle, query, enter_write, call_started, charge_sink, give_back_lost,
  push, finish_push, count_bytes, leave_write, part, run_daemon,
}
use spoton.Http.Drain.{signal_underrun}
use spoton.System.Sink.{Touch, call, edge, run_touch, run_touches}

-- The calls that make the edge ready again: a push that ends with bytes in the ring, and those that
-- flush the ring.
abbrev rearms_part : Part → Bool
rearms_part (reset_ring c) = true
rearms_part use_arm = false
rearms_part (set_active s) = false
rearms_part (start_sink e c s) = false
rearms_part (make_ready c s) = false
rearms_part (end_stream s) = false
rearms_part (stop_sink c) = false
rearms_part wake_writers = false
rearms_part detach = false
rearms_part (flag_cork s b) = false

abbrev rearms_call : Daemon → Shim → Bool
rearms_call (create s fmt) g = false
rearms_call (connect e c s) g = true
rearms_call (disconnect c s) g = false
rearms_call (unref c s) g = false
rearms_call (release s) g = false
rearms_call (on_started s cb) g = false
rearms_call (on_underflow s cb) g = false
rearms_call (cork e c s b) g = false
rearms_call (flush e c) g = true
rearms_call (discard e c) g = true
rearms_call (refresh e c) g = false
rearms_call unmark g = false
rearms_call (settle e c) g = false
rearms_call (query e c fmt) g = false
rearms_call enter_write g = false
rearms_call (call_started s) g = false
rearms_call (charge_sink e c n) g = false
rearms_call (give_back_lost e c n) g = false
rearms_call (push e c x xs w) g = false
rearms_call finish_push g = ltb 0 g.ring.fill
rearms_call (count_bytes s n) g = false
rearms_call leave_write g = false
rearms_call (part p) g = rearms_part p

-- Whether such a call is among the steps, at the states that they find.
abbrev rearms : Touch → Shim → Bool
rearms (call d) g = rearms_call d g
rearms (edge c wants) g = false

unfoldable pub any_rearms : List Touch → Shim → Bool
any_rearms [] g = false
any_rearms (t ∷ ts) g = rearms t g || any_rearms ts (run_touch t g)

part-fired :
    (p : Part) (g : Shim)
    → rearms_part p ≡ false
    → (run_part p g).ring.underrun_fired ≡ g.ring.underrun_fired
unfolding run_part modify_stream vsink_stop release_writers
part-fired (reset_ring c) g h = absurd (ground arith)
part-fired use_arm g h = refl
part-fired (set_active s) g h = refl
part-fired (start_sink e c s) g h = refl
part-fired (make_ready c s) g h = refl
part-fired (end_stream s) g h = refl
part-fired (stop_sink c) g h = refl
part-fired wake_writers g h = refl
part-fired detach g h = refl
part-fired (flag_cork s b) g h = refl

call-fired :
    (d : Daemon) (g : Shim)
    → rearms_call d g ≡ false
    → (run_daemon d g).ring.underrun_fired ≡ g.ring.underrun_fired
unfolding run_daemon modify_stream vsink_stop release_writers stream_unref stream_disconnect
    stream_cork flush_refresh flush_settle writable_size unarmed_flush stream_new stream_free
    stream_set_started_callback stream_set_underflow_callback push_exit push_turn push_chunk
    push_copy refill
call-fired (create s fmt) g h = refl
call-fired (connect e c s) g h = absurd (ground arith)
call-fired (disconnect c s) g h = ground arith
call-fired (unref c s) g h = ground arith
call-fired (release s) g h = refl
call-fired (on_started s cb) g h = refl
call-fired (on_underflow s cb) g h = refl
call-fired (cork e c s b) g h = ground arith
call-fired (flush e c) g h = absurd (ground arith)
call-fired (discard e c) g h = absurd (ground arith)
call-fired (refresh e c) g h = refl
call-fired unmark g h = refl
call-fired (settle e c) g h = ground arith
call-fired (query e c fmt) g h = ground arith
call-fired enter_write g h = refl
call-fired (call_started s) g h = refl
call-fired (charge_sink e c n) g h = refl
call-fired (give_back_lost e c n) g h = refl
call-fired (push e c x xs w) g h = ground arith
call-fired finish_push g h = ground arith
call-fired (count_bytes s n) g h = refl
call-fired leave_write g h = refl
call-fired (part p) g h = part-fired p g h

touch-fired :
    (t : Touch) (g : Shim)
    → rearms t g ≡ false
    → g.ring.underrun_fired ≡ true
    → (run_touch t g).ring.underrun_fired ≡ true
unfolding run_touch signal_underrun
touch-fired (call d) g h k = call-fired d g h ∙ k
touch-fired (edge c wants) g h k = ground arith

touches-fired :
    (ts : List Touch) (g : Shim)
    → any_rearms ts g ≡ false
    → g.ring.underrun_fired ≡ true
    → (run_touches ts g).ring.underrun_fired ≡ true
unfolding run_touches any_rearms
touches-fired [] g h k = k
touches-fired (t ∷ ts) g h k =
    touches-fired ts (run_touch t g) (ground arith) (touch-fired t g (ground arith) k)

signal-fired :
    (c : Clock) (wants : Bool) (g : Shim)
    → (signal_underrun c wants g).0 ≡ true
    → (signal_underrun c wants g).1.ring.underrun_fired ≡ true
unfolding signal_underrun
signal-fired c wants g h = ground arith

fired-quiet :
    (c : Clock) (wants : Bool) (g : Shim)
    → g.ring.underrun_fired ≡ true
    → (signal_underrun c wants g).0 ≡ false
unfolding signal_underrun
fired-quiet c wants g h = ground arith

-- One signal for one emptying: behind a signal, however many of the daemon's calls, whole or in parts,
-- and further edges follow, whatever the clocks read and whoever wants it, another signal is given only
-- if a push among them ended with bytes in the ring or a call among them flushed the ring.
pub signal_underrun-once :
    (c c' : Clock) (wants wants' : Bool) (ts : List Touch) (g : Shim)
    → (signal_underrun c wants g).0 ≡ true
    → any_rearms ts (signal_underrun c wants g).1 ≡ false
    → (signal_underrun c' wants' (run_touches ts (signal_underrun c wants g).1)).0 ≡ false
signal_underrun-once c c' wants wants' ts g h k =
    fired-quiet c' wants' _ (touches-fired ts _ k (signal-fired c wants g h))
