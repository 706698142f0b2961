-- ===== src/System/Sound.antt =====
-- The invariant of the shared state, and that the daemon's calls keep it.
mod Shared
pub use Shared.*
use spoton.Prelude.{
  ℕ, ◌+◌, ◌-◌, ◌≤◌, ◌≡◌, refl, ◌∙◌, ◌⊎◌, inl, inr, Bool, true, false, Option, none, some, List, [],
  ◌∷◌, arith, is_some, eq_option, ltb, length, take, min, Bool-cases, ◌&&◌,
}
use spoton.Time.{Clock}
use spoton.Env.{Environ}
use spoton.Ring.{Ring, Reason, hold_release, hold_timeout_check}
use spoton.Ring.Pop.{pop_locked, pop_take, pop_advance, flush_ring}
use spoton.Ring.Push.{
  RingWrite, Turn, stop, again, wait, refill, push_copy, push_chunk, push_turn, push_exit,
}
use spoton.Ring.Valid.{
  IsValid, Below, hold_release-IsValid, hold_timeout-IsValid, flush_ring-IsValid,
  pop_locked-IsValid, TurnIsValid, push_turn-IsValid, push_exit-IsValid,
}
use spoton.Decide.{Decide}
use spoton.Shim.{Shim, Stream, Format, ring_flush}
use spoton.Stream.{
  flush_discard, flush_refresh, flush_unmark, flush_settle, connect_playback, stream_disconnect,
  stream_unref, stream_cork, stream_flush, unarmed_flush, writable_size, stream_new, stream_free,
  release_writers, consume_arm, stream_set_started_callback, stream_set_underflow_callback,
  modify_stream,
}
use spoton.Stream.Flush.{flushed, flush-armed, flush-unarmed}
use spoton.Stream.Parts.{
  Part, reset_ring, use_arm, set_active, start_sink, make_ready, end_stream, stop_sink,
  wake_writers, detach, flag_cork, run_part,
}
use spoton.Daemon.{
  discard, refresh, unmark, settle, Daemon, create, connect, disconnect, unref, release, cork,
  flush, query, enter_write, charge_sink, push, finish_push, give_back_lost, leave_write, part,
  on_started, on_underflow, call_started, count_bytes, run_daemon, run_daemons, turn_ring,
}

connect-Sound :
    (e : Environ) (c : Clock) (s : ℕ) {fd : Option ℕ} (g : Shim)
    → IsSound fd g
    → IsSound fd (connect_playback e c s g)
unfolding connect_playback ring_flush
connect-Sound e c s {fd} g v = elim (Bool-cases g.http_mode) [
  | inl h ↦ simp h (
      with_arms (consume_arm g.seek_flush_armed) (omega (arith, v.armed))
        (no_marker (with_ring v (flush_ring-Keeps c v.ring_valid))))
  | inr h ↦ simp h v
]

disconnect-Sound :
    (c : Clock) (s : ℕ) {fd : Option ℕ} (g : Shim)
    → IsSound fd g
    → IsSound fd (stream_disconnect c s g)
unfolding stream_disconnect
disconnect-Sound c s {fd} g v =
    elim (Bool-cases (g.http_mode && eq_option g.active_stream (some s))) [
      | inl h ↦ simp h (with_ring v (release-Keeps v.ring_valid))
      | inr h ↦ simp h v
    ]

unref-Sound :
    (c : Clock) (s : ℕ) {fd : Option ℕ} (g : Shim) → IsSound fd g → IsSound fd (stream_unref c s g)
unfolding stream_unref
unref-Sound c s {fd} g v = elim (Bool-cases (eq_option g.active_stream (some s))) [
  | inl h ↦ elim (Bool-cases g.http_mode) [
    | inl m ↦ simp (h, m) (with_ring v (release-Keeps v.ring_valid))
    | inr m ↦ simp (h, m) v
  ]
  | inr h ↦ simp h v
]

cork-Sound :
    (e : Environ) (c : Clock) (s : ℕ) (b : Bool) {fd : Option ℕ} (g : Shim)
    → IsSound fd g
    → IsSound fd (stream_cork e c s b g)
unfolding stream_cork
cork-Sound e c s b {fd} g v =
    elim (Bool-cases (g.http_mode && eq_option g.active_stream (some s))) [
      | inl h ↦ simp h v
      | inr h ↦ simp h v
    ]

unarmed-Sound :
    (e : Environ) (c : Clock) {fd : Option ℕ} (g : Shim)
    → IsSound fd g
    → IsSound fd (unarmed_flush e c g)
unfolding unarmed_flush
unarmed-Sound e c {fd} g v = elim (Bool-cases g.browse_keep) [
  | inl h ↦ simp h v
  | inr h ↦ simp h (with_decision true _ (inl refl) v)
]

flush-off : (e : Environ) (c : Clock) (g : Shim) → g.http_mode ≡ false → stream_flush e c g ≡ g
unfolding stream_flush
flush-off e c g h = simp h

flush-Sound :
    (e : Environ) (c : Clock) {fd : Option ℕ} (g : Shim)
    → IsSound fd g
    → IsSound fd (stream_flush e c g)
unfolding ring_flush
flush-Sound e c {fd} g v =
    let q = no_marker (with_ring v (flush_ring-Keeps c v.ring_valid)) in
    elim (Bool-cases g.http_mode) [
      | inl h ↦ elim (Bool-cases (ltb 0 g.seek_flush_armed)) [
        | inl a ↦
            rw (flush-armed e c g h a)
              (with_arms (consume_arm g.seek_flush_armed) (omega (arith, v.armed)) q)
        | inr a ↦ rw (flush-unarmed e c g h a) (unarmed-Sound e c (flushed e c g) q)
      ]
      | inr h ↦ rw (flush-off e c g h) v
    ]

discard-Sound :
    (e : Environ) (c : Clock) {fd : Option ℕ} (g : Shim)
    → IsSound fd g
    → IsSound fd (flush_discard e c g)
unfolding flush_discard ring_flush
discard-Sound e c g v = with_ring v (flush_ring-Keeps c v.ring_valid)

refresh-Sound :
    (e : Environ) (c : Clock) {fd : Option ℕ} (g : Shim)
    → IsSound fd g
    → IsSound fd (flush_refresh e c g)
unfolding flush_refresh
refresh-Sound e c g v = v

settle-Sound :
    (e : Environ) (c : Clock) {fd : Option ℕ} (g : Shim)
    → IsSound fd g
    → IsSound fd (flush_settle e c g)
unfolding flush_settle
settle-Sound e c {fd} g v = elim (Bool-cases (ltb 0 g.seek_flush_armed)) [
  | inl a ↦ simp a (with_arms (consume_arm g.seek_flush_armed) (omega (arith, v.armed)) v)
  | inr a ↦ simp a (unarmed-Sound e c g v)
]

query-Sound :
    (e : Environ) (c : Clock) (fmt : Format) {fd : Option ℕ} (g : Shim)
    → IsSound fd g
    → IsSound fd (writable_size e c fmt g).0
unfolding writable_size
query-Sound e c fmt {fd} g v = elim (Bool-cases g.http_mode) [ inl h ↦ simp h v | inr h ↦ simp h v ]

new-Sound :
    (s : ℕ) (fmt : Format) {fd : Option ℕ} (g : Shim)
    → IsSound fd g
    → IsSound fd (stream_new s fmt g)
unfolding stream_new
new-Sound s fmt g v = v

free-Sound : (s : ℕ) {fd : Option ℕ} (g : Shim) → IsSound fd g → IsSound fd (stream_free s g)
unfolding stream_free
free-Sound s g v = v

started-Sound :
    (s : ℕ) (cb : Bool) {fd : Option ℕ} (g : Shim)
    → IsSound fd g
    → IsSound fd (stream_set_started_callback s cb g)
unfolding stream_set_started_callback
started-Sound s cb g v = v

underflow-Sound :
    (s : ℕ) (cb : Bool) {fd : Option ℕ} (g : Shim)
    → IsSound fd g
    → IsSound fd (stream_set_underflow_callback s cb g)
unfolding stream_set_underflow_callback
underflow-Sound s cb g v = v

modify-Sound :
    (s : ℕ) (f : Stream → Stream) {fd : Option ℕ} (g : Shim)
    → IsSound fd g
    → IsSound fd (modify_stream s f g)
unfolding modify_stream
modify-Sound s f g v = v

part-Sound : (p : Part) {fd : Option ℕ} (g : Shim) → IsSound fd g → IsSound fd (run_part p g)
unfolding run_part ring_flush
part-Sound (reset_ring c) g v = with_ring v (flush_ring-Keeps c v.ring_valid)
part-Sound use_arm g v = with_arms (consume_arm g.seek_flush_armed) (omega (arith, v.armed)) v
part-Sound (set_active s) g v = v
part-Sound (start_sink e c s) g v = v
part-Sound (make_ready c s) g v = v
part-Sound (end_stream s) g v = v
part-Sound (stop_sink c) g v = v
part-Sound wake_writers g v = with_ring v (release-Keeps v.ring_valid)
part-Sound detach g v = v
part-Sound (flag_cork s b) g v = v

-- Every critical section of the daemon's calls keeps the shared state sound.
pub run_daemon-Sound :
    (d : Daemon) {fd : Option ℕ} (g : Shim) → IsSound fd g → IsSound fd (run_daemon d g)
unfolding run_daemon
run_daemon-Sound (create s fmt) g v = new-Sound s fmt g v
run_daemon-Sound (connect e c s) g v = connect-Sound e c s g v
run_daemon-Sound (disconnect c s) g v = disconnect-Sound c s g v
run_daemon-Sound (unref c s) g v = unref-Sound c s g v
run_daemon-Sound (release s) g v = free-Sound s g v
run_daemon-Sound (on_started s cb) g v = started-Sound s cb g v
run_daemon-Sound (on_underflow s cb) g v = underflow-Sound s cb g v
run_daemon-Sound (cork e c s b) g v = cork-Sound e c s b g v
run_daemon-Sound (flush e c) g v = flush-Sound e c g v
run_daemon-Sound (discard e c) g v = discard-Sound e c g v
run_daemon-Sound (refresh e c) g v = refresh-Sound e c g v
run_daemon-Sound unmark g v = no_marker v
run_daemon-Sound (settle e c) g v = settle-Sound e c g v
run_daemon-Sound (query e c fmt) g v = query-Sound e c fmt g v
run_daemon-Sound enter_write g v = with_ring v (writers-Keeps (g.ring.writers_in + 1) v.ring_valid)
run_daemon-Sound (call_started s) g v = started-Sound s false g v
run_daemon-Sound (count_bytes s n) g v = modify-Sound s _ g v
run_daemon-Sound (charge_sink e c need) g v = v
run_daemon-Sound (push e c x xs w) g v = with_ring v (turn-Keeps e c x xs w v.ring_valid)
run_daemon-Sound finish_push g v = with_ring v (push_exit-Keeps v.ring_valid)
run_daemon-Sound (part p) g v = part-Sound p g v
run_daemon-Sound (give_back_lost e c n) g v = v
run_daemon-Sound leave_write g v = with_ring v (writers-Keeps (g.ring.writers_in - 1) v.ring_valid)

pub run_daemons-Sound :
    (ds : List Daemon) {fd : Option ℕ} (g : Shim) → IsSound fd g → IsSound fd (run_daemons ds g)
unfolding run_daemons
run_daemons-Sound [] g v = v
run_daemons-Sound (d ∷ ds) g v = run_daemons-Sound ds (run_daemon d g) (run_daemon-Sound d g v)
