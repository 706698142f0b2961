-- ===== src/System/Sink.antt =====
-- The virtual sink under the daemon's calls, in any order.
use spoton.Prelude.{
  ℕ, ◌≡◌, refl, ap, sym, ◌∙◌, Bool, false, not, ◌&&◌, some, List, [], ◌∷◌, ◌++◌, ltb, if◌then◌else◌,
  eq_option, arith, ◌==◌,
}
use spoton.Time.{Clock, vsink_now_us}
use spoton.Env.{Environ, vsink_env_ms}
use mathlib.Core.Path.{subst}
use spoton.Vsink.{Vsink, vsink_reset, vsink_set_running, vsink_settle}
use spoton.Http.Drain.{signal_underrun}
use spoton.Vsink.Account.{
  SinkStep, sync, charge, give_back, set_running, reset, settle_now, suppress, run_sink, run_sinks,
  Account, account, AtRate, Ordered, run_sinks-AtRate,
}
use spoton.Shim.{Shim, ring_flush}
use spoton.Stream.{
  is_corked, modify_stream, stream_new, stream_free, stream_set_started_callback,
  stream_set_underflow_callback, vsink_stop, stream_unref, connect_playback, stream_disconnect,
  stream_cork, unarmed_flush, stream_flush, flush_discard, flush_refresh, flush_settle,
  writable_size,
}
use spoton.Stream.Parts.{
  Part, reset_ring, use_arm, set_active, start_sink, make_ready, end_stream, stop_sink,
  wake_writers, detach, flag_cork, run_part,
}
use spoton.Daemon.{
  Daemon, create, connect, disconnect, unref, release, on_started, on_underflow, cork, flush,
  discard, refresh, unmark, settle, query, enter_write, call_started, charge_sink, push,
  finish_push, count_bytes, give_back_lost, leave_write, part, run_daemon,
}

-- The sites at one reading of the clock.
abbrev at_once : Clock → List SinkStep → List (ℕ × SinkStep)
at_once c [] = []
at_once c (s ∷ ss) = (vsink_now_us c, s) ∷ at_once c ss

abbrev part_sites : Part → Shim → List (ℕ × SinkStep)
part_sites (reset_ring c) g = at_once c (reset ∷ [])
part_sites use_arm g = []
part_sites (set_active s) g = []
part_sites (start_sink e c s) g =
    at_once c (sync (vsink_env_ms e) ∷ set_running (not (is_corked (g.streams s))) ∷ [])
part_sites (make_ready c s) g = []
part_sites (end_stream s) g = []
part_sites (stop_sink c) g = at_once c (reset ∷ set_running false ∷ [])
part_sites wake_writers g = []
part_sites detach g = []
part_sites (flag_cork s b) g = []

abbrev if_active : Shim → ℕ → List (ℕ × SinkStep) → List (ℕ × SinkStep)
if_active g s ss = if g.http_mode && eq_option g.active_stream (some s) then ss else []

-- A flush reads a sink that is on before it empties it.
abbrev discard_sites : Environ → Clock → List (ℕ × SinkStep)
discard_sites e c =
    if ltb 0 (vsink_env_ms e)
    then at_once c (sync (vsink_env_ms e) ∷ reset ∷ [])
    else at_once c (reset ∷ [])

-- The sites of the sink that a daemon's step comes to.
unfoldable pub sites : Daemon → Shim → List (ℕ × SinkStep)
sites (create s fmt) g = []
sites (connect e c s) g =
    if g.http_mode
    then at_once c
        (reset ∷ sync (vsink_env_ms e) ∷ set_running (not (is_corked (g.streams s))) ∷ [])
    else []
sites (disconnect c s) g = if_active g s (at_once c (reset ∷ set_running false ∷ []))
sites (unref c s) g = if_active g s (at_once c (reset ∷ set_running false ∷ []))
sites (release s) g = []
sites (on_started s cb) g = []
sites (on_underflow s cb) g = []
sites (cork e c s b) g =
    if_active g s (at_once c (sync (vsink_env_ms e) ∷ set_running (not b) ∷ []))
sites (flush e c) g =
    if g.http_mode then discard_sites e c ++ at_once c (sync (vsink_env_ms e) ∷ []) else []
sites (discard e c) g = discard_sites e c
sites (refresh e c) g = at_once c (sync (vsink_env_ms e) ∷ [])
sites unmark g = []
sites (settle e c) g = []
sites (query e c fmt) g = if g.http_mode then at_once c (sync (vsink_env_ms e) ∷ []) else []
sites enter_write g = []
sites (call_started s) g = []
sites (charge_sink e c n) g = at_once c (charge (vsink_env_ms e) n ∷ [])
sites (push e c x xs w) g = []
sites finish_push g = []
sites (count_bytes s n) g = []
sites (give_back_lost e c n) g = if ltb 0 (vsink_env_ms e) then at_once c (give_back n ∷ []) else []
sites leave_write g = []
sites (part p) g = part_sites p g

part-sites : (p : Part) (g : Shim) → (run_part p g).vsink ≡ run_sinks (part_sites p g) g.vsink
unfolding run_part run_sinks run_sink modify_stream vsink_stop ring_flush vsink_reset
    vsink_set_running
part-sites (reset_ring c) g = refl
part-sites use_arm g = refl
part-sites (set_active s) g = refl
part-sites (start_sink e c s) g = refl
part-sites (make_ready c s) g = refl
part-sites (end_stream s) g = refl
part-sites (stop_sink c) g = refl
part-sites wake_writers g = refl
part-sites detach g = refl
part-sites (flag_cork s b) g = refl

-- A step of the daemon moves the sink by its sites, and in no other way.
run_daemon-sites : (d : Daemon) (g : Shim) → (run_daemon d g).vsink ≡ run_sinks (sites d g) g.vsink
unfolding run_daemon sites run_sinks run_sink modify_stream vsink_stop ring_flush vsink_reset
    vsink_set_running stream_unref connect_playback stream_disconnect stream_cork stream_flush
    flush_discard flush_refresh flush_settle writable_size unarmed_flush stream_new stream_free
    stream_set_started_callback stream_set_underflow_callback
run_daemon-sites (create s fmt) g = refl
run_daemon-sites (connect e c s) g = ground arith
run_daemon-sites (disconnect c s) g = ground arith
run_daemon-sites (unref c s) g = ground arith
run_daemon-sites (release s) g = refl
run_daemon-sites (on_started s cb) g = refl
run_daemon-sites (on_underflow s cb) g = refl
run_daemon-sites (cork e c s b) g = ground arith
run_daemon-sites (flush e c) g = ground arith
run_daemon-sites (discard e c) g = ground arith
run_daemon-sites (refresh e c) g = refl
run_daemon-sites unmark g = refl
run_daemon-sites (settle e c) g = ground arith
run_daemon-sites (query e c fmt) g = ground arith
run_daemon-sites enter_write g = refl
run_daemon-sites (call_started s) g = refl
run_daemon-sites (charge_sink e c n) g = refl
run_daemon-sites (push e c x xs w) g = refl
run_daemon-sites finish_push g = refl
run_daemon-sites (count_bytes s n) g = refl
run_daemon-sites (give_back_lost e c n) g = ground arith
run_daemon-sites leave_write g = refl
run_daemon-sites (part p) g = part-sites p g

-- What the HTTP thread does at its one site, the underrun edge.
abbrev edge_sites : Clock → Bool → Shim → List (ℕ × SinkStep)
edge_sites c wants g =
    if (g.ring.fill == 0) && (not g.ring.underrun_fired && wants)
    then if ltb 0 g.vsink.t_ms
      then if ltb 0 (vsink_settle (vsink_now_us c) g.vsink).q_out
        then at_once c (settle_now ∷ suppress ∷ [])
        else at_once c (settle_now ∷ [])
      else []
    else []

edge-sites :
    (c : Clock) (wants : Bool) (g : Shim)
    → (signal_underrun c wants g).1.vsink ≡ run_sinks (edge_sites c wants g) g.vsink
unfolding signal_underrun run_sinks run_sink
edge-sites c wants g = ground arith

-- A step of the daemon, or the HTTP thread's underrun edge.
pub data Touch : Type 0 where
  call : Daemon → Touch
  edge : Clock → Bool → Touch

unfoldable pub run_touch : Touch → Shim → Shim
run_touch (call d) g = run_daemon d g
run_touch (edge c wants) g = (signal_underrun c wants g).1

abbrev touch_sites : Touch → Shim → List (ℕ × SinkStep)
touch_sites (call d) g = sites d g
touch_sites (edge c wants) g = edge_sites c wants g

unfoldable pub run_touches : List Touch → Shim → Shim
run_touches [] g = g
run_touches (t ∷ ts) g = run_touches ts (run_touch t g)

unfoldable pub all_sites : List Touch → Shim → List (ℕ × SinkStep)
all_sites [] g = []
all_sites (t ∷ ts) g = touch_sites t g ++ all_sites ts (run_touch t g)

touch-sites : (t : Touch) (g : Shim) → (run_touch t g).vsink ≡ run_sinks (touch_sites t g) g.vsink
unfolding run_touch
touch-sites (call d) g = run_daemon-sites d g
touch-sites (edge c wants) g = edge-sites c wants g

run_sinks-append :
    (ss ts : List (ℕ × SinkStep)) (v : Vsink)
    → run_sinks (ss ++ ts) v ≡ run_sinks ts (run_sinks ss v)
unfolding run_sinks
run_sinks-append [] ts v = refl
run_sinks-append ((now, s) ∷ ss) ts v = run_sinks-append ss ts (run_sink now s v)

touches-sites :
    (ts : List Touch) (g : Shim) → (run_touches ts g).vsink ≡ run_sinks (all_sites ts g) g.vsink
unfolding run_touches all_sites run_sinks
touches-sites [] g = refl
touches-sites (t ∷ ts) g =
    touches-sites ts (run_touch t g)
    ∙ ap (run_sinks (all_sites ts (run_touch t g))) (touch-sites t g)
    ∙ sym (run_sinks-append (touch_sites t g) (all_sites ts (run_touch t g)) g.vsink)

-- However the daemon's calls, whole or in parts, and the HTTP thread's underrun edges follow each
-- other, with clocks that do not run backwards: each byte that a write charged to the virtual sink is
-- in it, played, dropped by a flush, a change of T or the end of the stream, or taken back by a write
-- that the ring refused or a flush abandoned; and it has played no faster than the stream's rate while it ran, and nothing while it was corked.
pub run_touches-AtRate :
    (ts : List Touch) (g : Shim) (a : Account)
    → Ordered a.at (all_sites ts g)
    → AtRate g.vsink a
    → AtRate (run_touches ts g).vsink (account (all_sites ts g) g.vsink a)
run_touches-AtRate ts g a o r =
    subst (λ v. AtRate v (account (all_sites ts g) g.vsink a)) (sym (touches-sites ts g))
      (run_sinks-AtRate (all_sites ts g) g.vsink a o r)
