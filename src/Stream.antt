-- ===== src/Stream.antt =====
-- Plugins/SpotOn/Bin/fake-libpulse/fake-libpulse.c: the `pa_stream_*` calls of the daemon but for the
-- write. The callbacks that they make are the daemon's code; a null stream is `none`.
pub mod Timing
pub mod Write
pub mod Flush
pub mod Parts
pub mod Usec
pub mod Notice
use spoton.Prelude.{
  ℕ, ◌+◌, ◌-◌, ◌*◌, ◌/◌, ◌%◌, ◌^◌, Bool, true, false, not, ◌&&◌, Option, none, some, ltb, leb, ◌==◌,
  if◌then◌else◌, eq_option, min,
}
use mathlib.Core.Option
use spoton.Time.{Clock, mono_ms, vsink_now_us}
use spoton.Env.{Environ, vsink_env_ms, flush_decide_env_ms}
use spoton.Ring.{Ring, ring_bytes_per_sec, next_epoch}
use spoton.Vsink.{Vsink, vsink_sync, vsink_reset, vsink_set_running}
use spoton.Decide.{no_decide, decide_start, nonzero}
use spoton.Shim.{
  Shim, Stream, Format, s16le, StreamState, unconnected, ready, terminated, update, ring_flush,
}

-- A change of the stream at a pointer that is live.
unfoldable pub modify_stream : ℕ → (Stream → Stream) → Shim → Shim
modify_stream s f g = record g { streams = update g.streams s (Option.map f (g.streams s)) }

-- `pa_stream_is_corked`.
abbrev pub is_corked : Option Stream → Bool
is_corked none = false
is_corked (some st) = st.corked

-- `_stream_new` at the address `s` that `calloc` returned.
unfoldable pub stream_new : ℕ → Format → Shim → Shim
stream_new s fmt g = record g {
  streams = update g.streams s (
      some (record {
        state = unconnected;
        format = fmt;
        index = g.next_stream_index;
        corked = false;
        bytes_written = 0;
        connect_time = record { sec = 0; usec = 0 };
        has_started_cb = false;
        has_underflow_cb = false;
      }));
  next_stream_index = (g.next_stream_index + 1) % 2 ^ 32;
}

-- `pa_stream_set_started_callback` and `pa_stream_set_underflow_callback`, with a callback or a null one.
unfoldable pub stream_set_started_callback : ℕ → Bool → Shim → Shim
unfolding modify_stream
stream_set_started_callback s cb = modify_stream s (λ st. record st { has_started_cb = cb })

unfoldable pub stream_set_underflow_callback : ℕ → Bool → Shim → Shim
unfolding modify_stream
stream_set_underflow_callback s cb = modify_stream s (λ st. record st { has_underflow_cb = cb })

-- `pa_stream_get_state` and `pa_stream_get_index`.
abbrev pub stream_get_state : Option Stream → StreamState
stream_get_state none = unconnected
stream_get_state (some st) = st.state

abbrev pub stream_get_index : Option Stream → ℕ
stream_get_index none = 0
stream_get_index (some st) = st.index

-- The sink dies with its stream: `_vsink_reset_locked(); g_vsink.running = 0`.
unfoldable pub vsink_stop : Clock → Vsink → Vsink
unfolding vsink_reset
vsink_stop c v = record (vsink_reset (vsink_now_us c) v) { running = false }

-- The first part of `_ring_release_writers_and_wait`, which wakes the writers. It returns only once
-- `writers_in` less the caller's own write is 0.
unfoldable pub release_writers : Ring → Ring
release_writers r = record r { flush_epoch = next_epoch r.flush_epoch }

unfoldable pub writers_gone : Bool → Ring → Bool
writers_gone in_write r = leb r.writers_in (if in_write then 1 else 0)

-- `pa_stream_unref` up to its wait for the writers, and the `free` behind it.
unfoldable pub stream_unref : Clock → ℕ → Shim → Shim
unfolding vsink_stop release_writers
stream_unref c s g =
    if eq_option g.active_stream (some s)
    then record g {
      active_stream = none;
      vsink = if g.http_mode then vsink_stop c g.vsink else g.vsink;
      ring = if g.http_mode then release_writers g.ring else g.ring;
    }
    else g

unfoldable pub stream_free : ℕ → Shim → Shim
stream_free s g = record g { streams = update g.streams s none }

-- One arm is consumed, floored at 0: the compare-and-swap loops.
abbrev pub consume_arm : ℕ → ℕ
consume_arm n = n - 1

-- `pa_stream_connect_playback` on a live stream; the result is 0, or -1 on a null stream.
unfoldable pub connect_playback : Environ → Clock → ℕ → Shim → Shim
unfolding modify_stream
connect_playback e c s g =
    let g1 = ring_flush c g in
    let sink = vsink_sync (vsink_now_us c) (vsink_env_ms e) g1.vsink in
    let g' =
      if g.http_mode
      then record g1 {
        boundary_at_pushed = none;
        seek_flush_armed = consume_arm g.seek_flush_armed;
        active_stream = some s;
        vsink = vsink_set_running (vsink_now_us c) (not (is_corked (g.streams s))) sink;
      }
      else g in
    modify_stream s (λ st. record st { connect_time = c.wall; state = ready }) g'

-- `pa_stream_disconnect` up to its wait for the writers.
unfoldable pub stream_disconnect : Clock → ℕ → Shim → Shim
unfolding modify_stream vsink_stop release_writers
stream_disconnect c s g =
    let g' = modify_stream s (λ st. record st { state = terminated }) g in
    if g.http_mode && eq_option g.active_stream (some s)
    then record g' { vsink = vsink_stop c g.vsink; ring = release_writers g.ring }
    else g'

-- `pa_stream_cork` on a live stream.
unfoldable pub stream_cork : Environ → Clock → ℕ → Bool → Shim → Shim
unfolding modify_stream
stream_cork e c s b g =
    let g' = modify_stream s (λ st. record st { corked = b }) g in
    let sink = vsink_sync (vsink_now_us c) (vsink_env_ms e) g.vsink in
    if g.http_mode && eq_option g.active_stream (some s)
    then record g' { vsink = vsink_set_running (vsink_now_us c) (not b) sink }
    else g'

-- What an unarmed flush does: browse keep keeps the client and tells the HTTP thread to look for the
-- arm; else the decision window is opened before the disconnect is raised.
unfoldable pub unarmed_flush : Environ → Clock → Shim → Shim
unarmed_flush e c g =
    let now = mono_ms g.target c in
    let ms = flush_decide_env_ms e in
    if g.browse_keep
    then record g { flush_keep_at = nonzero now; flush_keep_pending = true }
    else record g {
      decide = if ltb 0 ms then decide_start g.target now ms else no_decide;
      flush_disconnect = true;
    }

-- `pa_stream_flush` on a live stream. (The timing refresh in it is `Stream.Timing.refresh_timing`,
-- which syncs the sink as the step before it does.)
unfoldable pub stream_flush : Environ → Clock → Shim → Shim
unfolding unarmed_flush
stream_flush e c g =
    let ms = vsink_env_ms e in
    let synced = record g {
      vsink = if ltb 0 ms then vsink_sync (vsink_now_us c) ms g.vsink else g.vsink;
    } in
    let flushed = ring_flush c synced in
    let g1 = record flushed {
      boundary_at_pushed = none;
      vsink = vsink_sync (vsink_now_us c) ms flushed.vsink;
    } in
    if g.http_mode
    then if ltb 0 g.seek_flush_armed
      then record g1 { seek_flush_armed = consume_arm g.seek_flush_armed }
      else unarmed_flush e c g1
    else g

-- The parts of `pa_stream_flush`, each a critical section or one access of a flag, as a thread that runs
-- beside it sees them.
unfoldable pub flush_discard : Environ → Clock → Shim → Shim
flush_discard e c g =
    let ms = vsink_env_ms e in
    ring_flush c
      (record g { vsink = if ltb 0 ms then vsink_sync (vsink_now_us c) ms g.vsink else g.vsink })

unfoldable pub flush_refresh : Environ → Clock → Shim → Shim
flush_refresh e c g = record g { vsink = vsink_sync (vsink_now_us c) (vsink_env_ms e) g.vsink }

abbrev pub flush_unmark : Shim → Shim
flush_unmark g = record g { boundary_at_pushed = none }

unfoldable pub flush_settle : Environ → Clock → Shim → Shim
flush_settle e c g =
    if ltb 0 g.seek_flush_armed
    then record g { seek_flush_armed = consume_arm g.seek_flush_armed }
    else unarmed_flush e c g

-- RING_WRITE_MARGIN.
abbrev pub ring_write_margin : ℕ
ring_write_margin = 128 * 1024

-- What is still free in a virtual sink of `ms` milliseconds, in the stream's input bytes.
unfoldable pub sink_room : Format → ℕ → ℕ → ℕ
sink_room s16le ms q = (ms * ring_bytes_per_sec / 1000 - q) / 2
sink_room fmt ms q = ms * ring_bytes_per_sec / 1000 - q

-- `pa_stream_writable_size` in HTTP mode: the shim, and the size that the daemon is told.
unfoldable pub writable_size : Environ → Clock → Format → Shim → Shim × ℕ
unfolding sink_room
writable_size e c fmt g =
    let ms = vsink_env_ms e in
    let sink = vsink_sync (vsink_now_us c) ms g.vsink in
    let free_space = g.ring.capacity - g.ring.fill - ring_write_margin in
    let told = if ltb 0 ms then min free_space (sink_room fmt ms sink.q_out) else free_space in
    if g.http_mode
    then (
      record g {
        vsink = sink;
        last_writable_reported = told;
        last_writable_query_ms = mono_ms g.target c;
      },
      told,
    )
    else (g, 65536)
