-- ===== src/Stream/Parts.antt =====
-- Plugins/SpotOn/Bin/fake-libpulse/fake-libpulse.c: `pa_stream_connect_playback`, `pa_stream_disconnect`,
-- `pa_stream_unref` and `pa_stream_cork` cut into their critical sections and single accesses, as the
-- HTTP thread that runs beside them sees them in HTTP mode.
use spoton.Prelude.{ℕ, ◌≡◌, Bool, true, not, none, some, eq_option}
use spoton.Time.{Clock, vsink_now_us}
use spoton.Env.{Environ, vsink_env_ms}
use spoton.Vsink.{vsink_sync, vsink_set_running}
use spoton.Shim.{Shim, ready, terminated, ring_flush}
use spoton.Stream.{
  modify_stream, vsink_stop, release_writers, stream_unref, is_corked, consume_arm,
  connect_playback, stream_disconnect, flush_unmark,
}

pub data Part : Type 0 where
  reset_ring : Clock → Part
  use_arm : Part
  set_active : ℕ → Part
  start_sink : Environ → Clock → ℕ → Part
  make_ready : Clock → ℕ → Part
  end_stream : ℕ → Part
  stop_sink : Clock → Part
  wake_writers : Part
  detach : Part
  flag_cork : ℕ → Bool → Part

-- `start_sink` is also the end of a cork of the active stream.
unfoldable pub run_part : Part → Shim → Shim
unfolding modify_stream vsink_stop release_writers
run_part (reset_ring c) g = ring_flush c g
run_part use_arm g = record g { seek_flush_armed = consume_arm g.seek_flush_armed }
run_part (set_active s) g = record g { active_stream = some s }
run_part (start_sink e c s) g = record g {
  vsink =
      vsink_set_running (vsink_now_us c) (not (is_corked (g.streams s)))
        (vsink_sync (vsink_now_us c) (vsink_env_ms e) g.vsink);
}
run_part (make_ready c s) g =
    modify_stream s (λ st. record st { connect_time = c.wall; state = ready }) g
run_part (end_stream s) g = modify_stream s (λ st. record st { state = terminated }) g
run_part (stop_sink c) g = record g { vsink = vsink_stop c g.vsink }
run_part wake_writers g = record g { ring = release_writers g.ring }
run_part detach g = record g { active_stream = none }
run_part (flag_cork s b) g = modify_stream s (λ st. record st { corked = b }) g

-- The calls in one step, and their parts one behind the other.
pub record InParts (e : Environ) (c : Clock) (s : ℕ) (g : Shim) : Type 0 where
  pub connecting :
      connect_playback e c s g
      ≡ run_part (make_ready c s) (
          run_part
            (start_sink e c s)
            (run_part (set_active s) (run_part use_arm (flush_unmark (run_part (reset_ring c) g)))))
  pub disconnecting :
      eq_option g.active_stream (some s) ≡ true
      → stream_disconnect c s g
        ≡ run_part wake_writers (run_part (stop_sink c) (run_part (end_stream s) g))
  pub releasing :
      eq_option g.active_stream (some s) ≡ true
      → stream_unref c s g ≡ run_part wake_writers (run_part (stop_sink c) (run_part detach g))

-- In HTTP mode `pa_stream_connect_playback`, and for the active stream `pa_stream_disconnect` and
-- `pa_stream_unref` up to their wait, are in one step what their parts are one behind the other.
pub stream_calls-InParts :
    (e : Environ) (c : Clock) (s : ℕ) (g : Shim) → g.http_mode ≡ true → InParts e c s g
unfolding run_part connect_playback stream_disconnect stream_unref ring_flush
stream_calls-InParts e c s g h = record {
  connecting = simp h;
  disconnecting = λ q. simp (h, q);
  releasing = λ q. simp (h, q);
}
