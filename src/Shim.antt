-- ===== src/Shim.antt =====
-- Plugins/SpotOn/Bin/fake-libpulse/fake-libpulse.c: the globals that the daemon's threads and the
-- HTTP thread share, and the live streams. A flag is read and written whole, in the step that does it.
use spoton.Prelude.{ℕ, Bool, false, Option, none, Memory, ◌==◌, if◌then◌else◌}
use spoton.Time.{Target, Timeval, Clock, mono_ms, vsink_now_us}
use spoton.Ring.{Ring, ring_init}
use spoton.Ring.Pop.{flush_ring}
use spoton.Vsink.{Vsink, vsink_start, vsink_reset}
use spoton.Decide.{Decide, no_decide, flush_decide_open}

pub data StreamState : Type 0 where
  unconnected creating ready failed terminated : StreamState

-- `pa_sample_format_t`; `other` is any format that the shim does not convert.
pub data Format : Type 0 where
  s16le s32le float32le other : Format

-- `pa_stream`, with whether a started or an underflow callback is set in place of their pointers.
-- The timing is computed when it is asked for (`Stream.Timing`).
pub record Stream : Type 0 where
  pub state : StreamState
  pub format : Format
  pub index : ℕ
  pub corked : Bool
  pub bytes_written : ℕ
  pub connect_time : Timeval
  pub has_started_cb : Bool
  pub has_underflow_cb : Bool

-- A pointer to a stream is a number; `streams` gives the stream that lives there.
pub record Shim : Type 0 where
  pub target : Target
  pub http_mode : Bool
  pub ring : Ring
  pub vsink : Vsink
  pub flush_disconnect : Bool
  pub seek_flush_armed : ℕ
  pub seek_arm_at : Timeval
  pub browse_keep : Bool
  pub flush_keep_pending : Bool
  pub flush_keep_at : ℕ
  pub decide : Decide
  pub boundary_at_pushed : Option ℕ
  pub client_generation : ℕ
  pub boundary_client_generation : Option ℕ
  pub departed_client_generation : Option ℕ
  pub awaiting_first_drain : Bool
  pub active_stream : Option ℕ
  pub streams : ℕ → Option Stream
  pub next_stream_index : ℕ
  pub last_writable_reported : ℕ
  pub last_writable_query_ms : ℕ

-- The state that the constructor leaves, with the HTTP mode on or off.
abbrev pub start : Target → Bool → Memory → Shim
start target http_mode block = record {
  target = target;
  http_mode = http_mode;
  ring = ring_init block;
  vsink = vsink_start;
  flush_disconnect = false;
  seek_flush_armed = 0;
  seek_arm_at = record { sec = 0; usec = 0 };
  browse_keep = false;
  flush_keep_pending = false;
  flush_keep_at = 0;
  decide = no_decide;
  boundary_at_pushed = none;
  client_generation = 0;
  boundary_client_generation = none;
  departed_client_generation = none;
  awaiting_first_drain = false;
  active_stream = none;
  streams = λ _. none;
  next_stream_index = 1;
  last_writable_reported = 0;
  last_writable_query_ms = 0;
}

abbrev pub update {ℓ} : {A : Type ℓ} → (ℕ → A) → ℕ → A → ℕ → A
update f i a j = if i == j then a else f j

-- `_flush_decide_open()` now.
abbrev pub decide_open : Clock → Shim → Bool
decide_open c g = flush_decide_open g.target (mono_ms g.target c) g.flush_disconnect g.decide

-- `_ring_flush(&g_ring)`, which also empties the virtual sink.
unfoldable pub ring_flush : Clock → Shim → Shim
ring_flush c g = record g {
  ring = flush_ring c g.ring;
  vsink = vsink_reset (vsink_now_us c) g.vsink;
}
