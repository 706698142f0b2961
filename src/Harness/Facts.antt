-- ===== src/Harness/Facts.antt =====
-- What the harness's steps do to what its cases look at: the sink, the fill, the clock and the knob.
use spoton.Prelude.{
  ℕ, ◌+◌, ◌-◌, ◌*◌, ◌≡◌, refl, ap, ap₂, sym, ◌∙◌, min, Bool, true, not, some, ltb, ◌==◌,
  if◌then◌else◌, arith,
}
use mathlib.Core.Path.{subst}
use spoton.Time.{Clock, mono_ms, vsink_now_us}
use spoton.Env.{Environ, vsink_env_ms}
use spoton.Ring.{Ring, ring_capacity, hold_release}
use spoton.Ring.Pop.{flush_ring}
use spoton.Ring.Valid.{IsValid, flush_ring-IsValid}
use spoton.Vsink.{Vsink, vsink_sync, vsink_reset, vsink_set_running}
use spoton.Shim.{Shim, Format, ring_flush}
use spoton.Stream.{
  modify_stream, stream_cork, stream_flush, writable_size, sink_room, ring_write_margin,
}
use spoton.Harness.{Harness, clock, advance_ms, test_cork, test_flush, ring_reset, ask}

-- Before a case: a valid ring of the library's size, HTTP mode, and the stream that is the active one.
pub record Ready (s : ℕ) (h : Harness) : Type 0 where
  pub valid : IsValid h.shim.ring
  pub size : h.shim.ring.capacity ≡ ring_capacity
  pub http : h.shim.http_mode ≡ true
  pub active : h.shim.active_stream ≡ some s

pub record At (s : ℕ) (v : Vsink) (fill now ms : ℕ) (h : Harness) : Type 0 where
  pub ready : Ready s h
  pub sink : h.shim.vsink ≡ v
  pub held : h.shim.ring.fill ≡ fill
  pub time : h.clock_us ≡ now
  pub knob : vsink_env_ms h.env ≡ ms

pub frozen : (h : Harness) → vsink_now_us (clock h) ≡ h.clock_us
unfolding vsink_now_us
frozen h = omega arith

same : (s : ℕ) → (s == s) ≡ true
same s = ground arith

pub corked :
    (e : Environ) (c : Clock) (s : ℕ) (b : Bool) (g : Shim)
    → g.http_mode ≡ true
    → g.active_stream ≡ some s
    → stream_cork e c s b g ≡ record (modify_stream s (λ st. record st { corked = b }) g) {
      vsink =
          vsink_set_running
            (vsink_now_us c)
            (not b)
            (vsink_sync (vsink_now_us c) (vsink_env_ms e) g.vsink);
    }
unfolding stream_cork
corked e c s b g p q = rw (p, q, same s) refl

asked :
    (e : Environ) (c : Clock) (fmt : Format) (g : Shim)
    → g.http_mode ≡ true
    → (writable_size e c fmt g).0 ≡ record g {
      vsink = vsink_sync (vsink_now_us c) (vsink_env_ms e) g.vsink;
      last_writable_reported = (writable_size e c fmt g).1;
      last_writable_query_ms = mono_ms g.target c;
    }
unfolding writable_size
asked e c fmt g p = rw (p) refl

-- The answer of `pa_stream_writable_size`.
unfoldable pub told : ℕ → ℕ → Vsink → Format → ℕ
told ms fill v fmt =
    let free_space = ring_capacity - fill - ring_write_margin in
    if ltb 0 ms then min free_space (sink_room fmt ms v.q_out) else free_space

-- The sink behind a flush.
abbrev pub flushed_sink : ℕ → ℕ → Vsink → Vsink
flushed_sink now ms v =
    vsink_sync now ms (vsink_reset now (if ltb 0 ms then vsink_sync now ms v else v))

flush_ring_fill : (c : Clock) (r : Ring) → (flush_ring c r).fill ≡ 0
unfolding flush_ring hold_release
flush_ring_fill c r = ground arith

flush_ring_size : (c : Clock) (r : Ring) → (flush_ring c r).capacity ≡ r.capacity
unfolding flush_ring hold_release
flush_ring_size c r = ground arith

module _ {s : ℕ} {v : Vsink} {fill now ms : ℕ} {h : Harness} (a : At s v fill now ms h) where
  pub synced :
      vsink_sync (vsink_now_us (clock h)) (vsink_env_ms h.env) h.shim.vsink ≡ vsink_sync now ms v
  synced = rw (frozen h, a.time, a.knob, a.sink) refl

  -- A change of the shim that keeps the ring, the mode and the active stream.
  pub moved :
      (g : Shim) (w : Vsink)
      → g.ring ≡ h.shim.ring
      → g.http_mode ≡ h.shim.http_mode
      → g.active_stream ≡ h.shim.active_stream
      → g.vsink ≡ w
      → At s w fill now ms (record h { shim = g })
  moved g w r m i q = record {
    ready = record {
      valid = subst IsValid (sym r) a.ready.valid;
      size = ap (λ r. r.capacity) r ∙ a.ready.size;
      http = m ∙ a.ready.http;
      active = i ∙ a.ready.active;
    };
    sink = q;
    held = ap (λ r. r.fill) r ∙ a.held;
    time = a.time;
    knob = a.knob;
  }

  pub advance-At : (n : ℕ) → At s v fill (now + n * 1000) ms (advance_ms n h)
  advance-At n = record {
    ready = record {
      valid = a.ready.valid;
      size = a.ready.size;
      http = a.ready.http;
      active = a.ready.active;
    };
    sink = a.sink;
    held = a.held;
    time = ap (λ t. t + n * 1000) a.time;
    knob = a.knob;
  }

  pub cork-At :
      (b : Bool)
      → At s (vsink_set_running now (not b) (vsink_sync now ms v)) fill now ms (test_cork s b h)
  unfolding test_cork modify_stream
  cork-At b =
      subst
        (λ g.
          At s (vsink_set_running now (not b) (vsink_sync now ms v)) fill now ms
            (record h { shim = g }))
        (sym (corked h.env (clock h) s b h.shim a.ready.http a.ready.active))
        (moved _ _ refl refl refl
          (ap₂ (λ n. vsink_set_running n (not b)) (frozen h ∙ a.time) synced))

  pub ask-At : (fmt : Format) → At s (vsink_sync now ms v) fill now ms (ask fmt h).0
  unfolding ask
  ask-At fmt =
      subst (λ g. At s (vsink_sync now ms v) fill now ms (record h { shim = g }))
        (sym (asked h.env (clock h) fmt h.shim a.ready.http)) (moved _ _ refl refl refl synced)

  pub ask-told : (fmt : Format) → (ask fmt h).1 ≡ told ms fill (vsink_sync now ms v) fmt
  unfolding ask writable_size told
  ask-told fmt = rw (a.ready.http, synced, a.knob, a.held, a.ready.size) refl

  sink_flushed :
      flushed_sink (vsink_now_us (clock h)) (vsink_env_ms h.env) h.shim.vsink
      ≡ flushed_sink now ms v
  sink_flushed = rw (frozen h, a.time, a.knob, a.sink) refl

  pub flush-At : At s (flushed_sink now ms v) 0 now ms (test_flush h)
  unfolding test_flush stream_flush ring_flush
  flush-At = record {
    ready = record {
      valid = simp (a.ready.http) (flush_ring-IsValid (clock h) a.ready.valid);
      size = simp (a.ready.http) (flush_ring_size (clock h) h.shim.ring ∙ a.ready.size);
      http = simp (a.ready.http) refl;
      active = simp (a.ready.http) (a.ready.active);
    };
    sink = simp (a.ready.http) sink_flushed;
    held = simp (a.ready.http) (flush_ring_fill (clock h) h.shim.ring);
    time = a.time;
    knob = a.knob;
  }

pub ring_reset-IsValid : {r : Ring} → IsValid r → IsValid (ring_reset r)
unfolding ring_reset
ring_reset-IsValid v = ground arith
