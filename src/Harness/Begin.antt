-- ===== src/Harness/Begin.antt =====
-- What `_test_vsink_begin` leaves, whatever it finds.
use spoton.Prelude.{
  ℕ, ◌≡◌, refl, ap, ap₂, sym, ◌∙◌, Bool, true, false, not, Option, ltb, if◌then◌else◌, arith,
}
use mathlib.Core.Path.{subst}
use spoton.Env.{vsink_env_ms}
use spoton.Vsink.{Vsink, vsink_sync, vsink_settle, vsink_reset, vsink_set_running}
use spoton.Shim.{Format}
use spoton.Stream.{modify_stream}
use spoton.Harness.{
  Harness, test_env, test_cork, test_flush, ring_reset, test_ring_reset, set_up, test_begin,
}
use spoton.Harness.Facts.{Ready, At, cork-At, flush-At, flushed_sink, ring_reset-IsValid}

-- The sink of a case that begins.
abbrev pub new_sink : ℕ → ℕ → Bool → ℕ → Vsink
new_sink now ms running n = record {
  q_out = 0;
  frac = 0;
  last_us = if ltb 0 ms then now else 0;
  running = running;
  t_ms = ms;
  suppressed = n;
}

-- What a reading leaves as it is.
synced_keeps :
    (now ms : ℕ) (v : Vsink)
    → ((vsink_sync now ms v).t_ms ≡ ms)
      × ((vsink_sync now ms v).running ≡ v.running)
      × ((vsink_sync now ms v).suppressed ≡ v.suppressed)
unfolding vsink_sync vsink_settle
synced_keeps now ms v = ground arith

sync-new :
    (now ms : ℕ) (b : Bool) (n : ℕ) → vsink_sync now ms (new_sink now ms b n) ≡ new_sink now ms b n
unfolding vsink_sync vsink_settle
sync-new now ms b n = ground arith

reset-new :
    (now ms : ℕ) (v : Vsink)
    → v.t_ms ≡ ms
    → vsink_reset now v ≡ new_sink now ms v.running v.suppressed
unfolding vsink_reset
reset-new now ms v h = rw (sym h) refl

-- The reading before a flush.
read_keeps :
    (now ms : ℕ) (b : Bool) (v : Vsink)
    → v.t_ms ≡ ms
    → ((if b then vsink_sync now ms v else v).t_ms ≡ ms)
      × ((if b then vsink_sync now ms v else v).running ≡ v.running)
      × ((if b then vsink_sync now ms v else v).suppressed ≡ v.suppressed)
read_keeps now ms true v h = synced_keeps now ms v
read_keeps now ms false v h = (h, refl, refl)

pub flushed_new :
    (now ms : ℕ) (v : Vsink)
    → v.t_ms ≡ ms
    → flushed_sink now ms v ≡ new_sink now ms v.running v.suppressed
flushed_new now ms v h =
    let k = read_keeps now ms (ltb 0 ms) v h in
    ap (vsink_sync now ms) (reset-new now ms _ k.0)
    ∙ sync-new now ms _ _
    ∙ ap₂ (new_sink now ms) k.1 k.2

pub reset-At :
    {s : ℕ} {v : Vsink} {fill now ms : ℕ} {h : Harness}
    → At s v fill now ms h
    → At s v 0 now ms (test_ring_reset h)
unfolding test_ring_reset ring_reset
reset-At a = record {
  ready = record {
    valid = ring_reset-IsValid a.ready.valid;
    size = a.ready.size;
    http = a.ready.http;
    active = a.ready.active;
  };
  sink = a.sink;
  held = refl;
  time = a.time;
  knob = a.knob;
}

pub begin-At :
    (s : ℕ) (fmt : Format) (ms : Option ℕ) (t : ℕ) (b : Bool) (h : Harness)
    → vsink_env_ms (test_env ms) ≡ t
    → Ready s h
    → At s
        (new_sink 7_000_000_000 t (not b) h.shim.vsink.suppressed)
        0
        7_000_000_000
        t
        (test_begin s fmt ms b h)
unfolding test_begin set_up modify_stream vsink_set_running
begin-At s fmt ms t b h e r =
    let now : ℕ = 7_000_000_000 in
    let started : At s h.shim.vsink h.shim.ring.fill now t (set_up s fmt ms h) = record {
      ready = record { valid = r.valid; size = r.size; http = r.http; active = r.active };
      sink = refl;
      held = refl;
      time = refl;
      knob = e;
    } in
    reset-At (
      subst (λ v. At s v 0 now t (test_flush (test_cork s b (set_up s fmt ms h))))
        (flushed_new now t _ (synced_keeps now t h.shim.vsink).0
          ∙ ap (new_sink now t (not b)) (synced_keeps now t h.shim.vsink).2)
        (flush-At (cork-At started b)))
