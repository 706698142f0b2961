-- ===== src/Http/Decision.antt =====
-- The decision on an unarmed flush, as the loop top takes it: the flush opens a window, the plugin
-- answers with `/seek-keep` or `/boundary`, or does not, and the client is kept or closed.
use spoton.Prelude.{
  ℕ, ◌+◌, ◌-◌, ◌%◌, ◌^◌, ◌<◌, ◌≡◌, ◌≢◌, refl, ap, sym, ◌∙◌, true, false, none, some, arith, is_some,
  ltb, ◌==◌, Bool-cases, inl, inr,
}
use native.Mathlib.Nat.{mod-add-mod}
use spoton.Time.{Target, armhf, lp64, Clock, hold_now_ms, mono_ms, long_mod}
use spoton.Env.{Environ, flush_decide_env_ms}
use spoton.Env.Bounds.{knobs_bounded}
use spoton.Ring.{disconnect, ring_set_client}
use spoton.Decide.{decide_start, flush_decide_open, no_decide}
use spoton.Decide.Window.{window_length}
use spoton.Request.{Pending}
use spoton.Shim.{Shim, decide_open, ring_flush}
use spoton.Control.Place.{place-pushed}
use spoton.Control.{boundary_gen, serve_seek_keep, serve_boundary}
use spoton.Stream.{stream_flush, unarmed_flush}
use spoton.Stream.Flush.{flushed, flush-unarmed}
use spoton.Http.Loop.{Http, flush_close, leave, takeover}
use spoton.Http.Drain.{applies}

-- The loop top with a flush-disconnect pending keeps the client just while the decision is open.
flush_close-open :
    (c : Clock) (fd : ℕ) (h : Http)
    → h.client_fd ≡ some fd
    → h.shim.flush_disconnect ≡ true
    → is_some (flush_close c h).client_fd ≡ decide_open c h.shim
unfolding flush_close
flush_close-open c fd h e f = elim (Bool-cases (decide_open c h.shim)) [
  | inl o ↦ simp o (simp (e, f))
  | inr o ↦ simp o (simp (e, f))
]

later_ms :
    (t : Target) (c c' : Clock) (k : ℕ)
    → hold_now_ms c' ≡ hold_now_ms c + k
    → mono_ms t c' ≡ (mono_ms t c + k) % long_mod t
unfolding mono_ms hold_now_ms
later_ms t c c' k e = ap (λ n. n % long_mod t) e ∙ sym (mod-add-mod (hold_now_ms c) (long_mod t) k)

mono_in : (t : Target) (c : Clock) → mono_ms t c < long_mod t
unfolding mono_ms
mono_in armhf c = omega arith
mono_in lp64 c = omega arith

-- The state that an unarmed flush with browse keep off leaves.
raised :
    (e : Environ) (c : Clock) (g : Shim)
    → g.browse_keep ≡ false
    → 0 < flush_decide_env_ms e
    → unarmed_flush e c g ≡ record g {
      decide = decide_start g.target (mono_ms g.target c) (flush_decide_env_ms e);
      flush_disconnect = true;
    }
unfolding unarmed_flush
raised e c g b p = let t : ltb 0 (flush_decide_env_ms e) ≡ true = ground arith in simp (b, t)

raised-open :
    (e : Environ) (c c' : Clock) (k : ℕ) (g : Shim)
    → g.browse_keep ≡ false
    → 0 < flush_decide_env_ms e
    → hold_now_ms c' ≡ hold_now_ms c + k
    → k < 2 ^ 31 - 5000
    → k ≢ flush_decide_env_ms e
    → decide_open c' (unarmed_flush e c g) ≡ ltb k (flush_decide_env_ms e)
raised-open e c c' k g b p t s ne =
    ap (decide_open c') (raised e c g b p)
    ∙ ap
        (λ n.
          flush_decide_open g.target n true
            (decide_start g.target (mono_ms g.target c) (flush_decide_env_ms e)))
        (later_ms g.target c c' k t)
    ∙ window_length g.target (mono_ms g.target c) (flush_decide_env_ms e) k (mono_in g.target c) p
        (knobs_bounded e).decide s ne

raised-pending :
    (e : Environ) (c : Clock) (g : Shim)
    → g.browse_keep ≡ false
    → (unarmed_flush e c g).flush_disconnect ≡ true
unfolding unarmed_flush
raised-pending e c g b = simp b

-- An unarmed flush with browse keep off and a decision window, and no answer of the plugin: a loop
-- top k milliseconds later, k other than the window's length and below 2 ^ 31 - 5000, finds the
-- client attached exactly if k is less than the window's length.
pub stream_flush-window :
    (e : Environ) (c c' : Clock) (k fd : ℕ) (h : Http)
    → h.client_fd ≡ some fd
    → h.shim.http_mode ≡ true
    → h.shim.seek_flush_armed ≡ 0
    → h.shim.browse_keep ≡ false
    → 0 < flush_decide_env_ms e
    → hold_now_ms c' ≡ hold_now_ms c + k
    → k < 2 ^ 31 - 5000
    → k ≢ flush_decide_env_ms e
    → is_some (flush_close c' (record h { shim = stream_flush e c h.shim })).client_fd
      ≡ ltb k (flush_decide_env_ms e)
unfolding ring_flush
stream_flush-window e c c' k fd h at http arm keep p t s ne =
    let f = flush-unarmed e c h.shim http (ground arith) in
    flush_close-open c' fd (record h { shim = stream_flush e c h.shim }) at
      (ap (λ g. g.flush_disconnect) f ∙ raised-pending e c (flushed e c h.shim) keep)
    ∙ ap (decide_open c') f
    ∙ raised-open e c c' k (flushed e c h.shim) keep p t s ne

-- `/seek-keep` inside the window ends the flush: the client stays attached at every later loop top, and
-- its ring is untouched.
pub serve_seek_keep-stays :
    (c c' : Clock) (fd : ℕ) (p : Pending) (h : Http)
    → h.client_fd ≡ some fd
    → p.from_loopback ≡ true
    → h.shim.flush_disconnect ≡ true
    → decide_open c h.shim ≡ true
    → flush_close c' (record h { shim = (serve_seek_keep c h.client_fd p h.shim).shim })
      ≡ record h { shim = record (h.shim) { flush_disconnect = false; decide = no_decide } }
unfolding flush_close serve_seek_keep
serve_seek_keep-stays c c' fd p h at l f o = simp o (simp (at, l, f))

-- What `/boundary` inside the window leads to at the next loop top.
pub record Departed (h h' : Http) : Type 0 where
  pub detached : (h'.client_fd ≡ none) × (h'.shim.ring.client_connected ≡ false)
  pub settled : (h'.shim.flush_disconnect ≡ false) × (h'.shim.decide.deadline ≡ 0)
  pub unmarked : h'.shim.boundary_at_pushed ≡ none
  pub departed : h'.shim.departed_client_generation ≡ some h.shim.client_generation
  pub unarmed : h'.shim.seek_flush_armed ≡ 0
  pub pushed : h'.shim.ring.total_pushed ≡ h.shim.ring.total_pushed

-- `/boundary` inside the window, as far as the loop top looks.
record Promoted (g g' : Shim) : Type 0 where
  pub pending : g'.flush_disconnect ≡ true
  final : g'.decide.deadline ≡ 0
  same : (g'.client_generation ≡ g.client_generation) × (g'.ring.total_pushed ≡ g.ring.total_pushed)
  unarmed : g'.seek_flush_armed ≡ 0

serve_boundary-Promoted :
    (c : Clock) (fd : ℕ) (p : Pending) (h : Http)
    → h.client_fd ≡ some fd
    → p.from_loopback ≡ true
    → h.shim.flush_disconnect ≡ true
    → decide_open c h.shim ≡ true
    → Promoted h.shim (serve_boundary c h.client_fd p h.shim).shim
unfolding serve_boundary
serve_boundary-Promoted c fd p h at l f o = simp o (
    simp (at, l, f)
      (record {
        pending = refl;
        final = refl;
        same = (refl, place-pushed c _ h.shim.ring);
        unarmed = refl;
      }))

-- A loop top with a final decision.
abbrev closed : Clock → Http → Http
closed c h = record h {
  client_fd = none;
  shim = record (leave c disconnect h.shim) {
    decide = no_decide;
    flush_disconnect = false;
    awaiting_first_drain = true;
    boundary_at_pushed = none;
    departed_client_generation = some h.shim.client_generation;
  };
}

not_open : (c : Clock) (g : Shim) → g.decide.deadline ≡ 0 → decide_open c g ≡ false
unfolding flush_decide_open
not_open c g d = ground arith

flush_close-final :
    (c : Clock) (fd : ℕ) (h : Http)
    → h.client_fd ≡ some fd
    → h.shim.flush_disconnect ≡ true
    → h.shim.decide.deadline ≡ 0
    → flush_close c h ≡ closed c h
unfolding flush_close
flush_close-final c fd h at f d = simp (not_open c h.shim d) (simp (at, f))

-- `/boundary` inside the window ends it: the next loop top, whenever it comes, closes the client,
-- records it as departed, drops its marker, and leaves no flush-disconnect, decision or arm.
pub serve_boundary-departs :
    (c c' : Clock) (fd : ℕ) (p : Pending) (h : Http)
    → h.client_fd ≡ some fd
    → p.from_loopback ≡ true
    → h.shim.flush_disconnect ≡ true
    → decide_open c h.shim ≡ true
    → Departed h (flush_close c' (record h { shim = (serve_boundary c h.client_fd p h.shim).shim }))
unfolding ring_set_client
serve_boundary-departs c c' fd p h at l f o =
    let e = serve_boundary-Promoted c fd p h at l f o in
    let g = (serve_boundary c h.client_fd p h.shim).shim in
    let q = flush_close-final c' fd (record h { shim = g }) at e.pending e.final in
    record {
      detached = (ap (λ z. z.client_fd) q, ap (λ z. z.shim.ring.client_connected) q);
      settled = (ap (λ z. z.shim.flush_disconnect) q, ap (λ z. z.shim.decide.deadline) q);
      unmarked = ap (λ z. z.shim.boundary_at_pushed) q;
      departed = ap (λ z. z.shim.departed_client_generation) q ∙ ap some e.same.0;
      unarmed = ap (λ z. z.shim.seek_flush_armed) q ∙ e.unarmed;
      pushed = ap (λ z. z.shim.ring.total_pushed) q ∙ e.same.1;
    }

other_gen : (n : ℕ) → (n == n + 1) ≡ false
other_gen n = ground arith

-- A boundary that comes behind the close of the client it is for bounds that client alone: the next
-- client that is attached is another generation, to which the marker does not apply.
pub late_boundary-stale :
    (c c' : Clock) (p : Pending) (h : Http)
    → h.client_fd ≡ none
    → h.shim.departed_client_generation ≡ some h.shim.client_generation
    → p.from_loopback ≡ true
    → let h' =
        takeover c' true (record h { shim = (serve_boundary c h.client_fd p h.shim).shim }) in
      (h'.shim.client_generation ≡ h.shim.client_generation + 1)
      × (applies h'.shim.boundary_client_generation h'.shim.client_generation ≡ false)
      × (h'.shim.ring.client_connected ≡ true)
unfolding takeover serve_boundary ring_set_client boundary_gen
late_boundary-stale c c' p h at d l =
    simp (at, d, l) (refl, other_gen h.shim.client_generation, refl)
