-- ===== src/Stream/Flush.antt =====
-- The daemon's flush and the plugin's `POST /seek-arm` come in either order.
use spoton.Prelude.{
  Bool-cases, ℕ, ◌+◌, ◌≡◌, ◌≤◌, refl, true, false, none, some, arith, ◌⊎◌, inl, inr, if◌then◌else◌,
  ltb, sym, ap, ◌∙◌,
}
use spoton.Time.{Clock, vsink_now_us, mono_since, mono_ms, hold_now_ms, Target, armhf, lp64}
use spoton.Env.{Environ, vsink_env_ms}
use spoton.Vsink.{vsink_sync}
use spoton.Decide.{no_decide, nonzero}
use spoton.Request.{Pending}
use spoton.Shim.{Shim, ring_flush}
use spoton.Control.{serve_seek_arm, keep_claims}
use spoton.Stream.{
  flush_discard, flush_refresh, flush_unmark, flush_settle, stream_flush, unarmed_flush,
  consume_arm,
}

-- The ring, the sink and the marker behind a flush.
abbrev pub flushed : Environ → Clock → Shim → Shim
flushed e c g =
    let ms = vsink_env_ms e in
    let g' =
      ring_flush c (record g {
        vsink = if ltb 0 ms then vsink_sync (vsink_now_us c) ms g.vsink else g.vsink;
      }) in
    record g' { boundary_at_pushed = none; vsink = vsink_sync (vsink_now_us c) ms g'.vsink }

pub flush-armed :
    (e : Environ) (c : Clock) (g : Shim)
    → g.http_mode ≡ true
    → ltb 0 g.seek_flush_armed ≡ true
    → stream_flush e c g
      ≡ record (flushed e c g) { seek_flush_armed = consume_arm g.seek_flush_armed }
unfolding stream_flush
flush-armed e c g h a = simp (h, a)

pub flush-unarmed :
    (e : Environ) (c : Clock) (g : Shim)
    → g.http_mode ≡ true
    → ltb 0 g.seek_flush_armed ≡ false
    → stream_flush e c g ≡ unarmed_flush e c (flushed e c g)
unfolding stream_flush
flush-unarmed e c g h a = simp (h, a)

arm-taken :
    (c : Clock) (fd : ℕ) (p : Pending) (g : Shim)
    → p.from_loopback ≡ true
    → g.flush_disconnect ≡ true
    → (serve_seek_arm c (some fd) p g).shim
      ≡ record g { flush_disconnect = false; decide = no_decide }
unfolding serve_seek_arm
arm-taken c fd p g l f = simp (l, f)

arm-counted :
    (c : Clock) (fd : ℕ) (p : Pending) (g : Shim)
    → p.from_loopback ≡ true
    → g.flush_disconnect ≡ false
    → keep_claims c g ≡ false
    → g.seek_flush_armed ≡ 0
    → (serve_seek_arm c (some fd) p g).shim
      ≡ record g { seek_flush_armed = 1; seek_arm_at = c.wall }
unfolding serve_seek_arm
arm-counted c fd p g l f k z = simp (l, f, k, z)

-- The flush behind a counted arm, and the arm behind an unarmed flush.
early :
    (e : Environ) (c c' : Clock) (fd : ℕ) (p : Pending) (g : Shim)
    → g.http_mode ≡ true
    → p.from_loopback ≡ true
    → g.flush_disconnect ≡ false
    → keep_claims c' g ≡ false
    → g.seek_flush_armed ≡ 0
    → stream_flush e c (serve_seek_arm c' (some fd) p g).shim
      ≡ record (flushed e c g) { seek_flush_armed = 0; seek_arm_at = c'.wall }
unfolding ring_flush
early e c c' fd p g h l f k z =
    ap (stream_flush e c) (arm-counted c' fd p g l f k z)
    ∙ flush-armed e c (record g { seek_flush_armed = 1; seek_arm_at = c'.wall }) h refl

unarmed-raised :
    (e : Environ) (c : Clock) (g : Shim)
    → g.browse_keep ≡ false
    → (unarmed_flush e c g).flush_disconnect ≡ true
unfolding unarmed_flush
unarmed-raised e c g h = simp h

unarmed-cleared :
    (e : Environ) (c : Clock) (g : Shim)
    → g.browse_keep ≡ false
    → Path Shim
        (record (unarmed_flush e c g) { flush_disconnect = false; decide = no_decide })
        (record g { flush_disconnect = false; decide = no_decide })
unfolding unarmed_flush
unarmed-cleared e c g h = simp h

late :
    (e : Environ) (c c' : Clock) (fd : ℕ) (p : Pending) (g : Shim)
    → g.http_mode ≡ true
    → p.from_loopback ≡ true
    → g.browse_keep ≡ false
    → ltb 0 g.seek_flush_armed ≡ false
    → (serve_seek_arm c' (some fd) p (stream_flush e c g)).shim
      ≡ record (flushed e c g) { flush_disconnect = false; decide = no_decide }
unfolding ring_flush
late e c c' fd p g h l b z =
    ap (λ s. (serve_seek_arm c' (some fd) p s).shim) (flush-unarmed e c g h z)
    ∙ arm-taken c' fd p (unarmed_flush e c (flushed e c g)) l (unarmed-raised e c (flushed e c g) b)
    ∙ unarmed-cleared e c (flushed e c g) b

unclaimed : (c : Clock) (g : Shim) → g.flush_keep_pending ≡ false → keep_claims c g ≡ false
unfolding keep_claims
unclaimed c g h = ground arith

-- What both orders of a flush and its arm leave alike. The client is kept, no arm is left, no
-- decision is open, and the ring and the marker are the flushed ones.
pub record SameFlush (a b : Shim) : Type 0 where
  pub kept : (a.flush_disconnect ≡ false) × (b.flush_disconnect ≡ false)
  pub unarmed : (a.seek_flush_armed ≡ 0) × (b.seek_flush_armed ≡ 0)
  pub undecided : (a.decide.deadline ≡ 0) × (b.decide.deadline ≡ 0)
  pub rings : a.ring ≡ b.ring
  pub sinks : a.vsink ≡ b.vsink
  pub markers : (a.boundary_at_pushed ≡ none) × (b.boundary_at_pushed ≡ none)

-- With a client attached, no flush pending and no arm counted, and browse keep off: the arm served
-- before the flush and the arm served behind it, at any time before the flush-disconnect is taken,
-- lead to the same state of the ring, the sink, the marker, the arm and the flush-disconnect.
pub stream_flush-seek_arm :
    (e : Environ) (c c' : Clock) (fd : ℕ) (p : Pending) (g : Shim)
    → g.http_mode ≡ true
    → p.from_loopback ≡ true
    → g.browse_keep ≡ false
    → g.flush_disconnect ≡ false
    → g.flush_keep_pending ≡ false
    → g.seek_flush_armed ≡ 0
    → g.decide.deadline ≡ 0
    → SameFlush
        (stream_flush e c (serve_seek_arm c' (some fd) p g).shim)
        (serve_seek_arm c' (some fd) p (stream_flush e c g)).shim
unfolding ring_flush
stream_flush-seek_arm e c c' fd p g http loop keep fl kp arm dec =
    let a = early e c c' fd p g http loop fl (unclaimed c' g kp) arm in
    let b = late e c c' fd p g http loop keep (ground arith) in
    record {
      kept = (ap (λ s. s.flush_disconnect) a ∙ fl, ap (λ s. s.flush_disconnect) b);
      unarmed = (ap (λ s. s.seek_flush_armed) a, ap (λ s. s.seek_flush_armed) b ∙ arm);
      undecided = (ap (λ s. s.decide.deadline) a ∙ dec, ap (λ s. s.decide.deadline) b);
      rings = ap (λ s. s.ring) a ∙ sym (ap (λ s. s.ring) b);
      sinks = ap (λ s. s.vsink) a ∙ sym (ap (λ s. s.vsink) b);
      markers = (ap (λ s. s.boundary_at_pushed) a, ap (λ s. s.boundary_at_pushed) b);
    }

Target-cases : (t : Target) → (t ≡ armhf) ⊎ (t ≡ lp64)
Target-cases armhf = inl refl
Target-cases lp64 = inr refl

kept-claim :
    (e : Environ) (c : Clock) (g : Shim)
    → g.browse_keep ≡ true
    → Path Shim
        (unarmed_flush e c g)
        (record g { flush_keep_at = nonzero (mono_ms g.target c); flush_keep_pending = true })
unfolding unarmed_flush
kept-claim e c g h = simp h

claimed :
    (c c' : Clock) (g : Shim)
    → hold_now_ms c ≤ hold_now_ms c'
    → hold_now_ms c' ≤ hold_now_ms c + 50
    → keep_claims c'
        (record g { flush_keep_at = nonzero (mono_ms g.target c); flush_keep_pending = true })
      ≡ true
unfolding keep_claims mono_since mono_ms hold_now_ms
claimed c c' g a b = elim (Target-cases g.target) [ inl t ↦ ground arith | inr t ↦ ground arith ]

arm-claims :
    (c : Clock) (fd : ℕ) (p : Pending) (g : Shim)
    → p.from_loopback ≡ true
    → g.flush_disconnect ≡ false
    → keep_claims c g ≡ true
    → (serve_seek_arm c (some fd) p g).shim ≡ record g { flush_keep_pending = false }
unfolding serve_seek_arm
arm-claims c fd p g l f k = simp (l, f, k)

-- With browse keep on, the same two orders, the arm read at most 50 ms behind the flush: the client
-- is kept in both, and no arm and no claim of the flush is left.
pub stream_flush-keep_arm :
    (e : Environ) (c c' : Clock) (fd : ℕ) (p : Pending) (g : Shim)
    → g.http_mode ≡ true
    → p.from_loopback ≡ true
    → g.browse_keep ≡ true
    → g.flush_disconnect ≡ false
    → g.flush_keep_pending ≡ false
    → g.seek_flush_armed ≡ 0
    → g.decide.deadline ≡ 0
    → hold_now_ms c ≤ hold_now_ms c'
    → hold_now_ms c' ≤ hold_now_ms c + 50
    → SameFlush
        (stream_flush e c (serve_seek_arm c' (some fd) p g).shim)
        (serve_seek_arm c' (some fd) p (stream_flush e c g)).shim
      × ((serve_seek_arm c' (some fd) p (stream_flush e c g)).shim.flush_keep_pending ≡ false)
unfolding ring_flush
stream_flush-keep_arm e c c' fd p g http loop keep fl kp arm dec t u =
    let a = early e c c' fd p g http loop fl (unclaimed c' g kp) arm in
    let b =
      ap (λ s. (serve_seek_arm c' (some fd) p s).shim)
        (flush-unarmed e c g http (ground arith) ∙ kept-claim e c (flushed e c g) keep)
      ∙ arm-claims c' fd p
          (record (flushed e c g) {
            flush_keep_at = nonzero (mono_ms g.target c);
            flush_keep_pending = true;
          })
          loop fl (claimed c c' (flushed e c g) t u) in
    (
      record {
        kept = (ap (λ s. s.flush_disconnect) a ∙ fl, ap (λ s. s.flush_disconnect) b ∙ fl);
        unarmed = (ap (λ s. s.seek_flush_armed) a, ap (λ s. s.seek_flush_armed) b ∙ arm);
        undecided = (ap (λ s. s.decide.deadline) a ∙ dec, ap (λ s. s.decide.deadline) b ∙ dec);
        rings = ap (λ s. s.ring) a ∙ sym (ap (λ s. s.ring) b);
        sinks = ap (λ s. s.vsink) a ∙ sym (ap (λ s. s.vsink) b);
        markers = (ap (λ s. s.boundary_at_pushed) a, ap (λ s. s.boundary_at_pushed) b);
      },
      ap (λ s. s.flush_keep_pending) b,
    )

-- In HTTP mode `pa_stream_flush` in one step is its parts, the ring flush, the timing refresh, the marker
-- and the look for an arm, one behind the other with nothing between.
pub stream_flush-parts :
    (e : Environ) (c : Clock) (g : Shim)
    → g.http_mode ≡ true
    → stream_flush e c g ≡ flush_settle e c (flush_unmark (flush_refresh e c (flush_discard e c g)))
unfolding flush_settle flush_refresh flush_discard ring_flush
stream_flush-parts e c g h = elim (Bool-cases (ltb 0 g.seek_flush_armed)) [
  | inl a ↦ flush-armed e c g h a ∙ sym (simp a)
  | inr a ↦ flush-unarmed e c g h a ∙ sym (simp a)
]

-- The arm served while the flush is under way, behind its ring flush and before it looks for an arm, has
-- the same effect as the arm served before the flush, in every field.
pub stream_flush-between :
    (e : Environ) (c c' : Clock) (fd : ℕ) (p : Pending) (g : Shim)
    → g.http_mode ≡ true
    → p.from_loopback ≡ true
    → g.flush_disconnect ≡ false
    → g.flush_keep_pending ≡ false
    → g.seek_flush_armed ≡ 0
    → flush_settle e c
        (serve_seek_arm c'
          (some fd)
          p
          (flush_unmark (flush_refresh e c (flush_discard e c g)))).shim
      ≡ stream_flush e c (serve_seek_arm c' (some fd) p g).shim
unfolding flush_settle flush_refresh flush_discard ring_flush
stream_flush-between e c c' fd p g http loop fl kp arm =
    ap (flush_settle e c)
      (arm-counted c' fd p (flushed e c g) loop fl (unclaimed c' (flushed e c g) kp) arm)
    ∙ sym (early e c c' fd p g http loop fl (unclaimed c' g kp) arm)
