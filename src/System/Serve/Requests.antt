-- ===== src/System/Serve/Requests.antt =====
-- The control requests keep the shared state sound.
use spoton.Prelude.{
  ℕ, ◌+◌, ◌≤◌, refl, ◌∙◌, inr, Bool, true, false, Option, none, some, arith, is_some, ltb,
  if◌then◌else◌, ◌&&◌, not,
}
use spoton.Time.{Clock}
use spoton.Ring.{Ring, Reason}
use spoton.Ring.Valid.{IsValid, Below}
use spoton.Decide.{no_decide, promote}
use spoton.Request.{
  Pending, Endpoint, codes, boundary, seek_arm, browse_keep, seek_keep, close_pending,
  head_line_has,
}
use spoton.Request.Search.{Fits}
use spoton.Shim.{Shim, decide_open}
use spoton.Control.{
  Served, place, boundary_gen, keep_claims, seek_flush_armed_max, serve_boundary, serve_seek_arm,
  serve_hold_release, serve_browse_keep, serve_seek_keep,
}
use spoton.Control.Place.{place-IsValid, place-range, place-pushed, place-client}
use spoton.Http.{Slot, serve, serve_if, classify, pending_serve_control}
use spoton.System.Sound.{
  Core, IsCore, IsSound, Keeps, with_ring, with_arms, with_decision, hold_release-Keeps,
}

-- The shim and the slot behind a request.
pub record SoundSlot (fd : Option ℕ) (s : Slot) : Type 0 where
  pub shim : IsSound fd s.shim
  pub slot : Fits s.pending

-- The same of a served request.
record SoundServed (fd : Option ℕ) (s : Served) : Type 0 where
  pub shim : IsSound fd s.shim
  pub slot : Fits s.pending

pub closed-Fits : (p : Pending) → Fits (close_pending p)
closed-Fits p = record { bounded = omega arith }

served_if :
    {fd : Option ℕ} (b : Bool) (x y : Served)
    → SoundServed fd x
    → SoundServed fd y
    → SoundServed fd (if b then x else y)
served_if true x y h k = h
served_if false x y h k = k

pub slot_if :
    {fd : Option ℕ} (b : Bool) (x y : Slot)
    → SoundSlot fd x
    → SoundSlot fd y
    → SoundSlot fd (if b then x else y)
slot_if true x y h k = h
slot_if false x y h k = k

-- A placement keeps the ring, and the marker goes where it says, for a generation that there was.
planted :
    {fd : Option ℕ} {g : Core} (c : Clock) (b : Bool) (gen dep : Option ℕ)
    → Below gen g.client_generation
    → Below dep g.client_generation
    → IsCore fd g
    → IsCore fd (record g {
      ring = (place c b g.ring).1;
      boundary_at_pushed = some (place c b g.ring).0.planted;
      boundary_client_generation = gen;
      departed_client_generation = dep;
      seek_flush_armed = 0;
    })
planted {g = g} c b gen dep h k v = record {
  ring_valid = place-IsValid c b v.ring_valid;
  armed = omega arith;
  attached = place-client c b g.ring ∙ v.attached;
  marker = omega (arith, (place-range c b v.ring_valid).1, place-pushed c b g.ring);
  marker_gen = h;
  departed_gen = k;
  decided = v.decided;
}

boundary_gen-Below :
    (a f : Bool) (gen : ℕ) (dep : Option ℕ)
    → Below dep gen
    → Below (boundary_gen a f gen dep).0 gen × Below (boundary_gen a f gen dep).1 gen
unfolding boundary_gen
boundary_gen-Below true f gen dep h = (omega arith, h)
boundary_gen-Below false f gen (some d) h = (h, tt)
boundary_gen-Below false f gen none h = (tt, tt)

promoted :
    {fd : Option ℕ} {g : Core} (b : Bool)
    → IsCore fd g
    → IsCore fd (record g { decide = if b then promote g.decide else g.decide })
promoted {g = g} true v = with_decision g.flush_disconnect (promote g.decide) (inr refl) v
promoted {g = g} false v = v

boundary-Sound :
    (c : Clock) (fd : Option ℕ) (p : Pending) (g : Shim)
    → IsSound fd g
    → SoundServed fd (serve_boundary c fd p g)
unfolding serve_boundary
boundary-Sound c fd p g v =
    let bg =
      boundary_gen-Below (is_some fd) (g.flush_disconnect && is_some fd) g.client_generation
        g.departed_client_generation v.departed_gen in
    served_if (not p.from_loopback) _ _ (record { shim = v; slot = closed-Fits p })
      (record { shim = planted c _ _ _ bg.0 bg.1 (promoted _ v); slot = closed-Fits p })

more_arms : (n : ℕ) → n ≤ 8 → (if ltb n seek_flush_armed_max then n + 1 else n) ≤ 8
more_arms n h = ground arith

seek_arm-Sound :
    (c : Clock) (fd : Option ℕ) (p : Pending) (g : Shim)
    → IsSound fd g
    → SoundServed fd (serve_seek_arm c fd p g)
unfolding serve_seek_arm
seek_arm-Sound c fd p g v =
    served_if (not p.from_loopback) _ _ (record { shim = v; slot = closed-Fits p })
      (served_if (g.flush_disconnect && is_some fd) _ _
        (record { shim = with_decision false no_decide (inr refl) v; slot = closed-Fits p })
        (served_if (is_some fd && keep_claims c g) _ _ (record { shim = v; slot = closed-Fits p })
          (record {
            shim = with_arms _ (more_arms g.seek_flush_armed v.armed) v;
            slot = closed-Fits p;
          })))

suppress-Keeps :
    (n : ℕ) {r : Ring}
    → IsValid r
    → Keeps r (record r { suppress_valid = true; hold_suppress_until_ms = n })
suppress-Keeps n v = record { valid = ground arith; client = refl; pushed = omega arith }

hold_release-Sound :
    (c : Clock) (fd : Option ℕ) (p : Pending) (g : Shim)
    → IsSound fd g
    → SoundServed fd (serve_hold_release c p g)
unfolding serve_hold_release
hold_release-Sound c fd p g v =
    served_if (not p.from_loopback) _ _ (record { shim = v; slot = closed-Fits p })
      (served_if (is_some g.ring.hold_at) _ _
        (record {
          shim = with_ring v (hold_release-Keeps c Reason.release v.ring_valid);
          slot = closed-Fits p;
        })
        (record { shim = with_ring v (suppress-Keeps _ v.ring_valid); slot = closed-Fits p }))

browse_keep-Sound :
    (fd : Option ℕ) (p : Pending) (g : Shim) → IsSound fd g → SoundServed fd (serve_browse_keep p g)
unfolding serve_browse_keep
browse_keep-Sound fd p g v =
    let q = closed-Fits p in
    served_if (not p.from_loopback) _ _ (record { shim = v; slot = q })
      (served_if (head_line_has p (codes "on=1")) _ _ (record { shim = v; slot = q })
        (served_if (head_line_has p (codes "on=0")) _ _ (record { shim = v; slot = q })
          (record { shim = v; slot = q })))

seek_keep-Sound :
    (c : Clock) (fd : Option ℕ) (p : Pending) (g : Shim)
    → IsSound fd g
    → SoundServed fd (serve_seek_keep c fd p g)
unfolding serve_seek_keep
seek_keep-Sound c fd p g v =
    let q = closed-Fits p in
    served_if (not p.from_loopback) _ _ (record { shim = v; slot = q })
      (served_if (g.flush_disconnect && (is_some fd && decide_open c g)) _ _
        (record { shim = with_decision false no_decide (inr refl) v; slot = q })
        (record { shim = v; slot = q }))

serve-Sound :
    (c : Clock) (fd : Option ℕ) (e : Endpoint) (p : Pending) (g : Shim)
    → IsSound fd g
    → SoundServed fd (serve c fd e p g)
unfolding serve
serve-Sound c fd boundary p g v = boundary-Sound c fd p g v
serve-Sound c fd seek_arm p g v = seek_arm-Sound c fd p g v
serve-Sound c fd Endpoint.hold_release p g v = hold_release-Sound c fd p g v
serve-Sound c fd browse_keep p g v = browse_keep-Sound fd p g v
serve-Sound c fd seek_keep p g v = seek_keep-Sound c fd p g v

pub serve_if-Sound :
    (c : Clock) (fd : Option ℕ) (o : Option Endpoint) (p : Pending) (g : Shim)
    → IsSound fd g
    → Fits p
    → SoundSlot fd (serve_if c fd o p g)
unfolding serve_if
serve_if-Sound c fd none p g v f = record { shim = v; slot = f }
serve_if-Sound c fd (some e) p g v f =
    let s = serve-Sound c fd e p g v in record { shim = s.shim; slot = s.slot }

-- Whatever the slot holds, serving it keeps the shared state sound and the slot within its buffer.
pub pending_serve_control-Sound :
    (c : Clock) (fd : Option ℕ) (p : Pending) (g : Shim)
    → IsSound fd g
    → Fits p
    → SoundSlot fd (pending_serve_control c fd p g)
unfolding pending_serve_control
pending_serve_control-Sound c fd p g v f = serve_if-Sound c fd (classify p) p g v f
