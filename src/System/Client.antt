-- ===== src/System/Client.antt =====
-- The streaming client's attach and departures keep the shared state sound.
use spoton.Prelude.{
  ℕ, ◌+◌, ◌≤◌, refl, inr, Bool, true, false, Option, none, some, arith, is_some, ltb, leb,
  if◌then◌else◌, ◌&&◌, not,
}
use spoton.Time.{Clock, elapsed_ms}
use spoton.Ring.{Reason, ring_set_client, boundary, disconnect, departure, attach}
use spoton.Ring.Valid.{Below, set_client-IsValid}
use spoton.Decide.{no_decide}
use spoton.Request.Search.{Fits}
use spoton.Shim.{decide_open}
use spoton.Http.{Slot}
use spoton.Http.Loop.{Http, with_slot, flush_close}
use spoton.Http.Drain.{
  WriteCode, written, gone, unfinished, flush_pending, takeover_pending, orphan, bounded_close,
  after_write, drain_start,
}
use spoton.System.Sound.{
  Core, IsCore, IsSound, with_ring, with_arms, with_decision, no_marker, hold_timeout-Keeps,
}
use spoton.System.Serve.{SoundSlot}

-- The thread with its client and its slot.
pub record SoundHttp (h : Http) : Type 0 where
  pub shim : IsSound h.client_fd h.shim
  pub slot : Fits h.pending

pub http_if : (b : Bool) (x y : Http) → SoundHttp x → SoundHttp y → SoundHttp (if b then x else y)
http_if true x y h k = h
http_if false x y h k = k

pub pair_if :
    (b : Bool) (x y : Http × Bool)
    → SoundHttp x.0
    → SoundHttp y.0
    → SoundHttp (if b then x else y).0
pair_if true x y h k = h
pair_if false x y h k = k

-- The client's flag follows its socket.
pub detached :
    {fd : Option ℕ} {g : Core} (c : Clock) (why : Reason)
    → IsCore fd g
    → IsCore none (record g { ring = ring_set_client c false why 0 g.ring })
unfolding ring_set_client
detached c why v = record {
  ring_valid = set_client-IsValid c false why 0 v.ring_valid;
  armed = v.armed;
  attached = refl;
  marker = v.marker;
  marker_gen = v.marker_gen;
  departed_gen = v.departed_gen;
  decided = v.decided;
}

with_departed :
    {fd : Option ℕ} {g : Core}
    → IsCore fd g
    → IsCore fd (record g { departed_client_generation = some g.client_generation })
with_departed v = record {
  ring_valid = v.ring_valid;
  armed = v.armed;
  attached = v.attached;
  marker = v.marker;
  marker_gen = v.marker_gen;
  departed_gen = omega arith;
  decided = v.decided;
}

pub with_marker :
    {fd : Option ℕ} {g : Core} (o : Option ℕ)
    → Below o g.ring.total_pushed
    → IsCore fd g
    → IsCore fd (record g { boundary_at_pushed = o })
with_marker o b v = record {
  ring_valid = v.ring_valid;
  armed = v.armed;
  attached = v.attached;
  marker = b;
  marker_gen = v.marker_gen;
  departed_gen = v.departed_gen;
  decided = v.decided;
}

Below-suc : (o : Option ℕ) (n : ℕ) → Below o n → Below o (n + 1)
Below-suc none n h = tt
Below-suc (some x) n h = omega arith

pub with_gen :
    {fd : Option ℕ} {g : Core}
    → IsCore fd g
    → IsCore fd (record g { client_generation = g.client_generation + 1 })
with_gen {g = g} v = record {
  ring_valid = v.ring_valid;
  armed = v.armed;
  attached = v.attached;
  marker = v.marker;
  marker_gen = Below-suc g.boundary_client_generation g.client_generation v.marker_gen;
  departed_gen = Below-suc g.departed_client_generation g.client_generation v.departed_gen;
  decided = v.decided;
}

pub no_departed :
    {fd : Option ℕ} {g : Core}
    → IsCore fd g
    → IsCore fd (record g { departed_client_generation = none })
no_departed v = record {
  ring_valid = v.ring_valid;
  armed = v.armed;
  attached = v.attached;
  marker = v.marker;
  marker_gen = v.marker_gen;
  departed_gen = tt;
  decided = v.decided;
}

pub attached :
    {fd : Option ℕ} {g : Core} (c : Clock) (n gen : ℕ)
    → IsCore fd g
    → IsCore (some n) (record g { ring = ring_set_client c true attach gen g.ring })
unfolding ring_set_client
attached c n gen v = record {
  ring_valid = set_client-IsValid c true attach gen v.ring_valid;
  armed = v.armed;
  attached = refl;
  marker = v.marker;
  marker_gen = v.marker_gen;
  departed_gen = v.departed_gen;
  decided = v.decided;
}

pub from_slot : (h : Http) {s : Slot} → SoundSlot h.client_fd s → SoundHttp (with_slot h s)
from_slot h v = record { shim = v.shim; slot = v.slot }

pub to_slot :
    {h : Http} → SoundHttp h → SoundSlot h.client_fd (record { shim = h.shim; pending = h.pending })
to_slot v = record { shim = v.shim; slot = v.slot }

pub close-SoundHttp : (c : Clock) {h : Http} → SoundHttp h → SoundHttp (flush_close c h)
unfolding flush_close
close-SoundHttp c {h} v =
    http_if (h.shim.flush_disconnect && (is_some h.client_fd && not (decide_open c h.shim))) _ _
      (record {
        shim =
            with_departed
              (no_marker (with_decision false no_decide (inr refl) (detached c disconnect v.shim)));
        slot = v.slot;
      })
      v

pub start-SoundHttp : (c : Clock) {h : Http} → SoundHttp h → SoundHttp (drain_start c h)
unfolding drain_start
start-SoundHttp c {h} v = record {
  shim =
      with_ring
        (with_arms _
          (fewer (ltb 0 h.shim.seek_flush_armed && leb 3000 (elapsed_ms c.wall h.shim.seek_arm_at))
            v.shim.armed)
          v.shim)
        (hold_timeout-Keeps c v.shim.ring_valid);
  slot = v.slot;
}
  where
    fewer : (b : Bool) {n : ℕ} → n ≤ 8 → (if b then 0 else n) ≤ 8
    fewer true h = omega arith
    fewer false h = h

pub bounded-SoundHttp : (c : Clock) {h : Http} → SoundHttp h → SoundHttp (bounded_close c h)
unfolding bounded_close
bounded-SoundHttp c v = record {
  shim = with_departed (no_marker (detached c boundary v.shim));
  slot = v.slot;
}

pub after-SoundHttp :
    (c : Clock) (b : Bool) (code : WriteCode) {h : Http}
    → SoundHttp h
    → SoundHttp (after_write c b code h)
unfolding after_write
after-SoundHttp c b gone v = record {
  shim = with_departed (detached c departure v.shim);
  slot = v.slot;
}
after-SoundHttp c b orphan v = record {
  shim = with_departed (detached c departure v.shim);
  slot = v.slot;
}
after-SoundHttp c b flush_pending v = v
after-SoundHttp c b takeover_pending v = v
after-SoundHttp c b unfinished v = v
after-SoundHttp c b written {h} v = http_if b _ _ (bounded-SoundHttp c v) v
