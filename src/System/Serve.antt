-- ===== src/System/Serve.antt =====
-- The control requests and the pending slot keep the shared state sound.
mod Requests
pub use Requests.*
use spoton.Prelude.{
  ℕ, ◌+◌, ◌≤◌, refl, ◌∙◌, inr, Bool, true, false, Option, none, some, List, [], ◌∷◌, arith, is_some,
  ltb, if◌then◌else◌, take, ◌&&◌, not, ◌||◌,
}
use spoton.Time.{Clock}
use spoton.Ring.{Ring, Reason}
use spoton.Ring.Valid.{IsValid, Below}
use spoton.Decide.{no_decide, promote}
use spoton.Request.{
  Pending, ReadResult, Endpoint, codes, boundary, seek_arm, browse_keep, seek_keep, close_pending,
  pending_try_read, pending_is_control, head_line_has,
}
use spoton.Request.Search.{Fits, pending_try_read-Fits}
use spoton.Shim.{Shim, decide_open}
use spoton.Control.{
  Served, place, boundary_gen, keep_claims, seek_flush_armed_max, serve_boundary, serve_seek_arm,
  serve_hold_release, serve_browse_keep, serve_seek_keep,
}
use spoton.Control.Place.{place-IsValid, place-range, place-pushed, place-client}
use spoton.Http.{
  Slot, Arrival, serve, serve_if, classify, pending_serve_control, pending_settle, accept_beside,
  pending_accept, serve_arm_or_keep, backlog_loop, flush_backlog_pass, flush_backlog_pass_max,
  new_pending,
}
use spoton.System.Sound.{
  Core, IsCore, IsSound, Keeps, with_ring, with_arms, with_decision, hold_release-Keeps,
}

settle-Sound :
    (c : Clock) (res : ReadResult) (fd : Option ℕ) (p : Pending) (g : Shim)
    → IsSound fd g
    → Fits p
    → SoundSlot fd (pending_settle c res fd p g)
unfolding pending_settle
settle-Sound c res fd p g v f =
    let q = pending_try_read-Fits res f in
    slot_if (not (is_some (pending_try_read res p).fd)) _ _ (record { shim = v; slot = q })
      (slot_if (is_some (classify (pending_try_read res p))) _ _
        (pending_serve_control-Sound c fd (pending_try_read res p) g v q)
        (record { shim = v; slot = closed-Fits (pending_try_read res p) }))

new-Fits : (a : Arrival) → Fits (new_pending a)
new-Fits a = record { bounded = omega arith }

beside-Sound :
    (a : Arrival) (fd : Option ℕ) (p : Pending) (g : Shim)
    → IsSound fd g
    → Fits p
    → SoundSlot fd (accept_beside a fd p g)
unfolding accept_beside
beside-Sound a fd p g v f =
    let nc = pending_try_read a.first_read (new_pending a) in
    let ncf = pending_try_read-Fits a.first_read (new-Fits a) in
    let p1 = pending_try_read a.occupant_read p in
    let earlier =
      pending_serve_control-Sound a.at fd p1 g v (pending_try_read-Fits a.occupant_read f) in
    slot_if (not (is_some nc.fd)) _ _ (record { shim = v; slot = f })
      (slot_if (is_some (classify nc)) _ _
        (record {
          shim =
              (pending_serve_control-Sound a.at fd nc (pending_serve_control a.at fd p1 g).shim
                earlier.shim ncf).shim;
          slot = earlier.slot;
        })
        (record { shim = (settle-Sound a.at a.occupant_read fd p g v f).shim; slot = ncf }))

-- An accepted connection, whatever it and the slot's occupant sent.
pub pending_accept-Sound :
    (a : Arrival) (fd : Option ℕ) (p : Pending) (g : Shim)
    → IsSound fd g
    → Fits p
    → SoundSlot fd (pending_accept a fd p g)
unfolding pending_accept
pending_accept-Sound a fd p g v f =
    slot_if (is_some p.fd) _ _ (beside-Sound a fd p g v f) (record { shim = v; slot = new-Fits a })

arm_or_keep-Sound :
    (c : Clock) (fd : Option ℕ) (p : Pending) (g : Shim)
    → IsSound fd g
    → Fits p
    → SoundSlot fd (serve_arm_or_keep c fd p g)
unfolding serve_arm_or_keep
arm_or_keep-Sound c fd p g v f =
    slot_if (pending_is_control seek_arm p) _ _ (serve_if-Sound c fd (some seek_arm) p g v f) (
      slot_if (pending_is_control seek_keep p) _ _ (serve_if-Sound c fd (some seek_keep) p g v f)
        (record { shim = v; slot = f }))

loop-Sound :
    (queue : List (Arrival × ReadResult)) (fd : Option ℕ) (s : Slot)
    → SoundSlot fd s
    → SoundSlot fd (backlog_loop queue fd s)
unfolding backlog_loop
loop-Sound [] fd s v = v
loop-Sound ((a, res) ∷ queue) fd s v =
    let t = pending_accept a fd s.pending s.shim in
    let q = pending_accept-Sound a fd s.pending s.shim v.shim v.slot in
    let u = serve_arm_or_keep a.at fd (pending_try_read res t.pending) t.shim in
    slot_if (s.shim.flush_disconnect || s.shim.flush_keep_pending) _ _
      (loop-Sound queue fd u (
        arm_or_keep-Sound a.at fd (pending_try_read res t.pending) t.shim q.shim
          (pending_try_read-Fits res q.slot)))
      v

pub backlog-Sound :
    (c : Clock) (res : ReadResult) (queued : List (Arrival × ReadResult)) (fd : Option ℕ) (s : Slot)
    → SoundSlot fd s
    → SoundSlot fd (flush_backlog_pass c res queued fd s)
unfolding flush_backlog_pass
backlog-Sound c res queued fd s v = loop-Sound (take flush_backlog_pass_max queued) fd _ (
    arm_or_keep-Sound c fd (pending_try_read res s.pending) s.shim v.shim
      (pending_try_read-Fits res v.slot))
