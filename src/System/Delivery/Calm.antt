-- ===== src/System/Delivery/Calm.antt =====
-- The parts of a pass of the HTTP thread's loop that are beside the queue.
use spoton.Prelude.{
  ◌≡◌, refl, ◌∙◌, Bool, true, false, not, ◌&&◌, none, arith, if◌then◌else◌, is_some, Bool-cases,
  inl, inr, ltb, ◌==◌,
}
use spoton.Time.{Clock, vsink_now_us}
use spoton.Vsink.{vsink_settle}
use spoton.Ring.Fifo.{contents}
use spoton.Ring.History.{timeout-contents}
use spoton.Request.{Pending, pending_is_control}
use spoton.Shim.{Shim}
use spoton.Http.{classify}
use spoton.Http.Loop.{Http, backlog_passes, flush_close, read_pending, dispatch}
use spoton.Http.Drain.{drain_start, signal_underrun}
use spoton.Http.Pass.{PassInput, daemon_runs, pass_top, pass_poll, pass_underrun, wants_underflow}
use spoton.System.Delivery.Balance.{IsFree, Steady}

-- No marker, no connection in the slot, and no flush under way.
pub record IsCalm (h : Http) : Type 0 where
  pub free : IsFree h
  pub disconnect : h.shim.flush_disconnect ≡ false
  pub keep : h.shim.flush_keep_pending ≡ false

pub Calm-Steady : {h h' : Http} → IsCalm h → IsFree h' → Steady h.shim h'.shim → IsCalm h'
Calm-Steady c f s = record {
  free = f;
  disconnect = s.disconnect ∙ c.disconnect;
  keep = s.keep ∙ c.keep;
}

-- The parts of a pass up to its drain, for a calm thread to which nothing but the daemon comes.
pub top_calm :
    (i : PassInput) (h : Http)
    → IsCalm (daemon_runs i.daemon h)
    → pass_top i h ≡ daemon_runs i.daemon h
unfolding pass_top backlog_passes flush_close
top_calm i h c = simp (c.disconnect, c.keep)

pub poll_calm :
    (i : PassInput) (h : Http)
    → i.arrival ≡ none
    → h.pending.fd ≡ none
    → pass_poll i h ≡ daemon_runs i.polling h
unfolding pass_poll read_pending
poll_calm i h a e = simp (a, e)

classify_empty : (p : Pending) → p.fd ≡ none → classify p ≡ none
unfolding classify pending_is_control
classify_empty p e = ground (arith, e)

pub dispatch_calm :
    (c : Clock) (sent : Bool) (h : Http) → h.pending.fd ≡ none → dispatch c sent h ≡ (h, false)
unfolding dispatch
dispatch_calm c sent h e = ground (arith, classify_empty h.pending e, e)

-- A part of the pass that is beside the queue.
pub record Beside (g g' : Shim) : Type 0 where
  pub bytes : contents g'.ring ≡ contents g.ring
  pub marker : g'.boundary_at_pushed ≡ g.boundary_at_pushed
  pub steady : Steady g g'

unmoved :
    {g g' : Shim}
    → contents g'.ring ≡ contents g.ring
    → g'.boundary_at_pushed ≡ g.boundary_at_pushed
    → g'.flush_disconnect ≡ g.flush_disconnect
    → g'.flush_keep_pending ≡ g.flush_keep_pending
    → Beside g g'
unmoved b m d k = record { bytes = b; marker = m; steady = record { disconnect = d; keep = k } }

pub start-Beside : (c : Clock) (h : Http) → Beside h.shim (drain_start c h).shim
unfolding drain_start
start-Beside c h = unmoved (timeout-contents c h.shim.ring) refl refl refl

Beside-if :
    {g : Shim} (b : Bool) (x y : Bool × Shim)
    → Beside g x.1
    → Beside g y.1
    → Beside g (if b then x else y).1
Beside-if true x y h k = h
Beside-if false x y h k = k

signal-Beside : (c : Clock) (wants : Bool) (g : Shim) → Beside g (signal_underrun c wants g).1
unfolding signal_underrun
signal-Beside c wants g =
    Beside-if (not ((g.ring.fill == 0) && (not g.ring.underrun_fired && wants))) _ _
      (unmoved refl refl refl refl)
      (Beside-if (ltb 0 g.vsink.t_ms) _ _
        (Beside-if (ltb 0 (vsink_settle (vsink_now_us c) g.vsink).q_out) _ _
          (unmoved refl refl refl refl) (unmoved refl refl refl refl))
        (unmoved refl refl refl refl))

pub underrun-Beside :
    (c : Clock) (h : Http)
    → Beside h.shim (pass_underrun c h).shim
      × ((pass_underrun c h).pending ≡ h.pending)
      × ((pass_underrun c h).client_fd ≡ h.client_fd)
unfolding pass_underrun
underrun-Beside c h = elim (Bool-cases (is_some h.client_fd && not h.shim.flush_keep_pending)) [
  | inl e ↦ rw e (signal-Beside c (wants_underflow h.shim h.shim.active_stream) h.shim, refl, refl)
  | inr e ↦ rw e (unmoved refl refl refl refl, refl, refl)
]

pub start-slot : (c : Clock) (h : Http) → (drain_start c h).pending.fd ≡ h.pending.fd
unfolding drain_start
start-slot c h = refl
