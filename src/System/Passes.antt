-- ===== src/System/Passes.antt =====
-- A whole pass of the HTTP thread's loop is a run of the transition system.
use spoton.Prelude.{
  ℕ, ◌+◌, ◌≡◌, refl, ap, ◌∙◌, Bool, true, false, not, ◌&&◌, ◌||◌, Option, none, some, List, [], ◌∷◌,
  ◌++◌, if◌then◌else◌, is_some, ◌==◌, leb,
}
use spoton.Time.{Clock}
use spoton.Daemon.{Daemon, run_daemons}
use spoton.Http.{Arrival}
use spoton.Http.Loop.{Http, backlog_passes, dispatch}
use spoton.Http.Drain.{DrainTick, drain_turn, drain_loop, drain_start, http_drain_budget}
use spoton.Http.Pass.{
  PassInput, pass_top, pass_poll, header_sent, pass_dispatch, pass_underrun, pass_drain, http_pass,
  accept_arrival, daemon_runs, wants_underflow,
}
use spoton.System.{
  Step, run_step, run_steps, daemon, passes, top, accept, read, serve_slot, before_drain, turn,
  underrun,
}

-- Steps of the system that lead from one state to another.
pub record Leads (h h' : Http) : Type 0 where
  pub steps : List Step
  pub end : run_steps steps h ≡ h'

run_steps-append :
    (ss ts : List Step) (h : Http) → run_steps (ss ++ ts) h ≡ run_steps ts (run_steps ss h)
unfolding run_steps
run_steps-append [] ts h = refl
run_steps-append (s ∷ ss) ts h = run_steps-append ss ts (run_step s h)

stay : (h : Http) → Leads h h
unfolding run_steps
stay h = record { steps = []; end = refl }

one : (s : Step) (h : Http) → Leads h (run_step s h)
unfolding run_steps
one s h = record { steps = s ∷ []; end = refl }

then_on : {h1 h2 h3 : Http} → Leads h1 h2 → Leads h2 h3 → Leads h1 h3
then_on {h1} a b = record {
  steps = a.steps ++ b.steps;
  end = run_steps-append a.steps b.steps h1 ∙ ap (run_steps b.steps) a.end ∙ b.end;
}

Leads-if : {h x y : Http} (b : Bool) → Leads h x → Leads h y → Leads h (if b then x else y)
Leads-if true a b = a
Leads-if false a b = b

pair_if :
    {h : Http} (b : Bool) (x y : List ℕ × Http)
    → Leads h x.1
    → Leads h y.1
    → Leads h (if b then x else y).1
pair_if true x y a b = a
pair_if false x y a b = b

daemon-Leads : (ds : List Daemon) (h : Http) → Leads h (daemon_runs ds h)
unfolding run_daemons run_step
daemon-Leads [] h = stay h
daemon-Leads (d ∷ ds) h = then_on (one (daemon d) h) (daemon-Leads ds (run_step (daemon d) h))

top-Leads : (i : PassInput) (h : Http) → Leads h (pass_top i h)
unfolding pass_top run_step
top-Leads i h =
    let h1 = daemon_runs i.daemon h in
    let h2 = backlog_passes i.top_at i.slot_read i.queued i.queued_again h1 in
    then_on (daemon-Leads i.daemon h) (
      then_on (one (passes i.top_at i.slot_read i.queued i.queued_again) h1)
        (one (top i.close_at) h2))

accept-Leads : (o : Option Arrival) (h : Http) → Leads h (accept_arrival o h)
unfolding run_step
accept-Leads none h = stay h
accept-Leads (some a) h = one (accept a) h

poll-Leads : (i : PassInput) (h : Http) → Leads h (pass_poll i h)
unfolding pass_poll run_step
poll-Leads i h =
    let h1 = daemon_runs i.polling h in
    then_on (daemon-Leads i.polling h) (
      then_on (accept-Leads i.arrival h1)
        (one (read h.pending.fd i.polled) (accept_arrival i.arrival h1)))

loop-Leads :
    (ks : List DrainTick) (o drained : ℕ) (h : Http) → Leads h (drain_loop ks o drained h).1
unfolding drain_loop run_step
loop-Leads [] o drained h = stay h
loop-Leads (k ∷ ks) o drained h =
    let d = drain_turn k o h in
    let one_turn = one (turn k o) h in
    pair_if
      (not (h.shim.seek_flush_armed == 0)
        || (h.shim.flush_disconnect || leb http_drain_budget drained))
      _ _ (stay h)
      (pair_if d.stopped _ _ one_turn
        (then_on one_turn (loop-Leads ks o (drained + d.drained) d.http)))

underrun-Leads : (c : Clock) (h : Http) → Leads h (pass_underrun c h)
unfolding pass_underrun run_step
underrun-Leads c h =
    Leads-if (is_some h.client_fd && not h.shim.flush_keep_pending)
      (one (underrun c (wants_underflow h.shim h.shim.active_stream)) h) (stay h)

drain-Leads : (i : PassInput) (h : Http) → Leads h (pass_drain i h).1
unfolding pass_drain run_step
drain-Leads i h =
    let h1 = drain_start i.drain_at h in
    let h2 = (drain_loop i.turns i.orphan_ms 0 h1).1 in
    pair_if (is_some h.client_fd) _ _
      (then_on (one (before_drain i.drain_at) h)
        (then_on (loop-Leads i.turns i.orphan_ms 0 h1) (underrun-Leads i.underrun_at h2)))
      (stay h)

-- One pass of the loop, on every branch, is a run of the steps whose runs are all sound.
pub http_pass-Leads : (i : PassInput) (h : Http) → Leads h (http_pass i h).1
unfolding http_pass pass_dispatch run_step
http_pass-Leads i h =
    let h1 = pass_top i h in
    let h2 = pass_poll i h1 in
    let d = dispatch i.dispatch_at (header_sent i) h2 in
    let dispatched : Leads h d.0 =
      then_on (top-Leads i h)
        (then_on (poll-Leads i h1) (one (serve_slot i.dispatch_at (header_sent i)) h2)) in
    pair_if d.1 _ _ dispatched (then_on dispatched (drain-Leads i d.0))
