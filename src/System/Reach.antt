-- ===== src/System/Reach.antt =====
-- The steps of `_http_thread_fn` keep the shared state sound, so every state that the shim reaches is.
use spoton.Prelude.{
  ℕ, ◌+◌, ◌≡◌, refl, inr, Bool, true, false, Option, none, some, List, [], ◌∷◌, arith, is_some, ltb,
  leb, if◌then◌else◌, ◌==◌, ◌&&◌, not, ◌||◌, eq_option, Memory,
}
use spoton.Time.{Clock, Target, vsink_now_us, elapsed_ms}
use spoton.Ring.{Ring, Reason, ring_init}
use spoton.Ring.Valid.{IsValid, Below, ring_init-IsValid}
use spoton.Decide.{no_decide}
use spoton.Request.{
  Pending, ReadResult, got, eof, would_block, failed, close_pending, pending_head_complete, is_full,
  http_request_timeout_ms,
}
use spoton.Request.Search.{Fits, append_read-Fits}
use spoton.Shim.{Shim}
use spoton.Http.{Arrival, classify, flush_backlog_pass}
use spoton.Vsink.{vsink_settle}
use spoton.Http.Loop
use spoton.Http.Loop.{
  Http, leave, with_slot, backlog_passes, flush_close, Polled, quiet, broken, readable, read_slot,
  take_polled, read_pending, is_orphan, promote_client, dispatch,
}
use spoton.Http.Drain.{signal_underrun}
use spoton.System.{
  Step, daemon, passes, top, accept, read, serve_slot, before_drain, turn, underrun, run_step,
  run_steps, initial,
}
use spoton.System.Sound.{IsSound, Keeps, with_ring, with_decision, run_daemon-Sound}
use spoton.System.Serve.{
  closed-Fits, pending_serve_control-Sound, pending_accept-Sound, backlog-Sound,
}
use spoton.System.Client.{
  SoundHttp, http_if, pair_if, detached, with_marker, with_gen, no_departed, attached, from_slot,
  to_slot, close-SoundHttp, start-SoundHttp,
}
use spoton.System.Drain.{turn-SoundHttp}

passes-SoundHttp :
    (c : Clock) (res : ReadResult) (q1 q2 : List (Arrival × ReadResult)) (h : Http)
    → SoundHttp h
    → SoundHttp (backlog_passes c res q1 q2 h)
unfolding backlog_passes
passes-SoundHttp c res q1 q2 h v =
    let pass1 =
      with_slot h
        (flush_backlog_pass c res q1 h.client_fd (record { shim = h.shim; pending = h.pending })) in
    let h1 = if h.shim.flush_disconnect && is_some h.client_fd then pass1 else h in
    let v1 : SoundHttp h1 =
      http_if (h.shim.flush_disconnect && is_some h.client_fd) pass1 h
        (from_slot h (backlog-Sound c res q1 h.client_fd _ (to_slot v))) v in
    let pass2 = with_slot h1 (
      flush_backlog_pass c res q2 h1.client_fd (record { shim = h1.shim; pending = h1.pending })) in
    let h2 = if is_some h1.client_fd && not h1.shim.flush_disconnect then pass2 else h1 in
    let v2 : SoundHttp h2 =
      http_if (is_some h1.client_fd && not h1.shim.flush_disconnect) pass2 h1
        (from_slot h1 (backlog-Sound c res q2 h1.client_fd _ (to_slot v1))) v1 in
    http_if h1.shim.flush_keep_pending _ _ (record { shim = v2.shim; slot = v2.slot }) v1

read_slot-Fits : (res : ReadResult) (p : Pending) → Fits p → Fits (read_slot res p)
read_slot-Fits (got []) p f = record { bounded = f.bounded }
read_slot-Fits (got (x ∷ xs)) p f = append_read-Fits (x ∷ xs) f
read_slot-Fits would_block p f = f
read_slot-Fits eof p f = record { bounded = f.bounded }
read_slot-Fits failed p f = record { bounded = f.bounded }

Fits-if : (b : Bool) (x y : Pending) → Fits x → Fits y → Fits (if b then x else y)
Fits-if true x y h k = h
Fits-if false x y h k = k

take_polled-Fits : (rev : Polled) (p : Pending) → Fits p → Fits (take_polled rev p)
unfolding take_polled
take_polled-Fits quiet p f = f
take_polled-Fits broken p f = record { bounded = f.bounded }
take_polled-Fits (readable res) p f = Fits-if (is_full p) _ _ f (read_slot-Fits res p f)

read_pending-Fits :
    (fd : Option ℕ) (rev : Polled) (p : Pending) → Fits p → Fits (read_pending fd rev p)
unfolding read_pending
read_pending-Fits fd rev p f =
    Fits-if (is_some p.fd && (eq_option fd p.fd && not (pending_head_complete p))) _ _
      (take_polled-Fits rev p f) f

orphan_marker :
    (o gen : Option ℕ) (popped k : ℕ) (b : Bool) → Below o k → Below (if b then none else o) k
orphan_marker o gen popped k true h = tt
orphan_marker o gen popped k false h = h

promote-SoundHttp :
    (c : Clock) (n : ℕ) (h : Http)
    → h.pending.fd ≡ some n
    → SoundHttp h
    → SoundHttp (promote_client c h)
unfolding promote_client
promote-SoundHttp c n h e v =
    let g = h.shim in
    let orphaned =
      is_orphan g.boundary_at_pushed g.boundary_client_generation g.ring.total_popped in
    simp e (record {
      shim = with_decision false no_decide (inr refl) (
          attached c n (g.client_generation + 1) (
            with_marker (if orphaned then none else g.boundary_at_pushed)
              (orphan_marker g.boundary_at_pushed none 0 g.ring.total_pushed orphaned v.shim.marker)
              (no_departed (with_gen v.shim))));
      slot = closed-Fits h.pending;
    })

left_first :
    (c : Clock) (h : Http)
    → SoundHttp h
    → SoundHttp (
        if is_some h.client_fd
        then record h { client_fd = none; shim = leave c Reason.takeover h.shim }
        else h)
left_first c h v =
    http_if (is_some h.client_fd) _ _
      (record { shim = detached c Reason.takeover v.shim; slot = v.slot }) v

takeover-SoundHttp :
    (c : Clock) (b : Bool) (n : ℕ) (h : Http)
    → h.pending.fd ≡ some n
    → SoundHttp h
    → SoundHttp (Loop.takeover c b h)
unfolding Loop.takeover
takeover-SoundHttp c b n h e v =
    let h1 =
      if is_some h.client_fd
      then record h { client_fd = none; shim = leave c Reason.takeover h.shim }
      else h in
    let v1 : SoundHttp h1 = left_first c h v in
    http_if b _ _ (promote-SoundHttp c n h1 (kept (is_some h.client_fd)) v1)
      (record { shim = v1.shim; slot = closed-Fits h1.pending })
  where
    kept :
        (t : Bool)
        → (if t
            then record h { client_fd = none; shim = leave c Reason.takeover h.shim }
            else h).pending.fd
          ≡ some n
    kept true = e
    kept false = e

-- The branches of `dispatch` behind the test on a control request.
abbrev rest : Clock → Bool → Http → Option ℕ → Http × Bool
rest c b h o =
    if is_some o && (pending_head_complete h.pending || is_full h.pending)
    then (Loop.takeover c b h, false)
    else if is_some o && leb http_request_timeout_ms (elapsed_ms c.wall h.pending.started)
    then (record h { pending = close_pending h.pending }, false)
    else (h, false)

rest-SoundHttp :
    (c : Clock) (b : Bool) (h : Http) (o : Option ℕ)
    → h.pending.fd ≡ o
    → SoundHttp h
    → SoundHttp (rest c b h o).0
rest-SoundHttp c b h none e v = v
rest-SoundHttp c b h (some n) e v =
    pair_if (pending_head_complete h.pending || is_full h.pending) _ _
      (takeover-SoundHttp c b n h e v)
      (pair_if (leb http_request_timeout_ms (elapsed_ms c.wall h.pending.started)) _ _
        (record { shim = v.shim; slot = closed-Fits h.pending }) v)

dispatch-SoundHttp : (c : Clock) (b : Bool) (h : Http) → SoundHttp h → SoundHttp (dispatch c b h).0
unfolding dispatch
dispatch-SoundHttp c b h v =
    pair_if (is_some (classify h.pending)) _ _
      (from_slot h (pending_serve_control-Sound c h.client_fd h.pending h.shim v.shim v.slot))
      (rest-SoundHttp c b h h.pending.fd refl v)

fired-Keeps : (b : Bool) {r : Ring} → IsValid r → Keeps r (record r { underrun_fired = b })
fired-Keeps b v = record { valid = ground arith; client = refl; pushed = omega arith }

underrun-Sound :
    (c : Clock) (wants : Bool) {fd : Option ℕ} (g : Shim)
    → IsSound fd g
    → IsSound fd (signal_underrun c wants g).1
unfolding signal_underrun
underrun-Sound c wants {fd} g v =
    let f = with_ring v (fired-Keeps true v.ring_valid) in
    sig_if (not ((g.ring.fill == 0) && (not g.ring.underrun_fired && wants))) _ _ v (
      sig_if (ltb 0 g.vsink.t_ms) _ _
        (sig_if (ltb 0 (vsink_settle (vsink_now_us c) g.vsink).q_out) _ _ v f) f)
  where
    sig_if :
        (b : Bool) (x y : Bool × Shim)
        → IsSound fd x.1
        → IsSound fd y.1
        → IsSound fd (if b then x else y).1
    sig_if true x y h k = h
    sig_if false x y h k = k

-- One step, the daemon's or the HTTP thread's.
run_step-Sound : (s : Step) (h : Http) → SoundHttp h → SoundHttp (run_step s h)
unfolding run_step
run_step-Sound (daemon d) h v = record { shim = run_daemon-Sound d h.shim v.shim; slot = v.slot }
run_step-Sound (passes c res q1 q2) h v = passes-SoundHttp c res q1 q2 h v
run_step-Sound (top c) h v = close-SoundHttp c v
run_step-Sound (accept a) h v =
    from_slot h (pending_accept-Sound a h.client_fd h.pending h.shim v.shim v.slot)
run_step-Sound (read fd rev) h v = record {
  shim = v.shim;
  slot = read_pending-Fits fd rev h.pending v.slot;
}
run_step-Sound (serve_slot c b) h v = dispatch-SoundHttp c b h v
run_step-Sound (before_drain c) h v = start-SoundHttp c v
run_step-Sound (turn k o) h v = turn-SoundHttp k o h v
run_step-Sound (underrun c w) h v = record {
  shim = underrun-Sound c w h.shim v.shim;
  slot = v.slot;
}

pub run_steps-Sound : (ss : List Step) (h : Http) → SoundHttp h → SoundHttp (run_steps ss h)
unfolding run_steps
run_steps-Sound [] h v = v
run_steps-Sound (s ∷ ss) h v = run_steps-Sound ss (run_step s h) (run_step-Sound s h v)

initial-Sound : (t : Target) (b : Bool) (block : Memory) → SoundHttp (initial t b block)
unfolding ring_init
initial-Sound t b block = record {
  shim = record {
    ring_valid = ring_init-IsValid block;
    armed = omega arith;
    attached = refl;
    marker = tt;
    marker_gen = tt;
    departed_gen = tt;
    decided = inr refl;
  };
  slot = record { bounded = omega arith };
}

-- However the daemon's critical sections and the parts of the HTTP thread's loop follow each other, on
-- either target, whatever the sockets return and the clocks read, each state reached from the start
-- is sound: the ring is valid, the arms number at most 8, the client's flag in the ring agrees with
-- the socket, the marker is not ahead of the pushes, no marker and no departed record names a
-- generation to come, a window is open only under a pending flush-disconnect, and the slot's text fits
-- its buffer.
pub reachable-Sound :
    (t : Target) (b : Bool) (block : Memory) (ss : List Step)
    → SoundHttp (run_steps ss (initial t b block))
reachable-Sound t b block ss = run_steps-Sound ss (initial t b block) (initial-Sound t b block)
