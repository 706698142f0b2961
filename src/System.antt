-- ===== src/System.antt =====
-- Plugins/SpotOn/Bin/fake-libpulse/fake-libpulse.c: the whole shim as a transition system, the daemon's
-- calls and the HTTP thread's loop in any order.
pub mod Sound
pub mod Serve
pub mod Client
pub mod Drain
pub mod Reach
pub mod Passes
pub mod Sink
pub mod Underrun
pub mod Delivery
use spoton.Prelude.{ℕ, ◌+◌, Bool, true, false, Option, none, some, List, [], ◌∷◌}
use spoton.Time.{Clock, Target}
use spoton.Prelude.{Memory}
use spoton.Request.{Pending, ReadResult}
use spoton.Shim.{Shim, start}
use spoton.Daemon.{Daemon, run_daemon}
use spoton.Http.{Slot, Arrival, pending_accept}
use spoton.Http.Loop.{Http, with_slot, Polled, backlog_passes, flush_close, read_pending, dispatch}
use spoton.Http.Drain.{DrainTick, drain_start, drain_turn, signal_underrun}

-- A call of the daemon, or a part of a pass of `_http_thread_fn`.
pub data Step : Type 0 where
  daemon : Daemon → Step
  passes : Clock → ReadResult → List (Arrival × ReadResult) → List (Arrival × ReadResult) → Step
  top : Clock → Step
  accept : Arrival → Step
  read : Option ℕ → Polled → Step
  serve_slot : Clock → Bool → Step
  before_drain : Clock → Step
  turn : DrainTick → ℕ → Step
  underrun : Clock → Bool → Step

pub run_step : Step → Http → Http
run_step (daemon d) h = record h { shim = run_daemon d h.shim }
run_step (passes c res q1 q2) h = backlog_passes c res q1 q2 h
run_step (top c) h = flush_close c h
run_step (accept a) h = with_slot h (pending_accept a h.client_fd h.pending h.shim)
run_step (read fd rev) h = record h { pending = read_pending fd rev h.pending }
run_step (serve_slot c sent) h = (dispatch c sent h).0
run_step (before_drain c) h = drain_start c h
run_step (turn k orphan_ms) h = (drain_turn k orphan_ms h).http
run_step (underrun c wants) h = record h { shim = (signal_underrun c wants h.shim).1 }

-- The thread and the shim before the first connection.
abbrev pub initial : Target → Bool → Memory → Http
initial target http_mode block = record {
  shim = start target http_mode block;
  client_fd = none;
  pending = record {
    fd = none;
    buf = [];
    len = 0;
    started = record { sec = 0; usec = 0 };
    from_loopback = false;
  };
}

pub run_steps : List Step → Http → Http
run_steps [] h = h
run_steps (s ∷ ss) h = run_steps ss (run_step s h)
