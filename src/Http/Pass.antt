-- ===== src/Http/Pass.antt =====
-- Plugins/SpotOn/Bin/fake-libpulse/fake-libpulse.c: one pass of `_http_thread_fn`'s loop, its parts in
-- the order of the code, and the loop as a run of passes.
pub mod Attach
pub mod Budget
use spoton.Prelude.{
  ℕ, ◌+◌, Bool, true, false, not, ◌&&◌, Option, none, some, List, [], ◌∷◌, ◌++◌, if◌then◌else◌,
  is_some,
}
use spoton.Time.{Clock}
use spoton.Request.{ReadResult}
use spoton.Shim.{Shim, Stream}
use spoton.Daemon.{Daemon, run_daemons}
use spoton.Http.{Arrival, pending_accept}
use spoton.Http.Loop.{Http, with_slot, Polled, backlog_passes, flush_close, read_pending, dispatch}
use spoton.Http.Drain.{DrainTick, drain_start, drain_loop, signal_underrun}
use spoton.Http.Reply.{Writable, http_write_all, http_response_header, is_all_sent}

-- What a pass meets: the daemon's steps before it and during its poll, the clocks at its parts, what
-- the sockets gave, and what the drain's turns meet.
pub record PassInput : Type 0 where
  pub daemon : List Daemon
  pub top_at : Clock
  pub slot_read : ReadResult
  pub queued : List (Arrival × ReadResult)
  pub queued_again : List (Arrival × ReadResult)
  pub close_at : Clock
  pub polling : List Daemon
  pub arrival : Option Arrival
  pub polled : Polled
  pub dispatch_at : Clock
  pub header : List Writable
  pub drain_at : Clock
  pub turns : List DrainTick
  pub orphan_ms : ℕ
  pub underrun_at : Clock

abbrev pub daemon_runs : List Daemon → Http → Http
daemon_runs ds h = record h { shim = run_daemons ds h.shim }

-- The loop top: the daemon's steps, the backlog passes and the flush-disconnect.
unfoldable pub pass_top : PassInput → Http → Http
pass_top i h =
    flush_close i.close_at
      (backlog_passes i.top_at i.slot_read i.queued i.queued_again (daemon_runs i.daemon h))

abbrev pub accept_arrival : Option Arrival → Http → Http
accept_arrival none h = h
accept_arrival (some a) h = with_slot h (pending_accept a h.client_fd h.pending h.shim)

-- The poll covers the slot's socket as it was before the accept.
unfoldable pub pass_poll : PassInput → Http → Http
pass_poll i h =
    let h1 = accept_arrival i.arrival (daemon_runs i.polling h) in
    record h1 { pending = read_pending h.pending.fd i.polled h1.pending }

-- Whether the response header could be written.
unfoldable pub header_sent : PassInput → Bool
header_sent i = is_all_sent (http_write_all i.header http_response_header).code

-- The pass up to its dispatch, which says whether the loop starts over.
unfoldable pub pass_dispatch : PassInput → Http → Http × Bool
unfolding header_sent pass_top pass_poll
pass_dispatch i h = dispatch i.dispatch_at (header_sent i) (pass_poll i (pass_top i h))

-- `g_active_stream && g_active_stream->underflow_cb`.
abbrev hears : Option Stream → Bool
hears none = false
hears (some s) = s.has_underflow_cb

abbrev pub wants_underflow : Shim → Option ℕ → Bool
wants_underflow g none = false
wants_underflow g (some s) = hears (g.streams s)

-- The underflow edge behind the drain: with a client, and no keep flush waiting for its pass.
unfoldable pub pass_underrun : Clock → Http → Http
pass_underrun c h =
    if is_some h.client_fd && not h.shim.flush_keep_pending
    then record h {
      shim = (signal_underrun c (wants_underflow h.shim h.shim.active_stream) h.shim).1;
    }
    else h

-- The drain, for a client: the bytes it received, and the thread.
unfoldable pub pass_drain : PassInput → Http → List ℕ × Http
unfolding pass_underrun
pass_drain i h =
    let out = drain_loop i.turns i.orphan_ms 0 (drain_start i.drain_at h) in
    if is_some h.client_fd then (out.0, pass_underrun i.underrun_at out.1) else ([], h)

unfoldable pub http_pass : PassInput → Http → List ℕ × Http
unfolding pass_dispatch pass_drain
http_pass i h = let d = pass_dispatch i h in if d.1 then ([], d.0) else pass_drain i d.0

unfoldable pub http_thread : List PassInput → Http → Http
http_thread [] h = h
http_thread (i ∷ is) h = http_thread is (http_pass i h).1
