-- ===== src/Http.antt =====
-- Plugins/SpotOn/Bin/fake-libpulse/fake-libpulse.c: the HTTP thread. Its state is the shared shim, its
-- streaming client and its pending slot; what the sockets did is an argument of each step.
pub mod Bounded
pub mod Decision
pub mod Loop
pub mod Drain
pub mod Reply
pub mod Pass
use spoton.Prelude.{
  ℕ, Bool, true, false, not, ◌&&◌, ◌||◌, Option, none, some, List, [], ◌∷◌, if◌then◌else◌, is_some,
  take,
}
use spoton.Time.{Clock}
use spoton.Request.{
  Pending, Endpoint, boundary, seek_arm, hold_release, browse_keep, seek_keep, ReadResult,
  pending_is_control, pending_try_read, close_pending,
}
use spoton.Shim.{Shim}
use spoton.Control.{
  Served, serve_boundary, serve_seek_arm, serve_hold_release, serve_browse_keep, serve_seek_keep,
}

-- A request for an endpoint, served.
unfoldable pub serve : Clock → Option ℕ → Endpoint → Pending → Shim → Served
serve c client_fd boundary p g = serve_boundary c client_fd p g
serve c client_fd seek_arm p g = serve_seek_arm c client_fd p g
serve c client_fd hold_release p g = serve_hold_release c p g
serve c client_fd browse_keep p g = serve_browse_keep p g
serve c client_fd seek_keep p g = serve_seek_keep c client_fd p g

-- The endpoint that a complete control request names, in the order of the tests.
unfoldable pub classify : Pending → Option Endpoint
classify p =
    if pending_is_control boundary p
    then some boundary
    else if pending_is_control seek_arm p
    then some seek_arm
    else if pending_is_control hold_release p
    then some hold_release
    else if pending_is_control browse_keep p
    then some browse_keep
    else if pending_is_control seek_keep p
    then some seek_keep
    else none

-- The shim and the slot.
pub record Slot : Type 0 where
  pub shim : Shim
  pub pending : Pending

unfoldable pub serve_if : Clock → Option ℕ → Option Endpoint → Pending → Shim → Slot
serve_if c client_fd none p g = record { shim = g; pending = p }
serve_if c client_fd (some e) p g =
    let s = serve c client_fd e p g in record { shim = s.shim; pending = s.pending }

-- `_pending_serve_control`: a slot that holds no complete control request is left as it is.
unfoldable pub pending_serve_control : Clock → Option ℕ → Pending → Shim → Slot
pending_serve_control c client_fd p g = serve_if c client_fd (classify p) p g

-- `_pending_settle`: the occupant is read once more, and served or closed.
unfoldable pub pending_settle : Clock → ReadResult → Option ℕ → Pending → Shim → Slot
pending_settle c res client_fd p g =
    let p' = pending_try_read res p in
    let s = pending_serve_control c client_fd p' g in
    if not (is_some p'.fd)
    then record { shim = g; pending = p' }
    else if is_some (classify p')
    then s
    else record { shim = g; pending = close_pending p' }

-- A connection taken from the listen queue: its socket, whether its peer is 127.0.0.1, and what one
-- read of it, and one of the slot's occupant, then return.
pub record Arrival : Type 0 where
  pub fd : ℕ
  pub from_loopback : Bool
  pub at : Clock
  pub first_read : ReadResult
  pub occupant_read : ReadResult

abbrev pub new_pending : Arrival → Pending
new_pending a = record {
  fd = some a.fd;
  buf = [];
  len = 0;
  started = a.at.wall;
  from_loopback = a.from_loopback;
}

-- `_pending_accept` with the slot taken: a control newcomer is served in place, behind an earlier
-- control request in the slot; any other takes the slot of the settled occupant.
unfoldable pub accept_beside : Arrival → Option ℕ → Pending → Shim → Slot
accept_beside a client_fd p g =
    let nc = pending_try_read a.first_read (new_pending a) in
    let p1 = pending_try_read a.occupant_read p in
    let earlier = pending_serve_control a.at client_fd p1 g in
    if not (is_some nc.fd)
    then record { shim = g; pending = p }
    else if is_some (classify nc)
    then record {
      shim = (pending_serve_control a.at client_fd nc earlier.shim).shim;
      pending = earlier.pending;
    }
    else record { shim = (pending_settle a.at a.occupant_read client_fd p g).shim; pending = nc }

-- `_pending_accept`.
unfoldable pub pending_accept : Arrival → Option ℕ → Pending → Shim → Slot
pending_accept a client_fd p g =
    if is_some p.fd
    then accept_beside a client_fd p g
    else record { shim = g; pending = new_pending a }

-- `/seek-arm` and `/seek-keep` in the slot are served by the backlog pass, no other request.
unfoldable pub serve_arm_or_keep : Clock → Option ℕ → Pending → Shim → Slot
serve_arm_or_keep c client_fd p g =
    if pending_is_control seek_arm p
    then serve_if c client_fd (some seek_arm) p g
    else if pending_is_control seek_keep p
    then serve_if c client_fd (some seek_keep) p g
    else record { shim = g; pending = p }

-- The loop of the pass over the queued connections, with what a read of the slot behind each returns.
unfoldable pub backlog_loop : List (Arrival × ReadResult) → Option ℕ → Slot → Slot
backlog_loop [] client_fd s = s
backlog_loop ((a, res) ∷ queue) client_fd s =
    let t = pending_accept a client_fd s.pending s.shim in
    let rest =
      backlog_loop queue client_fd
        (serve_arm_or_keep a.at client_fd (pending_try_read res t.pending) t.shim) in
    if s.shim.flush_disconnect || s.shim.flush_keep_pending then rest else s

-- FLUSH_BACKLOG_PASS_MAX.
abbrev pub flush_backlog_pass_max : ℕ
flush_backlog_pass_max = 8

-- `_flush_backlog_pass`; the list holds the connections queued at the time.
unfoldable pub flush_backlog_pass :
    Clock → ReadResult → List (Arrival × ReadResult) → Option ℕ → Slot → Slot
flush_backlog_pass c res queued client_fd s =
    backlog_loop (take flush_backlog_pass_max queued) client_fd
      (serve_arm_or_keep c client_fd (pending_try_read res s.pending) s.shim)
