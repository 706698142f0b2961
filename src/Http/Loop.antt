-- ===== src/Http/Loop.antt =====
-- Plugins/SpotOn/Bin/fake-libpulse/fake-libpulse.c: `_http_thread_fn` up to its drain: the loop top
-- with the flush-disconnect, the read of the pending slot, the dispatch and the takeover.
use spoton.Prelude.{
  ℕ, ◌+◌, Bool, true, false, not, ◌&&◌, ◌||◌, Option, none, some, List, [], ◌∷◌, leb, if◌then◌else◌,
  is_some, eq_option,
}
use spoton.Time.{Clock, elapsed_ms}
use spoton.Ring.{Reason, ring_set_client}
use spoton.Decide.{no_decide}
use spoton.Request.{
  Pending, ReadResult, got, would_block, pending_head_complete, is_full, close_pending, append_read,
  http_request_timeout_ms,
}
use spoton.Shim.{Shim, decide_open}
use spoton.Http.{Slot, Arrival, classify, pending_serve_control, flush_backlog_pass}

-- `client_fd` and `pending` are the thread's own.
pub record Http : Type 0 where
  pub shim : Shim
  pub client_fd : Option ℕ
  pub pending : Pending

-- `close(client_fd); client_fd = -1; _ring_set_client(0, why, 0)`.
abbrev pub leave : Clock → Reason → Shim → Shim
leave c why g = record g { ring = ring_set_client c false why 0 g.ring }

abbrev pub with_slot : Http → Slot → Http
with_slot h s = record h { shim = s.shim; pending = s.pending }

-- The two backlog passes of the loop top.
unfoldable pub backlog_passes :
    Clock → ReadResult → List (Arrival × ReadResult) → List (Arrival × ReadResult) → Http → Http
backlog_passes c res q1 q2 h =
    let h1 =
      if h.shim.flush_disconnect && is_some h.client_fd
      then with_slot h
          (flush_backlog_pass c res q1 h.client_fd (record { shim = h.shim; pending = h.pending }))
      else h in
    let h2 =
      if is_some h1.client_fd && not h1.shim.flush_disconnect
      then with_slot h1 (
          flush_backlog_pass c res q2 h1.client_fd
            (record { shim = h1.shim; pending = h1.pending }))
      else h1 in
    if h1.shim.flush_keep_pending
    then record h2 { shim = record (h2.shim) { flush_keep_pending = false } }
    else h1

-- The flush-disconnect, once its decision is final: the client is closed and recorded as departed.
unfoldable pub flush_close : Clock → Http → Http
flush_close c h =
    if h.shim.flush_disconnect && (is_some h.client_fd && not (decide_open c h.shim))
    then record h {
      client_fd = none;
      shim = record (leave c Reason.disconnect h.shim) {
        decide = no_decide;
        flush_disconnect = false;
        awaiting_first_drain = true;
        boundary_at_pushed = none;
        departed_client_generation = some h.shim.client_generation;
      };
    }
    else h

-- What `poll` said of the pending socket: nothing, an error or hangup, or data and what the read gave.
pub data Polled : Type 0 where
  quiet broken : Polled
  readable : ReadResult → Polled

-- `read` returned 0 or an error other than EAGAIN: `close(pending.fd); pending.fd = -1`.
abbrev pub read_slot : ReadResult → Pending → Pending
read_slot (got []) p = record p { fd = none }
read_slot (got (x ∷ xs)) p = append_read p (x ∷ xs)
read_slot would_block p = p
read_slot res p = record p { fd = none }

unfoldable pub take_polled : Polled → Pending → Pending
take_polled quiet p = p
take_polled broken p = record p { fd = none }
take_polled (readable res) p = if is_full p then p else read_slot res p

-- The read of the slot: only where it still holds the socket `polled_fd` that was polled.
unfoldable pub read_pending : Option ℕ → Polled → Pending → Pending
read_pending polled_fd rev p =
    if is_some p.fd && (eq_option polled_fd p.fd && not (pending_head_complete p))
    then take_polled rev p
    else p

-- A marker that was planted for nobody and that no byte is left before.
abbrev pub is_orphan : Option ℕ → Option ℕ → ℕ → Bool
is_orphan none gen popped = false
is_orphan (some b) (some g) popped = false
is_orphan (some b) none popped = leb b popped

-- The promotion of the pending connection to the streaming client.
unfoldable pub promote_client : Clock → Http → Http
promote_client c h =
    let g = h.shim in
    let gen = g.client_generation + 1 in
    record h {
      client_fd = h.pending.fd;
      shim = record g {
        client_generation = gen;
        departed_client_generation = none;
        boundary_at_pushed =
            if is_orphan g.boundary_at_pushed g.boundary_client_generation g.ring.total_popped
            then none
            else g.boundary_at_pushed;
        ring = ring_set_client c true Reason.attach gen g.ring;
        flush_disconnect = false;
        decide = no_decide;
      };
      pending = close_pending h.pending;
    }

-- The takeover: the old client is closed, and the new one attached if its header could be written.
unfoldable pub takeover : Clock → Bool → Http → Http
unfolding promote_client
takeover c header_sent h =
    let h1 =
      if is_some h.client_fd
      then record h { client_fd = none; shim = leave c Reason.takeover h.shim }
      else h in
    if header_sent then promote_client c h1 else record h1 { pending = close_pending h1.pending }

-- The dispatch of the slot. `true` is the `continue` behind a control request.
unfoldable pub dispatch : Clock → Bool → Http → Http × Bool
dispatch c header_sent h =
    let p = h.pending in
    if is_some (classify p)
    then (with_slot h (pending_serve_control c h.client_fd p h.shim), true)
    else if is_some p.fd && (pending_head_complete p || is_full p)
    then (takeover c header_sent h, false)
    else if is_some p.fd && leb http_request_timeout_ms (elapsed_ms c.wall p.started)
    then (record h { pending = close_pending p }, false)
    else (h, false)
