-- ===== src/Http/Drain.antt =====
-- Plugins/SpotOn/Bin/fake-libpulse/fake-libpulse.c: the client write, the drain of the ring to the
-- streaming client, and the underflow signal.
mod Write
unfoldable pub use Write.*
use spoton.Prelude.{
  ℕ, ◌+◌, ◌-◌, ◌/◌, min, Bool, true, false, not, ◌&&◌, ◌||◌, Option, none, some, List, [], ◌∷◌,
  ◌++◌, ltb, leb, ◌==◌, if◌then◌else◌, is_some, eq_option, length, take,
}
use spoton.Time.{Clock, Timeval, elapsed_ms, vsink_now_us}
use spoton.Ring.{Reason, hold_timeout_check, ring_bytes_per_sec}
use spoton.Ring.Pop.{pop_waits, pop_locked}
use spoton.Vsink.{vsink_settle}
use spoton.Request.{
  ReadResult, pending_try_read, pending_head_complete, is_full, drop_pending,
  http_request_timeout_ms,
}
use spoton.Shim.{Shim, decide_open}
use spoton.Daemon.{Daemon, run_daemons}
use spoton.Http.{Slot, Arrival, pending_accept, pending_serve_control}
use spoton.Http.Loop.{Http, leave}

-- The marker applies to the client that is attached now.
abbrev pub applies : Option ℕ → ℕ → Bool
applies none now = true
applies (some g) now = g == now

-- How far the marker lets this client read, `none` for no bound, before a pop.
unfoldable pub bound_left : Option ℕ → Option ℕ → ℕ → ℕ → Option ℕ
bound_left none gen now popped = none
bound_left (some b) gen now popped = if applies gen now then some (b - popped) else none

-- `close(client_fd)` at a bound: the client departs, and the marker is spent.
unfoldable pub bounded_close : Clock → Http → Http
bounded_close c h = record h {
  client_fd = none;
  shim = record (leave c Reason.boundary h.shim) {
    boundary_at_pushed = none;
    departed_client_generation = some h.shim.client_generation;
  };
}

abbrev http_drain_chunk : ℕ
http_drain_chunk = 16384

-- The size asked of the pop under a bound.
abbrev pub pop_max : Option ℕ → ℕ
pop_max none = http_drain_chunk
pop_max (some left) = min http_drain_chunk left

-- `_ring_pop_timed`: on an empty ring the daemon's steps run first.
unfoldable pub ring_pop_timed : Clock → List Daemon → ℕ → Shim → List ℕ × Shim
ring_pop_timed c waiting maxlen g =
    let g1 = if pop_waits g.flush_keep_pending g.ring then run_daemons waiting g else g in
    let out = pop_locked c g1.flush_disconnect maxlen g1.ring in (out.0, record g1 { ring = out.1 })

-- How much of `n` popped bytes is written, whether the bound is reached, and the marker that stays.
pub record Trim : Type 0 where
  pub write_n : ℕ
  pub at_boundary : Bool
  pub marker : Option ℕ

unfoldable pub trim : Option ℕ → Option ℕ → ℕ → ℕ → ℕ → Trim
trim none gen now popped_after n = record { write_n = n; at_boundary = false; marker = none }
trim (some b) gen now popped_after n =
    if leb b popped_after
    then if applies gen now
      then record { write_n = b - (popped_after - n); at_boundary = true; marker = some b }
      else record { write_n = n; at_boundary = false; marker = none }
    else record { write_n = n; at_boundary = false; marker = some b }

-- What one turn of the drain loop is given: the daemon's steps while the pop waits, and the write's.
pub record DrainTick : Type 0 where
  pub at : Clock
  pub waiting : List Daemon
  pub writing : List WriteTick
  pub after_write : Clock

-- The bytes that the client received, the thread, and how much was drained; 0 ends the loop.
pub record Drained : Type 0 where
  pub received : List ℕ
  pub http : Http
  pub drained : ℕ
  pub stopped : Bool

-- The end of a turn by the code of the write.
unfoldable pub after_write : Clock → Bool → WriteCode → Http → Http
after_write c at_boundary gone h = record h {
  client_fd = none;
  shim = record (leave c Reason.departure h.shim) {
    departed_client_generation = some h.shim.client_generation;
  };
}
after_write c at_boundary orphan h = record h {
  client_fd = none;
  shim = record (leave c Reason.departure h.shim) {
    departed_client_generation = some h.shim.client_generation;
  };
}
after_write c at_boundary flush_pending h = h
after_write c at_boundary takeover_pending h = h
after_write c at_boundary unfinished h = h
after_write c at_boundary written h = if at_boundary then bounded_close c h else h

abbrev pub is_written : WriteCode → Bool
is_written written = true
is_written gone = false
is_written flush_pending = false
is_written takeover_pending = false
is_written orphan = false
is_written unfinished = false

-- The part of a turn behind a pop of `xs`, which is not empty.
unfoldable pub drain_write : DrainTick → ℕ → List ℕ → Http → Drained
drain_write k orphan_ms xs h =
    let g = h.shim in
    let t =
      trim g.boundary_at_pushed g.boundary_client_generation g.client_generation g.ring.total_popped
        (length xs) in
    let g1 = record g { boundary_at_pushed = t.marker; awaiting_first_drain = false } in
    let w =
      http_write_client k.writing orphan_ms h.client_fd t.write_n 0 k.at.wall
        (record { shim = g1; pending = h.pending }) in
    let h1 = record h { shim = w.slot.shim; pending = w.slot.pending } in
    record {
      received = take w.sent xs;
      http = after_write k.after_write t.at_boundary w.code h1;
      drained = length xs;
      stopped = t.at_boundary || not (is_written w.code);
    }

abbrev pub is_nil : List ℕ → Bool
is_nil [] = true
is_nil (x ∷ xs) = false

-- One turn of the drain loop.
unfoldable pub drain_turn : DrainTick → ℕ → Http → Drained
drain_turn k orphan_ms h =
    let g = h.shim in
    let left =
      bound_left g.boundary_at_pushed g.boundary_client_generation g.client_generation
        g.ring.total_popped in
    let out = ring_pop_timed k.at k.waiting (pop_max left) g in
    if eq_option left (some 0)
    then record { received = []; http = bounded_close k.at h; drained = 0; stopped = true }
    else if is_nil out.0
    then record { received = []; http = record h { shim = out.1 }; drained = 0; stopped = true }
    else drain_write k orphan_ms out.0 (record h { shim = out.1 })

-- HTTP_DRAIN_BUDGET: twice what 50 ms of audio need.
abbrev pub http_drain_budget : ℕ
http_drain_budget = ring_bytes_per_sec / 10

-- The drain loop. It stops under a pending arm or flush-disconnect, and at the budget.
unfoldable pub drain_loop : List DrainTick → ℕ → ℕ → Http → List ℕ × Http
drain_loop [] orphan_ms drained h = ([], h)
drain_loop (k ∷ ks) orphan_ms drained h =
    let d = drain_turn k orphan_ms h in
    let rest = drain_loop ks orphan_ms (drained + d.drained) d.http in
    if not (h.shim.seek_flush_armed == 0)
      || (h.shim.flush_disconnect || leb http_drain_budget drained)
    then ([], h)
    else if d.stopped
    then (d.received, d.http)
    else (d.received ++ rest.0, rest.1)

abbrev seek_arm_ttl_ms : ℕ
seek_arm_ttl_ms = 3000

-- A leaked arm is dropped, and a hold that ran out is released, before each drain.
unfoldable pub drain_start : Clock → Http → Http
drain_start c h =
    let g = h.shim in
    record h {
      shim = record g {
        seek_flush_armed =
            if ltb 0 g.seek_flush_armed && leb seek_arm_ttl_ms (elapsed_ms c.wall g.seek_arm_at)
            then 0
            else g.seek_flush_armed;
        ring = hold_timeout_check c g.ring;
      };
    }

-- The underflow edge: the ring is empty and has not signalled, a stream wants the signal, and the
-- virtual sink is empty too. The result says whether the daemon's callback is called.
unfoldable pub signal_underrun : Clock → Bool → Shim → Bool × Shim
signal_underrun c wants g =
    let edge = (g.ring.fill == 0) && (not g.ring.underrun_fired && wants) in
    let v = vsink_settle (vsink_now_us c) g.vsink in
    let signalled = record g { ring = record (g.ring) { underrun_fired = true } } in
    if not edge
    then (false, g)
    else if ltb 0 g.vsink.t_ms
    then if ltb 0 v.q_out
      then (false, record g { vsink = record v { suppressed = v.suppressed + 1 } })
      else (true, record signalled { vsink = v })
    else (true, signalled)
