-- ===== src/Http/Drain/Write.antt =====
-- Plugins/SpotOn/Bin/fake-libpulse/fake-libpulse.c: `_http_write_client`, tick by tick.
use spoton.Prelude.{
  ℕ, ◌+◌, ◌-◌, min, Bool, true, false, not, ◌&&◌, ◌||◌, Option, none, some, List, [], ◌∷◌, ltb, leb,
  ◌==◌, if◌then◌else◌, is_some,
}
use spoton.Time.{Clock, Timeval, elapsed_ms}
use spoton.Request.{
  ReadResult, pending_try_read, pending_head_complete, is_full, drop_pending,
  http_request_timeout_ms,
}
use spoton.Shim.{decide_open}
use spoton.Daemon.{Daemon, run_daemons}
use spoton.Http.{Slot, Arrival, pending_accept, pending_serve_control}

-- What a tick of the client write found: the daemon's steps before it, an error or hangup of the
-- client's socket, what `write` took, a connection in the listen queue, and a read of the slot.
pub data Wrote : Type 0 where
  bytes : ℕ → Wrote
  retry hard_error : Wrote

pub record WriteTick : Type 0 where
  pub daemon : List Daemon
  pub at : Clock
  pub hangup : Bool
  pub wrote : Wrote
  pub arrival : Option Arrival
  pub slot_read : ReadResult

-- The return codes 0, -1, 2, 3 and 4 of `_http_write_client`, and a write that is still going on.
pub data WriteCode : Type 0 where
  written gone flush_pending takeover_pending orphan unfinished : WriteCode

pub record WriteEnd : Type 0 where
  pub code : WriteCode
  pub sent : ℕ
  pub slot : Slot

abbrev pub is_hard : Wrote → Bool
is_hard hard_error = true
is_hard (bytes n) = false
is_hard retry = false

-- At most what was asked for is written.
unfoldable pub sent_now : Wrote → ℕ → ℕ
sent_now (bytes n) left = min n left
sent_now retry left = 0
sent_now hard_error left = 0

-- A connection is accepted only into an empty slot: with one taken the listen socket is not polled.
unfoldable pub write_accept : Option Arrival → Option ℕ → Slot → Slot
write_accept none client_fd s = s
write_accept (some a) client_fd s =
    if is_some s.pending.fd then s else pending_accept a client_fd s.pending s.shim

-- The slot's part of a tick: a connection is accepted into an empty slot, the slot is read, a control
-- request in it is served, and a head that does not come in time is dropped.
unfoldable pub write_slot : WriteTick → Option ℕ → Slot → Slot
write_slot k client_fd s =
    let a = write_accept k.arrival client_fd s in
    let b =
      if is_some a.pending.fd
      then pending_serve_control k.at client_fd (pending_try_read k.slot_read a.pending) a.shim
      else a in
    if is_some b.pending.fd
      && (not (pending_head_complete b.pending)
          && leb http_request_timeout_ms (elapsed_ms k.at.wall b.pending.started))
    then record b { pending = drop_pending b.pending }
    else b

-- The tests at the end of a tick with bytes left, at `idle` milliseconds without progress.
unfoldable pub write_test : Clock → ℕ → ℕ → Slot → WriteCode
write_test c orphan_ms idle s =
    if s.shim.flush_disconnect && not (decide_open c s.shim)
    then flush_pending
    else if is_some s.pending.fd && (pending_head_complete s.pending || is_full s.pending)
    then takeover_pending
    else if leb orphan_ms idle
    then orphan
    else unfinished

-- `_http_write_client` over its ticks; `left` bytes are still to be written of `left + sent`.
unfoldable pub http_write_client : List WriteTick → ℕ → Option ℕ → ℕ → ℕ → Timeval → Slot → WriteEnd
http_write_client [] orphan_ms client_fd left sent progress_at s = record {
  code = if left == 0 then written else unfinished;
  sent = sent;
  slot = s;
}
http_write_client (k ∷ ks) orphan_ms client_fd left sent progress_at s =
    let s0 = record s { shim = run_daemons k.daemon s.shim } in
    let now_sent = sent_now k.wrote left in
    let s1 = write_slot k client_fd s0 in
    let progress = if ltb 0 now_sent then k.at.wall else progress_at in
    let code = write_test k.at orphan_ms (elapsed_ms k.at.wall progress) s1 in
    let rest =
      http_write_client ks orphan_ms client_fd (left - now_sent) (sent + now_sent) progress s1 in
    if left == 0
    then record { code = written; sent = sent; slot = s }
    else if k.hangup || is_hard k.wrote
    then record { code = gone; sent = sent; slot = s0 }
    else if left - now_sent == 0
    then record { code = written; sent = sent + now_sent; slot = s1 }
    else elim code [
      | unfinished ↦ rest
      | other ↦ record { code = other; sent = sent + now_sent; slot = s1 }
    ]
