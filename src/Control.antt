-- ===== src/Control.antt =====
-- Plugins/SpotOn/Bin/fake-libpulse/fake-libpulse.c: the control requests of the HTTP thread. Each
-- answers the request in the pending slot, closes it, and never touches the streaming client.
pub mod Guard
pub mod Place
pub mod Answer
use spoton.Prelude.{
  ℕ, ◌+◌, ◌-◌, ◌*◌, Bool, true, false, not, ◌&&◌, Option, none, some, ltb, leb, ◌==◌, if◌then◌else◌,
  is_some,
}
use spoton.Time.{Clock, mono_ms, mono_since, long_le, hold_now_ms}
use spoton.Ring.{Ring, Reason, HoldRel, hold_release, ring_bytes_per_sec}
use spoton.Decide.{no_decide, promote}
use spoton.Request.{Pending, close_pending, head_line_has, codes}
use spoton.Shim.{Shim, decide_open}

pub data Via : Type 0 where
  live departed nobody : Via

pub data Anchor : Type 0 where
  pushed drain popped : Anchor

pub data HoldState : Type 0 where
  absent consumed plain expired : HoldState

-- Where a boundary is planted, and what the reply says of the hold.
pub record Placement : Type 0 where
  pub planted : ℕ
  pub anchor : Anchor
  pub hold_state : HoldState
  pub hold_report_at : Option ℕ

-- The text body of the reply to `POST /boundary`.
pub record BoundaryReply : Type 0 where
  pub via : Via
  pub placement : Placement
  pub ring_fill : ℕ
  pub total_pushed : ℕ
  pub total_popped : ℕ
  pub drops : ℕ
  pub gen : Option ℕ

-- What a control request is answered with.
pub data Reply : Type 0 where
  forbidden bad_request empty_ok : Reply
  boundary_ok : BoundaryReply → Reply
  hold_released : HoldRel → Reply
  hold_suppressed : ℕ → Reply
  browse_keep_ok : Bool → Reply
  seek_keep_ok : Bool → Reply

-- The effect of one served request, and for `/seek-arm` whether a pending flush consumed it.
pub record Served : Type 0 where
  pub shim : Shim
  pub pending : Pending
  pub reply : Reply
  pub took : Bool

abbrev refused_403 : Shim → Pending → Served
refused_403 g p = record { shim = g; pending = close_pending p; reply = forbidden; took = false }

-- The placement for a drain request: the position where the empty ring was last refilled, if that
-- lies within 2 s of the pushes, but not behind what the client has read; else the write position.
pub drain_place : Bool → ℕ → ℕ → Option ℕ → ℕ × Anchor
drain_place false pushed_now popped_now last_empty = (pushed_now, pushed)
drain_place true pushed_now popped_now none = (pushed_now, pushed)
drain_place true pushed_now popped_now (some e) =
    if leb (pushed_now - e) (2 * ring_bytes_per_sec)
    then if ltb e popped_now then (popped_now, popped) else (e, drain)
    else (pushed_now, pushed)

-- The branch on the hold and on a remembered timed-out hold.
pub place_at : Clock → Bool → Ring → Option ℕ → Option ℕ → Placement × Ring
unfolding drain_place
place_at c drain_live r (some h) ex =
    let pl = drain_place drain_live r.total_pushed r.total_popped r.last_empty_pushed in
    if drain_live
    then (
      record { planted = h; anchor = drain; hold_state = consumed; hold_report_at = some h },
      (hold_release c Reason.boundary r).1,
    )
    else (
      record { planted = pl.0; anchor = pl.1; hold_state = plain; hold_report_at = some h },
      (hold_release c Reason.plain r).1,
    )
place_at c drain_live r none (some x) =
    let pl = drain_place drain_live r.total_pushed r.total_popped r.last_empty_pushed in
    (
      record { planted = pl.0; anchor = pl.1; hold_state = expired; hold_report_at = some x },
      record r { hold_expired_at = none },
    )
place_at c drain_live r none none =
    let pl = drain_place drain_live r.total_pushed r.total_popped r.last_empty_pushed in
    (record { planted = pl.0; anchor = pl.1; hold_state = absent; hold_report_at = none }, r)

pub place : Clock → Bool → Ring → Placement × Ring
place c drain_live r = place_at c drain_live r r.hold_at r.hold_expired_at

-- Which client generation the marker is for, the departed record that stays, and the reply's word.
unfoldable pub boundary_gen : Bool → Bool → ℕ → Option ℕ → Option ℕ × Option ℕ × Via
boundary_gen true flush_pending gen dep = (some gen, dep, if flush_pending then departed else live)
boundary_gen false flush_pending gen (some d) = (some d, none, departed)
boundary_gen false flush_pending gen none = (none, none, nobody)

-- `_serve_boundary`.
unfoldable pub serve_boundary : Clock → Option ℕ → Pending → Shim → Served
serve_boundary c client_fd p g =
    let flush_pending = g.flush_disconnect && is_some client_fd in
    let want_drain = head_line_has p (codes "anchor=drain") && not flush_pending in
    let pl = place c (want_drain && is_some client_fd) g.ring in
    let bg =
      boundary_gen (is_some client_fd) flush_pending g.client_generation
        g.departed_client_generation in
    if not p.from_loopback then refused_403 g p else record {
      shim = record g {
        decide = if flush_pending && decide_open c g then promote g.decide else g.decide;
        ring = pl.1;
        boundary_at_pushed = some pl.0.planted;
        boundary_client_generation = bg.0;
        departed_client_generation = bg.1;
        seek_flush_armed = 0;
      };
      pending = close_pending p;
      reply = boundary_ok (record {
        via = bg.2;
        placement = pl.0;
        ring_fill = g.ring.fill;
        total_pushed = g.ring.total_pushed;
        total_popped = g.ring.total_popped;
        drops = g.ring.drops_total;
        gen = bg.0;
      });
      took = false;
    }

abbrev pub seek_flush_armed_max : ℕ
seek_flush_armed_max = 8

abbrev seek_keep_arm_window_ms : ℕ
seek_keep_arm_window_ms = 50

-- A browse-keep flush waits for its arm, and its claim is not older than its window.
unfoldable pub keep_claims : Clock → Shim → Bool
keep_claims c g =
    not (g.flush_keep_at == 0)
    && (long_le g.target (mono_since g.target (mono_ms g.target c) g.flush_keep_at)
          seek_keep_arm_window_ms
        && g.flush_keep_pending)

-- `_serve_seek_arm`.
unfoldable pub serve_seek_arm : Clock → Option ℕ → Pending → Shim → Served
unfolding keep_claims
serve_seek_arm c client_fd p g =
    if not p.from_loopback
    then refused_403 g p
    else if g.flush_disconnect && is_some client_fd
    then record {
      shim = record g { flush_disconnect = false; decide = no_decide };
      pending = close_pending p;
      reply = empty_ok;
      took = true;
    }
    else if is_some client_fd && keep_claims c g
    then record {
      shim = record g { flush_keep_pending = false };
      pending = close_pending p;
      reply = empty_ok;
      took = true;
    }
    else record {
      shim = record g {
        seek_flush_armed =
            if ltb g.seek_flush_armed seek_flush_armed_max
            then g.seek_flush_armed + 1
            else g.seek_flush_armed;
        seek_arm_at = c.wall;
      };
      pending = close_pending p;
      reply = empty_ok;
      took = false;
    }

-- `_serve_hold_release`.
unfoldable pub serve_hold_release : Clock → Pending → Shim → Served
serve_hold_release c p g =
    let rel = hold_release c Reason.release g.ring in
    if not p.from_loopback
    then refused_403 g p
    else if is_some g.ring.hold_at
    then record {
      shim = record g { ring = rel.1 };
      pending = close_pending p;
      reply = hold_released rel.0;
      took = false;
    }
    else record {
      shim = record g {
        ring = record (g.ring) {
          suppress_valid = true;
          hold_suppress_until_ms = hold_now_ms c + g.ring.hold_max_ms;
        };
      };
      pending = close_pending p;
      reply = hold_suppressed g.ring.hold_max_ms;
      took = false;
    }

-- `_serve_browse_keep`: the request line says `on=1` or `on=0`, and the first of them counts.
unfoldable pub serve_browse_keep : Pending → Shim → Served
serve_browse_keep p g =
    if not p.from_loopback
    then refused_403 g p
    else if head_line_has p (codes "on=1")
    then record {
      shim = record g { browse_keep = true };
      pending = close_pending p;
      reply = browse_keep_ok true;
      took = false;
    }
    else if head_line_has p (codes "on=0")
    then record {
      shim = record g { browse_keep = false };
      pending = close_pending p;
      reply = browse_keep_ok false;
      took = false;
    }
    else record { shim = g; pending = close_pending p; reply = bad_request; took = false }

-- `_serve_seek_keep`.
unfoldable pub serve_seek_keep : Clock → Option ℕ → Pending → Shim → Served
serve_seek_keep c client_fd p g =
    if not p.from_loopback
    then refused_403 g p
    else if g.flush_disconnect && (is_some client_fd && decide_open c g)
    then record {
      shim = record g { flush_disconnect = false; decide = no_decide };
      pending = close_pending p;
      reply = seek_keep_ok true;
      took = false;
    }
    else record { shim = g; pending = close_pending p; reply = seek_keep_ok false; took = false }
