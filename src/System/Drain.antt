-- ===== src/System/Drain.antt =====
-- The client write and the drain loop keep the shared state sound.
use spoton.Prelude.{
  ℕ, ◌+◌, ◌-◌, Bool, true, false, Option, none, some, List, [], ◌∷◌, arith, is_some, ltb, leb,
  if◌then◌else◌, ◌==◌, length, ◌&&◌, not, ◌||◌, eq_option,
}
use spoton.Time.{Clock, Timeval, elapsed_ms}
use spoton.Ring.Pop.{pop_waits}
use spoton.Ring.Valid.{Below}
use spoton.Request.{
  Pending, drop_pending, pending_try_read, pending_head_complete, http_request_timeout_ms,
}
use spoton.Request.Search.{Fits, pending_try_read-Fits}
use spoton.Shim.{Shim}
use spoton.Daemon.{Daemon, run_daemons}
use spoton.Http.{Slot, Arrival, pending_serve_control}
use spoton.Http.Loop.{Http}
use spoton.Http.Drain.{
  WriteTick, WriteCode, WriteEnd, http_write_client, write_slot, write_accept, write_test, sent_now,
  is_hard, written, gone, unfinished, flush_pending, takeover_pending, orphan, pop_max, bound_left,
  ring_pop_timed, trim, DrainTick, Drained, drain_write, drain_turn, is_nil,
}
use spoton.System.Sound.{IsSound, with_ring, pop_locked-Keeps, run_daemons-Sound}
use spoton.System.Serve.{SoundSlot, slot_if, pending_serve_control-Sound, pending_accept-Sound}
use spoton.System.Client.{SoundHttp, with_marker, bounded-SoundHttp, after-SoundHttp}

accept-SoundSlot :
    (o : Option Arrival) (fd : Option ℕ) (s : Slot)
    → SoundSlot fd s
    → SoundSlot fd (write_accept o fd s)
unfolding write_accept
accept-SoundSlot none fd s v = v
accept-SoundSlot (some a) fd s v =
    slot_if (is_some s.pending.fd) _ _ v (pending_accept-Sound a fd s.pending s.shim v.shim v.slot)

dropped-Fits : (p : Pending) → Fits (drop_pending p)
dropped-Fits p = record { bounded = omega arith }

slot-SoundSlot :
    (k : WriteTick) (fd : Option ℕ) (s : Slot) → SoundSlot fd s → SoundSlot fd (write_slot k fd s)
unfolding write_slot
slot-SoundSlot k fd s v =
    let a = write_accept k.arrival fd s in
    let av = accept-SoundSlot k.arrival fd s v in
    let b =
      if is_some a.pending.fd
      then pending_serve_control k.at fd (pending_try_read k.slot_read a.pending) a.shim
      else a in
    let served : SoundSlot fd b =
      slot_if (is_some a.pending.fd)
        (pending_serve_control k.at fd (pending_try_read k.slot_read a.pending) a.shim) a
        (pending_serve_control-Sound k.at fd (pending_try_read k.slot_read a.pending) a.shim av.shim
          (pending_try_read-Fits k.slot_read av.slot))
        av in
    drop_if
      (is_some b.pending.fd
        && (not (pending_head_complete b.pending)
            && leb http_request_timeout_ms (elapsed_ms k.at.wall b.pending.started)))
      b served
  where
    drop_if :
        {fd : Option ℕ} (t : Bool) (b : Slot)
        → SoundSlot fd b
        → SoundSlot fd (if t then record b { pending = drop_pending b.pending } else b)
    drop_if true b h = record { shim = h.shim; slot = dropped-Fits b.pending }
    drop_if false b h = h

-- The slot and the shim that a client write leaves.
end_if :
    {fd : Option ℕ} (b : Bool) (x y : WriteEnd)
    → SoundSlot fd x.slot
    → SoundSlot fd y.slot
    → SoundSlot fd (if b then x else y).slot
end_if true x y h k = h
end_if false x y h k = k

code-SoundSlot :
    {fd : Option ℕ} (code : WriteCode) (x y : WriteEnd)
    → SoundSlot fd x.slot
    → SoundSlot fd y.slot
    → SoundSlot fd
        (elim code as (λ c. WriteEnd) [ unfinished ↦ x | other ↦ record y { code = other } ]).slot
code-SoundSlot written x y h k = k
code-SoundSlot gone x y h k = k
code-SoundSlot flush_pending x y h k = k
code-SoundSlot takeover_pending x y h k = k
code-SoundSlot orphan x y h k = k
code-SoundSlot unfinished x y h k = h

write-SoundSlot :
    (ks : List WriteTick) (o : ℕ) (fd : Option ℕ) (left sent : ℕ) (t : Timeval) (s : Slot)
    → SoundSlot fd s
    → SoundSlot fd (http_write_client ks o fd left sent t s).slot
unfolding http_write_client
write-SoundSlot [] o fd left sent t s v = v
write-SoundSlot (k ∷ ks) o fd left sent t s v =
    let n = sent_now k.wrote left in
    let s0 : Slot = record s { shim = run_daemons k.daemon s.shim } in
    let v0 : SoundSlot fd s0 = record {
      shim = run_daemons-Sound k.daemon s.shim v.shim;
      slot = v.slot;
    } in
    let s1 = write_slot k fd s0 in
    let v1 = slot-SoundSlot k fd s0 v0 in
    let progress = if ltb 0 n then k.at.wall else t in
    end_if (left == 0) _ _ v (
      end_if (k.hangup || is_hard k.wrote) _ _ v0 (
        end_if (left - n == 0) _ _ v1 (
          code-SoundSlot (write_test k.at o (elapsed_ms k.at.wall progress) s1) _
            (record { code = unfinished; sent = sent + n; slot = s1 })
            (write-SoundSlot ks o fd (left - n) (sent + n) progress s1 v1) v1)))

trim_marker :
    (o gen : Option ℕ) (now popped n k : ℕ) → Below o k → Below (trim o gen now popped n).marker k
unfolding trim
trim_marker none gen now popped n k h = tt
trim_marker (some b) gen now popped n k h = ground arith

drain_write-SoundHttp :
    (k : DrainTick) (o : ℕ) (xs : List ℕ) (h : Http)
    → SoundHttp h
    → SoundHttp (drain_write k o xs h).http
unfolding drain_write
drain_write-SoundHttp k o xs h v =
    let g = h.shim in
    let t =
      trim g.boundary_at_pushed g.boundary_client_generation g.client_generation g.ring.total_popped
        (length xs) in
    let g1 : Shim = record g { boundary_at_pushed = t.marker; awaiting_first_drain = false } in
    let q =
      write-SoundSlot k.writing o h.client_fd t.write_n 0 k.at.wall
        (record { shim = g1; pending = h.pending })
        (record {
          shim =
              with_marker t.marker
                (trim_marker g.boundary_at_pushed g.boundary_client_generation g.client_generation
                  g.ring.total_popped (length xs) g.ring.total_pushed v.shim.marker)
                v.shim;
          slot = v.slot;
        }) in
    after-SoundHttp k.after_write t.at_boundary _ (record { shim = q.shim; slot = q.slot })

pub popped-Sound :
    (c : Clock) (ds : List Daemon) (m : ℕ) {fd : Option ℕ} (g : Shim)
    → IsSound fd g
    → IsSound fd (ring_pop_timed c ds m g).1
unfolding ring_pop_timed
popped-Sound c ds m {fd} g v =
    let q = shim_if (pop_waits g.flush_keep_pending g.ring) _ _ (run_daemons-Sound ds g v) v in
    with_ring q (pop_locked-Keeps c _ m q.ring_valid)
  where
    shim_if :
        (b : Bool) (x y : Shim) → IsSound fd x → IsSound fd y → IsSound fd (if b then x else y)
    shim_if true x y h k = h
    shim_if false x y h k = k

-- A turn of the drain loop, with all that the daemon and the slot's requests do while it waits.
pub turn-SoundHttp :
    (k : DrainTick) (o : ℕ) (h : Http) → SoundHttp h → SoundHttp (drain_turn k o h).http
unfolding drain_turn
turn-SoundHttp k o h v =
    let g = h.shim in
    let left =
      bound_left g.boundary_at_pushed g.boundary_client_generation g.client_generation
        g.ring.total_popped in
    let out = ring_pop_timed k.at k.waiting (pop_max left) g in
    let h1 : Http = record h { shim = out.1 } in
    let q : SoundHttp h1 = record {
      shim = popped-Sound k.at k.waiting (pop_max left) g v.shim;
      slot = v.slot;
    } in
    drained_if (eq_option left (some 0)) _ _ (bounded-SoundHttp k.at v)
      (drained_if (is_nil out.0) _ _ q (drain_write-SoundHttp k o out.0 h1 q))
  where
    drained_if :
        (b : Bool) (x y : Drained)
        → SoundHttp x.http
        → SoundHttp y.http
        → SoundHttp (if b then x else y).http
    drained_if true x y h k = h
    drained_if false x y h k = k
