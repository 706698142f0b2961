-- ===== src/Ring/Pop.antt =====
-- Plugins/SpotOn/Bin/fake-libpulse/fake-libpulse.c: the reader's side of the ring,
-- `_ring_pop_timed` and `_ring_flush`.
use spoton.Prelude.{
  ℕ, ◌+◌, ◌-◌, ◌%◌, min, Bool, true, false, not, ◌&&◌, Option, none, some, List, [], ◌++◌, leb,
  ◌==◌, if◌then◌else◌, slice,
}
use spoton.Time.{Clock, hold_now_ms}
use spoton.Ring.{Ring, flush, hold_release, next_epoch}

-- `maxlen` under the gap hold, no byte at or past the old title's end; `none` where no room is left.
unfoldable pub hold_cap : Ring → ℕ → Option ℕ → Option ℕ
hold_cap r maxlen none = some maxlen
hold_cap r maxlen (some h) =
    if leb h r.total_popped then none else some (min maxlen (h - r.total_popped))

-- The bytes copied to `out`: up to the end of the buffer, and the rest from its start.
unfoldable pub pop_bytes : Ring → ℕ → List ℕ
pop_bytes r chunk =
    let first = min chunk (r.capacity - r.tail) in
    slice r.buf r.tail first ++ slice r.buf 0 (chunk - first)

-- The ring once `chunk` bytes have been copied. A pop that empties it starts the empty clock.
unfoldable pub pop_advance : Clock → Ring → ℕ → Ring
pop_advance c r chunk =
    let emptied = (r.fill - chunk == 0) && r.client_connected in
    record r {
      tail = (r.tail + chunk) % r.capacity;
      fill = r.fill - chunk;
      total_popped = r.total_popped + chunk;
      empty_valid = if emptied then true else r.empty_valid;
      empty_since_ms = if emptied then hold_now_ms c else r.empty_since_ms;
    }

-- `if (r->fill > 0) …`: the copy of up to `maxlen` bytes.
unfoldable pub pop_take : Clock → ℕ → Ring → List ℕ × Ring
pop_take c maxlen r =
    let chunk = min maxlen r.fill in
    if r.fill == 0 then ([], r) else (pop_bytes r chunk, pop_advance c r chunk)

-- The part of `_ring_pop_timed` behind its wait: nothing under a pending flush-disconnect, and
-- nothing past the hold.
unfoldable pub pop_locked : Clock → Bool → ℕ → Ring → List ℕ × Ring
unfolding hold_cap
pop_locked c flush_disconnect maxlen r =
    if flush_disconnect
    then ([], r)
    else elim (hold_cap r maxlen r.hold_at) [ none ↦ ([], r) | some m ↦ pop_take c m r ]

-- Whether a pop waits for data before it looks: the ring is empty and no browse-keep flush waits
-- for the backlog pass.
unfoldable pub pop_waits : Bool → Ring → Bool
pop_waits keep_pending r = (r.fill == 0) && not keep_pending

-- `_ring_flush`, less the reset of the virtual sink (`Shim.ring_flush`).
unfoldable pub flush_ring : Clock → Ring → Ring
unfolding hold_release
flush_ring c r =
    let r' = record r {
      tail = r.head;
      total_popped = r.total_popped + r.fill;
      fill = 0;
      last_empty_pushed = none;
      flush_epoch = next_epoch r.flush_epoch;
      underrun_fired = false;
    } in
    record ((hold_release c flush r').1) { hold_expired_at = none }
