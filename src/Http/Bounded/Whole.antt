-- ===== src/Http/Bounded/Whole.antt =====
-- Bounded serving: one turn whose chunk ends at a marker or short of it, and whose write is taken whole.
use spoton.Prelude.{
  ℕ, ◌-◌, ◌≤◌, ◌<◌, ◌≡◌, refl, ap, min, Bool, true, false, ◌||◌, Option, none, some, List, [], ◌∷◌,
  arith, leb, ◌==◌, if◌then◌else◌, length, take, length-take, eq_option,
}
use mathlib.Core.Path.{subst}
use spoton.Time.{Clock}
use spoton.Ring.{Ring}
use spoton.Ring.Pop.{pop_waits, pop_locked, pop_take, pop_advance}
use spoton.Ring.Valid.{IsValid, pop_locked-IsValid}
use spoton.Ring.Fifo.{contents}
use spoton.Ring.Queue.{pop_locked-Popped, length-contents, Popped, pop_limit}
use spoton.Shim.{Shim}
use spoton.Daemon.{Daemon}
use spoton.Http.Loop.{Http}
use spoton.Http.Drain.{
  applies, bound_left, ring_pop_timed, DrainTick, is_nil, drain_write, drain_turn, bounded_close,
  after_write,
}
use spoton.Http.Bounded.Taken.{WholeTick, whole_write, trim-whole}

-- A client bounded by a marker at `b`, no further than what is stored, with nothing in its way: no
-- hold, no arm, no flush that waits, and an empty slot.
pub record Bounded (b : ℕ) (h : Http) : Type 0 where
  pub valid : IsValid h.shim.ring
  pub marker : h.shim.boundary_at_pushed ≡ some b
  pub current : applies h.shim.boundary_client_generation h.shim.client_generation ≡ true
  pub ahead : h.shim.ring.total_popped ≤ b
  pub stored : b ≤ h.shim.ring.total_pushed
  pub unheld : h.shim.ring.hold_at ≡ none
  pub quiet : h.shim.flush_disconnect ≡ false
  pub unarmed : h.shim.seek_flush_armed ≡ 0
  pub no_slot : h.pending.fd ≡ none

take-length : (xs : List ℕ) → take (length xs) xs ≡ xs
take-length [] = refl
take-length (x ∷ xs) = ap (λ r. x ∷ r) (take-length xs)

or_false : (b : Bool) → (b || false) ≡ b
or_false true = refl
or_false false = refl

limit-unheld : (m popped : ℕ) (o : Option ℕ) → o ≡ none → pop_limit false m popped o ≡ m
limit-unheld m popped o e = rw e refl

is_nil-length : (xs : List ℕ) → 1 ≤ length xs → is_nil xs ≡ false
is_nil-length [] h = absurd (omega arith)
is_nil-length (x ∷ xs) h = refl

pop_keeps :
    (c : Clock) (m : ℕ) (r : Ring) → r.hold_at ≡ none → ((pop_locked c false m r).1.hold_at ≡ none)
unfolding pop_locked pop_take pop_advance
pop_keeps c m r e = ground arith

-- A pop from a ring that holds something does not wait.
popped_now :
    (c : Clock) (ds : List Daemon) (m : ℕ) (g : Shim)
    → 1 ≤ g.ring.fill
    → g.flush_disconnect ≡ false
    → ring_pop_timed c ds m g
      ≡ ((pop_locked c false m g.ring).0, record g { ring = (pop_locked c false m g.ring).1 })
unfolding ring_pop_timed pop_waits
popped_now c ds m g h q =
    let e : (g.ring.fill == 0) ≡ false = ground arith in
    rw e
      (ap (λ b. ((pop_locked c b m g.ring).0, record g { ring = (pop_locked c b m g.ring).1 })) q)

-- The bytes of one pop, with `left` bytes to the marker.
abbrev pub chunk : ℕ → ℕ
chunk left = min 16_384 left

-- The thread behind a turn that did not close the client.
abbrev pub popped_http : ℕ → Ring → Http → Http
popped_http b r h = record h {
  shim = record (h.shim) { ring = r; boundary_at_pushed = some b; awaiting_first_drain = false };
}

module _ {b : ℕ} {h : Http} (v : Bounded b h) where
  write-whole :
      (k : DrainTick) (w : WholeTick k) (o : ℕ) (xs : List ℕ) (r : Ring)
      → 1 ≤ length xs
      → length xs ≤ 16_384
      → r.total_popped ≤ b
      → length xs ≤ r.total_popped
      → drain_write k o xs (record h { shim = record (h.shim) { ring = r } }) ≡ record {
        received = xs;
        http =
            if leb b r.total_popped
            then bounded_close k.after_write (popped_http b r h)
            else popped_http b r h;
        drained = length xs;
        stopped = leb b r.total_popped;
      }
  unfolding drain_write after_write
  write-whole k w o xs r p m le n =
      rw
        (trim-whole b h.shim.client_generation r.total_popped (length xs) h.shim.boundary_at_pushed
          h.shim.boundary_client_generation v.marker v.current le n)
        (rw
          (
            whole_write k w o h.client_fd (length xs) k.at.wall
                (record { shim = (popped_http b r h).shim; pending = h.pending }) p m v.no_slot,
            take-length xs,
          )
          (ap
            (λ ended. record {
              received = xs;
              http =
                  if leb b r.total_popped
                  then bounded_close k.after_write (popped_http b r h)
                  else popped_http b r h;
              drained = length xs;
              stopped = ended;
            })
            (or_false (leb b r.total_popped))))

  -- The bytes to the marker, and what a turn pops of them.
  to_go : ℕ
  to_go = b - h.shim.ring.total_popped

  pub taken : DrainTick → List ℕ × Ring
  taken k = pop_locked k.at false (chunk (b - h.shim.ring.total_popped)) h.shim.ring

  pub taken-Popped :
      (k : DrainTick) → Popped (chunk (b - h.shim.ring.total_popped)) h.shim.ring (taken k)
  unfolding taken
  taken-Popped k =
      subst (λ m. Popped m h.shim.ring (taken k))
        (limit-unheld (chunk (b - h.shim.ring.total_popped)) h.shim.ring.total_popped
          h.shim.ring.hold_at v.unheld)
        (pop_locked-Popped k.at false (chunk (b - h.shim.ring.total_popped)) v.valid)

  pub length-taken : (k : DrainTick) → length (taken k).0 ≡ chunk (b - h.shim.ring.total_popped)
  length-taken k =
      let q = taken-Popped k in
      omega (
        arith,
        ap length q.bytes,
        length-take (chunk (b - h.shim.ring.total_popped)) (contents h.shim.ring),
        length-contents h.shim.ring,
        v.valid.cursors,
        v.stored,
        v.ahead,
      )

  pub next-Bounded : (k : DrainTick) → Bounded b (popped_http b (taken k).1 h)
  unfolding taken
  next-Bounded k =
      let q = taken-Popped k in
      record {
        valid = pop_locked-IsValid k.at false (chunk (b - h.shim.ring.total_popped)) v.valid;
        marker = refl;
        current = v.current;
        ahead = omega (arith, q.moved, length-taken k, v.ahead);
        stored = omega (arith, q.kept, v.stored);
        unheld = pop_keeps k.at (chunk (b - h.shim.ring.total_popped)) h.shim.ring v.unheld;
        quiet = v.quiet;
        unarmed = v.unarmed;
        no_slot = v.no_slot;
      }

  bound :
      bound_left h.shim.boundary_at_pushed h.shim.boundary_client_generation
        h.shim.client_generation h.shim.ring.total_popped
      ≡ some (b - h.shim.ring.total_popped)
  unfolding bound_left
  bound = rw (v.marker, v.current) refl

  pub turn-whole :
      (k : DrainTick) (w : WholeTick k) (o : ℕ)
      → h.shim.ring.total_popped < b
      → drain_turn k o h ≡ record {
        received = (taken k).0;
        http =
            if leb b (taken k).1.total_popped
            then bounded_close k.after_write (popped_http b (taken k).1 h)
            else popped_http b (taken k).1 h;
        drained = length (taken k).0;
        stopped = leb b (taken k).1.total_popped;
      }
  unfolding drain_turn taken
  turn-whole k w o p =
      let m = chunk (b - h.shim.ring.total_popped) in
      let some_left : eq_option (some (b - h.shim.ring.total_popped)) (some 0) ≡ false =
        ground arith in
      let filled : 1 ≤ h.shim.ring.fill = omega (arith, v.valid.cursors, v.stored) in
      let n = length-taken k in
      rw
        (
          bound,
          some_left,
          popped_now k.at k.waiting m h.shim filled v.quiet,
          is_nil-length (taken k).0 (omega (arith, n)),
        )
        (write-whole k w o (taken k).0 (taken k).1 (omega (arith, n)) (omega (arith, n))
          (omega (arith, n, (taken-Popped k).moved)) (omega (arith, (taken-Popped k).moved)))
