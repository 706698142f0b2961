-- ===== src/Ring/Fits.antt =====
-- A push of bytes that fit: it is stored at once.
use spoton.Prelude.{
  ℕ, suc, ◌+◌, ◌-◌, ◌≤◌, ◌<◌, ◌≡◌, refl, ap, sym, min, false, Option, List, [], ◌∷◌, ◌++◌, arith,
  length, take, drop, ◌==◌,
}
use mathlib.Core.List.{append-nil}
use spoton.Time.{Clock}
use spoton.Env.{Environ}
use spoton.Ring.{Ring}
use spoton.Ring.Push.{
  RingWrite, again, is_stale, refill, push_copy, push_chunk, push_turn, push_exit, Wake, Pushed,
  done, blocked, no_fuel, ring_push,
}
use spoton.Ring.Valid.{IsValid}
use spoton.Ring.Fifo.{contents}
use spoton.Ring.Queue.{push_chunk-contents}

take-all : (xs : List ℕ) → (take (length xs) xs ≡ xs) × (drop (length xs) xs ≡ [])
take-all [] = (refl, refl)
take-all (x ∷ xs) = (ap (λ r. x ∷ r) (take-all xs).0, (take-all xs).1)

push_turn-fits :
    (e : Environ) (c : Clock) (r : Ring) (xs : List ℕ) (w : Option RingWrite)
    → 0 < length xs
    → length xs + r.fill ≤ r.capacity
    → is_stale r w ≡ false
    → push_turn e c r xs w ≡ again (push_chunk e c xs r) [] w
unfolding push_turn
push_turn-fits e c r xs w p h q =
    let full : (r.fill == r.capacity) ≡ false = ground arith in
    let n : min (length xs) (r.capacity - r.fill) ≡ length xs = omega arith in
    rw (q, full, n, (take-all xs).0, (take-all xs).1)

-- The queue that a call left, its size, epoch and client, and what it reports.
abbrev pub Stored : Ring → List ℕ → Option RingWrite → Pushed → Type 0
Stored r xs w (done r' w') =
    (contents r' ≡ contents r ++ xs)
    × (w' ≡ w)
    × (r'.capacity ≡ r.capacity)
    × (r'.flush_epoch ≡ r.flush_epoch)
    × (r'.client_connected ≡ r.client_connected)
Stored r xs w (blocked r' rest w') = ⊥
Stored r xs w no_fuel = ⊥

push_chunk_keeps :
    (e : Environ) (c : Clock) (xs : List ℕ) (r : Ring)
    → ((push_chunk e c xs r).capacity ≡ r.capacity)
      × ((push_chunk e c xs r).flush_epoch ≡ r.flush_epoch)
      × ((push_chunk e c xs r).client_connected ≡ r.client_connected)
unfolding push_chunk push_copy refill
push_chunk_keeps e c xs r = ground arith

-- Bytes that fit into a valid ring are stored at once, in order behind those held, if no flush has
-- made the call stale: `_ring_push` does not wait, refuses nothing and abandons nothing.
pub ring_push-fits :
    (f : ℕ) (e : Environ) (c : Clock) (wakes : List Wake) (r : Ring) (xs : List ℕ)
    (w : Option RingWrite)
    → IsValid r
    → length xs + r.fill ≤ r.capacity
    → is_stale r w ≡ false
    → Stored r xs w (ring_push (suc (suc f)) e c wakes r xs w)
unfolding ring_push push_exit
ring_push-fits f e c wakes r [] w v h q = (sym (append-nil (contents r)), refl, refl, refl, refl)
ring_push-fits f e c wakes r (x ∷ xs) w v h q =
    rw (push_turn-fits e c r (x ∷ xs) w (omega arith) h q, Stored, ring_push)
      (let k = push_chunk_keeps e c (x ∷ xs) r in
        (push_chunk-contents e c (x ∷ xs) v h, refl, k.0, k.1, k.2))
