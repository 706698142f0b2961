-- ===== src/Http/Bounded.antt =====
-- Bounded serving: no byte at or past a marker that applies reaches the client it bounds.
pub mod Taken
pub mod Whole
pub mod Served
use spoton.Prelude.{
  ℕ, zero, suc, ◌+◌, ◌-◌, ◌≤◌, ◌≡◌, refl, ap, sym, ◌∙◌, true, false, Option, none, some, List, [],
  ◌∷◌, arith, ltb, ◌==◌, if◌then◌else◌, ◌||◌, length, take, length-take, Bool-cases, inl, inr,
  eq_option, le→leb,
}
use spoton.Time.{Clock, Timeval, elapsed_ms}
use spoton.Ring.{Ring, ring_set_client}
use spoton.Ring.Pop.{pop_waits, pop_locked}
use spoton.Ring.Valid.{IsValid}
use spoton.Ring.Fifo.{contents}
use spoton.Ring.Queue.{pop_locked-Popped}
use spoton.Shim.{Shim}
use spoton.Daemon.{run_daemons}
use spoton.Http.{Slot}
use spoton.Http.Loop.{Http}
use spoton.Http.Drain.{
  Wrote, WriteTick, WriteCode, WriteEnd, write_slot, unfinished, http_write_client, sent_now, trim,
  applies, bound_left, pop_max, ring_pop_timed, DrainTick, Drained, is_nil, is_hard, write_test,
  drain_write, drain_turn, bounded_close,
}

code_le :
    (code : WriteCode) (x y : WriteEnd) (n : ℕ)
    → x.sent ≤ n
    → y.sent ≤ n
    → (elim code as (λ c. WriteEnd) [ unfinished ↦ x | other ↦ record y { code = other } ]).sent ≤ n
code_le code x y n h k = ground arith

sent_now_le : (w : Wrote) (left : ℕ) → sent_now w left ≤ left
unfolding sent_now
sent_now_le w left = ground arith

-- A client write hands over at most what it is given, whatever the sockets and the daemon do.
http_write_client-sent :
    (ks : List WriteTick) (o : ℕ) (fd : Option ℕ) (left sent : ℕ) (t : Timeval) (s : Slot)
    → (http_write_client ks o fd left sent t s).sent ≤ left + sent
unfolding http_write_client
http_write_client-sent [] o fd left sent t s = omega arith
http_write_client-sent (k ∷ ks) o fd left sent t s =
    let n = sent_now k.wrote left in
    let h = sent_now_le k.wrote left in
    let s1 = write_slot k fd (record s { shim = run_daemons k.daemon s.shim }) in
    let progress = if ltb 0 n then k.at.wall else t in
    let later = http_write_client-sent ks o fd (left - n) (sent + n) progress s1 in
    elim (Bool-cases (left == 0)) [
      | inl e ↦ rw e (omega arith)
      | inr e ↦ rw e (elim (Bool-cases (k.hangup || is_hard k.wrote)) [
        | inl f ↦ rw f (omega arith)
        | inr f ↦ rw f (elim (Bool-cases (left - n == 0)) [
          | inl z ↦ rw z (omega arith)
          | inr z ↦ rw z (
              code_le (write_test k.at o (elapsed_ms k.at.wall progress) s1)
                (http_write_client ks o fd (left - n) (sent + n) progress s1)
                (record { code = unfinished; sent = sent + n; slot = s1 }) (left + sent)
                (omega arith) (omega arith))
        ])
      ])
    ]

-- The bytes of one write are not past the marker.
trim-bounded :
    (b now popped n : ℕ) (gen : Option ℕ)
    → applies gen now ≡ true
    → popped ≤ b
    → popped + (trim (some b) gen now (popped + n) n).write_n ≤ b
unfolding trim
trim-bounded b now popped n gen a h = ground arith

-- A piece of a prefix is a prefix.
take-take : (m n : ℕ) (xs : List ℕ) → take m (take n xs) ≡ take (length (take m (take n xs))) xs
take-take zero n xs = refl
take-take (suc m) zero xs = refl
take-take (suc m) (suc n) [] = refl
take-take (suc m) (suc n) (x ∷ xs) = ap (λ ys. x ∷ ys) (take-take m n xs)

-- What the pop of a turn hands out, and the ring behind it.
abbrev pub waited : DrainTick → Shim → Shim
waited k g = if pop_waits g.flush_keep_pending g.ring then run_daemons k.waiting g else g

-- What the client receives of one turn: the oldest bytes of the queue, in order, none past `b`.
pub record Received (b : ℕ) (r : Ring) (xs : List ℕ) : Type 0 where
  pub oldest : xs ≡ take (length xs) (contents r)
  pub within : r.total_popped + length xs ≤ b

nothing : (b : ℕ) (r : Ring) → r.total_popped ≤ b → Received b r []
nothing b r h = record { oldest = refl; within = omega arith }

sent-Received :
    (b m n sent : ℕ) (xs : List ℕ) (r : Ring)
    → xs ≡ take m (contents r)
    → sent ≤ n
    → r.total_popped + n ≤ b
    → Received b r (take sent xs)
sent-Received b m n sent xs r e h k = record {
  oldest =
      ap (take sent) e
      ∙ take-take sent m (contents r)
      ∙ ap (λ ys. take (length (take sent ys)) (contents r)) (sym e);
  within = omega (arith, length-take sent xs);
}

trim-within :
    (b now popped after n : ℕ) (o gen : Option ℕ)
    → o ≡ some b
    → after ≡ popped + n
    → applies gen now ≡ true
    → popped ≤ b
    → popped + (trim o gen now after n).write_n ≤ b
trim-within b now popped after n o gen e f a h = rw (e, f) (trim-bounded b now popped n gen a h)

drain_write-Received :
    (k : DrainTick) (o b m : ℕ) (xs : List ℕ) (r : Ring) (h : Http)
    → xs ≡ take m (contents r)
    → h.shim.ring.total_popped ≡ r.total_popped + length xs
    → h.shim.boundary_at_pushed ≡ some b
    → applies h.shim.boundary_client_generation h.shim.client_generation ≡ true
    → r.total_popped ≤ b
    → Received b r (drain_write k o xs h).received
unfolding drain_write
drain_write-Received k o b m xs r h e p at a le =
    let g = h.shim in
    let n =
      (trim g.boundary_at_pushed g.boundary_client_generation g.client_generation
        g.ring.total_popped (length xs)).write_n in
    sent-Received b m n _ xs r e
      (omega (arith, http_write_client-sent k.writing o h.client_fd n 0 k.at.wall _))
      (trim-within b g.client_generation r.total_popped g.ring.total_popped (length xs)
        g.boundary_at_pushed g.boundary_client_generation at p a le)

-- One turn of the drain, whatever the daemon did while the pop waited and while the write went on: if
-- the ring that the pop finds is valid and a marker that applies stands at `b`, not behind the read
-- cursor, the client receives the oldest bytes of the queue, in order, and none at or past `b`.
pub drain_turn-Received :
    (k : DrainTick) (o b : ℕ) (h : Http)
    → IsValid (waited k h.shim).ring
    → (waited k h.shim).boundary_at_pushed ≡ some b
    → applies (waited k h.shim).boundary_client_generation (waited k h.shim).client_generation
      ≡ true
    → (waited k h.shim).ring.total_popped ≤ b
    → Received b (waited k h.shim).ring (drain_turn k o h).received
unfolding drain_turn ring_pop_timed
drain_turn-Received k o b h v at a le =
    let g = waited k h.shim in
    let left =
      bound_left h.shim.boundary_at_pushed h.shim.boundary_client_generation
        h.shim.client_generation h.shim.ring.total_popped in
    let q = pop_locked-Popped k.at g.flush_disconnect (pop_max left) v in
    let out = pop_locked k.at g.flush_disconnect (pop_max left) g.ring in
    elim (Bool-cases (eq_option left (some 0))) [
      | inl e ↦ rw e (nothing b g.ring le)
      | inr e ↦ rw e (elim (Bool-cases (is_nil out.0)) [
        | inl f ↦ rw f (nothing b g.ring le)
        | inr f ↦ rw f (
            drain_write-Received k o b _ out.0 g.ring
              (record h { shim = record g { ring = out.1 } }) q.bytes q.moved at a le)
      ])
    ]

pub at_bound :
    (b now popped : ℕ) (o gen : Option ℕ)
    → o ≡ some b
    → applies gen now ≡ true
    → b ≤ popped
    → eq_option (bound_left o gen now popped) (some 0) ≡ true
unfolding bound_left
at_bound b now popped none gen e a h = absurd (ground arith)
at_bound b now popped (some x) gen e a h = ground arith

stale_trim :
    (b now popped n : ℕ) (o gen : Option ℕ)
    → o ≡ some b
    → applies gen now ≡ false
    → b ≤ popped
    → trim o gen now popped n ≡ trim none gen now popped n
unfolding trim
stale_trim b now popped n none gen e a h = refl
stale_trim b now popped n (some x) gen e a h = simp (a, le→leb x popped (ground arith))

-- A marker of another client generation that the read cursor has passed is as if none were there: the
-- bytes, the client and the state behind the turn are those without it.
pub drain_write-stale :
    (k : DrainTick) (o b : ℕ) (xs : List ℕ) (h : Http)
    → h.shim.boundary_at_pushed ≡ some b
    → applies h.shim.boundary_client_generation h.shim.client_generation ≡ false
    → b ≤ h.shim.ring.total_popped
    → drain_write k o xs h
      ≡ drain_write k o xs (record h { shim = record (h.shim) { boundary_at_pushed = none } })
unfolding drain_write
drain_write-stale k o b xs h at a le = simp (
    stale_trim b h.shim.client_generation h.shim.ring.total_popped (length xs)
      h.shim.boundary_at_pushed h.shim.boundary_client_generation at a le)
