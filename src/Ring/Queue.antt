-- ===== src/Ring/Queue.antt =====
-- What a pop, a flush and a push do to the bytes that the ring holds.
use spoton.Prelude.{
  ℕ, zero, suc, ◌+◌, ◌-◌, ◌%◌, ◌≤◌, ◌<◌, ◌≡◌, refl, ap, sym, ◌∙◌, inl, inr, min, Bool, true, false,
  Option, none, some, List, [], ◌++◌, arith, length, take, drop, tabulate, length-take,
  length-tabulate, take-min, drop-min, Bool-cases, ◌==◌, leb, leb→le, ◌^◌, ◌≢◌,
}
use spoton.Time.{Clock}
use spoton.Env.{Environ}
use spoton.Ring.{Ring}
use spoton.Ring.Pop.{hold_cap, pop_take, pop_locked, pop_bytes, pop_advance, flush_ring}
use spoton.Ring.Push.{refill, push_chunk}
use spoton.Ring.Valid.{IsValid, refill-IsValid}
use spoton.Ring.Fifo.{contents, push_copy-contents, pop_bytes-contents, pop_advance-contents}

-- How many bytes a pop of `maxlen` may take: none under a pending flush-disconnect, and none at or
-- past a standing hold.
abbrev pub pop_limit : Bool → ℕ → ℕ → Option ℕ → ℕ
pop_limit true maxlen popped held = 0
pop_limit false maxlen popped none = maxlen
pop_limit false maxlen popped (some h) = min maxlen (h - popped)

-- A pop hands out the oldest bytes of the queue, as many as the limit allows, and leaves the rest.
pub record Popped (limit : ℕ) (r : Ring) (out : List ℕ × Ring) : Type 0 where
  pub bytes : out.0 ≡ take limit (contents r)
  pub rest : contents out.1 ≡ drop limit (contents r)
  pub moved : out.1.total_popped ≡ r.total_popped + length out.0
  pub kept : out.1.total_pushed ≡ r.total_pushed

pub length-contents : (r : Ring) → length (contents r) ≡ r.fill
length-contents r = length-tabulate r.fill (λ i. r.buf ((r.tail + i) % r.capacity))

take_zero : (xs : List ℕ) → take 0 xs ≡ []
take_zero xs = refl

nothing :
    (m : ℕ) (r : Ring)
    → take m (contents r) ≡ []
    → drop m (contents r) ≡ contents r
    → Popped m r ([], r)
nothing m r a b = record { bytes = sym a; rest = sym b; moved = omega arith; kept = refl }

take-empty : (m : ℕ) (xs : List ℕ) → xs ≡ [] → (take m xs ≡ []) × (drop m xs ≡ xs)
take-empty zero xs e = (refl, refl)
take-empty (suc m) xs e = (ap (take (suc m)) e, ap (drop (suc m)) e ∙ sym e)

pop_advance_cursors :
    (c : Clock) (r : Ring) (k : ℕ)
    → ((pop_advance c r k).total_popped ≡ r.total_popped + k)
      × ((pop_advance c r k).total_pushed ≡ r.total_pushed)
unfolding pop_advance
pop_advance_cursors c r k = (refl, refl)

pop_take-Popped : (c : Clock) (m : ℕ) {r : Ring} → IsValid r → Popped m r (pop_take c m r)
unfolding pop_take
pop_take-Popped c m {r} v = elim (Bool-cases (r.fill == 0)) [
  | inl e ↦
      let n : r.fill ≡ 0 = ground arith in
      let z : contents r ≡ [] = ap (λ n. tabulate n (λ i. r.buf ((r.tail + i) % r.capacity))) n in
      rw e (nothing m r (take-empty m (contents r) z).0 (take-empty m (contents r) z).1)
  | inr e ↦ rw e (some_taken (pop_bytes-contents v (min m r.fill) (omega arith)))
]
  where
    some_taken :
        pop_bytes r (min m r.fill) ≡ take (min m r.fill) (contents r)
        → Popped m r (pop_bytes r (min m r.fill), pop_advance c r (min m r.fill))
    some_taken q = record {
      bytes =
          q
          ∙ ap (λ n. take (min m n) (contents r)) (sym (length-contents r))
          ∙ take-min m (contents r);
      rest =
          pop_advance-contents v (min m r.fill) (omega arith) c
          ∙ ap (λ n. drop (min m n) (contents r)) (sym (length-contents r))
          ∙ drop-min m (contents r);
      moved = omega (
        arith,
        ap length q,
        length-take (min m r.fill) (contents r),
        length-contents r,
        (pop_advance_cursors c r (min m r.fill)).0,
      );
      kept = (pop_advance_cursors c r (min m r.fill)).1;
    }

-- On a valid ring, on every branch of `_ring_pop_timed` behind its wait: the bytes handed out are
-- the oldest ones, at most as many as were asked for, none with a flush-disconnect pending and none
-- at or past a standing hold; the ring keeps exactly the others, and the read cursor moves by what
-- was handed out.
pub pop_locked-Popped :
    (c : Clock) (fd : Bool) (m : ℕ) {r : Ring}
    → IsValid r
    → Popped (pop_limit fd m r.total_popped r.hold_at) r (pop_locked c fd m r)
unfolding pop_locked
pop_locked-Popped c true m {r} v = nothing 0 r refl refl
pop_locked-Popped c false m {r} v = under r.hold_at
  where
    under :
        (o : Option ℕ)
        → Popped
            (pop_limit false m r.total_popped o)
            r
            (elim (hold_cap r m o) [ none ↦ ([], r) | some k ↦ pop_take c k r ])
    under none = pop_take-Popped c m v
    under (some h) = elim (Bool-cases (leb h r.total_popped)) [
      | inl e ↦
          let z : min m (h - r.total_popped) ≡ 0 = omega (arith, leb→le h r.total_popped e) in
          rw (e, z) (nothing 0 r refl refl)
      | inr e ↦ rw e (pop_take-Popped c (min m (h - r.total_popped)) v)
    ]

-- The ring `r` and what a flush of it left.
pub record Flushed (r r' : Ring) : Type 0 where
  pub emptied : contents r' ≡ []
  pub read : r'.total_popped ≡ r.total_pushed
  pub kept : r'.total_pushed ≡ r.total_pushed
  pub no_hold : (r'.hold_at ≡ none) × (r'.hold_expired_at ≡ none)
  pub no_drain : (r'.last_empty_pushed ≡ none) × (r'.empty_valid ≡ false)
  pub epoch : r'.flush_epoch ≢ r.flush_epoch

-- A flush of a valid ring, at an epoch of 64 bits: the queue is empty and its bytes count as read,
-- nothing more counts as pushed, no hold, timed-out hold, drained position or empty clock is left, and
-- the epoch is another one.
pub flush_ring-Flushed :
    (c : Clock) {r : Ring} → IsValid r → r.flush_epoch < 2 ^ 64 → Flushed r (flush_ring c r)
unfolding flush_ring
flush_ring-Flushed c {r} v h = record {
  emptied = refl;
  read = v.cursors;
  kept = refl;
  no_hold = (refl, refl);
  no_drain = (refl, refl);
  epoch = omega arith;
}

pub contents-nil : (r : Ring) → r.fill ≡ 0 → contents r ≡ []
contents-nil r e = ap (λ n. tabulate n (λ i. r.buf ((r.tail + i) % r.capacity))) e

refill-kept :
    (e : Environ) (c : Clock) (r : Ring)
    → ((refill e c r).fill ≡ r.fill) × ((refill e c r).capacity ≡ r.capacity)
unfolding refill
refill-kept e c r = ground arith

-- A chunk that fits into a valid ring is appended to its bytes, whether or not it refills an empty
-- ring.
pub push_chunk-contents :
    (e : Environ) (c : Clock) (xs : List ℕ) {r : Ring}
    → IsValid r
    → length xs + r.fill ≤ r.capacity
    → contents (push_chunk e c xs r) ≡ contents r ++ xs
unfolding push_chunk
push_chunk-contents e c xs {r} v h = elim (Bool-cases (r.fill == 0)) [
  | inl z ↦
      let n : r.fill ≡ 0 = ground arith in
      let k = refill-kept e c r in
      rw z (
        push_copy-contents (refill-IsValid e c v) xs (omega (arith, k.0, k.1))
        ∙ ap (λ q. q ++ xs) (contents-nil (refill e c r) (k.0 ∙ n) ∙ sym (contents-nil r n)))
  | inr z ↦ rw z (push_copy-contents v xs h)
]
