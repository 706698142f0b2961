-- ===== src/Ring/Valid.antt =====
-- The representation invariant of `ring_buffer_t`, and that each operation keeps it.
use spoton.Prelude.{
  ℕ, ◌+◌, ◌-◌, ◌%◌, ◌≤◌, ◌<◌, ◌≡◌, ap, ◌∙◌, min, Bool, true, false, Option, none, some, List, [],
  ◌∷◌, arith, length, take, length-take, length-drop, Memory, Bool-cases, Option-cases, inl, inr,
  ◌==◌,
}
use native.Mathlib.Nat.{mod-lt, mod-mod, mod-add-mod, add-zero}
use spoton.Time.{Clock}
use spoton.Env.{Environ}
use spoton.Ring.{Ring, Reason, ring_init, hold_release, ring_set_client, hold_timeout_check}
use spoton.Ring.Pop.{hold_cap, pop_take, pop_locked, pop_advance, flush_ring}
use spoton.Ring.Push.{
  RingWrite, refill, push_copy, push_chunk, Turn, push_turn, Other, pop, flush, set_client,
  hold_timeout, release_hold, suppress, forget_expired, release_writers, mark_underrun, run_other,
  run_others, push_exit,
}

-- A hold stands between the two cursors, and only while a client is attached.
abbrev pub HoldIn : Option ℕ → Ring → Type 0
HoldIn none r = Unit {0}
HoldIn (some h) r = (r.total_popped ≤ h) × (h ≤ r.total_pushed) × (r.client_connected ≡ true)

-- A marked position does not lie ahead of the write cursor.
abbrev pub Below : Option ℕ → ℕ → Type 0
Below none n = Unit {0}
Below (some p) n = p ≤ n

-- The empty clock runs only on an empty ring.
abbrev EmptyIn : Bool → ℕ → Type 0
EmptyIn false n = Unit {0}
EmptyIn true n = n ≡ 0

pub record IsValid (r : Ring) : Type 0 where
  pub tail_in : r.tail < r.capacity
  pub fill_le : r.fill ≤ r.capacity
  pub head_eq : r.head ≡ (r.tail + r.fill) % r.capacity
  pub cursors : r.total_popped + r.fill ≡ r.total_pushed
  pub hold_in : HoldIn r.hold_at r
  pub last_empty_in : Below r.last_empty_pushed r.total_pushed
  pub expired_in : Below r.hold_expired_at r.total_pushed
  pub empty_in : EmptyIn r.empty_valid r.fill

pub ring_init-IsValid : (block : Memory) → IsValid (ring_init block)
unfolding ring_init
ring_init-IsValid block = ground arith

pub hold_release-IsValid :
    (c : Clock) (why : Reason) {r : Ring} → IsValid r → IsValid (hold_release c why r).1
unfolding hold_release
hold_release-IsValid c why v = ground arith

pub set_client-IsValid :
    (c : Clock) (b : Bool) (why : Reason) (g : ℕ) {r : Ring}
    → IsValid r
    → IsValid (ring_set_client c b why g r)
unfolding ring_set_client
set_client-IsValid c b why g v = ground arith

pub hold_timeout-IsValid : (c : Clock) {r : Ring} → IsValid r → IsValid (hold_timeout_check c r)
unfolding hold_timeout_check
hold_timeout-IsValid c v = ground arith

pub flush_ring-IsValid : (c : Clock) {r : Ring} → IsValid r → IsValid (flush_ring c r)
unfolding flush_ring
flush_ring-IsValid c {r} v = ground (
  arith,
  mod-lt (r.tail + r.fill) {m = r.capacity} (omega arith),
  mod-mod (r.tail + r.fill) r.capacity,
  add-zero r.head,
)

advance_head : (t f k cap : ℕ) → k ≤ f → ((t + k) % cap + (f - k)) % cap ≡ (t + f) % cap
advance_head t f k cap h = mod-add-mod (t + k) cap (f - k) ∙ ap (λ n. n % cap) (omega arith)

-- At a chunk that the ring holds and that the hold leaves room for.
pop_advance-IsValid :
    (c : Clock) (k : ℕ) {r : Ring}
    → IsValid r
    → k ≤ r.fill
    → Below (some (r.total_popped + k)) r.total_pushed
    → HoldIn r.hold_at (record r { total_popped = r.total_popped + k })
    → IsValid (pop_advance c r k)
unfolding pop_advance
pop_advance-IsValid c k {r} v h b held = ground (
  arith,
  mod-lt (r.tail + k) {m = r.capacity} (omega arith),
  advance_head r.tail r.fill k r.capacity h,
)

-- What the hold leaves room for.
abbrev Room : Option ℕ → ℕ → ℕ → Type 0
Room none popped m = Unit {0}
Room (some h) popped m = popped + m ≤ h

pop_take-IsValid :
    (c : Clock) (m : ℕ) {r : Ring}
    → IsValid r
    → Room r.hold_at r.total_popped m
    → IsValid (pop_take c m r).1
unfolding pop_take
pop_take-IsValid c m {r} v room = elim (Bool-cases (r.fill == 0)) [
  | inl e ↦ rw e v
  | inr e ↦
      rw e (pop_advance-IsValid c (min m r.fill) v (omega arith) (ground arith) (ground arith))
]

hold_cap-Room :
    (r : Ring) (m k : ℕ) (o : Option ℕ) → hold_cap r m o ≡ some k → Room o r.total_popped k
unfolding hold_cap
hold_cap-Room r m k none e = tt
hold_cap-Room r m k (some h) e = ground arith

pub pop_locked-IsValid :
    (c : Clock) (fd : Bool) (m : ℕ) {r : Ring} → IsValid r → IsValid (pop_locked c fd m r).1
unfolding pop_locked
pop_locked-IsValid c true m {r} v = v
pop_locked-IsValid c false m {r} v = elim (Option-cases (hold_cap r m r.hold_at)) [
  | inl e ↦ rw e v
  | inr (k, e) ↦ rw e (pop_take-IsValid c k v (hold_cap-Room r m k r.hold_at e))
]

pub refill-IsValid : (e : Environ) (c : Clock) {r : Ring} → IsValid r → IsValid (refill e c r)
unfolding refill
refill-IsValid e c {r} v = ground arith

push_head : (t f k cap : ℕ) → ((t + f) % cap + k) % cap ≡ (t + (f + k)) % cap
push_head t f k cap = mod-add-mod (t + f) cap k ∙ ap (λ n. n % cap) (omega arith)

push_copy-IsValid :
    (xs : List ℕ) {r : Ring}
    → IsValid r
    → length xs + r.fill ≤ r.capacity
    → IsValid (push_copy xs r)
unfolding push_copy
push_copy-IsValid xs {r} v h = ground (arith, push_head r.tail r.fill (length xs) r.capacity)

refill-room :
    (e : Environ) (c : Clock) (xs : List ℕ) (r : Ring)
    → length xs + r.fill ≤ r.capacity
    → length xs + (refill e c r).fill ≤ (refill e c r).capacity
unfolding refill
refill-room e c xs r h = ground arith

pub push_chunk-IsValid :
    (e : Environ) (c : Clock) (xs : List ℕ) {r : Ring}
    → IsValid r
    → length xs + r.fill ≤ r.capacity
    → IsValid (push_chunk e c xs r)
unfolding push_chunk
push_chunk-IsValid e c xs {r} v h = elim (Bool-cases (r.fill == 0)) [
  | inl z ↦ rw z (push_copy-IsValid xs (refill-IsValid e c v) (refill-room e c xs r h))
  | inr z ↦ rw z (push_copy-IsValid xs v h)
]

-- The ring that a turn of `_ring_push` leaves is valid, and a turn that goes on has copied at least
-- one byte.
abbrev pub TurnIsValid : List ℕ → Turn → Type 0
TurnIsValid xs (Turn.stop r w) = IsValid r
TurnIsValid xs (Turn.again r rest w) = IsValid r × (length rest < length xs)
TurnIsValid xs (Turn.wait w) = Unit {0}

pub push_turn-IsValid :
    (e : Environ) (c : Clock) {r : Ring} (xs : List ℕ) (w : Option RingWrite)
    → IsValid r
    → 0 < length xs
    → TurnIsValid xs (push_turn e c r xs w)
unfolding push_turn
push_turn-IsValid e c {r} xs w v h = ground (
  arith,
  push_chunk-IsValid e c (take (min (length xs) (r.capacity - r.fill)) xs) v,
  length-take (min (length xs) (r.capacity - r.fill)) xs,
  length-drop (min (length xs) (r.capacity - r.fill)) xs,
)

-- Whatever another thread does to a valid ring leaves it valid.
pub run_other-IsValid : (o : Other) {r : Ring} → IsValid r → IsValid (run_other o r)
unfolding run_other
run_other-IsValid (pop c fd m) v = pop_locked-IsValid c fd m v
run_other-IsValid (flush c) v = flush_ring-IsValid c v
run_other-IsValid (set_client c b why g) v = set_client-IsValid c b why g v
run_other-IsValid (hold_timeout c) v = hold_timeout-IsValid c v
run_other-IsValid (release_hold c why) v = hold_release-IsValid c why v
run_other-IsValid (suppress c) v = ground arith
run_other-IsValid forget_expired v = ground arith
run_other-IsValid release_writers v = ground arith
run_other-IsValid mark_underrun v = ground arith

pub run_others-IsValid : (os : List Other) {r : Ring} → IsValid r → IsValid (run_others os r)
unfolding run_others
run_others-IsValid [] v = v
run_others-IsValid (o ∷ os) v = run_others-IsValid os (run_other-IsValid o v)

pub push_exit-IsValid : {r : Ring} → IsValid r → IsValid (push_exit r)
unfolding push_exit
push_exit-IsValid v = ground arith
