-- ===== src/Ring/History.antt =====
-- The ring over a whole history of its critical sections: a queue that keeps every byte in order.
use spoton.Prelude.{
  ℕ, ◌-◌, ◌≡◌, refl, ap, sym, ◌∙◌, min, Option, List, [], ◌∷◌, ◌++◌, arith, length, take,
  length-take, length-drop, take-append-drop, ap₂, Bool-cases, inl, inr, ◌==◌,
}
use mathlib.Core.List.{append-nil, append_assoc}
use spoton.Time.{Clock, hold_now_ms}
use spoton.Env.{Environ}
use spoton.Ring.{Ring, timed_out, hold_release, hold_timeout_check, ring_set_client}
use spoton.Ring.Pop.{pop_locked, flush_ring}
use spoton.Ring.Push.{
  RingWrite, is_stale, is_refusing, Turn, stop, again, wait, push_turn, Other, pop, flush,
  set_client, hold_timeout, release_hold, suppress, forget_expired, release_writers, mark_underrun,
  run_other,
}
use spoton.Ring.Valid.{IsValid, TurnIsValid, push_turn-IsValid, run_other-IsValid}
use spoton.Ring.Fifo.{contents}
use spoton.Ring.Queue.{pop_limit, pop_locked-Popped, push_chunk-contents}

-- A critical section of the ring's lock: a turn of a writer's loop, or one of another thread.
pub data Section : Type 0 where
  writer : Environ → Clock → (x : ℕ) → List ℕ → Option RingWrite → Section
  reader : Other → Section

-- The bytes that a turn copied in.
abbrev pub copied : List ℕ → Turn → List ℕ
copied xs (stop r w) = []
copied xs (again r rest w) = take (length xs - length rest) xs
copied xs (wait w) = []

abbrev pub turned : Ring → Turn → Ring
turned r (stop r' w) = r'
turned r (again r' rest w) = r'
turned r (wait w) = r

-- The bytes that leave the front of the queue: those that a pop hands out, and all of them in a flush.
abbrev pub leaving : Other → Ring → List ℕ
leaving (pop c fd m) r = (pop_locked c fd m r).0
leaving (flush c) r = contents r
leaving (set_client c b why g) r = []
leaving (hold_timeout c) r = []
leaving (release_hold c why) r = []
leaving (suppress c) r = []
leaving forget_expired r = []
leaving release_writers r = []
leaving mark_underrun r = []

-- The ring behind a history, all the bytes that were copied in, and all that left, in order.
pub record History : Type 0 where
  pub ring : Ring
  pub stored : List ℕ
  pub left : List ℕ

pub history : List Section → Ring → History
history [] r = record { ring = r; stored = []; left = [] }
history (writer e c x xs w ∷ rest) r =
    let t = push_turn e c r (x ∷ xs) w in
    let h = history rest (turned r t) in
    record { ring = h.ring; stored = copied (x ∷ xs) t ++ h.stored; left = h.left }
history (reader o ∷ rest) r =
    let h = history rest (run_other o r) in
    record { ring = h.ring; stored = h.stored; left = leaving o r ++ h.left }

pub timeout-contents : (c : Clock) (r : Ring) → contents (hold_timeout_check c r) ≡ contents r
unfolding hold_timeout_check hold_release
timeout-contents c r = elim (Bool-cases (timed_out (hold_now_ms c) r r.hold_at)) [
  | inl e ↦ simp e
  | inr e ↦ simp e
]

-- What leaves and what stays is what was there.
pub other-contents :
    (o : Other) (r : Ring) → IsValid r → contents r ≡ leaving o r ++ contents (run_other o r)
unfolding run_other ring_set_client hold_release flush_ring
other-contents (pop c fd m) r v =
    let p = pop_locked-Popped c fd m v in
    let n = pop_limit fd m r.total_popped r.hold_at in
    sym (take-append-drop n (contents r)) ∙ sym (ap₂ ◌++◌ p.bytes p.rest)
other-contents (flush c) r v = sym (append-nil (contents r))
other-contents (set_client c b why g) r v = refl
other-contents (hold_timeout c) r v = sym (timeout-contents c r)
other-contents (release_hold c why) r v = refl
other-contents (suppress c) r v = refl
other-contents forget_expired r v = refl
other-contents release_writers r v = refl
other-contents mark_underrun r v = refl

pub turn-contents :
    (e : Environ) (c : Clock) (xs : List ℕ) (w : Option RingWrite) (r : Ring)
    → IsValid r
    → contents (turned r (push_turn e c r xs w)) ≡ contents r ++ copied xs (push_turn e c r xs w)
unfolding push_turn
turn-contents e c xs w r v = elim (Bool-cases (is_stale r w)) [
  | inl s ↦ rw s (sym (append-nil (contents r)))
  | inr s ↦ rw s (elim (Bool-cases (r.fill == r.capacity)) [
    | inl f ↦ rw f (elim (Bool-cases (is_refusing w)) [
      | inl q ↦ rw q (sym (append-nil (contents r)))
      | inr q ↦ rw q (sym (append-nil (contents r)))
    ])
    | inr f ↦
        let n = min (length xs) (r.capacity - r.fill) in
        rw f (
          push_chunk-contents e c (take n xs) v (omega (arith, length-take n xs, v.fill_le))
          ∙ ap (λ k. contents r ++ take k xs) (omega (arith, length-drop n xs)))
  ])
]

turned-IsValid :
    (xs : List ℕ) (t : Turn) {r : Ring} → IsValid r → TurnIsValid xs t → IsValid (turned r t)
turned-IsValid xs (stop r' w) v h = h
turned-IsValid xs (again r' rest w) v h = h.0
turned-IsValid xs (wait w) v h = v

-- Over any history of critical sections from a valid ring, with any interleaving of writers, pops,
-- flushes, holds and clients: the bytes held at first and those copied in, in order, are those that
-- left, in order, and those still held.
pub history-queue :
    (ss : List Section) (r : Ring)
    → IsValid r
    → contents r ++ (history ss r).stored ≡ (history ss r).left ++ contents (history ss r).ring
unfolding history
history-queue [] r v = append-nil (contents r)
history-queue (writer e c x xs w ∷ rest) r v =
    let t = push_turn e c r (x ∷ xs) w in
    let h = history rest (turned r t) in
    sym (append_assoc (contents r) (copied (x ∷ xs) t) h.stored)
    ∙ ap (λ q. q ++ h.stored) (sym (turn-contents e c (x ∷ xs) w r v))
    ∙ history-queue rest (turned r t)
        (turned-IsValid (x ∷ xs) t v (push_turn-IsValid e c (x ∷ xs) w v (omega arith)))
history-queue (reader o ∷ rest) r v =
    let h = history rest (run_other o r) in
    ap (λ q. q ++ h.stored) (other-contents o r v)
    ∙ append_assoc (leaving o r) (contents (run_other o r)) h.stored
    ∙ ap (λ q. leaving o r ++ q) (history-queue rest (run_other o r) (run_other-IsValid o v))
    ∙ sym (append_assoc (leaving o r) h.left (contents h.ring))
