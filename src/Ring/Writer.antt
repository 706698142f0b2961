-- ===== src/Ring/Writer.antt =====
-- The writer's loop as a whole, with other threads at work whenever it waits.
use spoton.Prelude.{
  ℕ, zero, suc, ◌+◌, ◌-◌, ◌<◌, ◌≡◌, refl, min, Bool, Option, none, some, List, [], ◌∷◌, arith,
  length, take, length-take, length-drop,
}
use mathlib.Core.Option
use spoton.Time.{Clock}
use spoton.Env.{Environ}
use spoton.Ring.{Ring, ring_set_client, hold_timeout_check, hold_release}
use spoton.Ring.Pop.{pop_take, pop_locked, pop_advance, flush_ring}
use spoton.Ring.Push.{
  RingWrite, stop, again, wait, refill, push_copy, push_chunk, Turn, push_turn, Other, pop, flush,
  set_client, hold_timeout, release_hold, suppress, forget_expired, release_writers, mark_underrun,
  run_other, run_others, push_exit, Wake, after_wait, Pushed, done, blocked, no_fuel, ring_push,
}
use spoton.Ring.Valid.{
  IsValid, TurnIsValid, push_turn-IsValid, run_others-IsValid, push_exit-IsValid,
}

-- The three counters that say where the writer's bytes went.
pub record SameCounters (r r' : Ring) : Type 0 where
  pub pushed : r'.total_pushed ≡ r.total_pushed
  pub dropped : r'.drops_total ≡ r.drops_total
  pub flushed : r'.flushed_away ≡ r.flushed_away

pop_locked-SameCounters :
    (c : Clock) (fd : Bool) (m : ℕ) (r : Ring) → SameCounters r (pop_locked c fd m r).1
unfolding pop_locked pop_take pop_advance
pop_locked-SameCounters c fd m r = ground arith

run_other-SameCounters : (o : Other) (r : Ring) → SameCounters r (run_other o r)
unfolding run_other flush_ring ring_set_client hold_timeout_check hold_release
run_other-SameCounters (pop c fd m) r = pop_locked-SameCounters c fd m r
run_other-SameCounters (flush c) r = ground arith
run_other-SameCounters (set_client c b why g) r = ground arith
run_other-SameCounters (hold_timeout c) r = ground arith
run_other-SameCounters (release_hold c why) r = ground arith
run_other-SameCounters (suppress c) r = ground arith
run_other-SameCounters forget_expired r = ground arith
run_other-SameCounters release_writers r = ground arith
run_other-SameCounters mark_underrun r = ground arith

pub run_others-SameCounters : (os : List Other) (r : Ring) → SameCounters r (run_others os r)
unfolding run_others
run_others-SameCounters [] r = record { pushed = refl; dropped = refl; flushed = refl }
run_others-SameCounters (o ∷ os) r =
    ground (arith, run_other-SameCounters o r, run_others-SameCounters os (run_other o r))

-- All that the writer has offered so far, whatever became of it.
abbrev pub offered : Ring → ℕ
offered r = r.total_pushed + r.drops_total + r.flushed_away

-- What a call has lost, by its own account, against the ring's two loss counters.
abbrev pub Ledger : Ring → Option RingWrite → Ring → Option RingWrite → Type 0
Ledger r none r' none = Unit {0}
Ledger r none r' (some w') = ⊥
Ledger r (some w) r' none = ⊥
Ledger r (some w) r' (some w') =
    w'.refused + w'.abandoned_bytes + (r.drops_total + r.flushed_away)
    ≡ w.refused + w.abandoned_bytes + (r'.drops_total + r'.flushed_away)

pub push_chunk-counters :
    (e : Environ) (c : Clock) (xs : List ℕ) (r : Ring)
    → ((push_chunk e c xs r).total_pushed ≡ r.total_pushed + length xs)
      × ((push_chunk e c xs r).drops_total ≡ r.drops_total)
      × ((push_chunk e c xs r).flushed_away ≡ r.flushed_away)
unfolding push_chunk push_copy refill
push_chunk-counters e c xs r = ground arith

-- One turn accounts for what it takes: the bytes copied, refused, abandoned and left add up.
abbrev TurnBalanced : Ring → List ℕ → Option RingWrite → Turn → Type 0
TurnBalanced r xs w (Turn.stop r' w') = (offered r' ≡ offered r + length xs) × Ledger r w r' w'
TurnBalanced r xs w (Turn.again r' rest w') =
    (offered r' + length rest ≡ offered r + length xs) × Ledger r w r' w'
TurnBalanced r xs w (Turn.wait w') = Ledger r w r w'

push_turn-balanced :
    (e : Environ) (c : Clock) (r : Ring) (xs : List ℕ) (w : Option RingWrite)
    → TurnBalanced r xs w (push_turn e c r xs w)
unfolding push_turn
push_turn-balanced e c r xs none = ground (
  arith,
  push_chunk-counters e c (take (min (length xs) (r.capacity - r.fill)) xs) r,
  length-take (min (length xs) (r.capacity - r.fill)) xs,
  length-drop (min (length xs) (r.capacity - r.fill)) xs,
)
push_turn-balanced e c r xs (some w) = ground (
  arith,
  push_chunk-counters e c (take (min (length xs) (r.capacity - r.fill)) xs) r,
  length-take (min (length xs) (r.capacity - r.fill)) xs,
  length-drop (min (length xs) (r.capacity - r.fill)) xs,
)

-- A call that got through, or that still waits, leaves a valid ring, and each of its bytes is in the
-- ring's counters or still to be written. Running out of fuel is no such outcome.
abbrev pub Balanced : Ring → ℕ → Option RingWrite → Pushed → Type 0
Balanced r n w (done r' w') = IsValid r' × (offered r' ≡ offered r + n) × Ledger r w r' w'
Balanced r n w (blocked r' rest w') =
    IsValid r' × (offered r' + length rest ≡ offered r + n) × Ledger r w r' w'
Balanced r n w no_fuel = ⊥

pub Ledger-trans :
    (r s t : Ring) (u v w : Option RingWrite) → Ledger r u s v → Ledger s v t w → Ledger r u t w
Ledger-trans r s t none none none p q = tt
Ledger-trans r s t none none (some w) p q = q
Ledger-trans r s t none (some v) w p q = absurd p
Ledger-trans r s t (some u) none w p q = absurd p
Ledger-trans r s t (some u) (some v) none p q = q
Ledger-trans r s t (some u) (some v) (some w) p q = omega arith

-- The same, from a later state of the same call.
Balanced-from :
    (r s : Ring) (n m : ℕ) (w u : Option RingWrite) (o : Pushed)
    → offered s + m ≡ offered r + n
    → Ledger r w s u
    → Balanced s m u o
    → Balanced r n w o
Balanced-from r s n m w u (done t v) e l (i, b, k) = (i, omega arith, Ledger-trans r s t w u v l k)
Balanced-from r s n m w u (blocked t rest v) e l (i, b, k) =
    (i, omega arith, Ledger-trans r s t w u v l k)
Balanced-from r s n m w u no_fuel e l h = h

-- What a wake-up finds: the other threads have left the writer's counters alone.
woken :
    (k : Wake) (r : Ring) (w u : Option RingWrite)
    → Ledger r w r u
    → let r' = run_others k.others r in
      Ledger r w r' (Option.map (after_wait k r') u) × (offered r' ≡ offered r)
unfolding after_wait
woken k r none none l = (
  tt,
  omega (
    arith,
    (run_others-SameCounters k.others r).pushed,
    (run_others-SameCounters k.others r).dropped,
    (run_others-SameCounters k.others r).flushed,
  ),
)
woken k r none (some u) l = absurd l
woken k r (some w) none l = absurd l
woken k r (some w) (some u) l = (
  omega (
    arith,
    (run_others-SameCounters k.others r).pushed,
    (run_others-SameCounters k.others r).dropped,
    (run_others-SameCounters k.others r).flushed,
  ),
  omega (
    arith,
    (run_others-SameCounters k.others r).pushed,
    (run_others-SameCounters k.others r).dropped,
    (run_others-SameCounters k.others r).flushed,
  ),
)

push_exit-counters : (r : Ring) → SameCounters r (push_exit r)
unfolding push_exit
push_exit-counters r = record { pushed = refl; dropped = refl; flushed = refl }

Ledger-exit : (r s : Ring) (w u : Option RingWrite) → Ledger r w s u → Ledger r w (push_exit s) u
unfolding push_exit
Ledger-exit r s none none l = l
Ledger-exit r s none (some u) l = l
Ledger-exit r s (some w) none l = l
Ledger-exit r s (some w) (some u) l = l

-- The rest of a call after a turn of its loop, given what holds of every call with less fuel.
after_turn :
    (f : ℕ) (e : Environ) (c : Clock) (wakes : List Wake) (r : Ring) (xs : List ℕ)
    (w : Option RingWrite)
    → ((c' : Clock) (ks : List Wake) (s : Ring) (ys : List ℕ) (u : Option RingWrite)
        → IsValid s
        → length ys + length ks < f
        → Balanced s (length ys) u (ring_push f e c' ks s ys u))
    → IsValid r
    → length xs + length wakes < suc f
    → (t : Turn) → TurnIsValid xs t
    → TurnBalanced r xs w t
    → Balanced r (length xs) w (elim t [
      | stop r' w' ↦ done (push_exit r') w'
      | again r' rest w' ↦ ring_push f e c wakes r' rest w'
      | wait w' ↦ elim wakes [
        | [] ↦ blocked r xs w'
        | k ∷ ks ↦
            let r' = run_others k.others r in
            ring_push f e k.clock ks r' xs (Option.map (after_wait k r') w')
      ]
    ])
after_turn f e c wakes r xs w ih v h (stop s u) i (b, l) = (
  push_exit-IsValid i,
  omega (
    arith,
    (push_exit-counters s).pushed,
    (push_exit-counters s).dropped,
    (push_exit-counters s).flushed,
  ),
  Ledger-exit r s w u l,
)
after_turn f e c wakes r xs w ih v h (again s rest u) (i, k) (b, l) =
    Balanced-from r s (length xs) (length rest) w u _ b l (ih c wakes s rest u i (omega arith))
after_turn f e c [] r xs w ih v h (wait u) i l = (v, refl, l)
after_turn f e c (k ∷ ks) r xs w ih v h (wait u) i l =
    Balanced-from r (run_others k.others r) (length xs) (length xs) w
      (Option.map (after_wait k (run_others k.others r)) u) _ (omega (arith, (woken k r w u l).1))
      (woken k r w u l).0
      (ih k.clock ks (run_others k.others r) xs
        (Option.map (after_wait k (run_others k.others r)) u) (run_others-IsValid k.others v)
        (omega arith))

pub Ledger-refl : (r : Ring) (w : Option RingWrite) → Ledger r w r w
Ledger-refl r none = tt
Ledger-refl r (some w) = refl

-- On a valid ring, with fuel for its bytes and its wake-ups, `_ring_push` ends or is found waiting,
-- whatever the other threads do while it waits: the ring is valid, every byte it was given has been
-- copied, refused, abandoned or is still to be written, and what it reports as lost is what the
-- loss counters grew by.
pub ring_push-Balanced :
    (f : ℕ) (e : Environ) (c : Clock) (wakes : List Wake) (r : Ring) (xs : List ℕ)
    (w : Option RingWrite)
    → IsValid r
    → length xs + length wakes < f
    → Balanced r (length xs) w (ring_push f e c wakes r xs w)
unfolding ring_push
ring_push-Balanced zero e c wakes r xs w v h = absurd (omega arith)
ring_push-Balanced (suc f) e c wakes r [] w v h = (
  push_exit-IsValid v,
  omega (
    arith,
    (push_exit-counters r).pushed,
    (push_exit-counters r).dropped,
    (push_exit-counters r).flushed,
  ),
  Ledger-exit r r w w (Ledger-refl r w),
)
ring_push-Balanced (suc f) e c wakes r (x ∷ xs) w v h =
    after_turn f e c wakes r (x ∷ xs) w (ring_push-Balanced f e) v h (push_turn e c r (x ∷ xs) w)
      (push_turn-IsValid e c (x ∷ xs) w v (omega arith)) (push_turn-balanced e c r (x ∷ xs) w)
