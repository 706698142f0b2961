-- ===== src/Ring/Losses.antt =====
-- When a write loses bytes: only to a flush, or to a ring that stays full past the deadline.
use spoton.Prelude.{
  ℕ, zero, suc, ◌-◌, ◌≡◌, refl, ◌∙◌, min, false, Option, none, some, List, [], ◌∷◌, arith, length,
  take,
}
use mathlib.Core.Option
use spoton.Time.{Clock}
use spoton.Env.{Environ}
use spoton.Ring.{Ring}
use spoton.Ring.Push.{
  RingWrite, stop, again, wait, Turn, push_turn, run_others, push_exit, Wake, after_wait, Pushed,
  done, blocked, no_fuel, ring_push,
}
use spoton.Ring.Writer.{push_chunk-counters, run_others-SameCounters}

-- No wake-up of the call came from its deadline.
abbrev NoTimeout : List Wake → Type 0
NoTimeout [] = Unit {0}
NoTimeout (k ∷ ks) = (k.etimedout ≡ false) × NoTimeout ks

abbrev Waiting : Option RingWrite → Type 0
Waiting none = ⊥
Waiting (some w) = w.expired ≡ false

-- What is refused at the ceiling is the only loss without a flush.
abbrev pub NoDrop : Ring → Pushed → Type 0
NoDrop r (done r' w') = r'.drops_total ≡ r.drops_total
NoDrop r (blocked r' rest w') = r'.drops_total ≡ r.drops_total
NoDrop r no_fuel = Unit {0}

abbrev TurnNoDrop : Ring → Turn → Type 0
TurnNoDrop r (stop r' w') = r'.drops_total ≡ r.drops_total
TurnNoDrop r (again r' rest w') = (r'.drops_total ≡ r.drops_total) × Waiting w'
TurnNoDrop r (wait w') = Waiting w'

push_turn-NoDrop :
    (e : Environ) (c : Clock) (r : Ring) (xs : List ℕ) (w : Option RingWrite)
    → Waiting w
    → TurnNoDrop r (push_turn e c r xs w)
unfolding push_turn
push_turn-NoDrop e c r xs none q = absurd q
push_turn-NoDrop e c r xs (some w) q =
    ground (arith, push_chunk-counters e c (take (min (length xs) (r.capacity - r.fill)) xs) r)

after_wait-Waiting :
    (k : Wake) (r : Ring) (w : Option RingWrite)
    → k.etimedout ≡ false
    → Waiting w
    → Waiting (Option.map (after_wait k r) w)
unfolding after_wait
after_wait-Waiting k r none e q = q
after_wait-Waiting k r (some w) e q = rw (q, e)

NoDrop-from : (r s : Ring) (o : Pushed) → s.drops_total ≡ r.drops_total → NoDrop s o → NoDrop r o
NoDrop-from r s (done t v) e h = h ∙ e
NoDrop-from r s (blocked t rest v) e h = h ∙ e
NoDrop-from r s no_fuel e h = tt

after_turn-NoDrop :
    (f : ℕ) (e : Environ) (c : Clock) (wakes : List Wake) (r : Ring) (xs : List ℕ)
    → ((c' : Clock) (ks : List Wake) (s : Ring) (ys : List ℕ) (u : Option RingWrite)
        → Waiting u
        → NoTimeout ks
        → NoDrop s (ring_push f e c' ks s ys u))
    → NoTimeout wakes
    → (t : Turn) → TurnNoDrop r t
    → NoDrop r (elim t [
      | stop r' w' ↦ done (push_exit r') w'
      | again r' rest w' ↦ ring_push f e c wakes r' rest w'
      | wait w' ↦ elim wakes [
        | [] ↦ blocked r xs w'
        | k ∷ ks ↦
            let r' = run_others k.others r in
            ring_push f e k.clock ks r' xs (Option.map (after_wait k r') w')
      ]
    ])
unfolding push_exit
after_turn-NoDrop f e c wakes r xs ih n (stop s u) t = t
after_turn-NoDrop f e c wakes r xs ih n (again s rest u) (d, q) =
    NoDrop-from r s _ d (ih c wakes s rest u q n)
after_turn-NoDrop f e c [] r xs ih n (wait u) q = refl
after_turn-NoDrop f e c (k ∷ ks) r xs ih n (wait u) q =
    NoDrop-from r (run_others k.others r) _ (run_others-SameCounters k.others r).dropped (
      ih k.clock ks (run_others k.others r) xs (Option.map (after_wait k (run_others k.others r)) u)
        (after_wait-Waiting k (run_others k.others r) u n.0 q) n.1)

-- A full ring discards no audio while the writer waits: a call that has not run into its deadline,
-- and none of whose waits does, has no byte refused, whatever the other threads do and however
-- often it waits.
pub ring_push-NoDrop :
    (f : ℕ) (e : Environ) (c : Clock) (wakes : List Wake) (r : Ring) (xs : List ℕ)
    (w : Option RingWrite)
    → Waiting w
    → NoTimeout wakes
    → NoDrop r (ring_push f e c wakes r xs w)
unfolding ring_push push_exit
ring_push-NoDrop zero e c wakes r xs w q n = tt
ring_push-NoDrop (suc f) e c wakes r [] w q n = refl
ring_push-NoDrop (suc f) e c wakes r (x ∷ xs) w q n =
    after_turn-NoDrop f e c wakes r (x ∷ xs) (ring_push-NoDrop f e) n (push_turn e c r (x ∷ xs) w)
      (push_turn-NoDrop e c r (x ∷ xs) w q)
