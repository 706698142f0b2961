-- ===== src/System/Sound/Shared.antt =====
-- The invariant of the shared state, and what an operation of the ring needs to keep it.
use spoton.Prelude.{
  ℕ, ◌-◌, ◌≤◌, ◌≡◌, refl, ◌∙◌, ◌⊎◌, Bool, true, Option, none, some, List, ◌∷◌, arith, is_some,
  length, take, min,
}
use spoton.Time.{Clock}
use spoton.Env.{Environ}
use spoton.Ring.{Ring, Reason, hold_release, hold_timeout_check}
use spoton.Ring.Pop.{pop_locked, pop_take, pop_advance, flush_ring}
use spoton.Ring.Push.{
  RingWrite, Turn, stop, again, wait, refill, push_copy, push_chunk, push_turn, push_exit,
}
use spoton.Ring.Valid.{
  IsValid, Below, hold_release-IsValid, hold_timeout-IsValid, flush_ring-IsValid,
  pop_locked-IsValid, TurnIsValid, push_turn-IsValid, push_exit-IsValid,
}
use spoton.Decide.{Decide}
use spoton.Shim.{Shim}
use spoton.Stream.{release_writers}
use spoton.Daemon.{turn_ring}

-- The part of the shared state that the invariant is about.
pub record Core : Type 0 where
  pub ring : Ring
  pub seek_flush_armed : ℕ
  pub flush_disconnect : Bool
  pub decide : Decide
  pub boundary_at_pushed : Option ℕ
  pub client_generation : ℕ
  pub boundary_client_generation : Option ℕ
  pub departed_client_generation : Option ℕ

abbrev core : Shim → Core
core g = record {
  ring = g.ring;
  seek_flush_armed = g.seek_flush_armed;
  flush_disconnect = g.flush_disconnect;
  decide = g.decide;
  boundary_at_pushed = g.boundary_at_pushed;
  client_generation = g.client_generation;
  boundary_client_generation = g.boundary_client_generation;
  departed_client_generation = g.departed_client_generation;
}

-- What holds of it whenever no thread is inside an operation, `fd` being the streaming client's
-- socket: the ring is valid, at most 8 arms are counted, the ring's client flag says whether there is
-- a client, the marker is not ahead of the write cursor, no marker and no departed record is for a
-- generation to come, and a decision window is open only under a pending flush-disconnect.
pub record IsCore (fd : Option ℕ) (g : Core) : Type 0 where
  pub ring_valid : IsValid g.ring
  pub armed : g.seek_flush_armed ≤ 8
  pub attached : g.ring.client_connected ≡ is_some fd
  pub marker : Below g.boundary_at_pushed g.ring.total_pushed
  pub marker_gen : Below g.boundary_client_generation g.client_generation
  pub departed_gen : Below g.departed_client_generation g.client_generation
  pub decided : (g.flush_disconnect ≡ true) ⊎ (g.decide.deadline ≡ 0)

abbrev pub IsSound : Option ℕ → Shim → Type 0
IsSound fd g = IsCore fd (core g)

-- An operation of the ring that keeps it valid, its client and what was pushed.
pub record Keeps (r r' : Ring) : Type 0 where
  pub valid : IsValid r'
  pub client : r'.client_connected ≡ r.client_connected
  pub pushed : r.total_pushed ≤ r'.total_pushed

Below-le : (o : Option ℕ) {m n : ℕ} → Below o m → m ≤ n → Below o n
Below-le none b h = b
Below-le (some x) b h = omega arith

pub no_marker :
    {fd : Option ℕ} {g : Core} → IsCore fd g → IsCore fd (record g { boundary_at_pushed = none })
no_marker v = record {
  ring_valid = v.ring_valid;
  armed = v.armed;
  attached = v.attached;
  marker = tt;
  marker_gen = v.marker_gen;
  departed_gen = v.departed_gen;
  decided = v.decided;
}

pub with_arms :
    {fd : Option ℕ} {g : Core} (n : ℕ)
    → n ≤ 8
    → IsCore fd g
    → IsCore fd (record g { seek_flush_armed = n })
with_arms n h v = record {
  ring_valid = v.ring_valid;
  armed = h;
  attached = v.attached;
  marker = v.marker;
  marker_gen = v.marker_gen;
  departed_gen = v.departed_gen;
  decided = v.decided;
}

pub with_decision :
    {fd : Option ℕ} {g : Core} (b : Bool) (d : Decide)
    → (b ≡ true) ⊎ (d.deadline ≡ 0)
    → IsCore fd g
    → IsCore fd (record g { flush_disconnect = b; decide = d })
with_decision b d h v = record {
  ring_valid = v.ring_valid;
  armed = v.armed;
  attached = v.attached;
  marker = v.marker;
  marker_gen = v.marker_gen;
  departed_gen = v.departed_gen;
  decided = h;
}

-- Such an operation on the shim's ring keeps the shim sound.
pub with_ring :
    {fd : Option ℕ} {g : Core} {r : Ring}
    → IsCore fd g
    → Keeps g.ring r
    → IsCore fd (record g { ring = r })
with_ring {g = g} s k = record {
  ring_valid = k.valid;
  armed = s.armed;
  attached = k.client ∙ s.attached;
  marker = Below-le g.boundary_at_pushed s.marker k.pushed;
  marker_gen = s.marker_gen;
  departed_gen = s.departed_gen;
  decided = s.decided;
}

pub hold_release-Keeps :
    (c : Clock) (why : Reason) {r : Ring} → IsValid r → Keeps r (hold_release c why r).1
unfolding hold_release
hold_release-Keeps c why v = record {
  valid = hold_release-IsValid c why v;
  client = refl;
  pushed = omega arith;
}

pub hold_timeout-Keeps : (c : Clock) {r : Ring} → IsValid r → Keeps r (hold_timeout_check c r)
unfolding hold_timeout_check
hold_timeout-Keeps c {r} v = record {
  valid = hold_timeout-IsValid c v;
  client = ground arith;
  pushed = ground arith;
}

pub flush_ring-Keeps : (c : Clock) {r : Ring} → IsValid r → Keeps r (flush_ring c r)
unfolding flush_ring
flush_ring-Keeps c v = record {
  valid = flush_ring-IsValid c v;
  client = refl;
  pushed = omega arith;
}

pub pop_locked-Keeps :
    (c : Clock) (b : Bool) (m : ℕ) {r : Ring} → IsValid r → Keeps r (pop_locked c b m r).1
unfolding pop_locked pop_take pop_advance
pop_locked-Keeps c b m {r} v = record {
  valid = pop_locked-IsValid c b m v;
  client = ground arith;
  pushed = ground arith;
}

push_chunk-client :
    (e : Environ) (c : Clock) (xs : List ℕ) (r : Ring)
    → ((push_chunk e c xs r).client_connected ≡ r.client_connected)
      × (r.total_pushed ≤ (push_chunk e c xs r).total_pushed)
unfolding push_chunk push_copy refill
push_chunk-client e c xs r = ground arith

turn_ring-IsValid :
    (xs : List ℕ) (t : Turn) {r : Ring} → IsValid r → TurnIsValid xs t → IsValid (turn_ring r t)
turn_ring-IsValid xs (stop r' w) v h = h
turn_ring-IsValid xs (again r' rest w) v h = h.0
turn_ring-IsValid xs (wait w) v h = v

turn_ring-kept :
    (e : Environ) (c : Clock) (xs : List ℕ) (w : Option RingWrite) (r : Ring)
    → ((turn_ring r (push_turn e c r xs w)).client_connected ≡ r.client_connected)
      × (r.total_pushed ≤ (turn_ring r (push_turn e c r xs w)).total_pushed)
unfolding push_turn
turn_ring-kept e c xs w r =
    ground (arith, push_chunk-client e c (take (min (length xs) (r.capacity - r.fill)) xs) r)

pub turn-Keeps :
    (e : Environ) (c : Clock) (x : ℕ) (xs : List ℕ) (w : Option RingWrite) {r : Ring}
    → IsValid r
    → Keeps r (turn_ring r (push_turn e c r (x ∷ xs) w))
turn-Keeps e c x xs w {r} v = record {
  valid =
      turn_ring-IsValid (x ∷ xs) (push_turn e c r (x ∷ xs) w) v
        (push_turn-IsValid e c (x ∷ xs) w v (omega arith));
  client = (turn_ring-kept e c (x ∷ xs) w r).0;
  pushed = (turn_ring-kept e c (x ∷ xs) w r).1;
}

pub push_exit-Keeps : {r : Ring} → IsValid r → Keeps r (push_exit r)
unfolding push_exit
push_exit-Keeps v = record { valid = push_exit-IsValid v; client = refl; pushed = omega arith }

pub release-Keeps : {r : Ring} → IsValid r → Keeps r (release_writers r)
unfolding release_writers
release-Keeps v = record { valid = ground arith; client = refl; pushed = omega arith }

pub writers-Keeps : (n : ℕ) {r : Ring} → IsValid r → Keeps r (record r { writers_in = n })
writers-Keeps n v = record { valid = ground arith; client = refl; pushed = omega arith }
