-- ===== src/Ring/Push.antt =====
-- Plugins/SpotOn/Bin/fake-libpulse/fake-libpulse.c: the writer's side of the ring. `_ring_push` is
-- cut at its wait on `space_avail`: one turn of its loop, what a wake-up finds, and the loop.
use spoton.Prelude.{
  ℕ, zero, suc, ◌+◌, ◌-◌, ◌%◌, min, Bool, true, false, not, ◌&&◌, ◌||◌, Option, none, some, List,
  [], ◌∷◌, ltb, leb, ◌==◌, if◌then◌else◌, is_some, length, take, drop, memcpy,
}
use mathlib.Core.Option
use spoton.Time.{Clock, hold_now_ms}
use spoton.Env.{Environ, write_wait_max_ms, hold_gap_env_ms, hold_max_env_ms}
use spoton.Ring.{Ring, Reason, next_epoch, ring_set_client, hold_timeout_check, hold_release}
use spoton.Ring.Pop.{pop_locked, flush_ring}

-- `ring_write_t`. The deadline is in milliseconds of CLOCK_MONOTONIC.
pub record RingWrite : Type 0 where
  pub epoch : ℕ
  pub have_deadline : Bool
  pub expired : Bool
  pub abandoned : Bool
  pub deadline : ℕ
  pub waited_ms : ℕ
  pub refused : ℕ
  pub abandoned_bytes : ℕ

-- `memset(&w, 0, sizeof(w)); w.epoch = epoch`.
abbrev pub new_write : ℕ → RingWrite
new_write epoch = record {
  epoch = epoch;
  have_deadline = false;
  expired = false;
  abandoned = false;
  deadline = 0;
  waited_ms = 0;
  refused = 0;
  abandoned_bytes = 0;
}

-- `w && (w->abandoned || r->flush_epoch != w->epoch)`.
unfoldable pub is_stale : Ring → Option RingWrite → Bool
is_stale r none = false
is_stale r (some w) = w.abandoned || not (r.flush_epoch == w.epoch)

-- `!w || w->expired`.
pub is_refusing : Option RingWrite → Bool
is_refusing none = true
is_refusing (some w) = w.expired

abbrev abandon : ℕ → RingWrite → RingWrite
abandon n w = record w { abandoned = true; abandoned_bytes = w.abandoned_bytes + n }

abbrev refuse : ℕ → RingWrite → RingWrite
refuse n w = record w { refused = w.refused + n }

-- The deadline of the first wait of a call.
arm_deadline : Environ → Clock → RingWrite → RingWrite
arm_deadline e c w =
    if w.have_deadline
    then w
    else record w { have_deadline = true; deadline = hold_now_ms c + write_wait_max_ms e }

-- The gap that has passed is at least the hold gap, and the client that emptied the ring is there.
gap_reached : Clock → Ring → Bool
gap_reached c r =
    ltb 0 r.hold_gap_ms
    && (r.client_connected
        && (r.empty_valid
            && (not (is_some r.hold_at) && leb (r.empty_since_ms + r.hold_gap_ms) (hold_now_ms c))))

-- What the refill of an empty ring does before the copy: it marks where the old content ended,
-- stores the knobs, and arms the gap hold or spends a suppression.
unfoldable pub refill : Environ → Clock → Ring → Ring
unfolding gap_reached
refill e c r0 =
    let r = record r0 {
      last_empty_pushed = some r0.total_pushed;
      hold_gap_ms = hold_gap_env_ms e;
      hold_max_ms = hold_max_env_ms e;
    } in
    let now = hold_now_ms c in
    if gap_reached c r
    then if r.suppress_valid && ltb now r.hold_suppress_until_ms
      then record r { suppress_valid = false }
      else record r {
        suppress_valid = false;
        hold_at = some r.total_pushed;
        hold_since_ms = now;
        hold_armed_total = r.hold_armed_total + 1;
      }
    else r

-- The two copies, up to the end of the buffer and from its start, and the cursors.
unfoldable pub push_copy : List ℕ → Ring → Ring
push_copy xs r =
    let chunk = length xs in
    let first = min chunk (r.capacity - r.head) in
    record r {
      buf = memcpy (memcpy r.buf r.head (take first xs)) 0 (drop first xs);
      head = (r.head + chunk) % r.capacity;
      fill = r.fill + chunk;
      total_pushed = r.total_pushed + chunk;
      empty_valid = false;
    }

unfoldable pub push_chunk : Environ → Clock → List ℕ → Ring → Ring
push_chunk e c xs r = push_copy xs (if r.fill == 0 then refill e c r else r)

-- Where one turn of the loop leads: out of it, to its next turn with what is left, or to a wait.
pub data Turn : Type 0 where
  stop : Ring → Option RingWrite → Turn
  again : Ring → List ℕ → Option RingWrite → Turn
  wait : Option RingWrite → Turn

-- One turn of `while (n > 0)`, at `n` bytes of data.
unfoldable pub push_turn : Environ → Clock → Ring → List ℕ → Option RingWrite → Turn
unfolding is_stale is_refusing arm_deadline
push_turn e c r data_left w =
    let n = length data_left in
    let chunk = min n (r.capacity - r.fill) in
    if is_stale r w
    then stop (record r { flushed_away = r.flushed_away + n }) (Option.map (abandon n) w)
    else if r.fill == r.capacity
    then if is_refusing w
      then stop (record r { drops_total = r.drops_total + n }) (Option.map (refuse n) w)
      else wait (Option.map (arm_deadline e c) w)
    else again (push_chunk e c (take chunk data_left) r) (drop chunk data_left) w

-- What the other threads do to the ring while the writer waits, each in its own critical section.
pub data Other : Type 0 where
  pop : Clock → Bool → ℕ → Other
  flush : Clock → Other
  set_client : Clock → Bool → Reason → ℕ → Other
  hold_timeout : Clock → Other
  release_hold : Clock → Reason → Other
  suppress : Clock → Other
  forget_expired : Other
  release_writers : Other
  mark_underrun : Other

unfoldable pub run_other : Other → Ring → Ring
run_other (pop c fd n) r = (pop_locked c fd n r).1
run_other (flush c) r = flush_ring c r
run_other (set_client c b why g) r = ring_set_client c b why g r
run_other (hold_timeout c) r = hold_timeout_check c r
run_other (release_hold c why) r = (hold_release c why r).1
run_other (suppress c) r = record r {
  suppress_valid = true;
  hold_suppress_until_ms = hold_now_ms c + r.hold_max_ms;
}
run_other forget_expired r = record r { hold_expired_at = none }
run_other release_writers r = record r { flush_epoch = next_epoch r.flush_epoch }
run_other mark_underrun r = record r { underrun_fired = true }

unfoldable pub run_others : List Other → Ring → Ring
run_others [] r = r
run_others (o ∷ os) r = run_others os (run_other o r)

-- One return of `pthread_cond_timedwait`: what ran meanwhile, the clock, whether it is ETIMEDOUT,
-- and how long it took.
pub record Wake : Type 0 where
  pub others : List Other
  pub clock : Clock
  pub etimedout : Bool
  pub took_ms : ℕ

unfoldable pub after_wait : Wake → Ring → RingWrite → RingWrite
after_wait k r w = record w {
  waited_ms = w.waited_ms + k.took_ms;
  expired = w.expired || (k.etimedout && ((r.fill == r.capacity) && (r.flush_epoch == w.epoch)));
}

pub data Pushed : Type 0 where
  done : Ring → Option RingWrite → Pushed
  blocked : Ring → List ℕ → Option RingWrite → Pushed
  no_fuel : Pushed

-- `if (r->fill > 0) g_ring_underrun_fired = 0`.
unfoldable pub push_exit : Ring → Ring
push_exit r = record r { underrun_fired = if ltb 0 r.fill then false else r.underrun_fired }

-- `_ring_push`: its loop over the wake-ups that it gets. With none left it is still waiting.
unfoldable pub ring_push :
    ℕ → Environ → Clock → List Wake → Ring → List ℕ → Option RingWrite → Pushed
ring_push zero e c wakes r data_left w = no_fuel
ring_push (suc f) e c wakes r [] w = done (push_exit r) w
ring_push (suc f) e c wakes r (x ∷ xs) w = elim (push_turn e c r (x ∷ xs) w) [
  | stop r' w' ↦ done (push_exit r') w'
  | again r' rest w' ↦ ring_push f e c wakes r' rest w'
  | wait w' ↦ elim wakes [
    | [] ↦ blocked r (x ∷ xs) w'
    | k ∷ ks ↦
        let r' = run_others k.others r in
        ring_push f e k.clock ks r' (x ∷ xs) (Option.map (after_wait k r') w')
  ]
]
