-- ===== src/Ring/Hold.antt =====
-- The gap hold from end to end: after a natural title end the next title's first bytes wait in the
-- ring until the hold is released, and nothing of them is lost.
use spoton.Prelude.{
  ℕ, ◌+◌, ◌≤◌, ◌<◌, ◌≡◌, refl, ◌∙◌, ap, Bool, true, false, Option, none, some, List, [], ◌++◌,
  arith, length, take, ◌==◌,
}
use spoton.Time.{Clock, hold_now_ms}
use spoton.Env.{Environ, hold_gap_env_ms, hold_max_env_ms}
use spoton.Ring.{Ring, timed_out, hold_timeout_check}
use spoton.Ring.Pop.{hold_cap, pop_take, pop_locked, pop_advance}
use spoton.Ring.Push.{refill, push_copy, push_chunk}
use spoton.Ring.Valid.{IsValid, pop_locked-IsValid, push_chunk-IsValid, hold_timeout-IsValid}
use spoton.Ring.Fifo.{contents}
use spoton.Ring.Queue.{pop_limit, pop_locked-Popped, push_chunk-contents, contents-nil}

-- A ring that the attached client has just read to the end, at the time `c`.
pub record Emptied (c : Clock) (r : Ring) : Type 0 where
  pub valid : IsValid r
  pub empty : r.fill ≡ 0
  pub clocked : r.empty_valid ≡ true
  pub since : r.empty_since_ms ≡ hold_now_ms c
  pub client : r.client_connected ≡ true
  pub no_hold : r.hold_at ≡ none

-- A pop that takes all that is left, with a client attached and no hold, leaves such a ring.
pop-Emptied :
    (c : Clock) (m : ℕ) {r : Ring}
    → IsValid r
    → 0 < r.fill
    → r.fill ≤ m
    → r.client_connected ≡ true
    → r.hold_at ≡ none
    → Emptied c (pop_locked c false m r).1
unfolding pop_locked pop_take pop_advance
pop-Emptied c m {r} v p q cl nh = record {
  valid = pop_locked-IsValid c false m v;
  empty = ground arith;
  clocked = ground arith;
  since = ground arith;
  client = ground arith;
  no_hold = ground arith;
}

-- What the refill of an emptied ring does about the hold.
refill-held :
    (e : Environ) (c0 c : Clock) {r : Ring}
    → Emptied c0 r
    → 0 < hold_gap_env_ms e
    → hold_now_ms c0 + hold_gap_env_ms e ≤ hold_now_ms c
    → r.suppress_valid ≡ false
    → ((refill e c r).hold_at ≡ some r.total_pushed)
      × ((refill e c r).total_popped ≡ r.total_popped)
      × ((refill e c r).hold_since_ms ≡ hold_now_ms c)
      × ((refill e c r).hold_max_ms ≡ hold_max_env_ms e)
unfolding refill
refill-held e c0 c {r} m g h s = ground arith

refill-steady :
    (e : Environ) (c0 c : Clock) {r : Ring}
    → Emptied c0 r
    → hold_now_ms c < hold_now_ms c0 + hold_gap_env_ms e
    → (refill e c r).hold_at ≡ none
unfolding refill
refill-steady e c0 c {r} m h = ground arith

push_chunk-refill :
    (e : Environ) (c : Clock) (xs : List ℕ) (r : Ring)
    → r.fill ≡ 0
    → push_chunk e c xs r ≡ push_copy xs (refill e c r)
unfolding push_chunk
push_chunk-refill e c xs r z = let t : (r.fill == 0) ≡ true = ground arith in rw t

push_copy-hold :
    (xs : List ℕ) (r : Ring)
    → ((push_copy xs r).hold_at ≡ r.hold_at)
      × ((push_copy xs r).total_popped ≡ r.total_popped)
      × ((push_copy xs r).hold_since_ms ≡ r.hold_since_ms)
      × ((push_copy xs r).hold_max_ms ≡ r.hold_max_ms)
unfolding push_copy
push_copy-hold xs r = (refl, refl, refl, refl)

-- The hold that the first push after a natural end arms.
pub record Held (e : Environ) (c : Clock) (r r' : Ring) : Type 0 where
  pub hold : r'.hold_at ≡ some r.total_popped
  pub kept : r'.total_popped ≡ r.total_popped
  pub since : r'.hold_since_ms ≡ hold_now_ms c
  pub ceiling : r'.hold_max_ms ≡ hold_max_env_ms e

-- The first push after a gap of at least the hold gap, with the next arming not suppressed, arms the
-- hold exactly at the old title's end.
push-Held :
    (e : Environ) (c0 c : Clock) (xs : List ℕ) {r : Ring}
    → Emptied c0 r
    → 0 < hold_gap_env_ms e
    → hold_now_ms c0 + hold_gap_env_ms e ≤ hold_now_ms c
    → r.suppress_valid ≡ false
    → Held e c r (push_chunk e c xs r)
push-Held e c0 c xs {r} m g h s =
    let (a, b, since, top) = refill-held e c0 c m g h s in
    let (k, l, u, t) = push_copy-hold xs (refill e c r) in
    let end : some r.total_pushed ≡ some r.total_popped =
      ap some (omega (arith, m.valid.cursors, m.empty)) in
    rw (push_chunk-refill e c xs r m.empty)
      (record { hold = k ∙ a ∙ end; kept = l ∙ b; since = u ∙ since; ceiling = t ∙ top })

-- Within the gap no hold is armed.
push-steady :
    (e : Environ) (c0 c : Clock) (xs : List ℕ) {r : Ring}
    → Emptied c0 r
    → hold_now_ms c < hold_now_ms c0 + hold_gap_env_ms e
    → (push_chunk e c xs r).hold_at ≡ none
push-steady e c0 c xs {r} m h =
    rw (push_chunk-refill e c xs r m.empty)
      ((push_copy-hold xs (refill e c r)).0 ∙ refill-steady e c0 c m h)

hold_cap-none :
    (m h : ℕ) (r : Ring) (o : Option ℕ) → o ≡ some h → h ≤ r.total_popped → hold_cap r m o ≡ none
unfolding hold_cap
hold_cap-none m h r none e k = absurd (ground arith)
hold_cap-none m h r (some x) e k = ground arith

-- Nothing is handed out while the hold stands at the read cursor.
pop-held :
    (c : Clock) (fd : Bool) (m h : ℕ) (r : Ring)
    → r.hold_at ≡ some h
    → h ≤ r.total_popped
    → pop_locked c fd m r ≡ ([], r)
unfolding pop_locked
pop-held c true m h r e k = refl
pop-held c false m h r e k =
    ap (λ o. elim o [ none ↦ ([], r) | some n ↦ pop_take c n r ])
      (hold_cap-none m h r r.hold_at e k)

-- The gap hold: a pop with no hold standing takes all that a valid, not empty ring holds, for an
-- attached client; a push at least a positive hold gap later, with the next arming not suppressed,
-- is withheld, and every further pop hands out nothing and changes nothing.
pub push-withheld :
    (e : Environ) (c0 c1 c : Clock) (m n : ℕ) (fd : Bool) (xs : List ℕ) {r : Ring}
    → IsValid r
    → 0 < r.fill
    → r.fill ≤ m
    → r.client_connected ≡ true
    → r.hold_at ≡ none
    → (pop_locked c0 false m r).1.suppress_valid ≡ false
    → 0 < hold_gap_env_ms e
    → hold_now_ms c0 + hold_gap_env_ms e ≤ hold_now_ms c1
    → pop_locked c fd n (push_chunk e c1 xs (pop_locked c0 false m r).1)
      ≡ ([], push_chunk e c1 xs (pop_locked c0 false m r).1)
push-withheld e c0 c1 c m n fd xs {r} v p q cl nh s g h =
    let em = pop-Emptied c0 m v p q cl nh in
    let held = push-Held e c0 c1 xs em g h s in
    pop-held c fd n (pop_locked c0 false m r).1.total_popped
      (push_chunk e c1 xs (pop_locked c0 false m r).1) held.hold (omega (arith, held.kept))

-- A ring whose hold has reached its ceiling: the check lets it go and remembers it, and takes no byte
-- from the queue.
timed_out-some :
    (now : ℕ) (r : Ring) (h : ℕ) (o : Option ℕ)
    → o ≡ some h
    → r.hold_since_ms + r.hold_max_ms ≤ now
    → timed_out now r o ≡ true
unfolding timed_out
timed_out-some now r h none e k = absurd (ground arith)
timed_out-some now r h (some x) e k = ground arith

timeout-release :
    (c : Clock) (h : ℕ) (r : Ring)
    → r.hold_at ≡ some h
    → r.hold_since_ms + r.hold_max_ms ≤ hold_now_ms c
    → ((hold_timeout_check c r).hold_at ≡ none)
      × ((hold_timeout_check c r).hold_expired_at ≡ some h)
      × (contents (hold_timeout_check c r) ≡ contents r)
      × ((hold_timeout_check c r).total_popped ≡ r.total_popped)
unfolding hold_timeout_check
timeout-release c h r e k =
    let t = timed_out-some (hold_now_ms c) r h r.hold_at e k in rw t (refl, e, refl, refl)

-- A valid ring that its attached client has read to the end, with no hold and no suppression, takes
-- bytes that it has room for at least a positive hold gap later; at a time when the hold has stood
-- for its ceiling, the timeout check ends it and the next pop hands out the withheld bytes from the
-- first one on: the hold loses none of them.
pub hold_timeout-delivers :
    (e : Environ) (c0 c1 c c' : Clock) (n : ℕ) (xs : List ℕ) {r : Ring}
    → Emptied c0 r
    → length xs ≤ r.capacity
    → 0 < hold_gap_env_ms e
    → hold_now_ms c0 + hold_gap_env_ms e ≤ hold_now_ms c1
    → r.suppress_valid ≡ false
    → hold_now_ms c1 + hold_max_env_ms e ≤ hold_now_ms c
    → (pop_locked c' false n (hold_timeout_check c (push_chunk e c1 xs r))).0 ≡ take n xs
hold_timeout-delivers e c0 c1 c c' n xs {r} em fits g h s k =
    let room : length xs + r.fill ≤ r.capacity = omega (arith, em.empty) in
    let held = push-Held e c0 c1 xs em g h s in
    let v = push_chunk-IsValid e c1 xs em.valid room in
    let (a, x, q, t) =
      timeout-release c r.total_popped (push_chunk e c1 xs r) held.hold
        (omega (arith, held.since, held.ceiling)) in
    let out = pop_locked-Popped c' false n (hold_timeout-IsValid c v) in
    out.bytes
    ∙ ap
        (λ o.
          take (pop_limit false n (hold_timeout_check c (push_chunk e c1 xs r)).total_popped o)
            (contents (hold_timeout_check c (push_chunk e c1 xs r))))
        a
    ∙ ap (take n) (
        q ∙ push_chunk-contents e c1 xs em.valid room ∙ ap (λ z. z ++ xs) (contents-nil r em.empty))
