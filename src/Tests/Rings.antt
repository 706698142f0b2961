-- ===== src/Tests/Rings.antt =====
-- Runs of the ring: a pop, a flush, a push into a full ring, and the gap hold.
use spoton.Prelude.{List, ◌≡◌, refl, true, false, some, [], ◌∷◌, ◌++◌, arith}
use spoton.Time.{hold_now_ms}
use spoton.Env.{hold_gap_env_ms, hold_max_env_ms}
use spoton.Ring.{Ring, ring_init, hold_timeout_check}
use spoton.Ring.Pop.{pop_locked, pop_take, pop_advance}
use spoton.Ring.Push.{new_write, push_chunk, ring_push}
use spoton.Ring.Fifo.{contents}
use spoton.Ring.Queue.{Popped, pop_locked-Popped}
use spoton.Ring.Writer.{Balanced, ring_push-Balanced}
use spoton.Ring.Losses.{NoDrop, ring_push-NoDrop}
use spoton.Ring.Hold.{Emptied, push-withheld, hold_timeout-delivers}
use spoton.Ring.Push.{pop, flush}
use spoton.Ring.History.{Section, writer, reader, history, history-queue}
use spoton.Tests.Fixtures.{
  at, unset, two, full, held, pop_one, two-IsValid, full-IsValid, held-IsValid,
}

contents-two : contents two ≡ 13 ∷ 10 ∷ []
unfolding ring_init
contents-two = refl

-- The first two bytes behind the hold's position are not handed out.
pop_locked-Popped_example : Popped 0 held (pop_locked (at 5 100) false 4 held)
pop_locked-Popped_example = pop_locked-Popped (at 5 100) false 4 held-IsValid

-- Two bytes for a full ring, and one wake-up behind a pop of one byte.
ring_push-Balanced_example :
    Balanced full 2
      (some (new_write 0))
      (ring_push 4 unset (at 5 0) (pop_one ∷ []) full (20 ∷ 21 ∷ []) (some (new_write 0)))
ring_push-Balanced_example =
    ring_push-Balanced 4 unset (at 5 0) (pop_one ∷ []) full (20 ∷ 21 ∷ []) (some (new_write 0))
      full-IsValid (omega arith)

ring_push-NoDrop_example :
    NoDrop full (ring_push 4 unset (at 5 0) (pop_one ∷ []) full (20 ∷ 21 ∷ []) (some (new_write 0)))
ring_push-NoDrop_example =
    ring_push-NoDrop 4 unset (at 5 0) (pop_one ∷ []) full (20 ∷ 21 ∷ []) (some (new_write 0)) refl
      (refl, tt)

gap_unset : hold_gap_env_ms unset ≡ 500
unfolding hold_gap_env_ms
gap_unset = refl

max_unset : hold_max_env_ms unset ≡ 450
unfolding hold_max_env_ms
max_unset = refl

-- Emptied at 5.0 s, refilled at 5.6 s: withheld at 5.7 s.
push-withheld_example :
    pop_locked
      (at 5 700)
      false
      4
      (push_chunk unset (at 5 600) (20 ∷ 21 ∷ []) (pop_locked (at 5 0) false 4 two).1)
    ≡ ([], push_chunk unset (at 5 600) (20 ∷ 21 ∷ []) (pop_locked (at 5 0) false 4 two).1)
unfolding ring_init hold_now_ms pop_locked pop_take pop_advance
push-withheld_example =
    push-withheld unset (at 5 0) (at 5 600) (at 5 700) 4 4 false (20 ∷ 21 ∷ []) two-IsValid
      (omega arith) (omega arith) refl refl refl (omega (arith, gap_unset))
      (omega (arith, gap_unset))

abbrev drained : Ring
drained = record two {
  fill = 0;
  total_popped = 9;
  tail = 1;
  empty_valid = true;
  empty_since_ms = 5000;
}

drained-Emptied : Emptied (at 5 0) drained
unfolding ring_init hold_now_ms
drained-Emptied = record {
  valid = ground arith;
  empty = refl;
  clocked = refl;
  since = refl;
  client = refl;
  no_hold = refl;
}

-- Refilled at 5.6 s: the hold's ceiling of 450 ms has passed at 6.1 s.
hold_timeout-delivers_example :
    (pop_locked
      (at 6 110)
      false
      1
      (hold_timeout_check (at 6 100) (push_chunk unset (at 5 600) (20 ∷ 21 ∷ []) drained))).0
    ≡ 20 ∷ []
unfolding ring_init hold_now_ms
hold_timeout-delivers_example =
    hold_timeout-delivers unset (at 5 0) (at 5 600) (at 6 100) (at 6 110) 1 (20 ∷ 21 ∷ [])
      drained-Emptied (omega arith) (omega (arith, gap_unset)) (omega (arith, gap_unset)) refl
      (omega (arith, max_unset))

-- A write of one byte, a pop of two, a write of four bytes, and a flush.
abbrev sections : List Section
sections =
    writer unset (at 5 0) 20 [] (some (new_write 0))
    ∷ reader (pop (at 5 100) false 2)
    ∷ writer unset (at 5 200) 21 (22 ∷ 23 ∷ 24 ∷ []) (some (new_write 0))
    ∷ reader (flush (at 5 300))
    ∷ []

history-queue_example :
    contents two ++ (history sections two).stored
    ≡ (history sections two).left ++ contents (history sections two).ring
history-queue_example = history-queue sections two two-IsValid
