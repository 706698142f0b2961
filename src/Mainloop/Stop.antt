-- ===== src/Mainloop/Stop.antt =====
-- A stop of the main loop ends.
use spoton.Prelude.{ℕ, ◌≡◌, refl, ◌∙◌, Bool, true, false, Option, none, some, List, [], ◌∷◌, arith}
use spoton.Mainloop.{
  Worker, absent, starting, waiting, woken, returned, Mainloop, Meanwhile, lock, unlock, wait,
  resume, signal, work, wake_up, Call, start, stop, join, other, mainloop_new, mainloop_stop,
  mainloop_join, run_meanwhile, run_all, run_call, run_calls,
}

-- There is a worker to join.
abbrev pub is_present : Worker → Bool
is_present absent = false
is_present starting = true
is_present waiting = true
is_present woken = true
is_present returned = true

-- A worker is there just while the loop is started.
abbrev IsPaired : Mainloop → Type 0
IsPaired m = is_present m.worker ≡ m.started

meanwhile-IsPaired : (x : Meanwhile) (m : Mainloop) → IsPaired m → IsPaired (run_meanwhile x m)
unfolding run_meanwhile
meanwhile-IsPaired (lock t) m h = ground arith
meanwhile-IsPaired (unlock t) m h = ground arith
meanwhile-IsPaired (wait t) m h = ground arith
meanwhile-IsPaired (resume t) m h = ground arith
meanwhile-IsPaired signal m h = ground arith
meanwhile-IsPaired work m h = ground arith
meanwhile-IsPaired wake_up m h = ground arith

call-IsPaired : (x : Call) (m : Mainloop) → IsPaired m → IsPaired (run_call x m)
unfolding run_call
call-IsPaired (start b) m h = ground arith
call-IsPaired (stop t) m h = ground arith
call-IsPaired join m h = ground arith
call-IsPaired (other x) m h = meanwhile-IsPaired x m h

calls-IsPaired : (xs : List Call) (m : Mainloop) → IsPaired m → IsPaired (run_calls xs m)
unfolding run_calls
calls-IsPaired [] m h = h
calls-IsPaired (x ∷ xs) m h = calls-IsPaired xs (run_call x m) (call-IsPaired x m h)

-- The worker will see `running` cleared: it is on its way to the lock, or has returned.
abbrev leaves : Worker → Bool
leaves absent = false
leaves starting = true
leaves waiting = false
leaves woken = true
leaves returned = true

record IsStopping (m : Mainloop) : Type 0 where
  cleared : m.running ≡ false
  on_its_way : leaves m.worker ≡ true

stop-IsStopping :
    (t : ℕ) (m m1 : Mainloop)
    → is_present m.worker ≡ true
    → mainloop_stop t m ≡ some m1
    → IsStopping m1
unfolding mainloop_stop
stop-IsStopping t m m1 h e = record { cleared = ground arith; on_its_way = ground arith }

meanwhile-IsStopping :
    (x : Meanwhile) (m : Mainloop) → IsStopping m → IsStopping (run_meanwhile x m)
unfolding run_meanwhile
meanwhile-IsStopping (lock t) m h = ground arith
meanwhile-IsStopping (unlock t) m h = ground arith
meanwhile-IsStopping (wait t) m h = ground arith
meanwhile-IsStopping (resume t) m h = ground arith
meanwhile-IsStopping signal m h = ground arith
meanwhile-IsStopping work m h = ground arith
meanwhile-IsStopping wake_up m h = ground arith

all-IsStopping : (xs : List Meanwhile) (m : Mainloop) → IsStopping m → IsStopping (run_all xs m)
unfolding run_all
all-IsStopping [] m h = h
all-IsStopping (x ∷ xs) m h = all-IsStopping xs (run_meanwhile x m) (meanwhile-IsStopping x m h)

-- The join has succeeded, and the loop can be started again.
abbrev pub Joined : Option Mainloop → Type 0
Joined none = ⊥
Joined (some m) = (m.started ≡ false) × (m.running ≡ false) × (m.worker ≡ absent)

last_turn :
    (m : Mainloop) → IsStopping m → m.holder ≡ none → Joined (mainloop_join (run_meanwhile work m))
unfolding mainloop_join run_meanwhile
last_turn m h e = of_worker m.worker refl h.on_its_way
  where
    of_worker :
        (w : Worker)
        → m.worker ≡ w
        → leaves w ≡ true
        → Joined (mainloop_join (run_meanwhile work m))
    of_worker absent q k = cc
    of_worker starting q k = rw (e, q, h.cleared) (refl, refl, refl)
    of_worker waiting q k = cc
    of_worker woken q k = rw (e, q, h.cleared) (refl, refl, refl)
    of_worker returned q k = rw (e, q) (refl, h.cleared, refl)

-- Whatever calls have led to a started loop, its worker leaves a stop for good: whatever locks,
-- unlocks, waits, signals and spurious wake-ups follow the stop, a turn of the worker with the lock
-- free is enough for the join, behind which no worker is left and the loop counts as not started.
pub mainloop_stop-Joined :
    (calls : List Call) (t : ℕ) (m1 : Mainloop) (xs : List Meanwhile)
    → (run_calls calls mainloop_new).started ≡ true
    → mainloop_stop t (run_calls calls mainloop_new) ≡ some m1
    → (run_all xs m1).holder ≡ none
    → Joined (mainloop_join (run_meanwhile work (run_all xs m1)))
unfolding mainloop_new
mainloop_stop-Joined calls t m1 xs s e h =
    last_turn (run_all xs m1)
      (all-IsStopping xs m1 (
        stop-IsStopping t (run_calls calls mainloop_new) m1
          (calls-IsPaired calls mainloop_new refl ∙ s) e))
      h
