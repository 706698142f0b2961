-- ===== src/Mainloop.antt =====
-- Plugins/SpotOn/Bin/fake-libpulse/fake-libpulse.c: `pa_threaded_mainloop_*`, the recursive lock with its
-- condition variable, and the worker thread that `start` and `stop` spawn and join. A call that would
-- block is `none`: it is taken when it can go on.
pub mod Stop
use spoton.Prelude.{
  ℕ, ◌+◌, ◌-◌, Bool, true, false, Option, none, some, List, [], ◌∷◌, ◌++◌, ltb, ◌==◌, if◌then◌else◌,
}

-- Where `_mainloop_thread_fn` stands: not there, before its first or its next taking of the lock, in
-- `pthread_cond_wait`, or returned and not joined yet.
pub data Worker : Type 0 where
  absent starting waiting woken returned : Worker

-- `struct pa_threaded_mainloop`. The lock's holder is a thread of the daemon, with the depth of its
-- locking; the worker holds it within a single turn. `sleeping` and `awake` are the daemon's threads
-- in `pa_threaded_mainloop_wait`, before and behind a broadcast.
pub record Mainloop : Type 0 where
  pub running : Bool
  pub started : Bool
  pub worker : Worker
  pub holder : Option ℕ
  pub depth : ℕ
  pub sleeping : List ℕ
  pub awake : List ℕ

-- `pa_threaded_mainloop_new`.
unfoldable pub mainloop_new : Mainloop
mainloop_new = record {
  running = false;
  started = false;
  worker = absent;
  holder = none;
  depth = 0;
  sleeping = [];
  awake = [];
}

abbrev wake : Worker → Worker
wake absent = absent
wake starting = starting
wake waiting = woken
wake woken = woken
wake returned = returned

-- `pthread_cond_broadcast(&m->cond)`, which is `pa_threaded_mainloop_signal`.
unfoldable pub mainloop_signal : Mainloop → Mainloop
mainloop_signal m = record m {
  worker = wake m.worker;
  sleeping = [];
  awake = m.sleeping ++ m.awake;
}

-- The lock is free for `t`.
abbrev pub may_lock : ℕ → Option ℕ → Bool
may_lock t none = true
may_lock t (some u) = u == t

abbrev holds : ℕ → Option ℕ → Bool
holds t none = false
holds t (some u) = u == t

unfoldable pub mainloop_lock : ℕ → Mainloop → Option Mainloop
mainloop_lock t m =
    if may_lock t m.holder then some (record m { holder = some t; depth = m.depth + 1 }) else none

-- An unlock by a thread that does not hold the lock is refused by the mutex.
unfoldable pub mainloop_unlock : ℕ → Mainloop → Mainloop
mainloop_unlock t m =
    if holds t m.holder
    then if ltb 1 m.depth
      then record m { depth = m.depth - 1 }
      else record m { holder = none; depth = 0 }
    else m

-- `pa_threaded_mainloop_wait` up to its sleep, and behind a broadcast or a spurious wake-up.
unfoldable pub mainloop_wait : ℕ → Mainloop → Mainloop
unfolding mainloop_unlock
mainloop_wait t m = let m' = mainloop_unlock t m in record m' { sleeping = t ∷ m'.sleeping }

remove : ℕ → List ℕ → List ℕ
remove t [] = []
remove t (u ∷ us) = if u == t then us else u ∷ remove t us

unfoldable pub mainloop_resume : ℕ → Mainloop → Option Mainloop
unfolding mainloop_lock remove
mainloop_resume t m =
    mainloop_lock t (record m { sleeping = remove t m.sleeping; awake = remove t m.awake })

-- A turn of the worker: with the lock free it takes it, tests `running`, and sleeps or returns.
abbrev turn : Bool → Worker → Option Worker
turn running absent = none
turn running starting = some (if running then waiting else returned)
turn running waiting = none
turn running woken = some (if running then waiting else returned)
turn running returned = none

abbrev set_worker : Mainloop → Option Worker → Option Mainloop
set_worker m none = none
set_worker m (some w) = some (record m { worker = w })

abbrev is_free : Option ℕ → Bool
is_free none = true
is_free (some t) = false

unfoldable pub mainloop_thread_turn : Mainloop → Option Mainloop
mainloop_thread_turn m = if is_free m.holder then set_worker m (turn m.running m.worker) else none

-- A wake-up of the worker without a broadcast, which POSIX allows.
unfoldable pub spurious : Mainloop → Mainloop
spurious m = record m { worker = wake m.worker }

-- `pa_threaded_mainloop_start`: 0 if `pthread_create` succeeds, else -1.
unfoldable pub mainloop_start : Bool → Mainloop → Bool × Mainloop
mainloop_start created m =
    if created
    then (true, record m { running = true; worker = starting; started = true })
    else (false, record m { running = false })

-- `pa_threaded_mainloop_stop` up to its join: under the lock, `running` is cleared and all are woken.
unfoldable pub mainloop_stop : ℕ → Mainloop → Option Mainloop
unfolding mainloop_signal
mainloop_stop t m =
    if may_lock t m.holder then some (mainloop_signal (record m { running = false })) else none

-- `pthread_join` and what follows it.
abbrev has_returned : Worker → Bool
has_returned absent = false
has_returned starting = false
has_returned waiting = false
has_returned woken = false
has_returned returned = true

unfoldable pub mainloop_join : Mainloop → Option Mainloop
mainloop_join m =
    if has_returned m.worker then some (record m { worker = absent; started = false }) else none

-- What the daemon's threads and the worker do while a stop waits for its join.
pub data Meanwhile : Type 0 where
  lock unlock wait resume : ℕ → Meanwhile
  signal work wake_up : Meanwhile

abbrev or_same : Mainloop → Option Mainloop → Mainloop
or_same m none = m
or_same m (some m') = m'

-- A step that cannot be taken yet changes nothing.
unfoldable pub run_meanwhile : Meanwhile → Mainloop → Mainloop
unfolding mainloop_lock mainloop_unlock mainloop_wait mainloop_resume mainloop_signal
    mainloop_thread_turn spurious
run_meanwhile (lock t) m = or_same m (mainloop_lock t m)
run_meanwhile (unlock t) m = mainloop_unlock t m
run_meanwhile (wait t) m = mainloop_wait t m
run_meanwhile (resume t) m = or_same m (mainloop_resume t m)
run_meanwhile signal m = mainloop_signal m
run_meanwhile work m = or_same m (mainloop_thread_turn m)
run_meanwhile wake_up m = spurious m

unfoldable pub run_all : List Meanwhile → Mainloop → Mainloop
unfolding run_meanwhile
run_all [] m = m
run_all (x ∷ xs) m = run_all xs (run_meanwhile x m)

-- The calls on a main loop in any order. A stop of a loop that is not started does nothing; a start
-- of one that is started, which would leave its worker behind, is not made.
pub data Call : Type 0 where
  start : Bool → Call
  stop : ℕ → Call
  join : Call
  other : Meanwhile → Call

unfoldable pub run_call : Call → Mainloop → Mainloop
unfolding mainloop_start mainloop_stop mainloop_join run_meanwhile
run_call (start created) m = if m.started then m else (mainloop_start created m).1
run_call (stop t) m = if m.started then or_same m (mainloop_stop t m) else m
run_call join m = or_same m (mainloop_join m)
run_call (other x) m = run_meanwhile x m

unfoldable pub run_calls : List Call → Mainloop → Mainloop
unfolding run_call
run_calls [] m = m
run_calls (x ∷ xs) m = run_calls xs (run_call x m)
