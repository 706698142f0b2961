-- ===== src/Tests/Fixtures.antt =====
-- The small inputs that the runs share.
use spoton.Prelude.{ℕ, ◌+◌, ◌*◌, true, false, none, some, List, [], ◌∷◌, arith, Memory}
use spoton.Time.{Clock, lp64}
use spoton.Env.{Environ}
use spoton.Ring.{Ring, ring_init}
use spoton.Ring.Push.{Wake, pop}
use spoton.Ring.Valid.{IsValid}
use spoton.Request.{Pending, would_block}
use spoton.Shim.{Shim, start}
use spoton.Http.Loop.{Http, quiet}
use spoton.Http.Pass.{PassInput}

-- The clocks at a second and a millisecond.
abbrev pub at : ℕ → ℕ → Clock
at s ms = record {
  wall = record { sec = s; usec = ms * 1000 };
  mono_sec = s;
  mono_nsec = ms * 1_000_000;
}

-- No variable is set.
abbrev pub unset : Environ
unset v = none

-- Byte i of the block is i + 10.
abbrev pub block : Memory
block i = i + 10

-- Two bytes round the end of four, 13 and 10, for an attached client.
abbrev pub two : Ring
two = record (ring_init block) {
  capacity = 4;
  head = 1;
  tail = 3;
  fill = 2;
  total_pushed = 9;
  total_popped = 7;
  client_connected = true;
}

abbrev pub full : Ring
full = record two { head = 3; fill = 4; total_pushed = 11 }

-- The hold stands at the read cursor.
abbrev pub held : Ring
held = record two { hold_at = some 7; hold_since_ms = 5000 }

-- A pop that makes room, and no deadline.
abbrev pub pop_one : Wake
pop_one = record {
  others = pop (at 5 0) false 1 ∷ [];
  clock = at 5 0;
  etimedout = false;
  took_ms = 20;
}

abbrev pub shim : Ring → Shim
shim r = record (start lp64 true block) { ring = r; client_generation = 3 }

abbrev pub request : List ℕ → Pending
request text = record {
  fd = some 9;
  buf = text;
  len = 40;
  started = record { sec = 1; usec = 0 };
  from_loopback = true;
}

abbrev pub attached : Shim → Http
attached g = record { shim = g; client_fd = some 7; pending = record (request []) { fd = none } }

pub two-IsValid : IsValid two
unfolding ring_init
two-IsValid = ground arith

pub full-IsValid : IsValid full
unfolding ring_init
full-IsValid = ground arith

pub held-IsValid : IsValid held
unfolding ring_init
held-IsValid = ground arith

-- A pass that meets nothing.
abbrev pub idle : PassInput
idle = record {
  daemon = [];
  top_at = at 1 100;
  slot_read = would_block;
  queued = [];
  queued_again = [];
  close_at = at 1 100;
  polling = [];
  arrival = none;
  polled = quiet;
  dispatch_at = at 1 500;
  header = [];
  drain_at = at 1 500;
  turns = [];
  orphan_ms = 180_000;
  underrun_at = at 1 500;
}
