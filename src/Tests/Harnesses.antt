-- ===== src/Tests/Harnesses.antt =====
-- Runs of the harness's virtual-sink cases.
use spoton.Prelude.{◌≡◌, refl, some, [], ◌∷◌, arith}
use spoton.Ring.{Ring, ring_init, ring_capacity}
use spoton.Ring.Valid.{IsValid}
use spoton.Stream.{stream_new}
use spoton.Stream.Write.{FloatToS32}
use spoton.Shim.{float32le}
use spoton.Harness.{Harness}
use spoton.Harness.Facts.{Ready}
use spoton.Harness.Passes.{env-1000}
use spoton.Harness.Uncorked.{told_uncorked, told_uncorked-rate}
use spoton.Tests.Fixtures.{unset, two, shim}

abbrev silence : FloatToS32
silence a b c d = 0 ∷ 0 ∷ 0 ∷ 0 ∷ []

-- A ring of the library's size that holds two bytes.
abbrev roomy : Ring
roomy = record two { capacity = ring_capacity; head = 5 }

roomy-IsValid : IsValid roomy
unfolding ring_init
roomy-IsValid = ground arith

-- The stream 1 is the active one.
abbrev bench : Harness
bench = record {
  shim = record (stream_new 1 float32le (shim roomy)) { active_stream = some 1 };
  env = unset;
  clock_us = 0;
  wall = record { sec = 1; usec = 0 };
}

bench-Ready : Ready 1 bench
unfolding stream_new ring_init
bench-Ready = record { valid = roomy-IsValid; size = refl; http = refl; active = refl }

-- Five seconds corked and 250 ms uncorked: a full sink of one second has played 88200 bytes.
told_uncorked-rate_example :
    told_uncorked silence 1 (some 1000) 352_800 5000 250 bench ≡ some 88_200
told_uncorked-rate_example =
    told_uncorked-rate silence 1 (some 1000) 1000 88_200 5000 250 bench (λ a b c d. refl)
      bench-Ready env-1000 (omega arith) (omega arith) (omega arith) (omega arith)
