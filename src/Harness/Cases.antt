-- ===== src/Harness/Cases.antt =====
-- The cases themselves: the calls that `main` makes and the readings that it compares. A case is none
-- where a call of it does not come back.
use spoton.Prelude.{
  ℕ, ◌-◌, ◌*◌, ◌/◌, min, Bool, true, false, ◌&&◌, Option, none, some, List, [], ◌∷◌, ◌==◌,
}
use spoton.Env.{vsink_ms_default}
use spoton.Ring.{ring_capacity}
use spoton.Shim.{Format, float32le}
use spoton.Stream.{ring_write_margin}
use spoton.Stream.Write.{FloatToS32}
use spoton.Harness.{Harness, advance_ms, test_cork, test_flush, test_begin, write_n, ask, test_end}

abbrev pub Case : Type 0
Case = Harness → Option (Harness × Bool)

-- What follows a write, if it comes back.
abbrev pub after : Option Harness → Case → Option (Harness × Bool)
after none k = none
after (some h) k = k h

-- `(size_t)RING_CAPACITY - _test_fill() - _TEST_WRITE_MARGIN`.
abbrev pub real_max : Harness → ℕ
real_max h = ring_capacity - h.shim.ring.fill - ring_write_margin

-- A run passes if the part before it and the part behind it do.
abbrev pub with_verdict : Bool → Option (Harness × Bool) → Option (Harness × Bool)
with_verdict ok none = none
with_verdict ok (some (h, rest_ok)) = some (h, ok && rest_ok)

-- The next cases, if the last one came back.
abbrev pub then_rest : Option (Harness × Bool) → Case → Option (Harness × Bool)
then_rest none k = none
then_rest (some (h, ok)) k = with_verdict ok (k h)

module _ (conv : FloatToS32) (s : ℕ) (saved : Format) where
  -- `writable_size` on a corked stream, then uncorked.
  unfoldable pub writable_case : Case
  writable_case h =
      let before = ask float32le (test_begin s float32le (some 1000) true h) in
      after (write_n conv s float32le 352_800 before.0) (λ written.
        let full = ask float32le written in
        let waited = ask float32le (advance_ms 2000 full.0) in
        let played = ask float32le (advance_ms 250 (test_cork s false waited.0)) in
        let done = ask float32le (advance_ms 2000 played.0) in
        some (
          test_end s float32le saved done.0,
          before.1 == 352_800
              && (full.1 == 0
                  && (waited.1 == 0
                      && (played.1 == 88_200 && done.1 == min (real_max done.0) 352_800))),
        ))

  -- The drain clock restarts on every cork change.
  unfoldable pub uncork_case : Case
  uncork_case h =
      after (write_n conv s float32le 3_528_000 (test_begin s float32le (some 10_000) true h))
        (λ written.
          let uncorked = test_cork s false (advance_ms 5000 written) in
          let read = ask float32le (advance_ms 250 uncorked) in
          some (test_end s float32le saved read.0, read.1 == 88_200))

  -- A flush empties the virtual sink and the ring.
  unfoldable pub flush_case : Case
  flush_case h =
      after (write_n conv s float32le 176_400 (test_begin s float32le (some 1000) true h))
        (λ written.
          let before = ask float32le written in
          let flushed = ask float32le (test_flush before.0) in
          some (
            test_end s float32le saved flushed.0,
            before.1 == 176_400 && flushed.1 == min (real_max flushed.0) 352_800,
          ))

  -- A large T never lets the size exceed the real free space less the reserve.
  unfoldable pub large_case : Case
  large_case h =
      after (write_n conv s float32le 3_000_000 (test_begin s float32le (some 20_000) true h))
        (λ written.
          let read = ask float32le written in
          some (
            test_end s float32le saved read.0,
            read.1 == ring_capacity - 3_000_000 - ring_write_margin,
          ))

  -- T 0 keeps the contract of the ring alone.
  unfoldable pub zero_case : Case
  zero_case h =
      after (write_n conv s float32le 100_000 (test_begin s float32le (some 0) true h)) (λ written.
        let read = ask float32le written in
        some (
          test_end s float32le saved read.0,
          read.1 == ring_capacity - 100_000 - ring_write_margin,
        ))

  -- The default T applies when the environment has none: the two readings.
  unfoldable pub default_bytes : ℕ
  default_bytes = vsink_ms_default * 352_800 / 1000

  unfoldable pub default_case : Case
  unfolding default_bytes
  default_case h =
      after (write_n conv s float32le default_bytes (test_begin s float32le none true h)) (λ w1.
        let unset = ask float32le w1 in
        after
          (write_n conv s float32le default_bytes (
            test_begin s float32le (some vsink_ms_default) true
              (test_end s float32le saved unset.0)))
          (λ w2.
            let set = ask float32le w2 in
            some (test_end s float32le saved set.0, unset.1 == set.1 && unset.1 == 0)))

  abbrev pub cases : List Case
  cases = writable_case ∷ uncork_case ∷ flush_case ∷ large_case ∷ zero_case ∷ default_case ∷ []

-- The cases in turn, and whether none of them failed.
unfoldable pub run_cases : List Case → Case
run_cases [] h = some (h, true)
run_cases (c ∷ cs) h = then_rest (c h) (run_cases cs)
