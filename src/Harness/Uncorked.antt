-- ===== src/Harness/Uncorked.antt =====
-- The drain clock in general: `main` writes into a corked sink, waits, uncorks it, waits and asks.
use spoton.Prelude.{
  ℕ, ◌+◌, ◌-◌, ◌*◌, ◌/◌, ◌≤◌, ◌≡◌, refl, ap, ap₂, ◌∙◌, min, Bool, true, false, Option, none, some,
  arith, length,
}
use spoton.Env.{vsink_env_ms}
use spoton.Ring.{ring_capacity, ring_bytes_per_sec}
use spoton.Vsink.{Vsink, vsink_sync, vsink_settle, vsink_set_running}
use spoton.Shim.{float32le}
use spoton.Stream.{ring_write_margin, sink_room}
use spoton.Stream.Write.{FloatToS32}
use spoton.Stream.Write.Fits.{charged}
use spoton.Harness.{Harness, test_env, advance_ms, test_cork, test_begin, write_n, ask}
use spoton.Harness.Begin.{new_sink, begin-At}
use spoton.Harness.Facts.{Ready, At, told, advance-At, cork-At, ask-told}
use spoton.Harness.Written.{CameBack, write_n-CameBack}

-- What the daemon is told: none where the write does not come back.
abbrev pub read_after : Option Harness → (Harness → Harness × ℕ) → Option ℕ
read_after none k = none
read_after (some h) k = some (k h).1

-- `n` bytes into a corked sink, `wait` milliseconds, the uncork, `play` milliseconds, and the reading.
unfoldable pub told_uncorked : FloatToS32 → ℕ → Option ℕ → ℕ → ℕ → ℕ → Harness → Option ℕ
told_uncorked conv s ms n wait play h =
    read_after (write_n conv s float32le n (test_begin s float32le ms true h))
      (λ w. ask float32le (advance_ms play (test_cork s false (advance_ms wait w))))

-- A sink that was last read at `now`.
abbrev holding : ℕ → ℕ → ℕ → Bool → ℕ → Vsink
holding now n ms running m = record {
  q_out = n;
  frac = 0;
  last_us = now;
  running = running;
  t_ms = ms;
  suppressed = m;
}

sync-stopped :
    (now now' ms n m : ℕ)
    → 1 ≤ ms
    → vsink_sync now' ms (holding now n ms false m) ≡ holding now' n ms false m
unfolding vsink_sync vsink_settle
sync-stopped now now' ms n m h = ground arith

charged-new :
    (now ms n m : ℕ)
    → 1 ≤ ms
    → charged now ms float32le n (new_sink now ms false m) ≡ holding now n ms false m
unfolding vsink_sync vsink_settle
charged-new now ms n m h = ground arith

started :
    (now ms n m : ℕ)
    → 1 ≤ ms
    → vsink_set_running now true (holding now n ms false m) ≡ holding now n ms true m
unfolding vsink_set_running
started now ms n m h = ground arith

-- It plays `ring_bytes_per_sec` bytes a second.
played :
    (now ms n m play : ℕ)
    → 1 ≤ now
    → 1 ≤ ms
    → play ≤ 100_000
    → (vsink_sync (now + play * 1000) ms (holding now n ms true m)).q_out
      ≡ n - play * ring_bytes_per_sec / 1000
unfolding vsink_sync vsink_settle
played now ms n m play p h k = ground arith

-- The sink at the reading.
sink_uncorked : ℕ → ℕ → ℕ → ℕ → ℕ → ℕ → Vsink
sink_uncorked now ms n m wait play =
    let corked =
      vsink_sync (now + wait * 1000) ms (charged now ms float32le n (new_sink now ms false m)) in
    vsink_sync (now + wait * 1000 + play * 1000) ms
      (vsink_set_running (now + wait * 1000) true corked)

left_uncorked :
    (now ms n m wait play : ℕ)
    → 1 ≤ now
    → 1 ≤ ms
    → play ≤ 100_000
    → (sink_uncorked now ms n m wait play).q_out ≡ n - play * ring_bytes_per_sec / 1000
unfolding sink_uncorked
left_uncorked now ms n m wait play p h k =
    let at = now + wait * 1000 in
    ap (λ v. (vsink_sync (at + play * 1000) ms (vsink_set_running at true v)).q_out)
      (ap (vsink_sync at ms) (charged-new now ms n m h) ∙ sync-stopped now at ms n m h)
    ∙ ap (λ v. (vsink_sync (at + play * 1000) ms v).q_out) (started at ms n m h)
    ∙ played at ms n m play (omega arith) h k

told-on :
    (ms fill : ℕ) (v : Vsink)
    → 1 ≤ ms
    → told ms fill v float32le
      ≡ min (ring_capacity - fill - ring_write_margin) (ms * ring_bytes_per_sec / 1000 - v.q_out)
unfolding told sink_room
told-on ms fill v h = ground arith

read_told :
    {s : ℕ} {v : Vsink} {fill now ms n : ℕ} (o : Option Harness) (k : Harness → Harness × ℕ)
    → CameBack s v fill now ms o
    → ((h : Harness) → At s v fill now ms h → (k h).1 ≡ n)
    → read_after o k ≡ some n
read_told none k c p = absurd c
read_told (some h) k c p = ap some (p h c)

-- A case of the virtual sink from any state of the harness whose stream is the active one, in HTTP
-- mode, on a valid ring of the library's size: with the sink on, a write of whole float samples that
-- the ring holds into a corked stream comes back; and once the stream is uncorked, however
-- long it stood corked, and has played for at most 100 s, `pa_stream_writable_size` is what is free in
-- the ring less the reserve, or if that is less, the sink's depth less what the sink still holds: what
-- was written less 352800 bytes a second since the uncork.
pub told_uncorked-rate :
    (conv : FloatToS32) (s : ℕ) (ms : Option ℕ) (t k wait play : ℕ) (h : Harness)
    → ((a b c d : ℕ) → length (conv a b c d) ≡ 4)
    → Ready s h
    → vsink_env_ms (test_env ms) ≡ t
    → 1 ≤ t
    → 1 ≤ k
    → k * 4 ≤ ring_capacity
    → play ≤ 100_000
    → told_uncorked conv s ms (k * 4) wait play h
      ≡ some (
          min
            (ring_capacity - k * 4 - ring_write_margin)
            (t * ring_bytes_per_sec / 1000 - (k * 4 - play * ring_bytes_per_sec / 1000)))
unfolding told_uncorked sink_uncorked
told_uncorked-rate conv s ms t k wait play h four r e on p q short =
    let now : ℕ = 7_000_000_000 in
    let n = k * 4 in
    let told_then : (w : Harness)
        → At s (charged now t float32le n (new_sink now t false h.shim.vsink.suppressed)) (0 + n)
            now t w
        → (ask float32le (advance_ms play (test_cork s false (advance_ms wait w)))).1
          ≡ min (ring_capacity - n - ring_write_margin)
              (t * ring_bytes_per_sec / 1000 - (n - play * ring_bytes_per_sec / 1000)) =
      λ w a.
        ask-told (advance-At (cork-At (advance-At a wait) false) play) float32le
        ∙ told-on t (0 + n) _ on
        ∙ ap₂
            (λ fill held.
              min (ring_capacity - fill - ring_write_margin) (t * ring_bytes_per_sec / 1000 - held))
            (omega arith)
            (left_uncorked now t n h.shim.vsink.suppressed wait play (omega arith) on short) in
    read_told _ _
      (write_n-CameBack (begin-At s float32le ms t true h e r) conv n k four refl (omega arith)
        (omega arith))
      told_then
