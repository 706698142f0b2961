-- ===== src/Harness/Position.antt =====
-- On the case that reads the timing.
use spoton.Prelude.{
  ℕ, ◌+◌, ◌-◌, ◌*◌, ◌/◌, ◌≤◌, ◌<◌, ◌≡◌, refl, ap, sym, ◌∙◌, Bool, true, false, Option, none, some,
  [], ◌∷◌, arith, length,
}
use mathlib.Core.Path.{subst}
use spoton.Prelude.Int.{pos}
use spoton.Time.{Clock, vsink_now_us}
use spoton.Env.{Environ, vsink_env_ms}
use spoton.Env.Bounds.{vsink_env_ms-decimal}
use spoton.Decimal.{decimal_before}
use spoton.Ring.{ring_bytes_per_sec}
use spoton.Vsink.{Vsink, vsink_sync, vsink_settle}
use spoton.Shim.{Shim, Stream, Format, float32le}
use spoton.Stream.Timing.{Timing, refresh_timing, refresh_timing-told}
use spoton.Stream.Write.{FloatToS32}
use spoton.Stream.Write.Fits.{charged}
use spoton.Harness.{Harness, clock, test_env, update_timing}
use spoton.Harness.Begin.{new_sink, begin-At}
use spoton.Harness.Facts.{Ready, At, moved, synced, advance-At}
use spoton.Harness.Written.{CameBack, write_n-CameBack, test_end-Ready}
use spoton.Harness.Live.{
  Live, LiveBack, begin-Live, advance-Live, write_n-LiveBack, pop-all, popped-At, popped-Live,
}
use spoton.Harness.Passes.{Passed, both}
use spoton.Harness.Cases.{Case, after}
use spoton.Harness.Timed.{on_stream, timing_is, fresh_part, drained_part, read_index_case}

refreshed :
    (e : Environ) (c : Clock) (st : Stream) (g : Shim)
    → g.http_mode ≡ true
    → (refresh_timing e c st g).0
      ≡ record g { vsink = vsink_sync (vsink_now_us c) (vsink_env_ms e) g.vsink }
unfolding refresh_timing
refreshed e c st g p = rw (p) refl

-- The reading that a case wants is the one that the formula gives.
wanted :
    (st : Stream) (t : Timing) (fill q : ℕ)
    → t.read_index ≡ pos (st.bytes_written - (fill * 4 / 4 + q * 4 / 4))
    → t.sink_usec ≡ (fill + q) * 1_000_000 / ring_bytes_per_sec
    → fill + q ≤ st.bytes_written
    → timing_is st t fill q ≡ true
wanted st t fill q r u h = rw (r, u) (ground arith)

module _ {s : ℕ} {v : Vsink} {fill now ms m : ℕ} {h : Harness} (a : At s v fill now ms h)
    (l : Live s float32le m h) where
  timing-At : At s (vsink_sync now ms v) fill now ms (update_timing l.stream h).0
  unfolding update_timing
  timing-At =
      subst (λ g. At s (vsink_sync now ms v) fill now ms (record h { shim = g }))
        (sym (refreshed h.env (clock h) l.stream h.shim a.ready.http))
        (moved a _ _ refl refl refl (synced a))

  timing-Live : Live s float32le m (update_timing l.stream h).0
  unfolding update_timing
  timing-Live =
      subst (λ g. Live s float32le m (record h { shim = g }))
        (sym (refreshed h.env (clock h) l.stream h.shim a.ready.http))
        (record {
          stream = l.stream;
          live = l.live;
          format = l.format;
          written = l.written;
          quiet = l.quiet;
          alone = l.alone;
        })

  timing-wanted :
      (q : ℕ)
      → (vsink_sync now ms v).q_out ≡ q
      → 0 < ms
      → fill + q ≤ m
      → timing_is l.stream (update_timing l.stream h).1 fill q ≡ true
  unfolding update_timing
  timing-wanted q e on room =
      let k =
        refresh_timing-told h.env (clock h) l.stream h.shim a.ready.http
          (omega (arith, a.knob, on)) in
      let q_is : (vsink_sync (vsink_now_us (clock h)) (vsink_env_ms h.env) h.shim.vsink).q_out ≡ q =
        ap (λ v. v.q_out) (synced a) ∙ e in
      wanted l.stream (refresh_timing h.env (clock h) l.stream h.shim).1 fill q
        (k.0 ∙ rw (q_is, a.held, l.format) refl) (k.1 ∙ rw (q_is, a.held) refl)
        (omega (arith, room, l.written))

on_stream-Passed :
    (s : ℕ) (o : Option Stream) (st : Stream) (k : Stream → Option (Harness × Bool))
    → o ≡ some st
    → Passed s (k st)
    → Passed s (on_stream o k)
on_stream-Passed s o st k e p = subst (λ o. Passed s (on_stream o k)) (sym e) p

after-Live :
    {s : ℕ} {v : Vsink} {fill now ms m : ℕ} {fmt : Format} (o : Option Harness) (k : Case)
    → CameBack s v fill now ms o
    → LiveBack s fmt m o
    → ((h : Harness) → At s v fill now ms h → Live s fmt m h → Passed s (k h))
    → Passed s (after o k)
after-Live none k c l p = c
after-Live (some h) k c l p = p h c l

env-5000 : vsink_env_ms (test_env (some 5000)) ≡ 5000
unfolding decimal_before
env-5000 =
    vsink_env_ms-decimal (test_env (some 5000)) 5 (0 ∷ 0 ∷ 0 ∷ [])
      (omega arith, (omega arith, (omega arith, (omega arith, tt)))) (omega arith) refl

-- The sink behind the write of the case, and a second later.
abbrev filled : ℕ → Vsink
filled n = charged 7_000_000_000 5000 float32le 1_000_000 (new_sink 7_000_000_000 5000 true n)

abbrev played : ℕ → Vsink
played n = vsink_sync 7_001_000_000 5000 (filled n)

module _ (conv : FloatToS32) (four : (a b c d : ℕ) → length (conv a b c d) ≡ 4) (s : ℕ)
    (saved : Format) where
  fresh-Passed :
      (n : ℕ) (ok : Bool) (h : Harness)
      → ok ≡ true
      → At s (charged 7_001_000_000 5000 float32le 100_000 (played n)) 100_000 7_001_000_000 5000 h
      → Live s float32le 1_100_000 h
      → Passed s (fresh_part conv s saved ok h)
  unfolding fresh_part vsink_sync vsink_settle
  fresh-Passed n ok h e a l = on_stream-Passed s _ l.stream _ l.live (
    test_end-Ready (timing-At a l) float32le saved,
    both e (timing-wanted a l 747_200 refl (omega arith) (omega arith)),
  )

  drained-Passed :
      (n : ℕ) (h : Harness)
      → At s (filled n) 0 7_000_000_000 5000 h
      → Live s float32le 1_000_000 h
      → Passed s (drained_part conv s saved (h, 1_000_000))
  unfolding drained_part vsink_sync vsink_settle
  drained-Passed n h a l =
      let b = advance-At a 1000 in
      let k = advance-Live 1000 l in
      let t = timing-At b k in
      on_stream-Passed s _ k.stream _ k.live (
        after-Live _ _
          (write_n-CameBack t conv 100_000 25_000 four refl (omega arith) (omega arith))
          (write_n-LiveBack conv 100_000 25_000 t (timing-Live b k) four refl (omega arith)
            (omega arith))
          (λ w a' l'.
            fresh-Passed n _ w
              (both refl (timing-wanted b k 647_200 refl (omega arith) (omega arith))) a' l'))

  -- `read_index` and `sink_usec` are as the case wants them, from any state of the harness in which the
  -- stream lives and no flush waits for its disconnect.
  pub read_index-Passed :
      (h : Harness) (st : Stream)
      → Ready s h
      → h.shim.streams s ≡ some st
      → h.shim.flush_disconnect ≡ false
      → Passed s (read_index_case conv s saved h)
  unfolding read_index_case
  read_index-Passed h st r q e =
      let begun = begin-At s float32le (some 5000) 5000 false h env-5000 r in
      let l = begin-Live float32le (some 5000) false h st r q e in
      after-Live _ _
        (write_n-CameBack begun conv 1_000_000 250_000 four refl (omega arith) (omega arith))
        (write_n-LiveBack conv 1_000_000 250_000 begun l four refl (omega arith) (omega arith))
        (λ w a k.
          subst (λ p. Passed s (drained_part conv s saved p))
            (sym (pop-all a k 999_999 (omega arith)))
            (drained-Passed h.shim.vsink.suppressed _ (popped-At a k) (popped-Live a k)))
