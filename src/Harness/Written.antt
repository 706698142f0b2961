-- ===== src/Harness/Written.antt =====
-- What a write of the harness's silence does to a ring with room for it, and the end of a case.
use spoton.Prelude.{
  ℕ, ◌+◌, ◌*◌, ◌≤◌, ◌≡◌, refl, ap, sym, ◌∙◌, Option, none, some, List, [], tabulate,
  length-tabulate, arith, length, length-append, false,
}
use mathlib.Core.Path.{subst}
use spoton.Time.{vsink_now_us}
use spoton.Env.{vsink_env_ms}
use spoton.Ring.{ring_capacity}
use spoton.Ring.Queue.{length-contents}
use spoton.Ring.Fifo.{contents}
use spoton.Vsink.{Vsink}
use spoton.Shim.{Format, float32le}
use spoton.Stream.{modify_stream}
use spoton.Stream.Write.{FloatToS32, pushes, WriteResult, accepted, waiting, rejected, stream_write}
use spoton.Stream.Write.Convert.{join}
use spoton.Stream.Write.Fits.{charged, WroteAll, stream_write-WroteAll, length-pushes}
use spoton.Harness.{
  Harness, clock, test_env, test_cork, test_flush, ring_reset, test_ring_reset, came_back, write_n,
  test_end,
}
use spoton.Harness.Facts.{Ready, At, frozen, cork-At, flush-At, ask-At, ring_reset-IsValid}

-- The write came back, to a harness that is so.
abbrev pub CameBack : ℕ → Vsink → ℕ → ℕ → ℕ → Option Harness → Type 0
CameBack s v fill now ms none = ⊥
CameBack s v fill now ms (some h) = At s v fill now ms h

module _ {s : ℕ} {v : Vsink} {fill now ms : ℕ} {h : Harness} (a : At s v fill now ms h) where
  charged_alike :
      (fmt : Format) (n : ℕ)
      → charged (vsink_now_us (clock h)) (vsink_env_ms h.env) fmt n h.shim.vsink
        ≡ charged now ms fmt n v
  charged_alike fmt n = rw (frozen h, a.time, a.knob, a.sink) refl

  came_back-CameBack :
      (xs : List ℕ) (w : Vsink) (o : WriteResult)
      → WroteAll h.shim xs w o
      → CameBack s w (fill + length xs) now ms (came_back h o)
  came_back-CameBack xs w (accepted g) k = record {
    ready = record {
      valid = k.valid;
      size = k.capacity ∙ a.ready.size;
      http = k.mode ∙ a.ready.http;
      active = k.active ∙ a.ready.active;
    };
    sink = k.sink;
    held = omega (
      arith,
      a.held,
      length-contents g.ring,
      length-contents h.shim.ring,
      ap length k.bytes,
      length-append (contents h.shim.ring) xs,
    );
    time = a.time;
    knob = a.knob;
  }
  came_back-CameBack xs w (waiting g) k = k
  came_back-CameBack xs w rejected k = k

  -- A write of `n` zero bytes, whole float samples that fit.
  stored_length :
      (conv : FloatToS32) (n k : ℕ)
      → ((x y z t : ℕ) → length (conv x y z t) ≡ 4)
      → n ≡ k * 4
      → length (join (pushes conv float32le (tabulate n (λ i. 0)))) ≡ n
  stored_length conv n k four whole =
      length-pushes conv k (tabulate n (λ i. 0)) four (length-tabulate n (λ i. 0) ∙ whole)
      ∙ sym whole

  pub write_n-WroteAll :
      (conv : FloatToS32) (n k : ℕ)
      → ((x y z t : ℕ) → length (conv x y z t) ≡ 4)
      → n ≡ k * 4
      → 1 ≤ n
      → n + fill ≤ ring_capacity
      → WroteAll h.shim
          (join (pushes conv float32le (tabulate n (λ i. 0))))
          (charged now ms float32le n v)
          (stream_write conv h.env (clock h) [] (λ v. v) s float32le (tabulate n (λ i. 0)) h.shim)
  write_n-WroteAll conv n k four whole p fits =
      let zeros = tabulate n (λ i. 0) in
      let long : length zeros ≡ n = length-tabulate n (λ i. 0) in
      subst
        (λ w.
          WroteAll h.shim (join (pushes conv float32le zeros)) w
            (stream_write conv h.env (clock h) [] (λ v. v) s float32le zeros h.shim))
        (charged_alike float32le (length zeros) ∙ ap (λ m. charged now ms float32le m v) long)
        (stream_write-WroteAll conv h.env (clock h) s float32le zeros h.shim a.ready.valid
          (omega (arith, long, p))
          (omega (arith, stored_length conv n k four whole, a.held, a.ready.size, fits)))

  pub write_n-CameBack :
      (conv : FloatToS32) (n k : ℕ)
      → ((x y z t : ℕ) → length (conv x y z t) ≡ 4)
      → n ≡ k * 4
      → 1 ≤ n
      → n + fill ≤ ring_capacity
      → CameBack s (charged now ms float32le n v) (fill + n) now ms (write_n conv s float32le n h)
  unfolding write_n
  write_n-CameBack conv n k four whole p fits =
      subst
        (λ m.
          CameBack s (charged now ms float32le n v) (fill + m) now ms
            (write_n conv s float32le n h))
        (stored_length conv n k four whole)
        (came_back-CameBack _ _ _ (write_n-WroteAll conv n k four whole p fits))

  -- Behind a case another one can run.
  pub test_end-Ready : (fmt saved : Format) → Ready s (test_end s fmt saved h)
  unfolding test_end test_ring_reset ring_reset modify_stream
  test_end-Ready fmt saved =
      let flushed = flush-At (cork-At a false) in
      let off : At s _ 0 now _
          (record (test_flush (test_cork s false h)) { env = test_env (some 0) }) =
        record {
          ready = record {
            valid = flushed.ready.valid;
            size = flushed.ready.size;
            http = flushed.ready.http;
            active = flushed.ready.active;
          };
          sink = flushed.sink;
          held = flushed.held;
          time = flushed.time;
          knob = refl;
        } in
      let asked = (ask-At off fmt).ready in
      record {
        valid = ring_reset-IsValid asked.valid;
        size = asked.size;
        http = asked.http;
        active = asked.active;
      }
