-- ===== src/Harness/Passes.antt =====
-- On the cases: each of them, and all of them in turn.
use spoton.Prelude.{
  ℕ, ◌+◌, ◌-◌, ◌*◌, ◌≤◌, ◌≡◌, refl, ap, min, Bool, true, false, ◌&&◌, Option, none, some, [], ◌∷◌,
  ◌==◌, arith, length,
}
use spoton.Env.{vsink_env_ms}
use spoton.Env.Bounds.{vsink_env_ms-decimal, vsink_env_ms-none}
use spoton.Decimal.{decimal_before}
use spoton.Ring.{ring_capacity}
use spoton.Vsink.{Vsink, vsink_sync, vsink_settle, vsink_set_running, vsink_reset}
use spoton.Shim.{Format, float32le}
use spoton.Stream.{ring_write_margin, sink_room}
use spoton.Stream.Write.{FloatToS32}
use spoton.Harness.{Harness, test_env, write_n, test_begin}
use spoton.Stream.Write.Fits.{charged}
use spoton.Harness.Begin.{new_sink, begin-At}
use spoton.Harness.Facts.{Ready, At, told, advance-At, cork-At, ask-At, ask-told, flush-At}
use spoton.Harness.Written.{CameBack, write_n-CameBack, test_end-Ready}
use spoton.Harness.Cases.{
  Case, after, real_max, writable_case, uncork_case, flush_case, large_case, zero_case,
  default_case, default_bytes, cases, with_verdict, then_rest, run_cases,
}

-- A case came back, found what it wanted, and left a harness for the next one.
abbrev pub Passed : ℕ → Option (Harness × Bool) → Type 0
Passed s none = ⊥
Passed s (some (h, ok)) = Ready s h × (ok ≡ true)

abbrev Passes : ℕ → Case → Type 0
Passes s c = (h : Harness) → Ready s h → Passed s (c h)

after-Passed :
    {s : ℕ} {v : Vsink} {fill now ms : ℕ} (o : Option Harness) (k : Case)
    → CameBack s v fill now ms o
    → ((h : Harness) → At s v fill now ms h → Passed s (k h))
    → Passed s (after o k)
after-Passed none k c p = c
after-Passed (some h) k c p = p h c

equal : {m n k : ℕ} → m ≡ k → n ≡ k → (m == n) ≡ true
equal p q = ground arith

pub both : {a b : Bool} → a ≡ true → b ≡ true → (a && b) ≡ true
both p q = ground arith

-- A number of one digit and `zeros` as the harness prints it is the T that the shim reads.
pub env-1000 : vsink_env_ms (test_env (some 1000)) ≡ 1000
unfolding decimal_before
env-1000 =
    vsink_env_ms-decimal (test_env (some 1000)) 1 (0 ∷ 0 ∷ 0 ∷ [])
      (omega arith, (omega arith, (omega arith, (omega arith, tt)))) (omega arith) refl

env-3000 : vsink_env_ms (test_env (some 3000)) ≡ 3000
unfolding decimal_before
env-3000 =
    vsink_env_ms-decimal (test_env (some 3000)) 3 (0 ∷ 0 ∷ 0 ∷ [])
      (omega arith, (omega arith, (omega arith, (omega arith, tt)))) (omega arith) refl

env-10000 : vsink_env_ms (test_env (some 10_000)) ≡ 10_000
unfolding decimal_before
env-10000 =
    vsink_env_ms-decimal (test_env (some 10_000)) 1 (0 ∷ 0 ∷ 0 ∷ 0 ∷ [])
      (omega arith, (omega arith, (omega arith, (omega arith, (omega arith, tt))))) (omega arith)
      refl

env-20000 : vsink_env_ms (test_env (some 20_000)) ≡ 20_000
unfolding decimal_before
env-20000 =
    vsink_env_ms-decimal (test_env (some 20_000)) 2 (0 ∷ 0 ∷ 0 ∷ 0 ∷ [])
      (omega arith, (omega arith, (omega arith, (omega arith, (omega arith, tt))))) (omega arith)
      refl

env-0 : vsink_env_ms (test_env (some 0)) ≡ 0
unfolding decimal_before
env-0 = vsink_env_ms-decimal (test_env (some 0)) 0 [] (omega arith, tt) (omega arith) refl

ok_then :
    (s : ℕ) {ok : Bool} (o : Option (Harness × Bool))
    → ok ≡ true
    → Passed s o
    → Passed s (with_verdict ok o)
ok_then s none e p = p
ok_then s (some (h, rest_ok)) e p = (p.0, both e p.1)

verdicts-Passed :
    (s : ℕ) (o : Option (Harness × Bool)) (k : Case)
    → Passed s o
    → Passes s k
    → Passed s (then_rest o k)
verdicts-Passed s none k p q = p
verdicts-Passed s (some (h, ok)) k p q = ok_then s (k h) p.1 (q h p.0)

max-At :
    {s : ℕ} {v : Vsink} {fill now ms : ℕ} {h : Harness}
    → At s v fill now ms h
    → min (real_max h) 352_800 ≡ min (ring_capacity - fill - ring_write_margin) 352_800
max-At a = ap (λ n. min (ring_capacity - n - ring_write_margin) 352_800) a.held

module _ (conv : FloatToS32) (four : (a b c d : ℕ) → length (conv a b c d) ≡ 4) (s : ℕ)
    (saved : Format) where
  -- A case that begins with a corked sink of `t` milliseconds and writes `4 * k` bytes.
  begun :
      (ms : Option ℕ) (t k : ℕ) (h : Harness) (c : Case)
      → vsink_env_ms (test_env ms) ≡ t
      → Ready s h
      → 1 ≤ k
      → k * 4 ≤ ring_capacity
      → ((h' : Harness)
          → At s
              (charged 7_000_000_000 t float32le
                (k * 4)
                (new_sink 7_000_000_000 t false h.shim.vsink.suppressed))
              (0 + k * 4)
              7_000_000_000
              t
              h'
          → Passed s (c h'))
      → Passed s (after (write_n conv s float32le (k * 4) (test_begin s float32le ms true h)) c)
  begun ms t k h c e r p q next =
      after-Passed _ c
        (write_n-CameBack (begin-At s float32le ms t true h e r) conv (k * 4) k four refl
          (omega arith) (omega arith))
        next

  uncork-Passes : Passes s (uncork_case conv s saved)
  unfolding uncork_case told sink_room vsink_sync vsink_settle vsink_set_running
  uncork-Passes h r =
      begun (some 10_000) 10_000 882_000 h _ env-10000 r (omega arith) (omega arith) (λ w a.
        let b = advance-At (cork-At (advance-At a 5000) false) 250 in
        (test_end-Ready (ask-At b float32le) float32le saved, equal (ask-told b float32le) refl))

  flush-Passes : Passes s (flush_case conv s saved)
  unfolding flush_case told sink_room vsink_sync vsink_settle vsink_reset
  flush-Passes h r =
      begun (some 1000) 1000 44_100 h _ env-1000 r (omega arith) (omega arith) (λ w a.
        let b = flush-At (ask-At a float32le) in
        let c = ask-At b float32le in
        (
          test_end-Ready c float32le saved,
          both (equal (ask-told a float32le) refl) (equal (ask-told b float32le) (max-At c)),
        ))

  large-Passes : Passes s (large_case conv s saved)
  unfolding large_case told sink_room vsink_sync vsink_settle
  large-Passes h r =
      begun (some 20_000) 20_000 750_000 h _ env-20000 r (omega arith) (omega arith) (λ w a.
        (test_end-Ready (ask-At a float32le) float32le saved, equal (ask-told a float32le) refl))

  zero-Passes : Passes s (zero_case conv s saved)
  unfolding zero_case told
  zero-Passes h r = begun (some 0) 0 25_000 h _ env-0 r (omega arith) (omega arith) (λ w a.
      (test_end-Ready (ask-At a float32le) float32le saved, equal (ask-told a float32le) refl))

  writable-Passes : Passes s (writable_case conv s saved)
  unfolding writable_case told sink_room vsink_sync vsink_settle vsink_set_running
  writable-Passes h r =
      let empty = begin-At s float32le (some 1000) 1000 true h env-1000 r in
      after-Passed _ _
        (write_n-CameBack (ask-At empty float32le) conv 352_800 88_200 four refl (omega arith)
          (omega arith))
        (λ w a.
          let waited = advance-At (ask-At a float32le) 2000 in
          let played = advance-At (cork-At (ask-At waited float32le) false) 250 in
          let done = advance-At (ask-At played float32le) 2000 in
          let last = ask-At done float32le in
          (
            test_end-Ready last float32le saved,
            both (equal (ask-told empty float32le) refl) (
                both (equal (ask-told a float32le) refl) (
                  both (equal (ask-told waited float32le) refl) (
                    both (equal (ask-told played float32le) refl)
                      (equal (ask-told done float32le) (max-At last))))),
          ))

  default-Passes : Passes s (default_case conv s saved)
  unfolding default_case default_bytes told sink_room vsink_sync vsink_settle
  default-Passes h r =
      begun none 3000 264_600 h _ (vsink_env_ms-none (test_env none) refl) r (omega arith)
        (omega arith)
        (λ w1 a.
          begun (some 3000) 3000 264_600 _ _ env-3000
            (test_end-Ready (ask-At a float32le) float32le saved) (omega arith) (omega arith)
            (λ w2 b. (
              test_end-Ready (ask-At b float32le) float32le saved,
              both (equal (ask-told a float32le) (ask-told b float32le))
                  (equal (ask-told a float32le) refl),
            )))

  -- The cases of `main`, in turn, from any state of the harness: each call of theirs comes back, and
  -- every reading is the one that the case wants.
  pub cases-Passed : Passes s (run_cases (cases conv s saved))
  unfolding run_cases
  cases-Passed h r = verdicts-Passed s _ _ (writable-Passes h r) (λ h r.
      verdicts-Passed s _ _ (uncork-Passes h r) (λ h r.
        verdicts-Passed s _ _ (flush-Passes h r) (λ h r.
          verdicts-Passed s _ _ (large-Passes h r) (λ h r.
            verdicts-Passed s _ _ (zero-Passes h r)
              (λ h r. verdicts-Passed s _ _ (default-Passes h r) (λ h r. (r, refl)))))))
