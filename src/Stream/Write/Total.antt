-- ===== src/Stream/Write/Total.antt =====
-- What becomes of the bytes of a `pa_stream_write`, and of its charge of the sink.
use spoton.Prelude.{
  ℕ, ◌+◌, ◌-◌, ◌≤◌, ◌≡◌, refl, ap, Bool, true, false, Option, none, some, ltb, length-append, List,
  [], ◌∷◌, arith, ◌==◌, if◌then◌else◌, length,
}
use spoton.Time.{Clock, vsink_now_us}
use spoton.Env.{Environ, vsink_env_ms}
use spoton.Ring.{Ring}
use spoton.Stream.Write.Convert.{join}
use spoton.Ring.Push.{RingWrite, new_write, Other, run_others, Pushed, done, blocked, no_fuel}
use spoton.Ring.Valid.{IsValid, run_others-IsValid}
use spoton.Ring.Writer.{
  Balanced, ring_push-Balanced, run_others-SameCounters, offered, Ledger, Ledger-trans, Ledger-refl,
}
use spoton.Vsink.{Vsink, vsink_sync}
use spoton.Shim.{Shim, Format, s16le, s32le, float32le, other}
use spoton.Stream.{modify_stream}
use spoton.Stream.Write.{
  FloatToS32, batches, s16_to_s32, float_to_s32, Batch, ring_need, take_back, then_push, push_all,
  pushes, WriteResult, accepted, waiting, rejected, write_end, stream_write,
}

-- A write that has made its pushes, or waits in one of them, leaves a valid ring; none runs out of fuel.
abbrev pub Through : Pushed → Type 0
Through (done r w) = IsValid r
Through (blocked r rest w) = IsValid r
Through no_fuel = ⊥

pub Balanced-Through :
    (r : Ring) (n : ℕ) (w : Option RingWrite) (o : Pushed) → Balanced r n w o → Through o
Balanced-Through r n w (done r' w') b = b.0
Balanced-Through r n w (blocked r' rest w') b = b.0
Balanced-Through r n w no_fuel b = b

-- The other threads leave a writer's counters alone.
others_offered :
    (os : List Other) (r : Ring) (w : Option RingWrite)
    → (offered (run_others os r) ≡ offered r) × Ledger r w (run_others os r) w
others_offered os r none = (
  omega (
    arith,
    (run_others-SameCounters os r).pushed,
    (run_others-SameCounters os r).dropped,
    (run_others-SameCounters os r).flushed,
  ),
  tt,
)
others_offered os r (some w) = (
  omega (
    arith,
    (run_others-SameCounters os r).pushed,
    (run_others-SameCounters os r).dropped,
    (run_others-SameCounters os r).flushed,
  ),
  omega (
    arith,
    (run_others-SameCounters os r).pushed,
    (run_others-SameCounters os r).dropped,
    (run_others-SameCounters os r).flushed,
  ),
)

-- The pushes of `n` bytes so far: the ring is valid, and the bytes are in the ring's counters, all of
-- them or, while one push waits, some; what the call reports as lost is what the loss counters grew by.
abbrev pub Accounted : Ring → ℕ → Option RingWrite → Pushed → Type 0
Accounted r n w (done r' w') = IsValid r' × (offered r' ≡ offered r + n) × Ledger r w r' w'
Accounted r n w (blocked r' rest w') =
    IsValid r' × (offered r' + length rest ≤ offered r + n) × Ledger r w r' w'
Accounted r n w no_fuel = ⊥

Accounted-from :
    (r s : Ring) (n m : ℕ) (w u : Option RingWrite) (o : Pushed)
    → offered s + m ≡ offered r + n
    → Ledger r w s u
    → Accounted s m u o
    → Accounted r n w o
Accounted-from r s n m w u (done t v) e l (i, b, k) = (i, omega arith, Ledger-trans r s t w u v l k)
Accounted-from r s n m w u (blocked t rest v) e l (i, b, k) =
    (i, omega arith, Ledger-trans r s t w u v l k)
Accounted-from r s n m w u no_fuel e l h = h

then-Accounted :
    (r : Ring) (n m : ℕ) (w : Option RingWrite) (o : Pushed)
    (next : Ring → Option RingWrite → Pushed)
    → ((s : Ring) (u : Option RingWrite) → IsValid s → Accounted s m u (next s u))
    → Balanced r n w o
    → Accounted r (n + m) w (then_push o next)
then-Accounted r n m w (done s u) next h (i, b, l) =
    Accounted-from r s (n + m) m w u (next s u) (omega arith) l (h s u i)
then-Accounted r n m w (blocked s rest u) next h (i, b, l) = (i, omega arith, l)
then-Accounted r n m w no_fuel next h b = b

others-Accounted :
    (os : List Other) (r : Ring) (n : ℕ) (w : Option RingWrite) (o : Pushed)
    → Accounted (run_others os r) n w o
    → Accounted r n w o
others-Accounted os r n w o a =
    let k = others_offered os r w in
    Accounted-from r (run_others os r) n n w w o (omega (arith, k.0)) k.1 a

pub push_all-Accounted :
    (e : Environ) (c : Clock) (xss : List (List ℕ)) (ks : List Batch) (r : Ring)
    (w : Option RingWrite)
    → IsValid r
    → Accounted r (length (join xss)) w (push_all e c xss ks r w)
unfolding push_all
push_all-Accounted e c [] [] r w v = (v, omega arith, Ledger-refl r w)
push_all-Accounted e c [] (k ∷ ks) r w v =
    let l = others_offered k.before r w in (run_others-IsValid k.before v, omega (arith, l.0), l.1)
push_all-Accounted e c (xs ∷ rest) [] r w v = rw (length-append xs (join rest)) (
    then-Accounted r (length xs) (length (join rest)) w _ (push_all e c rest [])
      (push_all-Accounted e c rest [])
      (ring_push-Balanced (length xs + 1) e c [] r xs w v (omega arith)))
push_all-Accounted e c (xs ∷ rest) (k ∷ ks) r w v =
    let s = run_others k.before r in
    rw (length-append xs (join rest)) (
      others-Accounted k.before r (length xs + length (join rest)) w _ (
        then-Accounted s (length xs) (length (join rest)) w _ (push_all e c rest ks)
          (push_all-Accounted e c rest ks)
          (ring_push-Balanced (length xs + length k.wakes + 1) e k.at k.wakes s xs w
            (run_others-IsValid k.before v) (omega arith))))

pub Accounted-Through :
    (r : Ring) (n : ℕ) (w : Option RingWrite) (o : Pushed) → Accounted r n w o → Through o
Accounted-Through r n w (done r' w') a = a.0
Accounted-Through r n w (blocked r' rest w') a = a.0
Accounted-Through r n w no_fuel a = a

pub push_all-Through :
    (e : Environ) (c : Clock) (xss : List (List ℕ)) (ks : List Batch) (r : Ring)
    (w : Option RingWrite)
    → IsValid r
    → Through (push_all e c xss ks r w)
push_all-Through e c xss ks r w v =
    Accounted-Through r (length (join xss)) w _ (push_all-Accounted e c xss ks r w v)

-- The bytes that the ring's writers have lost so far.
abbrev pub lost : Ring → ℕ
lost r = r.drops_total + r.flushed_away

-- The answer to a write of `n` ring bytes, which has charged the sink to `v`. If it came back, each of
-- the bytes has been copied, refused or abandoned, and a sink that is on is given back the lost ones.
-- If it waits, no byte has been taken twice.
abbrev pub Answers : ℕ → Ring → ℕ → Vsink → WriteResult → Type 0
Answers ms r n v (accepted g) =
    IsValid g.ring
    × (offered g.ring ≡ offered r + n)
    × (g.vsink.q_out ≡ v.q_out - (if ltb 0 ms then lost g.ring - lost r else 0))
Answers ms r n v (waiting g) = IsValid g.ring × (offered g.ring ≤ offered r + n) × (g.vsink ≡ v)
Answers ms r n v rejected = ⊥

pub writers-IsValid : (n : ℕ) {r : Ring} → IsValid r → IsValid (record r { writers_in = n })
writers-IsValid n v = ground arith

take_back-lost :
    (ms k : ℕ) (r r' : Ring) (w : Option RingWrite) (v : Vsink)
    → Ledger r (some (new_write k)) r' w
    → (take_back ms w v).q_out ≡ v.q_out - (if ltb 0 ms then lost r' - lost r else 0)
take_back-lost ms k r r' none v l = absurd l
take_back-lost ms k r r' (some w) v l = ground arith

end-Answers :
    (ms : ℕ) (m : Vsink → Vsink) (s n k : ℕ) (r : Ring) (i : ℕ) (o : Pushed) (g : Shim)
    → Accounted r i (some (new_write k)) o
    → Answers ms r i (m g.vsink) (write_end ms m s n o g)
unfolding write_end modify_stream
end-Answers ms m s n k r i (done r' w) g (v, b, l) =
    (writers-IsValid (r'.writers_in - 1) v, b, take_back-lost ms k r r' w (m g.vsink) l)
end-Answers ms m s n k r i (blocked r' rest w) g (v, b, l) = (v, omega arith, refl)
end-Answers ms m s n k r i no_fuel g a = a

pub eq_zero : (n : ℕ) → (n == 0) ≡ true → n ≡ 0
eq_zero n e = ground arith

pub nothing_pushed :
    (conv : FloatToS32) (fmt : Format) (bytes : List ℕ)
    → length bytes ≡ 0
    → join (pushes conv fmt bytes) ≡ []
unfolding pushes batches s16_to_s32 float_to_s32
nothing_pushed conv s16le [] h = refl
nothing_pushed conv s32le [] h = refl
nothing_pushed conv float32le [] h = refl
nothing_pushed conv other [] h = refl
nothing_pushed conv fmt (x ∷ xs) h = absurd (omega arith)

answered :
    (ms : ℕ) (m : Vsink → Vsink) (s n k i : ℕ) (b : Bool) (o : Pushed) (g : Shim)
    → IsValid g.ring
    → (b ≡ true → i ≡ 0)
    → Accounted g.ring i (some (new_write k)) o
    → Answers ms g.ring i (m g.vsink) (write_end ms m s n (if b then done g.ring none else o) g)
unfolding write_end modify_stream
answered ms m s n k i true o g v z a =
    (writers-IsValid (g.ring.writers_in - 1) v, omega (arith, z refl), ground arith)
answered ms m s n k i false o g v z a = end-Answers ms m s n k g.ring i o g a

-- The sink behind the charge of a write; an empty one does not look at it.
abbrev pub charged_sink : Environ → Clock → Format → ℕ → Vsink → Vsink
charged_sink e c fmt n v =
    let synced = vsink_sync (vsink_now_us c) (vsink_env_ms e) v in
    let charged = record synced {
      q_out = if ltb 0 (vsink_env_ms e) then synced.q_out + ring_need fmt n else synced.q_out;
    } in
    if n == 0 then v else charged

-- On a valid ring `pa_stream_write` comes back or is found waiting in one of its pushes, whatever the
-- format, the bytes and the wake-ups are and whatever the other threads do between its pushes and
-- while one waits. If it comes back, the ring is valid, each of the bytes that it converts to has been
-- copied, refused or abandoned, by the ring's counters, and a sink that is on, which it had charged and
-- which the other threads then moved by `m`, is given back exactly those that were not copied. If it
-- waits, the ring is valid, no more bytes are accounted for than it was given, and nothing is given back.
pub stream_write-Answers :
    (conv : FloatToS32) (e : Environ) (c : Clock) (ks : List Batch) (m : Vsink → Vsink) (s : ℕ)
    (fmt : Format) (bytes : List ℕ) (g : Shim)
    → IsValid g.ring
    → Answers
        (vsink_env_ms e)
        g.ring
        (length (join (pushes conv fmt bytes)))
        (m (charged_sink e c fmt (length bytes) g.vsink))
        (stream_write conv e c ks m s fmt bytes g)
unfolding stream_write modify_stream
stream_write-Answers conv e c ks m s fmt bytes g v =
    let valid = writers-IsValid (g.ring.writers_in + 1) v in
    answered (vsink_env_ms e) m s (length bytes) g.ring.flush_epoch _ (length bytes == 0) _ _ valid
      (λ z. ap length (nothing_pushed conv fmt bytes (eq_zero (length bytes) z)))
      (push_all-Accounted e c (pushes conv fmt bytes) ks _ _ valid)
