-- ===== src/Stream/Write/Fits.antt =====
-- A write with room for all that it converts to: what it leaves, field by field.
use spoton.Prelude.{
  ℕ, zero, suc, ◌+◌, ◌-◌, ◌*◌, ◌≤◌, ◌≡◌, refl, ap, sym, ◌∙◌, Option, none, some, List, [], ◌∷◌,
  ◌++◌, arith, length, length-append, ltb, ◌==◌, if◌then◌else◌, Bool, true, false,
}
use mathlib.Core.Path.{subst}
use spoton.Time.{Clock, vsink_now_us}
use spoton.Env.{Environ, vsink_env_ms}
use spoton.Ring.Push.{RingWrite, new_write, Pushed, done, blocked, no_fuel}
use spoton.Ring.Valid.{IsValid}
use spoton.Ring.Fifo.{contents}
use spoton.Ring.Fits.{Stored}
use spoton.Vsink.{Vsink, vsink_sync}
use mathlib.Core.Option
use spoton.Shim.{Shim, Stream, update, Format, float32le}
use spoton.Stream.{modify_stream}
use spoton.Stream.Write.{
  FloatToS32, float_to_s32, pushes, push_all, ring_need, take_back, WriteResult, accepted, waiting,
  rejected, write_end, stream_write,
}
use spoton.Stream.Write.Convert.{join, join-batches}
use spoton.Stream.Write.Total.{Through, push_all-Through, writers-IsValid}
use spoton.Stream.Write.Stored.{push_all-Stored, own_epoch}

-- What a write of `n` input bytes charges: a sink that is on, for the ring bytes.
abbrev pub charged : ℕ → ℕ → Format → ℕ → Vsink → Vsink
charged now ms fmt n v =
    let read = vsink_sync now ms v in
    record read { q_out = if ltb 0 ms then read.q_out + ring_need fmt n else read.q_out }

-- The write came back: the bytes stand behind the others, the sink is charged, all else is kept.
pub record Wrote (g : Shim) (xs : List ℕ) (v : Vsink) (g' : Shim) : Type 0 where
  pub valid : IsValid g'.ring
  pub bytes : contents g'.ring ≡ contents g.ring ++ xs
  pub capacity : g'.ring.capacity ≡ g.ring.capacity
  pub sink : g'.vsink ≡ v
  pub mode : g'.http_mode ≡ g.http_mode
  pub active : g'.active_stream ≡ g.active_stream
  pub client : g'.ring.client_connected ≡ g.ring.client_connected
  pub disconnect : g'.flush_disconnect ≡ g.flush_disconnect

abbrev pub WroteAll : Shim → List ℕ → Vsink → WriteResult → Type 0
WroteAll g xs v (accepted g') = Wrote g xs v g'
WroteAll g xs v (waiting g') = ⊥
WroteAll g xs v rejected = ⊥

-- Each float sample of four bytes becomes one.
length-float_to_s32 :
    (conv : FloatToS32) (k : ℕ) (xs : List ℕ)
    → ((a b c d : ℕ) → length (conv a b c d) ≡ 4)
    → length xs ≡ k * 4
    → length (float_to_s32 conv xs) ≡ k * 4
unfolding float_to_s32
length-float_to_s32 conv zero [] four h = refl
length-float_to_s32 conv (suc k) (a ∷ b ∷ c ∷ d ∷ xs) four h = omega (
  arith,
  length-append (conv a b c d) (float_to_s32 conv xs),
  four a b c d,
  length-float_to_s32 conv k xs four (omega arith),
)
length-float_to_s32 conv zero (a ∷ xs) four h = absurd (omega arith)
length-float_to_s32 conv (suc k) [] four h = absurd (omega arith)
length-float_to_s32 conv (suc k) (a ∷ []) four h = absurd (omega arith)
length-float_to_s32 conv (suc k) (a ∷ b ∷ []) four h = absurd (omega arith)
length-float_to_s32 conv (suc k) (a ∷ b ∷ c ∷ []) four h = absurd (omega arith)

pub length-pushes :
    (conv : FloatToS32) (k : ℕ) (xs : List ℕ)
    → ((a b c d : ℕ) → length (conv a b c d) ≡ 4)
    → length xs ≡ k * 4
    → length (join (pushes conv float32le xs)) ≡ k * 4
unfolding pushes
length-pushes conv k xs four h =
    ap length (join-batches (length (float_to_s32 conv xs)) (float_to_s32 conv xs) (omega arith))
    ∙ length-float_to_s32 conv k xs four h

take_back-new : (ms w : ℕ) (v : Vsink) → take_back ms (some (new_write w)) v ≡ v
take_back-new ms w v = ground arith

end-WroteAll :
    (ms s n : ℕ) (g g' : Shim) (xs : List ℕ) (w : ℕ) (o : Pushed)
    → contents g'.ring ≡ contents g.ring
    → g'.ring.capacity ≡ g.ring.capacity
    → g'.http_mode ≡ g.http_mode
    → g'.active_stream ≡ g.active_stream
    → g'.ring.client_connected ≡ g.ring.client_connected
    → g'.flush_disconnect ≡ g.flush_disconnect
    → Stored g'.ring xs (some (new_write w)) o
    → Through o
    → WroteAll g xs g'.vsink (write_end ms (λ v. v) s n o g')
unfolding write_end modify_stream
end-WroteAll ms s n g g' xs w (done r' w') b c m a k d q t = record {
  valid = writers-IsValid (r'.writers_in - 1) t;
  bytes = q.0 ∙ ap (λ l. l ++ xs) b;
  capacity = q.2 ∙ c;
  sink = ap (λ o. take_back ms o g'.vsink) q.1 ∙ take_back-new ms w g'.vsink;
  mode = m;
  active = a;
  client = q.4 ∙ k;
  disconnect = d;
}
end-WroteAll ms s n g g' xs w (blocked r' rest w') b c m a k d q t = q
end-WroteAll ms s n g g' xs w no_fuel b c m a k d q t = q

some_bytes : {n : ℕ} → 1 ≤ n → (n == 0) ≡ false
some_bytes p = ground arith

-- On a valid ring with room for what the bytes convert to, a write that nothing interferes with comes
-- back with them stored and charged.
pub stream_write-WroteAll :
    (conv : FloatToS32) (e : Environ) (c : Clock) (s : ℕ) (fmt : Format) (bytes : List ℕ) (g : Shim)
    → IsValid g.ring
    → 1 ≤ length bytes
    → length (join (pushes conv fmt bytes)) + g.ring.fill ≤ g.ring.capacity
    → WroteAll g
        (join (pushes conv fmt bytes))
        (charged (vsink_now_us c) (vsink_env_ms e) fmt (length bytes) g.vsink)
        (stream_write conv e c [] (λ v. v) s fmt bytes g)
unfolding stream_write modify_stream
stream_write-WroteAll conv e c s fmt bytes g v p k =
    let r = record (g.ring) { writers_in = g.ring.writers_in + 1 } in
    let valid = writers-IsValid (g.ring.writers_in + 1) v in
    let w : Option RingWrite = some (new_write g.ring.flush_epoch) in
    let xs = join (pushes conv fmt bytes) in
    let sink = charged (vsink_now_us c) (vsink_env_ms e) fmt (length bytes) g.vsink in
    let o = push_all e c (pushes conv fmt bytes) [] r w in
    let after : Bool → Shim = λ b.
      record (modify_stream s (λ st. record st { has_started_cb = false }) g) {
        ring = r;
        vsink = if b then g.vsink else sink;
      } in
    subst
      (λ b. WroteAll g xs sink (
        write_end (vsink_env_ms e) (λ v. v) s (length bytes) (if b then done r none else o)
          (after b)))
      (sym (some_bytes p))
      (end-WroteAll (vsink_env_ms e) s (length bytes) g (after false) xs g.ring.flush_epoch o refl
        refl refl refl refl refl
        (push_all-Stored e c (pushes conv fmt bytes) r w valid k (own_epoch g.ring _))
        (push_all-Through e c (pushes conv fmt bytes) [] r w valid))

-- What a write that came back counted on its stream.
abbrev pub count : ℕ → Stream → Stream
count n st = record st { bytes_written = st.bytes_written + n; has_started_cb = false }

abbrev pub CountedIn : ℕ → Stream → WriteResult → Type 0
CountedIn s st (accepted g) = g.streams s ≡ some st
CountedIn s st (waiting g) = Unit {0}
CountedIn s st rejected = Unit {0}

here : (s : ℕ) → (s == s) ≡ true
here s = ground arith

pub update-here :
    (f : ℕ → Option Stream) (h : Stream → Stream) (s : ℕ) (st : Stream)
    → f s ≡ some st
    → update f s (Option.map h (f s)) s ≡ some (h st)
update-here f h s st q = rw (here s, q) refl

write_end-CountedIn :
    (ms s n : ℕ) (st : Stream) (o : Pushed) (g : Shim)
    → g.streams s ≡ some st
    → CountedIn s
        (record st { bytes_written = st.bytes_written + n })
        (write_end ms (λ v. v) s n o g)
unfolding write_end modify_stream
write_end-CountedIn ms s n st (done r w) g q = update-here g.streams _ s st q
write_end-CountedIn ms s n st (blocked r rest w) g q = tt
write_end-CountedIn ms s n st no_fuel g q = tt

pub stream_write-CountedIn :
    (conv : FloatToS32) (e : Environ) (c : Clock) (s : ℕ) (fmt : Format) (bytes : List ℕ)
    (st : Stream) (g : Shim)
    → g.streams s ≡ some st
    → CountedIn s (count (length bytes) st) (stream_write conv e c [] (λ v. v) s fmt bytes g)
unfolding stream_write modify_stream
stream_write-CountedIn conv e c s fmt bytes st g q =
    write_end-CountedIn (vsink_env_ms e) s (length bytes) (record st { has_started_cb = false }) _ _
      (update-here g.streams _ s st q)
