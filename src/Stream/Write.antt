-- ===== src/Stream/Write.antt =====
-- Plugins/SpotOn/Bin/fake-libpulse/fake-libpulse.c: `_convert_and_push` and `pa_stream_write` in HTTP
-- mode. The conversion of one float sample needs floating point and is an argument.
pub mod Convert
pub mod Total
pub mod Stored
pub mod Fits
use spoton.Prelude.{
  ℕ, zero, suc, ◌+◌, ◌-◌, ◌*◌, ◌/◌, Bool, true, false, not, ◌&&◌, ◌||◌, Option, none, some, List,
  [], ◌∷◌, ◌++◌, ltb, ◌==◌, if◌then◌else◌, length, take, drop,
}
use spoton.Time.{Clock, vsink_now_us}
use spoton.Env.{Environ, vsink_env_ms}
use spoton.Ring.{Ring}
use spoton.Ring.Push.{
  RingWrite, new_write, Other, run_others, Wake, Pushed, done, blocked, no_fuel, ring_push,
}
use spoton.Vsink.{Vsink, vsink_sync}
use spoton.Shim.{Shim, Stream, Format, s16le, s32le, float32le, other}
use spoton.Stream.{modify_stream}

-- One float sample of four bytes as the four bytes of an S32LE sample: clamped, scaled and rounded.
abbrev pub FloatToS32 : Type 0
FloatToS32 = ℕ → ℕ → ℕ → ℕ → List ℕ

-- `((int32_t)src[i + j]) << 16` for each whole S16LE sample: its two bytes become the upper two.
unfoldable pub s16_to_s32 : List ℕ → List ℕ
s16_to_s32 [] = []
s16_to_s32 (lo ∷ []) = []
s16_to_s32 (lo ∷ hi ∷ bytes) = 0 ∷ 0 ∷ lo ∷ hi ∷ s16_to_s32 bytes

pub float_to_s32 : FloatToS32 → List ℕ → List ℕ
float_to_s32 conv [] = []
float_to_s32 conv (a ∷ []) = []
float_to_s32 conv (a ∷ b ∷ []) = []
float_to_s32 conv (a ∷ b ∷ c ∷ []) = []
float_to_s32 conv (a ∷ b ∷ c ∷ d ∷ bytes) = conv a b c d ++ float_to_s32 conv bytes

-- The converted bytes in the batches of 1024 samples, 4096 bytes, in which they are pushed; on fuel,
-- the number of bytes.
unfoldable pub batches : ℕ → List ℕ → List (List ℕ)
batches zero xs = []
batches (suc f) [] = []
batches (suc f) (x ∷ xs) = take 4096 (x ∷ xs) ∷ batches f (drop 4096 (x ∷ xs))

abbrev in_batches : List ℕ → List (List ℕ)
in_batches xs = batches (length xs) xs

-- The pushes of `_convert_and_push`: S32LE as it is in one, an unknown format in none.
unfoldable pub pushes : FloatToS32 → Format → List ℕ → List (List ℕ)
pushes conv s32le bytes = bytes ∷ []
pushes conv float32le bytes = in_batches (float_to_s32 conv bytes)
pushes conv s16le bytes = in_batches (s16_to_s32 bytes)
pushes conv other bytes = []

-- What comes with one push: what the other threads do before it, while the ring's lock is free; the
-- clock that it reads; and the wake-ups that it gets.
pub record Batch : Type 0 where
  pub before : List Other
  pub at : Clock
  pub wakes : List Wake

-- Behind the last push.
abbrev behind : List Batch → Ring → Ring
behind [] r = r
behind (k ∷ ks) r = run_others k.before r

-- The next push; a write that waits makes no further push.
abbrev pub then_push : Pushed → (Ring → Option RingWrite → Pushed) → Pushed
then_push (done r w) next = next r w
then_push (blocked r rest w) next = blocked r rest w
then_push no_fuel next = no_fuel

-- The pushes in turn, each with fuel for its bytes and its wake-ups.
pub push_all : Environ → Clock → List (List ℕ) → List Batch → Ring → Option RingWrite → Pushed
push_all e c [] ks r w = done (behind ks r) w
push_all e c (xs ∷ rest) [] r w =
    then_push (ring_push (length xs + 1) e c [] r xs w) (push_all e c rest [])
push_all e c (xs ∷ rest) (k ∷ ks) r w =
    then_push
      (ring_push (length xs + length k.wakes + 1) e k.at k.wakes (run_others k.before r) xs w)
      (push_all e c rest ks)

-- The ring bytes that a write of `n` input bytes needs.
abbrev pub ring_need : Format → ℕ → ℕ
ring_need s16le n = n * 2
ring_need s32le n = n
ring_need float32le n = n
ring_need other n = n

-- What the call reports as lost is taken back from the sink.
abbrev take_back : ℕ → Option RingWrite → Vsink → Vsink
take_back ms none v = v
take_back ms (some w) v =
    if ltb 0 ms && ltb 0 (w.refused + w.abandoned_bytes)
    then record v { q_out = v.q_out - (w.refused + w.abandoned_bytes) }
    else v

-- What `pa_stream_write` is when it returns, or while it waits.
pub data WriteResult : Type 0 where
  accepted : Shim → WriteResult
  waiting : Shim → WriteResult
  rejected : WriteResult

-- The end of a write whose pushes ended in `o`: `meanwhile` is what other threads did to the sink.
pub write_end : ℕ → (Vsink → Vsink) → ℕ → ℕ → Pushed → Shim → WriteResult
unfolding modify_stream
write_end ms meanwhile s n (done r w) g =
    accepted
      (record (modify_stream s (λ st. record st { bytes_written = st.bytes_written + n }) g) {
        ring = record r { writers_in = r.writers_in - 1 };
        vsink = take_back ms w (meanwhile g.vsink);
      })
write_end ms meanwhile s n (blocked r rest w) g =
    waiting (record g { ring = r; vsink = meanwhile g.vsink })
write_end ms meanwhile s n no_fuel g = rejected

-- `pa_stream_write` in HTTP mode on the live stream `s`: it registers as a writer, calls the started
-- callback once, charges the sink, pushes, and takes back what was not accepted.
pub stream_write :
    FloatToS32
    → Environ
    → Clock
    → List Batch
    → (Vsink → Vsink)
    → ℕ
    → Format
    → List ℕ
    → Shim
    → WriteResult
unfolding modify_stream
stream_write conv e c wakes meanwhile s fmt bytes g =
    let ms = vsink_env_ms e in
    let n = length bytes in
    let synced = vsink_sync (vsink_now_us c) ms g.vsink in
    let charged = record synced {
      q_out = if ltb 0 ms then synced.q_out + ring_need fmt n else synced.q_out;
    } in
    let entered = record (modify_stream s (λ st. record st { has_started_cb = false }) g) {
      ring = record (g.ring) { writers_in = g.ring.writers_in + 1 };
      vsink = if n == 0 then g.vsink else charged;
    } in
    write_end ms meanwhile s n
      (if n == 0
        then done entered.ring none
        else push_all e c (pushes conv fmt bytes) wakes entered.ring
            (some (new_write g.ring.flush_epoch)))
      entered
