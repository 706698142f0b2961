-- ===== src/Stream/Timing.antt =====
-- Plugins/SpotOn/Bin/fake-libpulse/fake-libpulse.c: `_stream_refresh_timing`, what the daemon is told
-- of its position, and the small calls of the volume, time and sample headers.
use spoton.Prelude.{
  refl, ap, ◌∙◌, ℕ, zero, suc, ◌+◌, ◌-◌, ◌*◌, ◌/◌, ◌%◌, ◌^◌, ◌≤◌, ◌<◌, ◌≡◌, min, Bool, true, false,
  not, Option, none, some, List, [], ◌∷◌, arith, ltb, ◌==◌, if◌then◌else◌, length, take,
}
use native.Mathlib.Nat.{mul-div_cancel_left, mod-eq_of_lt}
use spoton.Prelude.Int.{ℤ, pos, sub_ℕ, minus, floor_zero}
use spoton.Time.{Clock, Timeval, vsink_now_us}
use spoton.Env.{Environ, vsink_env_ms}
use spoton.Ring.{ring_bytes_per_sec, ring_capacity}
use spoton.Vsink.{vsink_sync}
use spoton.Shim.{Shim, Stream, Format, s16le, s32le, float32le, other}

-- The fields of `pa_timing_info` that the shim sets.
pub record Timing : Type 0 where
  pub timestamp : Timeval
  pub playing : Bool
  pub write_index : ℤ
  pub read_index : ℤ
  pub since_underrun : ℕ
  pub sink_usec : ℕ
  pub configured_sink_usec : ℕ

-- Bytes of one input sample.
abbrev pub input_bps : Format → ℕ
input_bps s16le = 2
input_bps s32le = 4
input_bps float32le = 4
input_bps other = 4

abbrev to_usec : Timeval → ℕ
to_usec t = t.sec * 1_000_000 + t.usec

-- `read_index`: the bytes written, less the ring's and the sink's, in input bytes, floored at 0 where
-- the sink is on.
read_index_at : ℕ → ℕ → ℕ → ℕ → ℕ → ℤ
read_index_at ms bps written fill q =
    let behind = sub_ℕ written (fill * bps / 4) in
    if ltb 0 ms then floor_zero (minus behind (q * bps / 4)) else behind

-- `_stream_refresh_timing`: the shim with its sink settled, and the timing of the stream.
unfoldable pub refresh_timing : Environ → Clock → Stream → Shim → Shim × Timing
unfolding read_index_at
refresh_timing e c st g =
    let ms = vsink_env_ms e in
    let v = vsink_sync (vsink_now_us c) ms g.vsink in
    let q = if ltb 0 ms then v.q_out else 0 in
    if g.http_mode
    then (
      record g { vsink = v },
      record {
        timestamp = c.wall;
        playing = not st.corked;
        write_index = pos st.bytes_written;
        read_index = read_index_at ms (input_bps st.format) st.bytes_written g.ring.fill q;
        since_underrun = (to_usec c.wall + 2 ^ 64 - to_usec st.connect_time) % 2 ^ 64;
        sink_usec = (g.ring.fill + q) * 1_000_000 / ring_bytes_per_sec;
        configured_sink_usec = ring_capacity * 1_000_000 / ring_bytes_per_sec;
      },
    )
    else (
      g,
      record {
        timestamp = c.wall;
        playing = not st.corked;
        write_index = pos st.bytes_written;
        read_index = pos st.bytes_written;
        since_underrun = 0;
        sink_usec = 0;
        configured_sink_usec = 0;
      },
    )

-- `pa_stream_get_timing_info`, null for a null stream, and `pa_stream_update_timing_info`, which refreshes
-- alike and leaves the timing to the next call.
pub get_timing_info : Environ → Clock → Option Stream → Shim → Shim × Option Timing
unfolding refresh_timing
get_timing_info e c none g = (g, none)
get_timing_info e c (some st) g = let out = refresh_timing e c st g in (out.0, some out.1)

pub update_timing_info : Environ → Clock → Option Stream → Shim → Shim
unfolding refresh_timing
update_timing_info e c none g = g
update_timing_info e c (some st) g = (refresh_timing e c st g).0

-- With the sink on, the position that the daemon reads is what it has written less what the ring and
-- the sink hold of it, in input bytes, and 0 where they hold more.
read_index-eq :
    (ms bps written fill q : ℕ)
    → 0 < ms
    → read_index_at ms bps written fill q ≡ pos (written - (fill * bps / 4 + q * bps / 4))
unfolding read_index_at
read_index-eq ms bps written fill q h = ground arith

-- What a refresh tells in HTTP mode with the sink on.
pub refresh_timing-told :
    (e : Environ) (c : Clock) (st : Stream) (g : Shim)
    → g.http_mode ≡ true
    → 0 < vsink_env_ms e
    → let q = (vsink_sync (vsink_now_us c) (vsink_env_ms e) g.vsink).q_out in
      let bps = input_bps st.format in
      let t = (refresh_timing e c st g).1 in
      (t.read_index ≡ pos (st.bytes_written - (g.ring.fill * bps / 4 + q * bps / 4)))
      × (t.sink_usec ≡ (g.ring.fill + q) * 1_000_000 / ring_bytes_per_sec)
unfolding refresh_timing
refresh_timing-told e c st g h k =
    let ms = vsink_env_ms e in
    let q = (vsink_sync (vsink_now_us c) ms g.vsink).q_out in
    let bps = input_bps st.format in
    let held = if ltb 0 ms then q else 0 in
    let is_on : held ≡ q = ground arith in
    let index : (refresh_timing e c st g).1.read_index
        ≡ pos (st.bytes_written - (g.ring.fill * bps / 4 + held * bps / 4)) =
      simp h (read_index-eq ms bps st.bytes_written g.ring.fill held k) in
    let usec : (refresh_timing e c st g).1.sink_usec
        ≡ (g.ring.fill + held) * 1_000_000 / ring_bytes_per_sec =
      simp h refl in
    (
      index ∙ ap (λ q. pos (st.bytes_written - (g.ring.fill * bps / 4 + q * bps / 4))) is_on,
      usec ∙ ap (λ q. (g.ring.fill + q) * 1_000_000 / ring_bytes_per_sec) is_on,
    )

-- PA_CHANNELS_MAX.
abbrev pa_channels_max : ℕ
pa_channels_max = 32

-- `pa_cvolume`: the channel count and the values of its array.
pub record CVolume : Type 0 where
  pub channels : ℕ
  pub values : List ℕ

sum_of : List ℕ → ℕ
sum_of [] = 0
sum_of (v ∷ vs) = v + sum_of vs

-- `pa_cvolume_avg`.
pub cvolume_avg : Option CVolume → ℕ
unfolding sum_of
cvolume_avg none = 0
cvolume_avg (some a) =
    let n = min a.channels pa_channels_max in
    if a.channels == 0 then 0 else sum_of (take n a.values) / n % 2 ^ 32

overwrite : ℕ → ℕ → List ℕ → List ℕ
overwrite zero v xs = xs
overwrite (suc n) v [] = []
overwrite (suc n) v (x ∷ xs) = v ∷ overwrite n v xs

-- `pa_cvolume_set`.
pub cvolume_set : Option CVolume → ℕ → ℕ → Option CVolume
unfolding overwrite
cvolume_set none channels v = none
cvolume_set (some a) channels v =
    let n = min channels pa_channels_max in
    some (record { channels = n; values = overwrite n v a.values })

-- `pa_timeval_diff`, 0 where the difference is negative.
unfoldable pub timeval_diff : Option Timeval → Option Timeval → ℕ
timeval_diff none b = 0
timeval_diff (some a) none = 0
timeval_diff (some a) (some b) = a.sec * 1_000_000 + a.usec - (b.sec * 1_000_000 + b.usec)

sum-overwrite : (n v : ℕ) (xs : List ℕ) → n ≤ length xs → sum_of (take n (overwrite n v xs)) ≡ n * v
unfolding sum_of overwrite
sum-overwrite zero v xs h = omega arith
sum-overwrite (suc n) v [] h = absurd (omega arith)
sum-overwrite (suc n) v (x ∷ xs) h = omega (arith, sum-overwrite n v xs (omega arith))

-- A volume set on 1 to 32 or more channels of a full array is read back as the average.
pub avg-set :
    (a : CVolume) (channels v : ℕ)
    → 0 < channels
    → v < 2 ^ 32
    → length a.values ≡ pa_channels_max
    → cvolume_avg (cvolume_set (some a) channels v) ≡ v
unfolding cvolume_avg cvolume_set
avg-set a channels v h k e =
    let n : min (min channels pa_channels_max) pa_channels_max ≡ min channels pa_channels_max =
      omega arith in
    let nz : (min channels pa_channels_max == 0) ≡ false = ground arith in
    rw (n, nz, sum-overwrite (min channels pa_channels_max) v a.values (omega arith))
      (rw (mul-div_cancel_left v {n = min channels pa_channels_max} (omega arith)) (mod-eq_of_lt k))
