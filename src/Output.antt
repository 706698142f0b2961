-- ===== src/Output.antt =====
-- Plugins/SpotOn/Bin/fake-libpulse/fake-libpulse.c: where the audio goes without the HTTP mode, the
-- descriptor of `_pcm_output_fd` and the `write` loop of `pa_stream_write`.
pub mod Fate
use spoton.Prelude.{
  ℕ, ◌+◌, ◌-◌, ◌%◌, ◌^◌, Bool, true, false, Option, none, some, List, [], ◌∷◌, ◌++◌, ltb, min, ◌==◌,
  if◌then◌else◌, length, take, drop,
}
use spoton.Prelude.Int.{ℤ, pos, negsuc}
use spoton.Time.{Target, long_half}
use spoton.Env.{Environ, whole_number, is_empty, pcm_fd, pcm_path}
use spoton.Shim.{Shim, Stream}
use spoton.Stream.{modify_stream}

-- `pcm_output_fd` is -2 until it is resolved.
abbrev pub unresolved : ℤ
unresolved = negsuc 1

abbrev is_unresolved : ℤ → Bool
is_unresolved (pos n) = false
is_unresolved (negsuc n) = n == 1

-- `(int)v` of a `long`; `strtol` gives LONG_MAX for a number out of its range.
abbrev to_int : Target → ℕ → ℤ
to_int t v =
    let w = min v (long_half t - 1) % 2 ^ 32 in
    if ltb w (2 ^ 31) then pos w else negsuc (2 ^ 32 - w - 1)

-- The path, if it is set and not empty and `open` succeeds, else the standard output.
abbrev by_path : Option (List ℕ) → Option ℕ → ℤ
by_path none opened = pos 1
by_path (some e) none = pos 1
by_path (some e) (some fd) = if is_empty e then pos 1 else pos fd

abbrev by_environ : Target → Option ℕ → ℤ → ℤ
by_environ t none other = other
by_environ t (some v) other = to_int t v

-- `_pcm_output_fd`: the descriptor, which it also remembers. `opened` is what `open` of the path gives.
unfoldable pub pcm_output_fd : Target → Environ → Option ℕ → ℤ → ℤ
pcm_output_fd t e opened cached =
    if is_unresolved cached
    then by_environ t (whole_number (e pcm_fd)) (by_path (e pcm_path) opened)
    else cached

-- What a `write` to the descriptor gave: some bytes, EINTR, or another error.
pub data FileWrite : Type 0 where
  took : ℕ → FileWrite
  interrupted broken : FileWrite

-- Why the loop has ended, or that it is still going on.
pub data OutputCode : Type 0 where
  complete given_up going_on : OutputCode

pub record Output : Type 0 where
  pub written : List ℕ
  pub code : OutputCode

unfoldable pub write_pcm : ℤ → List FileWrite → List ℕ → Output
write_pcm (negsuc n) ks xs = record { written = []; code = given_up }
write_pcm (pos fd) ks [] = record { written = []; code = complete }
write_pcm (pos fd) [] (x ∷ xs) = record { written = []; code = going_on }
write_pcm (pos fd) (took n ∷ ks) (x ∷ xs) =
    let rest = write_pcm (pos fd) ks (drop n (x ∷ xs)) in
    record { written = take n (x ∷ xs) ++ rest.written; code = rest.code }
write_pcm (pos fd) (interrupted ∷ ks) (x ∷ xs) = write_pcm (pos fd) ks (x ∷ xs)
write_pcm (pos fd) (broken ∷ ks) (x ∷ xs) = record { written = []; code = given_up }

-- The descriptor that is remembered, what was written, and the shim behind a call that has returned.
pub record PlainWrite : Type 0 where
  pub fd : ℤ
  pub output : Output
  pub shim : Shim

abbrev pub enter : ℕ → Shim → Shim
enter s g = record (modify_stream s (λ st. record st { has_started_cb = false }) g) {
  ring = record (g.ring) { writers_in = g.ring.writers_in + 1 };
}

abbrev pub leave : ℕ → ℕ → Shim → Shim
leave s n g =
    record (modify_stream s (λ st. record st { bytes_written = st.bytes_written + n }) g) {
      ring = record (g.ring) { writers_in = g.ring.writers_in - 1 };
    }

abbrev is_over : OutputCode → Bool
is_over complete = true
is_over given_up = true
is_over going_on = false

-- `pa_stream_write` without the HTTP mode, on the live stream `s`.
unfoldable pub plain_write :
    Target → Environ → Option ℕ → List FileWrite → ℕ → List ℕ → ℤ → Shim → PlainWrite
unfolding modify_stream
plain_write t e opened ks s bytes cached g =
    let fd = if length bytes == 0 then cached else pcm_output_fd t e opened cached in
    let out =
      if length bytes == 0
      then record { written = []; code = complete }
      else write_pcm fd ks bytes in
    record {
      fd = fd;
      output = out;
      shim = if is_over out.code then leave s (length bytes) (enter s g) else enter s g;
    }
