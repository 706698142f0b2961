-- ===== src/Output/Fate.antt =====
-- What becomes of the audio without the HTTP mode.
use spoton.Prelude.{
  ℕ, ◌+◌, ◌-◌, ◌%◌, ◌^◌, min, ◌≤◌, ◌<◌, ◌≡◌, ◌≢◌, refl, ap, ◌∙◌, true, false, Option, none, some,
  List, [], ◌∷◌, ◌++◌, arith, length, take, drop, length-drop, take-append-drop, ltb, if◌then◌else◌,
  ◌==◌,
}
use mathlib.Core.List.{append_assoc}
use spoton.Prelude.Int.{ℤ, pos, negsuc}
use spoton.Time.{Target, armhf, lp64}
use spoton.Env.{Environ, whole_number, pcm_fd, pcm_path}
use spoton.Shim.{Shim, Stream}
use spoton.Stream.{modify_stream}
use spoton.Output.{
  unresolved, to_int, by_path, by_environ, pcm_output_fd, FileWrite, took, interrupted, broken,
  OutputCode, is_over, enter, leave, complete, given_up, going_on, Output, write_pcm, PlainWrite,
  plain_write,
}

-- The variable gives no number, or one that an `int` holds.
abbrev pub FitsInt : Option ℕ → Type 0
FitsInt none = Unit {0}
FitsInt (some v) = v < 2 ^ 31

abbrev pub IsFd : ℤ → Type 0
IsFd (pos n) = Unit {0}
IsFd (negsuc n) = ⊥

by_path-IsFd : (p : Option (List ℕ)) (o : Option ℕ) → IsFd (by_path p o)
by_path-IsFd none o = tt
by_path-IsFd (some e) none = tt
by_path-IsFd (some []) (some fd) = tt
by_path-IsFd (some (x ∷ e)) (some fd) = tt

to_int-IsFd : (t : Target) (v : ℕ) → v < 2 ^ 31 → IsFd (to_int t v)
to_int-IsFd armhf v h =
    let q : ltb (min v 2_147_483_647 % 2 ^ 32) (2 ^ 31) ≡ true = ground arith in rw q tt
to_int-IsFd lp64 v h =
    let q : ltb (min v 9_223_372_036_854_775_807 % 2 ^ 32) (2 ^ 31) ≡ true = ground arith in rw q tt

by_environ-IsFd : (t : Target) (o : Option ℕ) (z : ℤ) → FitsInt o → IsFd z → IsFd (by_environ t o z)
by_environ-IsFd t none z h k = k
by_environ-IsFd t (some v) z h k = to_int-IsFd t v h

settled : (t : Target) (e : Environ) (o : Option ℕ) (z : ℤ) → IsFd z → pcm_output_fd t e o z ≡ z
unfolding pcm_output_fd
settled t e o (pos n) h = refl
settled t e o (negsuc n) h = absurd h

-- Where SPOTON_SOLOIST_PCM_FD holds no number or one below 2 ^ 31, the output is resolved to a
-- descriptor at the first call, and to the same one at every later call, whatever the environment has
-- become and the path then opens to.
pub pcm_output_fd-once :
    (t : Target) (e e' : Environ) (o o' : Option ℕ)
    → FitsInt (whole_number (e pcm_fd))
    → IsFd (pcm_output_fd t e o unresolved)
      × (pcm_output_fd t e' o' (pcm_output_fd t e o unresolved) ≡ pcm_output_fd t e o unresolved)
unfolding pcm_output_fd
pcm_output_fd-once t e e' o o' h =
    let k =
      by_environ-IsFd t (whole_number (e pcm_fd)) (by_path (e pcm_path) o) h
        (by_path-IsFd (e pcm_path) o) in
    (k, settled t e' o' (by_environ t (whole_number (e pcm_fd)) (by_path (e pcm_path) o)) k)

-- What has become of the bytes of a write, `lost` those that the descriptor never got.
pub record Fate (fd : ℤ) (bytes : List ℕ) (o : Output) : Type 0 where
  pub lost : List ℕ
  pub in_order : o.written ++ lost ≡ bytes
  pub whole : o.code ≡ complete → lost ≡ []
  pub short : IsFd fd → o.code ≡ given_up → lost ≢ []

stopped-Fate :
    (fd : ℤ) (x : ℕ) (xs : List ℕ) (c : OutputCode)
    → c ≢ complete
    → Fate fd (x ∷ xs) (record { written = []; code = c })
stopped-Fate fd x xs c n = record {
  lost = x ∷ xs;
  in_order = refl;
  whole = λ e. absurd (n e);
  short = λ f e. cc;
}

write_pcm-Fate : (fd : ℤ) (ks : List FileWrite) (xs : List ℕ) → Fate fd xs (write_pcm fd ks xs)
unfolding write_pcm
write_pcm-Fate (negsuc n) ks xs = record {
  lost = xs;
  in_order = refl;
  whole = λ e. cc;
  short = λ f. absurd f;
}
write_pcm-Fate (pos fd) ks [] = record {
  lost = [];
  in_order = refl;
  whole = λ e. refl;
  short = λ f e. cc;
}
write_pcm-Fate (pos fd) [] (x ∷ xs) = stopped-Fate (pos fd) x xs going_on (λ e. cc)
write_pcm-Fate (pos fd) (took n ∷ ks) (x ∷ xs) =
    let d = write_pcm-Fate (pos fd) ks (drop n (x ∷ xs)) in
    record {
      lost = d.lost;
      in_order =
          append_assoc (take n (x ∷ xs)) _ d.lost
          ∙ ap (λ r. take n (x ∷ xs) ++ r) d.in_order
          ∙ take-append-drop n (x ∷ xs);
      whole = d.whole;
      short = d.short;
    }
write_pcm-Fate (pos fd) (interrupted ∷ ks) (x ∷ xs) = write_pcm-Fate (pos fd) ks (x ∷ xs)
write_pcm-Fate (pos fd) (broken ∷ ks) (x ∷ xs) = stopped-Fate (pos fd) x xs given_up (λ e. cc)

abbrev gets_on : FileWrite → ℕ
gets_on (took n) = if ltb 0 n then 1 else 0
gets_on interrupted = 0
gets_on broken = 1

abbrev pub progress : List FileWrite → ℕ
progress [] = 0
progress (k ∷ ks) = gets_on k + progress ks

write_pcm-ends :
    (fd : ℤ) (ks : List FileWrite) (xs : List ℕ)
    → length xs ≤ progress ks
    → (write_pcm fd ks xs).code ≢ going_on
unfolding write_pcm
write_pcm-ends (negsuc n) ks xs h = λ e. cc
write_pcm-ends (pos fd) ks [] h = λ e. cc
write_pcm-ends (pos fd) [] (x ∷ xs) h = absurd (omega arith)
write_pcm-ends (pos fd) (took n ∷ ks) (x ∷ xs) h =
    write_pcm-ends (pos fd) ks (drop n (x ∷ xs)) (ground (arith, length-drop n (x ∷ xs)))
write_pcm-ends (pos fd) (interrupted ∷ ks) (x ∷ xs) h =
    write_pcm-ends (pos fd) ks (x ∷ xs) (omega arith)
write_pcm-ends (pos fd) (broken ∷ ks) (x ∷ xs) h = λ e. cc

-- A call that has returned to the daemon, for the stream at `s`.
pub record Returned (s n : ℕ) (st : Stream) (bytes : List ℕ) (g : Shim) (r : PlainWrite)
    : Type 0 where
  pub fate : Fate r.fd bytes r.output
  pub over : r.output.code ≢ going_on
  pub counted : r.shim.streams s ≡ some (record st { bytes_written = n; has_started_cb = false })
  pub ring : r.shim.ring ≡ g.ring

is_over-if : (c : OutputCode) → c ≢ going_on → is_over c ≡ true
is_over-if complete n = refl
is_over-if given_up n = refl
is_over-if going_on n = absurd (n refl)

left_alone :
    (s n : ℕ) (g : Shim) (st : Stream)
    → g.streams s ≡ some st
    → ((leave s n (enter s g)).streams s
        ≡ some (record st { bytes_written = st.bytes_written + n; has_started_cb = false }))
      × ((leave s n (enter s g)).ring ≡ g.ring)
unfolding modify_stream
left_alone s n g st q =
    let same : (s == s) ≡ true = ground arith in
    let k : g.ring.writers_in + 1 - 1 ≡ g.ring.writers_in = omega arith in
    (rw (same, q) refl, ap (λ m. record (g.ring) { writers_in = m }) k)

-- Without the HTTP mode a write returns once as many of its `write` calls have got on as it has bytes;
-- what the descriptor got is a prefix of them, all of them unless the output broke or there is none.
-- The daemon cannot tell: the stream counts every byte as written, and the ring is not touched.
pub plain_write-Returned :
    (t : Target) (e : Environ) (o : Option ℕ) (ks : List FileWrite) (s : ℕ) (bytes : List ℕ) (z : ℤ)
    (g : Shim) (st : Stream)
    → g.streams s ≡ some st
    → length bytes ≤ progress ks
    → Returned s (st.bytes_written + length bytes) st bytes g (plain_write t e o ks s bytes z g)
unfolding plain_write modify_stream
plain_write-Returned t e o ks s [] z g st q h =
    let k = left_alone s 0 g st q in
    record {
      fate = record { lost = []; in_order = refl; whole = λ e. refl; short = λ f e. cc };
      over = λ e. cc;
      counted = k.0;
      ring = k.1;
    }
plain_write-Returned t e o ks s (x ∷ xs) z g st q h =
    let nz : (length (x ∷ xs) == 0) ≡ false = ground arith in
    let fd = pcm_output_fd t e o z in
    let over = write_pcm-ends fd ks (x ∷ xs) h in
    let k = left_alone s (length (x ∷ xs)) g st q in
    let went : is_over (write_pcm fd ks (x ∷ xs)).code ≡ true = is_over-if _ over in
    record {
      fate = rw nz (write_pcm-Fate fd ks (x ∷ xs));
      over = rw nz over;
      counted = rw (nz, went) k.0;
      ring = rw (nz, went) k.1;
    }
