-- ===== src/Harness/Live.antt =====
-- What the harness's steps leave of its stream and of the absence of a client.
use spoton.Prelude.{
  ℕ, zero, suc, ◌+◌, ◌-◌, ◌*◌, ◌≤◌, ◌≡◌, refl, ap, sym, ◌∙◌, Bool, true, false, Option, none, some,
  List, [], tabulate, length-tabulate, arith, length, length-take, length-drop, ◌==◌, if◌then◌else◌,
}
use mathlib.Core.Path.{subst}
use spoton.Time.{Clock}
use spoton.Ring.{Ring, ring_capacity}
use spoton.Ring.Pop.{pop_locked, pop_take, pop_advance, pop_waits}
use spoton.Ring.Valid.{HoldIn, pop_locked-IsValid}
use spoton.Ring.Queue.{length-contents, pop_limit, Popped, pop_locked-Popped}
use spoton.Ring.Fifo.{contents}
use spoton.Vsink.{Vsink}
use spoton.Http.Drain.{ring_pop_timed}
use spoton.Shim.{Shim, Stream, Format, float32le, ring_flush}
use spoton.Stream.{modify_stream, stream_flush}
use spoton.Stream.Write.{FloatToS32, WriteResult, accepted, waiting, rejected}
use spoton.Stream.Write.Fits.{WroteAll, CountedIn, count, stream_write-CountedIn, update-here}
use spoton.Harness.{
  Harness, clock, advance_ms, test_cork, test_flush, ring_reset, test_ring_reset, set_up,
  test_begin, came_back, write_n, test_pop,
}
use spoton.Harness.Facts.{Ready, At, corked}
use spoton.Harness.Written.{write_n-WroteAll}

-- The stream lives, has the format and at least `n` bytes written; no flush waits and no client is there.
pub record Live (s : ℕ) (fmt : Format) (n : ℕ) (h : Harness) : Type 0 where
  pub stream : Stream
  pub live : h.shim.streams s ≡ some stream
  pub format : stream.format ≡ fmt
  pub written : n ≤ stream.bytes_written
  pub quiet : h.shim.flush_disconnect ≡ false
  pub alone : h.shim.ring.client_connected ≡ false

pub advance-Live :
    {s : ℕ} {fmt : Format} {n : ℕ} {h : Harness} (ms : ℕ)
    → Live s fmt n h
    → Live s fmt n (advance_ms ms h)
advance-Live ms l = record {
  stream = l.stream;
  live = l.live;
  format = l.format;
  written = l.written;
  quiet = l.quiet;
  alone = l.alone;
}

abbrev pub LiveBack : ℕ → Format → ℕ → Option Harness → Type 0
LiveBack s fmt n none = ⊥
LiveBack s fmt n (some h) = Live s fmt n h

came_back-LiveBack :
    (s : ℕ) (fmt : Format) (n m : ℕ) (h : Harness) (xs : List ℕ) (w : Vsink) (o : WriteResult)
    (l : Live s fmt n h)
    → WroteAll h.shim xs w o
    → CountedIn s (count m l.stream) o
    → LiveBack s fmt (n + m) (came_back h o)
came_back-LiveBack s fmt n m h xs w (accepted g) l k q = record {
  stream = count m l.stream;
  live = q;
  format = l.format;
  written = omega (arith, l.written);
  quiet = k.disconnect ∙ l.quiet;
  alone = k.client ∙ l.alone;
}
came_back-LiveBack s fmt n m h xs w (waiting g) l k q = k
came_back-LiveBack s fmt n m h xs w rejected l k q = k

pub write_n-LiveBack :
    {s : ℕ} {v : Vsink} {fill now ms m : ℕ} {fmt : Format} {h : Harness} (conv : FloatToS32)
    (n k : ℕ)
    → At s v fill now ms h
    → Live s fmt m h
    → ((x y z t : ℕ) → length (conv x y z t) ≡ 4)
    → n ≡ k * 4
    → 1 ≤ n
    → n + fill ≤ ring_capacity
    → LiveBack s fmt (m + n) (write_n conv s float32le n h)
unfolding write_n
write_n-LiveBack {s = s} {m = m} {fmt = fmt} {h = h} conv n k a l four whole p fits =
    let zeros = tabulate n (λ i. 0) in
    subst (λ i. LiveBack s fmt (m + i) (write_n conv s float32le n h)) (length-tabulate n (λ i. 0))
      (came_back-LiveBack s fmt m (length zeros) h _ _ _ l
        (write_n-WroteAll a conv n k four whole p fits)
        (stream_write-CountedIn conv h.env (clock h) s float32le zeros l.stream h.shim l.live))

flush-streams :
    (h : Harness)
    → h.shim.http_mode ≡ true
    → ((test_flush h).shim.streams ≡ h.shim.streams)
      × ((test_flush h).shim.flush_disconnect ≡ h.shim.flush_disconnect)
unfolding test_flush stream_flush ring_flush
flush-streams h p = (simp p refl, simp p refl)

-- The stream as a case begins.
abbrev pub begun : Format → Bool → Stream → Stream
begun fmt b st = record st { format = fmt; corked = b }

module _ {s : ℕ} (fmt : Format) (ms : Option ℕ) (b : Bool) (h : Harness) (st : Stream)
    (r : Ready s h) where
  cork_begun :
      (test_cork s b (set_up s fmt ms h)).shim
      ≡ record (modify_stream s (λ st. record st { corked = b }) (set_up s fmt ms h).shim) {
        vsink = (test_cork s b (set_up s fmt ms h)).shim.vsink;
      }
  unfolding test_cork set_up modify_stream
  cork_begun =
      let set = set_up s fmt ms h in
      let e = corked set.env (clock set) s b set.shim r.http r.active in
      e
      ∙ ap (λ w. record (modify_stream s (λ st. record st { corked = b }) set.shim) { vsink = w })
          (sym (ap (λ g. g.vsink) e))

  begin-streams :
      h.shim.streams s ≡ some st → (test_begin s fmt ms b h).shim.streams s ≡ some (begun fmt b st)
  unfolding test_begin test_ring_reset ring_reset set_up modify_stream
  begin-streams q =
      ap (λ f. f s)
        (flush-streams (test_cork s b (set_up s fmt ms h))
          (ap (λ g. g.http_mode) cork_begun ∙ r.http)).0
      ∙ ap (λ g. g.streams s) cork_begun
      ∙ update-here (set_up s fmt ms h).shim.streams _ s _ (update-here h.shim.streams _ s st q)

  pub begin-Live :
      h.shim.streams s ≡ some st
      → h.shim.flush_disconnect ≡ false
      → Live s fmt 0 (test_begin s fmt ms b h)
  unfolding test_begin test_ring_reset ring_reset set_up modify_stream
  begin-Live q e = record {
    stream = begun fmt b st;
    live = begin-streams q;
    format = refl;
    written = omega arith;
    quiet =
        (flush-streams (test_cork s b (set_up s fmt ms h))
          (ap (λ g. g.http_mode) cork_begun ∙ r.http)).1
        ∙ ap (λ g. g.flush_disconnect) cork_begun
        ∙ e;
    alone = refl;
  }

-- A hold needs a client.
unheld :
    (o : Option ℕ) (r : Ring) (n p : ℕ)
    → HoldIn o r
    → r.client_connected ≡ false
    → pop_limit false n p o ≡ n
unheld none r n p h e = refl
unheld (some k) r n p h e = absurd (ground arith)

-- A pop from a ring that is not empty does not wait.
popped_now :
    (c : Clock) (n : ℕ) (g : Shim)
    → 1 ≤ g.ring.fill
    → ring_pop_timed c [] n g ≡ (
      (pop_locked c g.flush_disconnect n g.ring).0,
      record g { ring = (pop_locked c g.flush_disconnect n g.ring).1 },
    )
unfolding ring_pop_timed pop_waits
popped_now c n g h = let e : (g.ring.fill == 0) ≡ false = ground arith in rw e refl

pop_keeps :
    (c : Clock) (n : ℕ) (r : Ring)
    → ((pop_locked c false n r).1.capacity ≡ r.capacity)
      × ((pop_locked c false n r).1.client_connected ≡ r.client_connected)
unfolding pop_locked pop_take pop_advance
pop_keeps c n r = ground arith

pop_nothing : (f : ℕ) (h : Harness) → test_pop f 0 h ≡ (h, 0)
unfolding test_pop
pop_nothing zero h = refl
pop_nothing (suc f) h = refl

-- One turn of the loop, on what it popped.
abbrev turned : ℕ → ℕ → Harness → List ℕ × Shim → Harness × ℕ
turned f n h out =
    let popped = record h { shim = out.1 } in
    let rest = test_pop f (n - length out.0) popped in
    if n == 0
    then (h, 0)
    else if length out.0 == 0
    then (popped, 0)
    else (rest.0, length out.0 + rest.1)

pop_turn :
    (f n : ℕ) (h : Harness)
    → test_pop (suc f) n h ≡ turned f n h (ring_pop_timed (clock h) [] n h.shim)
unfolding test_pop
pop_turn f n h = refl

-- The harness without what a pop takes.
abbrev popped : ℕ → Harness → Harness
popped n h = record h {
  shim = record (h.shim) { ring = (pop_locked (clock h) false n h.shim.ring).1 };
}

module _ {s : ℕ} {v : Vsink} {n now ms m : ℕ} {fmt : Format} {h : Harness} (a : At s v n now ms h)
    (l : Live s fmt m h) where
  all-Popped : Popped n h.shim.ring (pop_locked (clock h) false n h.shim.ring)
  all-Popped =
      subst (λ k. Popped k h.shim.ring (pop_locked (clock h) false n h.shim.ring))
        (unheld h.shim.ring.hold_at h.shim.ring n h.shim.ring.total_popped a.ready.valid.hold_in
          l.alone)
        (pop_locked-Popped (clock h) false n a.ready.valid)

  length-popped : length (pop_locked (clock h) false n h.shim.ring).0 ≡ n
  length-popped = omega (
    arith,
    ap length all-Popped.bytes,
    length-take n (contents h.shim.ring),
    length-contents h.shim.ring,
    a.held,
  )

  pop_once :
      1 ≤ n
      → ring_pop_timed (clock h) [] n h.shim
        ≡ ((pop_locked (clock h) false n h.shim.ring).0, (popped n h).shim)
  pop_once p =
      popped_now (clock h) n h.shim (omega (arith, a.held, p))
      ∙ ap
          (λ b. (
            (pop_locked (clock h) b n h.shim.ring).0,
            record (h.shim) { ring = (pop_locked (clock h) b n h.shim.ring).1 },
          ))
          l.quiet

  pub pop-all : (f : ℕ) → 1 ≤ n → test_pop (suc f) n h ≡ (popped n h, n)
  pop-all f p =
      let some_bytes : (n == 0) ≡ false = ground arith in
      let none_left : n - n ≡ 0 = omega arith in
      let no_more : n + 0 ≡ n = omega arith in
      pop_turn f n h
      ∙ ap (turned f n h) (pop_once p)
      ∙ rw (length-popped, some_bytes, none_left, pop_nothing f (popped n h), no_more) refl

  pub popped-At : At s v 0 now ms (popped n h)
  popped-At = record {
    ready = record {
      valid = pop_locked-IsValid (clock h) false n a.ready.valid;
      size = (pop_keeps (clock h) n h.shim.ring).0 ∙ a.ready.size;
      http = a.ready.http;
      active = a.ready.active;
    };
    sink = a.sink;
    held = omega (
      arith,
      ap length all-Popped.rest,
      length-drop n (contents h.shim.ring),
      length-contents h.shim.ring,
      length-contents (pop_locked (clock h) false n h.shim.ring).1,
      a.held,
    );
    time = a.time;
    knob = a.knob;
  }

  pub popped-Live : Live s fmt m (popped n h)
  popped-Live = record {
    stream = l.stream;
    live = l.live;
    format = l.format;
    written = l.written;
    quiet = l.quiet;
    alone = (pop_keeps (clock h) n h.shim.ring).1 ∙ l.alone;
  }
