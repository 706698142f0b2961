-- ===== src/System/Delivery/Balance.antt =====
-- What the client receives of one chunk that the drain has popped.
use mathlib.Core.Path.{subst}
use mathlib.Core.List.{append_assoc}
use spoton.Prelude.{
  ℕ, ◌≡◌, refl, ap, sym, ◌∙◌, Bool, true, false, not, ◌||◌, Option, none, some, List, [], ◌∷◌, ◌++◌,
  arith, length, take, drop, take-append-drop, eq_option,
}
use spoton.Time.{Clock}
use spoton.Ring.{ring_set_client}
use spoton.Ring.Valid.{Below}
use spoton.Ring.Fifo.{contents}
use spoton.Shim.{Shim}
use spoton.Http.{Slot}
use spoton.Http.Loop.{Http}
use spoton.Http.Drain.{
  WriteCode, WriteEnd, written, gone, orphan, flush_pending, takeover_pending, unfinished,
  is_written, http_write_client, bound_left, Trim, trim, DrainTick, after_write, drain_write,
}
use spoton.System.Sound.{IsSound}
use spoton.System.Client.{SoundHttp, with_marker}
use spoton.System.Delivery.Written.{AllQuiet, written_stored, write-Ledger}

-- The balance of the queue: `received` went out of the bytes held at first and of those that came in;
-- `lost` left the queue and did not reach the client.
pub record Account (before new received after : List ℕ) (whole : Bool) : Type 0 where
  pub lost : List ℕ
  pub balance : received ++ (lost ++ after) ≡ before ++ new
  pub kept : whole ≡ true → lost ≡ []

-- No marker, and no connection in the slot.
pub record IsFree (h : Http) : Type 0 where
  pub marker : h.shim.boundary_at_pushed ≡ none
  pub slot : h.pending.fd ≡ none

-- The flags of a flush stand as they stood.
pub record Steady (g g' : Shim) : Type 0 where
  pub disconnect : g'.flush_disconnect ≡ g.flush_disconnect
  pub keep : g'.flush_keep_pending ≡ g.flush_keep_pending

pub Steady-trans : {a b c : Shim} → Steady a b → Steady b c → Steady a c
Steady-trans p q = record { disconnect = q.disconnect ∙ p.disconnect; keep = q.keep ∙ p.keep }

trim_free :
    (o gen : Option ℕ) (now popped n : ℕ)
    → o ≡ none
    → ((trim o gen now popped n).write_n ≡ n)
      × ((trim o gen now popped n).at_boundary ≡ false)
      × ((trim o gen now popped n).marker ≡ none)
unfolding trim
trim_free none gen now popped n e = (refl, refl, refl)
trim_free (some b) gen now popped n e = cc

pub bound_free :
    (o gen : Option ℕ) (now popped : ℕ)
    → o ≡ none
    → eq_option (bound_left o gen now popped) (some 0) ≡ false
unfolding bound_left
bound_free none gen now popped e = refl
bound_free (some b) gen now popped e = cc

-- The end of a turn that is not at a marker leaves the queue, the marker and the slot.
record Leaves (h h' : Http) : Type 0 where
  bytes : contents h'.shim.ring ≡ contents h.shim.ring
  marker : h'.shim.boundary_at_pushed ≡ h.shim.boundary_at_pushed
  disconnect : h'.shim.flush_disconnect ≡ h.shim.flush_disconnect
  keep : h'.shim.flush_keep_pending ≡ h.shim.flush_keep_pending
  slot : h'.pending ≡ h.pending

after_write-Leaves :
    (c : Clock) (b : Bool) (code : WriteCode) (h : Http)
    → b ≡ false
    → Leaves h (after_write c b code h)
unfolding after_write ring_set_client
after_write-Leaves c true written h e = cc
after_write-Leaves c false written h e = record {
  bytes = refl;
  marker = refl;
  disconnect = refl;
  keep = refl;
  slot = refl;
}
after_write-Leaves c b gone h e = record {
  bytes = refl;
  marker = refl;
  disconnect = refl;
  keep = refl;
  slot = refl;
}
after_write-Leaves c b orphan h e = record {
  bytes = refl;
  marker = refl;
  disconnect = refl;
  keep = refl;
  slot = refl;
}
after_write-Leaves c b flush_pending h e = record {
  bytes = refl;
  marker = refl;
  disconnect = refl;
  keep = refl;
  slot = refl;
}
after_write-Leaves c b takeover_pending h e = record {
  bytes = refl;
  marker = refl;
  disconnect = refl;
  keep = refl;
  slot = refl;
}
after_write-Leaves c b unfinished h e = record {
  bytes = refl;
  marker = refl;
  disconnect = refl;
  keep = refl;
  slot = refl;
}

-- The client write of a turn, behind a pop of `xs`.
abbrev pub turn_trim : List ℕ → Shim → Trim
turn_trim xs g =
    trim g.boundary_at_pushed g.boundary_client_generation g.client_generation g.ring.total_popped
      (length xs)

abbrev pub turn_slot : List ℕ → Http → Slot
turn_slot xs h = record {
  shim = record (h.shim) {
    boundary_at_pushed = (turn_trim xs h.shim).marker;
    awaiting_first_drain = false;
  };
  pending = h.pending;
}

abbrev pub turn_write : DrainTick → ℕ → List ℕ → Http → WriteEnd
turn_write k o xs h =
    http_write_client k.writing o h.client_fd (turn_trim xs h.shim).write_n 0 k.at.wall
      (turn_slot xs h)

abbrev pub write_stored : DrainTick → ℕ → List ℕ → Http → List ℕ
write_stored k o xs h =
    written_stored k.writing o h.client_fd (turn_trim xs h.shim).write_n 0 k.at.wall
      (turn_slot xs h)

drop_all : (xs : List ℕ) → drop (length xs) xs ≡ []
drop_all [] = refl
drop_all (x ∷ xs) = drop_all xs

is_written-if : (code : WriteCode) → is_written code ≡ true → code ≡ written
is_written-if written e = refl
is_written-if gone e = cc
is_written-if orphan e = cc
is_written-if flush_pending e = cc
is_written-if takeover_pending e = cc
is_written-if unfinished e = cc

goes_on : (a b : Bool) → a || not b ≡ false → b ≡ true
goes_on true b e = cc
goes_on false true e = refl
goes_on false false e = cc

pub slot-Sound :
    (xs : List ℕ) (h : Http) → IsFree h → SoundHttp h → IsSound h.client_fd (turn_slot xs h).shim
slot-Sound xs h f v =
    let g = h.shim in
    let tf =
      trim_free g.boundary_at_pushed g.boundary_client_generation g.client_generation
        g.ring.total_popped (length xs) f.marker in
    with_marker (turn_trim xs g).marker (subst (λ m. Below m g.ring.total_pushed) (sym tf.2) tt)
      v.shim

pub write-Account :
    (k : DrainTick) (o : ℕ) (xs : List ℕ) (h : Http)
    → AllQuiet k.writing
    → IsFree h
    → SoundHttp h
    → Account
        (xs ++ contents h.shim.ring)
        (write_stored k o xs h)
        (drain_write k o xs h).received
        (contents (drain_write k o xs h).http.shim.ring)
        (is_written (turn_write k o xs h).code)
      × IsFree (drain_write k o xs h).http
      × ((drain_write k o xs h).stopped ≡ false → is_written (turn_write k o xs h).code ≡ true)
      × Steady h.shim (drain_write k o xs h).http.shim
unfolding drain_write
write-Account k o xs h q f v =
    let g = h.shim in
    let t = turn_trim xs g in
    let tf =
      trim_free g.boundary_at_pushed g.boundary_client_generation g.client_generation
        g.ring.total_popped (length xs) f.marker in
    let w = turn_write k o xs h in
    let l =
      write-Ledger k.writing o h.client_fd t.write_n 0 k.at.wall (turn_slot xs h) q f.slot
        (slot-Sound xs h f v) in
    let a =
      after_write-Leaves k.after_write t.at_boundary w.code
        (record h { shim = w.slot.shim; pending = w.slot.pending }) tf.1 in
    let kept_bytes = contents (drain_write k o xs h).http.shim.ring in
    (
      record {
        lost = drop w.sent xs;
        balance =
            sym (append_assoc (take w.sent xs) (drop w.sent xs) kept_bytes)
            ∙ ap (λ r. r ++ kept_bytes) (take-append-drop w.sent xs)
            ∙ ap (λ r. xs ++ r) (a.bytes ∙ l.grows.bytes)
            ∙ sym (append_assoc xs (contents g.ring) (write_stored k o xs h));
        kept = λ e.
            ap (λ n. drop n xs) (l.whole (is_written-if w.code e) ∙ omega (arith, tf.0))
            ∙ drop_all xs;
      },
      record { marker = a.marker ∙ l.grows.marker ∙ tf.2; slot = ap (λ p. p.fd) a.slot ∙ l.idle },
      goes_on t.at_boundary (is_written w.code),
      record { disconnect = a.disconnect ∙ l.grows.disconnect; keep = a.keep ∙ l.grows.keep },
    )
