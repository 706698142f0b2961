-- ===== src/System/Delivery/Ended.antt =====
-- The turns and the loop of a drain that loses the streaming client while the daemon writes.
use spoton.Prelude.{
  ℕ, ◌+◌, ◌≡◌, refl, ◌∙◌, Bool, true, false, not, ◌||◌, none, List, [], ◌∷◌, leb, ◌==◌,
  if◌then◌else◌,
}
use spoton.Http.Loop.{Http}
use spoton.Http.Drain.{
  is_written, DrainTick, Drained, is_nil, drain_write, drain_turn, drain_loop, http_drain_budget,
}
use spoton.System.Client.{SoundHttp}
use spoton.System.Drain.{turn-SoundHttp, popped-Sound}
use spoton.System.Delivery.{AllWriters}
use spoton.System.Delivery.Written.{AllQuiet}
use spoton.System.Delivery.Balance.{
  IsFree, bound_free, turn_trim, turn_slot, turn_write, slot-Sound,
}
use spoton.System.Delivery.Turned.{turn_pop, turn-Pops, turn_whole, turn-Turned}
use spoton.System.Delivery.Looped.{AllTicks, loop_whole}
use spoton.System.Delivery.Closed.{http_write_client-way, is_over, after_write-closes}

drain_write-closes :
    (k : DrainTick) (o : ℕ) (xs : List ℕ) (h : Http)
    → AllQuiet k.writing
    → IsFree h
    → SoundHttp h
    → h.shim.flush_disconnect ≡ false
    → is_over (turn_write k o xs h).code ≡ true
    → is_written (turn_write k o xs h).code ≡ false
    → (drain_write k o xs h).http.client_fd ≡ none
unfolding drain_write
drain_write-closes k o xs h q f v d =
    after_write-closes k.after_write (turn_trim xs h.shim).at_boundary (turn_write k o xs h).code _
      (http_write_client-way k.writing o h.client_fd (turn_trim xs h.shim).write_n 0 k.at.wall
        (turn_slot xs h) q d f.slot (slot-Sound xs h f v))

-- Whether the write of a turn has ended.
unfoldable pub turn_ended : DrainTick → ℕ → Http → Bool
turn_ended k o h =
    let out = turn_pop k h in
    if is_nil out.0 then true else is_over (turn_write k o out.0 (record h { shim = out.1 })).code

closes-if :
    (b : Bool) (x y : Drained) (p q : Bool)
    → (b ≡ false → p ≡ true → q ≡ false → y.http.client_fd ≡ none)
    → (if b then true else p) ≡ true
    → (if b then true else q) ≡ false
    → (if b then x else y).http.client_fd ≡ none
closes-if true x y p q h e w = cc
closes-if false x y p q h e w = h refl e w

turn-closes :
    (k : DrainTick) (o : ℕ) (h : Http)
    → AllWriters k.waiting
    → AllQuiet k.writing
    → IsFree h
    → SoundHttp h
    → h.shim.flush_disconnect ≡ false
    → turn_ended k o h ≡ true
    → turn_whole k o h ≡ false
    → (drain_turn k o h).http.client_fd ≡ none
unfolding drain_turn turn_ended turn_whole
turn-closes k o h qw q f v d =
    let g = h.shim in
    let out = turn_pop k h in
    let h1 : Http = record h { shim = out.1 } in
    let p = turn-Pops k h qw v in
    let f1 : IsFree h1 = record { marker = p.marker ∙ f.marker; slot = f.slot } in
    let v1 : SoundHttp h1 = record {
      shim = popped-Sound k.at k.waiting _ g v.shim;
      slot = v.slot;
    } in
    let b =
      bound_free g.boundary_at_pushed g.boundary_client_generation g.client_generation
        g.ring.total_popped f.marker in
    rw b (
      closes-if (is_nil out.0) _ _ _ _
        (λ n. drain_write-closes k o out.0 h1 q f1 v1 (p.steady.disconnect ∙ d)))

-- Whether the last client write of the loop has ended. A loop goes on only behind one that has.
unfoldable pub loop_ended : List DrainTick → ℕ → ℕ → Http → Bool
unfolding turn_ended
loop_ended [] o drained h = true
loop_ended (k ∷ ks) o drained h =
    let d = drain_turn k o h in
    let rest = loop_ended ks o (drained + d.drained) d.http in
    if not (h.shim.seek_flush_armed == 0)
      || (h.shim.flush_disconnect || leb http_drain_budget drained)
    then true
    else if d.stopped
    then turn_ended k o h
    else rest

lost-if :
    (b : Bool) (x y : List ℕ × Http) (p q : Bool)
    → (p ≡ true → q ≡ false → y.1.client_fd ≡ none)
    → (if b then true else p) ≡ true
    → (if b then true else q) ≡ false
    → (if b then x else y).1.client_fd ≡ none
lost-if true x y p q h e w = cc
lost-if false x y p q h e w = h e w

either :
    (b : Bool) (x y : List ℕ × Http) (p p' q q' : Bool)
    → (p ≡ true → q ≡ false → x.1.client_fd ≡ none)
    → (p' ≡ true → q' ≡ false → y.1.client_fd ≡ none)
    → (if b then p else p') ≡ true
    → (if b then q else q') ≡ false
    → (if b then x else y).1.client_fd ≡ none
either true x y p p' q q' h k e w = h e w
either false x y p p' q q' h k e w = k e w

-- A loop that has lost bytes has lost its client.
pub loop-closes :
    (ks : List DrainTick) (o drained : ℕ) (h : Http)
    → AllTicks ks
    → IsFree h
    → SoundHttp h
    → h.shim.flush_disconnect ≡ false
    → loop_ended ks o drained h ≡ true
    → loop_whole ks o drained h ≡ false
    → (drain_loop ks o drained h).1.client_fd ≡ none
unfolding drain_loop loop_ended loop_whole
loop-closes [] o drained h q f v d = λ e w. cc
loop-closes (k ∷ ks) o drained h ((qw, q), qs) f v d =
    let x = drain_turn k o h in
    let t = turn-Turned k o h qw q f v in
    lost-if
      (not (h.shim.seek_flush_armed == 0)
        || (h.shim.flush_disconnect || leb http_drain_budget drained))
      _ _ _ _
      (either x.stopped _ _ _ _ _ _ (turn-closes k o h qw q f v d) (
        loop-closes ks o (drained + x.drained) x.http qs t.free (turn-SoundHttp k o h v)
          (t.steady.disconnect ∙ d)))
