-- ===== src/System/Delivery/Looped.antt =====
-- What the client receives over the drain loop.
use mathlib.Core.List.{append-nil, append_assoc}
use spoton.Prelude.{
  ℕ, ◌+◌, ◌≡◌, refl, ap, sym, ◌∙◌, Bool, true, false, not, ◌||◌, List, [], ◌∷◌, ◌++◌, leb, ◌==◌,
  if◌then◌else◌,
}
use spoton.Ring.Fifo.{contents}
use spoton.Shim.{Shim}
use spoton.Http.Loop.{Http}
use spoton.Http.Drain.{DrainTick, drain_turn, drain_loop, http_drain_budget}
use spoton.System.Client.{SoundHttp}
use spoton.System.Drain.{turn-SoundHttp}
use spoton.System.Delivery.{AllWriters}
use spoton.System.Delivery.Written.{AllQuiet}
use spoton.System.Delivery.Balance.{Account, IsFree, Steady, Steady-trans}
use spoton.System.Delivery.Turned.{turn_stored, turn_whole, turn-Turned}

-- The same over the loop: what comes in, and whether all that left the queue reached the client.
pub loop_stored : List DrainTick → ℕ → ℕ → Http → List ℕ
loop_stored [] o drained h = []
loop_stored (k ∷ ks) o drained h =
    let d = drain_turn k o h in
    let rest = loop_stored ks o (drained + d.drained) d.http in
    if not (h.shim.seek_flush_armed == 0)
      || (h.shim.flush_disconnect || leb http_drain_budget drained)
    then []
    else if d.stopped
    then turn_stored k o h
    else turn_stored k o h ++ rest

unfoldable pub loop_whole : List DrainTick → ℕ → ℕ → Http → Bool
loop_whole [] o drained h = true
loop_whole (k ∷ ks) o drained h =
    let d = drain_turn k o h in
    let rest = loop_whole ks o (drained + d.drained) d.http in
    if not (h.shim.seek_flush_armed == 0)
      || (h.shim.flush_disconnect || leb http_drain_budget drained)
    then true
    else if d.stopped
    then turn_whole k o h
    else rest

abbrev pub AllTicks : List DrainTick → Type 0
AllTicks [] = Unit {0}
AllTicks (k ∷ ks) = (AllWriters k.waiting × AllQuiet k.writing) × AllTicks ks

Account-if :
    {before : List ℕ} (b : Bool) (x y : List ℕ × Http) (xs ys : List ℕ) (p q : Bool)
    → (b ≡ true → Account before xs x.0 (contents x.1.shim.ring) p)
    → (b ≡ false → Account before ys y.0 (contents y.1.shim.ring) q)
    → Account before
        (if b then xs else ys)
        (if b then x else y).0
        (contents (if b then x else y).1.shim.ring)
        (if b then p else q)
Account-if true x y xs ys p q h k = h refl
Account-if false x y xs ys p q h k = k refl

pub nothing : (xs : List ℕ) → Account xs [] [] xs true
nothing xs = record { lost = []; balance = sym (append-nil xs); kept = λ e. refl }

-- A turn that lost nothing, and what follows it.
pub followed :
    {before new2 received2 middle after : List ℕ} {whole : Bool} (new1 received1 : List ℕ)
    → received1 ++ middle ≡ before ++ new1
    → Account middle new2 received2 after whole
    → Account before (new1 ++ new2) (received1 ++ received2) after whole
followed {before} {new2} {received2} {middle} {after} new1 received1 e a = record {
  lost = a.lost;
  balance =
      append_assoc received1 received2 (a.lost ++ after)
      ∙ ap (λ r. received1 ++ r) a.balance
      ∙ sym (append_assoc received1 middle new2)
      ∙ ap (λ r. r ++ new2) e
      ∙ append_assoc before new1 new2;
  kept = a.kept;
}

-- A drain loop for a client with no marker and no connection in the slot, while which the daemon only
-- writes and no connection comes, from a sound state: the bytes that the client receives, then any
-- that were popped and not written, then those still held are the bytes held at first and then those
-- that the daemon stored meanwhile, in order. None is lost if no client write ends short.
pub drain_loop-Account :
    (ks : List DrainTick) (o drained : ℕ) (h : Http)
    → AllTicks ks
    → IsFree h
    → SoundHttp h
    → Account
        (contents h.shim.ring)
        (loop_stored ks o drained h)
        (drain_loop ks o drained h).0
        (contents (drain_loop ks o drained h).1.shim.ring)
        (loop_whole ks o drained h)
unfolding drain_loop loop_stored loop_whole
drain_loop-Account [] o drained h q f v = nothing (contents h.shim.ring)
drain_loop-Account (k ∷ ks) o drained h ((qw, q), qs) f v =
    let d = drain_turn k o h in
    let t = turn-Turned k o h qw q f v in
    let rest =
      drain_loop-Account ks o (drained + d.drained) d.http qs t.free (turn-SoundHttp k o h v) in
    Account-if
      (not (h.shim.seek_flush_armed == 0)
        || (h.shim.flush_disconnect || leb http_drain_budget drained))
      _ _ _ _ _ _ (λ e. nothing (contents h.shim.ring))
      (λ e.
        Account-if d.stopped _ _ _ _ _ _ (λ s. t.account)
          (λ s.
            followed (turn_stored k o h) d.received
              (ap (λ l. d.received ++ (l ++ contents d.http.shim.ring))
                  (sym (t.account.kept (t.going s)))
                ∙ t.account.balance)
              rest))

Free-if :
    {g : Shim} (b : Bool) (x y : List ℕ × Http)
    → IsFree x.1 × Steady g x.1.shim
    → (b ≡ false → IsFree y.1 × Steady g y.1.shim)
    → IsFree (if b then x else y).1 × Steady g (if b then x else y).1.shim
Free-if true x y p q = p
Free-if false x y p q = q refl

pub loop-Free :
    (ks : List DrainTick) (o drained : ℕ) (h : Http)
    → AllTicks ks
    → IsFree h
    → SoundHttp h
    → IsFree (drain_loop ks o drained h).1 × Steady h.shim (drain_loop ks o drained h).1.shim
unfolding drain_loop
loop-Free [] o drained h q f v = (f, record { disconnect = refl; keep = refl })
loop-Free (k ∷ ks) o drained h ((qw, q), qs) f v =
    let d = drain_turn k o h in
    let t = turn-Turned k o h qw q f v in
    let rest = loop-Free ks o (drained + d.drained) d.http qs t.free (turn-SoundHttp k o h v) in
    Free-if
      (not (h.shim.seek_flush_armed == 0)
        || (h.shim.flush_disconnect || leb http_drain_budget drained))
      _ _ (f, record { disconnect = refl; keep = refl })
      (λ e. Free-if d.stopped _ _ (t.free, t.steady) (λ s. (rest.0, Steady-trans t.steady rest.1)))
