-- ===== src/System/Delivery/Turned.antt =====
-- What the client receives in one turn of the drain loop.
use mathlib.Core.List.{append-nil, append_assoc}
use spoton.Prelude.{
  ℕ, ◌≡◌, refl, ap, sym, ◌∙◌, Bool, true, false, Option, List, [], ◌∷◌, ◌++◌, if◌then◌else◌,
  Bool-cases, inl, inr,
}
use spoton.Ring.Pop.{pop_waits}
use spoton.Ring.Push.{pop, run_other}
use spoton.Ring.Fifo.{contents}
use spoton.Ring.History.{other-contents}
use spoton.Shim.{Shim}
use spoton.Daemon.{run_daemons}
use spoton.Http.Loop.{Http}
use spoton.Http.Drain.{
  is_written, bound_left, pop_max, ring_pop_timed, DrainTick, Drained, is_nil, drain_turn,
}
use spoton.System.Sound.{IsSound, run_daemons-Sound}
use spoton.System.Client.{SoundHttp}
use spoton.System.Drain.{popped-Sound}
use spoton.System.Delivery.{AllWriters, stored, Grows, Grows-same, writers-Grows}
use spoton.System.Delivery.Written.{AllQuiet}
use spoton.System.Delivery.Balance.{
  Account, IsFree, Steady, Steady-trans, bound_free, turn_write, write_stored, write-Account,
}

-- What a turn pops, what comes in during it, and whether all that it popped reached the client.
abbrev pub turn_pop : DrainTick → Http → List ℕ × Shim
turn_pop k h =
    let g = h.shim in
    ring_pop_timed k.at k.waiting
      (pop_max (
        bound_left g.boundary_at_pushed g.boundary_client_generation g.client_generation
          g.ring.total_popped))
      g

abbrev waited_stored : DrainTick → Shim → List ℕ
waited_stored k g = if pop_waits g.flush_keep_pending g.ring then stored k.waiting g else []

pub turn_stored : DrainTick → ℕ → Http → List ℕ
turn_stored k o h =
    let out = turn_pop k h in
    waited_stored k h.shim
    ++ (if is_nil out.0 then [] else write_stored k o out.0 (record h { shim = out.1 }))

unfoldable pub turn_whole : DrainTick → ℕ → Http → Bool
turn_whole k o h =
    let out = turn_pop k h in
    if is_nil out.0
    then true
    else is_written (turn_write k o out.0 (record h { shim = out.1 })).code

waits-Grows :
    (k : DrainTick) (g : Shim) {fd : Option ℕ}
    → AllWriters k.waiting
    → IsSound fd g
    → Grows g
        (if pop_waits g.flush_keep_pending g.ring then run_daemons k.waiting g else g)
        (waited_stored k g)
      × IsSound fd (if pop_waits g.flush_keep_pending g.ring then run_daemons k.waiting g else g)
waits-Grows k g {fd} q v = elim (Bool-cases (pop_waits g.flush_keep_pending g.ring)) [
  | inl e ↦ rw e (writers-Grows k.waiting {fd = fd} g q v, run_daemons-Sound k.waiting g v)
  | inr e ↦ rw e (Grows-same g, v)
]

-- A pop takes from the front of the queue that the wait leaves.
pub record Pops (k : DrainTick) (h : Http) : Type 0 where
  pub bytes :
      (turn_pop k h).0 ++ contents (turn_pop k h).1.ring
      ≡ contents h.shim.ring ++ waited_stored k h.shim
  pub marker : (turn_pop k h).1.boundary_at_pushed ≡ h.shim.boundary_at_pushed
  pub steady : Steady h.shim (turn_pop k h).1

pub turn-Pops : (k : DrainTick) (h : Http) → AllWriters k.waiting → SoundHttp h → Pops k h
unfolding ring_pop_timed run_other
turn-Pops k h q v =
    let g = h.shim in
    let m = pop_max (
      bound_left g.boundary_at_pushed g.boundary_client_generation g.client_generation
        g.ring.total_popped) in
    let w = waits-Grows k g {fd = h.client_fd} q v.shim in
    let g1 = if pop_waits g.flush_keep_pending g.ring then run_daemons k.waiting g else g in
    record {
      bytes =
          sym (other-contents (pop k.at g1.flush_disconnect m) g1.ring w.1.ring_valid) ∙ w.0.bytes;
      marker = w.0.marker;
      steady = record { disconnect = w.0.disconnect; keep = w.0.keep };
    }

-- The queue over one turn.
pub record Turned (g : Shim) (before new : List ℕ) (whole : Bool) (d : Drained) : Type 0 where
  pub account : Account before new d.received (contents d.http.shim.ring) whole
  pub free : IsFree d.http
  pub going : d.stopped ≡ false → whole ≡ true
  pub steady : Steady g d.http.shim

Turned-if :
    {g : Shim} {before : List ℕ} {whole : Bool} (came new : List ℕ) (b : Bool) (x y : Drained)
    → (b ≡ true → Turned g before (came ++ []) true x)
    → (b ≡ false → Turned g before (came ++ new) whole y)
    → Turned g before
        (came ++ (if b then [] else new))
        (if b then true else whole)
        (if b then x else y)
Turned-if came new true x y h k = h refl
Turned-if came new false x y h k = k refl

nil_if : (xs : List ℕ) → is_nil xs ≡ true → xs ≡ []
nil_if [] e = refl
nil_if (x ∷ xs) e = cc

pub turn-Turned :
    (k : DrainTick) (o : ℕ) (h : Http)
    → AllWriters k.waiting
    → AllQuiet k.writing
    → IsFree h
    → SoundHttp h
    → Turned h.shim (contents h.shim.ring) (turn_stored k o h) (turn_whole k o h) (drain_turn k o h)
unfolding drain_turn turn_stored turn_whole
turn-Turned k o h qw q f v =
    let g = h.shim in
    let out = turn_pop k h in
    let came = waited_stored k g in
    let h1 : Http = record h { shim = out.1 } in
    let p = turn-Pops k h qw v in
    let f1 : IsFree h1 = record { marker = p.marker ∙ f.marker; slot = f.slot } in
    let v1 : SoundHttp h1 = record {
      shim = popped-Sound k.at k.waiting _ g v.shim;
      slot = v.slot;
    } in
    let w = write-Account k o out.0 h1 q f1 v1 in
    let b =
      bound_free g.boundary_at_pushed g.boundary_client_generation g.client_generation
        g.ring.total_popped f.marker in
    rw b (
      Turned-if came (write_stored k o out.0 h1) (is_nil out.0) _ _
        (λ n. record {
          account = record {
            lost = [];
            balance =
                ap (λ xs. xs ++ contents out.1.ring) (sym (nil_if out.0 n))
                ∙ p.bytes
                ∙ ap (λ r. contents g.ring ++ r) (sym (append-nil came));
            kept = λ e. refl;
          };
          free = f1;
          going = λ e. cc;
          steady = p.steady;
        })
        (λ n. record {
          account = record {
            lost = w.0.lost;
            balance =
                w.0.balance
                ∙ ap (λ r. r ++ write_stored k o out.0 h1) p.bytes
                ∙ append_assoc (contents g.ring) came (write_stored k o out.0 h1);
            kept = w.0.kept;
          };
          free = w.1;
          going = w.2;
          steady = Steady-trans p.steady w.3;
        }))
