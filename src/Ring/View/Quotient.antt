-- ===== src/Ring/View/Quotient.antt =====
-- The valid rings, where two that a reader cannot tell apart are one, are the views; the pop and the
-- flush are functions of them.
use mathlib.Core.Quot
use mathlib.Core.Quot.{Quot, Quot-set}
use std.Equiv.{Iso, iso_to_equiv}
use std.Univalence.{iso_to_path, ua-β}
use std.Path.{transport}
use spoton.Prelude.{
  ℕ, ◌+◌, ◌<◌, ◌≡◌, refl, ap, ap₂, sym, ◌∙◌, min, Bool, true, false, Option, none, some, List, [],
  arith, length, take, drop,
}
use mathlib.Core.HLevel.{prop→set, Σ_set}
use spoton.Time.{Clock}
use spoton.Ring.{Ring, hold_release}
use spoton.Ring.Pop.{hold_cap, pop_take, pop_locked, pop_advance, flush_ring}
use spoton.Ring.Valid.{pop_locked-IsValid, flush_ring-IsValid}
use spoton.Ring.Fifo.{contents}
use spoton.Ring.Queue.{pop_limit, pop_locked-Popped}
use spoton.Ring.View.{ValidRing, left_of, Fits-prop, View, View-ext, view, of_view, view-of_view}

-- Rings with the same view.
abbrev pub Queue : ℕ → Type 0
Queue cap = Quot {α = ValidRing cap} (λ a b. (view a).0 ≡ (view b).0)

pub View-set : (cap : ℕ) → IsSet (View cap)
View-set cap = Σ_set (hlevel) (λ q. prop→set (Fits-prop cap q))

abbrev pub view_of : {cap : ℕ} → Queue cap → View cap
view_of {cap} = Quot.lift (View-set cap) (λ a. view a) (λ a b h. View-ext (view a) (view b) h)

Queue-Iso-View : (cap : ℕ) → 0 < cap → Iso (Queue cap) (View cap)
Queue-Iso-View cap p = record {
  fun = view_of;
  inv = λ v. Quot.mk (of_view cap p v);
  rinv = view-of_view cap p;
  linv =
      Quot.ind (λ q. Quot-set _ _) (λ a. Quot.sound (ap (λ v. v.0) (view-of_view cap p (view a))));
}

-- How many bytes a pop may take, and the pop, as its reader sees them.
abbrev limit : Bool → ℕ → Option ℕ → ℕ
limit true m o = 0
limit false m none = m
limit false m (some k) = min m k

abbrev pub view_pop : Bool → ℕ → List ℕ × Option ℕ → List ℕ × (List ℕ × Option ℕ)
view_pop fd m (xs, o) =
    let n = limit fd m o in (take n xs, (drop n xs, left_of o (length (take n xs))))

limit-pop :
    (fd : Bool) (m popped : ℕ) (o : Option ℕ)
    → pop_limit fd m popped o ≡ limit fd m (left_of o popped)
limit-pop true m popped o = refl
limit-pop false m popped none = refl
limit-pop false m popped (some h) = refl

-- A pop leaves the size and the hold.
record Leaves (r r' : Ring) : Type 0 where
  size : r'.capacity ≡ r.capacity
  hold : r'.hold_at ≡ r.hold_at

pop-Leaves : (c : Clock) (fd : Bool) (m : ℕ) (r : Ring) → Leaves r (pop_locked c fd m r).1
unfolding pop_locked hold_cap pop_take pop_advance
pop-Leaves c fd m r = record { size = ground arith; hold = ground arith }

left-moved : (o : Option ℕ) (popped n : ℕ) → left_of o (popped + n) ≡ left_of (left_of o popped) n
left-moved none popped n = refl
left-moved (some h) popped n = ap some (omega arith)

pub popped : {cap : ℕ} → Clock → Bool → ℕ → ValidRing cap → ValidRing cap
popped c fd m a = record {
  ring = (pop_locked c fd m a.ring).1;
  valid = pop_locked-IsValid c fd m a.valid;
  size = (pop-Leaves c fd m a.ring).size ∙ a.size;
}

-- The pop of a ring is the pop of its view.
pub record Pops {cap : ℕ} (a : ValidRing cap) (out : List ℕ × (List ℕ × Option ℕ)) (c : Clock)
    (fd : Bool) (m : ℕ) : Type 0 where
  pub bytes : (pop_locked c fd m a.ring).0 ≡ out.0
  pub rest : (view (popped c fd m a)).0 ≡ out.1

pub pop-Pops :
    {cap : ℕ} (c : Clock) (fd : Bool) (m : ℕ) (a : ValidRing cap)
    → Pops a (view_pop fd m (view a).0) c fd m
unfolding popped
pop-Pops c fd m a =
    let r = a.ring in
    let p = pop_locked-Popped c fd m a.valid in
    let l = pop-Leaves c fd m r in
    let e = limit-pop fd m r.total_popped r.hold_at in
    let bytes = p.bytes ∙ ap (λ n. take n (contents r)) e in
    record {
      bytes = bytes;
      rest = λ i. (
        (p.rest ∙ ap (λ n. drop n (contents r)) e) i,
        (ap₂ left_of l.hold (p.moved ∙ ap (λ xs. r.total_popped + length xs) bytes)
              ∙ left-moved r.hold_at r.total_popped _)
            i,
      );
    }

pub flushed : {cap : ℕ} → Clock → ValidRing cap → ValidRing cap
unfolding flush_ring hold_release
flushed c a = record {
  ring = flush_ring c a.ring;
  valid = flush_ring-IsValid c a.valid;
  size = a.size;
}

pub flush-view : {cap : ℕ} (c : Clock) (a : ValidRing cap) → (view (flushed c a)).0 ≡ ([], none)
unfolding flushed flush_ring hold_release
flush-view c a = refl

pub Popped-set : (cap : ℕ) → IsSet (List ℕ × Queue cap)
Popped-set cap = hlevel (Quot-set)

-- `_ring_pop_timed` behind its wait, and `_ring_flush`, on what a reader can tell apart.
abbrev pub queue_pop : {cap : ℕ} → Clock → Bool → ℕ → Queue cap → List ℕ × Queue cap
queue_pop {cap} c fd m =
    Quot.lift (Popped-set cap) (λ a. ((pop_locked c fd m a.ring).0, Quot.mk (popped c fd m a)))
      (λ a b h.
        let p = pop-Pops c fd m a in
        let q = pop-Pops c fd m b in
        let e = ap (view_pop fd m) h in
        λ i. (
          (p.bytes ∙ ap (λ x. x.0) e ∙ sym q.bytes) i,
          Quot.sound {a = popped c fd m a} {b = popped c fd m b}
              (p.rest ∙ ap (λ x. x.1) e ∙ sym q.rest) i,
        ))

abbrev pub queue_flush : {cap : ℕ} → Clock → Queue cap → Queue cap
queue_flush c =
    Quot.lift Quot-set (λ a. Quot.mk (flushed c a))
      (λ a b h.
        Quot.sound {a = flushed c a} {b = flushed c b} (flush-view c a ∙ sym (flush-view c b)))

-- The type of the queues is the type of the views, and its operations are those of the views.
pub record IsViews (cap : ℕ) : Type 1 where
  pub types : Queue cap ≡ View cap
  pub reads : (q : Queue cap) → transport types q ≡ view_of q
  pub pops :
      (c : Clock) (fd : Bool) (m : ℕ) (q : Queue cap)
      → ((queue_pop c fd m q).0 ≡ (view_pop fd m (view_of q).0).0)
        × ((view_of (queue_pop c fd m q).1).0 ≡ (view_pop fd m (view_of q).0).1)
  pub flushes : (c : Clock) (q : Queue cap) → (view_of (queue_flush c q)).0 ≡ ([], none)

List-set : IsSet (List ℕ)
List-set = hlevel

pair-set : IsSet (List ℕ × Option ℕ)
pair-set = hlevel

-- The valid rings of a positive capacity, where two with the same bytes and as many of them before a
-- standing hold are one, are exactly the queues of at most so many bytes with such a hold: as types
-- they are equal. On them the pop behind its wait and the flush are well defined, whatever the
-- buffers, cursors and clocks are: the pop takes from the front what the hold and a pending
-- flush-disconnect allow, and the flush leaves nothing and no hold.
pub queue-IsViews : (cap : ℕ) → 0 < cap → IsViews cap
unfolding Queue-Iso-View
queue-IsViews cap p = record {
  types = iso_to_path (Queue-Iso-View cap p);
  reads = ua-β (iso_to_equiv (Queue-Iso-View cap p));
  pops = λ c fd m.
      Quot.ind (λ q. hlevel (List-set, pair-set))
        (λ a. let o = pop-Pops c fd m a in (o.bytes, o.rest));
  flushes = λ c. Quot.ind (λ q. pair-set _ _) (λ a. flush-view c a);
}
