-- ===== src/Ring/View.antt =====
-- The ring as its reader sees it: the bytes that it holds and how many come before a standing hold.
-- What the buffer, the cursors and the clocks are is forgotten by a quotient of the valid rings.
pub mod Quotient
use spoton.Prelude.{
  ℕ, ◌+◌, ◌-◌, ◌%◌, ◌≤◌, ◌<◌, ◌≡◌, refl, ap, sym, ◌∙◌, min, Bool, true, false, Option, none, some,
  List, [], ◌∷◌, arith, length, take, drop, get_or, tabulate, length-take, length-tabulate,
  tabulate_ext, tabulate-get_or, Bool-cases, inl, inr, ◌==◌, Memory,
}
use mathlib.Core.HLevel.{Σ_prop_path}
use native.Mathlib.Bridge.{le_prop}
use native.Mathlib.Nat.{mod-eq_of_lt, zero-add}
use spoton.Time.{Clock}
use spoton.Ring.{Ring, ring_init}
use spoton.Ring.Pop.{hold_cap, pop_take, pop_locked, pop_advance, flush_ring}
use spoton.Ring.Valid.{IsValid, HoldIn}
use spoton.Ring.Fifo.{contents}
use spoton.Ring.Queue.{length-contents}

pub record ValidRing (cap : ℕ) : Type 0 where
  pub ring : Ring
  pub valid : IsValid ring
  pub size : ring.capacity ≡ cap

abbrev pub left_of : Option ℕ → ℕ → Option ℕ
left_of none popped = none
left_of (some h) popped = some (h - popped)

abbrev pub hold_left : Ring → Option ℕ
hold_left r = left_of r.hold_at r.total_popped

abbrev pub Within : Option ℕ → ℕ → Type 0
Within none n = Unit {0}
Within (some k) n = k ≤ n

-- At most `cap` bytes, and a hold among them or at their end.
abbrev pub Fits : ℕ → List ℕ × Option ℕ → Type 0
Fits cap q = (length q.0 ≤ cap) × Within q.1 (length q.0)

abbrev pub View : ℕ → Type 0
View cap = (q : List ℕ × Option ℕ) × Fits cap q

Within-prop : (o : Option ℕ) (n : ℕ) → IsProp (Within o n)
Within-prop none n = hlevel
Within-prop (some k) n = le_prop

pub Fits-prop : (cap : ℕ) (q : List ℕ × Option ℕ) → IsProp (Fits cap q)
Fits-prop cap q = hlevel (le_prop, Within-prop q.1 (length q.0))

pub View-ext : {cap : ℕ} (a b : View cap) → a.0 ≡ b.0 → a ≡ b
View-ext {cap} a b h = Σ_prop_path (Fits-prop cap) h

pub view-Within :
    (o : Option ℕ) (r : Ring) (n : ℕ)
    → HoldIn o r
    → r.total_popped + n ≡ r.total_pushed
    → Within (left_of o r.total_popped) n
view-Within none r n h e = tt
view-Within (some k) r n h e = omega arith

abbrev pub view : {cap : ℕ} → ValidRing cap → View cap
view {cap} a = (
  (contents a.ring, hold_left a.ring),
  (
    omega (arith, length-contents a.ring, a.valid.fill_le, a.size),
    view-Within a.ring.hold_at a.ring (length (contents a.ring)) a.valid.hold_in
        (omega (arith, length-contents a.ring, a.valid.cursors)),
  ),
)

-- A ring for each view: its bytes from the start of the buffer on, pushed and not yet read.
ring_of : ℕ → List ℕ × Option ℕ → Ring
unfolding ring_init
ring_of cap q = record (ring_init (λ i. get_or q.0 i 0)) {
  capacity = cap;
  head = length q.0 % cap;
  fill = length q.0;
  total_pushed = length q.0;
  client_connected = true;
  hold_at = q.1;
}

ring_of-HoldIn :
    (o : Option ℕ) (r : Ring)
    → r.total_popped ≡ 0
    → r.client_connected ≡ true
    → Within o r.total_pushed
    → HoldIn o r
ring_of-HoldIn none r z c h = tt
ring_of-HoldIn (some k) r z c h = (omega arith, h, c)

left_of-zero : (o : Option ℕ) → left_of o 0 ≡ o
left_of-zero none = refl
left_of-zero (some k) = ground arith

module _ (cap : ℕ) (pos : 0 < cap) where
  ring_of-IsValid : (v : View cap) → IsValid (ring_of cap v.0)
  unfolding ring_of ring_init
  ring_of-IsValid ((xs, o), (f, w)) = record {
    tail_in = pos;
    fill_le = f;
    head_eq = ap (λ n. n % cap) (omega arith);
    cursors = omega arith;
    hold_in = ring_of-HoldIn o (ring_of cap (xs, o)) refl refl w;
    last_empty_in = tt;
    expired_in = tt;
    empty_in = tt;
  }

  pub of_view : View cap → ValidRing cap
  unfolding ring_of
  of_view v = record { ring = ring_of cap v.0; valid = ring_of-IsValid v; size = refl }

  pub view-of_view : (v : View cap) → view (of_view v) ≡ v
  unfolding of_view ring_of ring_init
  view-of_view ((xs, o), (f, w)) = View-ext _ _ (λ i. (
    (tabulate_ext (length xs) _ (λ i. get_or xs i 0)
            (λ i h.
              ap (λ k. get_or xs k 0)
                (mod-eq_of_lt {n = 0 + i} {m = cap} (omega arith) ∙ zero-add i))
          ∙ tabulate-get_or xs 0)
        i,
    left_of-zero o i,
  ))
