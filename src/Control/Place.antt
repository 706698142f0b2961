-- ===== src/Control/Place.antt =====
-- Where `POST /boundary` plants its marker: between the read and the write cursor, and at the old
-- title's end where the gap hold stands there.
use spoton.Prelude.{ℕ, ◌≤◌, ◌≡◌, refl, Bool, true, false, Option, none, some, arith}
use spoton.Time.{Clock}
use spoton.Ring.{Ring, hold_release}
use spoton.Ring.Valid.{IsValid, HoldIn, Below, hold_release-IsValid}
use spoton.Control.{drain_place, place_at, place}

drain_place-range :
    (b : Bool) (pushed popped : ℕ) (o : Option ℕ)
    → popped ≤ pushed
    → Below o pushed
    → (popped ≤ (drain_place b pushed popped o).0) × ((drain_place b pushed popped o).0 ≤ pushed)
unfolding drain_place
drain_place-range false pushed popped o h k = ground arith
drain_place-range true pushed popped none h k = ground arith
drain_place-range true pushed popped (some e) h k = ground arith

place_at-range :
    (c : Clock) (b : Bool) (r : Ring) (o ex : Option ℕ)
    → IsValid r
    → HoldIn o r
    → (r.total_popped ≤ (place_at c b r o ex).0.planted)
      × ((place_at c b r o ex).0.planted ≤ r.total_pushed)
unfolding place_at
place_at-range c true r (some h) ex v k = ground arith
place_at-range c false r (some h) ex v k =
    drain_place-range false r.total_pushed r.total_popped r.last_empty_pushed
      (omega (arith, v.cursors)) v.last_empty_in
place_at-range c b r none (some x) v k =
    drain_place-range b r.total_pushed r.total_popped r.last_empty_pushed (omega (arith, v.cursors))
      v.last_empty_in
place_at-range c b r none none v k =
    drain_place-range b r.total_pushed r.total_popped r.last_empty_pushed (omega (arith, v.cursors))
      v.last_empty_in

-- On a valid ring the marker is planted neither ahead of the write cursor nor behind what has been
-- read, whatever the hold and the anchor are.
pub place-range :
    (c : Clock) (b : Bool) {r : Ring}
    → IsValid r
    → (r.total_popped ≤ (place c b r).0.planted) × ((place c b r).0.planted ≤ r.total_pushed)
unfolding place
place-range c b {r} v = place_at-range c b r r.hold_at r.hold_expired_at v v.hold_in

place_at-IsValid :
    (c : Clock) (b : Bool) (r : Ring) (o ex : Option ℕ)
    → IsValid r
    → IsValid (place_at c b r o ex).1
unfolding place_at
place_at-IsValid c true r (some h) ex v = hold_release-IsValid c _ v
place_at-IsValid c false r (some h) ex v = hold_release-IsValid c _ v
place_at-IsValid c b r none (some x) v = ground arith
place_at-IsValid c b r none none v = v

pub place-IsValid : (c : Clock) (b : Bool) {r : Ring} → IsValid r → IsValid (place c b r).1
unfolding place
place-IsValid c b {r} v = place_at-IsValid c b r r.hold_at r.hold_expired_at v

place_at-pushed :
    (c : Clock) (b : Bool) (r : Ring) (o ex : Option ℕ)
    → (place_at c b r o ex).1.total_pushed ≡ r.total_pushed
unfolding place_at hold_release
place_at-pushed c true r (some h) ex = refl
place_at-pushed c false r (some h) ex = refl
place_at-pushed c b r none (some x) = refl
place_at-pushed c b r none none = refl

pub place-pushed : (c : Clock) (b : Bool) (r : Ring) → (place c b r).1.total_pushed ≡ r.total_pushed
unfolding place
place-pushed c b r = place_at-pushed c b r r.hold_at r.hold_expired_at

place_at-client :
    (c : Clock) (b : Bool) (r : Ring) (o ex : Option ℕ)
    → (place_at c b r o ex).1.client_connected ≡ r.client_connected
unfolding place_at hold_release
place_at-client c true r (some h) ex = refl
place_at-client c false r (some h) ex = refl
place_at-client c b r none (some x) = refl
place_at-client c b r none none = refl

pub place-client :
    (c : Clock) (b : Bool) (r : Ring) → (place c b r).1.client_connected ≡ r.client_connected
unfolding place
place-client c b r = place_at-client c b r r.hold_at r.hold_expired_at
