-- ===== src/Stream/Write/Stored.antt =====
-- A write that fits into the ring is stored at once, whatever its format.
use spoton.Prelude.{
  ℕ, zero, suc, ◌+◌, ◌-◌, ◌≤◌, ◌≡◌, true, false, Option, some, List, [], ◌∷◌, ◌++◌, arith, ◌==◌,
  if◌then◌else◌, length, refl, sym, ap, ◌∙◌, not, ◌||◌, none,
}
use mathlib.Core.Path.{subst}
use mathlib.Core.List.{append-nil, append_assoc}
use spoton.Time.{Clock}
use spoton.Env.{Environ, vsink_env_ms}
use spoton.Ring.{Ring}
use spoton.Ring.Push.{
  RingWrite, new_write, Wake, Pushed, done, blocked, no_fuel, ring_push, push_exit, is_stale,
}
use spoton.Ring.Valid.{IsValid}
use spoton.Prelude.{length-append, Bool-cases, inl, inr}
use spoton.Ring.Queue.{length-contents}
use spoton.Ring.Fifo.{contents}
use spoton.Ring.Writer.{ring_push-Balanced}
use spoton.Ring.Fits.{Stored, ring_push-fits}
use spoton.Vsink.{Vsink}
use spoton.Shim.{Shim, Format}
use spoton.Stream.{modify_stream, writable_size, sink_room}
use spoton.Stream.Write.Convert.{join}
use spoton.Stream.Write.{
  FloatToS32, then_push, push_all, pushes, WriteResult, accepted, waiting, rejected, write_end,
  stream_write,
}
use spoton.Stream.Write.Total.{Through, Balanced-Through, writers-IsValid, eq_zero, nothing_pushed}

-- The write returned, and its bytes stand in order behind those that the ring held.
abbrev pub AcceptedAs : Ring → List ℕ → WriteResult → Type 0
AcceptedAs r bytes (accepted g) = contents g.ring ≡ contents r ++ bytes
AcceptedAs r bytes (waiting g) = ⊥
AcceptedAs r bytes rejected = ⊥

told_le :
    (e : Environ) (c : Clock) (fmt : Format) (g : Shim)
    → g.http_mode ≡ true
    → (writable_size e c fmt g).1 ≤ g.ring.capacity - g.ring.fill
unfolding writable_size sink_room
told_le e c fmt g h = ground arith

fuel_fits :
    (f : ℕ) (e : Environ) (c : Clock) (wakes : List Wake) (r : Ring) (xs : List ℕ)
    (w : Option RingWrite)
    → 2 ≤ f
    → IsValid r
    → length xs + r.fill ≤ r.capacity
    → is_stale r w ≡ false
    → Stored r xs w (ring_push f e c wakes r xs w)
fuel_fits zero e c wakes r xs w h v k q = absurd (omega arith)
fuel_fits (suc zero) e c wakes r xs w h v k q = absurd (omega arith)
fuel_fits (suc (suc f)) e c wakes r xs w h v k q = ring_push-fits f e c wakes r xs w v k q

end-AcceptedAs :
    (ms : ℕ) (m : Vsink → Vsink) (s n : ℕ) (r : Ring) (xs : List ℕ) (w : Option RingWrite)
    (o : Pushed) (g : Shim)
    → Stored r xs w o
    → AcceptedAs r xs (write_end ms m s n o g)
unfolding write_end
end-AcceptedAs ms m s n r xs w (done r' w') g q = q.0
end-AcceptedAs ms m s n r xs w (blocked r' rest w') g q = q
end-AcceptedAs ms m s n r xs w no_fuel g q = q

-- One push with no wake-up, of bytes that fit.
one-Stored :
    (e : Environ) (c : Clock) (r : Ring) (xs : List ℕ) (w : Option RingWrite)
    → IsValid r
    → length xs + r.fill ≤ r.capacity
    → is_stale r w ≡ false
    → Stored r xs w (ring_push (length xs + 1) e c [] r xs w)
unfolding ring_push push_exit
one-Stored e c r [] w v k q = (sym (append-nil (contents r)), refl, refl, refl, refl)
one-Stored e c r (x ∷ xs) w v k q =
    fuel_fits (length (x ∷ xs) + 1) e c [] r (x ∷ xs) w (omega arith) v k q

pub own_epoch :
    (r : Ring) (n : ℕ)
    → is_stale (record r { writers_in = n }) (some (new_write r.flush_epoch)) ≡ false
unfolding is_stale
own_epoch r n = ground arith

stale_epoch :
    (r r' : Ring) (w : Option RingWrite)
    → r'.flush_epoch ≡ r.flush_epoch
    → is_stale r w ≡ false
    → is_stale r' w ≡ false
unfolding is_stale
stale_epoch r r' none e q = refl
stale_epoch r r' (some w) e q = ap (λ n. w.abandoned || not (n == w.epoch)) e ∙ q

shifted :
    (r r' : Ring) (xs rest : List ℕ) (w : Option RingWrite) (o : Pushed)
    → Stored r xs w (done r' w)
    → Stored r' rest w o
    → Stored r (xs ++ rest) w o
shifted r r' xs rest w (done r2 w2) q k = (
  k.0 ∙ ap (λ l. l ++ rest) q.0 ∙ append_assoc (contents r) xs rest,
  k.1,
  k.2 ∙ q.2,
  k.3 ∙ q.3,
  k.4 ∙ q.4,
)
shifted r r' xs rest w (blocked r2 left w2) q k = k
shifted r r' xs rest w no_fuel q k = k

-- A push that is stored, and the pushes behind it.
then-Stored :
    (r : Ring) (xs rest : List ℕ) (w : Option RingWrite) (o : Pushed)
    (next : Ring → Option RingWrite → Pushed)
    → Stored r xs w o
    → Through o
    → ((r' : Ring) → IsValid r' → Stored r xs w (done r' w) → Stored r' rest w (next r' w))
    → Stored r (xs ++ rest) w (then_push o next)
then-Stored r xs rest w (done r' w') next q v h =
    let same : Stored r xs w (done r' w) = (q.0, refl, q.2, q.3, q.4) in
    subst (λ u. Stored r (xs ++ rest) w (next r' u)) (sym q.1)
      (shifted r r' xs rest w (next r' w) same (h r' v same))
then-Stored r xs rest w (blocked r' left w') next q v h = q
then-Stored r xs rest w no_fuel next q v h = q

room_left :
    (r r' : Ring) (xs rest : List ℕ) (w : Option RingWrite)
    → length (xs ++ rest) + r.fill ≤ r.capacity
    → Stored r xs w (done r' w)
    → length rest + r'.fill ≤ r'.capacity
room_left r r' xs rest w k q = omega (
  arith,
  length-append xs rest,
  length-contents r',
  length-contents r,
  ap length q.0,
  length-append (contents r) xs,
  q.2,
)

pub push_all-Stored :
    (e : Environ) (c : Clock) (xss : List (List ℕ)) (r : Ring) (w : Option RingWrite)
    → IsValid r
    → length (join xss) + r.fill ≤ r.capacity
    → is_stale r w ≡ false
    → Stored r (join xss) w (push_all e c xss [] r w)
unfolding push_all
push_all-Stored e c [] r w v k q = (sym (append-nil (contents r)), refl, refl, refl, refl)
push_all-Stored e c (xs ∷ rest) r w v k q =
    then-Stored r xs (join rest) w _ (push_all e c rest [])
      (one-Stored e c r xs w v (omega (arith, length-append xs (join rest))) q)
      (Balanced-Through r (length xs) w _
        (ring_push-Balanced (length xs + 1) e c [] r xs w v (omega arith)))
      (λ r' v' s.
        push_all-Stored e c rest r' w v' (room_left r r' xs (join rest) w k s)
          (stale_epoch r r' w s.3 q))

stored_all :
    (e : Environ) (c : Clock) (ms : ℕ) (m : Vsink → Vsink) (s n : ℕ) (xss : List (List ℕ))
    (r : Ring) (g : Shim)
    → IsValid r
    → length (join xss) + r.fill ≤ r.capacity
    → (n ≡ 0 → join xss ≡ [])
    → AcceptedAs r (join xss) (
        write_end ms m s n
          (if n == 0
            then done (record r { writers_in = r.writers_in + 1 }) none
            else push_all e c xss []
                (record r { writers_in = r.writers_in + 1 })
                (some (new_write r.flush_epoch)))
          g)
unfolding write_end
stored_all e c ms m s n xss r g v k z = elim (Bool-cases (n == 0)) [
  | inl e0 ↦
      rw e0 (sym (append-nil (contents r)) ∙ ap (λ l. contents r ++ l) (sym (z (eq_zero n e0))))
  | inr e0 ↦ rw e0 (
      end-AcceptedAs ms m s n r (join xss) (some (new_write r.flush_epoch)) _ g (
        push_all-Stored e c xss (record r { writers_in = r.writers_in + 1 })
          (some (new_write r.flush_epoch)) (writers-IsValid (r.writers_in + 1) v) k
          (own_epoch r (r.writers_in + 1))))
]

-- On a valid ring in HTTP mode, a write of any format whose converted bytes are at most what
-- `pa_stream_writable_size` told the daemon, with nothing between, returns, and those bytes are
-- stored in order behind those that the ring held.
pub stream_write-told :
    (conv : FloatToS32) (e : Environ) (c c' : Clock) (m : Vsink → Vsink) (s : ℕ) (fmt : Format)
    (bytes : List ℕ) (g : Shim)
    → IsValid g.ring
    → g.http_mode ≡ true
    → length (join (pushes conv fmt bytes)) ≤ (writable_size e c fmt g).1
    → AcceptedAs g.ring
        (join (pushes conv fmt bytes))
        (stream_write conv e c' [] m s fmt bytes (writable_size e c fmt g).0)
unfolding stream_write modify_stream writable_size
stream_write-told conv e c c' m s fmt bytes g v h k =
    let room : length (join (pushes conv fmt bytes)) + g.ring.fill ≤ g.ring.capacity =
      omega (arith, told_le e c fmt g h, v.fill_le) in
    simp h (
      stored_all e c' (vsink_env_ms e) m s (length bytes) (pushes conv fmt bytes) g.ring _ v room
        (nothing_pushed conv fmt bytes))
