-- ===== src/Http/Bounded/Served.antt =====
-- Bounded serving: the drain up to a marker, over the turns of the loop.
use spoton.Prelude.{
  ℕ, zero, suc, ◌+◌, ◌-◌, ◌≤◌, ◌<◌, ◌≡◌, refl, ap, sym, ◌∙◌, true, false, not, ◌||◌, none, some,
  List, [], ◌∷◌, ◌++◌, arith, leb, ◌==◌, length, take, drop, Bool-cases, inl, inr, leb→le,
}
use spoton.Time.{Clock}
use spoton.Ring.{ring_set_client}
use spoton.Ring.Fifo.{contents}
use spoton.Http.Loop.{Http}
use spoton.Http.Bounded.{at_bound}
use spoton.Http.Drain.{DrainTick, drain_turn, drain_loop, bounded_close, http_drain_budget}
use spoton.Http.Bounded.Taken.{AllWhole}
use spoton.Http.Bounded.Whole.{
  Bounded, popped_http, chunk, taken, taken-Popped, length-taken, next-Bounded, turn-whole,
}

take-nil : (n : ℕ) → take {A = ℕ} n [] ≡ []
take-nil zero = refl
take-nil (suc n) = refl

drop-nil : (n : ℕ) → drop {A = ℕ} n [] ≡ []
drop-nil zero = refl
drop-nil (suc n) = refl

succ_add : (m n : ℕ) → suc (m + n) ≡ suc m + n
succ_add m n = omega arith

take-split : (m n : ℕ) (xs : List ℕ) → take m xs ++ take n (drop m xs) ≡ take (m + n) xs
take-split zero n xs = ap (λ k. take k xs) (omega arith)
take-split (suc m) n [] = take-nil n ∙ sym (take-nil (suc m + n))
take-split (suc m) n (x ∷ xs) =
    ap (λ r. x ∷ r) (take-split m n xs) ∙ ap (λ k. take k (x ∷ xs)) (succ_add m n)

drop-split : (m n : ℕ) (xs : List ℕ) → drop n (drop m xs) ≡ drop (m + n) xs
drop-split zero n xs = ap (λ k. drop k xs) (omega arith)
drop-split (suc m) n [] = drop-nil n ∙ sym (drop-nil (suc m + n))
drop-split (suc m) n (x ∷ xs) = drop-split m n xs ∙ ap (λ k. drop k (x ∷ xs)) (succ_add m n)

-- What a client has got that was bounded by `b`: all that was stored up to there and no more; it is closed, the
-- marker is spent, and the rest is kept.
pub record Served (b : ℕ) (h : Http) (out : List ℕ × Http) : Type 0 where
  pub received : out.0 ≡ take (b - h.shim.ring.total_popped) (contents h.shim.ring)
  pub kept : contents out.1.shim.ring ≡ drop (b - h.shim.ring.total_popped) (contents h.shim.ring)
  pub detached : (out.1.client_fd ≡ none) × (out.1.shim.ring.client_connected ≡ false)
  pub spent : out.1.shim.boundary_at_pushed ≡ none
  pub departed : out.1.shim.departed_client_generation ≡ some h.shim.client_generation

-- A turn that reaches the marker, and one that finds it reached.
closed-Served :
    (b : ℕ) (c : Clock) (xs : List ℕ) (h h' : Http)
    → xs ≡ take (b - h.shim.ring.total_popped) (contents h.shim.ring)
    → contents h'.shim.ring ≡ drop (b - h.shim.ring.total_popped) (contents h.shim.ring)
    → h'.shim.client_generation ≡ h.shim.client_generation
    → Served b h (xs, bounded_close c h')
unfolding bounded_close ring_set_client
closed-Served b c xs h h' r k g = record {
  received = r;
  kept = k;
  detached = (refl, refl);
  spent = refl;
  departed = ap some g;
}

later-Served :
    {b : ℕ} {h : Http} (v : Bounded b h) (k : DrainTick) (out : List ℕ × Http)
    → Served b (popped_http b (taken v k).1 h) out
    → Served b h ((taken v k).0 ++ out.0, out.1)
later-Served {b} {h} v k out s =
    let q = taken-Popped v k in
    let left = b - h.shim.ring.total_popped in
    let m = chunk left in
    let more : b - (taken v k).1.total_popped ≡ left - m =
      omega (arith, q.moved, length-taken v k) in
    let sum : m + (left - m) ≡ left = omega arith in
    let old = contents h.shim.ring in
    record {
      received =
          rw (s.received, q.bytes, q.rest, more)
            (take-split m (left - m) old ∙ ap (λ k. take k old) sum);
      kept = s.kept ∙ rw (more, q.rest) (drop-split m (left - m) old ∙ ap (λ k. drop k old) sum);
      detached = s.detached;
      spent = s.spent;
      departed = s.departed;
    }

reached-Served :
    {b : ℕ} {h : Http} (v : Bounded b h) (k : DrainTick)
    → b ≤ (taken v k).1.total_popped
    → Served b h ((taken v k).0, bounded_close k.after_write (popped_http b (taken v k).1 h))
reached-Served {b} {h} v k le =
    let q = taken-Popped v k in
    let all : chunk (b - h.shim.ring.total_popped) ≡ b - h.shim.ring.total_popped =
      omega (arith, q.moved, length-taken v k) in
    closed-Served b k.after_write (taken v k).0 h (popped_http b (taken v k).1 h)
      (q.bytes ∙ ap (λ n. take n (contents h.shim.ring)) all)
      (q.rest ∙ ap (λ n. drop n (contents h.shim.ring)) all) refl

turn-spent :
    {b : ℕ} {h : Http} (v : Bounded b h) (k : DrainTick) (o : ℕ)
    → b ≤ h.shim.ring.total_popped
    → drain_turn k o h
      ≡ record { received = []; http = bounded_close k.at h; drained = 0; stopped = true }
unfolding drain_turn
turn-spent {b} {h} v k o le =
    rw
      (at_bound b h.shim.client_generation h.shim.ring.total_popped h.shim.boundary_at_pushed
        h.shim.boundary_client_generation v.marker v.current le)
      refl

spent-Served :
    {b : ℕ} {h : Http} (c : Clock)
    → b ≤ h.shim.ring.total_popped
    → Served b h ([], bounded_close c h)
spent-Served {b} {h} c le =
    let zero_left : b - h.shim.ring.total_popped ≡ 0 = omega arith in
    closed-Served b c [] h h (rw zero_left refl) (rw zero_left refl) refl

goes_on :
    {b : ℕ} {h : Http} (v : Bounded b h) (drained : ℕ)
    → drained < http_drain_budget
    → (not (h.shim.seek_flush_armed == 0)
        || (h.shim.flush_disconnect || leb http_drain_budget drained))
      ≡ false
goes_on v drained p =
    let short : leb http_drain_budget drained ≡ false = ground arith in
    rw (v.unarmed, v.quiet, short) refl

-- A client is bounded by a marker that is not past the stored bytes; there is no hold, no arm, no flush
-- that waits for the client, and an empty slot. Each write of the drain loop is taken whole at once and
-- nobody else acts meanwhile; there are more turns than bytes to the marker, and these fit the drain's
-- budget. Then the loop sends all bytes up to the marker in order and nothing of those behind it, closes
-- the client, records that it departed, spends the marker, and keeps the bytes behind it in order.
pub drain_loop-Served :
    {b : ℕ} (ks : List DrainTick) (o drained : ℕ) (h : Http)
    → AllWhole ks
    → Bounded b h
    → b - h.shim.ring.total_popped < length ks
    → drained + (b - h.shim.ring.total_popped) < http_drain_budget
    → Served b h (drain_loop ks o drained h)
unfolding drain_loop
drain_loop-Served [] o drained h ws v n m = absurd (omega arith)
drain_loop-Served {b} (k ∷ ks) o drained h (w, ws) v n m =
    let go = goes_on v drained (omega arith) in
    elim (Bool-cases (leb b h.shim.ring.total_popped)) [
      | inl e ↦
          rw (go, turn-spent v k o (leb→le b h.shim.ring.total_popped e))
            (spent-Served k.at (leb→le b h.shim.ring.total_popped e))
      | inr e ↦
          rw (go, turn-whole v k w o (ground arith))
            (elim (Bool-cases (leb b (taken v k).1.total_popped)) [
              | inl f ↦ rw f (reached-Served v k (leb→le b (taken v k).1.total_popped f))
              | inr f ↦
                  let moved = (taken-Popped v k).moved in
                  let some_taken = length-taken v k in
                  rw f (
                    later-Served v k _ (
                      drain_loop-Served ks o (drained + length (taken v k).0)
                        (popped_http b (taken v k).1 h) ws (next-Bounded v k)
                        (ground (arith, moved, some_taken)) (ground (arith, moved, some_taken))))
            ])
    ]
