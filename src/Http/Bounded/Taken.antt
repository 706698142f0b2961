-- ===== src/Http/Bounded/Taken.antt =====
-- Bounded serving: a client write that is taken whole at once, and the trim of its chunk.
use spoton.Prelude.{
  ℕ, ◌+◌, ◌-◌, ◌≤◌, ◌≡◌, refl, ap, min, true, false, Option, none, some, List, [], ◌∷◌, arith, leb,
  ◌==◌, Bool-cases, inl, inr,
}
use spoton.Time.{Clock, Timeval}
use spoton.Request.{ReadResult}
use spoton.Daemon.{run_daemons}
use spoton.Http.{Slot}
use spoton.Http.Drain.{
  bytes, WriteTick, written, write_slot, write_accept, http_write_client, sent_now, trim, applies,
  DrainTick,
}

-- A turn whose write is taken whole at once, with nobody else at work.
abbrev pub whole_tick : Clock → ReadResult → ℕ → WriteTick
whole_tick c res taken = record {
  daemon = [];
  at = c;
  hangup = false;
  wrote = bytes taken;
  arrival = none;
  slot_read = res;
}

pub record WholeTick (k : DrainTick) : Type 0 where
  pub clock : Clock
  pub res : ReadResult
  pub taken : ℕ
  pub once : k.writing ≡ whole_tick clock res taken ∷ []
  pub whole : 16_384 ≤ taken

abbrev pub AllWhole : List DrainTick → Type 0
AllWhole [] = Unit {0}
AllWhole (k ∷ ks) = WholeTick k × AllWhole ks

empty_slot :
    (c : Clock) (res : ReadResult) (n : ℕ) (fd : Option ℕ) (s : Slot)
    → s.pending.fd ≡ none
    → write_slot (whole_tick c res n) fd s ≡ s
unfolding write_slot write_accept
empty_slot c res n fd s q = rw (q) refl

tick_whole :
    (c : Clock) (res : ReadResult) (n o : ℕ) (fd : Option ℕ) (left : ℕ) (t : Timeval) (s : Slot)
    → 1 ≤ left
    → left ≤ n
    → s.pending.fd ≡ none
    → http_write_client (whole_tick c res n ∷ []) o fd left 0 t s
      ≡ record { code = written; sent = left; slot = s }
unfolding http_write_client sent_now run_daemons
tick_whole c res n o fd left t s p m q =
    let some_left : (left == 0) ≡ false = ground arith in
    let all : min n left ≡ left = omega arith in
    let none_left : left - left ≡ 0 = omega arith in
    let sum : 0 + left ≡ left = omega arith in
    rw (some_left, all, none_left, sum)
      (ap (λ s. record { code = written; sent = left; slot = s }) (empty_slot c res n fd s q))

pub whole_write :
    (k : DrainTick) (w : WholeTick k) (o : ℕ) (fd : Option ℕ) (left : ℕ) (t : Timeval) (s : Slot)
    → 1 ≤ left
    → left ≤ 16_384
    → s.pending.fd ≡ none
    → http_write_client k.writing o fd left 0 t s ≡ record { code = written; sent = left; slot = s }
whole_write k w o fd left t s p m q =
    rw w.once (tick_whole w.clock w.res w.taken o fd left t s p (omega (arith, w.whole)) q)

-- A chunk that does not go past the marker is written whole, and ends at it or short of it.
pub trim-whole :
    (b now after n : ℕ) (o gen : Option ℕ)
    → o ≡ some b
    → applies gen now ≡ true
    → after ≤ b
    → n ≤ after
    → trim o gen now after n ≡ record { write_n = n; at_boundary = leb b after; marker = some b }
unfolding trim
trim-whole b now after n o gen e a le m = rw e (elim (Bool-cases (leb b after)) [
  | inl z ↦ let same : b - (after - n) ≡ n = ground arith in rw (z, a, same) refl
  | inr z ↦ rw z refl
])
