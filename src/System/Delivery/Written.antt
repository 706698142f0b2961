-- ===== src/System/Delivery/Written.antt =====
-- The queue while a chunk is written to the streaming client.
use spoton.Prelude.{
  ℕ, ◌+◌, ◌-◌, ◌≤◌, ◌≡◌, ◌≢◌, refl, sym, ◌∙◌, Bool, true, false, Option, none, List, [], ◌∷◌, ◌++◌,
  arith, ltb, ◌==◌, ◌||◌, if◌then◌else◌,
}
use mathlib.Core.Path.{subst}
use spoton.Time.{Timeval, elapsed_ms}
use spoton.Shim.{Shim}
use spoton.Daemon.{run_daemons}
use spoton.Http.{Slot}
use spoton.Http.Drain.{
  WriteTick, WriteCode, WriteEnd, http_write_client, write_slot, write_accept, write_test, sent_now,
  is_hard, written, gone, unfinished, flush_pending, takeover_pending, orphan,
}
use spoton.System.Sound.{IsSound, run_daemons-Sound}
use spoton.System.Delivery.{AllWriters, stored, Grows, Grows-same, Grows-trans, writers-Grows}

-- The daemon only writes while the chunk is written, and no connection comes.
abbrev pub AllQuiet : List WriteTick → Type 0
AllQuiet [] = Unit {0}
AllQuiet (k ∷ ks) = (AllWriters k.daemon × (k.arrival ≡ none)) × AllQuiet ks

-- What the daemon stores during a write, tick by tick.
pub written_stored : List WriteTick → ℕ → Option ℕ → ℕ → ℕ → Timeval → Slot → List ℕ
written_stored [] o fd left sent t s = []
written_stored (k ∷ ks) o fd left sent t s =
    let s0 = record s { shim = run_daemons k.daemon s.shim } in
    let n = sent_now k.wrote left in
    let s1 = write_slot k fd s0 in
    let progress = if ltb 0 n then k.at.wall else t in
    let here = stored k.daemon s.shim in
    let rest = written_stored ks o fd (left - n) (sent + n) progress s1 in
    if left == 0
    then []
    else if k.hangup || is_hard k.wrote
    then here
    else if left - n == 0
    then here
    else elim (write_test k.at o (elapsed_ms k.at.wall progress) s1) [
      | unfinished ↦ here ++ rest
      | other ↦ here
    ]

-- The shim and the slot behind a write, and how much of its `total` bytes went out where it says so.
pub record Ledger (g : Shim) (total : ℕ) (x : WriteEnd) (new : List ℕ) : Type 0 where
  pub grows : Grows g x.slot.shim new
  pub idle : x.slot.pending.fd ≡ none
  pub whole : x.code ≡ written → x.sent ≡ total

Ledger-if :
    {g : Shim} {total : ℕ} (b : Bool) (x y : WriteEnd) (xs ys : List ℕ)
    → (b ≡ true → Ledger g total x xs)
    → (b ≡ false → Ledger g total y ys)
    → Ledger g total (if b then x else y) (if b then xs else ys)
Ledger-if true x y xs ys h k = h refl
Ledger-if false x y xs ys h k = k refl

Ledger-code :
    {g : Shim} {total : ℕ} (code : WriteCode) (x y : WriteEnd) (xs ys : List ℕ)
    → code ≢ written
    → Ledger g total x xs
    → Grows g y.slot.shim ys
    → y.slot.pending.fd ≡ none
    → Ledger g total
        (elim code as (λ c. WriteEnd) [ unfinished ↦ x | other ↦ record y { code = other } ])
        (elim code as (λ c. List ℕ) [ unfinished ↦ xs | other ↦ ys ])
Ledger-code written x y xs ys n h a b = absurd (n refl)
Ledger-code gone x y xs ys n h a b = record { grows = a; idle = b; whole = λ e. cc }
Ledger-code flush_pending x y xs ys n h a b = record { grows = a; idle = b; whole = λ e. cc }
Ledger-code takeover_pending x y xs ys n h a b = record { grows = a; idle = b; whole = λ e. cc }
Ledger-code orphan x y xs ys n h a b = record { grows = a; idle = b; whole = λ e. cc }
Ledger-code unfinished x y xs ys n h a b = h

write_test-ne-written : (k : WriteTick) (o idle : ℕ) (s : Slot) → write_test k.at o idle s ≢ written
unfolding write_test
write_test-ne-written k o idle s = ground arith

sent_now_le : (k : WriteTick) (left : ℕ) → sent_now k.wrote left ≤ left
unfolding sent_now
sent_now_le k left = ground arith

-- With no connection in the slot or coming, a tick leaves the slot alone.
pub slot_alone :
    (k : WriteTick) (fd : Option ℕ) (s : Slot)
    → k.arrival ≡ none
    → s.pending.fd ≡ none
    → write_slot k fd s ≡ s
unfolding write_slot write_accept
slot_alone k fd s a e = ground arith

pub write-Ledger :
    (ks : List WriteTick) (o : ℕ) (fd : Option ℕ) (left sent : ℕ) (t : Timeval) (s : Slot)
    → AllQuiet ks
    → s.pending.fd ≡ none
    → IsSound fd s.shim
    → Ledger s.shim
        (left + sent)
        (http_write_client ks o fd left sent t s)
        (written_stored ks o fd left sent t s)
unfolding http_write_client written_stored
write-Ledger [] o fd left sent t s q e v = record {
  grows = Grows-same s.shim;
  idle = e;
  whole = λ c. ground arith;
}
write-Ledger (k ∷ ks) o fd left sent t s ((dq, a), q) e v =
    let s0 : Slot = record s { shim = run_daemons k.daemon s.shim } in
    let n = sent_now k.wrote left in
    let le = sent_now_le k left in
    let s1 = write_slot k fd s0 in
    let back = sym (slot_alone k fd s0 a e) in
    let v1 : IsSound fd s1.shim =
      subst (λ x. IsSound fd x.shim) back (run_daemons-Sound k.daemon s.shim v) in
    let g0 = writers-Grows k.daemon {fd = fd} s.shim dq v in
    let g1 : Grows s.shim s1.shim (stored k.daemon s.shim) =
      subst (λ x. Grows s.shim x.shim (stored k.daemon s.shim)) back g0 in
    let e1 : s1.pending.fd ≡ none = subst (λ x. x.pending.fd ≡ none) back e in
    let progress = if ltb 0 n then k.at.wall else t in
    let rest = write-Ledger ks o fd (left - n) (sent + n) progress s1 q e1 v1 in
    Ledger-if (left == 0) _ _ _ _
      (λ z. record { grows = Grows-same s.shim; idle = e; whole = λ c. ground arith })
      (λ z.
        Ledger-if (k.hangup || is_hard k.wrote) _ _ _ _
          (λ f. record { grows = g0; idle = e; whole = λ c. cc })
          (λ f.
            Ledger-if (left - n == 0) _ _ _ _
              (λ d. record { grows = g1; idle = e1; whole = λ c. ground arith })
              (λ d.
                Ledger-code (write_test k.at o (elapsed_ms k.at.wall progress) s1) _
                  (record { code = unfinished; sent = sent + n; slot = s1 }) _ _
                  (write_test-ne-written k o (elapsed_ms k.at.wall progress) s1)
                  (record {
                    grows = Grows-trans g1 rest.grows;
                    idle = rest.idle;
                    whole = λ c. rest.whole c ∙ omega arith;
                  })
                  g1 e1)))
