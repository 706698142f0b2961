-- ===== src/System/Delivery/Closed.antt =====
-- How a drain loses the streaming client while the daemon writes.
use spoton.Prelude.{
  ℕ, ◌+◌, ◌-◌, ◌≡◌, refl, sym, ◌∙◌, Bool, true, false, ◌||◌, Option, none, List, [], ◌∷◌, arith,
  ltb, ◌==◌, if◌then◌else◌,
}
use mathlib.Core.Path.{subst}
use spoton.Time.{Clock, Timeval, elapsed_ms}
use spoton.Daemon.{run_daemons}
use spoton.Http.{Slot}
use spoton.Http.Loop.{Http}
use spoton.Http.Drain.{
  WriteTick, WriteCode, WriteEnd, http_write_client, write_slot, write_test, sent_now, is_hard,
  is_written, written, gone, unfinished, flush_pending, takeover_pending, orphan, after_write,
}
use spoton.System.Sound.{IsSound, run_daemons-Sound}
use spoton.System.Delivery.{writers-Grows}
use spoton.System.Delivery.Written.{AllQuiet, slot_alone}

-- A write that ended short, and kept its client for a pending flush or a newcomer.
abbrev pub gives_way : WriteCode → Bool
gives_way flush_pending = true
gives_way takeover_pending = true
gives_way written = false
gives_way gone = false
gives_way orphan = false
gives_way unfinished = false

way-if :
    (b : Bool) (x y : WriteEnd)
    → gives_way x.code ≡ false
    → gives_way y.code ≡ false
    → gives_way (if b then x else y).code ≡ false
way-if true x y h k = h
way-if false x y h k = k

way-code :
    (code : WriteCode) (x y : WriteEnd)
    → gives_way code ≡ false
    → gives_way x.code ≡ false
    → gives_way
        (elim code as (λ c. WriteEnd) [ unfinished ↦ x | other ↦ record y { code = other } ]).code
      ≡ false
way-code written x y e h = refl
way-code gone x y e h = refl
way-code orphan x y e h = refl
way-code flush_pending x y e h = cc
way-code takeover_pending x y e h = cc
way-code unfinished x y e h = h

write_test-way :
    (c : Clock) (o idle : ℕ) (s : Slot)
    → s.shim.flush_disconnect ≡ false
    → s.pending.fd ≡ none
    → gives_way (write_test c o idle s) ≡ false
unfolding write_test
write_test-way c o idle s d e = ground (arith, d, e)

-- With no flush under way and nobody in the slot a client write does not give way.
pub http_write_client-way :
    (ks : List WriteTick) (o : ℕ) (fd : Option ℕ) (left sent : ℕ) (t : Timeval) (s : Slot)
    → AllQuiet ks
    → s.shim.flush_disconnect ≡ false
    → s.pending.fd ≡ none
    → IsSound fd s.shim
    → gives_way (http_write_client ks o fd left sent t s).code ≡ false
unfolding http_write_client
http_write_client-way [] o fd left sent t s q d e v = ground arith
http_write_client-way (k ∷ ks) o fd left sent t s ((dq, a), q) d e v =
    let s0 : Slot = record s { shim = run_daemons k.daemon s.shim } in
    let s1 = write_slot k fd s0 in
    let n = sent_now k.wrote left in
    let progress = if ltb 0 n then k.at.wall else t in
    let back = sym (slot_alone k fd s0 a e) in
    let g0 = writers-Grows k.daemon {fd = fd} s.shim dq v in
    let d1 : s1.shim.flush_disconnect ≡ false =
      subst (λ x. x.shim.flush_disconnect ≡ false) back (g0.disconnect ∙ d) in
    let e1 : s1.pending.fd ≡ none = subst (λ x. x.pending.fd ≡ none) back e in
    let v1 : IsSound fd s1.shim =
      subst (λ x. IsSound fd x.shim) back (run_daemons-Sound k.daemon s.shim v) in
    way-if (left == 0) _ _ refl (
      way-if (k.hangup || is_hard k.wrote) _ _ refl (
        way-if (left - n == 0) _ _ refl (
          way-code (write_test k.at o (elapsed_ms k.at.wall progress) s1) _
            (record { code = unfinished; sent = sent + n; slot = s1 })
            (write_test-way k.at o (elapsed_ms k.at.wall progress) s1 d1 e1)
            (http_write_client-way ks o fd (left - n) (sent + n) progress s1 q d1 e1 v1))))

-- A write that has ended.
abbrev pub is_over : WriteCode → Bool
is_over unfinished = false
is_over written = true
is_over gone = true
is_over orphan = true
is_over flush_pending = true
is_over takeover_pending = true

pub after_write-closes :
    (c : Clock) (b : Bool) (code : WriteCode) (h : Http)
    → gives_way code ≡ false
    → is_over code ≡ true
    → is_written code ≡ false
    → (after_write c b code h).client_fd ≡ none
unfolding after_write
after_write-closes c b written h g o w = cc
after_write-closes c b gone h g o w = refl
after_write-closes c b orphan h g o w = refl
after_write-closes c b flush_pending h g o w = cc
after_write-closes c b takeover_pending h g o w = cc
after_write-closes c b unfinished h g o w = cc
