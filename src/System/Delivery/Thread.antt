-- ===== src/System/Delivery/Thread.antt =====
-- What the streaming client receives over passes of the HTTP thread's loop.
use mathlib.Core.Path.{subst}
use mathlib.Core.List.{append-nil, append_assoc}
use spoton.Prelude.{ℕ, ◌≡◌, refl, ap, sym, ◌∙◌, Bool, true, false, none, List, [], ◌∷◌, ◌++◌}
use spoton.Ring.Fifo.{contents}
use spoton.Http.Loop.{Http}
use spoton.Http.Pass.{PassInput, pass_drain, http_pass, http_thread}
use spoton.System.Client.{SoundHttp}
use spoton.System.Reach.{run_steps-Sound}
use spoton.System.Passes.{http_pass-Leads}
use spoton.System.Delivery.Balance.{Account}
use spoton.System.Delivery.Looped.{nothing, followed}
use spoton.System.Delivery.Calm.{IsCalm}
use spoton.Prelude.{◌&&◌}
use spoton.System.Delivery.Passed.{
  OnlyWrites, before_drain, dispatched, http_pass-dispatched, pass-Quiet, http_pass-Delivered,
  pass_stored, pass_ended, pass_whole, drain_whole,
}

pass-SoundHttp : (i : PassInput) (h : Http) → SoundHttp h → SoundHttp (http_pass i h).1
pass-SoundHttp i h v =
    let l = http_pass-Leads i h in subst SoundHttp l.end (run_steps-Sound l.steps h v)

-- The passes one behind the other: what the client receives, what the daemon stores, whether the client
-- writes have ended, and whether every byte that was popped reached the client.
pub thread_received : List PassInput → Http → List ℕ
thread_received [] h = []
thread_received (i ∷ is) h = (http_pass i h).0 ++ thread_received is (http_pass i h).1

pub thread_stored : List PassInput → Http → List ℕ
thread_stored [] h = []
thread_stored (i ∷ is) h = pass_stored i h ++ thread_stored is (http_pass i h).1

abbrev pub AllEnded : List PassInput → Http → Type 0
AllEnded [] h = Unit {0}
AllEnded (i ∷ is) h = (pass_ended i h ≡ true) × AllEnded is (http_pass i h).1

pub thread_whole : List PassInput → Http → Bool
thread_whole [] h = true
thread_whole (i ∷ is) h = pass_whole i h && thread_whole is (http_pass i h).1

abbrev pub AllOnlyWrites : List PassInput → Type 0
AllOnlyWrites [] = Unit {0}
AllOnlyWrites (i ∷ is) = OnlyWrites i × AllOnlyWrites is

-- With no client a pass is the daemon's steps.
record Unheard (i : PassInput) (h : Http) : Type 0 where
  passed : http_pass i h ≡ ([], before_drain i h)
  whole : pass_whole i h ≡ true

pass-Unheard :
    (i : PassInput) (h : Http)
    → OnlyWrites i
    → IsCalm h
    → SoundHttp h
    → h.client_fd ≡ none
    → Unheard i h
unfolding pass_whole drain_whole dispatched pass_drain
pass-Unheard i h o c v e =
    let q = pass-Quiet i h o c v in
    record {
      passed = rw (http_pass-dispatched i h, q.behind, e) refl;
      whole = rw (q.behind, e) refl;
    }

thread-Unheard :
    (is : List PassInput) (h : Http)
    → AllOnlyWrites is
    → IsCalm h
    → SoundHttp h
    → h.client_fd ≡ none
    → (thread_received is h ≡ []) × (thread_whole is h ≡ true)
unfolding thread_received thread_whole
thread-Unheard [] h o c v e = (refl, refl)
thread-Unheard (i ∷ is) h (o, os) c v e =
    let u = pass-Unheard i h o c v e in
    let q = pass-Quiet i h o c v in
    rw (u.passed, u.whole) (thread-Unheard is (before_drain i h) os q.second.calm q.second.sound e)

-- Behind a pass that lost bytes, nothing is received.
lost_on :
    {before middle after : List ℕ} (new1 new2 received : List ℕ)
    → Account before new1 received middle false
    → after ≡ middle ++ new2
    → Account before (new1 ++ new2) (received ++ []) after false
lost_on {before} {middle} {after} new1 new2 received a e = record {
  lost = a.lost;
  balance =
      ap (λ r. r ++ (a.lost ++ after)) (append-nil received)
      ∙ ap (λ r. received ++ (a.lost ++ r)) e
      ∙ ap (λ r. received ++ r) (sym (append_assoc a.lost middle new2))
      ∙ sym (append_assoc received (a.lost ++ middle) new2)
      ∙ ap (λ r. r ++ new2) a.balance
      ∙ append_assoc before new1 new2;
  kept = λ w. cc;
}

-- A pass and the passes behind it.
pass_on :
    {before middle after new2 received2 : List ℕ} {whole2 : Bool} (new1 received1 : List ℕ)
    (whole1 : Bool)
    → Account before new1 received1 middle whole1
    → Account middle new2 received2 after whole2
    → (whole1 ≡ false → (received2 ≡ []) × (whole2 ≡ true))
    → Account before (new1 ++ new2) (received1 ++ received2) after (whole1 && whole2)
pass_on {middle = middle} new1 received1 true a b u =
    followed new1 received1 (ap (λ l. received1 ++ (l ++ middle)) (sym (a.kept refl)) ∙ a.balance) b
pass_on {before} {after = after} {new2 = new2} new1 received1 false a b u =
    let n = u refl in
    subst (λ r. Account before (new1 ++ new2) (received1 ++ r) after false) (sym n.0)
      (lost_on new1 new2 received1 a (
        ap (λ l. l ++ after) (sym (b.kept n.1))
        ∙ ap (λ r. r ++ (b.lost ++ after)) (sym n.0)
        ∙ b.balance))

-- Over any number of passes during which the daemon only writes, no connection comes and every client
-- write ends, from a sound state with no marker, no flush under way and an empty slot: the bytes that
-- the client receives, then any that were popped and not written, then those still held are the bytes
-- held at first and then those that the daemon stored meanwhile, in order. None is lost if every
-- client write is complete.
pub http_thread-delivers :
    (is : List PassInput) (h : Http)
    → AllOnlyWrites is
    → AllEnded is h
    → IsCalm h
    → SoundHttp h
    → Account
        (contents h.shim.ring)
        (thread_stored is h)
        (thread_received is h)
        (contents (http_thread is h).shim.ring)
        (thread_whole is h)
unfolding http_thread thread_received thread_stored thread_whole
http_thread-delivers [] h o w c v = nothing (contents h.shim.ring)
http_thread-delivers (i ∷ is) h (o, os) (w, ws) c v =
    let out = http_pass i h in
    let p = http_pass-Delivered i h o c v w in
    let v1 = pass-SoundHttp i h v in
    pass_on (pass_stored i h) out.0 (pass_whole i h) p.account
      (http_thread-delivers is out.1 os ws p.calm v1)
      (λ x. thread-Unheard is out.1 os p.calm v1 (p.lost_client x))
