-- ===== src/System/Delivery/Passed.antt =====
-- What the streaming client receives in one pass of the HTTP thread's loop.
use mathlib.Core.Path.{subst}
use spoton.Prelude.{
  ℕ, ◌≡◌, refl, ap, sym, ◌∙◌, Bool, true, false, none, List, [], ◌++◌, if◌then◌else◌, is_some,
  Bool-cases, inl, inr,
}
use spoton.Ring.Fifo.{contents}
use spoton.Daemon.{Daemon}
use spoton.Http.Loop.{Http, dispatch}
use spoton.Http.Drain.{drain_start, drain_loop}
use spoton.Http.Pass.{
  PassInput, daemon_runs, pass_top, pass_poll, header_sent, pass_dispatch, pass_underrun,
  pass_drain, http_pass,
}
use spoton.System.Sound.{run_daemons-Sound}
use spoton.System.Client.{SoundHttp, start-SoundHttp}
use spoton.System.Delivery.{AllWriters, stored, writers-Grows}
use spoton.System.Delivery.Ended.{loop_ended, loop-closes}
use spoton.System.Delivery.Balance.{Account, IsFree, Steady-trans}
use spoton.System.Delivery.Looped.{
  nothing, followed, AllTicks, loop_stored, loop_whole, drain_loop-Account, loop-Free,
}
use spoton.System.Delivery.Calm.{
  IsCalm, Calm-Steady, top_calm, poll_calm, dispatch_calm, start-Beside, start-slot,
  underrun-Beside,
}

-- The drain of a pass: what comes in during it, whether its client writes have ended, and whether all
-- that it popped reached the client.
pub drain_stored : PassInput → Http → List ℕ
drain_stored i h =
    if is_some h.client_fd then loop_stored i.turns i.orphan_ms 0 (drain_start i.drain_at h) else []

unfoldable pub drain_ended : PassInput → Http → Bool
drain_ended i h =
    if is_some h.client_fd
    then loop_ended i.turns i.orphan_ms 0 (drain_start i.drain_at h)
    else true

unfoldable pub drain_whole : PassInput → Http → Bool
drain_whole i h =
    if is_some h.client_fd
    then loop_whole i.turns i.orphan_ms 0 (drain_start i.drain_at h)
    else true

-- The account of a part of the thread that may lose its client.
pub record Delivered (h : Http) (new : List ℕ) (whole : Bool) (out : List ℕ × Http) : Type 0 where
  pub account : Account (contents h.shim.ring) new out.0 (contents out.1.shim.ring) whole
  pub calm : IsCalm out.1
  pub lost_client : whole ≡ false → out.1.client_fd ≡ none

drain_loop-Delivered :
    (i : PassInput) (h : Http)
    → AllTicks i.turns
    → IsCalm h
    → SoundHttp h
    → loop_ended i.turns i.orphan_ms 0 (drain_start i.drain_at h) ≡ true
    → Delivered h
        (loop_stored i.turns i.orphan_ms 0 (drain_start i.drain_at h))
        (loop_whole i.turns i.orphan_ms 0 (drain_start i.drain_at h))
        (
          (drain_loop i.turns i.orphan_ms 0 (drain_start i.drain_at h)).0,
          pass_underrun i.underrun_at
              (drain_loop i.turns i.orphan_ms 0 (drain_start i.drain_at h)).1,
        )
drain_loop-Delivered i h q c v e =
    let h1 = drain_start i.drain_at h in
    let new = loop_stored i.turns i.orphan_ms 0 h1 in
    let whole = loop_whole i.turns i.orphan_ms 0 h1 in
    let b = start-Beside i.drain_at h in
    let f1 : IsFree h1 = record {
      marker = b.marker ∙ c.free.marker;
      slot = start-slot i.drain_at h ∙ c.free.slot;
    } in
    let v1 = start-SoundHttp i.drain_at v in
    let out = drain_loop i.turns i.orphan_ms 0 h1 in
    let f = loop-Free i.turns i.orphan_ms 0 h1 q f1 v1 in
    let u = underrun-Beside i.underrun_at out.1 in
    record {
      account =
          subst
            (λ x.
              Account x new out.0 (contents (pass_underrun i.underrun_at out.1).shim.ring) whole)
            b.bytes
            (subst (λ x. Account (contents h1.shim.ring) new out.0 x whole) (sym u.0.bytes)
              (drain_loop-Account i.turns i.orphan_ms 0 h1 q f1 v1));
      calm =
          Calm-Steady c
            (record { marker = u.0.marker ∙ f.0.marker; slot = ap (λ p. p.fd) u.1 ∙ f.0.slot })
            (Steady-trans b.steady (Steady-trans f.1 u.0.steady));
      lost_client = λ w.
          u.2
          ∙ loop-closes i.turns i.orphan_ms 0 h1 q f1 v1 (b.steady.disconnect ∙ c.disconnect) e w;
    }

-- Only the daemon's writes come in during a pass.
pub record OnlyWrites (i : PassInput) : Type 0 where
  pub before : AllWriters i.daemon
  pub polling : AllWriters i.polling
  pub alone : i.arrival ≡ none
  pub turns : AllTicks i.turns

drain-Delivered :
    (i : PassInput) (h : Http)
    → OnlyWrites i
    → IsCalm h
    → SoundHttp h
    → drain_ended i h ≡ true
    → Delivered h (drain_stored i h) (drain_whole i h) (pass_drain i h)
unfolding pass_drain drain_stored drain_ended drain_whole
drain-Delivered i h o c v w = elim (Bool-cases (is_some h.client_fd)) [
  | inl e ↦
      (let w1 : loop_ended i.turns i.orphan_ms 0 (drain_start i.drain_at h) ≡ true =
          ap (λ b. if b then loop_ended i.turns i.orphan_ms 0 (drain_start i.drain_at h) else true)
            (sym e)
          ∙ w in
        rw e (drain_loop-Delivered i h o.turns c v w1))
  | inr e ↦
      rw e (record { account = nothing (contents h.shim.ring); calm = c; lost_client = λ x. cc })
]

-- The daemon's steps beside the HTTP thread.
pub record Came (h h' : Http) (new : List ℕ) : Type 0 where
  pub bytes : contents h'.shim.ring ≡ contents h.shim.ring ++ new
  pub calm : IsCalm h'
  pub sound : SoundHttp h'

daemon-Came :
    (ds : List Daemon) (h : Http)
    → AllWriters ds
    → IsCalm h
    → SoundHttp h
    → Came h (daemon_runs ds h) (stored ds h.shim)
daemon-Came ds h q c v =
    let g = writers-Grows ds {fd = h.client_fd} h.shim q v.shim in
    record {
      bytes = g.bytes;
      calm =
          Calm-Steady c (record { marker = g.marker ∙ c.free.marker; slot = c.free.slot })
            (record { disconnect = g.disconnect; keep = g.keep });
      sound = record { shim = run_daemons-Sound ds h.shim v.shim; slot = v.slot };
    }

pub pass_stored : PassInput → Http → List ℕ
pass_stored i h =
    stored i.daemon h.shim
    ++ (stored i.polling (pass_top i h).shim ++ drain_stored i (pass_dispatch i h).0)

unfoldable pub pass_ended : PassInput → Http → Bool
pass_ended i h = drain_ended i (pass_dispatch i h).0

unfoldable pub pass_whole : PassInput → Http → Bool
pass_whole i h = drain_whole i (pass_dispatch i h).0

-- The state in which a pass comes to its drain.
abbrev pub before_drain : PassInput → Http → Http
before_drain i h = daemon_runs i.polling (daemon_runs i.daemon h)

-- Nothing but the daemon comes to the slot before the drain.
pub record Quiet (i : PassInput) (h : Http) : Type 0 where
  pub top : pass_top i h ≡ daemon_runs i.daemon h
  pub behind : pass_dispatch i h ≡ (before_drain i h, false)
  pub first : Came h (daemon_runs i.daemon h) (stored i.daemon h.shim)
  pub second :
      Came
        (daemon_runs i.daemon h)
        (before_drain i h)
        (stored i.polling (daemon_runs i.daemon h).shim)

pub pass-Quiet : (i : PassInput) (h : Http) → OnlyWrites i → IsCalm h → SoundHttp h → Quiet i h
unfolding pass_dispatch
pass-Quiet i h o c v =
    let d = daemon-Came i.daemon h o.before c v in
    let t = top_calm i h d.calm in
    let p = poll_calm i (daemon_runs i.daemon h) o.alone c.free.slot in
    record {
      top = t;
      behind =
          ap (λ x. dispatch i.dispatch_at (header_sent i) (pass_poll i x)) t
          ∙ ap (dispatch i.dispatch_at (header_sent i)) p
          ∙ dispatch_calm i.dispatch_at (header_sent i) _ c.free.slot;
      first = d;
      second = daemon-Came i.polling (daemon_runs i.daemon h) o.polling d.calm d.sound;
    }

joined :
    {h1 h2 : Http} {xs ys : List ℕ} {whole : Bool} {out : List ℕ × Http}
    → Came h1 h2 xs
    → Delivered h2 ys whole out
    → Delivered h1 (xs ++ ys) whole out
joined {xs = xs} p q = record {
  account = followed xs [] p.bytes q.account;
  calm = q.calm;
  lost_client = q.lost_client;
}

unfoldable pub dispatched : PassInput → Http × Bool → List ℕ × Http
dispatched i d = if d.1 then ([], d.0) else pass_drain i d.0

pub http_pass-dispatched :
    (i : PassInput) (h : Http) → http_pass i h ≡ dispatched i (pass_dispatch i h)
unfolding http_pass dispatched
http_pass-dispatched i h = refl

pub http_pass-Delivered :
    (i : PassInput) (h : Http)
    → OnlyWrites i
    → IsCalm h
    → SoundHttp h
    → pass_ended i h ≡ true
    → Delivered h (pass_stored i h) (pass_whole i h) (http_pass i h)
unfolding pass_stored pass_ended pass_whole dispatched
http_pass-Delivered i h o c v =
    let q = pass-Quiet i h o c v in
    rw (http_pass-dispatched i h, q.top, q.behind)
      (λ w.
        joined q.first
          (joined q.second (drain-Delivered i (before_drain i h) o q.second.calm q.second.sound w)))
