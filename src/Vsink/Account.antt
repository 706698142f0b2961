-- ===== src/Vsink/Account.antt =====
-- What the virtual sink has played over a history of its sites.
use spoton.Prelude.{
  ℕ, ◌+◌, ◌-◌, ◌*◌, ◌≤◌, ◌≡◌, min, Bool, true, false, List, [], ◌∷◌, arith, ltb, ◌==◌,
  if◌then◌else◌, ◌&&◌,
}
use spoton.Ring.{ring_bytes_per_sec}
use spoton.Vsink.{Vsink, vsink_settle, vsink_sync, vsink_reset, vsink_set_running}

-- The sites, each at its time: a reading under a T, the charge of a write, what a write takes back,
-- a cork or uncork, a flush, the underrun's reading, and its count of what it suppressed.
pub data SinkStep : Type 0 where
  sync : ℕ → SinkStep
  charge : ℕ → ℕ → SinkStep
  give_back : ℕ → SinkStep
  set_running : Bool → SinkStep
  reset : SinkStep
  settle_now suppress : SinkStep

unfoldable pub run_sink : ℕ → SinkStep → Vsink → Vsink
run_sink now (sync t) v = vsink_sync now t v
run_sink now (charge t n) v =
    let synced = vsink_sync now t v in
    record synced { q_out = if ltb 0 t then synced.q_out + n else synced.q_out }
run_sink now (give_back n) v = record v { q_out = v.q_out - n }
run_sink now (set_running b) v = vsink_set_running now b v
run_sink now reset v = vsink_reset now v
run_sink now settle_now v = vsink_settle now v
run_sink now suppress v = record v { suppressed = v.suppressed + 1 }

-- The bytes charged, those that were dropped unplayed, and the time for which the sink ran, up to `at`.
pub record Account : Type 0 where
  pub charged : ℕ
  pub dropped : ℕ
  pub running_us : ℕ
  pub at : ℕ

abbrev charged_by : SinkStep → ℕ
charged_by (charge t n) = if ltb 0 t then n else 0
charged_by (sync t) = 0
charged_by (give_back n) = 0
charged_by (set_running b) = 0
charged_by reset = 0
charged_by settle_now = 0
charged_by suppress = 0

-- A reading under another T starts an empty sink.
abbrev dropped_by : SinkStep → Vsink → ℕ
dropped_by (sync t) v = if t == v.t_ms then 0 else v.q_out
dropped_by (charge t n) v = if t == v.t_ms then 0 else v.q_out
dropped_by (give_back n) v = min n v.q_out
dropped_by (set_running b) v = 0
dropped_by reset v = v.q_out
dropped_by settle_now v = 0
dropped_by suppress v = 0

abbrev pub account_step : ℕ → SinkStep → Vsink → Account → Account
account_step now s v a = record {
  charged = a.charged + charged_by s;
  dropped = a.dropped + dropped_by s v;
  running_us = a.running_us + (if v.running then now - a.at else 0);
  at = now;
}

-- The part of the running time that no reading has settled yet.
abbrev unsettled : Vsink → ℕ → ℕ
unsettled v now = if v.running && ltb 0 v.last_us then now - v.last_us else 0

-- Each byte charged is in the sink, dropped or played, and the sink has not played faster than the
-- stream's rate while it ran.
pub record AtRate (v : Vsink) (a : Account) : Type 0 where
  pub played : ℕ
  pub balance : v.q_out + a.dropped + played ≡ a.charged
  pub rate :
      played * 1_000_000 + v.frac + unsettled v a.at * ring_bytes_per_sec
      ≤ a.running_us * ring_bytes_per_sec
  pub read : v.last_us ≤ a.at

-- A reading at the time of the account.
settled : (v : Vsink) (a : Account) → AtRate v a → AtRate (vsink_settle a.at v) a
unfolding vsink_settle
settled v a r = record {
  played = r.played + (v.q_out - (vsink_settle a.at v).q_out);
  balance = ground arith;
  rate = ground arith;
  read = ground arith;
}

AtRate-if :
    {a : Account} (b : Bool) (x y : Vsink) → AtRate x a → AtRate y a → AtRate (if b then x else y) a
AtRate-if true x y h k = h
AtRate-if false x y h k = k

-- The time passes, and a sink under another T is emptied.
moved :
    (now t : ℕ) (v : Vsink) (a : Account)
    → a.at ≤ now
    → AtRate v a
    → AtRate
        (if t == v.t_ms then v else record v { t_ms = t; q_out = 0; frac = 0; last_us = 0 })
        (account_step now (sync t) v a)
moved now t v a h r = record {
  played = r.played;
  balance = ground arith;
  rate = ground arith;
  read = ground arith;
}

sync-AtRate :
    (now t : ℕ) (v : Vsink) (a : Account)
    → a.at ≤ now
    → AtRate v a
    → AtRate (vsink_sync now t v) (account_step now (sync t) v a)
unfolding vsink_sync
sync-AtRate now t v a h r = let m = moved now t v a h r in AtRate-if (ltb 0 t) _ _ (settled _ _ m) m

step-AtRate :
    (now : ℕ) (s : SinkStep) (v : Vsink) (a : Account)
    → a.at ≤ now
    → AtRate v a
    → AtRate (run_sink now s v) (account_step now s v a)
unfolding run_sink vsink_settle vsink_reset vsink_set_running
step-AtRate now (sync t) v a h r = sync-AtRate now t v a h r
step-AtRate now (charge t n) v a h r =
    let q = sync-AtRate now t v a h r in
    record { played = q.played; balance = ground (arith, q.balance); rate = q.rate; read = q.read }
step-AtRate now (give_back n) v a h r = record {
  played = r.played;
  balance = ground arith;
  rate = ground arith;
  read = ground arith;
}
step-AtRate now (set_running b) v a h r = record {
  played = r.played;
  balance = ground arith;
  rate = ground arith;
  read = ground arith;
}
step-AtRate now reset v a h r = record {
  played = r.played;
  balance = ground arith;
  rate = ground arith;
  read = ground arith;
}
step-AtRate now settle_now v a h r = record {
  played = r.played + (v.q_out - (vsink_settle now v).q_out);
  balance = ground arith;
  rate = ground arith;
  read = ground arith;
}
step-AtRate now suppress v a h r = record {
  played = r.played;
  balance = ground arith;
  rate = ground arith;
  read = ground arith;
}

-- The sites at their times, which do not run backwards.
abbrev pub Ordered : ℕ → List (ℕ × SinkStep) → Type 0
Ordered at [] = Unit {0}
Ordered at ((now, s) ∷ ss) = (at ≤ now) × Ordered now ss

unfoldable pub run_sinks : List (ℕ × SinkStep) → Vsink → Vsink
run_sinks [] v = v
run_sinks ((now, s) ∷ ss) v = run_sinks ss (run_sink now s v)

unfoldable pub account : List (ℕ × SinkStep) → Vsink → Account → Account
account [] v a = a
account ((now, s) ∷ ss) v a = account ss (run_sink now s v) (account_step now s v a)

-- Over any history of the sink's sites, at times that do not run backwards: each byte charged is in
-- the sink, dropped by a flush, a change of T or a write that takes it back, or played; and the sink
-- has played no faster than the stream's rate while it ran, and nothing while it did not.
pub run_sinks-AtRate :
    (ss : List (ℕ × SinkStep)) (v : Vsink) (a : Account)
    → Ordered a.at ss
    → AtRate v a
    → AtRate (run_sinks ss v) (account ss v a)
unfolding run_sinks account
run_sinks-AtRate [] v a o r = r
run_sinks-AtRate ((now, s) ∷ ss) v a (h, o) r =
    run_sinks-AtRate ss (run_sink now s v) (account_step now s v a) o (step-AtRate now s v a h r)
