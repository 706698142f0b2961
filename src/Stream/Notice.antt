-- ===== src/Stream/Notice.antt =====
-- Plugins/SpotOn/Bin/fake-libpulse/fake-libpulse.c: `_stream_set_state` and its callback, and the calls of
-- the property list and error headers, which keep nothing.
use Prim.Native.String.{String}
use spoton.Prelude.{
  ℕ, ◌≡◌, refl, ◌∙◌, Bool, true, false, Option, none, some, List, [], ◌∷◌, ◌++◌, if◌then◌else◌,
}
use spoton.Prelude.Int.{ℤ, pos}
use spoton.Shim.{StreamState, ready, terminated}

-- The part of `pa_stream` that tells of its state: whether a state callback is set, and whether its
-- context has a main loop.
pub record Notifier : Type 0 where
  pub state : StreamState
  pub state_cb : Bool
  pub has_mainloop : Bool

-- A call of the state callback, or a broadcast on the main loop's condition variable.
pub data Notice : Type 0 where
  told : StreamState → Notice
  broadcast : Notice

abbrev notice_if : Bool → Notice → List Notice
notice_if b n = if b then n ∷ [] else []

-- `_stream_set_state`.
unfoldable pub stream_set_state : StreamState → Option Notifier → Option Notifier × List Notice
stream_set_state st none = (none, [])
stream_set_state st (some s) = (
  some (record s { state = st }),
  notice_if s.state_cb (told st) ++ notice_if s.has_mainloop broadcast,
)

-- `pa_stream_set_state_callback`, with a callback or a null one.
unfoldable pub stream_set_state_callback : Bool → Option Notifier → Option Notifier
stream_set_state_callback cb none = none
stream_set_state_callback cb (some s) = some (record s { state_cb = cb })

-- The calls that end in `_stream_set_state`, and the setter.
pub data NoticeCall : Type 0 where
  connect disconnect : NoticeCall
  listen : Bool → NoticeCall

unfoldable pub run_notice : NoticeCall → Option Notifier → Option Notifier × List Notice
run_notice connect s = stream_set_state ready s
run_notice disconnect s = stream_set_state terminated s
run_notice (listen cb) s = (stream_set_state_callback cb s, [])

unfoldable pub run_notices : List NoticeCall → Option Notifier → Option Notifier × List Notice
run_notices [] s = (s, [])
run_notices (k ∷ ks) s =
    let one = run_notice k s in let rest = run_notices ks one.0 in (rest.0, one.1 ++ rest.1)

-- The last state that a list of notices tells, and `st` where it tells none.
pub last_told : StreamState → List Notice → StreamState
last_told st [] = st
last_told st (told st' ∷ ns) = last_told st' ns
last_told st (broadcast ∷ ns) = last_told st ns

abbrev AllListen : List NoticeCall → Type 0
AllListen [] = Unit {0}
AllListen (connect ∷ ks) = AllListen ks
AllListen (disconnect ∷ ks) = AllListen ks
AllListen (listen cb ∷ ks) = (cb ≡ true) × AllListen ks

heard :
    (st0 st : StreamState) (cb b : Bool) (ns : List Notice)
    → cb ≡ true
    → last_told st0 ((notice_if cb (told st) ++ notice_if b broadcast) ++ ns) ≡ last_told st ns
unfolding last_told
heard st0 st true true ns h = refl
heard st0 st true false ns h = refl
heard st0 st false b ns h = cc

-- What a listener has been told last is the stream's state, whatever calls have been made.
pub run_notices-told :
    (ks : List NoticeCall) (s : Notifier)
    → s.state_cb ≡ true
    → AllListen ks
    → (out : Notifier) × ((run_notices ks (some s)).0 ≡ some out)
      × (last_told s.state (run_notices ks (some s)).1 ≡ out.state)
unfolding run_notices run_notice stream_set_state stream_set_state_callback last_told
run_notices-told [] s h a = (s, refl, refl)
run_notices-told (connect ∷ ks) s h a =
    let r = run_notices-told ks (record s { state = ready }) h a in
    (r.0, r.1, heard s.state ready s.state_cb s.has_mainloop _ h ∙ r.2)
run_notices-told (disconnect ∷ ks) s h a =
    let r = run_notices-told ks (record s { state = terminated }) h a in
    (r.0, r.1, heard s.state terminated s.state_cb s.has_mainloop _ h ∙ r.2)
run_notices-told (listen cb ∷ ks) s h (e, a) = run_notices-told ks (record s { state_cb = cb }) e a

-- `pa_proplist_sets` and `pa_strerror`.
abbrev pub proplist_sets : List ℕ → List ℕ → ℤ
proplist_sets key value = pos 0

abbrev pub strerror : ℤ → String
strerror error = "fake-libpulse: no error (stub, D-06)"
