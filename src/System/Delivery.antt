-- ===== src/System/Delivery.antt =====
-- What the daemon writes and the streaming client receives, over a drain of the HTTP thread.
pub mod Written
pub mod Balance
pub mod Turned
pub mod Looped
pub mod Calm
pub mod Closed
pub mod Ended
pub mod Passed
pub mod Thread
use mathlib.Core.List.{append-nil, append_assoc}
use spoton.Prelude.{
  ℕ, ◌+◌, ◌≡◌, refl, ap, sym, ◌∙◌, Bool, true, false, Option, none, some, List, [], ◌∷◌, ◌++◌,
  arith, Bool-cases, inl, inr,
}
use spoton.Ring.{Ring}
use spoton.Ring.Valid.{IsValid}
use spoton.Ring.Fifo.{contents}
use spoton.Ring.Push.{Turn, push_turn, push_exit, stop, again, wait}
use spoton.Ring.History.{copied, turned, turn-contents}
use spoton.Time.{Clock}
use spoton.Env.{Environ}
use spoton.Shim.{Shim, Format}
use spoton.Stream.{
  modify_stream, stream_set_started_callback, stream_set_underflow_callback, writable_size,
}
use spoton.Daemon.{
  Daemon, create, connect, disconnect, unref, release, on_started, on_underflow, cork, flush,
  discard, refresh, unmark, settle, query, enter_write, call_started, charge_sink, push,
  finish_push, count_bytes, give_back_lost, leave_write, part, run_daemon, run_daemons, turn_ring,
}
use spoton.System.Sound.{IsSound, run_daemon-Sound}

-- The steps of a write and of what a writer asks beside it: none that discards audio or ends a stream.
abbrev pub IsWriter : Daemon → Type 0
IsWriter (create s fmt) = ⊥
IsWriter (connect e c s) = ⊥
IsWriter (disconnect c s) = ⊥
IsWriter (unref c s) = ⊥
IsWriter (release s) = ⊥
IsWriter (on_started s cb) = Unit {0}
IsWriter (on_underflow s cb) = Unit {0}
IsWriter (cork e c s b) = ⊥
IsWriter (flush e c) = ⊥
IsWriter (discard e c) = ⊥
IsWriter (refresh e c) = ⊥
IsWriter unmark = ⊥
IsWriter (settle e c) = ⊥
IsWriter (query e c fmt) = Unit {0}
IsWriter enter_write = Unit {0}
IsWriter (call_started s) = Unit {0}
IsWriter (charge_sink e c n) = Unit {0}
IsWriter (push e c x xs w) = Unit {0}
IsWriter finish_push = Unit {0}
IsWriter (count_bytes s n) = Unit {0}
IsWriter leave_write = Unit {0}
IsWriter (give_back_lost e c n) = Unit {0}
IsWriter (part p) = ⊥

abbrev pub AllWriters : List Daemon → Type 0
AllWriters [] = Unit {0}
AllWriters (d ∷ ds) = IsWriter d × AllWriters ds

-- The bytes that a step copies into the ring.
abbrev stored_by : Daemon → Shim → List ℕ
stored_by (push e c x xs w) g = copied (x ∷ xs) (push_turn e c g.ring (x ∷ xs) w)
stored_by d g = []

abbrev pub stored : List Daemon → Shim → List ℕ
stored [] g = []
stored (d ∷ ds) g = stored_by d g ++ stored ds (run_daemon d g)

-- The queue has grown at its end by `new`, and the marker and the flags of a flush stand as they stood.
pub record Grows (g g' : Shim) (new : List ℕ) : Type 0 where
  pub bytes : contents g'.ring ≡ contents g.ring ++ new
  pub marker : g'.boundary_at_pushed ≡ g.boundary_at_pushed
  pub disconnect : g'.flush_disconnect ≡ g.flush_disconnect
  pub keep : g'.flush_keep_pending ≡ g.flush_keep_pending

pub Grows-same : (g : Shim) → Grows g g []
Grows-same g = record {
  bytes = sym (append-nil (contents g.ring));
  marker = refl;
  disconnect = refl;
  keep = refl;
}

-- A step beside the queue.
beside :
    {g g' : Shim}
    → contents g'.ring ≡ contents g.ring
    → g'.boundary_at_pushed ≡ g.boundary_at_pushed
    → g'.flush_disconnect ≡ g.flush_disconnect
    → g'.flush_keep_pending ≡ g.flush_keep_pending
    → Grows g g' []
beside {g} e m d k = record {
  bytes = e ∙ sym (append-nil (contents g.ring));
  marker = m;
  disconnect = d;
  keep = k;
}

pub Grows-trans :
    {a b c : Shim} {xs ys : List ℕ} → Grows a b xs → Grows b c ys → Grows a c (xs ++ ys)
Grows-trans {a} {xs = xs} {ys = ys} p q = record {
  bytes = q.bytes ∙ ap (λ r. r ++ ys) p.bytes ∙ append_assoc (contents a.ring) xs ys;
  marker = q.marker ∙ p.marker;
  disconnect = q.disconnect ∙ p.disconnect;
  keep = q.keep ∙ p.keep;
}

turn_ring-turned : (r : Ring) (t : Turn) → turn_ring r t ≡ turned r t
turn_ring-turned r (stop r' w) = refl
turn_ring-turned r (again r' rest w) = refl
turn_ring-turned r (wait w) = refl

query-Grows :
    (e : Environ) (c : Clock) (fmt : Format) (g : Shim) → Grows g (writable_size e c fmt g).0 []
unfolding writable_size
query-Grows e c fmt g = elim (Bool-cases g.http_mode) [
  | inl h ↦ simp h (beside refl refl refl refl)
  | inr h ↦ simp h (beside refl refl refl refl)
]

finish-Grows : (g : Shim) → Grows g (record g { ring = push_exit g.ring }) []
unfolding push_exit
finish-Grows g = record {
  bytes = sym (append-nil (contents g.ring));
  marker = refl;
  disconnect = refl;
  keep = refl;
}

writer-Grows :
    (d : Daemon) (g : Shim) → IsWriter d → IsValid g.ring → Grows g (run_daemon d g) (stored_by d g)
unfolding run_daemon stream_set_started_callback stream_set_underflow_callback modify_stream
writer-Grows (create s fmt) g h v = elim h [ ]
writer-Grows (connect e c s) g h v = elim h [ ]
writer-Grows (disconnect c s) g h v = elim h [ ]
writer-Grows (unref c s) g h v = elim h [ ]
writer-Grows (release s) g h v = elim h [ ]
writer-Grows (cork e c s b) g h v = elim h [ ]
writer-Grows (flush e c) g h v = elim h [ ]
writer-Grows (discard e c) g h v = elim h [ ]
writer-Grows (refresh e c) g h v = elim h [ ]
writer-Grows unmark g h v = elim h [ ]
writer-Grows (settle e c) g h v = elim h [ ]
writer-Grows (part p) g h v = elim h [ ]
writer-Grows (on_started s cb) g h v = beside refl refl refl refl
writer-Grows (on_underflow s cb) g h v = beside refl refl refl refl
writer-Grows (query e c fmt) g h v = query-Grows e c fmt g
writer-Grows enter_write g h v = beside refl refl refl refl
writer-Grows (call_started s) g h v = beside refl refl refl refl
writer-Grows (charge_sink e c n) g h v = beside refl refl refl refl
writer-Grows (push e c x xs w) g h v = record {
  bytes =
      ap contents (turn_ring-turned g.ring (push_turn e c g.ring (x ∷ xs) w))
      ∙ turn-contents e c (x ∷ xs) w g.ring v;
  marker = refl;
  disconnect = refl;
  keep = refl;
}
writer-Grows finish_push g h v = finish-Grows g
writer-Grows (count_bytes s n) g h v = beside refl refl refl refl
writer-Grows leave_write g h v = beside refl refl refl refl
writer-Grows (give_back_lost e c n) g h v = beside refl refl refl refl

pub writers-Grows :
    (ds : List Daemon) {fd : Option ℕ} (g : Shim)
    → AllWriters ds
    → IsSound fd g
    → Grows g (run_daemons ds g) (stored ds g)
unfolding run_daemons
writers-Grows [] g h v = Grows-same g
writers-Grows (d ∷ ds) {fd} g (h, hs) v =
    Grows-trans (writer-Grows d g h v.ring_valid)
      (writers-Grows ds {fd = fd} (run_daemon d g) hs (run_daemon-Sound d g v))
