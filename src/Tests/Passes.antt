-- ===== src/Tests/Passes.antt =====
-- Runs of whole passes of the HTTP thread's loop.
use spoton.Prelude.{ℕ, ◌≡◌, ◌≢◌, refl, false, none, some, List, [], ◌∷◌, ◌++◌, arith}
use spoton.Time.{elapsed_ms}
use spoton.Request.{codes, got, strstr, pending_head_complete, append_read, pending_is_control}
use spoton.Http.{classify}
use spoton.Http.Loop.{Http, readable, read_pending, take_polled}
use spoton.Http.Drain.{DrainTick, bytes, retry, drain_loop}
use spoton.Http.Reply.{Delivered, Writable, ready, going_on, http_write_all, http_write_all-Ended}
use spoton.Http.Pass.{PassInput, http_thread, pass_dispatch, header_sent}
use spoton.Http.Pass.Attach.{IsPartial, Waits, Completes, http_pass-attaches}
use spoton.Http.Pass.Budget.{drain_loop-ends}
use spoton.Tests.Fixtures.{at, two, shim, attached, idle}

-- A request that comes in two pieces.
abbrev first_piece : PassInput
first_piece = record idle { polled = readable (got (codes "GET /str")) }

abbrev last_piece : PassInput
last_piece = record idle {
  polled = readable (got (codes "eam HTTP/1.0\r\n\r\n"));
  header = ready (bytes 30) ∷ ready retry ∷ ready (bytes 100) ∷ [];
}

abbrev nobody : Http
nobody = record {
  shim = shim two;
  client_fd = none;
  pending = record {
    fd = some 9;
    buf = [];
    len = 0;
    started = record { sec = 1; usec = 0 };
    from_loopback = false;
  };
}

half-IsPartial : IsPartial (append_read nobody.pending (codes "GET /str"))
unfolding append_read pending_head_complete strstr
half-IsPartial = record { no_head = refl; room = refl }

first-Waits : Waits first_piece nobody.pending
unfolding read_pending take_polled append_read pending_head_complete strstr elapsed_ms
first-Waits = record {
  alone = refl;
  open_still = refl;
  unread = half-IsPartial;
  in_time = omega arith;
}

last-Completes : Completes last_piece (append_read nobody.pending (codes "GET /str"))
unfolding read_pending take_polled append_read pending_head_complete strstr classify
    pending_is_control header_sent http_write_all
last-Completes = record {
  alone = refl;
  open_still = refl;
  whole = refl;
  for_stream = refl;
  answered = refl;
}

http_pass-attaches_example :
    ((http_thread (first_piece ∷ []) nobody).client_fd ≡ none)
    × ((pass_dispatch last_piece (http_thread (first_piece ∷ []) nobody)).0.client_fd ≡ some 9)
unfolding read_pending take_polled append_read pending_head_complete strstr
http_pass-attaches_example =
    http_pass-attaches (first_piece ∷ []) last_piece nobody 9 refl refl (first-Waits, tt)
      last-Completes

abbrev reply : List ℕ
reply = 65 ∷ 66 ∷ 67 ∷ []

abbrev slowly : List Writable
slowly = ready (bytes 1) ∷ ready retry ∷ ready (bytes 1) ∷ ready (bytes 1) ∷ []

http_write_all-Ended_example :
    Delivered reply (http_write_all slowly reply) × ((http_write_all slowly reply).code ≢ going_on)
http_write_all-Ended_example = http_write_all-Ended slowly reply (omega arith)

abbrev tick : DrainTick
tick = record { at = at 2 0; waiting = []; writing = []; after_write = at 2 0 }

drain_loop-ends_example :
    drain_loop ([] ++ tick ∷ []) 0 35_280 (attached (shim two))
    ≡ drain_loop [] 0 35_280 (attached (shim two))
drain_loop-ends_example =
    drain_loop-ends [] (tick ∷ []) 0 35_280 (attached (shim two)) (omega arith)
