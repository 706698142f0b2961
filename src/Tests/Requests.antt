-- ===== src/Tests/Requests.antt =====
-- Runs of the control requests, the pending slot and the whole system.
use spoton.Prelude.{ℕ, ◌≤◌, ◌≡◌, refl, true, false, none, some, List, [], ◌∷◌, ◌++◌}
use spoton.Time.{armhf}
use spoton.Request.{
  Pending, got, would_block, codes, hold_release, pending_is_control, pending_head_complete, strstr,
}
use spoton.Control.{place}
use spoton.Control.Place.{place-range}
use spoton.Control.Guard.{pending_serve_control-remote}
use spoton.Http.{Arrival, classify, pending_serve_control}
use spoton.System.{Step, daemon, accept, read, serve_slot, top, run_steps, initial}
use spoton.System.Client.{SoundHttp}
use spoton.System.Reach.{reachable-Sound}
use spoton.Daemon.{discard, unmark, settle, create, connect, push, flush}
use spoton.Shim.{s16le}
use spoton.Http.Loop.{readable}
use spoton.Request.{head_line_has}
use spoton.Tests.Fixtures.{at, unset, block, held, shim, request, held-IsValid}

abbrev end_of_head : List ℕ
end_of_head = 13 ∷ 10 ∷ 13 ∷ 10 ∷ []

abbrev release_text : List ℕ
release_text = codes "POST /hold-release HTTP/1.0" ++ end_of_head

abbrev stream_text : List ℕ
stream_text = codes "GET /stream HTTP/1.0" ++ end_of_head

-- A complete `/hold-release` request is classified as one, and a stream request as none.
classify-runs :
    (classify (request release_text) ≡ some hold_release) × (classify (request stream_text) ≡ none)
unfolding classify pending_is_control pending_head_complete strstr
classify-runs = (refl, refl)

abbrev arrival : Arrival
arrival = record {
  fd = 11;
  from_loopback = true;
  at = at 6 0;
  first_read = got release_text;
  occupant_read = would_block;
}

abbrev remote : Pending
remote = record (request release_text) { from_loopback = false }

pending_serve_control-remote_example :
    (pending_serve_control (at 6 0) (some 7) remote (shim held)).shim ≡ shim held
pending_serve_control-remote_example =
    pending_serve_control-remote (at 6 0) (some 7) remote (shim held) refl

place-range_example :
    (7 ≤ (place (at 6 0) true held).0.planted) × ((place (at 6 0) true held).0.planted ≤ 9)
place-range_example = place-range (at 6 0) true held-IsValid

abbrev run : List Step
run =
    daemon (create 1 s16le)
    ∷ daemon (connect unset (at 5 0) 1)
    ∷ accept arrival
    ∷ read (some 11) (readable (got stream_text))
    ∷ serve_slot (at 5 10) true
    ∷ daemon (push unset (at 5 20) 1 (2 ∷ 3 ∷ 4 ∷ []) none)
    ∷ daemon (flush unset (at 6 0))
    ∷ daemon (discard unset (at 7 0))
    ∷ daemon unmark
    ∷ daemon (settle unset (at 7 0))
    ∷ top (at 9 0)
    ∷ []

reachable-Sound_example : SoundHttp (run_steps run (initial armhf true block))
reachable-Sound_example = reachable-Sound armhf true block run

abbrev drain_text : List ℕ
drain_text = codes "POST /boundary?anchor=drain HTTP/1.0" ++ end_of_head

-- The query in the request line counts, the same text in a later line does not.
head_line_has-runs :
    (head_line_has (request drain_text) (codes "anchor=drain") ≡ true)
    × (head_line_has
          (request (codes "POST /boundary" ++ 13 ∷ 10 ∷ codes "anchor=drain" ++ end_of_head))
          (codes "anchor=drain")
        ≡ false)
unfolding head_line_has strstr
head_line_has-runs = (refl, refl)
