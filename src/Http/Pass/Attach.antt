-- ===== src/Http/Pass/Attach.antt =====
-- How a connection in the slot becomes the streaming client, pass by pass.
use spoton.Prelude.{
  ℕ, ◌<◌, ◌≡◌, refl, ap, ◌∙◌, Bool, true, false, ◌||◌, Option, none, some, List, [], ◌∷◌, arith,
  is_some,
}
use spoton.Time.{Clock, elapsed_ms}
use spoton.Request.{
  Pending, got, eof, would_block, failed, append_read, pending_head_complete, is_full,
  pending_is_control, http_request_timeout_ms,
}
use spoton.Http.{classify}
use spoton.Http.Loop.{
  Http, Polled, quiet, broken, readable, take_polled, read_pending, backlog_passes, flush_close,
  dispatch, takeover, promote_client,
}
use spoton.Http.Pass.{
  PassInput, pass_top, pass_poll, header_sent, pass_dispatch, pass_drain, http_pass, http_thread,
}

-- The request in the slot has not come whole yet.
pub record IsPartial (p : Pending) : Type 0 where
  pub no_head : pending_head_complete p ≡ false
  pub room : is_full p ≡ false

classify-partial : (p : Pending) → pending_head_complete p ≡ false → classify p ≡ none
unfolding classify pending_is_control
classify-partial p h = ground (arith, h)

-- A slot that has not got its whole head touches neither the client nor the shared state, whoever
-- sent it and however slowly: at most it is dropped itself.
pub dispatch-partial :
    (c : Clock) (sent : Bool) (h : Http)
    → IsPartial h.pending
    → ((dispatch c sent h).0.client_fd ≡ h.client_fd) × ((dispatch c sent h).0.shim ≡ h.shim)
unfolding dispatch
dispatch-partial c sent h v =
    ground (arith, classify-partial h.pending v.no_head, v.no_head, v.room)

take_polled-fd :
    (rev : Polled) (p : Pending)
    → is_some (take_polled rev p).fd ≡ true
    → (take_polled rev p).fd ≡ p.fd
unfolding take_polled append_read
take_polled-fd quiet p h = refl
take_polled-fd broken p h = cc
take_polled-fd (readable (got [])) p h = ground arith
take_polled-fd (readable (got (x ∷ xs))) p h = ground arith
take_polled-fd (readable eof) p h = ground arith
take_polled-fd (readable would_block) p h = ground arith
take_polled-fd (readable failed) p h = ground arith

-- A slot keeps its socket over a read, or loses it.
read_pending-fd :
    (o : Option ℕ) (rev : Polled) (p : Pending)
    → is_some (read_pending o rev p).fd ≡ true
    → (read_pending o rev p).fd ≡ p.fd
unfolding read_pending
read_pending-fd o rev p h = ground (arith, take_polled-fd rev p)

-- The pass's read of the slot.
abbrev pub slot_after : PassInput → Pending → Pending
slot_after i p = read_pending p.fd i.polled p

-- With no client, a pass whose poll reports no connection leaves the loop top and the poll to the slot.
record Unattached (i : PassInput) (h h' : Http) : Type 0 where
  client : h'.client_fd ≡ none
  slot : h'.pending ≡ slot_after i h.pending

pass_poll-Unattached :
    (i : PassInput) (h : Http)
    → h.client_fd ≡ none
    → i.arrival ≡ none
    → Unattached i h (pass_poll i (pass_top i h))
unfolding pass_poll pass_top backlog_passes flush_close
pass_poll-Unattached i h e a = record { client = ground arith; slot = ground arith }

-- A pass that leaves the slot waiting: no other connection comes, and the slot is read, still open,
-- not whole, and in time.
pub record Waits (i : PassInput) (p : Pending) : Type 0 where
  pub alone : i.arrival ≡ none
  pub open_still : is_some (slot_after i p).fd ≡ true
  pub unread : IsPartial (slot_after i p)
  pub in_time : elapsed_ms i.dispatch_at.wall (slot_after i p).started < http_request_timeout_ms

abbrev pub slot_behind : List PassInput → Pending → Pending
slot_behind [] p = p
slot_behind (i ∷ is) p = slot_behind is (slot_after i p)

abbrev pub AllWait : List PassInput → Pending → Type 0
AllWait [] p = Unit {0}
AllWait (i ∷ is) p = Waits i p × AllWait is (slot_after i p)

dispatch_waits :
    (c : Clock) (sent : Bool) (h : Http)
    → IsPartial h.pending
    → elapsed_ms c.wall h.pending.started < http_request_timeout_ms
    → dispatch c sent h ≡ (h, false)
unfolding dispatch
dispatch_waits c sent h v t =
    ground (arith, classify-partial h.pending v.no_head, v.no_head, v.room)

drain_nobody : (i : PassInput) (h : Http) → h.client_fd ≡ none → pass_drain i h ≡ ([], h)
unfolding pass_drain
drain_nobody i h e = ground arith

-- What a waiting pass leaves: the slot read, and no client.
http_pass-Unattached :
    (i : PassInput) (h : Http)
    → h.client_fd ≡ none
    → Waits i h.pending
    → Unattached i h (http_pass i h).1
unfolding http_pass pass_dispatch
http_pass-Unattached i h e w =
    let h1 = pass_poll i (pass_top i h) in
    let u = pass_poll-Unattached i h e w.alone in
    let d : dispatch i.dispatch_at (header_sent i) h1 ≡ (h1, false) =
      dispatch_waits i.dispatch_at (header_sent i) h1 (rw u.slot w.unread) (rw u.slot w.in_time) in
    let e1 : (http_pass i h).1 ≡ h1 = rw d (ap (λ x. x.1) (drain_nobody i h1 u.client)) in
    record { client = ap (λ x. x.client_fd) e1 ∙ u.client; slot = ap (λ x. x.pending) e1 ∙ u.slot }

-- The last pass of a request: its read completes the head, which asks for no control endpoint and
-- is answered with the whole response header.
pub record Completes (i : PassInput) (p : Pending) : Type 0 where
  pub alone : i.arrival ≡ none
  pub open_still : is_some (slot_after i p).fd ≡ true
  pub whole : pending_head_complete (slot_after i p) || is_full (slot_after i p) ≡ true
  pub for_stream : classify (slot_after i p) ≡ none
  pub answered : header_sent i ≡ true

dispatch_attaches :
    (c : Clock) (sent : Bool) (h : Http) (f : ℕ)
    → sent ≡ true
    → h.pending.fd ≡ some f
    → pending_head_complete h.pending || is_full h.pending ≡ true
    → classify h.pending ≡ none
    → (dispatch c sent h).0.client_fd ≡ some f
unfolding dispatch takeover promote_client
dispatch_attaches c sent h f s e w k = ground (arith, k)

-- A request that comes in pieces, with no client attached and no other connection: whatever the
-- daemon does before and during each pass, nobody is attached while the head is not whole, and the
-- pass that completes it and answers it attaches its connection before it drains.
pub http_pass-attaches :
    (is : List PassInput) (i : PassInput) (h : Http) (f : ℕ)
    → h.client_fd ≡ none
    → h.pending.fd ≡ some f
    → AllWait is h.pending
    → Completes i (slot_behind is h.pending)
    → ((http_thread is h).client_fd ≡ none)
      × ((pass_dispatch i (http_thread is h)).0.client_fd ≡ some f)
unfolding http_thread pass_dispatch
http_pass-attaches [] i h f e s w k =
    let u = pass_poll-Unattached i h e k.alone in
    (
      e,
      dispatch_attaches i.dispatch_at (header_sent i) (pass_poll i (pass_top i h)) f k.answered
          (rw u.slot (read_pending-fd h.pending.fd i.polled h.pending k.open_still ∙ s))
          (rw u.slot k.whole) (rw u.slot k.for_stream),
    )
http_pass-attaches (j ∷ is) i h f e s (w, ws) k =
    let u = http_pass-Unattached j h e w in
    http_pass-attaches is i (http_pass j h).1 f u.client
      (rw u.slot (read_pending-fd h.pending.fd j.polled h.pending w.open_still ∙ s)) (rw u.slot ws)
      (rw u.slot k)
