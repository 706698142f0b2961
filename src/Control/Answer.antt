-- ===== src/Control/Answer.antt =====
-- Plugins/SpotOn/Bin/fake-libpulse/fake-libpulse.c: the text that a control request is answered with,
-- as `snprintf` prints it into the buffers of each handler.
pub mod Exact
use spoton.Prelude.{
  ℕ, ◌+◌, ◌-◌, Bool, true, false, Option, none, some, List, [], ◌∷◌, ◌++◌, ltb, if◌then◌else◌,
  length, take,
}
use spoton.Decimal.{decimal_before, number, signed_number}
use spoton.Ring.{HoldRel}
use spoton.Request.{codes}
use spoton.Control.{
  Via, live, departed, nobody, Anchor, pushed, drain, popped, HoldState, absent, consumed, plain,
  expired, BoundaryReply, Reply, forbidden, bad_request, empty_ok, boundary_ok, hold_released,
  hold_suppressed, browse_keep_ok, seek_keep_ok,
}

abbrev via_name : Via → List ℕ
via_name live = codes "live"
via_name departed = codes "departed"
via_name nobody = codes "none"

abbrev anchor_name : Anchor → List ℕ
anchor_name pushed = codes "pushed"
anchor_name drain = codes "drain"
anchor_name popped = codes "popped"

abbrev hold_name : HoldState → List ℕ
hold_name absent = codes "none"
hold_name consumed = codes "consumed"
hold_name plain = codes "plain"
hold_name expired = codes "expired"

abbrev pub concat : List (List ℕ) → List ℕ
concat [] = []
concat (xs ∷ rest) = xs ++ concat rest

abbrev flag : Bool → List ℕ
flag true = codes "1\n"
flag false = codes "0\n"

-- The body that is formatted, before any buffer cuts it. The last release of the hold had one standing.
abbrev pub body : Reply → List (List ℕ)
body forbidden = []
body bad_request = []
body empty_ok = []
body (boundary_ok b) =
    codes "via="
    ∷ via_name b.via
    ∷ codes " boundary="
    ∷ number b.placement.planted
    ∷ codes " anchor="
    ∷ anchor_name b.placement.anchor
    ∷ codes " ring_fill="
    ∷ number b.ring_fill
    ∷ codes " total_pushed="
    ∷ number b.total_pushed
    ∷ codes " total_popped="
    ∷ number b.total_popped
    ∷ codes " drops="
    ∷ number b.drops
    ∷ codes " gen="
    ∷ signed_number b.gen
    ∷ codes " hold="
    ∷ hold_name b.placement.hold_state
    ∷ codes " hold_at="
    ∷ signed_number b.placement.hold_report_at
    ∷ codes "\n"
    ∷ []
body (hold_released h) =
    codes "hold=released at="
    ∷ number h.at
    ∷ codes " held_ms="
    ∷ number h.held_ms
    ∷ codes " withheld="
    ∷ number h.withheld
    ∷ codes "\n"
    ∷ []
body (hold_suppressed ms) = codes "hold=suppressed window_ms=" ∷ number ms ∷ codes "\n" ∷ []
body (browse_keep_ok on) = codes "browse_keep=" ∷ flag on ∷ []
body (seek_keep_ok kept) = codes "seek_keep=" ∷ flag kept ∷ []

abbrev pub ok_head : List ℕ
ok_head = codes "HTTP/1.0 200 OK\r\nContent-Type: text/plain\r\nContent-Length: "

-- The reply up to the value of its Content-Length, and from there to the body.
abbrev pub head : Reply → List ℕ
head forbidden = codes "HTTP/1.0 403 Forbidden\r\nContent-Length: "
head bad_request = codes "HTTP/1.0 400 Bad Request\r\nContent-Length: "
head empty_ok = codes "HTTP/1.0 200 OK\r\nContent-Length: "
head (boundary_ok b) = ok_head
head (hold_released h) = ok_head
head (hold_suppressed ms) = ok_head
head (browse_keep_ok on) = ok_head
head (seek_keep_ok kept) = ok_head

abbrev pub behind_length : List ℕ
behind_length = codes "\r\nConnection: close\r\n\r\n"

-- `reply_body[320]`, `body[200]`, `body[32]`, and `reply_buf[512]`, `reply[320]`, `reply[160]`; the other
-- replies are constants, which no buffer holds.
abbrev body_size : Reply → ℕ
body_size forbidden = 1
body_size bad_request = 1
body_size empty_ok = 1
body_size (boundary_ok b) = 320
body_size (hold_released h) = 200
body_size (hold_suppressed ms) = 200
body_size (browse_keep_ok on) = 32
body_size (seek_keep_ok kept) = 32

abbrev reply_size : Reply → ℕ
reply_size forbidden = 512
reply_size bad_request = 512
reply_size empty_ok = 512
reply_size (boundary_ok b) = 512
reply_size (hold_released h) = 320
reply_size (hold_suppressed ms) = 320
reply_size (browse_keep_ok on) = 160
reply_size (seek_keep_ok kept) = 160

-- The text that is given to `_http_write_all`: none if it does not fit its buffer. A body that does
-- not fit is cut, and the Content-Length is that of what is left.
unfoldable pub reply_text : Reply → Option (List ℕ)
reply_text r =
    let cut = take (body_size r - 1) (concat (body r)) in
    let text = head r ++ (decimal_before 20 (length cut) behind_length ++ cut) in
    if ltb (length text) (reply_size r) then some text else none
