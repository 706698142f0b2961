-- ===== src/Control/Answer/Exact.antt =====
-- Every control request is answered in full.
use spoton.Prelude.{
  ℕ, ◌+◌, ◌-◌, ◌≤◌, ◌<◌, ◌≡◌, refl, ap, ◌∙◌, Bool, true, false, Option, none, some, List, [], ◌∷◌,
  ◌++◌, arith, length, take, length-append, take-of_length-le, ltb,
}
use spoton.Env.{digits_from}
use spoton.Decimal.{decimal_before, number, signed_number}
use spoton.Decimal.Read.{digits_from-decimal_before, length-decimal_before}
use spoton.Control.{
  Via, live, departed, nobody, Anchor, pushed, drain, popped, HoldState, absent, consumed, plain,
  expired, Reply, forbidden, bad_request, empty_ok, boundary_ok, hold_released, hold_suppressed,
  browse_keep_ok, seek_keep_ok,
}
use spoton.Control.Answer.{
  via_name, anchor_name, hold_name, concat, flag, body, head, behind_length, body_size, reply_size,
  reply_text,
}

abbrev total_length : List (List ℕ) → ℕ
total_length [] = 0
total_length (xs ∷ rest) = length xs + total_length rest

length-concat : (xss : List (List ℕ)) → length (concat xss) ≡ total_length xss
length-concat [] = refl
length-concat (xs ∷ rest) =
    length-append xs (concat rest) ∙ ap (λ n. length xs + n) (length-concat rest)

number_le : (n : ℕ) → length (number n) ≤ 20
number_le n = omega (arith, length-decimal_before 20 n [])

signed_number_le : (o : Option ℕ) → length (signed_number o) ≤ 20
signed_number_le none = omega arith
signed_number_le (some n) = number_le n

via_le : (v : Via) → length (via_name v) ≤ 8
via_le live = omega arith
via_le departed = omega arith
via_le nobody = omega arith

anchor_le : (a : Anchor) → length (anchor_name a) ≤ 6
anchor_le pushed = omega arith
anchor_le drain = omega arith
anchor_le popped = omega arith

hold_le : (h : HoldState) → length (hold_name h) ≤ 8
hold_le absent = omega arith
hold_le consumed = omega arith
hold_le plain = omega arith
hold_le expired = omega arith

flag_le : (b : Bool) → length (flag b) ≤ 2
flag_le true = omega arith
flag_le false = omega arith

body_fits : (r : Reply) → total_length (body r) + 1 ≤ body_size r
body_fits forbidden = omega arith
body_fits bad_request = omega arith
body_fits empty_ok = omega arith
body_fits (boundary_ok b) = omega (
  arith,
  via_le b.via,
  number_le b.placement.planted,
  anchor_le b.placement.anchor,
  number_le b.ring_fill,
  number_le b.total_pushed,
  number_le b.total_popped,
  number_le b.drops,
  signed_number_le b.gen,
  hold_le b.placement.hold_state,
  signed_number_le b.placement.hold_report_at,
)
body_fits (hold_released h) =
    omega (arith, number_le h.at, number_le h.held_ms, number_le h.withheld)
body_fits (hold_suppressed ms) = omega (arith, number_le ms)
body_fits (browse_keep_ok on) = omega (arith, flag_le on)
body_fits (seek_keep_ok kept) = omega (arith, flag_le kept)

reply_fits : (r : Reply) → length (head r) + 43 + body_size r ≤ reply_size r
reply_fits forbidden = omega arith
reply_fits bad_request = omega arith
reply_fits empty_ok = omega arith
reply_fits (boundary_ok b) = omega arith
reply_fits (hold_released h) = omega arith
reply_fits (hold_suppressed ms) = omega arith
reply_fits (browse_keep_ok on) = omega arith
reply_fits (seek_keep_ok kept) = omega arith

-- The reply as a client reads it: a head, its length in digits up to the blank line, and the body.
pub record IsExact (r : Reply) (out : Option (List ℕ)) : Type 0 where
  pub field : List ℕ
  pub sent : out ≡ some (head r ++ (field ++ concat (body r)))
  pub read_back : digits_from 0 field ≡ (length (concat (body r)), behind_length)

lt→ltb : (a b : ℕ) → a < b → ltb a b ≡ true
lt→ltb a b h = ground arith

uncut : (r : Reply) → take (body_size r - 1) (concat (body r)) ≡ concat (body r)
uncut r =
    take-of_length-le (body_size r - 1) (concat (body r))
      (omega (arith, length-concat (body r), body_fits r))

-- The text before any buffer cuts it.
abbrev whole : Reply → List ℕ
whole r = head r ++ (decimal_before 20 (length (concat (body r))) behind_length ++ concat (body r))

whole_fits : (r : Reply) → length (whole r) < reply_size r
whole_fits r =
    let field = decimal_before 20 (length (concat (body r))) behind_length in
    omega (
      arith,
      length-append (head r) (field ++ concat (body r)),
      length-append field (concat (body r)),
      length-decimal_before 20 (length (concat (body r))) behind_length,
      length-concat (body r),
      body_fits r,
      reply_fits r,
    )

size_le : (r : Reply) → body_size r ≤ 320
size_le forbidden = omega arith
size_le bad_request = omega arith
size_le empty_ok = omega arith
size_le (boundary_ok b) = omega arith
size_le (hold_released h) = omega arith
size_le (hold_suppressed ms) = omega arith
size_le (browse_keep_ok on) = omega arith
size_le (seek_keep_ok kept) = omega arith

-- Whatever a control request is answered with, and whatever its numbers are: neither buffer cuts the
-- reply, which is sent, and its Content-Length, read as a decimal number up to the line's end, is the
-- number of bytes of the body behind the blank line.
pub reply_text-IsExact : (r : Reply) → IsExact r (reply_text r)
unfolding reply_text digits_from
reply_text-IsExact r = record {
  field = decimal_before 20 (length (concat (body r))) behind_length;
  sent = rw (uncut r, lt→ltb (length (whole r)) (reply_size r) (whole_fits r)) refl;
  read_back =
      digits_from-decimal_before 20 (length (concat (body r))) behind_length
        (omega (arith, length-concat (body r), body_fits r, size_le r));
}
