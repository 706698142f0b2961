-- ===== src/Http/Reply.antt =====
-- Plugins/SpotOn/Bin/fake-libpulse/fake-libpulse.c: `_http_write_all` and the response header, which
-- the takeover writes to the new client before it is attached.
use spoton.Prelude.{
  ℕ, ◌+◌, ◌≤◌, ◌≡◌, ◌≢◌, refl, ap, ◌∙◌, Bool, true, false, List, [], ◌∷◌, ◌++◌, arith, length, take,
  drop, length-drop, take-append-drop, ltb, if◌then◌else◌,
}
use mathlib.Core.List.{append_assoc}
use spoton.Request.{codes}
use spoton.Http.Drain.{Wrote, bytes, retry, hard_error}

-- HTTP_RESPONSE_HEADER.
abbrev pub http_response_header : List ℕ
http_response_header =
    codes "HTTP/1.0 200 OK\r\nContent-Type: audio/x-pcm\r\nConnection: close\r\n\r\n"

-- One turn: `poll` gave 0 or an error, or it reported an error or hangup, or the socket is writable
-- and `write` was called.
pub data Writable : Type 0 where
  not_ready hung_up : Writable
  ready : Wrote → Writable

-- The return codes 0 and -1, and a loop that is still going on.
pub data ReplyCode : Type 0 where
  all_sent not_sent going_on : ReplyCode

pub record Reply : Type 0 where
  pub received : List ℕ
  pub code : ReplyCode

abbrev failed_reply : Reply
failed_reply = record { received = []; code = not_sent }

-- `write` takes at most what is left.
unfoldable pub http_write_all : List Writable → List ℕ → Reply
http_write_all ks [] = record { received = []; code = all_sent }
http_write_all [] (x ∷ xs) = record { received = []; code = going_on }
http_write_all (not_ready ∷ ks) (x ∷ xs) = failed_reply
http_write_all (hung_up ∷ ks) (x ∷ xs) = failed_reply
http_write_all (ready hard_error ∷ ks) (x ∷ xs) = failed_reply
http_write_all (ready retry ∷ ks) (x ∷ xs) = http_write_all ks (x ∷ xs)
http_write_all (ready (bytes n) ∷ ks) (x ∷ xs) =
    let rest = http_write_all ks (drop n (x ∷ xs)) in
    record { received = take n (x ∷ xs) ++ rest.received; code = rest.code }

abbrev pub is_all_sent : ReplyCode → Bool
is_all_sent all_sent = true
is_all_sent not_sent = false
is_all_sent going_on = false

-- What a loop that has ended has done with its data: `left` is what the peer did not get.
pub record Delivered (reply : List ℕ) (r : Reply) : Type 0 where
  pub left : List ℕ
  pub in_order : r.received ++ left ≡ reply
  pub whole : r.code ≡ all_sent → left ≡ []
  pub short : r.code ≡ not_sent → left ≢ []

failed_Delivered : (x : ℕ) (xs : List ℕ) → Delivered (x ∷ xs) failed_reply
failed_Delivered x xs = record { left = x ∷ xs; in_order = refl; whole = λ e. cc; short = λ e. cc }

-- Whatever `poll` and `write` give, the peer gets a prefix of the data, in order and with no byte
-- twice; the code is 0 only if that is all of it, and -1 only if a byte is missing.
http_write_all-Delivered :
    (ks : List Writable) (reply : List ℕ) → Delivered reply (http_write_all ks reply)
unfolding http_write_all
http_write_all-Delivered ks [] = record {
  left = [];
  in_order = refl;
  whole = λ _. refl;
  short = λ e. cc;
}
http_write_all-Delivered [] (x ∷ xs) = record {
  left = x ∷ xs;
  in_order = refl;
  whole = λ e. cc;
  short = λ e. cc;
}
http_write_all-Delivered (not_ready ∷ ks) (x ∷ xs) = failed_Delivered x xs
http_write_all-Delivered (hung_up ∷ ks) (x ∷ xs) = failed_Delivered x xs
http_write_all-Delivered (ready hard_error ∷ ks) (x ∷ xs) = failed_Delivered x xs
http_write_all-Delivered (ready retry ∷ ks) (x ∷ xs) = http_write_all-Delivered ks (x ∷ xs)
http_write_all-Delivered (ready (bytes n) ∷ ks) (x ∷ xs) =
    let d = http_write_all-Delivered ks (drop n (x ∷ xs)) in
    record {
      left = d.left;
      in_order =
          append_assoc (take n (x ∷ xs)) _ d.left
          ∙ ap (λ r. take n (x ∷ xs) ++ r) d.in_order
          ∙ take-append-drop n (x ∷ xs);
      whole = d.whole;
      short = d.short;
    }

-- Turns in which the loop gets on: it fails, or at least one byte is taken.
abbrev gets_on : Writable → ℕ
gets_on not_ready = 1
gets_on hung_up = 1
gets_on (ready hard_error) = 1
gets_on (ready retry) = 0
gets_on (ready (bytes n)) = if ltb 0 n then 1 else 0

abbrev pub progress : List Writable → ℕ
progress [] = 0
progress (k ∷ ks) = gets_on k + progress ks

-- The loop has ended once as many turns have got on as there are bytes, however many were
-- interrupted or took nothing.
http_write_all-ends :
    (ks : List Writable) (reply : List ℕ)
    → length reply ≤ progress ks
    → (http_write_all ks reply).code ≢ going_on
unfolding http_write_all
http_write_all-ends ks [] h = λ e. cc
http_write_all-ends [] (x ∷ xs) h = absurd (omega arith)
http_write_all-ends (not_ready ∷ ks) (x ∷ xs) h = λ e. cc
http_write_all-ends (hung_up ∷ ks) (x ∷ xs) h = λ e. cc
http_write_all-ends (ready hard_error ∷ ks) (x ∷ xs) h = λ e. cc
http_write_all-ends (ready retry ∷ ks) (x ∷ xs) h = http_write_all-ends ks (x ∷ xs) (omega arith)
http_write_all-ends (ready (bytes n) ∷ ks) (x ∷ xs) h =
    http_write_all-ends ks (drop n (x ∷ xs)) (ground (arith, length-drop n (x ∷ xs)))

-- Once as many turns of the loop have got on as there are bytes, it has ended, whatever `poll` and
-- `write` gave: the peer has a prefix of the data, in order and with no byte twice, all of it where the
-- code is 0, and not all of it where the code is -1.
pub http_write_all-Ended :
    (ks : List Writable) (reply : List ℕ)
    → length reply ≤ progress ks
    → Delivered reply (http_write_all ks reply) × ((http_write_all ks reply).code ≢ going_on)
http_write_all-Ended ks reply h =
    (http_write_all-Delivered ks reply, http_write_all-ends ks reply h)
