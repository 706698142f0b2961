-- ===== src/Request.antt =====
-- Plugins/SpotOn/Bin/fake-libpulse/fake-libpulse.c: the pending slot of the HTTP thread, and how the
-- request head in it is read and classified. Texts are lists of bytes.
pub mod Search
use spoton.Prelude.{
  ℕ, suc, ◌+◌, ◌-◌, Bool, true, false, not, ◌&&◌, ◌||◌, Option, none, some, List, [], ◌∷◌, ◌++◌,
  ltb, leb, ◌==◌, if◌then◌else◌, is_some, take, length,
}
use Prim.Native.Char.{code}
use Prim.Native.String.{String}
use mathlib.Core.Option
use spoton.Time.{Timeval}

abbrev pub codes : String → List ℕ
codes String.[] = []
codes (String.◌∷◌ c s) = code c ∷ codes s

-- The C string in a buffer: the bytes before the first NUL.
unfoldable pub c_str : List ℕ → List ℕ
c_str [] = []
c_str (c ∷ cs) = if c == 0 then [] else c ∷ c_str cs

unfoldable pub is_prefix : List ℕ → List ℕ → Bool
is_prefix [] hay = true
is_prefix (n ∷ ns) [] = false
is_prefix (n ∷ ns) (c ∷ cs) = (n == c) && is_prefix ns cs

-- The offset of the first place in `hay` that starts with `needle`: `strstr` on two C strings.
pub find : List ℕ → List ℕ → Option ℕ
find needle [] = if is_prefix needle [] then some 0 else none
find needle (c ∷ cs) = if is_prefix needle (c ∷ cs) then some 0 else Option.map suc (find needle cs)

unfoldable pub strstr : List ℕ → List ℕ → Option ℕ
unfolding c_str is_prefix find
strstr buf needle = find needle (c_str buf)

-- HTTP_REQUEST_BUF_SIZE, HTTP_REQUEST_TIMEOUT_MS.
abbrev pub http_request_buf_size : ℕ
http_request_buf_size = 4096

abbrev pub http_request_timeout_ms : ℕ
http_request_timeout_ms = 2000

-- `pending_conn_t`: `fd` none is -1. `buf` is the buffer's text, which a served request leaves stale.
pub record Pending : Type 0 where
  pub fd : Option ℕ
  pub buf : List ℕ
  pub len : ℕ
  pub started : Timeval
  pub from_loopback : Bool

-- What `read` returned: bytes, the end of the stream, EAGAIN, EWOULDBLOCK or EINTR, another error.
pub data ReadResult : Type 0 where
  got : List ℕ → ReadResult
  eof would_block failed : ReadResult

-- `_pending_head_complete`.
unfoldable pub pending_head_complete : Pending → Bool
unfolding strstr
pending_head_complete p =
    is_some (strstr p.buf (13 ∷ 10 ∷ 13 ∷ 10 ∷ [])) || is_some (strstr p.buf (10 ∷ 10 ∷ []))

-- The buffer is full.
abbrev pub is_full : Pending → Bool
is_full p = leb (http_request_buf_size - 1) p.len

abbrev pub drop_pending : Pending → Pending
drop_pending p = record p { fd = none; len = 0; buf = [] }

-- `close(p->fd); p->fd = -1; p->len = 0`, as the control requests end.
abbrev pub close_pending : Pending → Pending
close_pending p = record p { fd = none; len = 0 }

-- At most the bytes that there is room for are read.
unfoldable pub append_read : Pending → List ℕ → Pending
append_read p xs =
    let new = take (http_request_buf_size - 1 - p.len) xs in
    record p { len = p.len + length new; buf = take p.len p.buf ++ new }

unfoldable pub take_read : Pending → ReadResult → Pending
take_read p (got []) = drop_pending p
take_read p (got (x ∷ xs)) = append_read p (x ∷ xs)
take_read p would_block = p
take_read p eof = drop_pending p
take_read p failed = drop_pending p

-- `_pending_try_read`.
unfoldable pub pending_try_read : ReadResult → Pending → Pending
unfolding take_read
pending_try_read res p =
    if not (is_some p.fd) || (pending_head_complete p || is_full p) then p else take_read p res

-- The control endpoints.
pub data Endpoint : Type 0 where
  boundary seek_arm hold_release browse_keep seek_keep : Endpoint

abbrev path : Endpoint → List ℕ
path boundary = codes "/boundary"
path seek_arm = codes "/seek-arm"
path hold_release = codes "/hold-release"
path browse_keep = codes "/browse-keep"
path seek_keep = codes "/seek-keep"

-- `_pending_is_control`.
unfoldable pub pending_is_control : Endpoint → Pending → Bool
unfolding strstr
pending_is_control e p =
    is_some p.fd
    && (pending_head_complete p
        && (is_some (strstr p.buf (codes "POST")) && is_some (strstr p.buf (path e))))

-- `hit != NULL && (eol == NULL || hit < eol)`.
abbrev hit_before : Option ℕ → Option ℕ → Bool
hit_before none eol = false
hit_before (some h) none = true
hit_before (some h) (some e) = ltb h e

-- `_head_line_has`.
unfoldable pub head_line_has : Pending → List ℕ → Bool
unfolding strstr
head_line_has p needle = hit_before (strstr p.buf needle) (strstr p.buf (13 ∷ 10 ∷ []))
