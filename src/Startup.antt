-- ===== src/Startup.antt =====
-- Plugins/SpotOn/Bin/fake-libpulse/fake-libpulse.c: the constructor `_fake_libpulse_init` and the start
-- of the HTTP server. What the system calls give is an argument.
pub mod Listen
pub mod Port
pub mod Guard
use spoton.Prelude.{
  ℕ, zero, ◌+◌, ◌-◌, ◌/◌, ◌%◌, Bool, true, false, not, ◌&&◌, suc, Option, none, some, List, [], ◌∷◌,
  ◌++◌, ltb, leb, ◌==◌, if◌then◌else◌, length, take, map, is_some, Memory,
}
use spoton.Decimal.{decimal_before}
use spoton.Time.{Target}
use spoton.Env.{Environ, is_empty, http_port_file}
use spoton.Ring.{Ring, ring_init}
use spoton.Request.{codes, strstr}
use spoton.Shim.{Shim, start}

-- `snprintf(line, sizeof(line), "%d\n", port)` of a 16-bit port.
unfoldable pub port_line : ℕ → List ℕ
unfolding decimal_before
port_line port = decimal_before 5 port (10 ∷ [])

-- What the calls of `_http_start_server` give: the descriptors of `socket` and of the port file, the
-- port of `getsockname`, how much `write` took, and whether the others succeed.
pub record SystemCalls : Type 0 where
  pub socket : Option ℕ
  pub bind_ok : Bool
  pub listen_ok : Bool
  pub getsockname : Option ℕ
  pub open_file : Option ℕ
  pub write_taken : ℕ
  pub thread_ok : Bool

-- The socket while it is open, `g_http_listen_fd`, the text of the port file if it was opened, and
-- whether the HTTP thread runs.
pub record Server : Type 0 where
  pub open_socket : Option ℕ
  pub listen_fd : Option ℕ
  pub port_file : Option (List ℕ)
  pub thread : Bool

abbrev pub no_server : Server
no_server = record { open_socket = none; listen_fd = none; port_file = none; thread = false }

write_port : SystemCalls → ℕ → Option (List ℕ)
unfolding port_line
write_port s port = elim s.open_file [
  | none ↦ none
  | some pf ↦ some (take s.write_taken (port_line port))
]

-- Behind `getsockname`: the port file, the listen descriptor, and the thread.
launch : SystemCalls → ℕ → ℕ → Server
unfolding write_port
launch s fd port =
    if s.thread_ok
    then record {
      open_socket = some fd;
      listen_fd = some fd;
      port_file = write_port s port;
      thread = true;
    }
    else record {
      open_socket = none;
      listen_fd = none;
      port_file = write_port s port;
      thread = false;
    }

-- `_http_start_server`.
unfoldable pub http_start_server : SystemCalls → Server
unfolding launch
http_start_server s = elim s.socket [
  | none ↦ no_server
  | some fd ↦
      if not s.bind_ok
      then no_server
      else if not s.listen_ok
      then no_server
      else elim s.getsockname [ none ↦ no_server | some port ↦ launch s fd port ]
]

-- The command line as the guard reads it: at most 4095 bytes, each NUL a space.
abbrev pub spaced : List ℕ → List ℕ
spaced = map (λ c. if c == 0 then b' ' else c)

unfoldable pub is_crashpad : Option (List ℕ) → Bool
unfolding strstr
is_crashpad none = false
is_crashpad (some text) = is_some (strstr (spaced (take 4095 text)) (codes "--type=crashpad"))

-- `g_ring` where `_ring_init` is not called: every field of a static object is zero.
abbrev pub zero_ring : Ring
zero_ring = record (ring_init (λ _. 0)) {
  capacity = 0;
  last_empty_pushed = some 0;
  hold_at = some 0;
  hold_max_ms = 0;
  hold_gap_ms = 0;
  hold_expired_at = some 0;
}

abbrev pub without_http : Target → Shim
without_http t = record (start t false (λ _. 0)) { ring = zero_ring }

-- What the constructor leaves: `g_init_done`, the server, and the shim.
pub record Startup : Type 0 where
  pub init_done : Bool
  pub server : Server
  pub shim : Shim

abbrev names_file : Option (List ℕ) → Bool
names_file none = false
names_file (some path) = not (is_empty path)

-- `_fake_libpulse_init`; `cmdline` is none where /proc/self/cmdline cannot be opened.
unfoldable pub fake_libpulse_init :
    Target → Environ → Option (List ℕ) → SystemCalls → Memory → Startup
unfolding http_start_server is_crashpad
fake_libpulse_init t e cmdline s block =
    let serves = names_file (e http_port_file) in
    if is_crashpad cmdline
    then record { init_done = false; server = no_server; shim = without_http t }
    else record {
      init_done = true;
      server = if serves then http_start_server s else no_server;
      shim = if serves then start t true block else without_http t;
    }
