-- ===== src/Startup/Listen.antt =====
-- What a failing system call leaves of the HTTP server.
use spoton.Prelude.{ℕ, ◌≡◌, ◌≢◌, inl, inr, refl, true, false, none, some, Bool-cases, Option-cases}
use spoton.Startup.{SystemCalls, Server, no_server, launch, http_start_server}

-- Every call that the server cannot do without has succeeded, with this socket.
pub record AllWell (s : SystemCalls) (fd : ℕ) : Type 0 where
  pub socket : s.socket ≡ some fd
  pub bound : s.bind_ok ≡ true
  pub listening : s.listen_ok ≡ true
  pub named : s.getsockname ≢ none
  pub spawned : s.thread_ok ≡ true

-- The server serves a socket, or nothing of it is left open.
pub data Outcome (s : SystemCalls) (v : Server) : Type 0 where
  serving :
      (fd : ℕ)
      → AllWell s fd
      → v.open_socket ≡ some fd
      → v.listen_fd ≡ some fd
      → v.thread ≡ true
      → Outcome s v
  closed :
      ((fd : ℕ) → ¬ AllWell s fd)
      → v.open_socket ≡ none
      → v.listen_fd ≡ none
      → v.thread ≡ false
      → Outcome s v

launch-Outcome :
    (s : SystemCalls) (fd port : ℕ)
    → s.socket ≡ some fd
    → s.bind_ok ≡ true
    → s.listen_ok ≡ true
    → s.getsockname ≡ some port
    → Outcome s (launch s fd port)
unfolding launch
launch-Outcome s fd port a b c d = elim (Bool-cases s.thread_ok) [
  | inl e ↦ simp e (
      serving fd (record { socket = a; bound = b; listening = c; named = cc; spawned = e }) refl
        refl refl)
  | inr e ↦ simp e (closed (λ fd' w. cc (w.spawned)) refl refl refl)
]

Outcome-eq : {s : SystemCalls} {v w : Server} → v ≡ w → Outcome s w → Outcome s v
Outcome-eq e o = rw e o

-- Whatever the calls give: the HTTP thread runs, its listen descriptor is published and the socket is
-- open where all of them succeed but the port file's; where one fails, no socket is left open, no
-- descriptor is published and no thread runs.
pub http_start_server-Outcome : (s : SystemCalls) → Outcome s (http_start_server s)
unfolding http_start_server
http_start_server-Outcome s = elim (Option-cases s.socket) [
  | inl a ↦ stopped (λ fd w. cc (w.socket)) (rw a refl)
  | inr (fd, a) ↦ elim (Bool-cases s.bind_ok) [
    | inr b ↦ stopped (λ fd' w. cc (w.bound)) (rw (a, b) refl)
    | inl b ↦ elim (Bool-cases s.listen_ok) [
      | inr c ↦ stopped (λ fd' w. cc (w.listening)) (rw (a, b, c) refl)
      | inl c ↦ elim (Option-cases s.getsockname) [
        | inl d ↦ stopped (λ fd' w. w.named d) (rw (a, b, c, d) refl)
        | inr (port, d) ↦ Outcome-eq (rw (a, b, c, d) refl) (launch-Outcome s fd port a b c d)
      ]
    ]
  ]
]
  where
    stopped :
        ((fd : ℕ) → ¬ AllWell s fd)
        → http_start_server s ≡ no_server
        → Outcome s (http_start_server s)
    stopped n e = Outcome-eq e (closed n refl refl refl)
