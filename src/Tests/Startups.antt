-- ===== src/Tests/Startups.antt =====
-- Runs of the start, the main loop, the replies and the output without the HTTP mode.
use spoton.Prelude.{◌≡◌, refl, true, false, none, some, [], ◌∷◌, ◌++◌, arith}
use spoton.Time.{lp64}
use spoton.Env.{Environ}
use spoton.Request.{codes}
use spoton.Shim
use spoton.Shim.{Stream, s32le}
use spoton.Output.{unresolved, took, interrupted, broken, plain_write}
use spoton.Output.Fate.{Returned, plain_write-Returned}
use spoton.Startup.{
  port_line, SystemCalls, http_start_server, fake_libpulse_init, no_server, without_http,
}
use spoton.Startup.Listen.{Outcome, http_start_server-Outcome}
use spoton.Prelude.{length}
use spoton.Startup.Port.{Announced, http_start_server-Announced}
use spoton.Startup.Guard.{fake_libpulse_init-crashpad}
use spoton.Mainloop.{
  Mainloop, waiting, woken, start, other, work, lock, unlock, mainloop_new, mainloop_stop,
  mainloop_join, run_meanwhile, run_all, run_calls,
}
use spoton.Mainloop.Stop.{Joined, mainloop_stop-Joined}
use spoton.Decimal.{decimal_before}
use spoton.Control.{Reply, boundary_ok, seek_keep_ok, live, drain, consumed}
use spoton.Control.Answer.{reply_text}
use spoton.Control.Answer.Exact.{IsExact, reply_text-IsExact}
use spoton.Symbols.{soloist_referenced, implemented, log_symbol_surface}
use spoton.Tests.Fixtures.{unset, block, two, shim}

abbrev calls : SystemCalls
calls = record {
  socket = some 5;
  bind_ok = true;
  listen_ok = true;
  getsockname = some 45_123;
  open_file = some 6;
  write_taken = 6;
  thread_ok = true;
}

http_start_server-Outcome_example : Outcome calls (http_start_server calls)
http_start_server-Outcome_example = http_start_server-Outcome calls

-- The line and its newline.
line_taken : calls.write_taken ≡ length (port_line 45_123)
unfolding port_line
line_taken = refl

http_start_server-Announced_example : Announced 45_123 (http_start_server calls)
http_start_server-Announced_example =
    http_start_server-Announced calls 5 45_123 6 refl refl refl refl (omega arith) refl line_taken

-- The port file as the plugin reads it.
port_text : (http_start_server calls).port_file ≡ some (codes "45123\n")
unfolding http_start_server port_line
port_text = refl

abbrev with_port_file : Environ
with_port_file v = some (codes "/tmp/port")

fake_libpulse_init-crashpad_example :
    fake_libpulse_init lp64 with_port_file
      (some (codes "soloist " ++ (codes "--type=crashpad" ++ codes "-handler")))
      calls
      block
    ≡ record { init_done = false; server = no_server; shim = without_http lp64 }
fake_libpulse_init-crashpad_example =
    fake_libpulse_init-crashpad lp64 with_port_file (codes "soloist ") (codes "-handler") calls
      block (omega arith)

-- A loop whose worker sleeps, and a stop of it.
abbrev asleep : Mainloop
asleep = record {
  running = true;
  started = true;
  worker = waiting;
  holder = none;
  depth = 0;
  sleeping = [];
  awake = [];
}

abbrev stopping : Mainloop
stopping = record asleep { running = false; worker = woken }

mainloop_stop-Joined_example :
    Joined (mainloop_join (run_meanwhile work (run_all (lock 2 ∷ work ∷ unlock 2 ∷ []) stopping)))
unfolding mainloop_new run_calls mainloop_stop run_all
mainloop_stop-Joined_example =
    mainloop_stop-Joined (start true ∷ other work ∷ []) 1 stopping (lock 2 ∷ work ∷ unlock 2 ∷ [])
      refl refl refl

abbrev stream : Stream
stream = record {
  state = Shim.ready;
  format = s32le;
  index = 1;
  corked = false;
  bytes_written = 10;
  connect_time = record { sec = 0; usec = 0 };
  has_started_cb = true;
  has_underflow_cb = false;
}

-- Two bytes are written, the rest is lost to a broken output.
plain_write-Returned_example :
    Returned 1 14 stream
      (1 ∷ 2 ∷ 3 ∷ 4 ∷ [])
      (record (shim two) { streams = λ s. some stream })
      (plain_write lp64 unset none
        (took 2 ∷ interrupted ∷ broken ∷ took 1 ∷ took 1 ∷ [])
        1
        (1 ∷ 2 ∷ 3 ∷ 4 ∷ [])
        unresolved
        (record (shim two) { streams = λ s. some stream }))
plain_write-Returned_example =
    plain_write-Returned lp64 unset none (took 2 ∷ interrupted ∷ broken ∷ took 1 ∷ took 1 ∷ []) 1
      (1 ∷ 2 ∷ 3 ∷ 4 ∷ []) unresolved (record (shim two) { streams = λ s. some stream }) stream refl
      (omega arith)

-- Both lists of the source name the same 48 symbols.
surface_exact : (log_symbol_surface soloist_referenced implemented).exact_match ≡ true
unfolding log_symbol_surface
surface_exact = refl

-- A drain request for a client whose title ended at a hold.
abbrev answer : Reply
answer = boundary_ok (record {
  via = live;
  placement = record {
    planted = 176_400;
    anchor = drain;
    hold_state = consumed;
    hold_report_at = some 176_400;
  };
  ring_fill = 42;
  total_pushed = 176_442;
  total_popped = 176_400;
  drops = 0;
  gen = some 3;
})

reply_text-IsExact_example : IsExact answer (reply_text answer)
reply_text-IsExact_example = reply_text-IsExact answer

keep_text :
    reply_text (seek_keep_ok true)
    ≡ some (
        codes
          "HTTP/1.0 200 OK\r\nContent-Type: text/plain\r\nContent-Length: 12\r\nConnection: close\r\n\r\nseek_keep=1\n")
unfolding reply_text decimal_before
keep_text = refl
