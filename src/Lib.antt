-- ===== src/Lib.antt =====
-- The fake libpulse of the SpotOn plugin, Plugins/SpotOn/Bin/fake-libpulse/fake-libpulse.c, lines 1 to
-- 4672, with seven cases of its test harness: a replacement for libpulse.so.0 that a playback daemon
-- links against, and that serves the audio the daemon writes as one HTTP stream to a player.
--
-- The parts and how they interact. The daemon's threads call the `pa_stream_*` functions: a write pushes
-- bytes into the ring, a flush empties it and tells the HTTP thread to drop the player or to keep it.
-- The HTTP thread accepts connections into one pending slot, serves the plugin's control requests from
-- it, promotes a stream request to the streaming client, and drains the ring to that client up to a
-- marker. The two share the ring, under its lock, the virtual sink, which is guarded by the same lock,
-- and flags that are read and written whole. The plugin's requests, the sockets and the clocks are
-- arguments of the operations.
--
-- The files, by part:
--   Prelude, Prelude/*: lists, Boolean tests and copies over native numbers, and integers.
--   Time, Time/Wrap: `_mono_ms`, `_mono_since`, `_elapsed_ms`, `_hold_now_ms`, `_vsink_now_us`.
--   Env, Env/Bounds: the knobs of the environment and their ranges.
--   Ring: `ring_buffer_t`, `_ring_init`, `_hold_release_locked`, `_ring_set_client`,
--     `_hold_timeout_check`. Ring/Push: `_ring_push`. Ring/Pop: `_ring_pop_timed`, `_ring_flush`.
--     Ring/Valid is the representation invariant, Ring/Fifo and Ring/Queue the ring as a queue of bytes,
--     Ring/View, Ring/View/Quotient the ring as its reader sees it, a quotient of the valid rings;
--     Ring/History a history of critical sections, Ring/Writer, Ring/Losses and Ring/Fits a write's account,
--     Ring/Hold the gap hold from end to end.
--   Vsink, Vsink/Drain: `vsink_t` and its settling; Vsink/Account: what it has played over a history.
--   Decide, Decide/Window: the decision window of an unarmed flush.
--   Request, Request/Search: `pending_conn_t`, `_pending_try_read`, the classification of a request.
--   Shim: the globals, the streams. Control: `_serve_boundary`, `_serve_seek_arm`,
--     `_serve_hold_release`, `_serve_browse_keep`, `_serve_seek_keep`; Control/Place and Control/Guard on
--     the placement of a marker and on the loopback guard; Control/Answer: the texts of the replies.
--   Decimal, Decimal/Read: the numbers that `snprintf` prints.
--   Stream: `pa_stream_*` but for the write; Stream/Timing, Stream/Flush,
--     Stream/Parts: a call cut into its parts; Stream/Usec: `pa_usec_to_bytes`;
--     Stream/Notice: the state callback; Stream/Write: `pa_stream_write`
--     and `_convert_and_push`, with Stream/Write/Convert, Stream/Write/Total, Stream/Write/Stored and
--     Stream/Write/Fits.
--   Daemon: the critical sections of the daemon's calls as steps.
--   Http: `_pending_serve_control`, `_pending_settle`, `_pending_accept`, `_flush_backlog_pass`;
--     Http/Loop and Http/Drain: the parts of `_http_thread_fn`; Http/Drain/Write: `_http_write_client`;
--     Http/Reply: `_http_write_all`; Http/Pass: one pass of the loop with its parts in the order of the
--     code, and the loop as a run of passes; Http/Bounded, Http/Bounded/*, Http/Decision,
--     Http/Pass/Attach and Http/Pass/Budget on what they do.
--   System, System/*: the steps of both sides in any order, and the invariant of the shared state;
--     System/Passes: a pass as a run of steps; System/Delivery, System/Delivery/*: the balance
--     of the queue while the daemon writes, over a drain (Looped) and over passes (Thread);
--     System/Sink: the virtual sink under any run of the daemon's calls; System/Underrun: the underflow
--     signal under such a run.
--   Output, Output/Fate: `_pcm_output_fd` and the `write` loop of `pa_stream_write` without the HTTP mode.
--   Startup, Startup/*: `_fake_libpulse_init` and `_http_start_server`.
--   Mainloop, Mainloop/Stop: `pa_threaded_mainloop_*` and `_mainloop_thread_fn`.
--   Context, Context/Heard: `pa_context_*` and `pa_operation_*`.
--   Symbols, Symbols/Surface: the two symbol lists and `_log_symbol_surface`.
--   Trace, Trace/Summary: what switches the log lines, their stamp and names, the summary of writes.
--   Harness, Harness/*: of the test harness under FAKE_LIBPULSE_TEST, the `_test_vsink_*` helpers and seven
--     of the virtual-sink cases of its `main` (Harness/Cases, Harness/Timed; Harness/Passes and
--     Harness/Position on them); Harness/Uncorked: the drain clock.
--   Tests, Tests/*: runs on small inputs.
--
-- Numbers. Byte counts, positions and 64-bit times are natural numbers; the `long` clock wraps at the
-- target's modulus, the flush epoch at 2 ^ 64, stream indices at 2 ^ 32. A field whose -1 is a sentinel
-- is an option. Differences that the code computes on ordered values are differences of naturals.
--
-- Fuel. `ring_push` runs on fuel and on the list of the wake-ups that it gets; one unit for each byte and
-- each wake-up and one more is enough, since a turn that does not stop or wait copies at least a byte.
-- The other loops are recursions on the list of what happened in each turn: the drain loop has ended
-- within as many turns as its budget has bytes, `_http_write_all` and the `write` loop within as many
-- turns that get on as there are bytes. `batches` has the number of bytes as fuel, the decimal text of a
-- port five digits, that of a 64-bit number twenty; the harness's loop of pops has the number of bytes.
--
-- Concurrency. A critical section of the ring's lock is never cut. A wait on a condition variable is a
-- step that ends before it and a step that begins behind it, with any steps of the other threads
-- between; the others also act before each push of a write and behind its last (`Batch`). The bytes of
-- a write that the ring refused or a flush abandoned go back from the virtual sink in a step of their
-- own. `pa_stream_flush`, `pa_stream_connect_playback`, `pa_stream_disconnect`, `pa_stream_unref` and
-- `pa_stream_cork` are both a step of their own and cut into their parts (Stream/Flush, Stream/Parts);
-- the other calls with more than one critical section are taken in one step. A pass of the loop lets
-- the daemon run before it, during its poll, while a pop waits and within a client write. A call on
-- the main loop that would block is taken when it can go on; the worker's turn under the lock is one
-- step.
--
-- `pa_usec_to_bytes` computes with `long double`s: fractions rounded to the target's number of bits, with
-- exponents that do not run out, and the result cast to the target's `size_t`, none where that is
-- undefined; a logarithm in it has 512 bits as fuel, more than any operand has.
--
-- Not modelled: the conversion of a float sample, which is an argument; the calls that only allocate
-- or free; the log lines themselves; the rest of the test harness, most of which runs threads, sockets
-- and the real clock. The scheduling of the threads, the kernel's sockets and what other system calls
-- give are arguments.
pub mod Prelude
pub mod Time
pub mod Env
pub mod Decimal
pub mod Ring
pub mod Vsink
pub mod Decide
pub mod Request
pub mod Shim
pub mod Control
pub mod Stream
pub mod Daemon
pub mod Output
pub mod Http
pub mod Startup
pub mod Mainloop
pub mod Context
pub mod Symbols
pub mod Trace
pub mod System
pub mod Harness
pub mod Tests
