-- ===== src/Tests/Deliveries.antt =====
-- Runs of the drain and of passes while the daemon writes.
use spoton.Prelude.{refl, false, none, [], ◌∷◌, arith, inr}
use spoton.Time.{elapsed_ms, hold_now_ms}
use spoton.Env.{hold_gap_env_ms}
use spoton.Ring.{ring_init, hold_timeout_check}
use spoton.Ring.Pop.{pop_locked, pop_waits, pop_take, pop_bytes, pop_advance}
use spoton.Ring.Push.{push_turn, push_exit, push_chunk, push_copy, refill}
use spoton.Ring.Fifo.{contents}
use spoton.Request.{would_block, pending_is_control}
use spoton.Daemon.{run_daemon, run_daemons, enter_write, push, finish_push, leave_write}
use spoton.Http.{classify}
use spoton.Http.Loop.{Http, read_pending, flush_close, backlog_passes, dispatch}
use spoton.Http.Drain.{
  DrainTick, bytes, http_write_client, sent_now, write_test, write_slot, write_accept, bound_left,
  ring_pop_timed, trim, after_write, drain_write, drain_turn, drain_start, drain_loop,
  signal_underrun,
}
use spoton.Http.Pass.{PassInput, pass_dispatch, http_pass, http_thread}
use spoton.System.Client.{SoundHttp}
use spoton.System.Delivery.Balance.{Account}
use spoton.System.Delivery.Looped.{loop_stored, loop_whole, drain_loop-Account}
use spoton.System.Delivery.Ended.{turn_ended, loop_ended}
use spoton.System.Delivery.Passed.{pass_ended, drain_ended}
use spoton.System.Delivery.Thread.{
  AllEnded, thread_received, thread_stored, thread_whole, http_thread-delivers,
}
use spoton.Tests.Fixtures.{at, unset, two, shim, attached, two-IsValid, idle}

-- Two bytes are drained by two writes, and the daemon pushes a third between them.
abbrev pushing : DrainTick
pushing = record {
  at = at 2 0;
  waiting = [];
  writing =
      record {
        daemon = [];
        at = at 2 10;
        hangup = false;
        wrote = bytes 1;
        arrival = none;
        slot_read = would_block;
      }
      ∷ record {
        daemon = enter_write ∷ push unset (at 2 20) 77 [] none ∷ finish_push ∷ leave_write ∷ [];
        at = at 2 20;
        hangup = false;
        wrote = bytes 1;
        arrival = none;
        slot_read = would_block;
      }
      ∷ [];
  after_write = at 2 20;
}

two-SoundHttp : SoundHttp (attached (shim two))
two-SoundHttp = record {
  shim = record {
    ring_valid = two-IsValid;
    armed = omega arith;
    attached = refl;
    marker = tt;
    marker_gen = tt;
    departed_gen = tt;
    decided = inr refl;
  };
  slot = record { bounded = omega arith };
}

abbrev client : Http
client = attached (shim two)

drain_loop-Account_example :
    Account
      (contents two)
      (loop_stored (pushing ∷ []) 1000 0 client)
      (drain_loop (pushing ∷ []) 1000 0 client).0
      (contents (drain_loop (pushing ∷ []) 1000 0 client).1.shim.ring)
      (loop_whole (pushing ∷ []) 1000 0 client)
drain_loop-Account_example =
    drain_loop-Account (pushing ∷ []) 1000 0 client
      ((tt, ((tt, refl), (((tt, (tt, (tt, (tt, tt)))), refl), tt))), tt)
      (record { marker = refl; slot = refl }) two-SoundHttp

-- The pushing turn in a pass, and a pass before which a fourth byte is pushed, and that drains the rest.
abbrev first_pass : PassInput
first_pass = record idle { turns = pushing ∷ [] }

abbrev draining : DrainTick
draining = record {
  at = at 4 0;
  waiting = [];
  writing =
      record {
        daemon = [];
        at = at 4 10;
        hangup = false;
        wrote = bytes 2;
        arrival = none;
        slot_read = would_block;
      }
      ∷ [];
  after_write = at 4 20;
}

abbrev second_pass : PassInput
second_pass = record idle {
  daemon = enter_write ∷ push unset (at 3 0) 88 [] none ∷ finish_push ∷ leave_write ∷ [];
  turns = draining ∷ [];
}

both-AllEnded : AllEnded (first_pass ∷ second_pass ∷ []) client
unfolding pass_ended drain_ended loop_ended turn_ended pass_dispatch dispatch classify
    pending_is_control read_pending flush_close backlog_passes run_daemons drain_start drain_turn
    bound_left ring_pop_timed pop_locked pop_waits hold_timeout_check ring_init pop_take http_pass
    push_turn http_write_client trim drain_loop drain_write pop_bytes sent_now write_test write_slot
    write_accept elapsed_ms run_daemon after_write signal_underrun push_exit pop_advance push_chunk
    push_copy refill hold_gap_env_ms hold_now_ms
both-AllEnded = (refl, (refl, tt))

http_thread-delivers_example :
    Account
      (contents two)
      (thread_stored (first_pass ∷ second_pass ∷ []) client)
      (thread_received (first_pass ∷ second_pass ∷ []) client)
      (contents (http_thread (first_pass ∷ second_pass ∷ []) client).shim.ring)
      (thread_whole (first_pass ∷ second_pass ∷ []) client)
http_thread-delivers_example =
    http_thread-delivers (first_pass ∷ second_pass ∷ []) client
      (
        record {
          before = tt;
          polling = tt;
          alone = refl;
          turns = ((tt, ((tt, refl), (((tt, (tt, (tt, (tt, tt)))), refl), tt))), tt);
        },
        (
          record {
            before = (tt, (tt, (tt, (tt, tt))));
            polling = tt;
            alone = refl;
            turns = ((tt, ((tt, refl), tt)), tt);
          },
          tt,
        ),
      )
      both-AllEnded
      (record { free = record { marker = refl; slot = refl }; disconnect = refl; keep = refl })
      two-SoundHttp
