-- ===== src/Trace.antt =====
-- Plugins/SpotOn/Bin/fake-libpulse/fake-libpulse.c: what switches the log lines, their stamp and names,
-- and the summary of the writes that they print. The lines themselves are left out.
pub mod Summary
use Prim.Native.String.{String}
use spoton.Prelude.{
  ℕ, ◌+◌, ◌-◌, ◌/◌, ◌%◌, ◌^◌, min, Bool, true, false, not, ◌&&◌, Option, none, some, List, [], ◌∷◌,
  ltb, leb, ◌==◌, if◌then◌else◌, is_some,
}
use spoton.Prelude.Int.{ℤ, pos, negsuc}
use spoton.Time.{Target, long_half, Timeval, elapsed_ms}
use spoton.Env.{Environ, Parsed, strtol, is_empty, fakepulse_trace, fakepulse_debug, boundary_spike}
use spoton.Decimal.{decimal_before}
use spoton.Context.{ContextState}
use spoton.Context
use spoton.Shim.{StreamState}
use spoton.Shim

-- The low 32 bits of a value, or of its negation, as an `int`.
abbrev as_int : ℕ → ℤ
as_int w = if ltb w (2 ^ 31) then pos w else negsuc (2 ^ 32 - w - 1)

-- `atoi`, which is `(int)strtol`, LONG_MAX or LONG_MIN for a number out of range.
unfoldable pub atoi : Target → List ℕ → ℤ
unfolding strtol
atoi t s =
    let p = strtol s in
    if p.negative
    then as_int ((2 ^ 32 - min p.magnitude (long_half t) % 2 ^ 32) % 2 ^ 32)
    else as_int (min p.magnitude (long_half t - 1) % 2 ^ 32)

-- `g_debug_trace` behind the constructor.
unfoldable pub trace_level : Target → Environ → ℤ
unfolding atoi
trace_level t e = elim (e fakepulse_trace) [
  | none ↦ if is_some (e fakepulse_debug) then pos 1 else pos 0
  | some text ↦
      if not (is_empty text)
      then atoi t text
      else if is_some (e fakepulse_debug)
      then pos 1
      else pos 0
]

-- `if (g_debug_trace)`, and TRACE2's `g_debug_trace >= 2`.
abbrev pub is_traced : ℤ → Bool
is_traced (pos n) = not (n == 0)
is_traced (negsuc n) = true

abbrev pub is_comprehensive : ℤ → Bool
is_comprehensive (pos n) = leb 2 n
is_comprehensive (negsuc n) = false

abbrev is_positive : ℤ → Bool
is_positive (pos n) = ltb 0 n
is_positive (negsuc n) = false

-- `g_boundary_spike` behind the constructor.
unfoldable pub spike_mode : Target → Environ → Bool
unfolding atoi
spike_mode t e = elim (e boundary_spike) [
  | none ↦ false
  | some text ↦ not (is_empty text) && is_positive (atoi t text)
]

-- `%02d` and `%03ld` of numbers that are not negative.
abbrev two_digits : ℕ → List ℕ → List ℕ
two_digits n tail = if ltb n 10 then b'0' ∷ decimal_before 20 n tail else decimal_before 20 n tail

abbrev three_digits : ℕ → List ℕ → List ℕ
three_digits n tail = if ltb n 100 then b'0' ∷ two_digits n tail else decimal_before 20 n tail

-- `_trace_ts`, from the local time of day.
unfoldable pub trace_ts : ℕ → ℕ → ℕ → Timeval → List ℕ
unfolding decimal_before
trace_ts hour minute second tv =
    two_digits hour (
      b':' ∷ two_digits minute (b':' ∷ two_digits second (b'.' ∷ three_digits (tv.usec / 1000) [])))

-- `_context_state_name` and `_stream_state_name`.
abbrev pub context_state_name : ContextState → String
context_state_name Context.unconnected = "UNCONNECTED"
context_state_name Context.connecting = "CONNECTING"
context_state_name Context.authorizing = "AUTHORIZING"
context_state_name Context.setting_name = "SETTING_NAME"
context_state_name Context.ready = "READY"
context_state_name Context.failed = "FAILED"
context_state_name Context.terminated = "TERMINATED"

abbrev pub stream_state_name : StreamState → String
stream_state_name Shim.unconnected = "UNCONNECTED"
stream_state_name Shim.creating = "CREATING"
stream_state_name Shim.ready = "READY"
stream_state_name Shim.failed = "FAILED"
stream_state_name Shim.terminated = "TERMINATED"

-- The statics of the summary of the writes; `last_summary` is none while `_summary_set` is 0.
pub record WriteSummary : Type 0 where
  pub last_summary : Option Timeval
  pub calls : ℕ
  pub bytes_since : ℕ

-- What a summary line says of the writes since the last one.
pub record SummaryLine : Type 0 where
  pub calls : ℕ
  pub bytes_since : ℕ

abbrev emits : Timeval → Option Timeval → Bool
emits now none = true
emits now (some last) = leb 1000 (elapsed_ms now last)

-- The end of a `pa_stream_write` of `n` bytes in spike mode: a line at most once a second.
unfoldable pub write_summary : Timeval → ℕ → WriteSummary → WriteSummary × Option SummaryLine
write_summary now n s =
    let calls = s.calls + 1 in
    let bytes = s.bytes_since + n in
    if emits now s.last_summary
    then (
      record { last_summary = some now; calls = 0; bytes_since = 0 },
      some (record { calls = calls; bytes_since = bytes }),
    )
    else (record { last_summary = s.last_summary; calls = calls; bytes_since = bytes }, none)
