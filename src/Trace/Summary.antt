-- ===== src/Trace/Summary.antt =====
-- The summary lines of the writes leave none out.
use spoton.Prelude.{ℕ, ◌+◌, ◌≡◌, none, some, List, [], ◌∷◌, arith, length}
use spoton.Time.{Timeval}
use spoton.Trace.{WriteSummary, SummaryLine, write_summary}

unfoldable pub write_summaries : List (Timeval × ℕ) → WriteSummary → WriteSummary × List SummaryLine
write_summaries [] s = (s, [])
write_summaries ((now, n) ∷ ws) s =
    let one = write_summary now n s in
    let rest = write_summaries ws one.0 in
    (rest.0, elim one.1 [ none ↦ rest.1 | some l ↦ l ∷ rest.1 ])

abbrev lines_calls : List SummaryLine → ℕ
lines_calls [] = 0
lines_calls (l ∷ ls) = l.calls + lines_calls ls

abbrev lines_bytes : List SummaryLine → ℕ
lines_bytes [] = 0
lines_bytes (l ∷ ls) = l.bytes_since + lines_bytes ls

abbrev bytes_of : List (Timeval × ℕ) → ℕ
bytes_of [] = 0
bytes_of ((now, n) ∷ ws) = n + bytes_of ws

-- The lines printed and the counters that wait for the next line cover each write and each byte once.
pub write_summaries_total :
    (ws : List (Timeval × ℕ)) (s : WriteSummary)
    → let out = write_summaries ws s in
      (lines_calls out.1 + out.0.calls ≡ s.calls + length ws)
      × (lines_bytes out.1 + out.0.bytes_since ≡ s.bytes_since + bytes_of ws)
unfolding write_summaries write_summary
write_summaries_total [] s = (omega arith, omega arith)
write_summaries_total ((now, n) ∷ ws) s =
    let h = write_summaries_total ws (write_summary now n s).0 in ground (arith, h)
