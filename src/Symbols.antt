-- ===== src/Symbols.antt =====
-- Plugins/SpotOn/Bin/fake-libpulse/fake-libpulse.c: the symbol surface, the names that the daemon looks
-- up and those that the library defines, and the comparison that is logged at the start.
pub mod Surface
use Prim.Native.String.{String}
use text.Mathlib.Text.{◌==◌}
use spoton.Prelude.{ℕ, ◌+◌, Bool, true, false, not, ◌&&◌, List, [], ◌∷◌, if◌then◌else◌}

-- SOLOIST_REFERENCED_PA_SYMBOLS.
abbrev pub soloist_referenced : List String
soloist_referenced =
    "pa_context_connect" ∷ "pa_context_disconnect" ∷ "pa_context_errno"
    ∷ "pa_context_get_sink_input_info" ∷ "pa_context_get_state" ∷ "pa_context_new"
    ∷ "pa_context_set_sink_input_volume" ∷ "pa_context_set_state_callback"
    ∷ "pa_context_set_subscribe_callback" ∷ "pa_context_subscribe" ∷ "pa_context_unref"
    ∷ "pa_cvolume_avg" ∷ "pa_cvolume_set" ∷ "pa_gettimeofday" ∷ "pa_operation_get_state"
    ∷ "pa_operation_unref" ∷ "pa_proplist_free" ∷ "pa_proplist_new" ∷ "pa_proplist_sets"
    ∷ "pa_stream_connect_playback" ∷ "pa_stream_cork" ∷ "pa_stream_disconnect" ∷ "pa_stream_flush"
    ∷ "pa_stream_get_index" ∷ "pa_stream_get_state" ∷ "pa_stream_get_timing_info"
    ∷ "pa_stream_is_corked" ∷ "pa_stream_new" ∷ "pa_stream_new_with_proplist"
    ∷ "pa_stream_set_started_callback" ∷ "pa_stream_set_state_callback"
    ∷ "pa_stream_set_underflow_callback" ∷ "pa_stream_unref" ∷ "pa_stream_update_timing_info"
    ∷ "pa_stream_writable_size" ∷ "pa_stream_write" ∷ "pa_strerror" ∷ "pa_threaded_mainloop_free"
    ∷ "pa_threaded_mainloop_get_api" ∷ "pa_threaded_mainloop_lock" ∷ "pa_threaded_mainloop_new"
    ∷ "pa_threaded_mainloop_signal" ∷ "pa_threaded_mainloop_start" ∷ "pa_threaded_mainloop_stop"
    ∷ "pa_threaded_mainloop_unlock" ∷ "pa_threaded_mainloop_wait" ∷ "pa_timeval_diff"
    ∷ "pa_usec_to_bytes" ∷ []

-- IMPLEMENTED_PA_SYMBOLS.
abbrev pub implemented : List String
implemented =
    "pa_context_connect" ∷ "pa_context_disconnect" ∷ "pa_context_errno"
    ∷ "pa_context_get_sink_input_info" ∷ "pa_context_get_state" ∷ "pa_context_new"
    ∷ "pa_context_set_sink_input_volume" ∷ "pa_context_set_state_callback"
    ∷ "pa_context_set_subscribe_callback" ∷ "pa_context_subscribe" ∷ "pa_context_unref"
    ∷ "pa_cvolume_avg" ∷ "pa_cvolume_set" ∷ "pa_gettimeofday" ∷ "pa_operation_get_state"
    ∷ "pa_operation_unref" ∷ "pa_proplist_free" ∷ "pa_proplist_new" ∷ "pa_proplist_sets"
    ∷ "pa_stream_connect_playback" ∷ "pa_stream_cork" ∷ "pa_stream_disconnect" ∷ "pa_stream_flush"
    ∷ "pa_stream_get_index" ∷ "pa_stream_get_state" ∷ "pa_stream_get_timing_info"
    ∷ "pa_stream_is_corked" ∷ "pa_stream_new" ∷ "pa_stream_new_with_proplist"
    ∷ "pa_stream_set_started_callback" ∷ "pa_stream_set_state_callback"
    ∷ "pa_stream_set_underflow_callback" ∷ "pa_stream_unref" ∷ "pa_stream_update_timing_info"
    ∷ "pa_stream_writable_size" ∷ "pa_stream_write" ∷ "pa_strerror" ∷ "pa_threaded_mainloop_free"
    ∷ "pa_threaded_mainloop_get_api" ∷ "pa_threaded_mainloop_lock" ∷ "pa_threaded_mainloop_new"
    ∷ "pa_threaded_mainloop_signal" ∷ "pa_threaded_mainloop_start" ∷ "pa_threaded_mainloop_stop"
    ∷ "pa_threaded_mainloop_unlock" ∷ "pa_threaded_mainloop_wait" ∷ "pa_timeval_diff"
    ∷ "pa_usec_to_bytes" ∷ []

-- `_symbol_in`.
unfoldable pub symbol_in : String → List String → Bool
symbol_in needle [] = false
symbol_in needle (s ∷ list) = if needle == s then true else symbol_in needle list

-- The names of the first list that the second has not got, in order: a log line each, and their number.
unfoldable pub missing_from : List String → List String → List String
unfolding symbol_in
missing_from [] list = []
missing_from (s ∷ names) list =
    let rest = missing_from names list in if symbol_in s list then rest else s ∷ rest

abbrev pub no_names : List String → Bool
no_names [] = true
no_names (s ∷ names) = false

-- What `_log_symbol_surface` logs: the missing names, the extra ones, and whether it says that the
-- match is exact.
pub record SurfaceLog : Type 0 where
  pub missing : List String
  pub extra : List String
  pub exact_match : Bool

unfoldable pub log_symbol_surface : List String → List String → SurfaceLog
unfolding missing_from
log_symbol_surface referenced defined =
    let missing = missing_from referenced defined in
    let extra = missing_from defined referenced in
    record { missing = missing; extra = extra; exact_match = no_names missing && no_names extra }
