-- ===== src/Context.antt =====
-- Plugins/SpotOn/Bin/fake-libpulse/fake-libpulse.c: the context, operation, proplist and error calls of
-- the PulseAudio interface. A pointer that may be null is an option; a callback is a flag that says
-- whether one is set, and what the call makes happen outside is a list of events.
pub mod Heard
use spoton.Prelude.{
  ℕ, ◌+◌, Bool, true, false, Option, none, some, List, [], ◌∷◌, ◌++◌, if◌then◌else◌,
}
use spoton.Prelude.Int.{ℤ, pos, negsuc}

-- `pa_context_state_t`.
pub data ContextState : Type 0 where
  unconnected connecting authorizing setting_name ready failed terminated : ContextState

-- `struct pa_context`.
pub record Context : Type 0 where
  pub state : ContextState
  pub state_cb : Bool
  pub subscribe_cb : Bool
  pub has_mainloop : Bool

-- A callback that the call makes, or a broadcast on the main loop's condition variable.
pub data Event : Type 0 where
  state_changed : ContextState → Event
  success end_of_list broadcast : Event

-- `pa_context_new`, null where `calloc` fails.
unfoldable pub context_new : Bool → Bool → Option Context
context_new allocated mainloop =
    if allocated
    then some (record {
      state = unconnected;
      state_cb = false;
      subscribe_cb = false;
      has_mainloop = mainloop;
    })
    else none

abbrev pub event_if : Bool → Event → List Event
event_if b e = if b then e ∷ [] else []

-- `_context_set_state`: the state, its callback, and the broadcast.
unfoldable pub context_set_state : ContextState → Option Context → Option Context × List Event
context_set_state s none = (none, [])
context_set_state s (some c) = (
  some (record c { state = s }),
  event_if c.state_cb (state_changed s) ++ event_if c.has_mainloop broadcast,
)

unfoldable pub set_state_callback : Bool → Option Context → Option Context
set_state_callback cb none = none
set_state_callback cb (some c) = some (record c { state_cb = cb })

unfoldable pub set_subscribe_callback : Bool → Option Context → Option Context
set_subscribe_callback cb none = none
set_subscribe_callback cb (some c) = some (record c { subscribe_cb = cb })

-- `pa_context_errno`.
abbrev pub context_errno : Option Context → ℤ
context_errno c = pos 0

abbrev pub context_get_state : Option Context → ContextState
context_get_state none = unconnected
context_get_state (some c) = c.state

abbrev is_null : Option Context → Bool
is_null none = true
is_null (some c) = false

-- `pa_context_connect`: -1 on a null context.
unfoldable pub context_connect : Option Context → ℤ × Option Context × List Event
unfolding context_set_state
context_connect c =
    let out = context_set_state ready c in
    if is_null c then (negsuc 0, c, []) else (pos 0, out.0, out.1)

unfoldable pub context_disconnect : Option Context → Option Context × List Event
unfolding context_set_state
context_disconnect c = context_set_state terminated c

-- `pa_operation_state_t`.
pub data OperationState : Type 0 where
  running done cancelled : OperationState

-- `_operation_new_done`, null where `calloc` fails.
abbrev pub operation_new_done : Bool → Option OperationState
operation_new_done allocated = if allocated then some done else none

-- `pa_operation_get_state`.
abbrev pub operation_get_state : Option OperationState → OperationState
operation_get_state none = done
operation_get_state (some o) = o

-- `pa_context_subscribe`, `pa_context_get_sink_input_info` and `pa_context_set_sink_input_volume`: the
-- callback is called before the operation is returned.
unfoldable pub context_subscribe : Bool → Bool → Option OperationState × List Event
context_subscribe allocated cb = (operation_new_done allocated, event_if cb success)

unfoldable pub get_sink_input_info : Bool → Bool → Option OperationState × List Event
get_sink_input_info allocated cb = (operation_new_done allocated, event_if cb end_of_list)

unfoldable pub set_sink_input_volume : Bool → Bool → Option OperationState × List Event
set_sink_input_volume allocated cb = (operation_new_done allocated, event_if cb success)

-- The calls that the daemon makes on its context.
pub data ContextCall : Type 0 where
  listen subscribe_listen : Bool → ContextCall
  connect disconnect : ContextCall
  subscribe sink_info set_volume : Bool → Bool → ContextCall

unfoldable pub run_context : ContextCall → Option Context → Option Context × List Event
unfolding set_state_callback set_subscribe_callback context_connect context_disconnect
    context_subscribe get_sink_input_info set_sink_input_volume
run_context (listen cb) c = (set_state_callback cb c, [])
run_context (subscribe_listen cb) c = (set_subscribe_callback cb c, [])
run_context connect c = let out = context_connect c in (out.1, out.2)
run_context disconnect c = context_disconnect c
run_context (subscribe allocated cb) c = (c, (context_subscribe allocated cb).1)
run_context (sink_info allocated cb) c = (c, (get_sink_input_info allocated cb).1)
run_context (set_volume allocated cb) c = (c, (set_sink_input_volume allocated cb).1)

unfoldable pub run_contexts : List ContextCall → Option Context → Option Context × List Event
unfolding run_context
run_contexts [] c = (c, [])
run_contexts (x ∷ xs) c =
    let out = run_context x c in let rest = run_contexts xs out.0 in (rest.0, out.1 ++ rest.1)
