-- ===== src/Context/Heard.antt =====
-- What the daemon hears of its context.
use spoton.Prelude.{
  ◌≡◌, refl, ap, ◌∙◌, Bool, true, false, Option, some, List, [], ◌∷◌, ◌++◌, if◌then◌else◌,
}
use spoton.Context.{
  ContextState, ready, terminated, Context, Event, state_changed, success, end_of_list, broadcast,
  ContextCall, listen, subscribe_listen, connect, disconnect, subscribe, sink_info, set_volume,
  event_if, context_get_state, run_contexts,
}

-- The state after some calls: the last connect or disconnect decides.
abbrev pub state_after : ContextState → List ContextCall → ContextState
state_after s [] = s
state_after s (connect ∷ xs) = state_after ready xs
state_after s (disconnect ∷ xs) = state_after terminated xs
state_after s (listen cb ∷ xs) = state_after s xs
state_after s (subscribe_listen cb ∷ xs) = state_after s xs
state_after s (subscribe a cb ∷ xs) = state_after s xs
state_after s (sink_info a cb ∷ xs) = state_after s xs
state_after s (set_volume a cb ∷ xs) = state_after s xs

-- The states that a listener is told of, which listens from the start or not.
abbrev pub told : Bool → List ContextCall → List ContextState
told b [] = []
told b (connect ∷ xs) = if b then ready ∷ told b xs else told b xs
told b (disconnect ∷ xs) = if b then terminated ∷ told b xs else told b xs
told b (listen cb ∷ xs) = told cb xs
told b (subscribe_listen cb ∷ xs) = told b xs
told b (subscribe a cb ∷ xs) = told b xs
told b (sink_info a cb ∷ xs) = told b xs
told b (set_volume a cb ∷ xs) = told b xs

abbrev pub states : List Event → List ContextState
states [] = []
states (state_changed s ∷ es) = s ∷ states es
states (success ∷ es) = states es
states (end_of_list ∷ es) = states es
states (broadcast ∷ es) = states es

pub record IsHeard (s : ContextState) (heard : List ContextState)
    (out : Option Context × List Event) : Type 0 where
  pub state : context_get_state out.0 ≡ s
  pub events : states out.1 ≡ heard

states-append : (es fs : List Event) → states (es ++ fs) ≡ states es ++ states fs
states-append [] fs = refl
states-append (state_changed s ∷ es) fs = ap (λ r. s ∷ r) (states-append es fs)
states-append (success ∷ es) fs = states-append es fs
states-append (end_of_list ∷ es) fs = states-append es fs
states-append (broadcast ∷ es) fs = states-append es fs

change_states :
    (b m : Bool) (s : ContextState) (h : List ContextState)
    → states (event_if b (state_changed s) ++ event_if m broadcast) ++ h ≡ (if b then s ∷ h else h)
change_states true true s h = refl
change_states true false s h = refl
change_states false true s h = refl
change_states false false s h = refl

change-IsHeard :
    {s : ContextState} {h : List ContextState} (o : Option Context) (b m : Bool)
    (new : ContextState) (es : List Event)
    → IsHeard s h (o, es)
    → IsHeard s
        (if b then new ∷ h else h)
        (o, (event_if b (state_changed new) ++ event_if m broadcast) ++ es)
change-IsHeard {h} o b m new es v = record {
  state = v.state;
  events =
      states-append (event_if b (state_changed new) ++ event_if m broadcast) es
      ∙ ap (λ r. states (event_if b (state_changed new) ++ event_if m broadcast) ++ r) v.events
      ∙ change_states b m new h;
}

quiet-IsHeard :
    {s : ContextState} {h : List ContextState} (o : Option Context) (es fs : List Event)
    → states es ≡ []
    → IsHeard s h (o, fs)
    → IsHeard s h (o, es ++ fs)
quiet-IsHeard {h} o es fs q v = record {
  state = v.state;
  events = states-append es fs ∙ ap (λ r. r ++ states fs) q ∙ v.events;
}

event_if-quiet : (b : Bool) (e : Event) → states (e ∷ []) ≡ [] → states (event_if b e) ≡ []
event_if-quiet true e q = q
event_if-quiet false e q = refl

-- Whatever calls the daemon makes on a context: its state is what the last connect or disconnect
-- left, and the state callback is told of each of these changes made while it is set, in order, and of
-- nothing else.
pub run_contexts-IsHeard :
    (xs : List ContextCall) (c : Context)
    → IsHeard (state_after c.state xs) (told c.state_cb xs) (run_contexts xs (some c))
unfolding run_contexts
run_contexts-IsHeard [] c = record { state = refl; events = refl }
run_contexts-IsHeard (listen cb ∷ xs) c = run_contexts-IsHeard xs (record c { state_cb = cb })
run_contexts-IsHeard (subscribe_listen cb ∷ xs) c =
    run_contexts-IsHeard xs (record c { subscribe_cb = cb })
run_contexts-IsHeard (connect ∷ xs) c =
    change-IsHeard _ c.state_cb c.has_mainloop ready _
      (run_contexts-IsHeard xs (record c { state = ready }))
run_contexts-IsHeard (disconnect ∷ xs) c =
    change-IsHeard _ c.state_cb c.has_mainloop terminated _
      (run_contexts-IsHeard xs (record c { state = terminated }))
run_contexts-IsHeard (subscribe a cb ∷ xs) c =
    quiet-IsHeard _ (event_if cb success) _ (event_if-quiet cb success refl)
      (run_contexts-IsHeard xs c)
run_contexts-IsHeard (sink_info a cb ∷ xs) c =
    quiet-IsHeard _ (event_if cb end_of_list) _ (event_if-quiet cb end_of_list refl)
      (run_contexts-IsHeard xs c)
run_contexts-IsHeard (set_volume a cb ∷ xs) c =
    quiet-IsHeard _ (event_if cb success) _ (event_if-quiet cb success refl)
      (run_contexts-IsHeard xs c)
