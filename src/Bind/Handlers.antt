-- ===== src/Bind/Handlers.antt =====
-- flowapi/action.go: the handlers that write usages into the event. A handler returns the event and
-- whether it returns a finalizer.
use mathlib.Core.Option
use neio_agent.Prelude.{ℕ, ap, Bool, true, false, Option, List}
use neio_agent.Event.{Event, activate, deactivate, set_value, set_delta}
use neio_agent.Event.Batch.{activate_all_lem}
use neio_agent.Bind.{Actions}
use neio_agent.Bind.Fires.{IsSafe}

-- `NewToggleActionHandler` and its finalizer.
abbrev pub toggle : List ℕ → Event → Option (Event × Bool)
toggle us e = Option.map (λ e'. (e', true)) (activate e us)

abbrev pub toggle_back : List ℕ → Event → Option Event
toggle_back us e = deactivate e us

-- `NewSetValueHandler` and `NewSetDeltaHandler`, which return no finalizer.
abbrev pub set_value_handler : ℕ → ℕ → Event → Option (Event × Bool)
set_value_handler u v e = Option.map (λ e'. (e', false)) (set_value e u v)

abbrev pub set_delta_handler : ℕ → ℕ → Event → Option (Event × Bool)
set_delta_handler u v e = Option.map (λ e'. (e', false)) (set_delta e u v)

-- Mappings to usages only.
abbrev pub toggles : (ℕ → List ℕ) → Actions
toggles us = record {
  handler = λ calls i e. toggle (us i) e;
  finalize = λ calls i e. toggle_back (us i) e;
}

pub toggles-IsSafe : (us : ℕ → List ℕ) → IsSafe (toggles us)
toggles-IsSafe us = record {
  handler_safe = λ calls i e w.
      let (e', ran, indexed, _) = activate_all_lem true (us i) e w in
      (e', true, ap (Option.map (λ f. (f, true))) ran, indexed);
  finalize_safe = λ calls i e w.
      let (e', ran, indexed, _) = activate_all_lem false (us i) e w in (e', ran, indexed);
}
