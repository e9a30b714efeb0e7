-- ===== src/Mux/Events.antt =====
-- components/nodes/mux.go, the branch of `Run` that handles an event: where the usages of the event
-- go when they were activated on another route.
use Prim.Native.String.{String}
use text.Mathlib.Text.{◌==◌}
use neio_agent.Prelude.{
  ℕ, Bool, true, false, Option, none, some, List, [], ◌∷◌, ◌++◌, if◌then◌else◌, Map, insert, delete,
}
use mathlib.Core.Option
use neio_agent.Event.{Event, UsageEvent, suppress, is_empty}

-- The state of the loop over the usages. `deactivated` are the `Deactivate` calls on the events of
-- `deactEvents`, by route: a route without any has no event.
pub record Handled : Type 0 where
  pub activated_usages : Map String
  pub deactivated : String → List ℕ
  pub suppressed : List ℕ

-- `prev`, where there is one and it is not the current route.
abbrev pub other_route : String → Option String → Option String
other_route current none = none
other_route current (some prev) = if prev == current then none else some prev

abbrev pub deactivate_on : Option String → ℕ → (String → List ℕ) → String → List ℕ
deactivate_on none u f r = f r
deactivate_on (some prev) u f r = if r == prev then f r ++ (u ∷ []) else f r

abbrev pub suppress_on : Option String → ℕ → List ℕ → List ℕ
suppress_on none u us = us
suppress_on (some prev) u us = us ++ (u ∷ [])

abbrev pub handle_activation : String → Option Bool → ℕ → Handled → Handled
handle_activation current none u h = h
handle_activation current (some true) u h = record h {
  activated_usages = insert h.activated_usages u current;
  deactivated = deactivate_on (other_route current (h.activated_usages u)) u h.deactivated;
}
handle_activation current (some false) u h =
    let prev = other_route current (h.activated_usages u) in
    record {
      activated_usages = delete h.activated_usages u;
      deactivated = deactivate_on prev u h.deactivated;
      suppressed = suppress_on prev u h.suppressed;
    }

unfoldable pub handle_usages : String → Handled → List UsageEvent → Handled
handle_usages current h [] = h
handle_usages current h (d ∷ ds) =
    handle_usages current (handle_activation current d.activate d.usage h) ds

-- What is published: the deactivations for each route, and then the event for the current one, unless
-- it is empty.
pub record Published : Type 0 where
  pub activated_usages : Map String
  pub deactivated : String → List ℕ
  pub hid_event : Option Event

abbrev pub to_publish : Event → Option Event
to_publish e = if is_empty e then none else some e

abbrev pub start : Map String → Handled
start activated = record { activated_usages = activated; deactivated = λ r. []; suppressed = [] }

-- The suppressed usages are taken out of the event behind the loop; the loop reads a copy of the
-- usages. A panic of the event is `none`.
unfoldable pub handle_event : String → Map String → Event → Option Published
unfolding handle_usages
handle_event current activated e =
    let h = handle_usages current (start activated) e.usages in
    Option.map
      (λ e'. record {
        activated_usages = h.activated_usages;
        deactivated = h.deactivated;
        hid_event = to_publish e';
      })
      (suppress e h.suppressed)
