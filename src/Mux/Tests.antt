-- ===== src/Mux/Tests.antt =====
-- Concrete runs of components/nodes/mux.go: a base layer and two more.
use text.Mathlib.TextEquality.{eq_iff}
use Prim.Native.String.{String}
use text.Mathlib.Text.{◌==◌}
use neio_agent.Prelude
use neio_agent.Event.{Event, activation}
use neio_agent.Event.Index.{IsIndexed, usage_at}
use neio_agent.Event.Activations.{event_activation}
use neio_agent.Mux.Events.{Published, handle_event}
use neio_agent.Mux.Moves.{new_route}
use neio_agent.Mux.Pressed.{pressed_after, handle_event-pressed}
use neio_agent.Prelude.{
  ℕ, zero, suc, Bool, true, false, ◌&&◌, Option, some, Map, insert, empty_map, ◌≡◌, refl, List, [],
  ◌∷◌, arith,
}
use neio_agent.Mux.{Signal, set_route, unset_route, Routing, initial, handle, handle_all}
use neio_agent.Mux.Routes.{IsRouted, handle_all-IsRouted, unset_route-set_route}

abbrev signals : List Signal
signals = set_route "fn" ∷ set_route "num" ∷ unset_route "fn" ∷ []

handle_all-IsRouted_example : IsRouted "base" (handle_all "base" (initial "base") signals)
handle_all-IsRouted_example = handle_all-IsRouted "base" signals

abbrev on_fn : Routing
on_fn = record { current_route = "fn"; route_list = "fn" ∷ [] }

unset_route-set_route_example :
    handle "base" (handle "base" on_fn (set_route "num")) (unset_route "num") ≡ on_fn
unset_route-set_route_example =
    unset_route-set_route "base" "num" on_fn refl (ground (arith, eq_iff "num" "fn")) refl

-- A key that was pressed on the base layer is released on another.
abbrev release : Event
release = record { usages = activation false 0x70004 ∷ []; usage_map = insert empty_map 0x70004 0 }

release-IsIndexed : IsIndexed release
release-IsIndexed = record { sound = λ u i h. ground arith; complete = λ u i h. at_zero u i h }
  where
    at_zero : (u i : ℕ) → usage_at release.usages i ≡ some u → release.usage_map u ≡ some i
    at_zero u zero h = ground arith
    at_zero u (suc i) h = ground arith

abbrev activated : Map String
activated = insert empty_map 0x70004 "base"

abbrev before : String → ℕ → Bool
before r u = r == "base" && Prelude.◌==◌ u 0x70004

handle_event-pressed_example :
    (p : Published) × (handle_event "fn" activated release ≡ some p)
    × ((r : String) (u : ℕ)
        → pressed_after "fn" p before r u ≡ true
        → p.activated_usages u ≡ some r)
    × ((u : ℕ) → p.activated_usages u ≡ new_route "fn" (activated u) (event_activation release u))
    × ((r : String) (u : ℕ)
        → event_activation release u ≡ some false
        → pressed_after "fn" p before r u ≡ false)
handle_event-pressed_example =
    handle_event-pressed "fn" activated release before release-IsIndexed from_base
  where
    from_base : (r : String) (u : ℕ) → before r u ≡ true → activated u ≡ some r
    from_base r u h = ground (arith, h, eq_iff r "base")
