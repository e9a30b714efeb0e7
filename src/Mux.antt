-- ===== src/Mux.antt =====
-- components/nodes/mux.go: the route of a multiplexer. `Run` handles one signal at a time, so a
-- history is a list of signals. A route is the id of a downstream node.
pub mod Routes
pub mod Events
pub mod Moves
pub mod Pressed
mod Tests
use Prim.Native.String.{String}
use text.Mathlib.Text.{◌==◌}
use neio_agent.Prelude.{Bool, true, false, List, [], ◌∷◌, ◌++◌, if◌then◌else◌}

-- `muxReset`, `muxSet` and `muxUnset`.
pub data Signal : Type 0 where
  reset : Signal
  set_route unset_route : String → Signal

-- The variables of `Run`: the routes that are set, oldest first, and the one in use.
pub record Routing : Type 0 where
  pub current_route : String
  pub route_list : List String

abbrev pub initial : String → Routing
initial default_route = record { current_route = default_route; route_list = [] }

-- `routeList[len(routeList)-1]`, or the default route for an empty list.
abbrev pub last_or : String → List String → String
last_or d [] = d
last_or d (r ∷ rs) = last_or r rs

-- The first occurrence goes.
abbrev pub remove_first : String → List String → List String
remove_first x [] = []
remove_first x (r ∷ rs) = if r == x then rs else r ∷ remove_first x rs

abbrev pub contains : String → List String → Bool
contains x [] = false
contains x (r ∷ rs) = if r == x then true else contains x rs

-- One round of the loop of `Run` on a signal.
unfoldable pub handle : String → Routing → Signal → Routing
handle d s reset = initial d
handle d s (set_route r) =
    if r == s.current_route
    then s
    else record { current_route = r; route_list = s.route_list ++ (r ∷ []) }
handle d s (unset_route r) =
    let rest = remove_first r s.route_list in
    if contains r s.route_list
    then record {
      current_route = if s.current_route == r then last_or d rest else s.current_route;
      route_list = rest;
    }
    else s

unfoldable pub handle_all : String → Routing → List Signal → Routing
handle_all d s [] = s
handle_all d s (x ∷ xs) = handle_all d (handle d s x) xs

-- `validateNode`, which signals are checked by when they are made.
abbrev pub validate_node : List String → String → Bool
validate_node nodes x = contains x nodes
