-- ===== src/Flow/Tests.antt =====
-- Concrete graphs for internal/flowsvc/graph.go: an input that a mux or a bind node leads to an output.
use Prim.Native.String.{String}
use text.Mathlib.Text.{◌==◌}
use neio_agent.Prelude.{none, some, List, [], ◌∷◌, ◌≡◌, ◌≢◌, ◌↔◌, refl, if◌then◌else◌}
use neio_agent.Flow.{
  link_none, link_one, link_many, NodeTypeDescriptor, Registry, NodeConfig, new_graph_builder,
  add_node, add_nodes,
}
use neio_agent.Flow.Config.{targets}
use neio_agent.Flow.Built.{Builds, add_nodes-Builds}
use neio_agent.Flow.Validate.{
  cycle, out_of_fuel, validate, duplicate_ids, no_nodes, no_target, no_entry, unknown_type,
}
use neio_agent.Flow.Validate.Walks.{Walk, here, step, Cycle}
use neio_agent.Flow.Validate.Verdict.{IsEntry, IsFlow, validate-IsFlow}
use neio_agent.Flow.Validate.Reported.{validate-ne-out_of_fuel, validate-eq-cycle}

abbrev types : Registry NodeTypeDescriptor
types = record {
  components = λ t.
      if t == "input"
      then some (record { upstream_type = link_none; downstream_type = link_many })
      else if t == "bind"
      then some (record { upstream_type = link_many; downstream_type = link_one })
      else if t == "mux"
      then some (record { upstream_type = link_many; downstream_type = link_many })
      else if t == "output"
      then some (record { upstream_type = link_many; downstream_type = link_none })
      else none;
}

abbrev node : String → String → List String → NodeConfig
node typ id to = record { id = id; typ = typ; to = to }

abbrev straight : List NodeConfig
straight = node "input" "in" ("b" ∷ []) ∷ node "bind" "b" ("out" ∷ []) ∷ node "output" "out" [] ∷ []

straight_accepted : validate types (add_nodes new_graph_builder straight) ≡ none
unfolding validate add_nodes add_node new_graph_builder
straight_accepted = refl

-- The mux leads to the bind node, which leads back to it.
abbrev looped : List NodeConfig
looped =
    node "input" "in" ("m" ∷ [])
    ∷ node "mux" "m" ("b" ∷ "out" ∷ [])
    ∷ node "bind" "b" ("m" ∷ [])
    ∷ node "output" "out" []
    ∷ []

looped_rejected : validate types (add_nodes new_graph_builder looped) ≡ some (cycle "m")
unfolding validate add_nodes add_node new_graph_builder
looped_rejected = refl

-- Two nodes that lead to each other, and to which no entry leads, are accepted beside a straight flow.
abbrev hidden : List NodeConfig
hidden = node "bind" "x" ("y" ∷ []) ∷ node "bind" "y" ("x" ∷ []) ∷ straight

hidden_accepted : validate types (add_nodes new_graph_builder hidden) ≡ none
unfolding validate add_nodes add_node new_graph_builder
hidden_accepted = refl

hidden-Cycle : Cycle (targets hidden) "x"
hidden-Cycle = ("y", refl, step "y" "x" "x" refl (here "x"))

rejections :
    (validate types (add_nodes new_graph_builder []) ≡ some no_nodes)
    × (validate types (add_nodes new_graph_builder (node "input" "a" [] ∷ node "bind" "a" [] ∷ []))
        ≡ some (duplicate_ids ("a" ∷ [])))
    × (validate types (add_nodes new_graph_builder (node "lock" "a" [] ∷ []))
        ≡ some (unknown_type "a"))
    × (validate types (add_nodes new_graph_builder (node "input" "a" ("b" ∷ []) ∷ []))
        ≡ some (no_target "a" "b"))
    × (validate types
          (add_nodes new_graph_builder (node "mux" "a" ("b" ∷ []) ∷ node "mux" "b" ("a" ∷ []) ∷ []))
        ≡ some no_entry)
unfolding validate add_nodes add_node new_graph_builder
rejections = (refl, refl, refl, refl, refl)

add_nodes-Builds_example : Builds looped (add_nodes new_graph_builder looped)
add_nodes-Builds_example = add_nodes-Builds looped

validate-IsFlow_example :
    (validate types (add_nodes new_graph_builder straight) ≡ none) ↔ IsFlow types straight
validate-IsFlow_example = validate-IsFlow types straight

straight-IsFlow : IsFlow types straight
straight-IsFlow = validate-IsFlow_example.0 straight_accepted

validate-ne-out_of_fuel_example :
    validate types (add_nodes new_graph_builder hidden) ≢ some out_of_fuel
validate-ne-out_of_fuel_example = validate-ne-out_of_fuel types hidden

validate-eq-cycle_example :
    ((e : String) × IsEntry looped e × Walk (targets looped) e "m") × Cycle (targets looped) "m"
validate-eq-cycle_example = validate-eq-cycle types looped "m" looped_rejected
