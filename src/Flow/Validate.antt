-- ===== src/Flow/Validate.antt =====
-- internal/flowsvc/graph.go: `Validate`, with the search for cycles.
pub mod Walks
pub mod Found
pub mod Checks
pub mod Fuel
pub mod Searches
pub mod Verdict
pub mod Reported
use Prim.Native.String.{String}
use text.Mathlib.Text.{◌==◌}
use neio_agent.Prelude.{
  ℕ, zero, suc, Bool, true, false, Option, none, some, List, [], ◌∷◌, if◌then◌else◌, length,
}
use neio_agent.Flow.{
  LinkType, link_none, link_one, link_many, NodeTypeDescriptor, Registry, get, str_member,
  GraphBuilder, Edges,
}

-- The error that `Validate` returns. `out_of_fuel` is no error of the code: a search that goes on.
pub data Failure : Type 0 where
  duplicate_ids : List String → Failure
  no_nodes : Failure
  unknown_type : String → Failure
  no_upstream too_many_upstreams unexpected_upstream : String → Failure
  no_downstream too_many_downstreams unexpected_downstream : String → Failure
  no_target : String → String → Failure
  no_entry : Failure
  cycle : String → Failure
  out_of_fuel : Failure

abbrev pub first_failure : Option Failure → Option Failure → Option Failure
first_failure (some e) rest = some e
first_failure none rest = rest

-- The two switches on a link type: the links are compared with what the node type promises.
abbrev pub check_links : LinkType → List String → Failure → Failure → Failure → Option Failure
check_links link_many [] none_error many_error some_error = some none_error
check_links link_many (x ∷ xs) none_error many_error some_error = none
check_links link_one [] none_error many_error some_error = some none_error
check_links link_one (x ∷ []) none_error many_error some_error = none
check_links link_one (x ∷ y ∷ xs) none_error many_error some_error = some many_error
check_links link_none [] none_error many_error some_error = none
check_links link_none (x ∷ xs) none_error many_error some_error = some some_error

-- The loop over the ids that a node points to.
abbrev pub check_targets : GraphBuilder → String → List String → Option Failure
check_targets g id [] = none
check_targets g id (to ∷ rest) =
    if g.id_map to then check_targets g id rest else some (no_target id to)

abbrev pub check_described : GraphBuilder → String → Option NodeTypeDescriptor → Option Failure
check_described g id none = some (unknown_type id)
check_described g id (some meta) =
    first_failure
      (check_links meta.upstream_type (g.edges_up id) (no_upstream id) (too_many_upstreams id)
        (unexpected_upstream id))
      (first_failure
        (check_links meta.downstream_type (g.edges_down id) (no_downstream id)
          (too_many_downstreams id) (unexpected_downstream id))
        (check_targets g id (g.edges_down id)))

-- The body of the loop of `Validate` over the nodes; `GraphRegistry.NewNode` looks the type up.
unfoldable pub check_node : Registry NodeTypeDescriptor → GraphBuilder → String → Option Failure
unfolding get
check_node reg g id = check_described g id (get reg (g.node_types id))

abbrev pub check_nodes : Registry NodeTypeDescriptor → GraphBuilder → List String → Option Failure
check_nodes reg g [] = none
check_nodes reg g (id ∷ rest) = first_failure (check_node reg g id) (check_nodes reg g rest)

abbrev pub is_empty : List String → Bool
is_empty [] = true
is_empty (x ∷ xs) = false

-- The loop of `entryNodeIDs`.
abbrev pub entry_ids : GraphBuilder → List String → List String
entry_ids g [] = []
entry_ids g (id ∷ rest) =
    if is_empty (g.edges_up id) then id ∷ entry_ids g rest else entry_ids g rest

unfoldable pub entry_node_ids : GraphBuilder → List String
entry_node_ids g = entry_ids g g.node_ids

-- How a search ends: with the set `visited` as it leaves it, or with the id of a cycle.
pub data Search : Type 0 where
  clear : List String → Search
  found : String → Search
  exhausted : Search

abbrev pub delete_id : String → List String → List String
delete_id id [] = []
delete_id id (v ∷ vs) = if v == id then delete_id id vs else v ∷ delete_id id vs

abbrev pub then_search : Search → (List String → Search) → Search
then_search (clear visited) f = f visited
then_search (found id) f = found id
then_search exhausted f = exhausted

-- The loop of `validateCycles` over the nodes downstream.
abbrev pub search_all : (String → List String → Search) → List String → List String → Search
search_all check [] visited = clear visited
search_all check (d ∷ rest) visited = then_search (check d visited) (λ v. search_all check rest v)

-- The map `visited` is the list of its keys.
unfoldable pub validate_cycles : Edges → ℕ → String → List String → Search
validate_cycles edges zero id visited = exhausted
validate_cycles edges (suc fuel) id visited =
    let below : Search =
      then_search (search_all (validate_cycles edges fuel) (edges id) (id ∷ visited))
        (λ v. clear (delete_id id v)) in
    if str_member id visited then found id else below

abbrev pub search_failure : Search → Option Failure → Option Failure
search_failure (clear visited) rest = rest
search_failure (found id) rest = some (cycle id)
search_failure exhausted rest = some out_of_fuel

-- The loop of `Validate` over the entries, each with a set `visited` of its own.
abbrev pub check_cycles : Edges → ℕ → List String → Option Failure
check_cycles edges fuel [] = none
check_cycles edges fuel (id ∷ rest) =
    search_failure (validate_cycles edges fuel id []) (check_cycles edges fuel rest)

abbrev pub check_entries : GraphBuilder → List String → Option Failure
check_entries g [] = some no_entry
check_entries g (id ∷ rest) = check_cycles g.edges_down (suc (length g.node_ids)) (id ∷ rest)

abbrev pub check_graph :
    Registry NodeTypeDescriptor → GraphBuilder → List String → List String → Option Failure
check_graph reg g (e ∷ errors) ids = some (duplicate_ids (e ∷ errors))
check_graph reg g [] [] = some no_nodes
check_graph reg g [] (id ∷ ids) =
    first_failure (check_nodes reg g (id ∷ ids)) (check_entries g (entry_node_ids g))

-- `none` is the accepted graph.
unfoldable pub validate : Registry NodeTypeDescriptor → GraphBuilder → Option Failure
unfolding entry_node_ids check_node validate_cycles
validate reg g = check_graph reg g g.errors g.node_ids
