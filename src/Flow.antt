-- ===== src/Flow.antt =====
-- internal/flowsvc/graph.go: the builder of the graph of nodes, with the registry of node types
-- (internal/flowsvc/registry.go, pkg/registry) that it asks.
pub mod Validate
pub mod Config
pub mod Built
mod Tests
use Prim.Native.String.{String}
use text.Mathlib.Text.{◌==◌}
use neio_agent.Prelude.{
  is_some, Bool, false, true, ◌||◌, Option, none, some, List, [], ◌∷◌, ◌++◌, if◌then◌else◌,
}

-- `NodeLinkType`.
pub data LinkType : Type 0 where
  link_none link_one link_many : LinkType

-- The links that a node type promises (`NodeTypeDescriptor`).
pub record NodeTypeDescriptor : Type 0 where
  pub upstream_type : LinkType
  pub downstream_type : LinkType

-- pkg/registry: the components by their ids, a missing one being the error of `Get`.
pub record Registry {ℓ} (A : Type ℓ) : Type ℓ where
  pub components : String → Option A

abbrev pub new_registry {ℓ} : {A : Type ℓ} → Registry A
new_registry = record { components = λ id. none }

unfoldable pub get {ℓ} : {A : Type ℓ} → Registry A → String → Option A
get r id = r.components id

unfoldable pub has {ℓ} : {A : Type ℓ} → Registry A → String → Bool
has r id = is_some (r.components id)

-- `none` is the error of an id that is registered.
unfoldable pub register {ℓ} : {A : Type ℓ} → Registry A → String → A → Option (Registry A)
register r id c =
    if is_some (r.components id)
    then none
    else some (record { components = λ j. if j == id then some c else r.components j })

abbrev pub str_member : String → List String → Bool
str_member s [] = false
str_member s (t ∷ ts) = s == t || str_member s ts

-- A Go map from node ids to lists of node ids, in which a missing key reads as the empty list.
abbrev pub Edges : Type 0
Edges = String → List String

abbrev pub append_edge : Edges → String → String → Edges
append_edge edges id to j = if j == id then edges id ++ (to ∷ []) else edges j

-- The maps and lists of a `GraphBuilder`. An error of `add_node` is the id that came twice.
pub record GraphBuilder : Type 0 where
  pub id_map : String → Bool
  pub node_ids : List String
  pub node_types : String → String
  pub edges_down : Edges
  pub edges_up : Edges
  pub errors : List String

unfoldable pub new_graph_builder : GraphBuilder
new_graph_builder = record {
  id_map = λ id. false;
  node_ids = [];
  node_types = λ id. "";
  edges_down = λ id. [];
  edges_up = λ id. [];
  errors = [];
}

-- The loop of `AddNode` over the ids that the node points to.
abbrev pub add_edges : GraphBuilder → String → List String → GraphBuilder
add_edges g id [] = g
add_edges g id (to ∷ rest) =
    add_edges
      (record g {
        edges_down = append_edge g.edges_down id to;
        edges_up = append_edge g.edges_up to id;
      })
      id rest

-- What `AddNode` does before its loop.
abbrev pub enter_node : GraphBuilder → String → String → GraphBuilder
enter_node g typ id = record g {
  id_map = λ j. if j == id then true else g.id_map j;
  node_ids = g.node_ids ++ (id ∷ []);
  node_types = λ j. if j == id then typ else g.node_types j;
  errors = if g.id_map id then g.errors ++ (id ∷ []) else g.errors;
}

unfoldable pub add_node : GraphBuilder → String → String → List String → GraphBuilder
add_node g typ id to = add_edges (enter_node g typ id) id to

-- A node of the configuration (`NodeConfig`), without the configuration of its own.
pub record NodeConfig : Type 0 where
  pub id : String
  pub typ : String
  pub to : List String

-- The loop of `buildGraph` in flow_service.go.
unfoldable pub add_nodes : GraphBuilder → List NodeConfig → GraphBuilder
add_nodes g [] = g
add_nodes g (n ∷ rest) = add_nodes (add_node g n.typ n.id n.to) rest
