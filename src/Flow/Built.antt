-- ===== src/Flow/Built.antt =====
-- The graph that internal/flowsvc/graph.go builds is that of the configuration.
use Prim.Native.String.{String}
use text.Mathlib.Text.{◌==◌}
use text.Mathlib.TextEquality.{eq_iff}
use neio_agent.Prelude.{
  ◌+◌, true, ◌||◌, List, [], ◌∷◌, ◌++◌, ◌≡◌, refl, sym, ap, ◌∙◌, arith, if◌then◌else◌, ltb,
  append_assoc, append-nil, Bool-cases, inl, inr,
}
use neio_agent.Flow.{
  GraphBuilder, NodeConfig, new_graph_builder, enter_node, add_edges, append_edge, add_node,
  add_nodes, str_member,
}
use neio_agent.Flow.Config.{count, ids, type_of, targets, each_time, sources}

add_edges-edges_down :
    (g : GraphBuilder) (id : String) (to : List String) (u : String)
    → (add_edges g id to).edges_down u ≡ (if u == id then g.edges_down u ++ to else g.edges_down u)
add_edges-edges_down g id [] u = ground (arith, append-nil (g.edges_down u))
add_edges-edges_down g id (t ∷ to) u =
    add_edges-edges_down
      (record g {
        edges_down = append_edge g.edges_down id t;
        edges_up = append_edge g.edges_up t id;
      })
      id to u
    ∙ elim (Bool-cases (u == id)) [
      | inl same ↦
          rw same (rw (← ((eq_iff u id).0 same)) (append_assoc (g.edges_down u) (t ∷ []) to))
      | inr other ↦ rw other refl
    ]

add_edges-edges_up :
    (g : GraphBuilder) (id : String) (to : List String) (v : String)
    → (add_edges g id to).edges_up v ≡ g.edges_up v ++ each_time id v to
add_edges-edges_up g id [] v = sym (append-nil (g.edges_up v))
add_edges-edges_up g id (t ∷ to) v =
    add_edges-edges_up
      (record g {
        edges_down = append_edge g.edges_down id t;
        edges_up = append_edge g.edges_up t id;
      })
      id to v
    ∙ elim (Bool-cases (v == t)) [
      | inl same ↦
          rw same (
            rw (← ((eq_iff v t).0 same))
              (append_assoc (g.edges_up v) (id ∷ []) (each_time id v to)))
      | inr other ↦ rw other refl
    ]

record KeepsNodes (g h : GraphBuilder) : Type 0 where
  map_same : h.id_map ≡ g.id_map
  ids_same : h.node_ids ≡ g.node_ids
  types_same : h.node_types ≡ g.node_types
  errors_same : h.errors ≡ g.errors

add_edges-KeepsNodes :
    (g : GraphBuilder) (id : String) (to : List String) → KeepsNodes g (add_edges g id to)
add_edges-KeepsNodes g id [] = record {
  map_same = refl;
  ids_same = refl;
  types_same = refl;
  errors_same = refl;
}
add_edges-KeepsNodes g id (t ∷ to) =
    let k =
      add_edges-KeepsNodes
        (record g {
          edges_down = append_edge g.edges_down id t;
          edges_up = append_edge g.edges_up t id;
        })
        id to in
    record {
      map_same = k.map_same;
      ids_same = k.ids_same;
      types_same = k.types_same;
      errors_same = k.errors_same;
    }

-- The invariant of the builder: the map of ids and the errors follow the list of nodes.
record IsListed (g : GraphBuilder) : Type 0 where
  listed : (u : String) → g.id_map u ≡ str_member u g.node_ids
  repeated : (u : String) → str_member u g.errors ≡ ltb 1 (count u g.node_ids)

str_member-append :
    (u : String) (xs ys : List String)
    → str_member u (xs ++ ys) ≡ (str_member u xs || str_member u ys)
str_member-append u [] ys = refl
str_member-append u (x ∷ xs) ys = ground (arith, str_member-append u xs ys)

count-append : (u : String) (xs ys : List String) → count u (xs ++ ys) ≡ count u xs + count u ys
count-append u [] ys = omega arith
count-append u (x ∷ xs) ys = ground (arith, count-append u xs ys)

pub str_member-count : (u : String) (xs : List String) → str_member u xs ≡ ltb 0 (count u xs)
str_member-count u [] = refl
str_member-count u (x ∷ xs) = ground (arith, str_member-count u xs)

enter_node-IsListed :
    (g : GraphBuilder) (typ id : String) → IsListed g → IsListed (enter_node g typ id)
enter_node-IsListed g typ id inv = record {
  listed = λ u. ground (arith, inv.listed u, str_member-append u g.node_ids (id ∷ []));
  repeated = λ u. ground (
    arith,
    eq_iff u id,
    inv.listed u,
    inv.listed id,
    inv.repeated u,
    str_member-append u g.errors (id ∷ []),
    count-append u g.node_ids (id ∷ []),
    str_member-count u g.node_ids,
  );
}

add_node-IsListed :
    (g : GraphBuilder) (typ id : String) (to : List String)
    → IsListed g
    → IsListed (add_node g typ id to)
unfolding add_node
add_node-IsListed g typ id to inv =
    let k = add_edges-KeepsNodes (enter_node g typ id) id to in
    let e = enter_node-IsListed g typ id inv in
    record {
      listed = λ u. rw (k.map_same, k.ids_same) (e.listed u);
      repeated = λ u. rw (k.ids_same, k.errors_same) (e.repeated u);
    }

add_nodes-IsListed :
    (cfg : List NodeConfig) (g : GraphBuilder) → IsListed g → IsListed (add_nodes g cfg)
unfolding add_nodes
add_nodes-IsListed [] g inv = inv
add_nodes-IsListed (n ∷ cfg) g inv =
    add_nodes-IsListed cfg (add_node g n.typ n.id n.to) (add_node-IsListed g n.typ n.id n.to inv)

add_nodes-node_ids :
    (cfg : List NodeConfig) (g : GraphBuilder) → (add_nodes g cfg).node_ids ≡ g.node_ids ++ ids cfg
unfolding add_nodes add_node
add_nodes-node_ids [] g = sym (append-nil g.node_ids)
add_nodes-node_ids (n ∷ cfg) g =
    let k = add_edges-KeepsNodes (enter_node g n.typ n.id) n.id n.to in
    add_nodes-node_ids cfg (add_node g n.typ n.id n.to)
    ∙ rw k.ids_same (append_assoc g.node_ids (n.id ∷ []) (ids cfg))

add_nodes-node_types :
    (cfg : List NodeConfig) (g : GraphBuilder) (u : String)
    → (add_nodes g cfg).node_types u ≡ type_of (g.node_types u) cfg u
unfolding add_nodes add_node
add_nodes-node_types [] g u = refl
add_nodes-node_types (n ∷ cfg) g u =
    let k = add_edges-KeepsNodes (enter_node g n.typ n.id) n.id n.to in
    add_nodes-node_types cfg (add_node g n.typ n.id n.to) u ∙ rw k.types_same refl

add_nodes-edges_down :
    (cfg : List NodeConfig) (g : GraphBuilder) (u : String)
    → (add_nodes g cfg).edges_down u ≡ g.edges_down u ++ targets cfg u
unfolding add_nodes add_node
add_nodes-edges_down [] g u = sym (append-nil (g.edges_down u))
add_nodes-edges_down (n ∷ cfg) g u =
    add_nodes-edges_down cfg (add_node g n.typ n.id n.to) u
    ∙ rw (add_edges-edges_down (enter_node g n.typ n.id) n.id n.to u)
        (elim (Bool-cases (u == n.id)) [
          | inl same ↦ rw same (append_assoc (g.edges_down u) n.to (targets cfg u))
          | inr other ↦ rw other refl
        ])

add_nodes-edges_up :
    (cfg : List NodeConfig) (g : GraphBuilder) (v : String)
    → (add_nodes g cfg).edges_up v ≡ g.edges_up v ++ sources cfg v
unfolding add_nodes add_node
add_nodes-edges_up [] g v = sym (append-nil (g.edges_up v))
add_nodes-edges_up (n ∷ cfg) g v =
    add_nodes-edges_up cfg (add_node g n.typ n.id n.to) v
    ∙ rw (add_edges-edges_up (enter_node g n.typ n.id) n.id n.to v)
        (append_assoc (g.edges_up v) (each_time n.id v n.to) (sources cfg v))

-- What the builder holds after the loop of `buildGraph`.
pub record Builds (cfg : List NodeConfig) (g : GraphBuilder) : Type 0 where
  pub nodes : g.node_ids ≡ ids cfg
  pub known : (u : String) → g.id_map u ≡ str_member u (ids cfg)
  pub repeated : (u : String) → str_member u g.errors ≡ ltb 1 (count u (ids cfg))
  pub types : (u : String) → g.node_types u ≡ type_of "" cfg u
  pub down : (u : String) → g.edges_down u ≡ targets cfg u
  pub up : (v : String) → g.edges_up v ≡ sources cfg v

new-IsListed : IsListed new_graph_builder
unfolding new_graph_builder
new-IsListed = record { listed = λ u. refl; repeated = λ u. refl }

-- The builder holds exactly the configured nodes in their order, their last types and their links in
-- both directions, and its errors are the ids that come twice or more.
pub add_nodes-Builds : (cfg : List NodeConfig) → Builds cfg (add_nodes new_graph_builder cfg)
unfolding new_graph_builder
add_nodes-Builds cfg =
    let inv = add_nodes-IsListed cfg new_graph_builder new-IsListed in
    let same = add_nodes-node_ids cfg new_graph_builder in
    record {
      nodes = same;
      known = λ u. inv.listed u ∙ ap (str_member u) same;
      repeated = λ u. inv.repeated u ∙ ap (λ l. ltb 1 (count u l)) same;
      types = add_nodes-node_types cfg new_graph_builder;
      down = add_nodes-edges_down cfg new_graph_builder;
      up = add_nodes-edges_up cfg new_graph_builder;
    }

count-each_time :
    (u id v : String) (to : List String)
    → count u (each_time id v to) ≡ (if u == id then count v to else 0)
count-each_time u id v [] = ground arith
count-each_time u id v (t ∷ to) = ground (arith, count-each_time u id v to)

-- A link stands in both directions, as often.
pub count-sources :
    (cfg : List NodeConfig) (u v : String) → count u (sources cfg v) ≡ count v (targets cfg u)
count-sources [] u v = refl
count-sources (n ∷ cfg) u v = ground (
  arith,
  count-append u (each_time n.id v n.to) (sources cfg v),
  count-each_time u n.id v n.to,
  count-append v n.to (targets cfg u),
  count-sources cfg u v,
)

pub member-targets :
    (cfg : List NodeConfig) (u v : String)
    → str_member v (targets cfg u) ≡ true
    → str_member u (ids cfg) ≡ true
member-targets [] u v h = ground arith
member-targets (n ∷ cfg) u v h = ground (arith, member-targets cfg u v)
