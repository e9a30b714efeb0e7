-- ===== src/Flow/Validate/Reported.antt =====
-- What the search for cycles of internal/flowsvc/graph.go reports, and that it ends.
use Prim.Native.String.{String}
use neio_agent.Prelude.{
  suc, true, Option, none, some, List, [], ◌∷◌, ◌≡◌, ◌≢◌, refl, sym, ◌∙◌, inl, inr, arith, length,
}
use neio_agent.Flow.{
  NodeTypeDescriptor, Registry, GraphBuilder, NodeConfig, new_graph_builder, add_nodes,
}
use neio_agent.Flow.Config.{targets}
use neio_agent.Flow.Validate.{
  Failure, cycle, out_of_fuel, first_failure, check_nodes, entry_node_ids, check_cycles,
  check_entries, check_graph, validate,
}
use neio_agent.Flow.Validate.Walks.{Walk, Cycle}
use neio_agent.Flow.Validate.Found.{found-Cycle}
use neio_agent.Flow.Validate.Checks.{of_search, IsStatic, check_nodes-IsStatic}
use neio_agent.Flow.Validate.Searches.{check_cycles-some}
use neio_agent.Flow.Validate.Verdict.{
  IsEntry, fuel, built, builds, down_same, IsEntry-iff, targets-ne-exhausted,
}

first_failure-second :
    (a b : Option Failure) (f : Failure)
    → IsStatic a
    → first_failure a b ≡ some f
    → of_search f ≡ true
    → b ≡ some f
first_failure-second none b f static h s = h
first_failure-second (some e) b f static h s = ground (arith, static f h)

check_graph-second :
    (reg : Registry NodeTypeDescriptor) (g : GraphBuilder) (errors ns : List String) (f : Failure)
    → check_graph reg g errors ns ≡ some f
    → of_search f ≡ true
    → check_entries g (entry_node_ids g) ≡ some f
check_graph-second reg g (e ∷ errors) ns f h s = ground arith
check_graph-second reg g [] [] f h s = ground arith
check_graph-second reg g [] (n ∷ ns) f h s =
    first_failure-second (check_nodes reg g (n ∷ ns)) _ f (check_nodes-IsStatic reg g (n ∷ ns)) h s

check_entries-second :
    (g : GraphBuilder) (es : List String) (f : Failure)
    → check_entries g es ≡ some f
    → of_search f ≡ true
    → check_cycles g.edges_down (suc (length g.node_ids)) es ≡ some f
check_entries-second g [] f h s = ground arith
check_entries-second g (e ∷ es) f h s = h

module _ (reg : Registry NodeTypeDescriptor) (cfg : List NodeConfig) where
  -- A failure of the search is a cycle to which a walk from an entry leads.
  validate-search :
      (f : Failure)
      → validate reg (built reg cfg) ≡ some f
      → of_search f ≡ true
      → (x : String) × (f ≡ cycle x)
        × ((e : String) × IsEntry cfg e × Walk (targets cfg) e x)
        × Cycle (targets cfg) x
  unfolding validate
  validate-search f h s =
      let run =
        check_entries-second (built reg cfg) (entry_node_ids (built reg cfg)) f
          (check_graph-second reg (built reg cfg) _ _ f h s) s in
      let same : check_cycles (built reg cfg).edges_down (suc (length (built reg cfg).node_ids))
            (entry_node_ids (built reg cfg))
          ≡ check_cycles (targets cfg) (fuel cfg) (entry_node_ids (built reg cfg)) =
        rw (down_same reg cfg, (builds reg cfg).nodes) refl in
      let (e, m, why) = check_cycles-some (targets cfg) (fuel cfg) _ f (sym same ∙ run) in
      elim why [
        | inl (x, h, is_x) ↦
            let (walk, on) = found-Cycle (targets cfg) (fuel cfg) e x [] h in
            (
              x,
              is_x,
              (e, (IsEntry-iff reg cfg e).0 m, walk),
              elim on [ inl on_set ↦ absurd (ground arith) | inr c ↦ c ],
            )
        | inr (h, _) ↦ absurd (targets-ne-exhausted cfg e h)
      ]

-- The search for cycles ends on every configuration: on a path it meets each node once at most, so
-- it makes no more calls inside one another than there are nodes, and one.
pub validate-ne-out_of_fuel :
    (reg : Registry NodeTypeDescriptor) (cfg : List NodeConfig)
    → validate reg (add_nodes new_graph_builder cfg) ≢ some out_of_fuel
validate-ne-out_of_fuel reg cfg h =
    let (x, e, _, _) = validate-search reg cfg out_of_fuel h refl in ground arith

-- A cycle that is reported is one: the node named lies on a cycle of the configured links, and a walk
-- from an entry leads to it.
pub validate-eq-cycle :
    (reg : Registry NodeTypeDescriptor) (cfg : List NodeConfig) (x : String)
    → validate reg (add_nodes new_graph_builder cfg) ≡ some (cycle x)
    → ((e : String) × IsEntry cfg e × Walk (targets cfg) e x) × Cycle (targets cfg) x
validate-eq-cycle reg cfg x h =
    let (y, e, from, c) = validate-search reg cfg (cycle x) h refl in
    let same : x ≡ y = ground arith in rw same (from, c)
