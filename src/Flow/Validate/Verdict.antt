-- ===== src/Flow/Validate/Verdict.antt =====
-- `Validate` of internal/flowsvc/graph.go on a configuration: which ones it accepts, and what its
-- search for cycles reports.
use Prim.Native.String.{String}
use text.Mathlib.TextPositions.{eq_refl}
use mathlib.Core.Path.{fun_ext}
use neio_agent.Prelude.{
  ℕ, suc, ◌≤◌, true, false, ◌&&◌, none, some, List, [], ◌∷◌, ◌≡◌, ◌≢◌, ◌↔◌, ◌⊎◌, refl, sym, ap, ◌∙◌,
  inl, inr, arith, length, ltb,
}
use neio_agent.Flow.{
  NodeTypeDescriptor, Registry, get, str_member, GraphBuilder, NodeConfig, new_graph_builder,
  add_nodes,
}
use neio_agent.Flow.Config.{count, ids, type_of, targets, sources}
use neio_agent.Flow.Built.{Builds, add_nodes-Builds, member-targets}
use neio_agent.Flow.Validate.{
  Search, clear, found, exhausted, check_nodes, entry_node_ids, validate_cycles, check_cycles,
  check_entries, check_graph, validate, is_empty,
}
use neio_agent.Flow.Validate.Walks.{Walk, Cycle, clear-acyclic}
use neio_agent.Flow.Validate.Found.{found-Cycle}
use neio_agent.Flow.Validate.Fuel.{unvisited-nil, validate_cycles-ne-exhausted}
use neio_agent.Flow.Validate.Checks.{
  Fits, first_failure-none, IsLinked, check_node-none, check_nodes-none, is_empty-nil,
  member-entry_ids,
}
use neio_agent.Flow.Validate.Searches.{IsClear, check_cycles-none}

-- A node that no node points to.
abbrev pub IsEntry : List NodeConfig → String → Type 0
IsEntry cfg e = (str_member e (ids cfg) ≡ true) × (sources cfg e ≡ [])

-- A node of a registered type whose links are as many as the type promises and lead to nodes.
pub record IsPlaced (reg : Registry NodeTypeDescriptor) (cfg : List NodeConfig) (u : String)
    : Type 0 where
  pub meta : NodeTypeDescriptor
  pub typed : get reg (type_of "" cfg u) ≡ some meta
  pub up_fits : Fits meta.upstream_type (length (sources cfg u))
  pub down_fits : Fits meta.downstream_type (length (targets cfg u))
  pub present : (v : String) → str_member v (targets cfg u) ≡ true → str_member v (ids cfg) ≡ true

pub record IsFlow (reg : Registry NodeTypeDescriptor) (cfg : List NodeConfig) : Type 0 where
  pub once : (u : String) → count u (ids cfg) ≤ 1
  pub placed : (u : String) → str_member u (ids cfg) ≡ true → IsPlaced reg cfg u
  pub entry : (e : String) × IsEntry cfg e
  pub no_cycle : (e w : String) → IsEntry cfg e → Walk (targets cfg) e w → ¬ Cycle (targets cfg) w

Search-cases : (s : Search) → IsClear s ⊎ (((x : String) × (s ≡ found x)) ⊎ (s ≡ exhausted))
Search-cases (clear v) = inl (v, refl)
Search-cases (found x) = inr (inl (x, refl))
Search-cases exhausted = inr (inr refl)

no_members : (l : List String) → ((u : String) → str_member u l ≡ false) → l ≡ []
no_members [] h = refl
no_members (x ∷ l) h = ground (arith, h x, eq_refl x)

check_graph-none :
    (reg : Registry NodeTypeDescriptor) (g : GraphBuilder) (errors ns : List String)
    → (check_graph reg g errors ns ≡ none) ↔ (
        (errors ≡ [])
        × (ns ≢ [])
        × (check_nodes reg g ns ≡ none)
        × (check_entries g (entry_node_ids g) ≡ none))
check_graph-none reg g (e ∷ errors) ns = (λ h. ground arith, λ h. ground arith)
check_graph-none reg g [] [] = (λ h. ground arith, λ h. absurd (h.1 refl))
check_graph-none reg g [] (n ∷ ns) =
    let both =
      first_failure-none (check_nodes reg g (n ∷ ns)) (check_entries g (entry_node_ids g)) in
    (λ h. (refl, λ e. ground arith, (both.0 h).0, (both.0 h).1), λ h. both.1 (h.2, h.3))

check_entries-none :
    (g : GraphBuilder) (es : List String)
    → (check_entries g es ≡ none)
      ↔ ((es ≢ []) × (check_cycles g.edges_down (suc (length g.node_ids)) es ≡ none))
check_entries-none g [] = (λ h. ground arith, λ h. absurd (h.0 refl))
check_entries-none g (e ∷ es) = (λ h. (λ q. ground arith, h), λ h. h.1)

module _ (cfg : List NodeConfig) where
  abbrev pub fuel : ℕ
  fuel = suc (length (ids cfg))

  pub targets-ne-exhausted : (u : String) → validate_cycles (targets cfg) fuel u [] ≢ exhausted
  targets-ne-exhausted u =
      validate_cycles-ne-exhausted (targets cfg) (ids cfg) (λ a b e. member-targets cfg a b e) fuel
        u [] (omega (arith, unvisited-nil (ids cfg)))

  -- A search from a node ends clear exactly when no walk from the node leads to a cycle.
  search-IsClear :
      (u : String)
      → IsClear (validate_cycles (targets cfg) fuel u [])
        ↔ ((w : String) → Walk (targets cfg) u w → ¬ Cycle (targets cfg) w)
  search-IsClear u = (
    λ (v, h) w walk. clear-acyclic (targets cfg) fuel u w [] v h walk,
    λ acyclic. elim (Search-cases (validate_cycles (targets cfg) fuel u [])) [
      | inl c ↦ c
      | inr (inl (x, h)) ↦
          let (walk, why) = found-Cycle (targets cfg) fuel u x [] h in
          elim why [ inl m ↦ absurd (ground arith) | inr c ↦ absurd (acyclic x walk c) ]
      | inr (inr h) ↦ absurd (targets-ne-exhausted u h)
    ],
  )

module _ (reg : Registry NodeTypeDescriptor) (cfg : List NodeConfig) where
  abbrev pub built : GraphBuilder
  built = add_nodes new_graph_builder cfg

  pub builds : Builds cfg built
  builds = add_nodes-Builds cfg

  pub down_same : built.edges_down ≡ targets cfg
  down_same = fun_ext builds.down

  member-entries :
      (u : String)
      → str_member u (entry_node_ids built) ≡ (str_member u (ids cfg) && is_empty (sources cfg u))
  unfolding entry_node_ids
  member-entries u = member-entry_ids built built.node_ids u ∙ rw (builds.nodes, builds.up u) refl

  pub IsEntry-iff : (u : String) → (str_member u (entry_node_ids built) ≡ true) ↔ IsEntry cfg u
  IsEntry-iff u = ground (arith, member-entries u, is_empty-nil (sources cfg u))

  -- `Validate` on the built graph, its parts in terms of the configuration.
  validate-parts : (validate reg built ≡ none) ↔ (
      (built.errors ≡ [])
      × (built.node_ids ≢ [])
      × (check_nodes reg built built.node_ids ≡ none)
      × (entry_node_ids built ≢ [])
      × (check_cycles (targets cfg) (fuel cfg) (entry_node_ids built) ≡ none))
  unfolding validate
  validate-parts =
      let graph = check_graph-none reg built built.errors built.node_ids in
      let entries = check_entries-none built (entry_node_ids built) in
      let same : check_cycles built.edges_down (suc (length built.node_ids)) (entry_node_ids built)
          ≡ check_cycles (targets cfg) (fuel cfg) (entry_node_ids built) =
        rw (down_same, builds.nodes) refl in
      (
        λ h.
            let (e, n, c, s) = graph.0 h in
            let (some_entry, searches) = entries.0 s in (e, n, c, some_entry, sym same ∙ searches),
        λ (e, n, c, some_entry, searches).
            graph.1 (e, n, c, entries.1 (some_entry, same ∙ searches)),
      )

  IsLinked-IsPlaced : (u : String) → IsLinked reg built u → IsPlaced reg cfg u
  IsLinked-IsPlaced u k = record {
    meta = k.meta;
    typed = ap (get reg) (sym (builds.types u)) ∙ k.typed;
    up_fits = rw (← builds.up u) k.up_fits;
    down_fits = rw (← builds.down u) k.down_fits;
    present = λ v m. sym (builds.known v) ∙ k.present v (rw (builds.down u) m);
  }

  IsPlaced-IsLinked : (u : String) → IsPlaced reg cfg u → IsLinked reg built u
  IsPlaced-IsLinked u k = record {
    meta = k.meta;
    typed = ap (get reg) (builds.types u) ∙ k.typed;
    up_fits = rw (builds.up u) k.up_fits;
    down_fits = rw (builds.down u) k.down_fits;
    present = λ v m. builds.known v ∙ k.present v (rw (← builds.down u) m);
  }

  check_nodes-IsPlaced :
      (check_nodes reg built built.node_ids ≡ none)
      ↔ ((u : String) → str_member u (ids cfg) ≡ true → IsPlaced reg cfg u)
  check_nodes-IsPlaced =
      let nodes = check_nodes-none reg built built.node_ids in
      (
        λ h u m.
            IsLinked-IsPlaced u
              ((check_node-none reg built u).0 (nodes.0 h u (ap (str_member u) builds.nodes ∙ m))),
        λ h. nodes.1 (λ u m.
            (check_node-none reg built u).1
              (IsPlaced-IsLinked u (h u (sym (ap (str_member u) builds.nodes) ∙ m)))),
      )

  errors-once : (built.errors ≡ []) ↔ ((u : String) → count u (ids cfg) ≤ 1)
  errors-once = (
    λ h u. no_repeat u (sym (builds.repeated u) ∙ ap (str_member u) h),
    λ once. no_members built.errors (λ u. builds.repeated u ∙ few u (once u)),
  )
    where
      no_repeat : (u : String) → ltb 1 (count u (ids cfg)) ≡ false → count u (ids cfg) ≤ 1
      no_repeat u h = ground arith

      few : (u : String) → count u (ids cfg) ≤ 1 → ltb 1 (count u (ids cfg)) ≡ false
      few u h = ground arith

some_member : (l : List String) → l ≢ [] → (e : String) × (str_member e l ≡ true)
some_member [] h = absurd (h refl)
some_member (x ∷ l) h = (x, ground (arith, eq_refl x))

member-ne-nil : (l : List String) (u : String) → str_member u l ≡ true → l ≢ []
member-ne-nil [] u m = absurd (ground arith)
member-ne-nil (x ∷ l) u m = λ q. ground arith

-- A configuration is accepted exactly when its ids are distinct, each node has a registered type that
-- fits the number of its links in each direction and points to nodes of the configuration only, some
-- node is an entry, and no walk from an entry leads to a cycle.
pub validate-IsFlow :
    (reg : Registry NodeTypeDescriptor) (cfg : List NodeConfig)
    → (validate reg (add_nodes new_graph_builder cfg) ≡ none) ↔ IsFlow reg cfg
validate-IsFlow reg cfg = (
  λ h.
      let (e, n, c, some_entry, searches) = (validate-parts reg cfg).0 h in
      let (first, m) = some_member (entry_node_ids (built reg cfg)) some_entry in
      record {
        once = (errors-once reg cfg).0 e;
        placed = (check_nodes-IsPlaced reg cfg).0 c;
        entry = (first, (IsEntry-iff reg cfg first).0 m);
        no_cycle = λ u w from walk.
            (search-IsClear cfg u).0
              ((check_cycles-none (targets cfg) (fuel cfg) _).0 searches u
                ((IsEntry-iff reg cfg u).1 from))
              w walk;
      },
  λ f. (validate-parts reg cfg).1 (
    (errors-once reg cfg).1 f.once,
    (λ q. member-ne-nil (ids cfg) f.entry.0 f.entry.1.0 (sym (builds reg cfg).nodes ∙ q)),
    (check_nodes-IsPlaced reg cfg).1 f.placed,
    member-ne-nil _ f.entry.0 ((IsEntry-iff reg cfg f.entry.0).1 f.entry.1),
    (check_cycles-none (targets cfg) (fuel cfg) _).1 (λ u m.
        (search-IsClear cfg u).1 (λ w walk. f.no_cycle u w ((IsEntry-iff reg cfg u).0 m) walk)),
  ),
)
