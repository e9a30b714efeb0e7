-- ===== src/Flow/Validate/Checks.antt =====
-- The checks of `Validate` in internal/flowsvc/graph.go: which graphs pass each of them.
use Prim.Native.String.{String}
use text.Mathlib.Text.{◌==◌}
use text.Mathlib.TextEquality.{eq_iff}
use text.Mathlib.TextPositions.{eq_refl}
use neio_agent.Prelude.{
  ℕ, ◌<◌, Bool, true, false, ◌&&◌, Option, none, some, List, [], ◌∷◌, ◌≡◌, ◌↔◌, refl, inl, inr,
  arith, length, Bool-cases, Option-cases,
}
use neio_agent.Flow.{
  LinkType, link_none, link_one, link_many, NodeTypeDescriptor, Registry, get, str_member,
  GraphBuilder,
}
use neio_agent.Flow.Validate.{
  Failure, duplicate_ids, no_nodes, unknown_type, no_upstream, too_many_upstreams,
  unexpected_upstream, no_downstream, too_many_downstreams, unexpected_downstream, no_target,
  no_entry, cycle, out_of_fuel, first_failure, check_links, check_targets, check_described,
  check_node, check_nodes, is_empty, entry_ids,
}

-- The number of links that a link type promises.
abbrev pub Fits : LinkType → ℕ → Type 0
Fits link_none n = n ≡ 0
Fits link_one n = n ≡ 1
Fits link_many n = 0 < n

-- The failures of the search for cycles.
abbrev pub of_search : Failure → Bool
of_search (cycle id) = true
of_search out_of_fuel = true
of_search (duplicate_ids l) = false
of_search no_nodes = false
of_search (unknown_type id) = false
of_search (no_upstream id) = false
of_search (too_many_upstreams id) = false
of_search (unexpected_upstream id) = false
of_search (no_downstream id) = false
of_search (too_many_downstreams id) = false
of_search (unexpected_downstream id) = false
of_search (no_target id to) = false
of_search no_entry = false

abbrev pub IsStatic : Option Failure → Type 0
IsStatic r = (e : Failure) → r ≡ some e → of_search e ≡ false

pub first_failure-IsStatic :
    (a b : Option Failure) → IsStatic a → IsStatic b → IsStatic (first_failure a b)
first_failure-IsStatic none b h k = k
first_failure-IsStatic (some f) b h k = h

pub first_failure-none :
    (a b : Option Failure) → (first_failure a b ≡ none) ↔ ((a ≡ none) × (b ≡ none))
first_failure-none none b = (λ h. (refl, h), λ h. h.1)
first_failure-none (some f) b = (λ h. ground arith, λ h. ground arith)

check_links-none :
    (t : LinkType) (xs : List String) (e f g : Failure)
    → (check_links t xs e f g ≡ none) ↔ Fits t (length xs)
check_links-none link_many [] e f g = ground arith
check_links-none link_many (x ∷ xs) e f g = ground arith
check_links-none link_one [] e f g = ground arith
check_links-none link_one (x ∷ []) e f g = ground arith
check_links-none link_one (x ∷ y ∷ xs) e f g = ground arith
check_links-none link_none [] e f g = ground arith
check_links-none link_none (x ∷ xs) e f g = ground arith

check_links-IsStatic :
    (t : LinkType) (xs : List String) (e f g : Failure)
    → of_search e ≡ false
    → of_search f ≡ false
    → of_search g ≡ false
    → IsStatic (check_links t xs e f g)
check_links-IsStatic link_many [] e f g he hf hg r q = ground arith
check_links-IsStatic link_many (x ∷ xs) e f g he hf hg r q = ground arith
check_links-IsStatic link_one [] e f g he hf hg r q = ground arith
check_links-IsStatic link_one (x ∷ []) e f g he hf hg r q = ground arith
check_links-IsStatic link_one (x ∷ y ∷ xs) e f g he hf hg r q = ground arith
check_links-IsStatic link_none [] e f g he hf hg r q = ground arith
check_links-IsStatic link_none (x ∷ xs) e f g he hf hg r q = ground arith

check_targets-none :
    (g : GraphBuilder) (id : String) (tos : List String)
    → (check_targets g id tos ≡ none) ↔ ((v : String) → str_member v tos ≡ true → g.id_map v ≡ true)
check_targets-none g id [] = (λ h v m. ground arith, λ h. refl)
check_targets-none g id (t ∷ tos) = (
  λ h v m. elim (Bool-cases (v == t)) [
    | inl same ↦ rw ((eq_iff v t).0 same) (ground arith)
    | inr other ↦ (check_targets-none g id tos).0 (ground arith) v (ground arith)
  ],
  λ h.
      let rest = (check_targets-none g id tos).1 (λ v m. h v (ground arith)) in
      ground (arith, h t (ground (arith, eq_refl t))),
)

check_targets-IsStatic :
    (g : GraphBuilder) (id : String) (tos : List String) → IsStatic (check_targets g id tos)
check_targets-IsStatic g id [] e h = ground arith
check_targets-IsStatic g id (t ∷ tos) e h = ground (arith, check_targets-IsStatic g id tos e)

-- A node whose type is registered, whose links are as many as its type promises, and whose targets
-- are nodes.
pub record IsLinked (reg : Registry NodeTypeDescriptor) (g : GraphBuilder) (id : String)
    : Type 0 where
  pub meta : NodeTypeDescriptor
  pub typed : get reg (g.node_types id) ≡ some meta
  pub up_fits : Fits meta.upstream_type (length (g.edges_up id))
  pub down_fits : Fits meta.downstream_type (length (g.edges_down id))
  pub present : (v : String) → str_member v (g.edges_down id) ≡ true → g.id_map v ≡ true

check_described-some :
    (g : GraphBuilder) (id : String) (meta : NodeTypeDescriptor)
    → (check_described g id (some meta) ≡ none) ↔ (
        Fits meta.upstream_type (length (g.edges_up id))
        × Fits meta.downstream_type (length (g.edges_down id))
        × ((v : String) → str_member v (g.edges_down id) ≡ true → g.id_map v ≡ true))
check_described-some g id meta =
    let up =
      check_links-none meta.upstream_type (g.edges_up id) (no_upstream id) (too_many_upstreams id)
        (unexpected_upstream id) in
    let down =
      check_links-none meta.downstream_type (g.edges_down id) (no_downstream id)
        (too_many_downstreams id) (unexpected_downstream id) in
    let tos = check_targets-none g id (g.edges_down id) in
    (
      λ h.
          let (u, rest) = (first_failure-none _ _).0 h in
          let (d, t) = (first_failure-none _ _).0 rest in (up.0 u, down.0 d, tos.0 t),
      λ (u, d, t).
          (first_failure-none _ _).1 (up.1 u, (first_failure-none _ _).1 (down.1 d, tos.1 t)),
    )

pub check_node-none :
    (reg : Registry NodeTypeDescriptor) (g : GraphBuilder) (id : String)
    → (check_node reg g id ≡ none) ↔ IsLinked reg g id
unfolding check_node
check_node-none reg g id = (
  λ h. elim (Option-cases (get reg (g.node_types id))) [
    | inl missing ↦ ground arith
    | inr (meta, e) ↦
        let (u, d, t) = (check_described-some g id meta).0 (rw e at h) in
        record { meta = meta; typed = e; up_fits = u; down_fits = d; present = t }
  ],
  λ k. rw k.typed ((check_described-some g id k.meta).1 (k.up_fits, k.down_fits, k.present)),
)

check_described-IsStatic :
    (g : GraphBuilder) (id : String) (o : Option NodeTypeDescriptor)
    → IsStatic (check_described g id o)
check_described-IsStatic g id none = λ e h. ground arith
check_described-IsStatic g id (some meta) =
    first_failure-IsStatic _ _
      (check_links-IsStatic meta.upstream_type (g.edges_up id) _ _ _ refl refl refl)
      (first_failure-IsStatic _ _
        (check_links-IsStatic meta.downstream_type (g.edges_down id) _ _ _ refl refl refl)
        (check_targets-IsStatic g id (g.edges_down id)))

pub check_nodes-IsStatic :
    (reg : Registry NodeTypeDescriptor) (g : GraphBuilder) (ids : List String)
    → IsStatic (check_nodes reg g ids)
unfolding check_node
check_nodes-IsStatic reg g [] = λ e h. ground arith
check_nodes-IsStatic reg g (id ∷ ids) =
    first_failure-IsStatic _ _ (check_described-IsStatic g id (get reg (g.node_types id)))
      (check_nodes-IsStatic reg g ids)

pub check_nodes-none :
    (reg : Registry NodeTypeDescriptor) (g : GraphBuilder) (ids : List String)
    → (check_nodes reg g ids ≡ none)
      ↔ ((u : String) → str_member u ids ≡ true → check_node reg g u ≡ none)
check_nodes-none reg g [] = (λ h u m. ground arith, λ h. refl)
check_nodes-none reg g (id ∷ ids) = (
  λ h u m.
      let (first, rest) = (first_failure-none _ _).0 h in
      elim (Bool-cases (u == id)) [
        | inl same ↦ rw ((eq_iff u id).0 same) first
        | inr other ↦ (check_nodes-none reg g ids).0 rest u (ground arith)
      ],
  λ h. (first_failure-none _ _).1 (
    h id (ground (arith, eq_refl id)),
    (check_nodes-none reg g ids).1 (λ u m. h u (ground arith)),
  ),
)

pub is_empty-nil : (xs : List String) → (is_empty xs ≡ true) ↔ (xs ≡ [])
is_empty-nil [] = ground arith
is_empty-nil (x ∷ xs) = ground arith

pub member-entry_ids :
    (g : GraphBuilder) (ids : List String) (u : String)
    → str_member u (entry_ids g ids) ≡ (str_member u ids && is_empty (g.edges_up u))
member-entry_ids g [] u = refl
member-entry_ids g (id ∷ ids) u = ground (arith, eq_iff u id, member-entry_ids g ids u)
