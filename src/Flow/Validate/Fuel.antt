-- ===== src/Flow/Validate/Fuel.antt =====
-- The search for cycles of internal/flowsvc/graph.go ends: the nodes on its set are distinct.
use Prim.Native.String.{String}
use text.Mathlib.TextEquality.{eq_iff}
use text.Mathlib.TextPositions.{eq_refl}
use neio_agent.Prelude.{
  ℕ, zero, suc, ◌<◌, ◌≤◌, true, false, List, [], ◌∷◌, ◌≡◌, ◌≢◌, refl, inl, inr, arith,
  if◌then◌else◌, length,
}
use neio_agent.Flow.{str_member, Edges}
use neio_agent.Flow.Validate.{exhausted, validate_cycles}
use neio_agent.Flow.Validate.Walks.{Edge}
use neio_agent.Flow.Validate.Found.{validate_cycles-eq-fail}

-- The nodes that are not on the set.
abbrev pub unvisited : List String → List String → ℕ
unvisited [] visited = 0
unvisited (n ∷ ns) visited =
    if str_member n visited then unvisited ns visited else suc (unvisited ns visited)

pub unvisited-nil : (ns : List String) → unvisited ns [] ≡ length ns
unvisited-nil [] = refl
unvisited-nil (n ∷ ns) = omega (arith, unvisited-nil ns)

unvisited-cons_le :
    (id : String) (ns visited : List String) → unvisited ns (id ∷ visited) ≤ unvisited ns visited
unvisited-cons_le id [] visited = omega arith
unvisited-cons_le id (n ∷ ns) visited = ground (arith, unvisited-cons_le id ns visited)

unvisited-cons_lt :
    (id : String) (ns visited : List String)
    → str_member id ns ≡ true
    → str_member id visited ≡ false
    → unvisited ns (id ∷ visited) < unvisited ns visited
unvisited-cons_lt id [] visited m off = ground arith
unvisited-cons_lt id (n ∷ ns) visited m off = ground (
  arith,
  eq_iff id n,
  eq_iff n id,
  eq_refl id,
  unvisited-cons_le id ns visited,
  unvisited-cons_lt id ns visited,
)

module _ (edges : Edges) (ns : List String)
    (known : (u v : String) → Edge edges u v → str_member u ns ≡ true) where
  pub validate_cycles-ne-exhausted :
      (fuel : ℕ) (id : String) (visited : List String)
      → unvisited ns visited < fuel
      → validate_cycles edges fuel id visited ≢ exhausted
  validate_cycles-ne-exhausted zero id visited enough h = absurd (omega arith)
  validate_cycles-ne-exhausted (suc fuel) id visited enough h =
      elim (validate_cycles-eq-fail edges fuel exhausted id visited (λ v e. ground arith) h) [
        | inl (on, e) ↦ ground arith
        | inr (off, (d, e, fails)) ↦
            validate_cycles-ne-exhausted fuel d (id ∷ visited)
              (omega (arith, unvisited-cons_lt id ns visited (known id d e) off)) fails
      ]
