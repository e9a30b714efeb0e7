-- ===== src/Flow/Validate/Walks.antt =====
-- The search for cycles of internal/flowsvc/graph.go against the walks of the graph.
use Prim.Native.String.{String}
use text.Mathlib.Text.{◌==◌}
use text.Mathlib.TextEquality.{eq_iff}
use text.Mathlib.TextPositions.{eq_refl}
use neio_agent.Prelude.{
  ℕ, zero, suc, true, false, List, [], ◌∷◌, ◌≡◌, refl, inl, inr, arith, Bool-cases,
}
use neio_agent.Flow.{str_member, Edges}
use neio_agent.Flow.Validate.{
  Search, clear, found, exhausted, delete_id, then_search, search_all, validate_cycles,
}

-- The edge from `u` to `v`.
abbrev pub Edge : Edges → String → String → Type 0
Edge edges u v = str_member v (edges u) ≡ true

pub data Walk (edges : Edges) : String → String → Type 0 where
  here : (u : String) → Walk edges u u
  step : (u v w : String) → Edge edges u v → Walk edges v w → Walk edges u w

-- A walk of one edge or more from `u` back to it.
abbrev pub Cycle : Edges → String → Type 0
Cycle edges u = (v : String) × Edge edges u v × Walk edges v u

pub delete_id_absent :
    (id : String) (vs : List String) → str_member id vs ≡ false → delete_id id vs ≡ vs
delete_id_absent id [] h = refl
delete_id_absent id (v ∷ vs) h = ground (arith, eq_iff id v, eq_iff v id, delete_id_absent id vs)

-- The set `visited` leaves a search as it came.
pub then_search-eq-clear :
    (s : Search) (f : List String → Search) (v : List String)
    → then_search s f ≡ clear v
    → (u : List String) × (s ≡ clear u) × (f u ≡ clear v)
then_search-eq-clear (clear u) f v h = (u, refl, h)
then_search-eq-clear (found x) f v h = ground arith
then_search-eq-clear exhausted f v h = ground arith

pub validate_cycles-eq-clear :
    (edges : Edges) (fuel : ℕ) (id : String) (visited v : List String)
    → validate_cycles edges (suc fuel) id visited ≡ clear v
    → (str_member id visited ≡ false)
      × ((u : List String) × (search_all (validate_cycles edges fuel) (edges id) (id ∷ visited)
            ≡ clear u)
          × (v ≡ delete_id id u))
unfolding validate_cycles
validate_cycles-eq-clear edges fuel id visited v h = elim (Bool-cases (str_member id visited)) [
  | inl on ↦ ground arith
  | inr off ↦
      let run : then_search (search_all (validate_cycles edges fuel) (edges id) (id ∷ visited))
            (λ u. clear (delete_id id u))
          ≡ clear v =
        rw off at h in
      let (u, ran, left) = then_search-eq-clear _ _ v run in (off, (u, ran, ground arith))
]

pub validate_cycles-zero :
    (edges : Edges) (id : String) (visited v : List String)
    → ¬ (validate_cycles edges zero id visited ≡ clear v)
unfolding validate_cycles
validate_cycles-zero edges id visited v h = ground arith

module _ (edges : Edges) where
  -- A search that ends clear leaves the set as it came.
  abbrev pub Restores : ℕ → Type 0
  Restores fuel =
      (id : String) (visited v : List String)
      → validate_cycles edges fuel id visited ≡ clear v
      → v ≡ visited

  -- Each search of a loop that ends clear ends clear, on the set that the loop began with.
  pub search_all-clear :
      (fuel : ℕ)
      → Restores fuel
      → (ds visited v : List String) → search_all (validate_cycles edges fuel) ds visited ≡ clear v
      → (v ≡ visited)
        × ((d : String)
            → str_member d ds ≡ true
            → validate_cycles edges fuel d visited ≡ clear visited)
  search_all-clear fuel restores [] visited v h = (ground arith, λ d m. ground arith)
  search_all-clear fuel restores (x ∷ ds) visited v h =
      let (u, ran, later) = then_search-eq-clear (validate_cycles edges fuel x visited) _ v h in
      let same = restores x visited u ran in
      let (kept, all) = search_all-clear fuel restores ds visited v (rw same at later) in
      (
        kept,
        λ d m. elim (Bool-cases (d == x)) [
          | inl e ↦ rw ((eq_iff d x).0 e) (rw same at ran)
          | inr ne ↦ all d (ground arith)
        ],
      )

  pub validate_cycles-Restores : (fuel : ℕ) → Restores fuel
  validate_cycles-Restores zero id visited v h = absurd (validate_cycles-zero edges id visited v h)
  validate_cycles-Restores (suc fuel) id visited v h =
      let (off, (u, ran, left)) = validate_cycles-eq-clear edges fuel id visited v h in
      let (same, all) =
        search_all-clear fuel (validate_cycles-Restores fuel) (edges id) (id ∷ visited) u ran in
      ground (arith, eq_refl id, delete_id_absent id visited off)

  -- A search that ends clear did not start on the set, and its successors' searches end clear.
  pub clear-parts :
      (fuel : ℕ) (id : String) (visited v : List String)
      → validate_cycles edges (suc fuel) id visited ≡ clear v
      → (str_member id visited ≡ false)
        × ((d : String)
            → Edge edges id d
            → validate_cycles edges fuel d (id ∷ visited) ≡ clear (id ∷ visited))
  clear-parts fuel id visited v h =
      let (off, (u, ran, left)) = validate_cycles-eq-clear edges fuel id visited v h in
      let (same, all) =
        search_all-clear fuel (validate_cycles-Restores fuel) (edges id) (id ∷ visited) u ran in
      (off, all)

  -- No walk from a node whose search ends clear meets the set.
  pub clear-avoids :
      (fuel : ℕ) (id w : String) (visited v : List String)
      → validate_cycles edges fuel id visited ≡ clear v
      → Walk edges id w
      → str_member w visited ≡ false
  clear-avoids zero id w visited v h walk = absurd (validate_cycles-zero edges id visited v h)
  clear-avoids (suc fuel) id w visited v h (here _) = (clear-parts fuel id visited v h).0
  clear-avoids (suc fuel) id w visited v h (step _ d _ e walk) =
      let ran = (clear-parts fuel id visited v h).1 d e in
      let away = clear-avoids fuel d w (id ∷ visited) (id ∷ visited) ran walk in ground arith

  -- No walk from a node whose search ends clear leads to a cycle.
  pub clear-acyclic :
      (fuel : ℕ) (id w : String) (visited v : List String)
      → validate_cycles edges fuel id visited ≡ clear v
      → Walk edges id w
      → ¬ Cycle edges w
  clear-acyclic zero id w visited v h walk c = validate_cycles-zero edges id visited v h
  clear-acyclic (suc fuel) id w visited v h (here _) (d, e, back) =
      let ran = (clear-parts fuel id visited v h).1 d e in
      let away = clear-avoids fuel d id (id ∷ visited) (id ∷ visited) ran back in
      ground (arith, eq_refl id)
  clear-acyclic (suc fuel) id w visited v h (step _ d _ e walk) c =
      let ran = (clear-parts fuel id visited v h).1 d e in
      clear-acyclic fuel d w (id ∷ visited) (id ∷ visited) ran walk c
