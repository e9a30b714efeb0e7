-- ===== src/Flow/Validate/Found.antt =====
-- Where the search for cycles of internal/flowsvc/graph.go stops, and the cycle that it reports.
use Prim.Native.String.{String}
use text.Mathlib.Text.{◌==◌}
use text.Mathlib.TextEquality.{eq_iff}
use text.Mathlib.TextPositions.{eq_refl}
use neio_agent.Prelude.{
  ℕ, zero, suc, true, false, List, [], ◌∷◌, ◌≡◌, refl, sym, ◌⊎◌, inl, inr, arith, Bool-cases,
}
use neio_agent.Flow.{str_member, Edges}
use neio_agent.Flow.Validate.{
  Search, clear, found, exhausted, delete_id, then_search, search_all, validate_cycles,
}
use neio_agent.Flow.Validate.Walks.{Edge, Walk, here, step, Cycle, validate_cycles-Restores}

abbrev Fails : Search → Type 0
Fails r = (v : List String) → ¬ (r ≡ clear v)

then_search-eq-fail :
    (s r : Search) (f : List String → Search)
    → Fails r
    → then_search s f ≡ r
    → (s ≡ r) ⊎ ((u : List String) × (s ≡ clear u) × (f u ≡ r))
then_search-eq-fail (clear u) r f no_clear h = inr (u, refl, h)
then_search-eq-fail (found x) r f no_clear h = inl h
then_search-eq-fail exhausted r f no_clear h = inl h

module _ (edges : Edges) where
  -- A loop that fails fails in the search from one of its nodes.
  search_all-eq-fail :
      (fuel : ℕ) (r : Search) (ds visited : List String)
      → Fails r
      → search_all (validate_cycles edges fuel) ds visited ≡ r
      → (d : String) × (str_member d ds ≡ true) × (validate_cycles edges fuel d visited ≡ r)
  search_all-eq-fail fuel r [] visited no_clear h = absurd (no_clear visited (sym h))
  search_all-eq-fail fuel r (x ∷ ds) visited no_clear h =
      elim (then_search-eq-fail (validate_cycles edges fuel x visited) r _ no_clear h) [
        | inl first ↦ (x, ground (arith, eq_refl x), first)
        | inr (u, ran, later) ↦
            let same = validate_cycles-Restores edges fuel x visited u ran in
            let (d, m, fails) = search_all-eq-fail fuel r ds visited no_clear (rw same at later) in
            (d, ground arith, fails)
      ]

  -- A search that fails starts on the set, or fails in the search from a successor.
  pub validate_cycles-eq-fail :
      (fuel : ℕ) (r : Search) (id : String) (visited : List String)
      → Fails r
      → validate_cycles edges (suc fuel) id visited ≡ r
      → ((str_member id visited ≡ true) × (r ≡ found id))
        ⊎ ((str_member id visited ≡ false)
            × ((d : String) × Edge edges id d × (validate_cycles edges fuel d (id ∷ visited) ≡ r)))
  unfolding validate_cycles
  validate_cycles-eq-fail fuel r id visited no_clear h = elim (Bool-cases (str_member id visited)) [
    | inl on ↦ inl (on, sym (rw on at h))
    | inr off ↦ inr (off, below (rw off at h))
  ]
    where
      below :
          then_search
              (search_all (validate_cycles edges fuel) (edges id) (id ∷ visited))
              (λ v. clear (delete_id id v))
            ≡ r
          → (d : String) × Edge edges id d × (validate_cycles edges fuel d (id ∷ visited) ≡ r)
      below run = elim (then_search-eq-fail _ r _ no_clear run) [
        | inl fails ↦ search_all-eq-fail fuel r (edges id) (id ∷ visited) no_clear fails
        | inr (u, ran, ends) ↦ absurd (no_clear (delete_id id u) (sym ends))
      ]

  validate_cycles-ne-found :
      (id x : String) (visited : List String) → ¬ (validate_cycles edges zero id visited ≡ found x)
  unfolding validate_cycles
  validate_cycles-ne-found id x visited h = ground arith

  -- A reported node is on the set that the search began with, or on a cycle, and a walk leads to it.
  pub found-Cycle :
      (fuel : ℕ) (id x : String) (visited : List String)
      → validate_cycles edges fuel id visited ≡ found x
      → Walk edges id x × ((str_member x visited ≡ true) ⊎ Cycle edges x)
  found-Cycle zero id x visited h = absurd (validate_cycles-ne-found id x visited h)
  found-Cycle (suc fuel) id x visited h =
      elim (validate_cycles-eq-fail fuel (found x) id visited (λ v e. ground arith) h) [
        | inl (on, e) ↦ reported_here on (ground arith)
        | inr (off, (d, e, fails)) ↦
            let (walk, where_x) = found-Cycle fuel d x (id ∷ visited) fails in
            (step id d x e walk, closes d e walk where_x)
      ]
    where
      reported_here :
          str_member id visited ≡ true
          → x ≡ id
          → Walk edges id x × ((str_member x visited ≡ true) ⊎ Cycle edges x)
      reported_here on e = rw e (here id, inl on)

      closes :
          (d : String)
          → Edge edges id d
          → Walk edges d x
          → (str_member x (id ∷ visited) ≡ true) ⊎ Cycle edges x
          → (str_member x visited ≡ true) ⊎ Cycle edges x
      closes d e walk (inr c) = inr c
      closes d e walk (inl m) = elim (Bool-cases (x == id)) [
        | inl same ↦ inr (d, rw ((eq_iff x id).0 same) e, walk)
        | inr other ↦ inl (ground arith)
      ]
