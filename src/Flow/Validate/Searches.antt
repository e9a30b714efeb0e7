-- ===== src/Flow/Validate/Searches.antt =====
-- The loop of `Validate` in internal/flowsvc/graph.go over the entries of the graph.
use Prim.Native.String.{String}
use text.Mathlib.Text.{◌==◌}
use text.Mathlib.TextEquality.{eq_iff}
use text.Mathlib.TextPositions.{eq_refl}
use neio_agent.Prelude.{
  ℕ, true, Option, none, some, List, [], ◌∷◌, ◌≡◌, ◌↔◌, ◌⊎◌, refl, inl, inr, arith, Bool-cases,
}
use neio_agent.Flow.{str_member, Edges}
use neio_agent.Flow.Validate.{
  Failure, cycle, out_of_fuel, Search, clear, found, exhausted, validate_cycles, search_failure,
  check_cycles,
}

-- What a search result means for the node that it began with.
abbrev pub IsClear : Search → Type 0
IsClear s = (v : List String) × (s ≡ clear v)

search_failure-none :
    (s : Search) (rest : Option Failure)
    → (search_failure s rest ≡ none) ↔ (IsClear s × (rest ≡ none))
search_failure-none (clear v) rest = (λ h. ((v, refl), h), λ h. h.1)
search_failure-none (found x) rest = (λ h. ground arith, λ ((v, e), r). ground arith)
search_failure-none exhausted rest = (λ h. ground arith, λ ((v, e), r). ground arith)

pub check_cycles-none :
    (edges : Edges) (fuel : ℕ) (es : List String)
    → (check_cycles edges fuel es ≡ none)
      ↔ ((u : String) → str_member u es ≡ true → IsClear (validate_cycles edges fuel u []))
check_cycles-none edges fuel [] = (λ h u m. ground arith, λ h. refl)
check_cycles-none edges fuel (e ∷ es) = (
  λ h u m.
      let (first, rest) = (search_failure-none _ _).0 h in
      elim (Bool-cases (u == e)) [
        | inl same ↦ rw ((eq_iff u e).0 same) first
        | inr other ↦ (check_cycles-none edges fuel es).0 rest u (ground arith)
      ],
  λ h. (search_failure-none _ _).1 (
    h e (ground (arith, eq_refl e)),
    (check_cycles-none edges fuel es).1 (λ u m. h u (ground arith)),
  ),
)

-- A search that a loop reports is that of one of its nodes.
search_failure-some :
    (s : Search) (rest : Option Failure) (e : Failure)
    → search_failure s rest ≡ some e
    → (rest ≡ some e)
      ⊎ (((x : String) × (s ≡ found x) × (e ≡ cycle x)) ⊎ ((s ≡ exhausted) × (e ≡ out_of_fuel)))
search_failure-some (clear v) rest e h = inl h
search_failure-some (found x) rest e h = inr (inl (x, refl, ground arith))
search_failure-some exhausted rest e h = inr (inr (refl, ground arith))

pub check_cycles-some :
    (edges : Edges) (fuel : ℕ) (es : List String) (f : Failure)
    → check_cycles edges fuel es ≡ some f
    → (u : String) × (str_member u es ≡ true)
      × (((x : String) × (validate_cycles edges fuel u [] ≡ found x) × (f ≡ cycle x))
          ⊎ ((validate_cycles edges fuel u [] ≡ exhausted) × (f ≡ out_of_fuel)))
check_cycles-some edges fuel [] f h = ground arith
check_cycles-some edges fuel (e ∷ es) f h =
    elim (search_failure-some (validate_cycles edges fuel e []) _ f h) [
      | inl later ↦
          let (u, m, why) = check_cycles-some edges fuel es f later in (u, ground arith, why)
      | inr here ↦ (e, ground (arith, eq_refl e), here)
    ]
