-- ===== src/Output/Ids.antt =====
-- internal/hidsvc/node_output.go: the search for a free report id.
use neio_agent.Prelude.{
  ℕ, zero, suc, ◌+◌, ◌-◌, ◌%◌, ◌<◌, ◌≡◌, ◌↔◌, refl, sym, ap, ◌∙◌, none, some, Map, arith,
  Option-cases, inl, inr,
}
use neio_agent.Output.{next_id, free_id}

-- A result is a byte that is no key of the map.
pub record IsFree (m : Map ℕ) (id : ℕ) : Type 0 where
  pub byte : id < 256
  pub unused : m id ≡ none

-- The search finds an id that is no key, where it comes to one within `k` rounds.
free_id_within :
    (fuel k : ℕ) (m : Map ℕ) (id : ℕ)
    → k < fuel
    → id < 256
    → m ((id + k) % 256) ≡ none
    → (new : ℕ) × (free_id fuel m id ≡ some new) × IsFree m new
unfolding free_id
free_id_within zero k m id lt small free = absurd (omega arith)
free_id_within (suc fuel) zero m id lt small free =
    let here : m id ≡ none = ap m (omega arith) ∙ free in
    (id, rw here refl, record { byte = small; unused = here })
free_id_within (suc fuel) (suc j) m id lt small free = elim (Option-cases (m id)) [
  | inl h ↦ (id, rw h refl, record { byte = small; unused = h })
  | inr (o, h) ↦
      let (new, run, is) =
        free_id_within fuel j m (next_id id) (omega arith) (omega arith)
          (ap m (omega arith) ∙ free) in
      (new, rw h run, is)
]

free_id-IsFree :
    (fuel : ℕ) (m : Map ℕ) (id new : ℕ) → id < 256 → free_id fuel m id ≡ some new → IsFree m new
unfolding free_id
free_id-IsFree zero m id new small h = absurd (ground (arith, h))
free_id-IsFree (suc fuel) m id new small h = elim (Option-cases (m id)) [
  | inl unused ↦
      let is : id ≡ new = ground (arith, h, unused) in
      record { byte = omega arith; unused = ap m (sym is) ∙ unused }
  | inr (o, used) ↦ free_id-IsFree fuel m (next_id id) new (omega arith) (ground (arith, h, used))
]

-- The search for a report id from a byte on ends, within 256 rounds, exactly where some byte is no key
-- of the map; what it finds is such a byte.
pub free_id-IsFree_iff :
    (m : Map ℕ) (id : ℕ)
    → id < 256
    → (((new : ℕ) × (free_id 256 m id ≡ some new)) ↔ ((free : ℕ) × IsFree m free))
      × ((new : ℕ) → free_id 256 m id ≡ some new → IsFree m new)
free_id-IsFree_iff m id small = (
  (
    λ (new, h). (new, free_id-IsFree 256 m id new small h),
    λ (free, is).
        let byte : free < 256 = is.byte in
        let (new, run, _) =
          free_id_within 256 ((free + 256 - id) % 256) m id (omega arith) small
            (ap m (omega arith) ∙ is.unused) in
        (new, run),
  ),
  λ new h. free_id-IsFree 256 m id new small h,
)
