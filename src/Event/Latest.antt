-- ===== src/Event/Latest.antt =====
-- hidapi/event.go: the usage events of an event, as a loop over its slice that keeps the latest one of
-- a usage.
use neio_agent.Prelude.{
  ℕ, zero, suc, ◌≡◌, refl, sym, ap, ◌∙◌, false, Option, none, some, List, [], ◌∷◌, if◌then◌else◌,
  ◌==◌, arith, Option-cases, inl, inr, ==_refl, get_elem?,
}
use mathlib.Core.Option
use neio_agent.Event.{Event, UsageEvent, usage_event}
use neio_agent.Event.Index.{IsIndexed}
use neio_agent.Event.Activations.{occurs, occurs_at, Distinct, IsIndexed-Distinct}

-- Behind the list, where `o` was found before.
abbrev pub last_in : Option UsageEvent → ℕ → List UsageEvent → Option UsageEvent
last_in o u [] = o
last_in o u (d ∷ ds) = last_in (if u == d.usage then some d else o) u ds

last_in_absent :
    (o : Option UsageEvent) (u : ℕ) (ds : List UsageEvent)
    → occurs u ds ≡ false
    → last_in o u ds ≡ o
last_in_absent o u [] h = refl
last_in_absent o u (d ∷ ds) h =
    last_in_absent (if u == d.usage then some d else o) u ds (ground arith) ∙ ground (arith, h)

last_in_at :
    (ds : List UsageEvent) (i : ℕ) (o : Option UsageEvent) (d : UsageEvent)
    → Distinct ds
    → get_elem? ds i ≡ some d
    → last_in o d.usage ds ≡ some d
last_in_at [] i o d h at = ground arith
last_in_at (x ∷ ds) zero o d h at =
    let is : x ≡ d = Option.some_inj.0 at in
    last_in_absent _ d.usage ds (sym (ap (λ y. occurs y.usage ds) is) ∙ h.0)
    ∙ rw is (rw (==_refl d.usage) refl)
last_in_at (x ∷ ds) (suc i) o d h at = last_in_at ds i _ d h.1 at

-- The loop over the slice of a well-formed event finds what the event has.
pub last_in_event :
    (e : Event) (u : ℕ) → IsIndexed e → usage_event e u ≡ some (last_in none u e.usages)
unfolding usage_event
last_in_event e u w = elim (Option-cases (e.usage_map u)) [
  | inl h ↦ elim (occurs_at u e.usages) [
    | inl (no_occurrence, _) ↦ rw h (ap some (sym (last_in_absent none u e.usages no_occurrence)))
    | inr (i, p) ↦ absurd (ground (arith, h, w.complete u i p))
  ]
  | inr (i, h) ↦ elim (Option-cases (get_elem? e.usages i)) [
    | inl missing ↦ absurd (ground (arith, missing, w.sound u i h))
    | inr (d, p) ↦
        let q : d.usage ≡ u =
          Option.some_inj.0 (sym (ap (Option.map (λ d. d.usage)) p) ∙ w.sound u i h) in
        rw h (
          ap (Option.map some) p
          ∙ ap some (
              sym (last_in_at e.usages i none d (IsIndexed-Distinct e w) p)
              ∙ ap (λ v. last_in none v e.usages) q))
  ]
]
