-- ===== src/Event/Activations.antt =====
-- The activations of an event, as a reader of its slice meets them and as a map gives them.
use neio_agent.Prelude.{
  ◌+◌, ◌-◌, true, ℕ, zero, suc, ◌≡◌, ◌≢◌, ◌⊎◌, refl, sym, ap, ◌∙◌, Bool, false, ◌||◌, Option, none,
  some, List, [], ◌∷◌, if◌then◌else◌, ◌==◌, arith, Bool-cases, Option-cases, inl, inr, ==_iff,
  ==_of_eq, get_elem?,
}
use neio_agent.Event.{Event, UsageEvent, usage_event}
use neio_agent.Event.Index.{IsIndexed, usage_at}

-- The first activation that a list of usage events has for a usage.
abbrev pub activation_in : ℕ → List UsageEvent → Option Bool
activation_in u [] = none
activation_in u (d ∷ ds) = if d.usage == u then d.activate else activation_in u ds

abbrev pub occurs : ℕ → List UsageEvent → Bool
occurs u [] = false
occurs u (d ∷ ds) = d.usage == u || occurs u ds

abbrev pub Distinct : List UsageEvent → Type 0
Distinct [] = Unit
Distinct (d ∷ ds) = (occurs d.usage ds ≡ false) × Distinct ds

-- The activation that an event has for a usage.
abbrev pub activation_of : Option (Option UsageEvent) → Option Bool
activation_of none = none
activation_of (some none) = none
activation_of (some (some d)) = d.activate

abbrev pub event_activation : Event → ℕ → Option Bool
event_activation e u = activation_of (usage_event e u)

-- A count of the activations of a usage, behind an event that activates it, deactivates it or neither.
abbrev pub count_after : Bool → ℕ → ℕ
count_after true n = n + 1
count_after false n = n - 1

abbrev pub count_event : Option Bool → ℕ → ℕ
count_event none n = n
count_event (some on) n = count_after on n

pub activation_in_absent :
    (u : ℕ) (ds : List UsageEvent) → occurs u ds ≡ false → activation_in u ds ≡ none
activation_in_absent u [] h = refl
activation_in_absent u (d ∷ ds) h = ground (arith, activation_in_absent u ds)

pub occurs_at :
    (u : ℕ) (ds : List UsageEvent)
    → (occurs u ds ≡ false) × ((i : ℕ) → usage_at ds i ≢ some u)
      ⊎ ((i : ℕ) × (usage_at ds i ≡ some u))
occurs_at u [] = inl (refl, λ i. ground arith)
occurs_at u (d ∷ ds) = elim (Bool-cases (d.usage == u)) [
  | inl same ↦ inr (0, ap some ((==_iff _ _).0 same))
  | inr other ↦ elim (occurs_at u ds) [
    | inl (no_occurrence, h) ↦ inl (rw other no_occurrence, nowhere other h)
    | inr (i, h) ↦ inr (suc i, h)
  ]
]
  where
    nowhere :
        (d.usage == u) ≡ false
        → ((i : ℕ) → usage_at ds i ≢ some u)
        → (i : ℕ) → usage_at (d ∷ ds) i ≢ some u
    nowhere other h zero = ground arith
    nowhere other h (suc i) = h i

-- No usage has two places.
abbrev OnePlace : List UsageEvent → Type 0
OnePlace ds = (u i j : ℕ) → usage_at ds i ≡ some u → usage_at ds j ≡ some u → i ≡ j

OnePlace-Distinct : (ds : List UsageEvent) → OnePlace ds → Distinct ds
OnePlace-Distinct [] h = tt
OnePlace-Distinct (d ∷ ds) h = (
  elim (occurs_at d.usage ds) [
    | inl (no_occurrence, _) ↦ no_occurrence
    | inr (i, e) ↦ absurd (omega (arith, h d.usage 0 (suc i) refl e))
  ],
  OnePlace-Distinct ds (λ u i j p q. omega (arith, h u (suc i) (suc j) p q)),
)

IsIndexed-OnePlace : (e : Event) → IsIndexed e → OnePlace e.usages
IsIndexed-OnePlace e w u i j p q = some_injective (sym (w.complete u i p) ∙ w.complete u j q)
  where
    some_injective : {a b : ℕ} → ◌≡◌ {A = Option ℕ} (some a) (some b) → a ≡ b
    some_injective h = ground (arith, h)

pub IsIndexed-Distinct : (e : Event) → IsIndexed e → Distinct e.usages
IsIndexed-Distinct e w = OnePlace-Distinct e.usages (IsIndexed-OnePlace e w)

activation_in_at :
    (ds : List UsageEvent) (i : ℕ) (d : UsageEvent)
    → OnePlace ds
    → get_elem? ds i ≡ some d
    → activation_in d.usage ds ≡ d.activate
activation_in_at [] i d one h = ground arith
activation_in_at (x ∷ ds) zero d one h =
    let p : x ≡ d = cc h in
    rw (==_of_eq {a = x.usage} {b = d.usage} (ap (λ y. y.usage) p)) (ap (λ y. y.activate) p)
activation_in_at (x ∷ ds) (suc i) d one h = elim (Bool-cases (x.usage == d.usage)) [
  | inl same ↦
      absurd (omega (arith, one d.usage 0 (suc i) (ap some ((==_iff _ _).0 same)) (rw h refl)))
  | inr other ↦
      rw other (activation_in_at ds i d (λ u a b p q. omega (arith, one u (suc a) (suc b) p q)) h)
]

-- A reader of the slice of a well-formed event finds the activations that the event has.
pub activation_in_event :
    (e : Event) (u : ℕ) → IsIndexed e → activation_in u e.usages ≡ event_activation e u
unfolding usage_event
activation_in_event e u w = elim (Option-cases (e.usage_map u)) [
  | inl h ↦ elim (occurs_at u e.usages) [
    | inl (no_occurrence, _) ↦ rw h (activation_in_absent u e.usages no_occurrence)
    | inr (i, p) ↦ absurd (none_not_some (sym h ∙ w.complete u i p))
  ]
  | inr (i, h) ↦ elim (Option-cases (get_elem? e.usages i)) [
    | inl missing ↦ absurd (none_not_some (sym (rw missing refl) ∙ w.sound u i h))
    | inr (d, p) ↦
        let q : d.usage ≡ u = some_injective (sym (rw p refl) ∙ w.sound u i h) in
        rw (h, p)
          (ap (λ v. activation_in v e.usages) (sym q)
            ∙ activation_in_at e.usages i d (IsIndexed-OnePlace e w) p)
  ]
]
  where
    none_not_some : {a : ℕ} → ◌≢◌ {A = Option ℕ} none (some a)
    none_not_some h = ground (arith, h)

    some_injective : {a b : ℕ} → ◌≡◌ {A = Option ℕ} (some a) (some b) → a ≡ b
    some_injective h = ground (arith, h)
