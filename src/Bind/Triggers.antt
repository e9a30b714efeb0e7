-- ===== src/Bind/Triggers.antt =====
-- components/nodes/bind.go: what `Check` counts, when a trigger is active, and which usages it takes
-- out of the event.
use mathlib.Core.Option
use neio_agent.Prelude.{
  IsDistinct, ℕ, ◌≡◌, refl, sym, ap, ◌∙◌, Bool, true, false, ◌||◌, ◌&&◌, Option, none, some, List,
  [], ◌∷◌, if◌then◌else◌, ◌==◌, arith, Bool-cases, Option-cases, inl, inr, member, ==_iff, ==_refl,
  get_elem?, All,
}
use neio_agent.Event.{Event, UsageEvent, usage_event}
use neio_agent.Event.Index.{IsIndexed}
use neio_agent.Event.Activations.{count_event, activation_of, event_activation}
use neio_agent.Event.Batch.{suppress_lem}
use neio_agent.Bind.{
  Counts, count_of, count_activation, count_found, count_usages, UsageActivation, Checked,
  is_active, suppress_if, check,
}
use neio_agent.Bind.Counters.{IsTidy, all_held, count_activation_lem, length-all_held}

-- A well-formed event answers for every usage.
usage_event_total :
    (e : Event) (u : ℕ) → IsIndexed e → (o : Option UsageEvent) × (usage_event e u ≡ some o)
unfolding usage_event
usage_event_total e u w = elim (Option-cases (e.usage_map u)) [
  | inl h ↦ (none, rw h refl)
  | inr (i, h) ↦ elim (Option-cases (get_elem? e.usages i)) [
    | inl missing ↦ absurd (ground (arith, w.sound u i h))
    | inr (d, there) ↦ (some d, rw h (ap (Option.map some) there))
  ]
]

count_found_lem :
    (us : List ℕ) (m : Counts) (u : ℕ) (o : Option UsageEvent)
    → member u us ≡ true
    → IsTidy us m
    → IsTidy us (count_found m u o)
      × ((v : ℕ)
          → count_of (count_found m u o) v ≡ (
              if v == u then count_event (activation_of (some o)) (count_of m v) else count_of m v))
count_found_lem us m u none here h = (h, λ v. ground arith)
count_found_lem us m u (some d) here h = by_activation d.activate
  where
    by_activation :
        (act : Option Bool)
        → IsTidy us (elim act [ none ↦ m | some on ↦ count_activation m u on ])
          × ((v : ℕ)
              → count_of (elim act [ none ↦ m | some on ↦ count_activation m u on ]) v
                ≡ (if v == u then count_event act (count_of m v) else count_of m v))
    by_activation none = (h, λ v. ground arith)
    by_activation (some on) = count_activation_lem us m u on here h

-- The loop over the usages `vs` of the trigger counts each of them once.
count_usages_lem :
    (us vs : List ℕ) (m : Counts) (e : Event)
    → IsIndexed e
    → IsDistinct vs
    → All (λ u. member u us ≡ true) vs
    → IsTidy us m
    → (m' : Counts) × (count_usages m e vs ≡ some m')
      × IsTidy us m'
      × ((v : ℕ)
          → count_of m' v ≡ (
              if member v vs
              then count_event (event_activation e v) (count_of m v)
              else count_of m v))
unfolding Option.bind
count_usages_lem us [] m e w d sub h = (m, refl, h, λ v. refl)
count_usages_lem us (u ∷ vs) m e w d sub h =
    let (o, there) = usage_event_total e u w in
    let (tidy, counts) = count_found_lem us m u o sub.0 h in
    let (m', run, tidy', counts') = count_usages_lem us vs (count_found m u o) e w d.1 sub.1 tidy in
    (
      m',
      rw there run,
      tidy',
      λ v. counts' v ∙ elim (Bool-cases (v == u)) [
        | inl same ↦
            let is : v ≡ u = (==_iff v u).0 same in
            let new : member v vs ≡ false = ap (λ k. member k vs) is ∙ d.0 in
            let act : activation_of (some o) ≡ event_activation e v =
              ap activation_of (sym there ∙ ap (usage_event e) (sym is)) in
            rw (same, new) (counts v ∙ rw same (ap (λ a. count_event a (count_of m v)) act))
        | inr other ↦
            let same_count : count_of (count_found m u o) v ≡ count_of m v =
              counts v ∙ rw other refl in
            rw (other, same_count) refl
      ],
    )

members :
    (us vs : List ℕ)
    → ((u : ℕ) → member u vs ≡ true → member u us ≡ true)
    → All (λ u. member u us ≡ true) vs
members us [] sub = tt
members us (v ∷ vs) sub =
    (sub v (ground (arith, ==_refl v)), members us vs (λ u m. sub u (ground arith)))

-- The usages of a trigger are distinct, and so are the keys of its counters, which are usages of it
-- with positive counts.
pub record IsTrigger (t : UsageActivation) : Type 0 where
  pub distinct : IsDistinct t.usages
  pub tidy : IsTidy t.usages t.counters

-- The trigger is active: all of its usages are pressed.
abbrev pub is_held : UsageActivation → Bool
is_held t = all_held t.usages t.counters

-- What `Check` does to the trigger and to the event.
pub record Checks (t : UsageActivation) (e : Event) (c : Checked) : Type 0 where
  pub usages_same : c.trigger.usages ≡ t.usages
  pub trigger : IsTrigger c.trigger
  pub counts :
      (u : ℕ)
      → member u t.usages ≡ true
      → count_of c.trigger.counters u ≡ count_event (event_activation e u) (count_of t.counters u)
  pub active : c.active ≡ is_held c.trigger
  pub indexed : IsIndexed c.event
  pub event :
      (u : ℕ)
      → usage_event c.event u ≡ (
          if (is_held c.trigger || is_held t) && member u t.usages
          then some none
          else usage_event e u)

suppress_if_lem :
    (on : Bool) (e : Event) (us : List ℕ)
    → IsIndexed e
    → (e' : Event) × (suppress_if on e us ≡ some e')
      × IsIndexed e'
      × ((u : ℕ) → usage_event e' u ≡ (if on && member u us then some none else usage_event e u))
suppress_if_lem true e us w = suppress_lem us e w
suppress_if_lem false e us w = (e, refl, w, λ u. refl)

-- For a well-formed event and a trigger whose usages are distinct, and whose counters hold positive counts
-- of them, one entry for each, `Check` does not panic, and leaves such a trigger. It counts each activation
-- and deactivation that the event has of a usage of the trigger, a count never falling below 0, and is
-- active just where each of these usages has a count then. If the trigger is active, or was so before, its
-- usages are taken out of the event; the other usages stay as they are.
pub check-Checks :
    (t : UsageActivation) (e : Event)
    → IsTrigger t
    → IsIndexed e
    → (c : Checked) × (check t e ≡ some c) × Checks t e c
unfolding check Option.bind
check-Checks t e h w =
    let (m, run, tidy, counts) =
      count_usages_lem t.usages t.usages t.counters e w h.distinct
        (members t.usages t.usages (λ u q. q)) h.tidy in
    let t' : UsageActivation = record t { counters = m } in
    let on : is_active t' ≡ is_held t' = length-all_held t.usages m h.distinct tidy in
    let was : is_active t ≡ is_held t = length-all_held t.usages t.counters h.distinct h.tidy in
    let (e', ran, indexed, left) = suppress_if_lem (is_active t' || is_active t) e t.usages w in
    (
      record { trigger = t'; event = e'; active = is_active t' },
      rw run (ap (Option.map _) ran),
      record {
        usages_same = refl;
        trigger = record { distinct = h.distinct; tidy = tidy };
        counts = λ u q. counts u ∙ rw q refl;
        active = on;
        indexed = indexed;
        event = λ u.
            left u
            ∙ ap (λ b. if b && member u t.usages then some none else usage_event e u)
                (ap (λ b. b || is_active t) on ∙ ap (λ b. is_held t' || b) was);
      },
    )
