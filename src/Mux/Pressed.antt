-- ===== src/Mux/Pressed.antt =====
-- What the downstream nodes have pressed follows the map of the mux: no usage stays pressed on a
-- route that was left.
use Prim.Native.String.{String}
use text.Mathlib.Text.{◌==◌}
use text.Mathlib.TextEquality.{eq_iff}
use neio_agent.Prelude.{
  ℕ, ◌≡◌, ◌≢◌, refl, sym, ap, ◌∙◌, Bool, true, false, ◌&&◌, Option, none, some, if◌then◌else◌, Map,
  List, [], ◌∷◌, length, arith, Bool-cases, inl, inr,
}
use neio_agent.Event.{Event, UsageEvent, usage_event, is_empty}
use neio_agent.Prelude
use neio_agent.Event.Index.{IsIndexed}
use neio_agent.Event.Batch.{suppress_lem}
use neio_agent.Prelude.{member}
use neio_agent.Event.Activations.{
  activation_in, IsIndexed-Distinct, event_activation, activation_of, activation_in_event,
}
use neio_agent.Mux.Events.{other_route, handle_usages, start, Published, handle_event, to_publish}
use neio_agent.Mux.Moves.{
  Moves, new_route, is_route, any_route, is_any, is_off, handle_usages-Moves,
}

-- What the node of a route has pressed behind the deactivations and the event.
abbrev pub applied : Option Bool → Bool → Bool
applied none b = b
applied (some a) b = a

-- The activation that the published event has for a usage.
abbrev pub sent_activation : Option Event → ℕ → Option Bool
sent_activation none u = none
sent_activation (some e) u = event_activation e u

abbrev pub pressed_after : String → Published → (String → ℕ → Bool) → String → ℕ → Bool
pressed_after current p before r u =
    let rest = if member u (p.deactivated r) then false else before r u in
    if r == current then applied (sent_activation p.hid_event u) rest else rest

sent_activation-to_publish :
    (e : Event) (u : ℕ) → IsIndexed e → sent_activation (to_publish e) u ≡ event_activation e u
unfolding is_empty
sent_activation-to_publish e u w = elim (Bool-cases (is_empty e)) [
  | inr full ↦ rw full refl
  | inl empty ↦
      rw empty (sym (ap (activation_in u) (no_element e.usages empty)) ∙ activation_in_event e u w)
]
  where
    no_element : (us : List UsageEvent) → Prelude.◌==◌ (length us) 0 ≡ true → us ≡ []
    no_element [] h = refl
    no_element (d ∷ us) h = ground (arith, h)

one_usage :
    (current r : String) (prev : Option String) (a : Option Bool) (b : Bool)
    → (b ≡ true → prev ≡ some r)
    → (let o = other_route current prev in
        let rest = if is_any a && is_route r o then false else b in
        (if r == current then applied (if is_off a && any_route o then none else a) rest else rest)
        ≡ true)
    → new_route current prev a ≡ some r
one_usage current r none a true h e = absurd (none_not_some (h refl))
  where
    none_not_some : ◌≢◌ {A = Option String} none (some r)
    none_not_some h = ground (arith, h)
one_usage current r (some p) none true h e = h refl
one_usage current r (some p) (some true) true h e =
    ground (arith, h refl, eq_iff r current, eq_iff p current, eq_iff r p)
one_usage current r (some p) (some false) true h e =
    ground (arith, h refl, eq_iff r current, eq_iff p current, eq_iff r p)
one_usage current r none none false h e = ground (arith, e)
one_usage current r (some p) none false h e = ground (arith, e)
one_usage current r none (some true) false h e = ground (arith, e, eq_iff r current)
one_usage current r (some p) (some true) false h e = ground (arith, e, eq_iff r current)
one_usage current r none (some false) false h e = ground (arith, e)
one_usage current r (some p) (some false) false h e =
    ground (arith, e, eq_iff r current, eq_iff p current)

activation_choice :
    (b : Bool) (e : Event) (u : ℕ)
    → activation_of (if b then some none else usage_event e u)
      ≡ (if b then none else event_activation e u)
activation_choice true e u = refl
activation_choice false e u = refl

-- A well-formed event is handled without a panic. An activated usage gets the current route in the map of
-- the mux, a deactivated one leaves it, and others stay. If before the event the map had the route of
-- every usage that a node has pressed, it has it after the published events: no usage stays pressed on a
-- route that was left, and a deactivated one is pressed nowhere.
pub handle_event-pressed :
    (current : String) (activated : Map String) (e : Event) (before : String → ℕ → Bool)
    → IsIndexed e
    → ((r : String) (u : ℕ) → before r u ≡ true → activated u ≡ some r)
    → (p : Published) × (handle_event current activated e ≡ some p)
      × ((r : String) (u : ℕ)
          → pressed_after current p before r u ≡ true
          → p.activated_usages u ≡ some r)
      × ((u : ℕ) → p.activated_usages u ≡ new_route current (activated u) (event_activation e u))
      × ((r : String) (u : ℕ)
          → event_activation e u ≡ some false
          → pressed_after current p before r u ≡ false)
unfolding handle_event
handle_event-pressed current activated e before w h =
    let done = handle_usages current (start activated) e.usages in
    let (e', run, w', look) = suppress_lem done.suppressed e w in
    let p : Published = record {
      activated_usages = done.activated_usages;
      deactivated = done.deactivated;
      hid_event = to_publish e';
    } in
    let m : (u : ℕ) → Moves current u (activation_in u e.usages) (start activated) done =
      λ u. handle_usages-Moves current e.usages u (start activated) (IsIndexed-Distinct e w) in
    let act : (u : ℕ)
        → sent_activation (to_publish e') u ≡ (
            if is_off (activation_in u e.usages) && any_route (other_route current (activated u))
            then none
            else activation_in u e.usages) =
      λ u.
        sent_activation-to_publish e' u w'
        ∙ ap activation_of (look u)
        ∙ activation_choice (member u done.suppressed) e u
        ∙ ap (λ x. if member u done.suppressed then none else x) (sym (activation_in_event e u w))
        ∙ ap (λ b. if b then none else activation_in u e.usages) (m u).suppressed in
    let kept : (r : String) (u : ℕ)
        → pressed_after current p before r u ≡ true
        → p.activated_usages u ≡ some r =
      λ r u pressed.
        (m u).route
        ∙ one_usage current r (activated u) (activation_in u e.usages) (before r u) (h r u)
            (sym (rw ((m u).deactivated r, act u) refl) ∙ pressed) in
    let route : (u : ℕ)
        → p.activated_usages u ≡ new_route current (activated u) (event_activation e u) =
      λ u. (m u).route ∙ ap (new_route current (activated u)) (activation_in_event e u w) in
    (
      p,
      rw run refl,
      kept,
      route,
      λ r u off. elim (Bool-cases (pressed_after current p before r u)) [
        | inr free ↦ free
        | inl held ↦
            absurd (
              no_route r (sym (route u ∙ ap (new_route current (activated u)) off) ∙ kept r u held))
      ],
    )
  where
    no_route : (r : String) → ◌≢◌ {A = Option String} none (some r)
    no_route r h = ground (arith, h)
