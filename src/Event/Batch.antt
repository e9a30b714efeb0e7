-- ===== src/Event/Batch.antt =====
-- The methods with several arguments, and the copy of an event.
use neio_agent.Prelude.{member, ℕ, ◌≡◌, refl, Bool, none, some, List, [], ◌∷◌, arith, if◌then◌else◌}
use mathlib.Core.Option
use neio_agent.Event.{Event, new_event, usage_event, suppress, activate_all, activation}
use neio_agent.Event.Index.{IsIndexed}
use neio_agent.Event.Update.{add_usage_lem, remove_usage_lem}

pub new_event-IsIndexed : IsIndexed new_event
new_event-IsIndexed = record { sound = λ u i h. ground arith; complete = λ u i h. ground arith }

-- `Suppress` on a well-formed event does not panic, and gives a well-formed event that has lost
-- the suppressed usages and no other.
pub suppress_lem :
    (us : List ℕ) (e : Event)
    → IsIndexed e
    → (e' : Event) × (suppress e us ≡ some e')
      × IsIndexed e'
      × ((v : ℕ) → usage_event e' v ≡ (if member v us then some none else usage_event e v))
unfolding suppress Option.bind
suppress_lem [] e w = (e, refl, w, λ v. refl)
suppress_lem (u ∷ us) e w =
    let (e1, run1, up) = remove_usage_lem e u w in
    let (e2, run2, w2, look) = suppress_lem us e1 up.indexed in
    (e2, rw run1 run2, w2, λ v. ground (arith, look v, up.lookup v))

-- `Activate` and `Deactivate` on a well-formed event do not panic, and give a well-formed event in
-- which the named usages are activated or deactivated, and the others are as before.
pub activate_all_lem :
    (on : Bool) (us : List ℕ) (e : Event)
    → IsIndexed e
    → (e' : Event) × (activate_all on e us ≡ some e')
      × IsIndexed e'
      × ((v : ℕ)
          → usage_event e' v
            ≡ (if member v us then some (some (activation on v)) else usage_event e v))
unfolding activate_all Option.bind
activate_all_lem on [] e w = (e, refl, w, λ v. refl)
activate_all_lem on (u ∷ us) e w =
    let (e1, run1, up) = add_usage_lem e (activation on u) w in
    let (e2, run2, w2, look) = activate_all_lem on us e1 up.indexed in
    (e2, rw run1 run2, w2, λ v. ground (arith, look v, up.lookup v))
