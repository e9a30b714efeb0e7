-- ===== src/Event/Tests.antt =====
-- Concrete runs of hidapi/event.go: two keys, of which one goes.
use neio_agent.Prelude.{
  ℕ, zero, suc, get_elem?, ◌≡◌, true, false, none, some, [], ◌∷◌, if◌then◌else◌, arith, insert,
  empty_map,
}
use mathlib.Core.Option
use neio_agent.Event.{
  Event, add_usage, remove_usage, usage_event, suppress, activate_all, activation,
}
use neio_agent.Event.Index.{IsIndexed}
use neio_agent.Event.Update.{Updates, add_usage_lem, remove_usage_lem}
use neio_agent.Event.Batch.{suppress_lem, activate_all_lem}
use neio_agent.Prelude.{member}

abbrev one_key : Event
one_key = record { usages = activation true 0x70004 ∷ []; usage_map = insert empty_map 0x70004 0 }

one_key-IsIndexed : IsIndexed one_key
one_key-IsIndexed = record { sound = λ u i h. ground arith; complete = λ u i h. at_zero u i h }
  where
    at_zero :
        (u i : ℕ)
        → Option.map (λ d. d.usage) (get_elem? one_key.usages i) ≡ some u
        → one_key.usage_map u ≡ some i
    at_zero u zero h = ground arith
    at_zero u (suc i) h = ground arith

add_usage_lem_example :
    (e : Event) × (add_usage one_key (activation false 0x70005) ≡ some e)
    × Updates one_key e 0x70005 (some (activation false 0x70005))
add_usage_lem_example = add_usage_lem one_key (activation false 0x70005) one_key-IsIndexed

remove_usage_lem_example :
    (e : Event) × (remove_usage one_key 0x70004 ≡ some e) × Updates one_key e 0x70004 none
remove_usage_lem_example = remove_usage_lem one_key 0x70004 one_key-IsIndexed

suppress_lem_example :
    (e : Event) × (suppress one_key (0x70004 ∷ 0x70005 ∷ []) ≡ some e)
    × IsIndexed e
    × ((v : ℕ)
        → usage_event e v
          ≡ (if member v (0x70004 ∷ 0x70005 ∷ []) then some none else usage_event one_key v))
suppress_lem_example = suppress_lem (0x70004 ∷ 0x70005 ∷ []) one_key one_key-IsIndexed

activate_all_lem_example :
    (e : Event) × (activate_all true one_key (0x700e0 ∷ []) ≡ some e)
    × IsIndexed e
    × ((v : ℕ)
        → usage_event e v ≡ (
            if member v (0x700e0 ∷ [])
            then some (some (activation true v))
            else usage_event one_key v))
activate_all_lem_example = activate_all_lem true (0x700e0 ∷ []) one_key one_key-IsIndexed
