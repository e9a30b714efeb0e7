-- ===== src/Event.antt =====
-- hidapi/event.go: the usage events of one HID event, in a slice with an index by usage. The mutex
-- is held over the whole of each method. `none` is the panic of an index out of range. The time
-- stamp is left out.
pub mod Index
pub mod Update
pub mod Batch
pub mod Activations
pub mod Latest
mod Tests
use neio_agent.Prelude.{
  ℕ, ◌-◌, Bool, true, false, Option, none, some, List, [], ◌∷◌, ◌++◌, if◌then◌else◌, ◌==◌, length,
  get_elem?, take, Map, empty_map, insert, delete, put,
}
use mathlib.Core.Option

-- A Usage is a uint32, and so are the bit patterns of the value and the delta.
pub record UsageEvent : Type 0 where
  pub usage : ℕ
  pub activate : Option Bool
  pub value : Option ℕ
  pub delta : Option ℕ

pub record Event : Type 0 where
  pub usages : List UsageEvent
  pub usage_map : Map ℕ

abbrev pub new_event : Event
new_event = record { usages = []; usage_map = empty_map }

-- `addUsage`, where the index has the usage at a place, and where it has not.
abbrev pub add_at : Option ℕ → Event → UsageEvent → Option Event
add_at (some i) e diff = Option.map (λ us. record e { usages = us }) (put e.usages i diff)
add_at none e diff = some (record {
  usages = e.usages ++ (diff ∷ []);
  usage_map = insert e.usage_map diff.usage (length e.usages);
})

unfoldable pub add_usage : Event → UsageEvent → Option Event
add_usage e diff = add_at (e.usage_map diff.usage) e diff

-- `removeUsage`: the last usage event, `moved`, takes the place of the removed one.
abbrev pub move_last : Option UsageEvent → ℕ → ℕ → Event → ℕ → Option Event
move_last none i last e u = none
move_last (some moved) i last e u =
    if i == last
    then some (record { usages = take last e.usages; usage_map = delete e.usage_map u })
    else Option.map
        (λ us. record {
          usages = take last us;
          usage_map = delete (insert e.usage_map moved.usage i) u;
        })
        (put e.usages i moved)

abbrev pub remove_at : Option ℕ → Event → ℕ → Option Event
remove_at none e u = some e
remove_at (some i) e u =
    let last = length e.usages - 1 in move_last (get_elem? e.usages last) i last e u

unfoldable pub remove_usage : Event → ℕ → Option Event
remove_usage e u = remove_at (e.usage_map u) e u

-- The loops of the methods with several arguments.
unfoldable pub add_usages : Event → List UsageEvent → Option Event
add_usages e [] = some e
add_usages e (d ∷ ds) = Option.bind (add_usage e d) (λ e'. add_usages e' ds)

unfoldable pub suppress : Event → List ℕ → Option Event
suppress e [] = some e
suppress e (u ∷ us) = Option.bind (remove_usage e u) (λ e'. suppress e' us)

abbrev pub activation : Bool → ℕ → UsageEvent
activation on u = record { usage = u; activate = some on; value = none; delta = none }

unfoldable pub activate_all : Bool → Event → List ℕ → Option Event
activate_all on e [] = some e
activate_all on e (u ∷ us) =
    Option.bind (add_usage e (activation on u)) (λ e'. activate_all on e' us)

abbrev pub activate : Event → List ℕ → Option Event
activate e us = activate_all true e us

abbrev pub deactivate : Event → List ℕ → Option Event
deactivate e us = activate_all false e us

abbrev pub set_value : Event → ℕ → ℕ → Option Event
set_value e u v = add_usage e (record { usage = u; activate = none; value = some v; delta = none })

abbrev pub set_delta : Event → ℕ → ℕ → Option Event
set_delta e u v = add_usage e (record { usage = u; activate = none; value = none; delta = some v })

-- `Usage(usage)`: the event, where there is one. A panic is a `none` of the outer Option.
abbrev pub found : Option ℕ → List UsageEvent → Option (Option UsageEvent)
found none us = some none
found (some i) us = Option.map some (get_elem? us i)

unfoldable pub usage_event : Event → ℕ → Option (Option UsageEvent)
usage_event e u = found (e.usage_map u) e.usages

unfoldable pub is_empty : Event → Bool
is_empty e = length e.usages == 0

-- `Clear` empties both. `Clone` adds the usages one by one.
abbrev pub clear : Event → Event
clear e = new_event

abbrev pub clone : Event → Option Event
clone e = add_usages new_event e.usages
