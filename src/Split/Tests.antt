-- ===== src/Split/Tests.antt =====
-- components/nodes/split.go: a mouse button and a key, of which the key goes to its own node.
use neio_agent.Prelude.{◌≡◌, refl, true, Option, none, some, List, [], ◌∷◌, ◌==◌, insert, empty_map}
use mathlib.Core.Option
use neio_agent.Event.{Event, new_event, activation, add_usage}
use neio_agent.Event.Index.{IsIndexed, appended}
use neio_agent.Event.Batch.{new_event-IsIndexed}
use neio_agent.Split.{MatchItem, Outbox, split, split_usages, split_usage, match_usage, add_to}
use neio_agent.Split.Routed.{Splits, split-Splits}

abbrev by_page : List MatchItem
by_page =
    record { matcher = λ page id. page == 7; node_id = "keys" }
    ∷ record { matcher = λ page id. page == 9; node_id = "buttons" }
    ∷ record { matcher = λ page id. page == 7; node_id = "more" }
    ∷ []

abbrev pressed : Event
pressed = record {
  usages = activation true 0x90001 ∷ activation true 0x70004 ∷ activation true 0xc0001 ∷ [];
  usage_map = insert (insert (insert empty_map 0x90001 0) 0x70004 1) 0xc0001 2;
}

abbrev sent_to : Option Outbox → Option (Option Event)
sent_to none = none
sent_to (some m) = some (m "keys")

keys_sent :
    sent_to (split by_page pressed)
    ≡ some (
        some (record {
          usages = activation true 0x70004 ∷ [];
          usage_map = insert empty_map 0x70004 0;
        }))
unfolding split split_usages split_usage match_usage add_to add_usage Option.bind
keys_sent = refl

pressed-IsIndexed : IsIndexed pressed
pressed-IsIndexed =
    let one = appended new_event (activation true 0x90001) new_event-IsIndexed refl in
    let two = appended _ (activation true 0x70004) one refl in
    appended _ (activation true 0xc0001) two refl

split-Splits_example : (m : Outbox) × (split by_page pressed ≡ some m) × Splits by_page pressed m
split-Splits_example = split-Splits by_page pressed pressed-IsIndexed
