-- ===== src/Split.antt =====
-- components/nodes/split.go: the usage events of an event, each handed to the node of the first
-- matcher that takes its usage. `none` is a run-time panic.
pub mod Routed
mod Tests
use Prim.Native.String.{String}
use text.Mathlib.Text.{◌==◌}
use neio_agent.Prelude.{ℕ, Bool, true, false, Option, none, some, List, [], ◌∷◌, if◌then◌else◌}
use mathlib.Core.Option
use neio_agent.Event.{Event, UsageEvent, new_event, add_usage}
use neio_agent.Usages.{page, id}

-- Node ids are compared by their text.
abbrev pub same_node : String → String → Bool
same_node k n = k == n

-- The matcher takes the page and the id of a usage.
pub record MatchItem : Type 0 where
  pub matcher : ℕ → ℕ → Bool
  pub node_id : String

-- The map `events`, whose events `Run` publishes to the nodes that are their keys.
abbrev pub Outbox : Type 0
Outbox = String → Option Event

abbrev pub empty_outbox : Outbox
empty_outbox n = none

abbrev pub event_or_new : Option Event → Event
event_or_new none = new_event
event_or_new (some e) = e

-- The event of the node, made where there is none, with a usage event more.
unfoldable pub add_to : Outbox → String → UsageEvent → Option Outbox
add_to m n d =
    Option.map (λ e k. if same_node k n then some e else m k) (add_usage (event_or_new (m n)) d)

-- The loop over the matchers, with the value of `nodeID` behind it.
unfoldable pub match_usage : List MatchItem → Outbox → UsageEvent → Option (Outbox × String)
unfolding add_to
match_usage [] m d = some (m, "")
match_usage (it ∷ items) m d =
    let rest = match_usage items m d in
    if it.matcher (page d.usage) (id d.usage)
    then Option.map (λ m'. (m', it.node_id)) (add_to m it.node_id d)
    else rest

-- The usage event is added once more, unless the node id is empty.
abbrev pub after_match : UsageEvent → Outbox × String → Option Outbox
after_match d (m, n) = if same_node n "" then some m else add_to m n d

unfoldable pub split_usage : List MatchItem → Outbox → UsageEvent → Option Outbox
unfolding match_usage
split_usage items m d = Option.bind (match_usage items m d) (after_match d)

unfoldable pub split_usages : List MatchItem → Outbox → List UsageEvent → Option Outbox
unfolding split_usage
split_usages items m [] = some m
split_usages items m (d ∷ ds) = Option.bind (split_usage items m d) (λ m'. split_usages items m' ds)

-- What `Run` publishes for one event. The map is cleared behind it.
unfoldable pub split : List MatchItem → Event → Option Outbox
unfolding split_usages
split items e = split_usages items empty_outbox e.usages
