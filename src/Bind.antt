-- ===== src/Bind.antt =====
-- components/nodes/bind.go: triggers of usages, and the actions that they start and end. An action is
-- code of its own: what its handler and its finalizer do to the event is a parameter, which may depend
-- on all calls so far. `none` is a run-time panic.
pub mod Counters
pub mod Triggers
pub mod Fires
pub mod Trace
pub mod Calls
pub mod Handlers
mod Tests
use neio_agent.Prelude.{
  ℕ, suc, ◌+◌, ◌-◌, Bool, true, false, not, ◌&&◌, ◌||◌, Option, none, some, List, [], ◌∷◌, ◌++◌,
  if◌then◌else◌, ◌==◌, length,
}
use mathlib.Core.Option
use neio_agent.Event.{Event, UsageEvent, usage_event, suppress, is_empty}
use neio_agent.Usages.{page, id}

-- A Go map from usages to counts, as the list of its entries.
abbrev pub Counts : Type 0
Counts = List (ℕ × ℕ)

-- A missing key reads as 0.
abbrev pub count_of : Counts → ℕ → ℕ
count_of [] u = 0
count_of ((k, n) ∷ m) u = if u == k then n else count_of m u

abbrev pub put_count : Counts → ℕ → ℕ → Counts
put_count [] u n = (u, n) ∷ []
put_count ((k, c) ∷ m) u n = if u == k then (k, n) ∷ m else (k, c) ∷ put_count m u n

abbrev pub delete_count : Counts → ℕ → Counts
delete_count [] u = []
delete_count ((k, c) ∷ m) u = if u == k then delete_count m u else (k, c) ∷ delete_count m u

pub record UsageActivation : Type 0 where
  pub usages : List ℕ
  pub counters : Counts

abbrev pub new_usage_activation : List ℕ → UsageActivation
new_usage_activation us = record { usages = us; counters = [] }

-- One activation of a usage. A count that falls to 0 or below it is deleted, so that it is a natural
-- number.
abbrev pub count_activation : Counts → ℕ → Bool → Counts
count_activation m u true = put_count m u (count_of m u + 1)
count_activation m u false =
    let n = count_of m u - 1 in if n == 0 then delete_count m u else put_count m u n

-- What the loop does for the usage event that the event has, or has not.
abbrev pub count_found : Counts → ℕ → Option UsageEvent → Counts
count_found m u none = m
count_found m u (some d) = elim d.activate [ none ↦ m | some on ↦ count_activation m u on ]

abbrev pub count_usages : Counts → Event → List ℕ → Option Counts
count_usages m e [] = some m
count_usages m e (u ∷ us) =
    Option.bind (usage_event e u) (λ d. count_usages (count_found m u d) e us)

-- The result of `Check`: the trigger, the event, and whether the trigger is active.
pub record Checked : Type 0 where
  pub trigger : UsageActivation
  pub event : Event
  pub active : Bool

abbrev pub is_active : UsageActivation → Bool
is_active t = length t.counters == length t.usages

abbrev pub suppress_if : Bool → Event → List ℕ → Option Event
suppress_if on e us = if on then suppress e us else some e

unfoldable pub check : UsageActivation → Event → Option Checked
check t e = Option.bind (count_usages t.counters e t.usages) (λ m.
    let t' : UsageActivation = record t { counters = m } in
    Option.map (λ e'. record { trigger = t'; event = e'; active = is_active t' })
      (suppress_if (is_active t' || is_active t) e t.usages))

-- A mapping of the node. The handler is that of its place, and of the finalizer it is kept only
-- whether there is one.
pub record BindItem : Type 0 where
  pub trigger : UsageActivation
  pub triggered : Bool
  pub finalizer : Bool

-- The calls of handlers and finalizers, by the places of their mappings, the latest first. Of a call
-- of a handler it is recorded whether it returned a finalizer.
pub data Call : Type 0 where
  handler_called : ℕ → Bool → Call
  finalizer_called : ℕ → Call

-- The actions: what a call does to the event, and whether a handler returns a finalizer.
pub record Actions : Type 0 where
  pub handler : List Call → ℕ → Event → Option (Event × Bool)
  pub finalize : List Call → ℕ → Event → Option Event

pub record Triggered : Type 0 where
  pub item : BindItem
  pub event : Event
  pub calls : List Call

-- The switch on the two flags.
abbrev pub fire : Actions → ℕ → BindItem → List Call → Checked → Option Triggered
fire acts i m calls c =
    if c.active && not m.triggered
    then Option.map
        (λ (e, fin). record {
          item = record { trigger = c.trigger; triggered = true; finalizer = fin };
          event = e;
          calls = handler_called i fin ∷ calls;
        })
        (acts.handler calls i c.event)
    else if not c.active && m.triggered
    then if m.finalizer
      then Option.map
          (λ e. record {
            item = record { trigger = c.trigger; triggered = false; finalizer = false };
            event = e;
            calls = finalizer_called i ∷ calls;
          })
          (acts.finalize calls i c.event)
      else some (record {
        item = record { trigger = c.trigger; triggered = false; finalizer = false };
        event = c.event;
        calls = calls;
      })
    else some (record { item = record m { trigger = c.trigger }; event = c.event; calls = calls })

unfoldable pub trigger_mapping : Actions → ℕ → BindItem → List Call → Event → Option Triggered
unfolding check
trigger_mapping acts i m calls e = Option.bind (check m.trigger e) (λ c. fire acts i m calls c)

-- The state of the node behind an event, and the event as the mappings leave it.
pub record Bound : Type 0 where
  pub items : List BindItem
  pub event : Event
  pub calls : List Call

abbrev pub bound_cons : BindItem → Bound → Bound
bound_cons m b = record b { items = m ∷ b.items }

-- The loop of `triggerMappings`, from the mapping at the place `i` on.
unfoldable pub trigger_mappings : Actions → ℕ → List BindItem → List Call → Event → Option Bound
trigger_mappings acts i [] calls e = some (record { items = []; event = e; calls = calls })
trigger_mappings acts i (m ∷ ms) calls e =
    Option.bind (trigger_mapping acts i m calls e)
      (λ t. Option.map (bound_cons t.item) (trigger_mappings acts (suc i) ms t.calls t.event))

-- The loop of `Run` over the events that come in, with the events that it sends.
pub record Ran : Type 0 where
  pub items : List BindItem
  pub calls : List Call
  pub sent : List Event

abbrev pub send : Event → Ran → Ran
send e r = if is_empty e then r else record r { sent = e ∷ r.sent }

unfoldable pub run : Actions → List BindItem → List Call → List Event → Option Ran
unfolding trigger_mappings
run acts items calls [] = some (record { items = items; calls = calls; sent = [] })
run acts items calls (e ∷ es) =
    Option.bind (trigger_mappings acts 0 items calls e)
      (λ b. Option.map (send b.event) (run acts b.items b.calls es))

-- `shouldInterrupt` for the matcher of the node, which takes the page and the id of a usage.
abbrev pub interrupts : (ℕ → ℕ → Bool) → List UsageEvent → Bool
interrupts matcher [] = false
interrupts matcher (d ∷ ds) = elim d.activate [
  | some false ↦ interrupts matcher ds
  | _ ↦ if matcher (page d.usage) (id d.usage) then true else interrupts matcher ds
]

unfoldable pub should_interrupt : (ℕ → ℕ → Bool) → Event → Bool
should_interrupt matcher e = if is_empty e then false else interrupts matcher e.usages

-- `CreateNode` and the loop of `Configure` over the map.
abbrev pub new_bind_item : List ℕ → BindItem
new_bind_item us = record {
  trigger = new_usage_activation us;
  triggered = false;
  finalizer = false;
}
