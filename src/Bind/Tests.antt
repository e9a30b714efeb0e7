-- ===== src/Bind/Tests.antt =====
-- Concrete runs of components/nodes/bind.go: shift with a becomes b.
use neio_agent.Prelude.{
  ℕ, zero, suc, ◌≡◌, refl, Bool, true, false, Option, none, some, List, [], ◌∷◌, map, insert,
  empty_map, arith, ==_iff,
}
use mathlib.Core.Option
use neio_agent.Event.{
  Event, activation, add_usage, remove_usage, usage_event, UsageEvent, suppress, activate_all,
  is_empty,
}
use neio_agent.Event.Index.{IsIndexed, usage_at}
use neio_agent.Bind.{
  new_usage_activation, UsageActivation, Checked, check, BindItem, Call, handler_called,
  finalizer_called, new_bind_item, Ran, run, trigger_mapping,
}
use neio_agent.Bind.Triggers.{IsTrigger, Checks, check-Checks}
use neio_agent.Bind.Calls.{Runs, run-Runs, new_bind_items-IsBound}
use neio_agent.Bind.Handlers.{toggles, toggles-IsSafe}

abbrev shift : ℕ
shift = 0x700e1

abbrev key_a : ℕ
key_a = 0x70004

abbrev single : UsageEvent → Event
single d = record { usages = d ∷ []; usage_map = insert empty_map d.usage 0 }

single-IsIndexed : (d : UsageEvent) → IsIndexed (single d)
single-IsIndexed d = record {
  sound = λ u i h. ground (arith, ==_iff u d.usage);
  complete = λ u i h. at_zero u i h;
}
  where
    at_zero : (u i : ℕ) → usage_at (single d).usages i ≡ some u → (single d).usage_map u ≡ some i
    at_zero u zero h = ground arith
    at_zero u (suc i) h = ground arith

abbrev strokes : List Event
strokes =
    single (activation true shift)
    ∷ single (activation true key_a)
    ∷ single (activation false shift)
    ∷ single (activation false key_a)
    ∷ []

abbrev items : List BindItem
items = map new_bind_item ((shift ∷ key_a ∷ []) ∷ [])

abbrev calls_of : Option Ran → Option (List Call)
calls_of none = none
calls_of (some r) = some r.calls

pressed_and_released :
    calls_of (run (toggles (λ i. 0x70005 ∷ [])) items [] strokes)
    ≡ some (finalizer_called 0 ∷ handler_called 0 true ∷ [])
unfolding run trigger_mapping Option.bind usage_event suppress remove_usage activate_all add_usage
    is_empty
pressed_and_released = refl

-- A trigger that names a usage twice is not active while the usage is pressed: it has one counter.
abbrev active_of : Option Checked → Option Bool
active_of none = none
active_of (some c) = some c.active

doubled_inactive :
    active_of (check (new_usage_activation (key_a ∷ key_a ∷ [])) (single (activation true key_a)))
    ≡ some false
unfolding check Option.bind usage_event
doubled_inactive = refl

abbrev half : UsageActivation
half = record { usages = shift ∷ key_a ∷ []; counters = (shift, 1) ∷ [] }

half-IsTrigger : IsTrigger half
half-IsTrigger = record { distinct = (refl, (refl, tt)); tidy = (refl, omega arith, refl, tt) }

check-Checks_example :
    (c : Checked) × (check half (single (activation true key_a)) ≡ some c)
    × Checks half (single (activation true key_a)) c
check-Checks_example =
    check-Checks half (single (activation true key_a)) half-IsTrigger
      (single-IsIndexed (activation true key_a))

run-Runs_example : Runs (toggles (λ i. 0x70005 ∷ [])) items [] strokes
run-Runs_example =
    run-Runs (toggles (λ i. 0x70005 ∷ [])) strokes items [] (toggles-IsSafe (λ i. 0x70005 ∷ []))
      (new_bind_items-IsBound 0 ((shift ∷ key_a ∷ []) ∷ [])
        (((refl, (refl, tt)), λ q. ground arith), tt))
      tt
      (
        single-IsIndexed (activation true shift),
        (
          single-IsIndexed (activation true key_a),
          (
            single-IsIndexed (activation false shift),
            (single-IsIndexed (activation false key_a), tt),
          ),
        ),
      )
