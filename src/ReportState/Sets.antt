-- ===== src/ReportState/Sets.antt =====
-- hidapi/usage_set.go: the interface `UsageSet` over its three implementations, and the sets and the
-- values that the data items of a report have (`NewUsageSets` and `NewUsageValuesItems`).
use neio_agent.Prelude.{
  ℕ, zero, suc, ◌+◌, Bool, not, ◌&&◌, ◌||◌, Option, none, some, List, [], ◌∷◌, if◌then◌else◌, ltb,
  ◌==◌, length, map,
}
use mathlib.Core.Option
use neio_agent.HidDesc.{DataItem, is_variable}
use neio_agent.Bits.{Bits}
use neio_agent.Usages.{
  UsageFlagMap, UsageRangeFlags, new_usage, new_usage_flag_map, flag_has_usage, flag_set_usage,
  flag_clear_usage, flag_usages, range_has_usage, range_set_usage, range_clear_usage, range_usages,
}
use neio_agent.Usages.Selector.{
  UsageSelector, selector_has_usage, selector_set_usage, selector_clear_usage, usages8, uint16_at,
  rounds16,
}
use neio_agent.Usages.Values.{UsageValues, new_usage_values}

pub data AnyUsageSet : Type 0 where
  flag_map : UsageFlagMap → AnyUsageSet
  range_flags : UsageRangeFlags → AnyUsageSet
  selector : UsageSelector → AnyUsageSet

-- `Usages` of the selector: the callback of the size 16 is called at the byte `i`, with `n` rounds
-- left.
unfoldable pub usages16 : ℕ → ℕ → ℕ → List ℕ → Option (List ℕ)
usages16 p zero i xs = some []
usages16 p (suc n) i xs =
    Option.bind (uint16_at xs i)
      (λ v. Option.map (λ us. if v == 0 then us else new_usage p v ∷ us) (usages16 p n (i + 2) xs))

unfoldable pub selector_usages : UsageSelector → Bits → Option (List ℕ)
unfolding usages8 usages16
selector_usages s b =
    if s.size == 8
    then some (usages8 s.usage_page b.bytes)
    else if s.size == 16
    then usages16 s.usage_page (rounds16 b.bytes) 0 b.bytes
    else some []

-- The calls of the interface that hidapi/state.go makes.
unfoldable pub has_usage : AnyUsageSet → Bits → ℕ → Option Bool
has_usage (flag_map s) b u = some (flag_has_usage s b u)
has_usage (range_flags s) b u = some (range_has_usage s b u)
has_usage (selector s) b u = selector_has_usage s b u

unfoldable pub set_usage : AnyUsageSet → ℕ → Bits → Option Bits
set_usage (flag_map s) u b = some (flag_set_usage s b u).0
set_usage (range_flags s) u b = some (range_set_usage s b u).0
set_usage (selector s) u b = Option.map (λ r. r.0) (selector_set_usage s b u)

unfoldable pub clear_usage : AnyUsageSet → ℕ → Bits → Option Bits
clear_usage (flag_map s) u b = some (flag_clear_usage s b u).0
clear_usage (range_flags s) u b = some (range_clear_usage s b u).0
clear_usage (selector s) u b = Option.map (λ r. r.0) (selector_clear_usage s b u)

unfoldable pub usages : AnyUsageSet → Bits → Option (List ℕ)
usages (flag_map s) b = some (flag_usages s b)
usages (range_flags s) b = some (range_usages s b)
usages (selector s) b = selector_usages s b

-- One round of the loop of `NewUsageSets`.
unfoldable pub usage_set_of : DataItem → Option AnyUsageSet
unfolding is_variable
usage_set_of d =
    if not (d.usage_maximum == 0)
      && not (is_variable d.flags)
      && (d.report_size == 8 || d.report_size == 16)
    then some (
        selector (record {
          size = d.report_size;
          usage_page = d.usage_page;
          minimum = d.usage_minimum;
          maximum = d.usage_maximum;
        }))
    else if not (d.usage_maximum == 0) && is_variable d.flags && d.report_size == 1
    then some (
        range_flags (record {
          usage_page = d.usage_page;
          minimum = d.usage_minimum;
          maximum = d.usage_maximum;
        }))
    else if ltb 0 (length d.usage_ids) && is_variable d.flags && d.report_size == 1
    then some (flag_map (new_usage_flag_map d.usage_page d.usage_ids))
    else none

-- One round of the loop of `NewUsageValuesItems`.
unfoldable pub usage_values_of : DataItem → Option UsageValues
unfolding is_variable
usage_values_of d =
    if length d.usage_ids == 0 || not (is_variable d.flags)
    then none
    else if d.report_size == 7
        || d.report_size == 8
        || d.report_size == 16
        || d.report_size == 24
        || d.report_size == 32
    then some (
        new_usage_values (map (new_usage d.usage_page) d.usage_ids) d.report_size d.logical_minimum
          d.logical_maximum)
    else none
