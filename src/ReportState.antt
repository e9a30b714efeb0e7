-- ===== src/ReportState.antt =====
-- hidapi/state.go: the reports of a device with the usages that stand in their fields, and the counts
-- of the activations. The rate limit of `ApplyEvent`, which only waits, is left out. `none` is a
-- run-time panic.
pub mod Sets
pub mod Init
pub mod Laws
pub mod Changes
pub mod Ready
pub mod Steps
pub mod Usages
pub mod Finish
pub mod Counted
pub mod Start
mod Tests
pub mod Events
pub mod Reports
use neio_agent.Prelude.{
  ℕ, Bool, Option, none, some, List, [], ◌∷◌, if◌then◌else◌, ◌==◌, ◌&&◌, Map, get_elem?, insert,
  put,
}
use mathlib.Core.Option
use neio_agent.HidDesc.{DataItem}
use neio_agent.Bits.{Bits}
use neio_agent.Report.{Report}
use neio_agent.Report.DataItems.{DataItemSet}
use neio_agent.Usages.Values.{UsageValues}
use neio_agent.ReportState.Sets.{AnyUsageSet}

-- `itemAddress`
pub record ItemAddress : Type 0 where
  pub report_id : ℕ
  pub item_idx : ℕ

abbrev pub same_address : ItemAddress → ItemAddress → Bool
same_address a b = a.report_id == b.report_id && a.item_idx == b.item_idx

-- `usageRange`, with the report size of its data item, by which the ranges are sorted.
pub record UsageRange : Type 0 where
  pub start : ℕ
  pub last : ℕ
  pub addr : ItemAddress
  pub report_size : ℕ

-- The fields of a `ReportState` that its constructor fills and that stay as they are. A map of maps is
-- a function of two keys.
pub record Layout : Type 0 where
  pub data_items : DataItemSet
  pub usage_sets : ℕ → Map AnyUsageSet
  pub usage_values : ℕ → Map UsageValues
  pub usage_set_ranges : ℕ → List UsageRange
  pub usage_set_map : ℕ → Map ItemAddress
  pub usage_values_index : Map ItemAddress

-- The fields that change. A count that the map has not reads as 0, and is deleted where it falls to 0
-- or below it, so that it is a natural number.
pub record ReportState : Type 0 where
  pub reports : Map Report
  pub usage_activations : ℕ → ℕ → ℕ

-- The bits of a field, where there is such a report and field.
abbrev pub field_at : ReportState → ItemAddress → Option Bits
field_at r a = Option.bind (r.reports a.report_id) (λ rep. get_elem? rep.fields a.item_idx)

-- A write through the slices of one field.
unfoldable pub change_field : (Bits → Option Bits) → ReportState → ItemAddress → Option ReportState
change_field f r a = Option.bind (r.reports a.report_id) (λ rep.
    Option.bind (get_elem? rep.fields a.item_idx) (λ b. Option.bind (f b) (λ b'.
      Option.map
        (λ fs. record r { reports = insert r.reports a.report_id (record rep { fields = fs }) })
        (put rep.fields a.item_idx b'))))
