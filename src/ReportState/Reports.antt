-- ===== src/ReportState/Reports.antt =====
-- hidapi/state.go, `ApplyReport`, `InitReports` and `GetReport`: what a report from outside changes, as
-- an event, and the report that the state holds.
use neio_agent.Prelude.{
  ℕ, suc, ◌+◌, ◌-◌, ◌^◌, Bool, true, false, not, Option, none, some, List, [], ◌∷◌, ◌++◌,
  if◌then◌else◌, ◌==◌, length, insert, u32,
}
use mathlib.Core.Option
use neio_agent.HidDesc.{DataItem, is_relative}
use neio_agent.Bits.{Bits, equal}
use neio_agent.Event
use neio_agent.Event.{Event, new_event, activate_all, set_delta, is_empty}
use neio_agent.Report.{Report}
use neio_agent.Report.DataItems.{report}
use neio_agent.Report.Codec.{encode_report}
use neio_agent.Report.Codec
use neio_agent.Usages.Diff.{Diff}
use neio_agent.Usages.Values.{UsageValues, get_value}
use neio_agent.ReportState.{Layout, ReportState}
use neio_agent.ReportState.Sets.{AnyUsageSet, has_usage, usages}
use neio_agent.ReportState.Events.{strip_relative_values}

-- `UsageSetDiff` over the interface: the loop that keeps the usages which the other value has not.
abbrev pub lacking : AnyUsageSet → Bits → List ℕ → Option (List ℕ)
lacking s b [] = some []
lacking s b (u ∷ us) =
    let rest = lacking s b us in
    Option.bind (has_usage s b u) (λ has. if has then rest else Option.map (λ l. u ∷ l) rest)

unfoldable pub set_diff : AnyUsageSet → Bits → Bits → Option Diff
unfolding has_usage usages
set_diff s t0 t1 = Option.bind (usages s t0) (λ us0. Option.bind (usages s t1) (λ us1.
    Option.bind (lacking s t1 us0)
      (λ off. Option.map (λ on. record { activated = on; deactivated = off }) (lacking s t0 us1))))

-- An item with a usage set.
abbrev pub report_set : AnyUsageSet → Bits → Bits → Event → Option Event
report_set s last field e =
    if equal field last
    then some e
    else Option.bind (set_diff s last field) (λ d.
      Option.bind (activate_all true e d.activated) (λ e'. activate_all false e' d.deactivated))

-- One usage of an item with values. An int32 difference wraps.
abbrev pub report_value : UsageValues → Bool → Bits → Bits → ℕ → Event → Option Event
report_value v relative last field u e =
    if relative
    then if equal field last
      then some e
      else Option.bind (get_value v last u) (λ t0.
        Option.bind (get_value v field u)
          (λ t1. if t0 == t1 then some e else set_delta e u (u32 (t1 + 2 ^ 32 - t0))))
    else Option.bind (get_value v field u) (λ x. Event.set_value e u x)

abbrev pub report_values : UsageValues → Bool → Bits → Bits → List ℕ → Event → Option Event
report_values v relative last field [] e = some e
report_values v relative last field (u ∷ us) e =
    Option.bind (report_value v relative last field u e)
      (λ e'. report_values v relative last field us e')

abbrev pub report_item :
    Option AnyUsageSet → Option UsageValues → DataItem → Bits → Bits → Event → Option Event
report_item (some s) values item last field e = report_set s last field e
report_item none (some v) item last field e =
    report_values v (is_relative item.flags) last field v.usages e
report_item none none item last field e = some e

-- The loop over the data items, with the fields of both reports. A field that is missing is a panic.
abbrev pub report_items :
    Layout → ℕ → ℕ → List DataItem → List Bits → List Bits → Event → Option Event
report_items l id i [] last fields e = some e
report_items l id i (d ∷ ds) (b ∷ last) (f ∷ fields) e =
    Option.bind (report_item (l.usage_sets id i) (l.usage_values id i) d b f e)
      (λ e'. report_items l id (suc i) ds last fields e')
report_items l id i (d ∷ ds) (b ∷ last) [] e = none
report_items l id i (d ∷ ds) [] fields e = none

-- A missing report reads as one without fields.
abbrev pub fields_or_nil : Option Report → List Bits
fields_or_nil none = []
fields_or_nil (some rep) = rep.fields

-- What follows the decoding. An event `none` is the nil event of a report that cannot be decoded.
abbrev pub apply_decoded :
    Layout → ReportState → Option Report → Option (ReportState × Option Event)
apply_decoded l r none = some (r, none)
apply_decoded l r (some rep) =
    let items = report l.data_items rep.id in
    if not (length rep.fields == length items)
    then some (r, some new_event)
    else Option.bind
        (report_items l rep.id 0 items (fields_or_nil (r.reports rep.id)) rep.fields new_event)
        (λ e.
          Option.map (λ kept. (record r { reports = insert r.reports rep.id kept }, some e))
            (strip_relative_values l rep))

unfoldable pub apply_report :
    Layout → ReportState → List ℕ → List ℕ → Option (ReportState × Option Event)
unfolding strip_relative_values set_diff
apply_report l r bytes spare =
    Option.bind (Codec.decode l.data_items bytes spare) (λ rep. apply_decoded l r rep)

-- A nil event is empty.
abbrev pub is_empty_event : Option Event → Bool
is_empty_event none = true
is_empty_event (some e) = is_empty e

abbrev pub append_event : Option Event → List Event → List Event
append_event none es = es
append_event (some e) es = if is_empty e then es else es ++ (e ∷ [])

abbrev pub is_nil : List DataItem → Bool
is_nil [] = true
is_nil (d ∷ ds) = false

-- `InitReports`: the getter is asked for each report, and an error of it is skipped.
abbrev pub init_reports_from :
    Layout
    → (ℕ → Option (List ℕ))
    → ReportState
    → List Event
    → List ℕ
    → Option (ReportState × List Event)
init_reports_from l getter r es [] = some (r, es)
init_reports_from l getter r es (i ∷ ids) =
    let skipped = init_reports_from l getter r es ids in
    if is_nil (report l.data_items i) then skipped else elim (getter i) [
      | none ↦ skipped
      | some bytes ↦
          Option.bind (apply_report l r bytes [])
            (λ (r', e). init_reports_from l getter r' (append_event e es) ids)
    ]

unfoldable pub init_reports :
    Layout → (ℕ → Option (List ℕ)) → ReportState → Option (ReportState × List Event)
unfolding apply_report
init_reports l getter r = init_reports_from l getter r [] l.data_items.report_ids

-- `GetReport`: the outer `none` is a panic, the inner one the error of an id that is not found.
unfoldable pub get_report : ReportState → ℕ → Option (Option (List ℕ))
unfolding encode_report
get_report r i = elim (r.reports i) [
  | none ↦ some none
  | some rep ↦ Option.map (λ b. some b.bytes) (encode_report rep)
]
