-- ===== src/ReportState/Events.antt =====
-- hidapi/state.go, `ApplyEvent`: the usage events of an event written into the reports.
use neio_agent.Prelude.{
  ℕ, ◌+◌, ◌-◌, Bool, true, false, Option, none, some, List, [], ◌∷◌, ◌++◌, if◌then◌else◌, leb, ◌==◌,
  ◌&&◌, get_elem?, insert, member, u32,
}
use mathlib.Core.Option
use neio_agent.HidDesc.{DataItem, is_relative}
use neio_agent.Bits.{Bits, clear_all}
use neio_agent.Event.{UsageEvent, Event}
use neio_agent.Report.{Report}
use neio_agent.Report.DataItems.{report}
use neio_agent.Report.Codec.{encode_report}
use neio_agent.Usages.{page, id}
use neio_agent.Usages.Values.{UsageValues, get_value, set_value}
use neio_agent.ReportState.{ItemAddress, UsageRange, Layout, ReportState, change_field}
use neio_agent.ReportState.Sets.{AnyUsageSet, set_usage, clear_usage}

-- `getUsageSet`: the first range of the page that contains the id.
abbrev pub find_range : List UsageRange → ℕ → Option ItemAddress
find_range [] i = none
find_range (r ∷ rs) i = if leb r.start i && leb i r.last then some r.addr else find_range rs i

abbrev pub or_range : Option ItemAddress → Option ItemAddress → Option ItemAddress
or_range (some a) range = some a
or_range none range = range

-- Where a usage of a usage set stands, and where one of a field of values does.
unfoldable pub set_address : Layout → ℕ → Option ItemAddress
set_address l u =
    or_range (l.usage_set_map (page u) (id u)) (find_range (l.usage_set_ranges (page u)) (id u))

-- The first switch. `none` is a usage event that the loop skips, with a warning.
abbrev pub address_of : Layout → Option Bool → Option ℕ → Option ℕ → ℕ → Option ItemAddress
address_of l (some on) delta value u = set_address l u
address_of l none (some x) value u = l.usage_values_index u
address_of l none none (some x) u = l.usage_values_index u
address_of l none none none u = none

-- The set or the values of an item, and the item itself. A missing one is a panic.
abbrev pub set_at_address : Layout → ItemAddress → Option AnyUsageSet
set_at_address l a = l.usage_sets a.report_id a.item_idx

abbrev pub values_at_address : Layout → ItemAddress → Option UsageValues
values_at_address l a = l.usage_values a.report_id a.item_idx

abbrev pub item_at : Layout → ItemAddress → Option DataItem
item_at l a = get_elem? (report l.data_items a.report_id) a.item_idx

abbrev pub with_count : ReportState → ItemAddress → ℕ → ℕ → ReportState
with_count r a u n = record r {
  usage_activations = λ i v. if i == a.report_id && v == u then n else r.usage_activations i v;
}

unfoldable pub write_set : Layout → Bool → ReportState → ItemAddress → ℕ → Option ReportState
write_set l on r a u =
    Option.bind (set_at_address l a)
      (λ s. change_field (λ b. if on then set_usage s u b else clear_usage s u b) r a)

-- The two cases of an activation: a relative item is written, another one is counted, and written
-- where the count begins or ends.
unfoldable pub apply_activation :
    Layout → Bool → ReportState → ItemAddress → ℕ → DataItem → Option ReportState
unfolding write_set
apply_activation l on r a u item =
    let n = r.usage_activations a.report_id u in
    if is_relative item.flags
    then write_set l on r a u
    else if on
    then if n + 1 == 1
      then write_set l true (with_count r a u (n + 1)) a u
      else some (with_count r a u (n + 1))
    else if leb n 1
    then write_set l false (with_count r a u 0) a u
    else some (with_count r a u (n - 1))

-- The new number of a slot from its old one.
unfoldable pub write_value : Layout → (ℕ → ℕ) → ReportState → ItemAddress → ℕ → Option ReportState
write_value l f r a u =
    Option.bind (values_at_address l a)
      (λ v. change_field (λ b. Option.bind (get_value v b u) (λ x. set_value v b u (f x))) r a)

-- The second switch. An int32 sum wraps.
abbrev pub apply_at :
    Layout
    → ReportState
    → ItemAddress
    → ℕ
    → Option Bool
    → Option ℕ
    → Option ℕ
    → DataItem
    → Option ReportState
apply_at l r a u (some on) delta value item = apply_activation l on r a u item
apply_at l r a u none (some x) value item = write_value l (λ old. u32 (old + x)) r a u
apply_at l r a u none none (some x) item = write_value l (λ old. x) r a u
apply_at l r a u none none none item = some r

-- The loop: the ids of the reports that it takes hold of, in the order of the first time.
abbrev pub touch : List ℕ → ℕ → List ℕ
touch ids i = if member i ids then ids else ids ++ (i ∷ [])

abbrev pub apply_addressed :
    Layout → ReportState × List ℕ → UsageEvent → Option ItemAddress → Option (ReportState × List ℕ)
apply_addressed l (r, ids) d none = some (r, ids)
apply_addressed l (r, ids) d (some a) = Option.bind (item_at l a) (λ item.
    Option.map (λ r'. (r', touch ids a.report_id))
      (apply_at l r a d.usage d.activate d.delta d.value item))

unfoldable pub apply_usage :
    Layout → ReportState × List ℕ → UsageEvent → Option (ReportState × List ℕ)
unfolding set_address apply_activation write_value
apply_usage l s d = apply_addressed l s d (address_of l d.activate d.delta d.value d.usage)

unfoldable pub apply_usages :
    Layout → ReportState × List ℕ → List UsageEvent → Option (ReportState × List ℕ)
apply_usages l s [] = some s
apply_usages l s (d ∷ ds) = Option.bind (apply_usage l s d) (λ s'. apply_usages l s' ds)

-- `stripRelativeValues`: the loop over the items, on the fields at their places.
unfoldable pub strip_fields : List DataItem → List Bits → Option (List Bits)
strip_fields [] fs = some fs
strip_fields (d ∷ ds) [] = if is_relative d.flags then none else strip_fields ds []
strip_fields (d ∷ ds) (f ∷ fs) =
    let rest = strip_fields ds fs in
    Option.map (λ gs. (if is_relative d.flags then (clear_all f).0 else f) ∷ gs) rest

unfoldable pub strip_relative_values : Layout → Report → Option Report
unfolding strip_fields is_relative clear_all
strip_relative_values l rep =
    Option.map (λ fs. record rep { fields = fs })
      (strip_fields (report l.data_items rep.id) rep.fields)

-- The last loop: the report is encoded as it is, and kept without its relative values.
abbrev pub finish_report : Layout → ReportState → ℕ → Option (ReportState × List ℕ)
finish_report l r i = Option.bind (r.reports i) (λ rep.
    Option.bind (strip_relative_values l rep) (λ kept.
      Option.map (λ all. (record r { reports = insert r.reports rep.id kept }, all.bytes))
        (encode_report rep)))

unfoldable pub finish_reports : Layout → ReportState → List ℕ → Option (ReportState × List (List ℕ))
unfolding strip_relative_values
finish_reports l r [] = some (r, [])
finish_reports l r (i ∷ ids) =
    Option.bind (finish_report l r i)
      (λ (r', bytes). Option.map (λ (r'', rest). (r'', bytes ∷ rest)) (finish_reports l r' ids))

unfoldable pub apply_event : Layout → ReportState → Event → Option (ReportState × List (List ℕ))
unfolding apply_usages finish_reports
apply_event l r e =
    Option.bind (apply_usages l (r, []) e.usages) (λ (r', ids). finish_reports l r' ids)
