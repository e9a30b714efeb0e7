-- ===== src/ReportState/Init.antt =====
-- hidapi/state.go, `NewReportState`: the reports of zeros, and where each usage stands. The loops over
-- `usageSets` and `usageValues`, which are maps, go by ascending index here.
use neio_agent.Prelude.{
  ℕ, suc, ◌*◌, Bool, true, false, Option, none, some, List, [], ◌∷◌, ◌++◌, if◌then◌else◌, ltb, ◌==◌,
  Map, empty_map, get_elem?, insert, u32, map,
}
use mathlib.Core.Option
use neio_agent.HidDesc.{DataItem}
use neio_agent.Bits.{Bits, new_zeros}
use neio_agent.Report.DataItems.{DataItemSet, report}
use neio_agent.Usages.Values.{UsageValues}
use neio_agent.ReportState.{ItemAddress, UsageRange, Layout, ReportState}
use neio_agent.ReportState.Sets.{
  AnyUsageSet, flag_map, range_flags, selector, usage_set_of, usage_values_of,
}

-- The maps of `NewUsageSets` and `NewUsageValuesItems`: what the item at a place has.
abbrev pub new_usage_sets : List DataItem → Map AnyUsageSet
new_usage_sets items i = Option.bind (get_elem? items i) usage_set_of

abbrev pub new_usage_values_items : List DataItem → Map UsageValues
new_usage_values_items items i = Option.bind (get_elem? items i) usage_values_of

abbrev pub insert_all : Map ItemAddress → List ℕ → ItemAddress → Map ItemAddress
insert_all m [] a = m
insert_all m (u ∷ us) a = insert_all (insert m u a) us a

abbrev pub add_ids : ℕ → List ℕ → ItemAddress → Layout → Layout
add_ids p ids a l = record l {
  usage_set_map = λ q. if q == p then insert_all (l.usage_set_map p) ids a else l.usage_set_map q;
}

abbrev pub add_range : ℕ → ℕ → ℕ → ItemAddress → DataItem → Layout → Layout
add_range p minimum maximum a d l = record l {
  usage_set_ranges = λ q.
      if q == p
      then l.usage_set_ranges p
        ++ (record { start = minimum; last = maximum; addr = a; report_size = d.report_size } ∷ [])
      else l.usage_set_ranges q;
}

-- The first inner loop, over the usage sets.
abbrev pub index_set : ItemAddress → DataItem → Option AnyUsageSet → Layout → Layout
index_set a d none l = l
index_set a d (some (flag_map s)) l = add_ids s.usage_page s.usage_ids a l
index_set a d (some (range_flags s)) l = add_range s.usage_page s.minimum s.maximum a d l
index_set a d (some (selector s)) l = add_range s.usage_page s.minimum s.maximum a d l

abbrev pub index_sets : ℕ → ℕ → List DataItem → Layout → Layout
index_sets id i [] l = l
index_sets id i (d ∷ ds) l =
    index_sets id (suc i) ds
      (index_set (record { report_id = id; item_idx = i }) d (usage_set_of d) l)

-- The second inner loop, over the usage values.
abbrev pub index_value : ItemAddress → Option UsageValues → Layout → Layout
index_value a none l = l
index_value a (some v) l = record l {
  usage_values_index = insert_all l.usage_values_index v.usages a;
}

abbrev pub index_values : ℕ → ℕ → List DataItem → Layout → Layout
index_values id i [] l = l
index_values id i (d ∷ ds) l =
    index_values id (suc i) ds
      (index_value (record { report_id = id; item_idx = i }) (usage_values_of d) l)

-- The comparison of `slices.SortFunc`, as a test that the first range comes before the second.
abbrev pub before : UsageRange → UsageRange → Bool
before a b =
    if ltb a.report_size b.report_size
    then true
    else if ltb b.report_size a.report_size
    then false
    else ltb a.start b.start

abbrev pub insert_sorted : UsageRange → List UsageRange → List UsageRange
insert_sorted r [] = r ∷ []
insert_sorted r (x ∷ xs) = if before x r then x ∷ insert_sorted r xs else r ∷ x ∷ xs

abbrev pub sort_ranges : List UsageRange → List UsageRange
sort_ranges [] = []
sort_ranges (x ∷ xs) = insert_sorted x (sort_ranges xs)

abbrev pub init_report : DataItemSet → Layout → List ℕ → Layout
init_report items l [] = l
init_report items l (id ∷ ids) =
    let ds = report items id in
    init_report items
      (index_values id 0 ds (
        index_sets id 0 ds (record l {
          usage_sets = λ j. if j == id then new_usage_sets ds else l.usage_sets j;
          usage_values = λ j. if j == id then new_usage_values_items ds else l.usage_values j;
        })))
      ids

abbrev pub empty_layout : DataItemSet → Layout
empty_layout items = record {
  data_items = items;
  usage_sets = λ id. empty_map;
  usage_values = λ id. empty_map;
  usage_set_ranges = λ p. [];
  usage_set_map = λ p. empty_map;
  usage_values_index = empty_map;
}

abbrev pub sort_all : Layout → Layout
sort_all l = record l { usage_set_ranges = λ p. sort_ranges (l.usage_set_ranges p) }

unfoldable pub new_layout : DataItemSet → Layout
unfolding usage_set_of usage_values_of
new_layout items = sort_all (init_report items (empty_layout items) items.report_ids)

-- The size of a field of zeros is a product of two uint32 numbers.
abbrev pub zero_fields : List DataItem → List Bits
zero_fields ds = map (λ d. new_zeros (u32 (d.report_count * d.report_size))) ds

unfoldable pub new_report_state : DataItemSet → ReportState
unfolding new_zeros
new_report_state items = record {
  reports =
      λ id. Option.map (λ ds. record { id = id; fields = zero_fields ds }) (items.data_items id);
  usage_activations = λ id u. 0;
}
