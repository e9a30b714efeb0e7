-- ===== src/Report/Types.antt =====
-- hidapi/data_items.go: the types of the items, and the part of a set that has one type.
use neio_agent.Prelude.{ℕ, suc, Bool, true, false, Option, none, some, List, [], ◌∷◌, if◌then◌else◌}
use neio_agent.HidDesc.{MainItemType, input, output, feature, DataItem}
use neio_agent.Report.DataItems.{DataItemSet, new_set, report, types_or_nil, add}

abbrev pub same_type : MainItemType → MainItemType → Bool
same_type input input = true
same_type output output = true
same_type feature feature = true
same_type _ _ = false

-- A missing key reads as the zero value, which is the type of input items.
abbrev pub type_or_input : Option MainItemType → MainItemType
type_or_input none = input
type_or_input (some t) = t

abbrev pub type_at : DataItemSet → ℕ → ℕ → MainItemType
type_at s id i = type_or_input (types_or_nil (s.types id) i)

-- `Reports`: the report ids with their data items, in the order of their first items.
pub record DataItemSetReport : Type 0 where
  pub id : ℕ
  pub items : List DataItem

abbrev pub reports_of : DataItemSet → List ℕ → List DataItemSetReport
reports_of s [] = []
reports_of s (id ∷ ids) = record { id = id; items = report s id } ∷ reports_of s ids

abbrev pub reports : DataItemSet → List DataItemSetReport
reports s = reports_of s s.report_ids

-- The two loops of `WithType`: over the items of a report from the place `i` on, and over the reports.
abbrev pub pick_items :
    DataItemSet → MainItemType → ℕ → ℕ → List DataItem → DataItemSet → DataItemSet
pick_items s t id i [] set = set
pick_items s t id i (d ∷ ds) set =
    pick_items s t id (suc i) ds (if same_type (type_at s id i) t then add set t d else set)

abbrev pub pick_reports :
    DataItemSet → MainItemType → List DataItemSetReport → DataItemSet → DataItemSet
pick_reports s t [] set = set
pick_reports s t (r ∷ rs) set = pick_reports s t rs (pick_items s t r.id 0 r.items set)

unfoldable pub with_type : DataItemSet → MainItemType → DataItemSet
with_type s t = pick_reports s t (reports s) new_set
