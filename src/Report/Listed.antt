-- ===== src/Report/Listed.antt =====
-- hidapi/data_items.go: `reportIDs` lists the report id of every data item.
use neio_agent.Prelude.{
  ℕ, ◌≡◌, ◌≢◌, refl, sym, ap, ◌∙◌, true, Option, none, some, List, [], ◌∷◌, ◌==◌, is_some, arith,
  Option-cases, Bool-cases, inl, inr, member, member-append, All, ==_iff, ==_refl,
}
use neio_agent.HidDesc.{
  MainItemType, DataItem, Collection, collection, Items, nil, cons, MainItem, item, nested,
  ReportDescriptor,
}
use neio_agent.Report.DataItems.{
  DataItemSet, new_set, add, add_new, drill, drill_items, drill_item, drill_all, new_data_item_set,
  flat_all, with_id, items_or_nil, report-new_data_item_set,
}

-- The list of the report ids has every id that has data items.
abbrev Lists : DataItemSet → Type 0
Lists s = (u : ℕ) → is_some (s.data_items u) ≡ true → member u s.report_ids ≡ true

add_new-Lists :
    (o : Option (List DataItem)) (s : DataItemSet) (t : MainItemType) (d : DataItem)
    → s.data_items d.report_id ≡ o
    → Lists s
    → Lists (add_new o s t d)
add_new-Lists none s t d h lists u q =
    ground (arith, q, lists u, member-append u s.report_ids (d.report_id ∷ []))
add_new-Lists (some items) s t d h lists u q = elim (Bool-cases (u == d.report_id)) [
  | inl same ↦
      let is : u ≡ d.report_id = (==_iff u d.report_id).0 same in
      lists u (ap (λ v. is_some (s.data_items v)) is ∙ ap is_some h)
  | inr other ↦ lists u (sym (rw other refl) ∙ q)
]

mutual
  unfolding drill drill_items drill_item add

  drill-Lists : (c : Collection) (s : DataItemSet) → Lists s → Lists (drill c s)
  drill-Lists (collection t p u items) s h = drill_items-Lists items s h

  drill_items-Lists : (xs : Items) (s : DataItemSet) → Lists s → Lists (drill_items xs s)
  drill_items-Lists nil s h = h
  drill_items-Lists (cons x xs) s h = drill_items-Lists xs (drill_item x s) (drill_item-Lists x s h)

  drill_item-Lists : (x : MainItem) (s : DataItemSet) → Lists s → Lists (drill_item x s)
  drill_item-Lists (item t d) s h = add_new-Lists (s.data_items d.report_id) s t d refl h
  drill_item-Lists (nested c) s h = drill-Lists c s h

drill_all-Lists : (cs : List Collection) (s : DataItemSet) → Lists s → Lists (drill_all cs s)
unfolding drill_all
drill_all-Lists [] s h = h
drill_all-Lists (c ∷ cs) s h = drill_all-Lists cs (drill c s) (drill-Lists c s h)

abbrev pub ids : ReportDescriptor → List ℕ
ids desc = (new_data_item_set desc).report_ids

All-with_id :
    (P : ℕ → Type 0) (ds : List DataItem)
    → ((id : ℕ) → with_id id ds ≢ [] → P id)
    → All (λ d. P d.report_id) ds
All-with_id P [] h = tt
All-with_id P (x ∷ xs) h = (
  h x.report_id (λ q. ground (arith, q, ==_refl x.report_id)),
  All-with_id P xs (λ id ne. h id (λ q. elim (Bool-cases (x.report_id == id)) [
    | inl same ↦ ground (arith, q, same)
    | inr other ↦ ne (sym (rw other refl) ∙ q)
  ])),
)

-- Each data item of a descriptor has one of its report ids.
pub All-ids :
    (desc : ReportDescriptor) → All (λ d. member d.report_id (ids desc) ≡ true) (flat_all desc)
unfolding new_data_item_set
All-ids desc =
    All-with_id (λ id. member id (ids desc) ≡ true) (flat_all desc)
      (λ id ne. elim (Option-cases ((new_data_item_set desc).data_items id)) [
        | inl h ↦ absurd (ne (sym (report-new_data_item_set desc id) ∙ ap items_or_nil h))
        | inr (items, h) ↦ drill_all-Lists desc new_set (λ u q. ground (arith, q)) id (ap is_some h)
      ])
