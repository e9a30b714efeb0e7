-- ===== src/Report/DataItems.antt =====
-- hidapi/data_items.go: the data items of a descriptor, by report id.
use neio_agent.Prelude.{
  ℕ, ◌-◌, ◌≡◌, refl, sym, ap, ◌∙◌, Bool, true, false, Option, none, some, List, [], ◌∷◌, ◌++◌,
  if◌then◌else◌, ◌==◌, length, Map, empty_map, insert, arith, append_assoc, Bool-cases, inl, inr,
  ==_iff, ==_of_eq, ==_refl, append-nil,
}
use neio_agent.HidDesc.{
  MainItemType, DataItem, Collection, collection, Items, nil, cons, MainItem, item, nested,
  ReportDescriptor,
}

pub record DataItemSet : Type 0 where
  pub report_ids : List ℕ
  pub data_items : Map (List DataItem)
  pub types : Map (Map MainItemType)

abbrev pub new_set : DataItemSet
new_set = record { report_ids = []; data_items = empty_map; types = empty_map }

-- A nil slice and an empty map for a missing key.
abbrev pub items_or_nil : Option (List DataItem) → List DataItem
items_or_nil none = []
items_or_nil (some items) = items

abbrev pub types_or_nil : Option (Map MainItemType) → Map MainItemType
types_or_nil none = empty_map
types_or_nil (some types) = types

abbrev pub report : DataItemSet → ℕ → List DataItem
report s id = items_or_nil (s.data_items id)

-- `make` in the first case, and the two appends in both.
abbrev pub add_new : Option (List DataItem) → DataItemSet → MainItemType → DataItem → DataItemSet
add_new none s t d = record {
  report_ids = s.report_ids ++ (d.report_id ∷ []);
  data_items = insert s.data_items d.report_id (d ∷ []);
  types = insert s.types d.report_id (insert empty_map 0 t);
}
add_new (some items) s t d = record s {
  data_items = insert s.data_items d.report_id (items ++ (d ∷ []));
  types =
      insert s.types d.report_id
        (insert (types_or_nil (s.types d.report_id)) (length (items ++ (d ∷ [])) - 1) t);
}

unfoldable pub add : DataItemSet → MainItemType → DataItem → DataItemSet
add s t d = add_new (s.data_items d.report_id) s t d

-- `drill` over the items of a collection, depth first.
unfoldable mutual
  pub drill : Collection → DataItemSet → DataItemSet
  drill (collection t p u items) s = drill_items items s

  pub drill_items : Items → DataItemSet → DataItemSet
  drill_items nil s = s
  drill_items (cons x xs) s = drill_items xs (drill_item x s)

  pub drill_item : MainItem → DataItemSet → DataItemSet
  drill_item (item t d) s = add s t d
  drill_item (nested c) s = drill c s

unfoldable pub drill_all : List Collection → DataItemSet → DataItemSet
drill_all [] s = s
drill_all (c ∷ cs) s = drill_all cs (drill c s)

unfoldable pub new_data_item_set : ReportDescriptor → DataItemSet
unfolding drill_all
new_data_item_set desc = drill_all desc new_set

-- `_, hasReportIDZero := s.dataItems[0]; return !hasReportIDZero`
abbrev pub is_missing {ℓ} : {A : Type ℓ} → Option A → Bool
is_missing none = true
is_missing (some a) = false

abbrev pub has_report_id : DataItemSet → Bool
has_report_id s = is_missing (s.data_items 0)

-- What the set holds, as one list: the data items of a descriptor, depth first.
unfoldable mutual
  pub flat : Collection → List DataItem
  flat (collection t p u items) = flat_items items

  pub flat_items : Items → List DataItem
  flat_items nil = []
  flat_items (cons x xs) = flat_item x ++ flat_items xs

  pub flat_item : MainItem → List DataItem
  flat_item (item t d) = d ∷ []
  flat_item (nested c) = flat c

abbrev pub flat_all : List Collection → List DataItem
flat_all [] = []
flat_all (c ∷ cs) = flat c ++ flat_all cs

abbrev pub with_id : ℕ → List DataItem → List DataItem
with_id id [] = []
with_id id (d ∷ ds) = if d.report_id == id then d ∷ with_id id ds else with_id id ds

pub with_id-append :
    (id : ℕ) (xs ys : List DataItem) → with_id id (xs ++ ys) ≡ with_id id xs ++ with_id id ys
with_id-append id [] ys = refl
with_id-append id (x ∷ xs) ys = elim (Bool-cases (x.report_id == id)) [
  | inl h ↦ rw h (ap (λ l. x ∷ l) (with_id-append id xs ys))
  | inr h ↦ rw h (with_id-append id xs ys)
]

report-add_new :
    (o : Option (List DataItem)) (s : DataItemSet) (t : MainItemType) (d : DataItem) (id : ℕ)
    → s.data_items d.report_id ≡ o
    → report (add_new o s t d) id ≡ report s id ++ with_id id (d ∷ [])
report-add_new o s t d id h = elim (Bool-cases (id == d.report_id)) [
  | inl same ↦
      let p : id ≡ d.report_id = (==_iff _ _).0 same in
      let q : (d.report_id == id) ≡ true = ==_of_eq (sym p) in rw p (same_id o h)
  | inr other ↦
      let q : (d.report_id == id) ≡ false = ground arith in
      rw q (other_id o other ∙ sym (append-nil _))
]
  where
    same_id :
        (o : Option (List DataItem))
        → s.data_items d.report_id ≡ o
        → report (add_new o s t d) d.report_id
          ≡ report s d.report_id ++ with_id d.report_id (d ∷ [])
    same_id none h = rw (h, ==_refl d.report_id) refl
    same_id (some items) h = rw (h, ==_refl d.report_id) refl

    other_id :
        (o : Option (List DataItem))
        → (id == d.report_id) ≡ false
        → report (add_new o s t d) id ≡ report s id
    other_id none e = rw e refl
    other_id (some items) e = rw e refl

pub report-add :
    (s : DataItemSet) (t : MainItemType) (d : DataItem) (id : ℕ)
    → report (add s t d) id ≡ report s id ++ with_id id (d ∷ [])
unfolding add
report-add s t d id = report-add_new (s.data_items d.report_id) s t d id refl

mutual
  unfolding drill drill_items drill_item flat flat_items flat_item

  report-drill :
      (c : Collection) (s : DataItemSet) (id : ℕ)
      → report (drill c s) id ≡ report s id ++ with_id id (flat c)
  report-drill (collection t p u items) s id = report-drill_items items s id

  report-drill_items :
      (xs : Items) (s : DataItemSet) (id : ℕ)
      → report (drill_items xs s) id ≡ report s id ++ with_id id (flat_items xs)
  report-drill_items nil s id = sym (append-nil _)
  report-drill_items (cons x xs) s id =
      report-drill_items xs (drill_item x s) id
      ∙ ap (λ l. l ++ with_id id (flat_items xs)) (report-drill_item x s id)
      ∙ append_assoc (report s id) (with_id id (flat_item x)) (with_id id (flat_items xs))
      ∙ ap (λ l. report s id ++ l) (sym (with_id-append id (flat_item x) (flat_items xs)))

  report-drill_item :
      (x : MainItem) (s : DataItemSet) (id : ℕ)
      → report (drill_item x s) id ≡ report s id ++ with_id id (flat_item x)
  report-drill_item (item t d) s id = report-add s t d id
  report-drill_item (nested c) s id = report-drill c s id

report-drill_all :
    (cs : List Collection) (s : DataItemSet) (id : ℕ)
    → report (drill_all cs s) id ≡ report s id ++ with_id id (flat_all cs)
unfolding drill_all
report-drill_all [] s id = sym (append-nil _)
report-drill_all (c ∷ cs) s id =
    report-drill_all cs (drill c s) id
    ∙ ap (λ l. l ++ with_id id (flat_all cs)) (report-drill c s id)
    ∙ append_assoc (report s id) (with_id id (flat c)) (with_id id (flat_all cs))
    ∙ ap (λ l. report s id ++ l) (sym (with_id-append id (flat c) (flat_all cs)))

-- The data items of a report are the descriptor's items with that report id, in the order in which
-- the descriptor has them, depth first.
pub report-new_data_item_set :
    (desc : ReportDescriptor) (id : ℕ)
    → report (new_data_item_set desc) id ≡ with_id id (flat_all desc)
unfolding new_data_item_set
report-new_data_item_set desc id = report-drill_all desc new_set id
