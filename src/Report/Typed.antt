-- ===== src/Report/Typed.antt =====
-- hidapi/data_items.go: what `WithType` leaves of a descriptor.
use neio_agent.Prelude.{
  IsDistinct, ==_of_eq, ℕ, suc, ◌+◌, ◌≤◌, ◌≡◌, refl, sym, ap, ◌∙◌, false, Option, none, some, List,
  [], ◌∷◌, ◌++◌, if◌then◌else◌, ◌==◌, length, is_some, Map, insert, arith, Bool-cases, inl, inr,
  member, member-append, ==_iff, ==_refl, append_assoc, append-nil, length-append,
}
use mathlib.Core.Path.{subst}
use neio_agent.HidDesc.{
  MainItemType, DataItem, Collection, collection, Items, nil, cons, MainItem, item, nested,
  ReportDescriptor,
}
use neio_agent.Report.DataItems.{
  DataItemSet, new_set, report, types_or_nil, add, add_new, drill, drill_items, drill_item,
  drill_all, new_data_item_set,
}
use neio_agent.Report.Types.{same_type, type_or_input}

abbrev pub TypedItem : Type 0
TypedItem = MainItemType × DataItem

-- The items of a descriptor with their types, depth first.
unfoldable mutual
  pub typed : Collection → List TypedItem
  typed (collection t p u items) = typed_items items

  pub typed_items : Items → List TypedItem
  typed_items nil = []
  typed_items (cons x xs) = typed_item x ++ typed_items xs

  pub typed_item : MainItem → List TypedItem
  typed_item (item t d) = (t, d) ∷ []
  typed_item (nested c) = typed c

abbrev pub typed_all : List Collection → List TypedItem
typed_all [] = []
typed_all (c ∷ cs) = typed c ++ typed_all cs

-- Those of a report, and the data items of a type.
abbrev pub in_report : ℕ → List TypedItem → List TypedItem
in_report id [] = []
in_report id ((t, d) ∷ xs) = if d.report_id == id then (t, d) ∷ in_report id xs else in_report id xs

abbrev pub of_type : MainItemType → List TypedItem → List DataItem
of_type t [] = []
of_type t ((k, d) ∷ xs) = if same_type k t then d ∷ of_type t xs else of_type t xs

in_report-append :
    (id : ℕ) (xs ys : List TypedItem) → in_report id (xs ++ ys) ≡ in_report id xs ++ in_report id ys
in_report-append id [] ys = refl
in_report-append id ((t, d) ∷ xs) ys = elim (Bool-cases (d.report_id == id)) [
  | inl h ↦ rw h (ap (λ l. (t, d) ∷ l) (in_report-append id xs ys))
  | inr h ↦ rw h (in_report-append id xs ys)
]

-- The items of a report of a set with the types of their places, from the place `i` on.
abbrev pub pair_from : Map MainItemType → ℕ → List DataItem → List TypedItem
pair_from m i [] = []
pair_from m i (d ∷ ds) = (type_or_input (m i), d) ∷ pair_from m (suc i) ds

abbrev pub typed_report : DataItemSet → ℕ → List TypedItem
typed_report s id = pair_from (types_or_nil (s.types id)) 0 (report s id)

pair_from-insert :
    (m : Map MainItemType) (i k : ℕ) (t : MainItemType) (ds : List DataItem)
    → i + length ds ≤ k
    → pair_from (insert m k t) i ds ≡ pair_from m i ds
pair_from-insert m i k t [] le = refl
pair_from-insert m i k t (d ∷ ds) le =
    let apart : (i == k) ≡ false = ground (arith, le) in
    rw apart
      (ap (λ l. (type_or_input (m i), d) ∷ l) (pair_from-insert m (suc i) k t ds (omega arith)))

pair_from-append_one :
    (m : Map MainItemType) (i : ℕ) (t : MainItemType) (ds : List DataItem) (d : DataItem)
    → pair_from (insert m (i + length ds) t) i (ds ++ (d ∷ [])) ≡ pair_from m i ds ++ ((t, d) ∷ [])
pair_from-append_one m i t [] d = rw (==_of_eq {a = i} {b = i + 0} (omega arith)) refl
pair_from-append_one m i t (x ∷ ds) d =
    let apart : (i == i + suc (length ds)) ≡ false = ground arith in
    rw apart (
      ap (λ l. (type_or_input (m i), x) ∷ l)
        (ap (λ k. pair_from (insert m k t) (suc i) (ds ++ (d ∷ []))) (omega arith)
          ∙ pair_from-append_one m (suc i) t ds d))

IsDistinct-append_one :
    (us : List ℕ) (u : ℕ) → member u us ≡ false → IsDistinct us → IsDistinct (us ++ (u ∷ []))
IsDistinct-append_one [] u h d = (refl, tt)
IsDistinct-append_one (v ∷ us) u h d = (
  ground (arith, h, d.0, member-append v us (u ∷ []), ==_iff v u, ==_refl v),
  IsDistinct-append_one us u (ground (arith, h)) d.1,
)

-- The set has the items of the list, by report, with their types.
pub record Represents (s : DataItemSet) (xs : List TypedItem) : Type 0 where
  pub typed_same : (id : ℕ) → typed_report s id ≡ in_report id xs
  pub known : (id : ℕ) → is_some (s.data_items id) ≡ member id s.report_ids
  pub distinct : IsDistinct s.report_ids

typed_report-add_new :
    (o : Option (List DataItem)) (s : DataItemSet) (t : MainItemType) (d : DataItem) (id : ℕ)
    → s.data_items d.report_id ≡ o
    → typed_report (add_new o s t d) id ≡ typed_report s id ++ in_report id ((t, d) ∷ [])
typed_report-add_new o s t d id h = elim (Bool-cases (id == d.report_id)) [
  | inl same ↦ let p : id ≡ d.report_id = (==_iff _ _).0 same in rw p (same_id o h)
  | inr other ↦
      let q : (d.report_id == id) ≡ false = ground arith in
      rw q (other_id o other ∙ sym (append-nil _))
]
  where
    same_id :
        (o : Option (List DataItem))
        → s.data_items d.report_id ≡ o
        → typed_report (add_new o s t d) d.report_id
          ≡ typed_report s d.report_id ++ in_report d.report_id ((t, d) ∷ [])
    same_id none h = rw (h, ==_refl d.report_id) refl
    same_id (some items) h =
        rw (h, ==_refl d.report_id)
          (ap
              (λ k.
                pair_from (insert (types_or_nil (s.types d.report_id)) k t) 0 (items ++ (d ∷ [])))
              (omega (arith, length-append items (d ∷ [])))
            ∙ pair_from-append_one (types_or_nil (s.types d.report_id)) 0 t items d)

    other_id :
        (o : Option (List DataItem))
        → (id == d.report_id) ≡ false
        → typed_report (add_new o s t d) id ≡ typed_report s id
    other_id none e = rw e refl
    other_id (some items) e = rw e refl

add_new-Represents :
    (o : Option (List DataItem)) (s : DataItemSet) (t : MainItemType) (d : DataItem)
    (xs : List TypedItem)
    → s.data_items d.report_id ≡ o
    → Represents s xs
    → Represents (add_new o s t d) (xs ++ ((t, d) ∷ []))
add_new-Represents o s t d xs h r = record {
  typed_same = λ id.
      typed_report-add_new o s t d id h
      ∙ ap (λ l. l ++ in_report id ((t, d) ∷ [])) (r.typed_same id)
      ∙ sym (in_report-append id xs ((t, d) ∷ []));
  known = λ id. known_in o h id;
  distinct = distinct_in o h;
}
  where
    known_in :
        (o : Option (List DataItem))
        → s.data_items d.report_id ≡ o
        → (id : ℕ)
        → is_some ((add_new o s t d).data_items id) ≡ member id (add_new o s t d).report_ids
    known_in none h id =
        ground (arith, r.known id, member-append id s.report_ids (d.report_id ∷ []))
    known_in (some items) h id = elim (Bool-cases (id == d.report_id)) [
      | inl same ↦
          let is : id ≡ d.report_id = (==_iff _ _).0 same in
          rw same (sym (ap (λ v. is_some (s.data_items v)) is ∙ ap is_some h) ∙ r.known id)
      | inr other ↦ rw other (r.known id)
    ]

    distinct_in :
        (o : Option (List DataItem))
        → s.data_items d.report_id ≡ o
        → IsDistinct (add_new o s t d).report_ids
    distinct_in none h =
        IsDistinct-append_one s.report_ids d.report_id (sym (r.known d.report_id) ∙ ap is_some h)
          r.distinct
    distinct_in (some items) h = r.distinct

mutual
  unfolding drill drill_items drill_item typed typed_items typed_item add

  drill-Represents :
      (c : Collection) (s : DataItemSet) (xs : List TypedItem)
      → Represents s xs
      → Represents (drill c s) (xs ++ typed c)
  drill-Represents (collection t p u items) s xs r = drill_items-Represents items s xs r

  drill_items-Represents :
      (is : Items) (s : DataItemSet) (xs : List TypedItem)
      → Represents s xs
      → Represents (drill_items is s) (xs ++ typed_items is)
  drill_items-Represents nil s xs r = rw (append-nil xs) r
  drill_items-Represents (cons i is) s xs r =
      subst (Represents (drill_items is (drill_item i s)))
        (append_assoc xs (typed_item i) (typed_items is))
        (drill_items-Represents is (drill_item i s) (xs ++ typed_item i)
          (drill_item-Represents i s xs r))

  drill_item-Represents :
      (i : MainItem) (s : DataItemSet) (xs : List TypedItem)
      → Represents s xs
      → Represents (drill_item i s) (xs ++ typed_item i)
  drill_item-Represents (item t d) s xs r =
      add_new-Represents (s.data_items d.report_id) s t d xs refl r
  drill_item-Represents (nested c) s xs r = drill-Represents c s xs r

drill_all-Represents :
    (cs : List Collection) (s : DataItemSet) (xs : List TypedItem)
    → Represents s xs
    → Represents (drill_all cs s) (xs ++ typed_all cs)
unfolding drill_all
drill_all-Represents [] s xs r = rw (append-nil xs) r
drill_all-Represents (c ∷ cs) s xs r =
    subst (Represents (drill_all cs (drill c s))) (append_assoc xs (typed c) (typed_all cs))
      (drill_all-Represents cs (drill c s) (xs ++ typed c) (drill-Represents c s xs r))

pub new_data_item_set-Represents :
    (desc : ReportDescriptor) → Represents (new_data_item_set desc) (typed_all desc)
unfolding new_data_item_set
new_data_item_set-Represents desc =
    drill_all-Represents desc new_set []
      (record { typed_same = λ id. refl; known = λ id. refl; distinct = tt })
