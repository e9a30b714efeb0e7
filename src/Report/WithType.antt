-- ===== src/Report/WithType.antt =====
-- hidapi/data_items.go: `WithType` keeps the items of one type, report by report.
use neio_agent.Prelude.{
  ℕ, suc, ◌≡◌, refl, sym, ap, ◌∙◌, true, false, List, [], ◌∷◌, ◌++◌, if◌then◌else◌, ◌==◌, is_some,
  arith, Option-cases, Bool-cases, inl, inr, member, IsDistinct, ==_iff, ==_of_eq, append_assoc,
  append-nil,
}
use neio_agent.HidDesc.{MainItemType, DataItem, ReportDescriptor}
use neio_agent.Report.DataItems.{
  DataItemSet, new_set, report, types_or_nil, items_or_nil, add, new_data_item_set, with_id,
  with_id-append, report-add,
}
use neio_agent.Report.Types.{same_type, type_at, reports_of, pick_items, pick_reports, with_type}
use neio_agent.Report.Typed.{
  TypedItem, typed_all, in_report, of_type, pair_from, typed_report, Represents,
  new_data_item_set-Represents,
}

report-pick_items :
    (s : DataItemSet) (t : MainItemType) (id i : ℕ) (ds : List DataItem) (set : DataItemSet) (k : ℕ)
    → report (pick_items s t id i ds set) k
      ≡ report set k ++ with_id k (of_type t (pair_from (types_or_nil (s.types id)) i ds))
report-pick_items s t id i [] set k = sym (append-nil _)
report-pick_items s t id i (d ∷ ds) set k = elim (Bool-cases (same_type (type_at s id i) t)) [
  | inl same ↦
      let rest = of_type t (pair_from (types_or_nil (s.types id)) (suc i) ds) in
      ap (λ b. report (pick_items s t id (suc i) ds (if b then add set t d else set)) k) same
      ∙ report-pick_items s t id (suc i) ds (add set t d) k
      ∙ ap (λ l. l ++ with_id k rest) (report-add set t d k)
      ∙ append_assoc (report set k) (with_id k (d ∷ [])) (with_id k rest)
      ∙ ap (λ l. report set k ++ l) (sym (with_id-append k (d ∷ []) rest))
      ∙ sym (ap (λ b. report set k ++ with_id k (if b then d ∷ rest else rest)) same)
  | inr other ↦
      let rest = of_type t (pair_from (types_or_nil (s.types id)) (suc i) ds) in
      ap (λ b. report (pick_items s t id (suc i) ds (if b then add set t d else set)) k) other
      ∙ report-pick_items s t id (suc i) ds set k
      ∙ sym (ap (λ b. report set k ++ with_id k (if b then d ∷ rest else rest)) other)
]

-- The items of a report have its id.
with_id-in_report :
    (k id : ℕ) (t : MainItemType) (xs : List TypedItem)
    → with_id k (of_type t (in_report id xs))
      ≡ (if id == k then of_type t (in_report id xs) else [])
with_id-in_report k id t [] = ground arith
with_id-in_report k id t ((u, d) ∷ xs) = elim (Bool-cases (d.report_id == id)) [
  | inl here ↦ elim (Bool-cases (same_type u t)) [
    | inl same ↦
        let is : d.report_id ≡ id = (==_iff _ _).0 here in
        let key : (d.report_id == k) ≡ (id == k) = ap (λ j. j == k) is in
        rw (here, same) (rw (key, with_id-in_report k id t xs) (ground arith))
    | inr other ↦ rw (here, other) (with_id-in_report k id t xs)
  ]
  | inr elsewhere ↦ rw elsewhere (with_id-in_report k id t xs)
]

module _ (s : DataItemSet) (xs : List TypedItem) (r : Represents s xs) (t : MainItemType) where
  report-pick_reports :
      (ids : List ℕ) (set : DataItemSet) (k : ℕ)
      → IsDistinct ids
      → report (pick_reports s t (reports_of s ids) set) k
        ≡ report set k ++ (if member k ids then of_type t (in_report k xs) else [])
  report-pick_reports [] set k d = sym (append-nil _)
  report-pick_reports (id ∷ ids) set k d =
      let one : report (pick_items s t id 0 (report s id) set) k
          ≡ report set k ++ (if id == k then of_type t (in_report id xs) else []) =
        report-pick_items s t id 0 (report s id) set k
        ∙ ap (λ l. report set k ++ l)
            (ap (λ l. with_id k (of_type t l)) (r.typed_same id) ∙ with_id-in_report k id t xs) in
      let rest = report-pick_reports ids (pick_items s t id 0 (report s id) set) k d.1 in
      elim (Bool-cases (k == id)) [
        | inl same ↦
            let is : k ≡ id = (==_iff k id).0 same in
            let absent : member k ids ≡ false = ap (λ j. member j ids) is ∙ d.0 in
            let back : (id == k) ≡ true = ==_of_eq (sym is) in
            rest
            ∙ rw (same, absent)
                (append-nil _
                  ∙ one
                  ∙ rw back (ap (λ j. report set k ++ of_type t (in_report j xs)) (sym is)))
        | inr other ↦
            let apart : (id == k) ≡ false = ground (arith, other) in
            let alone : report (pick_items s t id 0 (report s id) set) k ≡ report set k =
              one ∙ rw apart (append-nil _) in
            rest
            ∙ rw other
                (ap (λ l. l ++ (if member k ids then of_type t (in_report k xs) else [])) alone)
      ]

no_items : (s : DataItemSet) (id : ℕ) → is_some (s.data_items id) ≡ false → typed_report s id ≡ []
no_items s id h = elim (Option-cases (s.data_items id)) [
  | inl e ↦ ap (λ o. pair_from (types_or_nil (s.types id)) 0 (items_or_nil o)) e
  | inr (items, e) ↦ absurd (ground (arith, h, e))
]

-- The data items that `WithType` leaves in a report are the descriptor's items with that report id and
-- of that type, in the order in which the descriptor has them, depth first.
pub report-with_type :
    (desc : ReportDescriptor) (t : MainItemType) (id : ℕ)
    → report (with_type (new_data_item_set desc) t) id ≡ of_type t (in_report id (typed_all desc))
unfolding with_type
report-with_type desc t id =
    let r = new_data_item_set-Represents desc in
    report-pick_reports (new_data_item_set desc) (typed_all desc) r t
      (new_data_item_set desc).report_ids new_set id r.distinct
    ∙ elim (Bool-cases (member id (new_data_item_set desc).report_ids)) [
      | inl listed ↦ rw listed refl
      | inr absent ↦
          let missing = no_items (new_data_item_set desc) id (r.known id ∙ absent) in
          rw absent (sym (ap (of_type t) (sym (r.typed_same id) ∙ missing)))
    ]
