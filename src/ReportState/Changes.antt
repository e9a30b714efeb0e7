-- ===== src/ReportState/Changes.antt =====
-- hidapi/state.go: a write through the slices of one field, in the state.
use neio_agent.Prelude.{
  ℕ, zero, suc, ◌≡◌, refl, sym, ap, ◌∙◌, true, Option, some, List, [], ◌∷◌, if◌then◌else◌, ltb,
  ◌==◌, arith, Bool-cases, Option-cases, inl, inr, All, length, length-set, set, get_elem?,
  get_elem?-set, get_elem?-bound, insert, ==_iff, lt→ltb,
}
use mathlib.Core.Option
use neio_agent.Bits.{Bits, IsValid}
use neio_agent.Report.{Report}
use neio_agent.ReportState.{ItemAddress, same_address, ReportState, field_at, change_field}
use neio_agent.ReportState.Laws.{SameSize}

-- Each report has its id, as many fields as its data items, and well-formed fields.
abbrev pub IsSound : (ℕ → ℕ) → ReportState → Type 0
IsSound items r =
    (i : ℕ) (rep : Report)
    → r.reports i ≡ some rep
    → (rep.id ≡ i) × (length rep.fields ≡ items i) × All IsValid rep.fields

-- The state after a write of `c` to a field, which is all that changes.
pub record Changes (r : ReportState) (a : ItemAddress) (c : Bits) (r' : ReportState) : Type 0 where
  pub fields :
      (a' : ItemAddress) → field_at r' a' ≡ (if same_address a' a then some c else field_at r a')
  pub sound : (items : ℕ → ℕ) → IsSound items r → IsSound items r'
  pub kept :
      (i : ℕ) (rep : Report) → r.reports i ≡ some rep → (rep' : Report) × (r'.reports i ≡ some rep')

pub All-get_elem? {ℓ κ} :
    {A : Type ℓ} (P : A → Type κ) (xs : List A) (i : ℕ) (x : A)
    → get_elem? xs i ≡ some x
    → All P xs
    → P x
All-get_elem? P [] i x h all = absurd (ground arith)
All-get_elem? P (y ∷ xs) zero x h all = rw (← (Option.some_inj.0 h)) all.0
All-get_elem? P (y ∷ xs) (suc i) x h all = All-get_elem? P xs i x h all.1

All-set {ℓ κ} :
    {A : Type ℓ} (P : A → Type κ) (xs : List A) (i : ℕ) (x : A)
    → P x
    → All P xs
    → All P (set xs i x)
All-set P [] i x px all = tt
All-set P (y ∷ xs) zero x px all = (px, all.1)
All-set P (y ∷ xs) (suc i) x px all = (all.0, All-set P xs i x px all.1)

pub field_at-eq-some :
    (r : ReportState) (a : ItemAddress) (b : Bits)
    → field_at r a ≡ some b
    → (rep : Report) × (r.reports a.report_id ≡ some rep)
      × (get_elem? rep.fields a.item_idx ≡ some b)
unfolding Option.bind
field_at-eq-some r a b h = elim (Option-cases (r.reports a.report_id)) [
  | inl missing ↦ absurd (ground arith)
  | inr (rep, e) ↦ (rep, e, rw e at h)
]

module _ (r : ReportState) (a : ItemAddress) (rep : Report) (b c : Bits)
    (held : r.reports a.report_id ≡ some rep)
    (stands : get_elem? rep.fields a.item_idx ≡ some b) where
  abbrev rewritten : Report
  rewritten = record rep { fields = set rep.fields a.item_idx c }

  abbrev changed : ReportState
  changed = record r { reports = insert r.reports a.report_id rewritten }

  changed-field_at :
      (a' : ItemAddress)
      → field_at changed a' ≡ (if same_address a' a then some c else field_at r a')
  unfolding Option.bind
  changed-field_at a' = elim (Bool-cases (a'.report_id == a.report_id)) [
    | inl same ↦
        let e : a'.report_id ≡ a.report_id = (==_iff _ _).0 same in
        rw
          (
            same,
            get_elem?-set rep.fields a.item_idx a'.item_idx c
                (get_elem?-bound rep.fields a.item_idx b stands),
          )
          (elim (Bool-cases (a'.item_idx == a.item_idx)) [
            | inl here ↦ rw here refl
            | inr there ↦ rw (there, e, held) refl
          ])
    | inr other ↦ rw other refl
  ]

  changed-IsSound : SameSize b c → (items : ℕ → ℕ) → IsSound items r → IsSound items changed
  changed-IsSound size items sound i q h = elim (Bool-cases (i == a.report_id)) [
    | inl same ↦
        let e : i ≡ a.report_id = (==_iff _ _).0 same in
        let (named, long, valid) = sound a.report_id rep held in
        let is : rewritten ≡ q = Option.some_inj.0 (rw same at h) in
        rw (← is) (
          named ∙ sym e,
          length-set rep.fields a.item_idx c ∙ long ∙ ap items (sym e),
          All-set IsValid rep.fields a.item_idx c
              (size.valid (All-get_elem? IsValid rep.fields a.item_idx b stands valid)) valid,
        )
    | inr other ↦ sound i q (rw other at h)
  ]

  changed-kept :
      (i : ℕ) (q : Report) → r.reports i ≡ some q → (q' : Report) × (changed.reports i ≡ some q')
  changed-kept i q h = elim (Bool-cases (i == a.report_id)) [
    | inl same ↦ (rewritten, rw same refl)
    | inr other ↦ (q, rw other h)
  ]

pub change_field_lem :
    (f : Bits → Option Bits) (r : ReportState) (a : ItemAddress) (b c : Bits)
    → field_at r a ≡ some b
    → f b ≡ some c
    → SameSize b c
    → (r' : ReportState) × (change_field f r a ≡ some r')
      × Changes r a c r'
      × (r'.usage_activations ≡ r.usage_activations)
unfolding change_field Option.bind
change_field_lem f r a b c at_a run size =
    let (rep, held, stands) = field_at-eq-some r a b at_a in
    let fits : ltb a.item_idx (length rep.fields) ≡ true =
      lt→ltb _ _ (get_elem?-bound rep.fields a.item_idx b stands) in
    (
      changed r a rep b c held stands,
      rw (held, stands, run, fits) refl,
      record {
        fields = changed-field_at r a rep b c held stands;
        sound = changed-IsSound r a rep b c held stands size;
        kept = changed-kept r a rep b c held stands;
      },
      refl,
    )
