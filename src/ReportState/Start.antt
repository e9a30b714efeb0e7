-- ===== src/ReportState/Start.antt =====
-- hidapi/state.go, `NewReportState`: no usage stands in the fields of zeros that it begins with.
use mathlib.Core.Option
use mathlib.Core.Path.{subst}
use neio_agent.Prelude.{
  ℕ, zero, suc, ◌≡◌, refl, sym, ap, ◌∙◌, false, Option, none, some, List, [], ◌∷◌, arith,
  Option-cases, inl, inr, get_elem?, replicate,
}
use neio_agent.HidDesc.{DataItem}
use neio_agent.Bits.{Bits, new_zeros, is_set, clear_all, zero_bytes, missing_for, bytes_for}
use neio_agent.Bits.Update.{clear_all_lem}
use neio_agent.Usages.{flag_has_usage, range_has_usage, has_at}
use neio_agent.Report.{Report}
use neio_agent.Report.DataItems.{DataItemSet}
use neio_agent.ReportState.{ItemAddress, Layout, field_at}
use neio_agent.ReportState.Init.{zero_fields, new_report_state}
use neio_agent.ReportState.Sets.{AnyUsageSet, flag_map, range_flags, selector, has_usage}
use neio_agent.ReportState.Laws.{IsFlagSet}
use neio_agent.ReportState.Changes.{field_at-eq-some}
use neio_agent.ReportState.Ready.{IsReady, IsCounted}

zero_bytes-replicate : (n : ℕ) → zero_bytes (replicate n 0) ≡ replicate n 0
unfolding zero_bytes
zero_bytes-replicate zero = refl
zero_bytes-replicate (suc n) = ap (λ l. 0 ∷ l) (zero_bytes-replicate n)

zeros_cleared : (n : ℕ) → (clear_all (new_zeros n)).0 ≡ new_zeros n
unfolding clear_all new_zeros
zeros_cleared n =
    ap (λ l. record { missing_bits = missing_for n; bytes = l })
      (zero_bytes-replicate (bytes_for n))

is_set-new_zeros : (n i : ℕ) → is_set (new_zeros n) i ≡ false
is_set-new_zeros n i =
    ap (λ b. is_set b i) (sym (zeros_cleared n)) ∙ (clear_all_lem (new_zeros n)).0 i

has_at-new_zeros : (o : Option ℕ) (n : ℕ) → has_at o (new_zeros n) ≡ false
has_at-new_zeros none n = refl
has_at-new_zeros (some i) n = is_set-new_zeros n i

has_usage-new_zeros :
    (s : AnyUsageSet) (n u : ℕ) → IsFlagSet s → has_usage s (new_zeros n) u ≡ some false
unfolding has_usage flag_has_usage range_has_usage
has_usage-new_zeros (flag_map s) n u h = ap some (has_at-new_zeros _ n)
has_usage-new_zeros (range_flags s) n u h = ap some (has_at-new_zeros _ n)
has_usage-new_zeros (selector s) n u h = absurd h

get_elem?-zero_fields :
    (ds : List DataItem) (i : ℕ) (b : Bits)
    → get_elem? (zero_fields ds) i ≡ some b
    → (n : ℕ) × (b ≡ new_zeros n)
get_elem?-zero_fields [] i b h = absurd (ground arith)
get_elem?-zero_fields (d ∷ ds) zero b h = (_, sym (Option.some_inj.0 h))
get_elem?-zero_fields (d ∷ ds) (suc i) b h = get_elem?-zero_fields ds i b h

field_at-new :
    (items : DataItemSet) (a : ItemAddress) (b : Bits)
    → field_at (new_report_state items) a ≡ some b
    → (n : ℕ) × (b ≡ new_zeros n)
unfolding new_report_state
field_at-new items a b h =
    let (rep, held, stands) = field_at-eq-some (new_report_state items) a b h in
    elim (Option-cases (items.data_items a.report_id)) [
      | inl missing ↦ absurd (ground (arith, rw missing at held))
      | inr (ds, e) ↦
          let is : record { id = a.report_id; fields = zero_fields ds } ≡ rep =
            Option.some_inj.0 (rw e at held) in
          get_elem?-zero_fields ds a.item_idx b
            (ap (λ (q : Report). get_elem? q.fields a.item_idx) is ∙ stands)
    ]

-- In the state that a device begins with, each count is 0 and no usage is set.
pub new_report_state-IsCounted :
    (l : Layout) (items : DataItemSet)
    → IsReady l (new_report_state items)
    → IsCounted l (new_report_state items)
unfolding new_report_state
new_report_state-IsCounted l items ready u a s b hu there absolute set_there field_there =
    let p = ready.sets u a hu there in
    let is : p.set ≡ s = Option.some_inj.0 (sym p.set_there ∙ set_there) in
    let (n, zeros) = field_at-new items a b field_there in
    ap (λ f. has_usage s f u) zeros ∙ has_usage-new_zeros s n u (subst IsFlagSet is p.flags)
