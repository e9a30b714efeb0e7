-- ===== src/ReportState/Finish.antt =====
-- hidapi/state.go, the last loop of `ApplyEvent`: the reports are encoded, and lose their relative
-- values.
use mathlib.Core.Option
use neio_agent.Prelude.{
  ℕ, zero, suc, ◌≡◌, refl, sym, ap, ◌∙◌, Bool, true, false, some, List, [], ◌∷◌, if◌then◌else◌,
  ◌==◌, arith, Bool-cases, inl, inr, ==_iff, All, length, get_elem?, insert, member, ==_refl,
}
use neio_agent.HidDesc.{DataItem, is_relative}
use neio_agent.Bits.{Bits, IsValid, clear_all}
use neio_agent.Report.{Report}
use neio_agent.Report.DataItems.{report}
use neio_agent.Report.Encodes.{encode_report_total}
use neio_agent.ReportState.{ItemAddress, Layout, ReportState, field_at}
use neio_agent.ReportState.Events.{
  strip_fields, strip_relative_values, finish_report, finish_reports,
}
use neio_agent.ReportState.Laws.{SameSize, SameSize-refl, SameSize-len, clear_all-SameSize}
use neio_agent.ReportState.Changes.{IsSound, field_at-eq-some}
use neio_agent.ReportState.Ready.{IsReady, IsAbsolute, IsCounted, IsReady-KeepsSizes}

-- What stripping makes of the field at a place.
abbrev Strips : List DataItem → List Bits → List Bits → Type 0
Strips ds fs gs =
    (i : ℕ) (f : Bits)
    → get_elem? fs i ≡ some f
    → (g : Bits) × (get_elem? gs i ≡ some g)
      × SameSize f g
      × (((d : DataItem) → get_elem? ds i ≡ some d → is_relative d.flags ≡ false) → g ≡ f)

abbrev stripped : Bool → Bits → Bits
stripped relative f = if relative then (clear_all f).0 else f

stripped-SameSize : (relative : Bool) (f : Bits) → SameSize f (stripped relative f)
stripped-SameSize true f = clear_all-SameSize f
stripped-SameSize false f = SameSize-refl f

strip_fields_lem :
    (ds : List DataItem) (fs : List Bits)
    → length fs ≡ length ds
    → (gs : List Bits) × (strip_fields ds fs ≡ some gs)
      × (length gs ≡ length fs)
      × (All IsValid fs → All IsValid gs)
      × Strips ds fs gs
unfolding strip_fields
strip_fields_lem [] [] n = ([], refl, refl, (λ v. v), (λ i f h. absurd (ground arith)))
strip_fields_lem [] (f ∷ fs) n = absurd (omega arith)
strip_fields_lem (d ∷ ds) [] n = absurd (omega arith)
strip_fields_lem (d ∷ ds) (f ∷ fs) n =
    let (gs, run, long, valid, strips) = strip_fields_lem ds fs (omega arith) in
    let g = stripped (is_relative d.flags) f in
    let size = stripped-SameSize (is_relative d.flags) f in
    (
      g ∷ gs,
      ap (Option.map (λ l. g ∷ l)) run,
      omega arith,
      (λ v. (size.valid v.0, valid v.1)),
      at g size gs strips,
    )
  where
    at :
        (g : Bits)
        → SameSize f (stripped (is_relative d.flags) f)
        → (gs : List Bits) → Strips ds fs gs
        → Strips (d ∷ ds) (f ∷ fs) (stripped (is_relative d.flags) f ∷ gs)
    at g size gs strips zero f' h =
        let e : f ≡ f' = Option.some_inj.0 h in
        (
          stripped (is_relative d.flags) f,
          refl,
          rw (← e) size,
          λ off. rw (← e) (ap (λ b. stripped b f) (off d refl)),
        )
    at g size gs strips (suc i) f' h = strips i f' h

abbrev item_count : Layout → ℕ → ℕ
item_count l i = length (report l.data_items i)

-- The end of `ApplyEvent` keeps the counts, the sizes, and the fields of the absolute items.
record Settles (l : Layout) (r r' : ReportState) : Type 0 where
  counts_same : r'.usage_activations ≡ r.usage_activations
  settles :
      (a : ItemAddress) (f : Bits)
      → field_at r a ≡ some f
      → (g : Bits) × (field_at r' a ≡ some g) × SameSize f g × (IsAbsolute l a → g ≡ f)
  sound : IsSound (item_count l) r → IsSound (item_count l) r'
  kept :
      (i : ℕ) (rep : Report) → r.reports i ≡ some rep → (rep' : Report) × (r'.reports i ≡ some rep')

module _ (l : Layout) (r : ReportState) (sound : IsSound (item_count l) r) (i : ℕ) (rep : Report)
    (there : r.reports i ≡ some rep) (gs : List Bits) (long : length gs ≡ length rep.fields)
    (valid : All IsValid rep.fields → All IsValid gs)
    (strips : Strips (report l.data_items i) rep.fields gs) where
  abbrev settled : ReportState
  settled = record r { reports = insert r.reports i (record rep { fields = gs }) }

  settled-Settles : Settles l r settled
  unfolding Option.bind
  settled-Settles = record {
    counts_same = refl;
    settles = λ a f h. elim (Bool-cases (a.report_id == i)) [
      | inl same ↦
          let e : a.report_id ≡ i = (==_iff _ _).0 same in
          let (q, held, stands) = field_at-eq-some r a f h in
          let is : q ≡ rep = Option.some_inj.0 (sym held ∙ ap r.reports e ∙ there) in
          let (g, at, size, off) = strips a.item_idx f (rw (← is) stands) in
          (g, rw same at, size, λ absolute. off (λ d q. absolute d (rw e q)))
      | inr other ↦ (f, rw other h, SameSize-refl f, λ _. refl)
    ];
    sound = λ _ j q h. elim (Bool-cases (j == i)) [
      | inl same ↦
          let e : j ≡ i = (==_iff _ _).0 same in
          let is : record rep { fields = gs } ≡ q = Option.some_inj.0 (rw same at h) in
          let (named, full, all) = sound i rep there in
          rw (← is) (named ∙ sym e, long ∙ full ∙ ap (item_count l) (sym e), valid all)
      | inr other ↦ sound j q (rw other at h)
    ];
    kept = λ j q h. elim (Bool-cases (j == i)) [
      | inl same ↦ (record rep { fields = gs }, rw same refl)
      | inr other ↦ (q, rw other h)
    ];
  }

strip_relative_values-some :
    (l : Layout) (rep : Report) (i : ℕ) (gs : List Bits)
    → rep.id ≡ i
    → strip_fields (report l.data_items i) rep.fields ≡ some gs
    → strip_relative_values l rep ≡ some (record rep { fields = gs })
unfolding strip_relative_values
strip_relative_values-some l rep i gs named run =
    ap (Option.map (λ fs. record rep { fields = fs }))
      (ap (λ k. strip_fields (report l.data_items k) rep.fields) named ∙ run)

finish_report_lem :
    (l : Layout) (r : ReportState) (i : ℕ) (rep : Report)
    → IsSound (item_count l) r
    → r.reports i ≡ some rep
    → (r' : ReportState) × ((bytes : List ℕ) × (finish_report l r i ≡ some (r', bytes)))
      × Settles l r r'
unfolding Option.bind
finish_report_lem l r i rep sound there =
    let (named, full, all) = sound i rep there in
    let (gs, run, long, valid, strips) = strip_fields_lem (report l.data_items i) rep.fields full in
    let (b, encoded) = encode_report_total rep all in
    (
      settled l r sound i rep there gs long valid strips,
      (
        b.bytes,
        rw (there, strip_relative_values-some l rep i gs named run, encoded)
            (ap
              (λ k.
                some
                  (record r { reports = insert r.reports k (record rep { fields = gs }) }, b.bytes))
              named),
      ),
      settled-Settles l r sound i rep there gs long valid strips,
    )

Settles-trans : (l : Layout) (r s t : ReportState) → Settles l r s → Settles l s t → Settles l r t
Settles-trans l r s t first second = record {
  counts_same = second.counts_same ∙ first.counts_same;
  settles = λ a f h.
      let (g, at_g, size, same) = first.settles a f h in
      let (k, at_k, size', same') = second.settles a g at_g in
      (
        k,
        at_k,
        record {
          valid = λ v. size'.valid (size.valid v);
          bytes_same = size'.bytes_same ∙ size.bytes_same;
          missing_same = size'.missing_same ∙ size.missing_same;
        },
        λ absolute. same' absolute ∙ same absolute,
      );
  sound = λ h. second.sound (first.sound h);
  kept = λ i rep h. let (q, e) = first.kept i rep h in second.kept i q e;
}

finish_reports_lem :
    (l : Layout) (ids : List ℕ) (r : ReportState)
    → IsSound (item_count l) r
    → ((i : ℕ) → member i ids ≡ true → (rep : Report) × (r.reports i ≡ some rep))
    → (r' : ReportState) × ((out : List (List ℕ)) × (finish_reports l r ids ≡ some (r', out)))
      × Settles l r r'
unfolding finish_reports Option.bind
finish_reports_lem l [] r sound held = (
  r,
  ([], refl),
  record {
    counts_same = refl;
    settles = λ a f h. (f, h, SameSize-refl f, λ _. refl);
    sound = λ s. s;
    kept = λ i rep h. (rep, h);
  },
)
finish_reports_lem l (i ∷ ids) r sound held =
    let (rep, there) = held i (ground (arith, ==_refl i)) in
    let (s, (bytes, run), first) = finish_report_lem l r i rep sound there in
    let (t, (out, runs), rest) =
      finish_reports_lem l ids s (first.sound sound)
        (λ j m. let (q, h) = held j (ground arith) in first.kept j q h) in
    (t, (bytes ∷ out, rw (run, runs) refl), Settles-trans l r s t first rest)

pub finish_reports-IsCounted :
    (l : Layout) (ids : List ℕ) (r : ReportState)
    → IsReady l r
    → IsCounted l r
    → ((i : ℕ) → member i ids ≡ true → (rep : Report) × (r.reports i ≡ some rep))
    → (r' : ReportState) × ((out : List (List ℕ)) × (finish_reports l r ids ≡ some (r', out)))
      × IsReady l r'
      × IsCounted l r'
      × (r'.usage_activations ≡ r.usage_activations)
finish_reports-IsCounted l ids r ready counted held =
    let (r', run, s) = finish_reports_lem l ids r ready.sound held in
    (
      r',
      run,
      IsReady-KeepsSizes l r r'
          (λ a f h.
            let (g, at_g, size, _) = s.settles a f h in
            (g, at_g, SameSize-len f g size, size.bytes_same))
          (s.sound ready.sound) ready,
      (λ u a k b hu there absolute set_there field_there.
          let p = ready.sets u a hu there in
          let (g, at_g, _, same) = s.settles a p.field p.field_there in
          let is : b ≡ p.field = Option.some_inj.0 (sym field_there ∙ at_g) ∙ same absolute in
          rw (is, s.counts_same) (counted u a k p.field hu there absolute set_there p.field_there)),
      s.counts_same,
    )
