-- ===== src/ReportState/Usages.antt =====
-- hidapi/state.go, `ApplyEvent`: one usage event keeps the state ready and its counts true.
use mathlib.Core.Option
use neio_agent.Prelude.{
  ℕ, ◌≡◌, refl, sym, ap, ◌∙◌, Bool, true, false, ◌&&◌, Option, none, some, if◌then◌else◌, ltb, ◌==◌,
  arith, Bool-cases, inl, inr, IsU32, ==_iff,
}
use neio_agent.HidDesc.{is_relative}
use neio_agent.Bits.{Bits}
use neio_agent.Report.{Report}
use neio_agent.Usages.Values.{get_value, set_value}
use neio_agent.Usages.Writes.{get_value_total, set_value_total}
use neio_agent.Event.Activations.{count_after, count_event}
use neio_agent.ReportState.{ItemAddress, same_address, Layout, ReportState, field_at}
use neio_agent.ReportState.Sets.{has_usage}
use neio_agent.ReportState.Events.{
  set_address, set_at_address, item_at, write_value, apply_activation,
}
use neio_agent.ReportState.Laws.{SameSize}
use neio_agent.ReportState.Changes.{Changes, change_field_lem}
use neio_agent.ReportState.Ready.{
  SetPlace, ValuePlace, IsReady, IsAbsolute, IsCounted, IsReady-Changes, same_address-eq,
  same_address_refl,
}
use neio_agent.ReportState.Steps.{Effect, activation_counted, activation_relative}

-- What a usage event leaves true, and the count of each usage of an absolute item.
pub record After (l : Layout) (r : ReportState) (w : ℕ) (act : Option Bool) (r' : ReportState)
    : Type 0 where
  pub ready : IsReady l r'
  pub counted : IsCounted l r'
  pub counts :
      (u : ℕ) (a : ItemAddress)
      → IsU32 u
      → set_address l u ≡ some a
      → IsAbsolute l a
      → r'.usage_activations a.report_id u ≡ (
          if w == u
          then count_event act (r.usage_activations a.report_id u)
          else r.usage_activations a.report_id u)
  pub kept :
      (i : ℕ) (rep : Report) → r.reports i ≡ some rep → (rep' : Report) × (r'.reports i ≡ some rep')

-- A count among those of all reports and usages, of which one has changed.
count_same :
    (h : Option Bool) (u v i m n : ℕ)
    → h ≡ some (ltb 0 n)
    → (if u == v then some (ltb 0 m) else h) ≡ some (ltb 0 (if i == i && v == u then m else n))
count_same h u v i m n e = ground arith

count_other : (i j v u m n : ℕ) → ¬ (v ≡ u) → (if i == j && v == u then m else n) ≡ n
count_other i j v u m n ne = ground arith

count_here :
    (i j v u m k n : ℕ)
    → i ≡ j
    → v ≡ u
    → m ≡ k
    → (if i == j && v == u then m else n) ≡ (if u == v then k else n)
count_here i j v u m k same_id same e = ground arith

count_else :
    (i j v u m n k : ℕ)
    → (v == u) ≡ false
    → (if i == j && v == u then m else n) ≡ (if u == v then k else n)
count_else i j v u m n k other = ground arith

module _ (l : Layout) (r : ReportState) (ready : IsReady l r) (counted : IsCounted l r) where
  -- A counted activation.
  Effect-After :
      (a : ItemAddress) (u : ℕ) (on : Bool) (p : SetPlace l r u a) (r' : ReportState)
      → IsU32 u
      → set_address l u ≡ some a
      → Effect r a u (count_after on (r.usage_activations a.report_id u)) p.set p.field r'
      → After l r u (some on) r'
  Effect-After a u on p r' hu addressed e = record {
    ready = IsReady-Changes l r r' a p.field e.field p.field_there e.size e.changes ready;
    counted = λ v a' s b hv there absolute set_there field_there.
        elim (Bool-cases (same_address a' a)) [
          | inl same ↦
              let is_a : a' ≡ a = same_address-eq a' a same in
              let is_set : some s ≡ some p.set =
                sym set_there ∙ ap (set_at_address l) is_a ∙ p.set_there in
              let is_field : some b ≡ some e.field =
                sym field_there ∙ e.changes.fields a' ∙ rw same refl in
              let old =
                counted v a p.set p.field hv (there ∙ ap some is_a)
                  (λ item h. absolute item (ap (item_at l) is_a ∙ h)) p.set_there p.field_there in
              rw (Option.some_inj.0 is_set, Option.some_inj.0 is_field)
                (e.usages v hv
                  ∙ at_same v old
                  ∙ ap (λ n. some (ltb 0 n))
                      (sym (e.counts a.report_id v)
                        ∙ ap (λ (k : ItemAddress). r'.usage_activations k.report_id v) (sym is_a)))
          | inr other ↦
              let old_field : field_at r a' ≡ some b =
                sym (rw other refl) ∙ sym (e.changes.fields a') ∙ field_there in
              counted v a' s b hv there absolute set_there old_field
              ∙ ap (λ n. some (ltb 0 n)) (sym (e.counts a'.report_id v ∙ at_other v a' there other))
        ];
    counts = λ v a' hv there absolute. e.counts a'.report_id v ∙ counts_at v a' there;
    kept = e.changes.kept;
  }
    where
      n' : ℕ
      n' = count_after on (r.usage_activations a.report_id u)

      at_same :
          (v : ℕ)
          → has_usage p.set p.field v ≡ some (ltb 0 (r.usage_activations a.report_id v))
          → (if u == v then some (ltb 0 n') else has_usage p.set p.field v)
            ≡ some (
                ltb 0 (
                  if a.report_id == a.report_id && v == u
                  then n'
                  else r.usage_activations a.report_id v))
      at_same v old = count_same _ u v a.report_id n' _ old

      at_other :
          (v : ℕ) (a' : ItemAddress)
          → set_address l v ≡ some a'
          → same_address a' a ≡ false
          → (if a'.report_id == a.report_id && v == u
              then n'
              else r.usage_activations a'.report_id v)
            ≡ r.usage_activations a'.report_id v
      at_other v a' there other = count_other a'.report_id a.report_id v u n' _ (λ e.
          other_address (Option.some_inj.0 (sym there ∙ ap (set_address l) e ∙ addressed)) other)
        where
          other_address : a' ≡ a → same_address a' a ≡ false → ⊥
          other_address e h =
              ground (arith, sym h ∙ ap (λ k. same_address k a) e ∙ same_address_refl a)

      counts_at :
          (v : ℕ) (a' : ItemAddress)
          → set_address l v ≡ some a'
          → (if a'.report_id == a.report_id && v == u
              then n'
              else r.usage_activations a'.report_id v)
            ≡ (if u == v
                then count_after on (r.usage_activations a'.report_id v)
                else r.usage_activations a'.report_id v)
      counts_at v a' there = elim (Bool-cases (v == u)) [
        | inl same ↦
            let is_u : v ≡ u = (==_iff v u).0 same in
            let is_a : a' ≡ a =
              Option.some_inj.0 (sym there ∙ ap (set_address l) is_u ∙ addressed) in
            count_here a'.report_id a.report_id v u n' _ _ (ap (λ k. k.report_id) is_a) is_u (
              ap (count_after on) (
                ap (λ (k : ItemAddress). r.usage_activations k.report_id u) (sym is_a)
                ∙ ap (r.usage_activations a'.report_id) (sym is_u)))
        | inr other ↦ count_else a'.report_id a.report_id v u n' _ _ other
      ]

  -- A write that no count and no field of an absolute item takes part in.
  Quiet-After :
      (a : ItemAddress) (w : ℕ) (act : Option Bool) (b c : Bits) (r' : ReportState)
      → field_at r a ≡ some b
      → SameSize b c
      → Changes r a c r'
      → r'.usage_activations ≡ r.usage_activations
      → ((v : ℕ) (a' : ItemAddress)
          → set_address l v ≡ some a'
          → IsAbsolute l a'
          → (same_address a' a ≡ false) × ((w ≡ v) → (n : ℕ) → count_event act n ≡ n))
      → After l r w act r'
  Quiet-After a w act b c r' held size ch same away = record {
    ready = IsReady-Changes l r r' a b c held size ch ready;
    counted = λ v a' s f hv there absolute set_there field_there.
        let (other, _) = away v a' there absolute in
        let old_field : field_at r a' ≡ some f =
          sym (rw other refl) ∙ sym (ch.fields a') ∙ field_there in
        counted v a' s f hv there absolute set_there old_field
        ∙ ap (λ (k : ℕ → ℕ → ℕ). some (ltb 0 (k a'.report_id v))) (sym same);
    counts = λ v a' hv there absolute.
        let (_, still) = away v a' there absolute in
        ap (λ (k : ℕ → ℕ → ℕ). k a'.report_id v) same ∙ unmoved v _ still;
    kept = ch.kept;
  }
    where
      unmoved :
          (v n : ℕ)
          → ((w ≡ v) → (m : ℕ) → count_event act m ≡ m)
          → n ≡ (if w == v then count_event act n else n)
      unmoved v n still = elim (Bool-cases (w == v)) [
        | inl e ↦ rw e (sym (still ((==_iff w v).0 e) n))
        | inr e ↦ rw e refl
      ]

  -- A usage event that the loop skips.
  pub skip-After :
      (w : ℕ) (act : Option Bool)
      → ((v : ℕ) (a' : ItemAddress)
          → set_address l v ≡ some a'
          → (w ≡ v)
          → (n : ℕ) → count_event act n ≡ n)
      → After l r w act r
  skip-After w act still = record {
    ready = ready;
    counted = counted;
    counts = λ v a' hv there absolute. elim (Bool-cases (w == v)) [
      | inl e ↦ rw e (sym (still v a' there ((==_iff w v).0 e) _))
      | inr e ↦ rw e refl
    ];
    kept = λ i rep h. (rep, h);
  }

  pub value-After :
      (a : ItemAddress) (u : ℕ) (f : ℕ → ℕ) (p : ValuePlace l r u a)
      → l.usage_values_index u ≡ some a
      → (r' : ReportState) × (write_value l f r a u ≡ some r') × After l r u none r'
  unfolding write_value Option.bind
  value-After a u f p addressed =
      let (x, got) = get_value_total p.values p.field u p.slot in
      let (ys, put, n, bytes) = set_value_total p.values p.field u (f x) p.slot in
      let size : SameSize p.field (record p.field { bytes = ys }) = record {
        valid = λ v. record {
          bytes_valid = bytes v.bytes_valid;
          missing_small = v.missing_small;
          missing_fits = omega (arith, v.missing_fits);
        };
        bytes_same = n;
        missing_same = refl;
      } in
      let (r', run, ch, same) =
        change_field_lem
          (λ b. Option.bind (get_value p.values b u) (λ x. set_value p.values b u (f x))) r a
          p.field _ p.field_there (rw got put) size in
      (
        r',
        rw p.values_there run,
        Quiet-After a u none p.field _ r' p.field_there size ch same
            (λ v a' there absolute. (ready.apart v u a' a there addressed, λ e n. refl)),
      )

  pub activation-After :
      (a : ItemAddress) (u : ℕ) (on : Bool)
      → IsU32 u
      → set_address l u ≡ some a
      → (p : SetPlace l r u a)
      → (r' : ReportState) × (apply_activation l on r a u p.item ≡ some r')
        × After l r u (some on) r'
  activation-After a u on hu addressed p = elim (Bool-cases (is_relative p.item.flags)) [
    | inl relative ↦
        let (r', run, (c, size, ch), same) =
          activation_relative l r a u p ready counted hu addressed on relative in
        (
          r',
          run,
          Quiet-After a u (some on) p.field c r' p.field_there size ch same (λ v a' there absolute.
              (
                elim (Bool-cases (same_address a' a)) [
                  | inl e ↦ absurd (
                      both relative
                        (absolute p.item (ap (item_at l) (same_address-eq a' a e) ∙ p.item_there)))
                  | inr e ↦ e
                ],
                λ e. absurd (
                    both relative (
                      absolute p.item (
                        ap (item_at l)
                          (Option.some_inj.0 (sym there ∙ ap (set_address l) (sym e) ∙ addressed))
                        ∙ p.item_there))),
              )),
        )
    | inr off ↦
        let absolute : IsAbsolute l a = λ item h.
          ap (λ d. is_relative d.flags) (Option.some_inj.0 (sym h ∙ p.item_there)) ∙ off in
        let (r', run, e) = activation_counted l r a u p ready counted hu addressed on absolute in
        (r', run, Effect-After a u on p r' hu addressed e)
  ]
    where
      both : {b : Bool} → b ≡ true → b ≡ false → ⊥
      both h k = cc (h, k)
