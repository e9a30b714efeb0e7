-- ===== src/ReportState/Steps.antt =====
-- hidapi/state.go, `ApplyEvent`: one activation, counted and written.
use mathlib.Core.Option
use mathlib.Core.Path.{subst}
use neio_agent.Prelude.{
  ℕ, ◌+◌, ◌-◌, ◌≡◌, refl, sym, ap, ◌∙◌, Bool, true, false, ◌&&◌, some, if◌then◌else◌, ltb, leb,
  ◌==◌, arith, Bool-cases, inl, inr, IsU32, ==_iff,
}
use neio_agent.HidDesc.{is_relative}
use neio_agent.Event.Activations.{count_after}
use neio_agent.Bits.{Bits, IsValid}
use neio_agent.ReportState.{ItemAddress, same_address, Layout, ReportState, field_at}
use neio_agent.ReportState.Sets.{AnyUsageSet, has_usage}
use neio_agent.ReportState.Events.{set_address, with_count, write_set, apply_activation}
use neio_agent.ReportState.Laws.{SameSize, SameSize-refl, write_usage, flags-Writes}
use neio_agent.ReportState.Changes.{Changes, field_at-eq-some, All-get_elem?, change_field_lem}
use neio_agent.ReportState.Ready.{SetPlace, IsReady, IsAbsolute, IsCounted, same_address-eq}

pub IsReady-IsValid :
    (l : Layout) (r : ReportState) (a : ItemAddress) (b : Bits)
    → IsReady l r
    → field_at r a ≡ some b
    → IsValid b
IsReady-IsValid l r a b ready h =
    let (rep, held, stands) = field_at-eq-some r a b h in
    let (_, _, all) = ready.sound a.report_id rep held in
    All-get_elem? IsValid rep.fields a.item_idx b stands all

-- What an activation does to the usage `u` of the set `s`, which stands in the field `b` at `a`: its
-- count becomes `n`, its bit says whether this is positive, and all else stays.
pub record Effect (r : ReportState) (a : ItemAddress) (u n : ℕ) (s : AnyUsageSet) (b : Bits)
    (r' : ReportState) : Type 0 where
  pub field : Bits
  pub size : SameSize b field
  pub changes : Changes r a field r'
  pub counts :
      (i v : ℕ)
      → r'.usage_activations i v
        ≡ (if i == a.report_id && v == u then n else r.usage_activations i v)
  pub usages :
      (v : ℕ) → IsU32 v → has_usage s field v ≡ (if u == v then some (ltb 0 n) else has_usage s b v)

-- A write of a usage into its field.
record Written (l : Layout) (r : ReportState) (a : ItemAddress) (u : ℕ) (on : Bool)
    (s : AnyUsageSet) (b : Bits) : Type 0 where
  after : ReportState
  field : Bits
  returns : write_set l on r a u ≡ some after
  size : SameSize b field
  changes : Changes r a field after
  counts_same : after.usage_activations ≡ r.usage_activations
  usages : (v : ℕ) → IsU32 v → has_usage s field v ≡ (if u == v then some on else has_usage s b v)

write_set_lem :
    (l : Layout) (r : ReportState) (a : ItemAddress) (u : ℕ) (on : Bool) (p : SetPlace l r u a)
    → IsValid p.field
    → IsU32 u
    → Written l r a u on p.set p.field
unfolding write_set Option.bind
write_set_lem l r a u on p valid hu =
    let w = flags-Writes p.field u p.bit valid hu p.inside p.set on p.flags p.bit_there in
    let (r', run, ch, same) =
      change_field_lem (write_usage on p.set u) r a p.field w.written p.field_there w.returns
        w.size in
    record {
      after = r';
      field = w.written;
      returns = rw p.set_there run;
      size = w.size;
      changes = ch;
      counts_same = same;
      usages = w.usages;
    }

-- A change of the counts alone leaves the reports as they are.
with_count-Changes :
    (r : ReportState) (a : ItemAddress) (u n : ℕ) (b : Bits)
    → field_at r a ≡ some b
    → Changes r a b (with_count r a u n)
with_count-Changes r a u n b h = record {
  fields = λ a'. elim (Bool-cases (same_address a' a)) [
    | inl same ↦ rw same (ap (field_at r) (same_address-eq a' a same) ∙ h)
    | inr other ↦ rw other refl
  ];
  sound = λ items s. s;
  kept = λ i rep e. (rep, e);
}

module _ (l : Layout) (r : ReportState) (a : ItemAddress) (u : ℕ) (p : SetPlace l r u a)
    (valid : IsValid p.field) (hu : IsU32 u) where
  -- The place of the usage does not depend on the counts.
  abbrev counted_place : (n : ℕ) → SetPlace l (with_count r a u n) u a
  counted_place n = record {
    item = p.item;
    item_there = p.item_there;
    set = p.set;
    set_there = p.set_there;
    flags = p.flags;
    field = p.field;
    field_there = p.field_there;
    bit = p.bit;
    bit_there = p.bit_there;
    inside = p.inside;
  }

  counted_write :
      (on : Bool) (n : ℕ)
      → ltb 0 n ≡ on
      → (r' : ReportState) × (write_set l on (with_count r a u n) a u ≡ some r')
        × Effect r a u n p.set p.field r'
  counted_write on n h =
      let w = write_set_lem l (with_count r a u n) a u on (counted_place n) valid hu in
      (
        w.after,
        w.returns,
        record {
          field = w.field;
          size = w.size;
          changes = record {
            fields = w.changes.fields;
            sound = w.changes.sound;
            kept = w.changes.kept;
          };
          counts = λ i v. ap (λ (f : ℕ → ℕ → ℕ). f i v) w.counts_same;
          usages = λ v hv. w.usages v hv ∙ rw h refl;
        },
      )

  -- A count that stays positive needs no write.
  counted_only :
      (n : ℕ)
      → has_usage p.set p.field u ≡ some true
      → ltb 0 n ≡ true
      → Effect r a u n p.set p.field (with_count r a u n)
  counted_only n here h = record {
    field = p.field;
    size = SameSize-refl p.field;
    changes = with_count-Changes r a u n p.field p.field_there;
    counts = λ i v. refl;
    usages = λ v hv. elim (Bool-cases (u == v)) [
      | inl same ↦ rw (same, h) (ap (has_usage p.set p.field) (sym ((==_iff _ _).0 same)) ∙ here)
      | inr other ↦ rw other refl
    ];
  }

module _ (l : Layout) (r : ReportState) (a : ItemAddress) (u : ℕ) (p : SetPlace l r u a)
    (ready : IsReady l r) (counted : IsCounted l r) (hu : IsU32 u)
    (addressed : set_address l u ≡ some a) where
  abbrev count : ℕ
  count = r.usage_activations a.report_id u

  placed-IsValid : IsValid p.field
  placed-IsValid = IsReady-IsValid l r a p.field ready p.field_there

  counted_here : IsAbsolute l a → has_usage p.set p.field u ≡ some (ltb 0 count)
  counted_here absolute = counted u a p.set p.field hu addressed absolute p.set_there p.field_there

  activation_up :
      (absolute : IsAbsolute l a)
      → (r' : ReportState) × (apply_activation l true r a u p.item ≡ some r')
        × Effect r a u (count + 1) p.set p.field r'
  unfolding apply_activation
  activation_up absolute = elim (Bool-cases (count + 1 == 1)) [
    | inl first ↦
        let (r', run, e) =
          counted_write l r a u p placed-IsValid hu true (count + 1) (ground arith) in
        (r', rw (absolute p.item p.item_there, first) run, e)
    | inr more ↦
        let here : ltb 0 count ≡ true = ground arith in
        (
          with_count r a u (count + 1),
          rw (absolute p.item p.item_there, more) refl,
          counted_only l r a u p placed-IsValid hu (count + 1)
              (counted_here absolute ∙ ap some here) (ground arith),
        )
  ]

  activation_down :
      (absolute : IsAbsolute l a)
      → (r' : ReportState) × (apply_activation l false r a u p.item ≡ some r')
        × Effect r a u (count - 1) p.set p.field r'
  unfolding apply_activation
  activation_down absolute = elim (Bool-cases (leb count 1)) [
    | inl gone ↦
        let zero_left : count - 1 ≡ 0 = ground arith in
        let (r', run, e) = counted_write l r a u p placed-IsValid hu false 0 refl in
        (
          r',
          rw (absolute p.item p.item_there, gone) run,
          subst (λ n. Effect r a u n p.set p.field r') (sym zero_left) e,
        )
    | inr stays ↦
        let here : ltb 0 count ≡ true = ground arith in
        (
          with_count r a u (count - 1),
          rw (absolute p.item p.item_there, stays) refl,
          counted_only l r a u p placed-IsValid hu (count - 1)
              (counted_here absolute ∙ ap some here) (ground arith),
        )
  ]

  -- An activation of an absolute item is counted, and its usage stands in the field while the count is
  -- positive.
  pub activation_counted :
      (on : Bool)
      → IsAbsolute l a
      → (r' : ReportState) × (apply_activation l on r a u p.item ≡ some r')
        × Effect r a u (count_after on count) p.set p.field r'
  activation_counted true absolute = activation_up absolute
  activation_counted false absolute = activation_down absolute

  -- An activation of a relative item is written, and the counts stay.
  pub activation_relative :
      (on : Bool)
      → is_relative p.item.flags ≡ true
      → (r' : ReportState) × (apply_activation l on r a u p.item ≡ some r')
        × ((c : Bits) × SameSize p.field c × Changes r a c r')
        × (r'.usage_activations ≡ r.usage_activations)
  unfolding apply_activation
  activation_relative on relative =
      let w = write_set_lem l r a u on p placed-IsValid hu in
      (w.after, rw relative w.returns, (w.field, w.size, w.changes), w.counts_same)
