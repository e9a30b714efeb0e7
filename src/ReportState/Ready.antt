-- ===== src/ReportState/Ready.antt =====
-- hidapi/state.go: what the layout promises of a state, and what the counts say of the fields.
use neio_agent.Prelude.{
  ℕ, ◌<◌, ◌≡◌, refl, sym, ap, ◌∙◌, true, false, some, ltb, arith, Bool-cases, inl, inr, IsU32,
  length,
}
use neio_agent.HidDesc.{DataItem, is_relative}
use neio_agent.Bits.{Bits, len}
use neio_agent.Report.DataItems.{report}
use neio_agent.Usages.Values.{UsageValues}
use neio_agent.Usages.Writes.{HasSlot}
use neio_agent.ReportState.{ItemAddress, same_address, Layout, ReportState, field_at}
use neio_agent.ReportState.Sets.{AnyUsageSet, has_usage}
use neio_agent.ReportState.Events.{set_address, set_at_address, values_at_address, item_at}
use neio_agent.ReportState.Laws.{SameSize, SameSize-len, bit_of_usage, IsFlagSet}
use neio_agent.ReportState.Changes.{IsSound, Changes}

-- The address of a usage of a set leads to a data item with a set of single bits, and to a field that
-- has the usage's bit.
pub record SetPlace (l : Layout) (r : ReportState) (u : ℕ) (a : ItemAddress) : Type 0 where
  pub item : DataItem
  pub item_there : item_at l a ≡ some item
  pub set : AnyUsageSet
  pub set_there : set_at_address l a ≡ some set
  pub flags : IsFlagSet set
  pub field : Bits
  pub field_there : field_at r a ≡ some field
  pub bit : ℕ
  pub bit_there : bit_of_usage set u ≡ some bit
  pub inside : bit < len field

-- The address of a usage with a value leads to a data item with values, and to a field that has the
-- usage's slot.
pub record ValuePlace (l : Layout) (r : ReportState) (u : ℕ) (a : ItemAddress) : Type 0 where
  pub item : DataItem
  pub item_there : item_at l a ≡ some item
  pub values : UsageValues
  pub values_there : values_at_address l a ≡ some values
  pub field : Bits
  pub field_there : field_at r a ≡ some field
  pub slot : HasSlot values field u

pub record IsReady (l : Layout) (r : ReportState) : Type 0 where
  pub sound : IsSound (λ i. length (report l.data_items i)) r
  pub sets : (u : ℕ) (a : ItemAddress) → IsU32 u → set_address l u ≡ some a → SetPlace l r u a
  pub values : (u : ℕ) (a : ItemAddress) → l.usage_values_index u ≡ some a → ValuePlace l r u a
  pub apart :
      (u v : ℕ) (a a' : ItemAddress)
      → set_address l u ≡ some a
      → l.usage_values_index v ≡ some a'
      → same_address a a' ≡ false

-- The data item of the address is not relative.
abbrev pub IsAbsolute : Layout → ItemAddress → Type 0
IsAbsolute l a = (item : DataItem) → item_at l a ≡ some item → is_relative item.flags ≡ false

-- A usage of an absolute item stands in its field just where its count is positive.
abbrev pub IsCounted : Layout → ReportState → Type 0
IsCounted l r =
    (u : ℕ) (a : ItemAddress) (s : AnyUsageSet) (b : Bits)
    → IsU32 u
    → set_address l u ≡ some a
    → IsAbsolute l a
    → set_at_address l a ≡ some s
    → field_at r a ≡ some b
    → has_usage s b u ≡ some (ltb 0 (r.usage_activations a.report_id u))

pub same_address-eq : (a b : ItemAddress) → same_address a b ≡ true → a ≡ b
same_address-eq a b h = ground arith

pub same_address_refl : (a : ItemAddress) → same_address a a ≡ true
same_address_refl a = ground arith

-- Each field is there afterwards, with its size.
abbrev pub KeepsSizes : ReportState → ReportState → Type 0
KeepsSizes r r' =
    (a : ItemAddress) (f : Bits)
    → field_at r a ≡ some f
    → (f' : Bits) × (field_at r' a ≡ some f')
      × (len f' ≡ len f)
      × (length f'.bytes ≡ length f.bytes)

module _ (l : Layout) (r r' : ReportState) (after : KeepsSizes r r') where
  SetPlace-KeepsSizes : (u : ℕ) (a : ItemAddress) → SetPlace l r u a → SetPlace l r' u a
  SetPlace-KeepsSizes u a p =
      let (f', there, n, _) = after a p.field p.field_there in
      record {
        item = p.item;
        item_there = p.item_there;
        set = p.set;
        set_there = p.set_there;
        flags = p.flags;
        field = f';
        field_there = there;
        bit = p.bit;
        bit_there = p.bit_there;
        inside = rw n p.inside;
      }

  ValuePlace-KeepsSizes : (u : ℕ) (a : ItemAddress) → ValuePlace l r u a → ValuePlace l r' u a
  ValuePlace-KeepsSizes u a p =
      let (f', there, _, n) = after a p.field p.field_there in
      record {
        item = p.item;
        item_there = p.item_there;
        values = p.values;
        values_there = p.values_there;
        field = f';
        field_there = there;
        slot = record {
          sized = p.slot.sized;
          slot = p.slot.slot;
          indexed = p.slot.indexed;
          inside = rw n p.slot.inside;
        };
      }

  pub IsReady-KeepsSizes :
      IsSound (λ i. length (report l.data_items i)) r' → IsReady l r → IsReady l r'
  IsReady-KeepsSizes sound ready = record {
    sound = sound;
    sets = λ u a hu e. SetPlace-KeepsSizes u a (ready.sets u a hu e);
    values = λ u a e. ValuePlace-KeepsSizes u a (ready.values u a e);
    apart = ready.apart;
  }

pub IsReady-Changes :
    (l : Layout) (r r' : ReportState) (a : ItemAddress) (b c : Bits)
    → field_at r a ≡ some b
    → SameSize b c
    → Changes r a c r'
    → IsReady l r
    → IsReady l r'
IsReady-Changes l r r' a b c held size ch ready =
    IsReady-KeepsSizes l r r' after (ch.sound _ ready.sound) ready
  where
    after : KeepsSizes r r'
    after a' f h = elim (Bool-cases (same_address a' a)) [
      | inl same ↦
          let e : some b ≡ some f =
            sym held ∙ ap (field_at r) (sym (same_address-eq a' a same)) ∙ h in
          let is : b ≡ f = ground arith in
          (
            c,
            ch.fields a' ∙ rw same refl,
            rw (← is) (SameSize-len b c size),
            rw (← is) size.bytes_same,
          )
      | inr other ↦ (f, ch.fields a' ∙ rw other h, refl, refl)
    ]
