-- ===== src/ReportState/Tests.antt =====
-- Concrete runs of hidapi/state.go: a report with the eight modifier keys, and the two axes of a mouse.
use mathlib.Core.Option
use neio_agent.Prelude.{
  ℕ, ◌-◌, ◌<◌, ◌≤◌, ◌≡◌, refl, ap, true, ◌&&◌, Option, none, some, List, [], ◌∷◌, if◌then◌else◌,
  ◌==◌, leb, arith, inl, inr, insert, empty_map, length, Bool-cases, replicate, All-replicate,
  IsByte,
}
use neio_agent.HidDesc.{DataItem, input}
use neio_agent.Bits.{IsValid, new_zeros, set_at, missing_for, bytes_for}
use neio_agent.Bits.Concat.{concat_bits}
use neio_agent.Event.{Event, activation}
use neio_agent.Report.{Report}
use neio_agent.Report.DataItems.{DataItemSet, report}
use neio_agent.Report.Codec.{encode_report}
use neio_agent.Usages.{page, id, range_set_usage}
use neio_agent.Usages.Values.{get_value, set_value, set_bytes, new_usage_values}
use neio_agent.ReportState.{ItemAddress, Layout, ReportState, field_at, change_field}
use neio_agent.ReportState.Init.{new_layout, new_report_state}
use neio_agent.ReportState.Sets.{usage_set_of, usage_values_of, set_usage, range_flags}
use neio_agent.ReportState.Events.{
  set_address, apply_event, apply_usage, item_at, set_at_address, values_at_address, or_range,
}
use neio_agent.ReportState.Changes.{IsSound}
use neio_agent.ReportState.Ready.{IsReady}
use neio_agent.ReportState.Counted.{Applied, apply_event-Applied}
use neio_agent.ReportState.Start.{new_report_state-IsCounted}

abbrev modifiers : DataItem
modifiers = record {
  flags = 2;
  usage_page = 7;
  usage_ids = [];
  usage_minimum = 0xe0;
  usage_maximum = 0xe7;
  report_count = 8;
  report_size = 1;
  report_id = 0;
  designator_index = 0;
  designator_minimum = 0;
  designator_maximum = 0;
  logical_minimum = 0;
  logical_maximum = 1;
  physical_minimum = 0;
  physical_maximum = 0;
  unit_exponent = 0;
  unit = 0;
}

abbrev axes : DataItem
axes = record modifiers {
  flags = 6;
  usage_page = 1;
  usage_ids = 0x30 ∷ 0x31 ∷ [];
  usage_minimum = 0;
  usage_maximum = 0;
  report_count = 2;
  report_size = 8;
}

abbrev items : DataItemSet
items = record {
  report_ids = 0 ∷ [];
  data_items = insert empty_map 0 (modifiers ∷ axes ∷ []);
  types = insert empty_map 0 (insert (insert empty_map 0 input) 1 input);
}

abbrev layout : Layout
layout = new_layout items

abbrev begin : ReportState
begin = new_report_state items

shift_address : set_address layout 0x700e1 ≡ some (record { report_id = 0; item_idx = 0 })
unfolding set_address new_layout
shift_address = refl

-- The left shift and the right one go down, and the mouse moves by 3.
abbrev pressed : Event
pressed = record {
  usages =
      activation true 0x700e1
      ∷ activation true 0x700e5
      ∷ record { usage = 0x10030; activate = none; value = none; delta = some 3 }
      ∷ [];
  usage_map = insert (insert (insert empty_map 0x700e1 0) 0x700e5 1) 0x10030 2;
}

abbrev summary : Option (ReportState × List (List ℕ)) → Option (List (List ℕ) × ℕ × Option Report)
summary none = none
summary (some (r, out)) = some (out, r.usage_activations 0 0x700e1, r.reports 0)

-- The report has both keys and the movement, and the state keeps the keys only.
pressed_reports :
    summary (apply_event layout begin pressed)
    ≡ some (
      (34 ∷ 3 ∷ 0 ∷ []) ∷ [],
      1,
      some (record {
        id = 0;
        fields =
            record { missing_bits = 0; bytes = 34 ∷ [] }
            ∷ record { missing_bits = 0; bytes = 0 ∷ 0 ∷ [] }
            ∷ [];
      }),
    )
unfolding apply_event new_layout new_report_state Option.bind apply_usage change_field set_usage
    get_value set_value encode_report concat_bits range_set_usage set_at set_bytes
pressed_reports = refl

abbrev first : ItemAddress
first = record { report_id = 0; item_idx = 0 }

abbrev second : ItemAddress
second = record { report_id = 0; item_idx = 1 }

-- The usages of sets are the modifiers, and those with a value the axes.
modifier_address :
    (u : ℕ) (a : ItemAddress)
    → set_address layout u ≡ some a
    → (a ≡ first) × (page u ≡ 7) × (0xe0 ≤ id u) × (id u ≤ 0xe7)
unfolding set_address new_layout
modifier_address u a h = elim (Bool-cases (page u == 7)) [
  | inl on ↦
      let run : or_range none (if leb 0xe0 (id u) && leb (id u) 0xe7 then some first else none)
          ≡ some a =
        rw on at h in
      ground arith
  | inr off ↦ absurd (clash (rw off at h))
]
  where
    clash : none ≡ some a → ⊥
    clash k = cc k

axis_address :
    (u : ℕ) (a : ItemAddress)
    → layout.usage_values_index u ≡ some a
    → (a ≡ second)
      × (slot : ℕ) × (slot < 2)
      × (new_usage_values (0x10030 ∷ 0x10031 ∷ []) 8 0 1).usage_index u ≡ some slot
unfolding new_layout
axis_address u a h = elim (Bool-cases (u == 0x10031)) [
  | inl y ↦ (ground arith, 1, omega arith, rw y refl)
  | inr other ↦ elim (Bool-cases (u == 0x10030)) [
    | inl x ↦ (ground arith, 0, omega arith, rw (other, x) refl)
    | inr none_of_both ↦ absurd (ground arith)
  ]
]

zeros-IsValid : (n : ℕ) → IsValid (record { missing_bits = 0; bytes = replicate n 0 })
zeros-IsValid n = record {
  bytes_valid = All-replicate IsByte n 0 (omega arith);
  missing_small = omega arith;
  missing_fits = omega arith;
}

begin-IsSound : IsSound (λ i. length (report items i)) begin
unfolding new_report_state new_zeros missing_for bytes_for
begin-IsSound i rep h = elim (Bool-cases (i == 0)) [
  | inl same ↦
      let is : record {
        id = i;
        fields =
            record { missing_bits = 0; bytes = 0 ∷ [] }
            ∷ record { missing_bits = 0; bytes = 0 ∷ 0 ∷ [] }
            ∷ [];
      }
          ≡ rep =
        Option.some_inj.0 (rw same at h) in
      rw (← is) (refl, rw same refl, (zeros-IsValid 1, (zeros-IsValid 2, tt)))
  | inr other ↦ absurd (clash (rw other at h))
]
  where
    clash : none ≡ some rep → ⊥
    clash k = cc k

begin-IsReady : IsReady layout begin
unfolding new_layout new_report_state usage_set_of usage_values_of Option.bind new_zeros missing_for
    bytes_for
begin-IsReady = record {
  sound = begin-IsSound;
  sets = λ u a hu e.
      let (is, on, low, high) = modifier_address u a e in
      record {
        item = modifiers;
        item_there = ap (item_at layout) is;
        set = range_flags (record { usage_page = 7; minimum = 0xe0; maximum = 0xe7 });
        set_there = ap (set_at_address layout) is;
        flags = tt;
        field = record { missing_bits = 0; bytes = 0 ∷ [] };
        field_there = ap (field_at begin) is;
        bit = id u - 0xe0;
        bit_there = ground arith;
        inside = omega arith;
      };
  values = λ u a e.
      let (is, slot, few, indexed) = axis_address u a e in
      record {
        item = axes;
        item_there = ap (item_at layout) is;
        values = new_usage_values (0x10030 ∷ 0x10031 ∷ []) 8 0 1;
        values_there = ap (values_at_address layout) is;
        field = record { missing_bits = 0; bytes = 0 ∷ 0 ∷ [] };
        field_there = ap (field_at begin) is;
        slot = record {
          sized = inr (inl refl);
          slot = slot;
          indexed = indexed;
          inside = omega arith;
        };
      };
  apart = λ u v a a' e f. rw ((modifier_address u a e).0, (axis_address v a' f).0) refl;
}

apply_event-Applied_example : Applied layout begin pressed
apply_event-Applied_example =
    apply_event-Applied layout begin pressed begin-IsReady
      (new_report_state-IsCounted layout items begin-IsReady)
      (omega arith, (omega arith, (omega arith, tt)))
