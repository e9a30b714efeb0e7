-- ===== src/Report/Tests.antt =====
-- Concrete runs of hidapi/codec.go: report 1 of a keyboard, eight modifiers and two axes of 4 bits.
use neio_agent.Prelude.{
  ℕ, ◌≡◌, refl, some, [], ◌∷◌, ◌++◌, arith, All, IsByte, insert, empty_map, inl, inr,
}
use neio_agent.HidDesc.{input, DataItem, collection, nil, cons, item, nested, ReportDescriptor}
use neio_agent.Bits.{Bits, bytes_for, missing_for}
use neio_agent.Bits.View.{bits_of, byte_bits}
use neio_agent.Report.{Report}
use neio_agent.Report.DataItems.{DataItemSet, report, new_data_item_set}
use neio_agent.Report.Types.{with_type}
use neio_agent.Report.Typed.{of_type, in_report, typed_all}
use neio_agent.Report.WithType.{report-with_type}
use neio_agent.Report.Codec.{encode_report, id_bits}
use neio_agent.Report.Fields.{fields_bits, IsField, encode_report_bits}
use neio_agent.Report.DecodeFields.{Fits}
use neio_agent.Report.RoundTrip.{Decodes, decode-encode_report}

abbrev data_item : ℕ → ℕ → ℕ → DataItem
data_item report_id size count = record {
  flags = 2;
  usage_page = 7;
  usage_ids = [];
  usage_minimum = 0xe0;
  usage_maximum = 0xe7;
  report_count = count;
  report_size = size;
  report_id = report_id;
  designator_index = 0;
  designator_minimum = 0;
  designator_maximum = 0;
  logical_minimum = 0;
  logical_maximum = 1;
  physical_minimum = 0;
  physical_maximum = 0;
  unit_exponent = 0;
  unit = 0;
}

abbrev device : ReportDescriptor
device =
    collection 1 1 6 (
      cons (item input (data_item 1 1 8))
        (cons (nested (collection 0 1 2 (cons (item input (data_item 2 8 2)) nil))) nil))
    ∷ []

report-with_type_example :
    report (with_type (new_data_item_set device) input) 2
    ≡ of_type input (in_report 2 (typed_all device))
report-with_type_example = report-with_type device input 2

abbrev items : DataItemSet
items = record {
  report_ids = 1 ∷ [];
  data_items =
      insert empty_map 1
        (data_item 1 1 8 ∷ data_item 1 4 1 ∷ data_item 1 2 1 ∷ data_item 1 8 1 ∷ []);
  types = empty_map;
}

abbrev byte_field : ℕ → Bits
byte_field b = record { missing_bits = 0; bytes = b ∷ [] }

abbrev nibble : Bits
nibble = record { missing_bits = 4; bytes = 0b1010_0000 ∷ [] }

abbrev pair : Bits
pair = record { missing_bits = 6; bytes = 0b1100_0000 ∷ [] }

abbrev keyboard : Report
keyboard = record { id = 1; fields = byte_field 2 ∷ nibble ∷ pair ∷ byte_field 7 ∷ [] }

byte_field-IsField : (b : ℕ) → IsByte b → IsField (byte_field b)
unfolding byte_bits
byte_field-IsField b h = (
  record { bytes_valid = (h, tt); missing_small = omega arith; missing_fits = omega arith },
  refl,
)

small-IsField : IsField nibble × IsField pair
unfolding byte_bits
small-IsField = (
  (
    record {
      bytes_valid = (omega arith, tt);
      missing_small = omega arith;
      missing_fits = omega arith;
    },
    refl,
  ),
  (
    record {
      bytes_valid = (omega arith, tt);
      missing_small = omega arith;
      missing_fits = omega arith;
    },
    refl,
  ),
)

keyboard-AreFields : All IsField keyboard.fields
keyboard-AreFields = (
  byte_field-IsField 2 (omega arith),
  (small-IsField.0, (small-IsField.1, (byte_field-IsField 7 (omega arith), tt))),
)

encode_report_bits_example :
    (b : Bits) × (encode_report keyboard ≡ some b)
    × (bits_of b ≡ bits_of (id_bits 1) ++ fields_bits keyboard.fields)
    × IsField b
encode_report_bits_example = encode_report_bits keyboard (omega arith) keyboard-AreFields

-- The fields begin at the bits 0, 8, 12 and 14 of three bytes.
keyboard-Fits : Fits 0 3 (report items 1)
unfolding bytes_for missing_for
keyboard-Fits = (
  omega arith,
  inl (omega arith, omega arith),
  (
    omega arith,
    inl (omega arith, omega arith),
    (
      omega arith,
      inr (omega arith, omega arith),
      (omega arith, inr (omega arith, omega arith), tt),
    ),
  ),
)

decode-encode_report_example :
    (b : Bits) × (encode_report keyboard ≡ some b) × Decodes items keyboard b.bytes []
unfolding bytes_for
decode-encode_report_example =
    decode-encode_report items keyboard [] (omega arith) keyboard-AreFields
      (refl, (refl, (refl, (refl, tt)))) refl keyboard-Fits
