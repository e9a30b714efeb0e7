-- ===== src/HidDesc/Tests.antt =====
-- Concrete runs of the descriptor codec: a one-byte keyboard report of modifiers.
use neio_agent.Prelude.{true, false, ◌≡◌, ◌↔◌, refl, [], ◌∷◌, arith, All, drop, inl, inr}
use neio_agent.HidDesc.{input, DataItem, collection, nil, cons, item, nested, ReportDescriptor}
use neio_agent.HidDesc.Tags.{tag_logical_minimum}
use neio_agent.HidDesc.Payload.{ok, err, read_failed, to_int32}
use neio_agent.HidDesc.Decoder.{
  decode, decode_reader, decode_failing, parse_chunks, parse_bytes, step, complete,
}
use neio_agent.HidDesc.Commands.{find_command, command_table, command_of}
use neio_agent.HidDesc.Encoder.{encode, encode_tagi32}
use neio_agent.HidDesc.Numbers.{IsExact, to_int32-encode_tagi32_iff}
use neio_agent.HidDesc.Chunks.{decode-joined}
use neio_agent.HidDesc.Writable.{IsWritable, IsWritableCollection, AreWritable, IsWritableItem}
use neio_agent.HidDesc.RoundTrip.{decode-encode}

-- Modifiers as a usage range of single bits, and two usages whose values go from -127 to 127.
abbrev modifiers : DataItem
modifiers = record {
  flags = 2;
  usage_page = 7;
  usage_ids = [];
  usage_minimum = 0xe0;
  usage_maximum = 0xe7;
  report_count = 8;
  report_size = 1;
  report_id = 1;
  designator_index = 0;
  designator_minimum = 0;
  designator_maximum = 0;
  logical_minimum = 0;
  logical_maximum = 1;
  physical_minimum = 0;
  physical_maximum = 0;
  unit_exponent = 0;
  unit = 0;
}

abbrev axes : DataItem
axes = record {
  flags = 6;
  usage_page = 1;
  usage_ids = 0x30 ∷ 0x31 ∷ [];
  usage_minimum = 0;
  usage_maximum = 0;
  report_count = 2;
  report_size = 8;
  report_id = 2;
  designator_index = 0;
  designator_minimum = 0;
  designator_maximum = 0;
  logical_minimum = 0xffff_ff81;
  logical_maximum = 127;
  physical_minimum = 0;
  physical_maximum = 0;
  unit_exponent = 0;
  unit = 0;
}

abbrev device : ReportDescriptor
device =
    collection 1 1 6 (
      cons (item input modifiers)
        (cons (nested (collection 0 1 2 (cons (item input axes) nil))) nil))
    ∷ []

modifiers-IsWritable : IsWritable modifiers
modifiers-IsWritable = record {
  flags = omega arith;
  usage_page = omega arith;
  usage_ids = tt;
  usage_minimum = omega arith;
  usage_maximum = omega arith;
  report_count = omega arith;
  report_size = omega arith;
  report_id = omega arith;
  logical_minimum = (omega arith, inl (omega arith));
  logical_maximum = (omega arith, inl (omega arith));
  physical_minimum = (omega arith, inl (omega arith));
  physical_maximum = (omega arith, inl (omega arith));
  unit_exponent = omega arith;
  unit = omega arith;
}

axes-IsWritable : IsWritable axes
axes-IsWritable = record {
  flags = omega arith;
  usage_page = omega arith;
  usage_ids = (omega arith, omega arith, omega arith, (omega arith, omega arith, omega arith, tt));
  usage_minimum = omega arith;
  usage_maximum = omega arith;
  report_count = omega arith;
  report_size = omega arith;
  report_id = omega arith;
  logical_minimum = (omega arith, inr (inr (inr (inr (omega arith)))));
  logical_maximum = (omega arith, inl (omega arith));
  physical_minimum = (omega arith, inl (omega arith));
  physical_maximum = (omega arith, inl (omega arith));
  unit_exponent = omega arith;
  unit = omega arith;
}

device-AreWritable : All IsWritableCollection device
unfolding IsWritableCollection AreWritable IsWritableItem
device-AreWritable = (
  (
    omega arith,
    omega arith,
    omega arith,
    omega arith,
    (
      modifiers-IsWritable,
      ((omega arith, omega arith, omega arith, omega arith, (axes-IsWritable, tt)), tt),
    ),
  ),
  tt,
)

decode-encode_example : decode (encode device ∷ []) ≡ ok device
decode-encode_example = decode-encode device device-AreWritable

-- A command cut in two by the reader, and an empty read.
decode-joined_example :
    decode ((0x05 ∷ []) ∷ [] ∷ (0x01 ∷ 0xc0 ∷ []) ∷ []) ≡ decode ((0x05 ∷ 0x01 ∷ 0xc0 ∷ []) ∷ [])
decode-joined_example =
    decode-joined ((0x05 ∷ []) ∷ [] ∷ (0x01 ∷ 0xc0 ∷ []) ∷ []) ((0x05 ∷ 0x01 ∷ 0xc0 ∷ []) ∷ []) refl

to_int32-encode_tagi32_iff_example :
    (to_int32 (drop 1 (encode_tagi32 tag_logical_minimum 255)) ≡ ok 255) ↔ IsExact 255
to_int32-encode_tagi32_iff_example =
    to_int32-encode_tagi32_iff tag_logical_minimum 255 (omega arith)

-- An error of the reader behind the first byte, which is kept.
reader_failed :
    (decode_reader (record { failed = false }) ((0x05 ∷ []) ∷ []) true
      ≡ (err read_failed, record { failed = true }))
    × ((decode_reader (record { failed = true }) [] false).0 ≡ err read_failed)
unfolding decode_reader decode_failing parse_chunks parse_bytes step command_of find_command
    command_table complete
reader_failed = (refl, refl)
