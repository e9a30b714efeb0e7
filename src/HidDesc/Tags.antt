-- ===== src/HidDesc/Tags.antt =====
-- hidapi/hiddesc/tags.go: the tags of descriptor items. The low two bits of a tag byte hold the size
-- of the payload.
use neio_agent.Prelude.{ℕ, ◌+◌, ◌*◌, ◌/◌, ◌%◌}

abbrev pub tag_input : ℕ
tag_input = 0x80

abbrev pub tag_output : ℕ
tag_output = 0x90

abbrev pub tag_feature : ℕ
tag_feature = 0xB0

abbrev pub tag_collection : ℕ
tag_collection = 0xA0

abbrev pub tag_end_collection : ℕ
tag_end_collection = 0xC0

abbrev pub tag_usage_page : ℕ
tag_usage_page = 0x04

abbrev pub tag_logical_minimum : ℕ
tag_logical_minimum = 0x14

abbrev pub tag_logical_maximum : ℕ
tag_logical_maximum = 0x24

abbrev pub tag_physical_minimum : ℕ
tag_physical_minimum = 0x34

abbrev pub tag_physical_maximum : ℕ
tag_physical_maximum = 0x44

abbrev pub tag_unit_exponent : ℕ
tag_unit_exponent = 0x54

abbrev pub tag_unit : ℕ
tag_unit = 0x64

abbrev pub tag_report_size : ℕ
tag_report_size = 0x74

abbrev pub tag_report_id : ℕ
tag_report_id = 0x84

abbrev pub tag_report_count : ℕ
tag_report_count = 0x94

abbrev pub tag_push : ℕ
tag_push = 0xA4

abbrev pub tag_pop : ℕ
tag_pop = 0xB4

abbrev pub tag_usage : ℕ
tag_usage = 0x08

abbrev pub tag_usage_minimum : ℕ
tag_usage_minimum = 0x18

abbrev pub tag_usage_maximum : ℕ
tag_usage_maximum = 0x28

abbrev pub tag_designator_index : ℕ
tag_designator_index = 0x38

abbrev pub tag_designator_minimum : ℕ
tag_designator_minimum = 0x48

abbrev pub tag_designator_maximum : ℕ
tag_designator_maximum = 0x58

abbrev pub tag_string_index : ℕ
tag_string_index = 0x68

abbrev pub tag_string_minimum : ℕ
tag_string_minimum = 0x78

abbrev pub tag_string_maximum : ℕ
tag_string_maximum = 0x88

abbrev pub tag_delimiter : ℕ
tag_delimiter = 0xA8

-- The item sizes TagItemSize0 to TagItemSize32 are 0 to 3. `t & 0x03` and `t & 0xFC`:
abbrev pub payload_size : ℕ → ℕ
payload_size t = t % 4

abbrev pub tag_prefix : ℕ → ℕ
tag_prefix t = t / 4 * 4

-- `t & 0xFC | size`, for a size below 4.
abbrev pub with_item_size : ℕ → ℕ → ℕ
with_item_size t size = t / 4 * 4 + size
