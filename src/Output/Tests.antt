-- ===== src/Output/Tests.antt =====
-- internal/hidsvc/node_output.go: keyboards with one byte of modifiers, with the report id 1 or 2.
use neio_agent.Prelude.{
  ℕ, ◌≡◌, refl, Option, some, List, [], ◌∷◌, ◌↔◌, arith, Map, empty_map, insert,
}
use mathlib.Core.Option
use neio_agent.HidDesc.{input, DataItem, Collection, collection, nil, cons, item}
use neio_agent.HidDesc.Payload.{ok, to_uint16, to_uint32, to_int32}
use neio_agent.HidDesc.Decoder.{decode, parse_chunks, parse_bytes, step, complete, finish}
use neio_agent.HidDesc.Commands.{
  exec, find_command, command_table, command_of, cmd_main, cmd_collection, cmd_end_collection,
}
use neio_agent.Report.DataItems.{new_data_item_set, drill_all, drill, drill_items, drill_item, add}
use neio_agent.Output.Ids.{IsFree, free_id-IsFree_iff}
use neio_agent.Output.Kept.{one_more, none_asked, build_descriptor-Delivers}
use neio_agent.Output.{
  build_descriptor, join_inputs, built, add_input, assign_ids, assign_id, free_id, renumber_all,
  renumber, renumber_items, renumber_item,
}

abbrev raw : ℕ → List ℕ
raw id =
    0x05 ∷ 0x07 ∷ 0x09 ∷ 0x06 ∷ 0xa1 ∷ 0x01 ∷ 0x85 ∷ id ∷ 0x19 ∷ 0xe0 ∷ 0x29 ∷ 0xe7 ∷ 0x25 ∷ 1
    ∷ 0x75 ∷ 1 ∷ 0x95 ∷ 8 ∷ 0x81 ∷ 0x02 ∷ 0xc0 ∷ []

abbrev modifiers : ℕ → DataItem
modifiers id = record {
  flags = 2;
  usage_page = 7;
  usage_ids = [];
  usage_minimum = 0xe0;
  usage_maximum = 0xe7;
  report_count = 8;
  report_size = 1;
  report_id = id;
  designator_index = 0;
  designator_minimum = 0;
  designator_maximum = 0;
  logical_minimum = 0;
  logical_maximum = 1;
  physical_minimum = 0;
  physical_maximum = 0;
  unit_exponent = 0;
  unit = 0;
}

abbrev keyboard : ℕ → Collection
keyboard id = collection 1 7 6 (cons (item input (modifiers id)) nil)

raw_decoded :
    (decode (raw 1 ∷ []) ≡ ok (keyboard 1 ∷ [])) × (decode (raw 2 ∷ []) ≡ ok (keyboard 2 ∷ []))
unfolding decode parse_chunks parse_bytes step command_of complete finish exec find_command
    command_table cmd_main cmd_collection cmd_end_collection to_uint16 to_uint32 to_int32
raw_decoded = (refl, refl)

-- The address of a device is its report id.
abbrev by_id : ℕ → Option (List (List ℕ))
by_id id = some (raw id ∷ [])

-- Three keyboards of the same kind.
abbrev alike : ℕ → Option (List (List ℕ))
alike addr = some (raw 1 ∷ [])

-- The second and the third get the same id.
third_collides :
    build_descriptor alike (0 ∷ 1 ∷ 2 ∷ []) ≡ built (keyboard 1 ∷ keyboard 2 ∷ keyboard 2 ∷ [])
unfolding decode parse_chunks parse_bytes step command_of complete finish exec find_command
    command_table cmd_main cmd_collection cmd_end_collection to_uint16 to_uint32 to_int32
    build_descriptor join_inputs add_input assign_ids assign_id free_id renumber_all renumber
    renumber_items renumber_item new_data_item_set drill_all drill drill_items drill_item add
    Option.bind
third_collides = refl

build_descriptor-Delivers_example :
    build_descriptor by_id (1 ∷ 2 ∷ []) ≡ built (keyboard 1 ∷ keyboard 2 ∷ [])
unfolding new_data_item_set drill_all drill drill_items drill_item add
build_descriptor-Delivers_example =
    build_descriptor-Delivers by_id (1 ∷ 2 ∷ []) ((keyboard 1 ∷ []) ∷ (keyboard 2 ∷ []) ∷ [])
      (one_more 1 (2 ∷ []) (raw 1 ∷ []) (keyboard 1 ∷ []) ((keyboard 2 ∷ []) ∷ []) refl
        raw_decoded.0
        (one_more 2 [] (raw 2 ∷ []) (keyboard 2 ∷ []) [] refl raw_decoded.1 none_asked))
      (refl, (refl, tt)) (λ h. ground (arith, h))

abbrev taken : Map ℕ
taken = insert (insert empty_map 255 255) 0 0

free_id-IsFree_iff_example :
    (((new : ℕ) × (free_id 256 taken 255 ≡ some new)) ↔ ((free : ℕ) × IsFree taken free))
    × ((new : ℕ) → free_id 256 taken 255 ≡ some new → IsFree taken new)
free_id-IsFree_iff_example = free_id-IsFree_iff taken 255 (omega arith)
