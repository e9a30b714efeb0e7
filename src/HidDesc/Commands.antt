-- ===== src/HidDesc/Commands.antt =====
-- hidapi/hiddesc/commands.go: the functions of the commands, and `commandMap`.
use neio_agent.Prelude.{ℕ, Option, none, some, List, [], ◌∷◌, ◌++◌, if◌then◌else◌, ◌==◌, u8}
use neio_agent.HidDesc.{
  MainItemType, input, output, feature, Collection, collection, nil, item, nested, add_item,
}
use neio_agent.HidDesc.Tags.{
  tag_input, tag_output, tag_feature, tag_collection, tag_end_collection, tag_usage_page,
  tag_logical_minimum, tag_logical_maximum, tag_physical_minimum, tag_physical_maximum,
  tag_unit_exponent, tag_unit, tag_report_size, tag_report_id, tag_report_count, tag_push, tag_pop,
  tag_usage, tag_usage_minimum, tag_usage_maximum, tag_designator_index, tag_designator_minimum,
  tag_designator_maximum, tag_string_index, tag_string_minimum, tag_string_maximum, tag_delimiter,
}
use neio_agent.HidDesc.Payload.{
  Result, ok, err, panic, bad_length, no_open_collection, stack_empty, not_implemented, ◌>>=◌,
  to_uint16, to_uint32, to_int32,
}
use neio_agent.HidDesc.State.{GlobalState, LocalState, State, no_local, new_data_item}

-- The one byte of a payload.
abbrev pub one_byte : List ℕ → Result ℕ
one_byte [] = err bad_length
one_byte (a ∷ []) = ok a
one_byte (a ∷ b ∷ r) = err bad_length

-- `cmdInput`, `cmdOutput` and `cmdFeature`, which differ in the type.
unfoldable pub cmd_main : MainItemType → State → List ℕ → Result State
cmd_main t s payload = elim s.collection [
  | none ↦ err no_open_collection
  | some c ↦ one_byte payload >>= λ flags. ok (record s {
    collection = some (add_item c (item t (new_data_item s flags)));
    local = no_local;
  })
]

-- `state.local.usage[0]` panics where no usage was given.
abbrev pub first_usage : List ℕ → Result ℕ
first_usage [] = panic
first_usage (u ∷ us) = ok u

abbrev pub push_collection : Option Collection → List Collection → List Collection
push_collection none stack = stack
push_collection (some c) stack = c ∷ stack

-- The collection stack is kept top first.
unfoldable pub cmd_collection : State → List ℕ → Result State
cmd_collection s payload = one_byte payload >>= λ t. first_usage s.local.usage >>= λ u.
    ok (record s {
      collection = some (collection t s.global.usage_page u nil);
      collection_stack = push_collection s.collection s.collection_stack;
      local = no_local;
    })

-- The closed collection joins its parent, or the descriptor.
abbrev pub close_collection : Collection → List Collection → State → State
close_collection c [] s = record s {
  collections = s.collections ++ (c ∷ []);
  collection = none;
  local = no_local;
}
close_collection c (parent ∷ stack) s = record s {
  collection = some (add_item parent (nested c));
  collection_stack = stack;
  local = no_local;
}

unfoldable pub cmd_end_collection : State → List ℕ → Result State
cmd_end_collection s [] = elim s.collection [
  | none ↦ err no_open_collection
  | some c ↦ ok (close_collection c s.collection_stack s)
]
cmd_end_collection s (a ∷ r) = err bad_length

-- `cmdPush` ignores its payload, and so does `cmdPop`. The stack is kept top first.
abbrev pub pop_global : List GlobalState → State → Result State
pop_global [] s = err stack_empty
pop_global (g ∷ stack) s = ok (record s { global = g; global_stack = stack })

pub data Command : Type 0 where
  main : MainItemType → Command
  open_collection end_collection usage_page logical_minimum logical_maximum : Command
  physical_minimum physical_maximum unit_exponent unit report_size report_id : Command
  report_count push pop usage usage_minimum usage_maximum designator_index : Command
  designator_minimum designator_maximum string_index string_minimum string_maximum : Command
  delimiter : Command

-- A command that reads a number and stores it in the global or the local state.
abbrev pub put_global : State → Result ℕ → (ℕ → GlobalState) → Result State
put_global s r f = r >>= λ v. ok (record s { global = f v })

abbrev pub put_local : State → Result ℕ → (ℕ → LocalState) → Result State
put_local s r f = r >>= λ v. ok (record s { local = f v })

unfoldable pub exec : Command → State → List ℕ → Result State
unfolding cmd_main cmd_collection cmd_end_collection
exec (main t) s p = cmd_main t s p
exec open_collection s p = cmd_collection s p
exec end_collection s p = cmd_end_collection s p
exec usage_page s p = put_global s (to_uint16 p) (λ v. record s.global { usage_page = v })
exec logical_minimum s p = put_global s (to_int32 p) (λ v. record s.global { logical_minimum = v })
exec logical_maximum s p = put_global s (to_int32 p) (λ v. record s.global { logical_maximum = v })
exec physical_minimum s p =
    put_global s (to_int32 p) (λ v. record s.global { physical_minimum = v })
exec physical_maximum s p =
    put_global s (to_int32 p) (λ v. record s.global { physical_maximum = v })
exec unit_exponent s p = put_global s (to_uint32 p) (λ v. record s.global { unit_exponent = v })
exec unit s p = put_global s (to_uint32 p) (λ v. record s.global { unit = v })
exec report_size s p = put_global s (to_uint32 p) (λ v. record s.global { report_size = v })
exec report_id s p = put_global s (to_uint32 p) (λ v. record s.global { report_id = u8 v })
exec report_count s p = put_global s (to_uint32 p) (λ v. record s.global { report_count = v })
exec push s p = ok (record s { global_stack = s.global ∷ s.global_stack })
exec pop s p = pop_global s.global_stack s
exec usage s p =
    put_local s (to_uint16 p) (λ v. record s.local { usage = s.local.usage ++ (v ∷ []) })
exec usage_minimum s p = put_local s (to_uint16 p) (λ v. record s.local { usage_minimum = v })
exec usage_maximum s p = put_local s (to_uint16 p) (λ v. record s.local { usage_maximum = v })
exec designator_index s p = put_local s (one_byte p) (λ v. record s.local { designator_index = v })
exec designator_minimum s p =
    put_local s (one_byte p) (λ v. record s.local { designator_minimum = v })
exec designator_maximum s p =
    put_local s (one_byte p) (λ v. record s.local { designator_maximum = v })
exec string_index s p = put_local s (one_byte p) (λ v. record s.local { string_index = v })
exec string_minimum s p = put_local s (one_byte p) (λ v. record s.local { string_minimum = v })
exec string_maximum s p = put_local s (one_byte p) (λ v. record s.local { string_maximum = v })
exec delimiter s p = err not_implemented

-- `commandMap`
unfoldable pub command_table : List (ℕ × Command)
command_table =
    (tag_input, main input)
    ∷ (tag_output, main output)
    ∷ (tag_feature, main feature)
    ∷ (tag_collection, open_collection)
    ∷ (tag_end_collection, end_collection)
    ∷ (tag_usage_page, usage_page)
    ∷ (tag_logical_minimum, logical_minimum)
    ∷ (tag_logical_maximum, logical_maximum)
    ∷ (tag_physical_minimum, physical_minimum)
    ∷ (tag_physical_maximum, physical_maximum)
    ∷ (tag_unit_exponent, unit_exponent)
    ∷ (tag_unit, unit)
    ∷ (tag_report_size, report_size)
    ∷ (tag_report_id, report_id)
    ∷ (tag_report_count, report_count)
    ∷ (tag_push, push)
    ∷ (tag_pop, pop)
    ∷ (tag_usage, usage)
    ∷ (tag_usage_minimum, usage_minimum)
    ∷ (tag_usage_maximum, usage_maximum)
    ∷ (tag_designator_index, designator_index)
    ∷ (tag_designator_minimum, designator_minimum)
    ∷ (tag_designator_maximum, designator_maximum)
    ∷ (tag_string_index, string_index)
    ∷ (tag_string_minimum, string_minimum)
    ∷ (tag_string_maximum, string_maximum)
    ∷ (tag_delimiter, delimiter)
    ∷ []

unfoldable pub find_command : ℕ → List (ℕ × Command) → Option Command
find_command t [] = none
find_command t ((k, c) ∷ r) = if t == k then some c else find_command t r

unfoldable pub command_of : ℕ → Option Command
unfolding command_table find_command
command_of t = find_command t command_table
