-- ===== src/HidDesc/State.antt =====
-- hidapi/hiddesc/decoder.go: the state of the descriptor decoder.
use neio_agent.Prelude.{ℕ, Option, none, List, []}
use neio_agent.HidDesc.{Collection, DataItem}

pub record GlobalState : Type 0 where
  pub usage_page : ℕ
  pub logical_minimum : ℕ
  pub logical_maximum : ℕ
  pub physical_minimum : ℕ
  pub physical_maximum : ℕ
  pub unit_exponent : ℕ
  pub unit : ℕ
  pub report_id : ℕ
  pub report_count : ℕ
  pub report_size : ℕ

pub record LocalState : Type 0 where
  pub usage : List ℕ
  pub usage_minimum : ℕ
  pub usage_maximum : ℕ
  pub designator_index : ℕ
  pub designator_minimum : ℕ
  pub designator_maximum : ℕ
  pub string_index : ℕ
  pub string_minimum : ℕ
  pub string_maximum : ℕ

-- `command` is 0 between commands. A command's function is found by its tag, in `commandMap`.
pub record State : Type 0 where
  pub global : GlobalState
  pub local : LocalState
  pub global_stack : List GlobalState
  pub collection : Option Collection
  pub collections : List Collection
  pub collection_stack : List Collection
  pub command : ℕ
  pub command_payload_len : ℕ
  pub command_payload : List ℕ

-- `&globalState{}` and `&localState{}`
abbrev pub no_global : GlobalState
no_global = record {
  usage_page = 0;
  logical_minimum = 0;
  logical_maximum = 0;
  physical_minimum = 0;
  physical_maximum = 0;
  unit_exponent = 0;
  unit = 0;
  report_id = 0;
  report_count = 0;
  report_size = 0;
}

abbrev pub no_local : LocalState
no_local = record {
  usage = [];
  usage_minimum = 0;
  usage_maximum = 0;
  designator_index = 0;
  designator_minimum = 0;
  designator_maximum = 0;
  string_index = 0;
  string_minimum = 0;
  string_maximum = 0;
}

abbrev pub init_state : State
init_state = record {
  global = no_global;
  local = no_local;
  global_stack = [];
  collection = none;
  collections = [];
  collection_stack = [];
  command = 0;
  command_payload_len = 0;
  command_payload = [];
}

abbrev pub new_data_item : State → ℕ → DataItem
new_data_item s flags = record {
  flags = flags;
  usage_page = s.global.usage_page;
  usage_ids = s.local.usage;
  usage_minimum = s.local.usage_minimum;
  usage_maximum = s.local.usage_maximum;
  report_count = s.global.report_count;
  report_size = s.global.report_size;
  report_id = s.global.report_id;
  designator_index = s.local.designator_index;
  designator_minimum = s.local.designator_minimum;
  designator_maximum = s.local.designator_maximum;
  logical_minimum = s.global.logical_minimum;
  logical_maximum = s.global.logical_maximum;
  physical_minimum = s.global.physical_minimum;
  physical_maximum = s.global.physical_maximum;
  unit_exponent = s.global.unit_exponent;
  unit = s.global.unit;
}
