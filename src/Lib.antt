-- ===== src/Lib.antt =====
-- neio-agent reads HID reports of input devices, turns them into usage events, lets a graph of nodes
-- and actions change them, and writes reports to output devices. This library models its core.
--
-- The parts, and how they meet. A device's report descriptor (hidapi/hiddesc) is decoded from bytes,
-- and the output side encodes the descriptor that it builds. Its data items say which fields a report
-- has (hidapi/data_items.go); a report is split into fields, and fields are joined to a report
-- (hidapi/codec.go), over bit strings (pkg/bits). The usage sets (hidapi/usage_set.go) read usages
-- from a field and write them; an event (hidapi/event.go) carries the changes. The state of a device
-- (hidapi/state.go) turns a report into an event and an event into reports. Nodes pass events on
-- along the graph that the configuration describes (internal/flowsvc/graph.go): the mux
-- (components/nodes/mux.go) to the downstream node of its route, and the bind node
-- (components/nodes/bind.go) with its keys replaced by actions, and the split node
-- (components/nodes/split.go) in parts, by usage. Actions make events, such as the keys
-- of a character (components/actions/char.go).
--
-- Files.
--   Prelude, with Tests, Lists, Word and Lookup: Boolean tests, lists, bytes and words, maps.
--   Bits: pkg/bits/bits.go. Scanner and Concat hold `Scanner` and `ConcatBits`; View says which bits
--     bytes stand for; Table, Carry, Join, Append, Shift, Scan and Update hold the proofs.
--   HidDesc: hidapi/hiddesc. Tags, Payload, State, Commands and Decoder are tags.go, commands.go and
--     decoder.go; Encoder is encoder.go. Numbers, Feed, Chunks, Segments, Tracking, Globals, Locals,
--     Writable, Parts, MainItems and RoundTrip follow the encoder's output through the decoder.
--   Event: hidapi/event.go; Index, Update and Batch prove that an event is a finite map, and
--     Activations and Latest read it by its slice and by its map.
--   Report: hidapi/report.go, with DataItems (data_items.go; Types is `WithType`,
--     Listed, Typed and WithType have the laws), Codec (codec.go), Fields, DecodeFields
--     and RoundTrip.
--   Usages: hidapi/usage.go and usage_set.go; Selector has the fields of key slots, and Values the
--     fields of numbers (usage_values.go). Diff is `UsageSetDiff`. Flags, Slots, WideSlots,
--     SlotBytes, ValueLaws and ValueMap have the laws.
--   ReportState: hidapi/state.go. Sets is the interface `UsageSet` with NewUsageSets and
--     NewUsageValuesItems; Init is `NewReportState`, Events `ApplyEvent`, Reports `ApplyReport`,
--     `InitReports` and `GetReport`. Laws, Changes, Ready, Steps, Usages, Finish, Counted and Start
--     follow the counts of the activations and the fields through an event.
--   Flow: internal/flowsvc/graph.go, the builder of the graph of nodes; Config says what a
--     configuration describes, and Built that the builder holds it. Validate is `Validate` with
--     `validateCycles`; its children compare the checks and the search with the walks of the graph.
--   Arguments: flowapi/arguments.go, the arguments of an action against the parameters of its
--     declaration (the syntax tree of flowapi/flowdsl/parser.go). Accepted says which are accepted,
--     Named what a name gives then. An expression is only passed on: its type is a parameter.
--   Bind: components/nodes/bind.go, triggers and their actions; Handlers has the handlers of
--     flowapi/action.go that write usages. Counters, Triggers and Fires have
--     the laws of a mapping; Trace and Calls follow a run step by step.
--   Split: components/nodes/split.go, the events that `Run` sends for an event; Routed has the law.
--   Output: internal/hidsvc/node_output.go, `buildDescriptor`. Ids is the search for a free report id,
--     Kept says when the devices keep their ids.
--   Mux: components/nodes/mux.go, the signals of `Run`; Events has the branch that handles an event.
--     Routes, Moves and Pressed have the laws.
--   Chars: components/actions/char.go; Layout compares it with a US keyboard, Keys has the digits.
--   The Tests modules run the theorems on concrete inputs.
--
-- How the model follows the code. Numbers are natural numbers with the ranges of their Go types; an
-- int32 is its bit pattern. A method that changes an object returns the new one. A run-time panic is
-- a value: `panic` of the results of the decoder and of `NewArguments`, and `none` elsewhere. A map whose keys are numbers is a
-- function into Option. The reader of the descriptor decoder is the list of chunks that it returns, at whose end
-- it ends or fails,
-- the writer of the encoder is the list of the bytes written. Every loop is structural, and
-- the loops of the 16-bit slots count their rounds, but for `validate_cycles`: its fuel is one more than
-- the number of nodes, which is enough since the nodes on a path of the search are distinct
-- (`validate-ne-out_of_fuel`); and for `free_id`, whose 256 rounds try every report id
-- (`free_id-IsFree_iff`). Go maps are iterated in no fixed order; where `NewReportState` does
-- so, the model goes by ascending index.
--
-- Not modelled: time stamps, logging, rate limits and mutexes (each method of an event holds its lock
-- from start to end); the other nodes and actions; the grammar of the flow's language, which a library
-- runs, streams and services (flowapi, internal/flowsvc but for the graph's construction); devices and files
-- (internal/hidsvc, internal/configsvc), which are I/O; the generated tables of usage names.
pub mod Prelude
pub mod Bits
pub mod HidDesc
pub mod Event
pub mod Report
pub mod Usages
pub mod ReportState
pub mod Flow
pub mod Arguments
pub mod Bind
pub mod Split
pub mod Output
pub mod Mux
pub mod Chars
