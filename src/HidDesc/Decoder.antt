-- ===== src/HidDesc/Decoder.antt =====
-- hidapi/hiddesc/decoder.go: the byte-wise state machine, and `Decode` over the chunks of a reader.
use neio_agent.Prelude.{
  ℕ, zero, suc, Bool, true, none, some, List, [], ◌∷◌, ◌++◌, if◌then◌else◌, ◌==◌, length,
}
use neio_agent.HidDesc.{ReportDescriptor}
use neio_agent.HidDesc.Tags.{payload_size, tag_prefix}
use neio_agent.HidDesc.Payload.{Result, ok, err, panic, unknown_command, read_failed, ◌>>=◌}
use neio_agent.HidDesc.State.{State, init_state}
use neio_agent.HidDesc.Commands.{Command, exec, command_of}

-- `commandPayloadLen` for the four sizes.
abbrev pub payload_len : ℕ → ℕ
payload_len zero = 0
payload_len (suc zero) = 1
payload_len (suc (suc zero)) = 2
payload_len (suc (suc (suc n))) = 4

-- The command is complete: execute it and reset the command state.
unfoldable pub finish : Command → State → Result State
finish c s = exec c s s.command_payload >>= λ s'.
    ok (record s' { command = 0; command_payload = []; command_payload_len = 0 })

-- The check behind the switch: is the payload complete?
unfoldable pub complete : State → Result State
complete s =
    if length s.command_payload == s.command_payload_len
    then elim (command_of s.command) [ none ↦ panic | some c ↦ finish c s ]
    else ok s

-- One round of the loop of `parseBytes`.
unfoldable pub step : State → ℕ → Result State
step s b =
    if s.command == 0
    then elim (command_of (tag_prefix b)) [
      | none ↦ err (unknown_command b)
      | some c ↦ complete (record s {
        command = tag_prefix b;
        command_payload_len = payload_len (payload_size b);
        command_payload = [];
      })
    ]
    else complete (record s { command_payload = s.command_payload ++ (b ∷ []) })

unfoldable pub parse_bytes : State → List ℕ → Result State
parse_bytes s [] = ok s
parse_bytes s (b ∷ bs) = step s b >>= λ s'. parse_bytes s' bs

-- The rounds of `Decode`: each read of the reader gives a chunk, up to the end of the input.
unfoldable pub parse_chunks : State → List (List ℕ) → Result State
parse_chunks s [] = ok s
parse_chunks s (c ∷ cs) = parse_bytes s c >>= λ s'. parse_chunks s' cs

-- `Decode` for a reader that comes to its end.
unfoldable pub decode : List (List ℕ) → Result ReportDescriptor
unfolding parse_chunks
decode chunks = parse_chunks init_state chunks >>= λ s. ok s.collections

-- `d.err`: an error of the reader, which the decoder keeps.
pub record DescriptorDecoder : Type 0 where
  pub failed : Bool

-- A read that fails behind the chunks.
unfoldable pub decode_failing :
    DescriptorDecoder → List (List ℕ) → Result ReportDescriptor × DescriptorDecoder
decode_failing d chunks = elim (parse_chunks init_state chunks) [
  | ok s ↦ (err read_failed, record { failed = true })
  | err e ↦ (err e, d)
  | panic ↦ (panic, d)
]

-- `Decode`: the chunks that the reader returns, and whether an error other than the end follows them.
unfoldable pub decode_reader :
    DescriptorDecoder → List (List ℕ) → Bool → Result ReportDescriptor × DescriptorDecoder
unfolding decode decode_failing
decode_reader d chunks fails =
    if d.failed
    then (err read_failed, d)
    else if fails
    then decode_failing d chunks
    else (decode chunks, d)
