-- ===== src/HidDesc/Segments.antt =====
-- The decoder on what `encodeTag` and its variants write.
use neio_agent.Prelude.{
  ℕ, ◌%◌, ◌≡◌, ◌≢◌, some, List, ◌++◌, ltb, leb, ◌==◌, ◌&&◌, if◌then◌else◌, drop, byte_at,
  Bool-cases, inl, inr,
}
use neio_agent.HidDesc.Payload.{◌>>=◌}
use neio_agent.HidDesc.State.{State}
use neio_agent.HidDesc.Commands.{Command, exec, command_of}
use neio_agent.HidDesc.Decoder.{parse_bytes}
use neio_agent.HidDesc.Encoder.{encode_tag, encode_tag8, encode_tag16, encode_tag32, encode_tagi32}
use neio_agent.HidDesc.Feed.{idle, parse_command0, parse_command1, parse_command2, parse_command3}

-- A tag of the table, and its command.
abbrev pub IsTag : Command → ℕ → Type 0
IsTag c t = (t % 4 ≡ 0) × (t ≢ 0) × (command_of t ≡ some c)

module _ (c : Command) (t : ℕ) (tag : IsTag c t) (s : State) where
  -- The bytes execute the command on the payload, and the rest goes on from there.
  abbrev pub Executes : List ℕ → Type 0
  Executes bs =
      (rest : List ℕ)
      → parse_bytes (idle s) (bs ++ rest)
        ≡ (exec c (idle s) (drop 1 bs) >>= λ s'. parse_bytes s' rest)

  pub parse_tag : Executes (encode_tag t)
  unfolding encode_tag
  parse_tag rest = parse_command0 c t tag.0 tag.1 tag.2 s rest

  pub parse_tag8 : (v : ℕ) → Executes (encode_tag8 t v)
  unfolding encode_tag8
  parse_tag8 v rest = parse_command1 c t tag.0 tag.1 tag.2 s v rest

  pub parse_tag16 : (v : ℕ) → Executes (encode_tag16 t v)
  unfolding encode_tag16 encode_tag8
  parse_tag16 v rest = elim (Bool-cases (ltb v 0x100)) [
    | inl e ↦ rw e (parse_command1 c t tag.0 tag.1 tag.2 s v rest)
    | inr e ↦ rw e (parse_command2 c t tag.0 tag.1 tag.2 s (byte_at 0 v) (byte_at 1 v) rest)
  ]

  pub parse_tag32 : (v : ℕ) → Executes (encode_tag32 t v)
  unfolding encode_tag32
  parse_tag32 v rest = elim (Bool-cases (ltb v 0x100)) [
    | inl e ↦ rw e (parse_tag8 v rest)
    | inr e ↦ elim (Bool-cases (ltb v 0x10000)) [
      | inl f ↦ rw (e, f) (parse_tag16 v rest)
      | inr f ↦
          rw (e, f)
            (parse_command3 c t tag.0 tag.1 tag.2 s (byte_at 0 v) (byte_at 1 v) (byte_at 2 v)
              (byte_at 3 v) rest)
    ]
  ]

  pub parse_tagi32 : (v : ℕ) → Executes (encode_tagi32 t v)
  unfolding encode_tagi32
  parse_tagi32 v rest =
      let pad : ℕ = if leb 0x8000_0000 v then 0xff else 0 in
      elim (Bool-cases (byte_at 1 v == pad && byte_at 2 v == pad && byte_at 3 v == pad)) [
        | inl e ↦ rw e (parse_command1 c t tag.0 tag.1 tag.2 s (byte_at 0 v) rest)
        | inr e ↦ elim (Bool-cases (byte_at 2 v == pad && byte_at 3 v == pad)) [
          | inl f ↦
              rw (e, f) (parse_command2 c t tag.0 tag.1 tag.2 s (byte_at 0 v) (byte_at 1 v) rest)
          | inr f ↦
              rw (e, f)
                (parse_command3 c t tag.0 tag.1 tag.2 s (byte_at 0 v) (byte_at 1 v) (byte_at 2 v)
                  (byte_at 3 v) rest)
        ]
      ]
