-- ===== src/HidDesc/Numbers.antt =====
-- The payload that the encoder writes for a number, and what the decoder reads back.
use neio_agent.Prelude.{
  ℕ, ◌%◌, ◌≤◌, ◌<◌, ◌≡◌, ◌↔◌, ◌⊎◌, sym, ap, ◌∙◌, arith, if◌then◌else◌, ltb, drop, IsU16, IsU32,
  sign_extend8, sign_extend16,
}
use neio_agent.HidDesc.Payload.{ok, to_uint16, to_uint32, to_int32}
use neio_agent.HidDesc.Encoder.{encode_tag8, encode_tag16, encode_tag32, encode_tagi32}

-- The 16-bit numbers are read back as they were.
pub to_uint16-encode_tag16 : (t v : ℕ) → IsU16 v → to_uint16 (drop 1 (encode_tag16 t v)) ≡ ok v
unfolding to_uint16 encode_tag16 encode_tag8
to_uint16-encode_tag16 t v h = ground arith

pub to_uint32-encode_tag32 : (t v : ℕ) → IsU32 v → to_uint32 (drop 1 (encode_tag32 t v)) ≡ ok v
unfolding to_uint32 encode_tag32 encode_tag16 encode_tag8
to_uint32-encode_tag32 t v h = ground arith

-- The int32 bit patterns that `encodeTagi32` writes without loss: its test for a short payload looks
-- at the bytes that it drops, and not at the sign bit of the byte that it keeps.
abbrev pub IsExact : ℕ → Type 0
IsExact v =
    (v < 0x80)
    ⊎ ((0x100 ≤ v) × (v < 0x8000))
    ⊎ ((0x1_0000 ≤ v) × (v < 0xffff_0000))
    ⊎ ((0xffff_8000 ≤ v) × (v < 0xffff_ff00))
    ⊎ (0xffff_ff80 ≤ v)

-- What the decoder makes of the payload that the encoder wrote.
abbrev pub reread : ℕ → ℕ
reread v =
    if ltb v 0x100
    then sign_extend8 v
    else if ltb v 0x1_0000
    then sign_extend16 v
    else if ltb v 0xffff_0000
    then v
    else if ltb v 0xffff_ff00
    then sign_extend16 (v % 65536)
    else sign_extend8 (v % 256)

to_int32-encode_tagi32 : (t v : ℕ) → IsU32 v → to_int32 (drop 1 (encode_tagi32 t v)) ≡ ok (reread v)
unfolding to_int32 encode_tagi32
to_int32-encode_tagi32 t v h = ground arith

reread-IsExact : (v : ℕ) → IsU32 v → (reread v ≡ v) ↔ IsExact v
reread-IsExact v h = (λ e. ground arith, λ x. ground arith)

ok_injective : {a b : ℕ} → ok a ≡ ok b → a ≡ b
ok_injective e = cc

-- An int32 that the encoder writes is read back as it was exactly for the patterns of `IsExact`:
-- all but 128 to 255, 32768 to 65535, -256 to -129 and -65536 to -32769.
pub to_int32-encode_tagi32_iff :
    (t v : ℕ) → IsU32 v → (to_int32 (drop 1 (encode_tagi32 t v)) ≡ ok v) ↔ IsExact v
to_int32-encode_tagi32_iff t v h =
    let e = to_int32-encode_tagi32 t v h in
    let (there, back) = reread-IsExact v h in
    (λ r. there (ok_injective (sym e ∙ r)), λ x. e ∙ ap ok (back x))
