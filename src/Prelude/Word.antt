-- ===== src/Prelude/Word.antt =====
-- Bytes and machine words as native numbers: the ranges, the casts, sign extension, and the
-- little-endian reads and writes of encoding/binary.
use Prim.Native.Nat.{ℕ, ◌+◌, ◌*◌, ◌/◌, ◌%◌, ◌^◌, ◌<◌}
use mathlib.Core.Path.{◌≡◌}
use native.Mathlib.Omega.{arith}
use neio_agent.Prelude.Tests.{ltb, if◌then◌else◌}

abbrev pub IsByte : ℕ → Type 0
IsByte b = b < 256

abbrev pub IsU16 : ℕ → Type 0
IsU16 v = v < 65536

abbrev pub IsU32 : ℕ → Type 0
IsU32 v = v < 4294967296

abbrev pub u8 : ℕ → ℕ
u8 n = n % 256

abbrev pub u16 : ℕ → ℕ
u16 n = n % 65536

abbrev pub u32 : ℕ → ℕ
u32 n = n % 4294967296

-- An int32 is its bit pattern, a number below 2 ^ 32. `int32(int8(b))` and `int32(int16(v))` extend
-- the sign bit.
abbrev pub sign_extend8 : ℕ → ℕ
sign_extend8 b = if ltb b 128 then b else b + 0xffff_ff00

abbrev pub sign_extend16 : ℕ → ℕ
sign_extend16 v = if ltb v 32768 then v else v + 0xffff_0000

-- `uint16` and `uint32` from bytes, lowest first.
abbrev pub le16 : ℕ → ℕ → ℕ
le16 a b = a + 256 * b

abbrev pub le32 : ℕ → ℕ → ℕ → ℕ → ℕ
le32 a b c d = a + 256 * b + 65536 * c + 16777216 * d

-- Byte `k` of a word.
abbrev pub byte_at : ℕ → ℕ → ℕ
byte_at k v = v / 256 ^ k % 256

pub le32-byte_at :
    (v : ℕ) → IsU32 v → le32 (byte_at 0 v) (byte_at 1 v) (byte_at 2 v) (byte_at 3 v) ≡ v
le32-byte_at v h = omega arith

pub le16-byte_at : (v : ℕ) → IsU16 v → le16 (byte_at 0 v) (byte_at 1 v) ≡ v
le16-byte_at v h = omega arith
