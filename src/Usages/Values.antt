-- ===== src/Usages/Values.antt =====
-- hidapi/usage_values.go, and the integer slots of pkg/bits/bits.go: fields that hold one number for
-- each usage. An int32 is its bit pattern. A field's slice has no spare array behind it, so a slot
-- behind the end panics: `none`.
use neio_agent.Prelude.{
  ℕ, suc, ◌+◌, ◌*◌, ◌%◌, Option, none, some, List, [], ◌∷◌, if◌then◌else◌, leb, ◌==◌, length,
  get_or, set, le16, le32, byte_at, sign_extend8, sign_extend16, Map, empty_map,
}
use mathlib.Core.Option
use neio_agent.Bits.{Bits}
use neio_agent.Usages.{index_ids}

-- Bytes from a place on.
unfoldable pub set_bytes : ℕ → List ℕ → List ℕ → List ℕ
set_bytes i [] xs = xs
set_bytes i (b ∷ bs) xs = set_bytes (suc i) bs (set xs i b)

-- `b.bytes[index*w:(index+1)*w]`, and what is read from it or put in front of it.
abbrev pub in_slot {ℓ} : {A : Type ℓ} → ℕ → List ℕ → ℕ → A → Option A
in_slot w xs index a = if leb ((index + 1) * w) (length xs) then some a else none

-- `Uint8` and `Uint7`; `Uint16` with the width 2 and `Uint24` with 3, which read two bytes; `Uint32`.
abbrev pub uint8 : List ℕ → ℕ → Option ℕ
uint8 xs i = in_slot 1 xs i (get_or xs (i * 1) 0)

abbrev pub uint7 : List ℕ → ℕ → Option ℕ
uint7 xs i = Option.map (λ x. x % 128) (uint8 xs i)

abbrev pub uint16 : ℕ → List ℕ → ℕ → Option ℕ
uint16 w xs i = in_slot w xs i (le16 (get_or xs (i * w) 0) (get_or xs (i * w + 1) 0))

abbrev pub uint32 : List ℕ → ℕ → Option ℕ
uint32 xs i = in_slot 4 xs i (
    le32 (get_or xs (i * 4) 0) (get_or xs (i * 4 + 1) 0) (get_or xs (i * 4 + 2) 0)
      (get_or xs (i * 4 + 3) 0))

-- `SetUint8` and `SetUint7`, `SetUint16` and `SetUint24`, `SetUint32`.
abbrev pub set_uint8 : List ℕ → ℕ → ℕ → Option (List ℕ)
set_uint8 xs i v = in_slot 1 xs i (set_bytes (i * 1) (byte_at 0 v ∷ []) xs)

abbrev pub set_uint7 : List ℕ → ℕ → ℕ → Option (List ℕ)
set_uint7 xs i v = set_uint8 xs i (v % 128)

abbrev pub set_uint16 : ℕ → List ℕ → ℕ → ℕ → Option (List ℕ)
set_uint16 w xs i v = in_slot w xs i (set_bytes (i * w) (byte_at 0 v ∷ byte_at 1 v ∷ []) xs)

abbrev pub set_uint32 : List ℕ → ℕ → ℕ → Option (List ℕ)
set_uint32 xs i v =
    in_slot 4 xs i
      (set_bytes (i * 4) (byte_at 0 v ∷ byte_at 1 v ∷ byte_at 2 v ∷ byte_at 3 v ∷ []) xs)

pub record UsageValues : Type 0 where
  pub usages : List ℕ
  pub usage_index : Map ℕ
  pub size : ℕ
  pub minimum : ℕ
  pub maximum : ℕ

abbrev pub new_usage_values : List ℕ → ℕ → ℕ → ℕ → UsageValues
new_usage_values usages size minimum maximum = record {
  usages = usages;
  usage_index = index_ids 0 usages empty_map;
  size = size;
  minimum = minimum;
  maximum = maximum;
}

-- The switches on the size.
unfoldable pub get_slot : ℕ → List ℕ → ℕ → Option ℕ
get_slot size xs i =
    if size == 7
    then Option.map sign_extend8 (uint7 xs i)
    else if size == 8
    then Option.map sign_extend8 (uint8 xs i)
    else if size == 16
    then Option.map sign_extend16 (uint16 2 xs i)
    else if size == 24
    then Option.map sign_extend16 (uint16 3 xs i)
    else if size == 32
    then uint32 xs i
    else some 0

unfoldable pub set_slot : ℕ → List ℕ → ℕ → ℕ → Option (List ℕ)
set_slot size xs i v =
    if size == 7
    then set_uint7 xs i v
    else if size == 8
    then set_uint8 xs i v
    else if size == 16
    then set_uint16 2 xs i v
    else if size == 24
    then set_uint16 3 xs i v
    else if size == 32
    then set_uint32 xs i v
    else some xs

abbrev pub get_at : ℕ → List ℕ → Option ℕ → Option ℕ
get_at size xs none = some 0
get_at size xs (some i) = get_slot size xs i

abbrev pub set_in : ℕ → List ℕ → ℕ → Option ℕ → Option (List ℕ)
set_in size xs v none = some xs
set_in size xs v (some i) = set_slot size xs i v

-- `GetValue` and `SetValue`.
unfoldable pub get_value : UsageValues → Bits → ℕ → Option ℕ
unfolding get_slot
get_value s b u = get_at s.size b.bytes (s.usage_index u)

unfoldable pub set_value : UsageValues → Bits → ℕ → ℕ → Option Bits
unfolding set_slot
set_value s b u v =
    Option.map (λ xs. record b { bytes = xs }) (set_in s.size b.bytes v (s.usage_index u))
