-- ===== src/Bits.antt =====
-- pkg/bits/bits.go: a bit string in bytes, its tests and updates by bit number (lowest bit of a
-- byte first), and its integer slots. A method that writes through the shared byte slice returns
-- the new value. `none` is a run-time panic: an index or a slice out of range.
pub mod Scanner
pub mod Concat
pub mod View
pub mod Carry
pub mod Join
pub mod Append
pub mod Shift
pub mod Scan
pub mod Table
pub mod Update
mod Tests
use neio_agent.Prelude.{
  ℕ, zero, suc, ◌+◌, ◌-◌, ◌*◌, ◌/◌, ◌%◌, ◌^◌, ◌<◌, ◌≤◌, ◌≡◌, Bool, true, false, not, ◌&&◌, ◌||◌,
  Option, none, some, List, [], ◌∷◌, ◌++◌, bit_and, bit_or, if◌then◌else◌, ltb, leb, ◌==◌, length,
  get_elem?, get_or, set, take, drop, replicate, All, IsByte, u8, le16, le32, byte_at, map,
}

pub record Bits : Type 0 where
  pub missing_bits : ℕ
  pub bytes : List ℕ

-- What every constructor of the package gives: bytes, at most seven missing bits, and none missing
-- where there is no byte.
pub record IsValid (b : Bits) : Type 0 where
  pub bytes_valid : All IsByte b.bytes
  pub missing_small : b.missing_bits < 8
  pub missing_fits : b.missing_bits ≤ 8 * length b.bytes

abbrev pub len : Bits → ℕ
len b = length b.bytes * 8 - b.missing_bits

-- Equality of byte slices of one length, as the loop of `Equal` compares them.
unfoldable pub equal_bytes : List ℕ → List ℕ → Bool
equal_bytes [] ys = true
equal_bytes (x ∷ xs) [] = false
equal_bytes (x ∷ xs) (y ∷ ys) = x == y && equal_bytes xs ys

unfoldable pub equal : Bits → Bits → Bool
equal a b =
    if not (a.missing_bits == b.missing_bits)
    then false
    else if not (length a.bytes == length b.bytes)
    then false
    else equal_bytes a.bytes b.bytes

-- `x & (1 << k) != 0`, `x | 1 << k` and `x &^ (1 << k)` on one byte.
abbrev pub test_bit : ℕ → ℕ → Bool
test_bit x k = not (bit_and x (2 ^ k) == 0)

abbrev pub set_bit : ℕ → ℕ → ℕ
set_bit x k = bit_or x (2 ^ k)

abbrev pub clear_bit : ℕ → ℕ → ℕ
clear_bit x k = bit_and x (255 - 2 ^ k)

unfoldable pub is_set : Bits → ℕ → Bool
is_set b bit = if leb (len b) bit then false else test_bit (get_or b.bytes (bit / 8) 0) (bit % 8)

-- `Set` reports whether the bit changed.
unfoldable pub set_at : Bits → ℕ → Bits × Bool
set_at b bit =
    let old = get_or b.bytes (bit / 8) 0 in
    if leb (len b) bit then (b, false) else (
      record b { bytes = set b.bytes (bit / 8) (set_bit old (bit % 8)) },
      not (test_bit old (bit % 8)),
    )

unfoldable pub clear_at : Bits → ℕ → Bits × Bool
clear_at b bit =
    let old = get_or b.bytes (bit / 8) 0 in
    if leb (len b) bit then (b, false) else (
      record b { bytes = set b.bytes (bit / 8) (clear_bit old (bit % 8)) },
      test_bit old (bit % 8),
    )

unfoldable pub any_set : List ℕ → Bool
any_set [] = false
any_set (x ∷ xs) = not (x == 0) || any_set xs

unfoldable pub zero_bytes : List ℕ → List ℕ
zero_bytes [] = []
zero_bytes (x ∷ xs) = 0 ∷ zero_bytes xs

unfoldable pub clear_all : Bits → Bits × Bool
unfolding any_set zero_bytes
clear_all b = (record b { bytes = zero_bytes b.bytes }, any_set b.bytes)

unfoldable pub is_empty : Bits → Bool
unfolding any_set
is_empty b = not (any_set b.bytes)

-- The calls `f(i, set)` of `Each` in order, for a callback that never stops it.
unfoldable pub each_from : Bits → ℕ → ℕ → List (ℕ × Bool)
each_from b i zero = []
each_from b i (suc n) = (i, test_bit (get_or b.bytes (i / 8) 0) (i % 8)) ∷ each_from b (suc i) n

unfoldable pub each : Bits → List (ℕ × Bool)
unfolding each_from
each b = each_from b 0 (len b)

-- `x[lo:hi]`, within the slice.
unfoldable pub slice : ℕ → ℕ → List ℕ → Option (List ℕ)
slice lo hi xs =
    if leb lo hi && leb hi (length xs) then some (take (hi - lo) (drop lo xs)) else none

-- The bytes that a field of so many bits takes, and the bits missing from the last of them.
unfoldable pub missing_for : ℕ → ℕ
missing_for n = let m = 8 - n % 8 in if m == 8 then 0 else m

unfoldable pub bytes_for : ℕ → ℕ
unfolding missing_for
bytes_for n = if ltb 0 (missing_for n) then n / 8 + 1 else n / 8

unfoldable pub new_zeros : ℕ → Bits
unfolding missing_for bytes_for
new_zeros n = record { missing_bits = missing_for n; bytes = replicate (bytes_for n) 0 }

unfoldable pub new : List ℕ → ℕ → Bits
new xs missing = record { missing_bits = u8 missing; bytes = xs }
