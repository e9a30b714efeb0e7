-- ===== src/Bits/Scanner.antt =====
-- pkg/bits/bits.go, `Scanner`: fields of a byte slice, one after the other, highest bit first.
use neio_agent.Prelude.{
  ℕ, zero, suc, ◌+◌, ◌-◌, ◌*◌, ◌/◌, ◌%◌, ◌^◌, Option, none, some, List, [], ◌∷◌, ◌++◌, bit_or,
  if◌then◌else◌, ◌==◌, drop, u8,
}
use neio_agent.Bits.{Bits, slice, bytes_for, missing_for}
use mathlib.Core.Option

-- `spare` is what the slice's array holds behind the slice's end: a slice expression may reach it,
-- an index may not.
pub record Scanner : Type 0 where
  pub bit_offset : ℕ
  pub bytes : List ℕ
  pub spare : List ℕ

abbrev pub new_scanner : List ℕ → List ℕ → Scanner
new_scanner xs spare = record { bit_offset = 0; bytes = xs; spare = spare }

-- `n` bytes that begin `k` bits behind the head of the list. Each takes two bytes of the input.
unfoldable pub shifted_bytes : ℕ → ℕ → List ℕ → Option (List ℕ)
shifted_bytes k zero xs = some []
shifted_bytes k (suc n) [] = none
shifted_bytes k (suc n) (a ∷ []) = none
shifted_bytes k (suc n) (a ∷ b ∷ xs) =
    Option.map (λ r. bit_or (u8 (a * 2 ^ k)) (b / 2 ^ (8 - k)) ∷ r) (shifted_bytes k n (b ∷ xs))

unfoldable pub next : Scanner → ℕ → Option (Bits × Scanner)
next s n =
    let byte_start = s.bit_offset / 8 in
    let bit_start = s.bit_offset % 8 in
    let found =
      if bit_start == 0
      then slice byte_start (byte_start + bytes_for n) (s.bytes ++ s.spare)
      else shifted_bytes bit_start (bytes_for n) (drop byte_start s.bytes) in
    Option.map
      (λ bs. (
        record { missing_bits = missing_for n; bytes = bs },
        record s { bit_offset = s.bit_offset + n },
      ))
      found
