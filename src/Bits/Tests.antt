-- ===== src/Bits/Tests.antt =====
-- Concrete runs of pkg/bits/bits.go: 5 LED bits, a byte of two fields, a joined report.
use neio_agent.Prelude.{ℕ, ◌≡◌, refl, true, false, none, some, [], ◌∷◌, arith, inr, drop, take, not}
use neio_agent.Bits.{Bits, set_at, IsValid, bytes_for, missing_for, is_set, clear_all, is_empty}
use neio_agent.Bits.Scanner.{Scanner, next}
use neio_agent.Bits.Concat.{concat_bits}
use neio_agent.Bits.View.{bytes_bits, bits_of, byte_bits}
use neio_agent.Bits.Carry.{IsClean}
use neio_agent.Bits.Append.{Appends, concat_bits-append}
use neio_agent.Bits.Scan.{next_reads, next_unaligned_end}
use neio_agent.Bits.Update.{clear_all_lem}

-- 1 0 1 1 0, and 1 1 1 1 0 0 0 0 1 1.
abbrev five : Bits
five = record { missing_bits = 3; bytes = 0b10110000 ∷ [] }

abbrev ten : Bits
ten = record { missing_bits = 6; bytes = 0b11110000 ∷ 0b11000000 ∷ [] }

five-IsValid : IsValid five
five-IsValid = record {
  bytes_valid = (omega arith, tt);
  missing_small = omega arith;
  missing_fits = omega arith;
}

ten-IsValid : IsValid ten
ten-IsValid = record {
  bytes_valid = (omega arith, (omega arith, tt));
  missing_small = omega arith;
  missing_fits = omega arith;
}

five-IsClean : IsClean five
unfolding byte_bits
five-IsClean = refl

concat_bits-append_example : (c : Bits) × (concat_bits five ten ≡ some c) × Appends five ten c
concat_bits-append_example = concat_bits-append five ten five-IsValid ten-IsValid five-IsClean

-- A scanner 3 bits into 3 bytes.
abbrev three_in : Scanner
three_in = record { bit_offset = 3; bytes = 0b10110011 ∷ 0b11110000 ∷ 0b00001111 ∷ []; spare = [] }

next_reads_example :
    (b : Bits) × (next three_in 7 ≡ some (b, record three_in { bit_offset = 10 }))
    × (bits_of b ≡ take 7 (drop 3 (bytes_bits three_in.bytes)))
    × IsValid b
unfolding next bytes_for missing_for
next_reads_example =
    next_reads three_in 7 (omega arith, (omega arith, (omega arith, tt)))
      (inr (omega arith, omega arith))

-- A keyboard's LED report: five LED bits, and three bits of padding.
abbrev leds : Scanner
leds = record { bit_offset = 5; bytes = 0b00000010 ∷ []; spare = [] }

next_unaligned_end_example : next leds 3 ≡ none
next_unaligned_end_example = next_unaligned_end leds 3 (omega arith) (omega arith) refl

clear_all_lem_example :
    ((j : ℕ) → is_set (clear_all ten).0 j ≡ false)
    × (is_empty (clear_all ten).0 ≡ true)
    × ((clear_all ten).1 ≡ (not (is_empty ten)))
clear_all_lem_example = clear_all_lem ten

-- The first bit of a field of three bits, set from the low end: it is none of the field's bits.
abbrev three : Bits
three = record { missing_bits = 5; bytes = 0 ∷ [] }

set_outside : ((set_at three 0).0.bytes ≡ 1 ∷ []) × (bits_of (set_at three 0).0 ≡ 0 ∷ 0 ∷ 0 ∷ [])
unfolding set_at byte_bits
set_outside = (refl, refl)
