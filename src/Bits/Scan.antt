-- ===== src/Bits/Scan.antt =====
-- `Scanner.Next` reads the next bits, where it does not run off the slice.
use neio_agent.Prelude.{
  ℕ, zero, suc, ◌+◌, ◌-◌, ◌*◌, ◌/◌, ◌%◌, ◌≤◌, ◌<◌, ◌≡◌, ◌≢◌, refl, sym, ap, ◌∙◌, none, some, List,
  [], ◌∷◌, ◌++◌, arith, length, take, drop, All, IsByte, All-take, All-drop, length-append,
  take-append_add, drop-append_le, take-take, drop-drop, drop-nil, take-nil, drop-append_add,
  take-append_le, length-drop, length-take, inl, inr, ◌⊎◌, leb, le→leb, ==_of_eq, ==_of_ne, true,
  true,
}
use neio_agent.Bits.{Bits, IsValid, slice, bytes_for, missing_for}
use neio_agent.Bits.Scanner.{Scanner, next}
use neio_agent.Bits.View.{byte_bits, bytes_bits, bits_of, length-byte_bits}
use neio_agent.Bits.Shift.{Reads, shifted_bytes_bits, shifted_bytes-none}

drop-bytes_bits : (q : ℕ) (xs : List ℕ) → bytes_bits (drop q xs) ≡ drop (8 * q) (bytes_bits xs)
drop-bytes_bits zero xs = refl
drop-bytes_bits (suc q) [] = sym (drop-nil (8 * suc q))
drop-bytes_bits (suc q) (x ∷ xs) =
    let e : 8 * suc q ≡ 8 + 8 * q = omega arith in
    rw e (
      drop-bytes_bits q xs
      ∙ sym (drop-append_add 8 (8 * q) (byte_bits x) (bytes_bits xs) (length-byte_bits x)))

take-bytes_bits : (q : ℕ) (xs : List ℕ) → bytes_bits (take q xs) ≡ take (8 * q) (bytes_bits xs)
take-bytes_bits zero xs = refl
take-bytes_bits (suc q) [] = sym (take-nil (8 * suc q))
take-bytes_bits (suc q) (x ∷ xs) =
    let e : 8 * suc q ≡ 8 + 8 * q = omega arith in
    rw e (
      ap (λ l. byte_bits x ++ l) (take-bytes_bits q xs)
      ∙ sym (take-append_add 8 (8 * q) (byte_bits x) (bytes_bits xs) (length-byte_bits x)))

-- A field of `n` bits in whole bytes.
pub bytes_for_bits : (n : ℕ) → (bytes_for n * 8 ≡ n + missing_for n) × (missing_for n < 8)
unfolding bytes_for missing_for
bytes_for_bits n = ground arith

-- The field's bits, from bytes that hold them.
field_bits :
    (n : ℕ) (xs out : List ℕ)
    → length out ≡ bytes_for n
    → Reads (bytes_for n) xs out
    → (bits_of (record { missing_bits = missing_for n; bytes = out }) ≡ take n xs)
      × IsValid (record { missing_bits = missing_for n; bytes = out })
field_bits n xs out e (bits, valid) =
    let (size, small) = bytes_for_bits n in
    let m : length out * 8 - missing_for n ≡ n = omega arith in
    (
      rw (m, bits) (take-take n (8 * bytes_for n) xs (omega arith)),
      record { bytes_valid = valid; missing_small = small; missing_fits = omega arith },
    )

-- The field lies within the slice. One that does not begin on a byte needs a byte more.
abbrev pub IsInside : Scanner → ℕ → Type 0
IsInside s n =
    ((s.bit_offset % 8 ≡ 0) × (s.bit_offset / 8 + bytes_for n ≤ length s.bytes))
    ⊎ ((s.bit_offset % 8 ≢ 0) × (s.bit_offset / 8 + bytes_for n < length s.bytes))

abbrev NextReads : Scanner → ℕ → Type 0
NextReads s n =
    (b : Bits) × (next s n ≡ some (b, record s { bit_offset = s.bit_offset + n }))
    × (bits_of b ≡ take n (drop s.bit_offset (bytes_bits s.bytes)))
    × IsValid b

slice_inside :
    (lo w : ℕ) (xs spare : List ℕ)
    → lo + w ≤ length xs
    → slice lo (lo + w) (xs ++ spare) ≡ some (take w (drop lo xs))
unfolding slice
slice_inside lo w xs spare h =
    let a : leb lo (lo + w) ≡ true = le→leb lo (lo + w) (omega arith) in
    let b : leb (lo + w) (length (xs ++ spare)) ≡ true =
      le→leb (lo + w) _ (omega (arith, length-append xs spare)) in
    let c : lo + w - lo ≡ w = omega arith in
    rw (a, b, c)
      (ap some (
        ap (take w) (drop-append_le lo xs spare (omega arith))
        ∙ take-append_le w (drop lo xs) spare (omega (arith, length-drop lo xs))))

next_aligned :
    (s : Scanner) (n : ℕ)
    → All IsByte s.bytes
    → s.bit_offset % 8 ≡ 0
    → s.bit_offset / 8 + bytes_for n ≤ length s.bytes
    → NextReads s n
unfolding next
next_aligned s n v z h =
    let q = s.bit_offset / 8 in
    let w = bytes_for n in
    let out = take w (drop q s.bytes) in
    let off : s.bit_offset ≡ 8 * q = omega arith in
    let (bits, valid) =
      field_bits n (drop s.bit_offset (bytes_bits s.bytes)) out
        (omega (arith, length-take w (drop q s.bytes), length-drop q s.bytes))
        (
          take-bytes_bits w (drop q s.bytes)
              ∙ ap (take (8 * w)) (drop-bytes_bits q s.bytes ∙ rw (← off) refl),
          All-take IsByte w (drop q s.bytes) (All-drop IsByte q s.bytes v),
        ) in
    (
      record { missing_bits = missing_for n; bytes = out },
      rw (==_of_eq z, slice_inside q w s.bytes s.spare h) refl,
      bits,
      valid,
    )

next_shifted :
    (s : Scanner) (n : ℕ)
    → All IsByte s.bytes
    → s.bit_offset % 8 ≢ 0
    → s.bit_offset / 8 + bytes_for n < length s.bytes
    → NextReads s n
unfolding next
next_shifted s n v z h =
    let q = s.bit_offset / 8 in
    let k = s.bit_offset % 8 in
    let (out, e, reads, size) =
      shifted_bytes_bits k (omega arith) (bytes_for n) (drop q s.bytes)
        (All-drop IsByte q s.bytes v) (omega (arith, length-drop q s.bytes)) in
    let off : s.bit_offset ≡ 8 * q + k = omega arith in
    let shifted : drop k (bytes_bits (drop q s.bytes)) ≡ drop s.bit_offset (bytes_bits s.bytes) =
      ap (drop k) (drop-bytes_bits q s.bytes)
      ∙ drop-drop k (8 * q) (bytes_bits s.bytes)
      ∙ rw (← off) refl in
    let (bits, valid) =
      field_bits n (drop s.bit_offset (bytes_bits s.bytes)) out size
        (reads.0 ∙ ap (take (8 * bytes_for n)) shifted, reads.1) in
    (record { missing_bits = missing_for n; bytes = out }, rw (==_of_ne z, e) refl, bits, valid)

-- In a slice of bytes where the field lies within the slice (and a field that does not begin on a byte
-- ends before the last one), `Next` succeeds: the field is well-formed, its bits are the
-- next `n` bits of the slice, and the offset moves by `n`.
pub next_reads : (s : Scanner) (n : ℕ) → All IsByte s.bytes → IsInside s n → NextReads s n
next_reads s n v (inl (z, h)) = next_aligned s n v z h
next_reads s n v (inr (z, h)) = next_shifted s n v z h

-- A field that begins inside a byte and ends with the last byte of the slice makes `Next` panic: it
-- reads one byte behind the last. This holds although the slice has all of the field's bits.
pub next_unaligned_end :
    (s : Scanner) (n : ℕ)
    → s.bit_offset % 8 ≢ 0
    → 0 < n
    → s.bit_offset + n ≡ 8 * length s.bytes
    → next s n ≡ none
unfolding next
next_unaligned_end s n z p e =
    let k = s.bit_offset % 8 in
    let q = s.bit_offset / 8 in
    let (size, small) = bytes_for_bits n in
    rw
      (
        ==_of_ne z,
        shifted_bytes-none k (omega arith) (bytes_for n) (drop q s.bytes)
            (omega (arith, length-drop q s.bytes)) (omega arith),
      )
      refl
