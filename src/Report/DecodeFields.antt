-- ===== src/Report/DecodeFields.antt =====
-- `Decode` on bytes that hold the fields: what it reads.
use neio_agent.Prelude.{
  ℕ, ◌+◌, ◌/◌, ◌%◌, ◌≡◌, ◌≢◌, ◌<◌, ◌≤◌, ◌⊎◌, refl, sym, ap, ◌∙◌, some, List, [], ◌∷◌, ◌++◌, arith,
  All, IsByte, append_assoc, length, take, drop, length-take, ==_of_ne, take-append_exact,
  drop-append_exact, drop-drop,
}
use mathlib.Core.Option
use neio_agent.HidDesc.{DataItem}
use neio_agent.Bits.{Bits, len, IsValid, bytes_for}
use neio_agent.Bits.Scanner.{Scanner}
use neio_agent.Bits.View.{bits_of, bytes_bits, length-bytes_bits}
use neio_agent.Bits.Scan.{next_reads, bytes_for_bits}
use neio_agent.Report.Codec.{decode_fields, field_size}
use neio_agent.Report.Fields.{fields_bits, IsField}

-- The fields have the sizes of the data items.
abbrev pub Sized : List DataItem → List Bits → Type 0
Sized [] [] = Unit
Sized [] (f ∷ fs) = ⊥
Sized (d ∷ ds) [] = ⊥
Sized (d ∷ ds) (f ∷ fs) = (len f ≡ field_size d) × Sized ds fs

-- From the bit `o` of `n` bytes on, no field is empty, and none that begins inside a byte reaches
-- the last byte.
abbrev pub Fits : ℕ → ℕ → List DataItem → Type 0
Fits o n [] = Unit
Fits o n (d ∷ ds) =
    (0 < field_size d)
    × (((o % 8 ≡ 0) × (o / 8 + bytes_for (field_size d) ≤ n))
        ⊎ ((o % 8 ≢ 0) × (o / 8 + bytes_for (field_size d) < n)))
    × Fits (o + field_size d) n ds

-- The same bits in every field.
abbrev pub SameBits : List Bits → List Bits → Type 0
SameBits [] [] = Unit
SameBits [] (f ∷ fs) = ⊥
SameBits (d ∷ ds) [] = ⊥
SameBits (d ∷ ds) (f ∷ fs) = (bits_of f ≡ bits_of d) × SameBits ds fs

pub length-bits_of : (b : Bits) → IsValid b → length (bits_of b) ≡ len b
length-bits_of b v =
    omega (arith, length-take (len b) (bytes_bits b.bytes), length-bytes_bits b.bytes)

pub length_bytes : (b : Bits) → IsValid b → length b.bytes ≡ bytes_for (len b)
length_bytes b v = omega (arith, bytes_for_bits (len b), v.missing_small, v.missing_fits)

pub decode_fields_lem :
    (s : Scanner) (ds : List DataItem) (fs : List Bits) (tail : List ℕ)
    → All IsByte s.bytes
    → All IsField fs
    → Sized ds fs
    → Fits s.bit_offset (length s.bytes) ds
    → drop s.bit_offset (bytes_bits s.bytes) ≡ fields_bits fs ++ tail
    → (gs : List Bits) × (decode_fields s ds ≡ some (some gs)) × SameBits fs gs
unfolding decode_fields Option.bind
decode_fields_lem s [] [] tail v w z h e = ([], refl, tt)
decode_fields_lem s [] (f ∷ fs) tail v w z h e = elim z [ ]
decode_fields_lem s (d ∷ ds) [] tail v w z h e = elim z [ ]
decode_fields_lem s (d ∷ ds) (f ∷ fs) tail v (wf, ws) (zf, zs) (pos, inside, h) e =
    let n = field_size d in
    let (b, run, reads, valid) = next_reads s n v inside in
    let s' : Scanner = record s { bit_offset = s.bit_offset + n } in
    let size : length (bits_of f) ≡ n = length-bits_of f wf.0 ∙ zf in
    let e' : drop s.bit_offset (bytes_bits s.bytes) ≡ bits_of f ++ (fields_bits fs ++ tail) =
      e ∙ append_assoc (bits_of f) (fields_bits fs) tail in
    let same : bits_of b ≡ bits_of f =
      reads ∙ ap (take n) e' ∙ take-append_exact n (bits_of f) (fields_bits fs ++ tail) size in
    let rest : drop s'.bit_offset (bytes_bits s.bytes) ≡ fields_bits fs ++ tail =
      sym (drop-drop n s.bit_offset (bytes_bits s.bytes))
      ∙ ap (drop n) e'
      ∙ drop-append_exact n (bits_of f) (fields_bits fs ++ tail) size in
    let len_b : len b ≡ n = sym (length-bits_of b valid) ∙ ap length same ∙ size in
    let (gs, run', others) = decode_fields_lem s' ds fs tail v ws zs h rest in
    (b ∷ gs, rw (run, ==_of_ne {a = len b} {b = 0} (omega arith), run') refl, (same, others))
