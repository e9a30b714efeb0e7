-- ===== src/Report/Fields.antt =====
-- The bits of an encoded report, and the fields that are read from it.
use neio_agent.Prelude.{
  ℕ, ◌≡◌, refl, sym, ap, ◌∙◌, some, List, [], ◌∷◌, ◌++◌, ◌==◌, arith, All, IsByte, append_assoc,
  append-nil, Bool-cases, inl, inr, drop_all,
}
use mathlib.Core.Option
use neio_agent.Bits.{Bits, IsValid, new}
use neio_agent.Bits.View.{bits_of, bytes_bits, length-bytes_bits}
use neio_agent.Bits.Carry.{IsClean}
use neio_agent.Bits.Append.{concat_bits-append}
use neio_agent.Report.{Report}
use neio_agent.Report.Codec.{encode_report, concat_fields, id_bits}

abbrev pub fields_bits : List Bits → List ℕ
fields_bits [] = []
fields_bits (f ∷ fs) = bits_of f ++ fields_bits fs

-- A well-formed field whose missing bits are clear. This is a condition: `Scanner.Next` leaves the bits
-- behind the field in its last byte, and `Set` counts the bits of a byte from the low end, where the
-- missing ones are.
abbrev pub IsField : Bits → Type 0
IsField b = IsValid b × IsClean b

concat_fields-bits :
    (fs : List Bits) (b : Bits)
    → IsField b
    → All IsField fs
    → (c : Bits) × (concat_fields b fs ≡ some c)
      × (bits_of c ≡ bits_of b ++ fields_bits fs)
      × IsField c
unfolding concat_fields Option.bind
concat_fields-bits [] b v h = (b, refl, sym (append-nil _), v)
concat_fields-bits (f ∷ fs) b v (hf, hfs) =
    let (c, e, joined) = concat_bits-append b f v.0 hf.0 v.1 in
    let (d, e', p, w) = concat_fields-bits fs c (joined.valid, joined.clean hf.1) hfs in
    (
      d,
      rw e e',
      p
          ∙ ap (λ l. l ++ fields_bits fs) joined.bits
          ∙ append_assoc (bits_of b) (bits_of f) (fields_bits fs),
      w,
    )

id_bits-IsField : (id : ℕ) → IsByte id → IsField (id_bits id)
unfolding new
id_bits-IsField id h = elim (Bool-cases (id == 0)) [
  | inl e ↦
      rw e
        (record { bytes_valid = tt; missing_small = omega arith; missing_fits = omega arith }, refl)
  | inr e ↦ rw e (
    record { bytes_valid = (h, tt); missing_small = omega arith; missing_fits = omega arith },
    drop_all 8 (bytes_bits (id ∷ [])) (omega (arith, length-bytes_bits (id ∷ []))),
  )
]

-- `EncodeReport` on a report whose fields are well-formed and have their missing bits clear does
-- not panic. Its bits are those of the report id, if that is not 0, and of the fields in order.
pub encode_report_bits :
    (r : Report)
    → IsByte r.id
    → All IsField r.fields
    → (b : Bits) × (encode_report r ≡ some b)
      × (bits_of b ≡ bits_of (id_bits r.id) ++ fields_bits r.fields)
      × IsField b
unfolding encode_report
encode_report_bits r h hs = concat_fields-bits r.fields (id_bits r.id) (id_bits-IsField r.id h) hs
