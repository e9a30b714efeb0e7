-- ===== src/Report/Encodes.antt =====
-- `EncodeReport` of hidapi/codec.go does not panic on well-formed fields, whatever their missing bits
-- are.
use neio_agent.Prelude.{
  ℕ, zero, suc, ◌+◌, ◌-◌, ◌*◌, ◌%◌, ◌<◌, ◌≤◌, ◌≡◌, refl, ap, true, false, some, List, [], ◌∷◌, ◌++◌,
  ◌==◌, ◌&&◌, if◌then◌else◌, leb, arith, All, length, length-append, take, take_all, Bool,
  Bool-cases, inl, inr, ◌⊎◌,
}
use mathlib.Core.Option
use neio_agent.Bits.{Bits, IsValid, new}
use neio_agent.Bits.Concat.{concat_loop, concat_bytes, concat_bits}
use neio_agent.Report.{Report}
use neio_agent.Report.Codec.{encode_report, concat_fields, id_bits}

-- At most seven bits are missing, and none where there is no byte.
record IsWhole (b : Bits) : Type 0 where
  small : b.missing_bits < 8
  fits : b.missing_bits ≤ 8 * length b.bytes

concat_loop-length : (m room cur : ℕ) (bs : List ℕ) → 0 < length (concat_loop m room cur bs)
unfolding concat_loop
concat_loop-length m room cur [] = omega arith
concat_loop-length m zero cur (b ∷ bs) = omega arith
concat_loop-length m (suc room) cur (b ∷ bs) = omega arith

concat_bytes_total :
    (m size : ℕ) (l : List ℕ) (b : ℕ) (bs : List ℕ)
    → 0 < length l
    → (r : List ℕ) × (concat_bytes m size l (b ∷ bs) ≡ some r) × (0 < length r)
unfolding concat_bytes
concat_bytes_total m size [] b bs h = absurd (omega arith)
concat_bytes_total m size (a ∷ []) b bs h =
    (concat_loop m (size - 1) a (b ∷ bs), refl, concat_loop-length m (size - 1) a (b ∷ bs))
concat_bytes_total m size (a ∷ c ∷ l) b bs h =
    let (r, e, n) = concat_bytes_total m (size - 1) (c ∷ l) b bs (omega arith) in
    (a ∷ r, ap (Option.map (λ t. a ∷ t)) e, omega arith)

concat_parts :
    (m size : ℕ) (l : List ℕ) (n : ℕ) (r : List ℕ)
    → 0 < length l
    → n ≤ 8 * length r
    → length l ≤ size ⊎ (0 < length r)
    → (bs : List ℕ) × (concat_bytes m size l r ≡ some bs) × (0 < length bs)
unfolding concat_bytes
concat_parts m size l n [] h k (inl fits) = (take size l, refl, rw (take_all size l fits) h)
concat_parts m size l n [] h k (inr more) = absurd (omega arith)
concat_parts m size l n (b ∷ bs) h k room = concat_bytes_total m size l b bs h

concat_bits_total :
    (l r : Bits) → IsWhole l → IsWhole r → (c : Bits) × (concat_bits l r ≡ some c) × IsWhole c
unfolding concat_bits
concat_bits_total l r wl wr = elim (Bool-cases (l.missing_bits == 0)) [
  | inl e ↦ (
    record { missing_bits = r.missing_bits; bytes = l.bytes ++ r.bytes },
    rw e refl,
    record { small = wr.small; fits = omega (arith, wr.fits, length-append l.bytes r.bytes) },
  )
  | inr e ↦
      let carry = leb 8 (l.missing_bits + r.missing_bits) in
      let total = length l.bytes + length r.bytes in
      let full : 0 < length l.bytes = ground (arith, wl.fits) in
      let (bs, h, n) =
        concat_parts l.missing_bits (if carry then total - 1 else total) l.bytes r.missing_bits
          r.bytes full wr.fits (room carry refl) in
      let there : (carry && total == 0) ≡ false = ground arith in
      (
        record { missing_bits = (l.missing_bits + r.missing_bits) % 8; bytes = bs },
        rw (e, there) (ap (Option.map _) h),
        record { small = omega arith; fits = omega arith },
      )
]
  where
    room :
        (carry : Bool)
        → leb 8 (l.missing_bits + r.missing_bits) ≡ carry
        → length l.bytes ≤ (
            if carry then length l.bytes + length r.bytes - 1 else length l.bytes + length r.bytes)
          ⊎ (0 < length r.bytes)
    room false h = inl (omega arith)
    room true h = inr (ground (arith, wl.small, wr.fits))

concat_fields_total :
    (fs : List Bits) (b : Bits)
    → IsWhole b
    → All IsValid fs
    → (c : Bits) × (concat_fields b fs ≡ some c)
unfolding concat_fields Option.bind
concat_fields_total [] b w h = (b, refl)
concat_fields_total (f ∷ fs) b w (hf, hfs) =
    let (c, e, wc) =
      concat_bits_total b f w (record { small = hf.missing_small; fits = hf.missing_fits }) in
    let (d, e') = concat_fields_total fs c wc hfs in (d, rw e e')

id_bits-IsWhole : (id : ℕ) → IsWhole (id_bits id)
unfolding new
id_bits-IsWhole id = elim (Bool-cases (id == 0)) [
  | inl e ↦ rw e (record { small = omega arith; fits = omega arith })
  | inr e ↦ rw e (record { small = omega arith; fits = omega arith })
]

pub encode_report_total :
    (r : Report) → All IsValid r.fields → (b : Bits) × (encode_report r ≡ some b)
unfolding encode_report
encode_report_total r h = concat_fields_total r.fields (id_bits r.id) (id_bits-IsWhole r.id) h
