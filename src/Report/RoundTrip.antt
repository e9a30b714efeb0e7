-- ===== src/Report/RoundTrip.antt =====
-- `EncodeReport` and then `Decode`.
use neio_agent.Prelude.{
  ℕ, suc, ◌+◌, ◌*◌, ◌^◌, ◌≡◌, ◌<◌, refl, sym, ap, ◌∙◌, true, false, not, some, List, [], ◌∷◌, ◌++◌,
  ◌==◌, arith, All, IsByte, append_assoc, append-nil, length, take, drop, Bool-cases, inl, inr,
  ==_iff, length-append, take-append_exact, drop-append_exact, take_all, append-cancel-take,
}
use mathlib.Core.Option
use neio_agent.HidDesc.{DataItem}
use neio_agent.Bits.{Bits, len, new, bytes_for}
use neio_agent.Bits.Scanner.{new_scanner}
use neio_agent.Bits.View.{bits_of, bytes_bits, byte_bits, length-byte_bits}
use neio_agent.Bits.Scan.{bytes_for_bits}
use neio_agent.Report.{Report}
use neio_agent.Report.DataItems.{DataItemSet, report, has_report_id}
use neio_agent.Report.Codec.{encode_report, id_bits, decode_fields, decode, field_size}
use neio_agent.Report.Fields.{fields_bits, IsField, encode_report_bits}
use neio_agent.Report.DecodeFields.{
  Sized, Fits, SameBits, length-bits_of, length_bytes, decode_fields_lem,
}

abbrev pub total : List DataItem → ℕ
total [] = 0
total (d ∷ ds) = field_size d + total ds

length-fields_bits :
    (ds : List DataItem) (fs : List Bits)
    → All IsField fs
    → Sized ds fs
    → length (fields_bits fs) ≡ total ds
length-fields_bits [] [] w z = refl
length-fields_bits [] (f ∷ fs) w z = elim z [ ]
length-fields_bits (d ∷ ds) [] w z = elim z [ ]
length-fields_bits (d ∷ ds) (f ∷ fs) (wf, ws) (zf, zs) = omega (
  arith,
  length-append (bits_of f) (fields_bits fs),
  length-bits_of f wf.0,
  zf,
  length-fields_bits ds fs ws zs,
)

unfoldable byte_value : List ℕ → ℕ
byte_value [] = 0
byte_value (b ∷ bs) = b * 2 ^ length bs + byte_value bs

byte_bits_injective : (a b : ℕ) → a < 256 → b < 256 → byte_bits a ≡ byte_bits b → a ≡ b
unfolding byte_bits byte_value
byte_bits_injective a b ha hb e =
    let v : byte_value (byte_bits a) ≡ byte_value (byte_bits b) = ap byte_value e in
    omega (arith, v)

-- The parts of `decode` on bytes that begin with the fields.
decode_rest :
    (items : DataItemSet) (id : ℕ) (rest spare : List ℕ) (fs : List Bits) (tail : List ℕ)
    → All IsByte rest
    → All IsField fs
    → Sized (report items id) fs
    → Fits 0 (length rest) (report items id)
    → bytes_bits rest ≡ fields_bits fs ++ tail
    → (gs : List Bits) × (decode_fields (new_scanner rest spare) (report items id) ≡ some (some gs))
      × SameBits fs gs
decode_rest items id rest spare fs tail v w z h e =
    decode_fields_lem (new_scanner rest spare) (report items id) fs tail v w z h e

abbrev pub Decodes : DataItemSet → Report → List ℕ → List ℕ → Type 0
Decodes items r bytes spare =
    (gs : List Bits) × (decode items bytes spare ≡ some (some (record { id = r.id; fields = gs })))
    × SameBits r.fields gs

decode_no_id :
    (items : DataItemSet) (r : Report) (bytes spare tail : List ℕ)
    → All IsByte bytes
    → All IsField r.fields
    → Sized (report items r.id) r.fields
    → has_report_id items ≡ false
    → r.id ≡ 0
    → length bytes ≡ bytes_for (total (report items r.id))
    → Fits 0 (bytes_for (total (report items r.id))) (report items r.id)
    → bytes_bits bytes ≡ fields_bits r.fields ++ tail
    → Decodes items r bytes spare
unfolding decode Option.bind
decode_no_id items r bytes spare tail v w z has_none zero_id n h e =
    let (gs, run, same) = decode_rest items r.id bytes spare r.fields tail v w z (rw n h) e in
    let run0 : decode_fields (new_scanner bytes spare) (report items 0) ≡ some (some gs) =
      ap (λ k. decode_fields (new_scanner bytes spare) (report items k)) (sym zero_id) ∙ run in
    (
      gs,
      rw (has_none, run0) (ap (λ k. some (some (record { id = k; fields = gs }))) (sym zero_id)),
      same,
    )

decode_with_id :
    (items : DataItemSet) (r : Report) (bytes spare tail : List ℕ)
    → IsByte r.id
    → All IsByte bytes
    → All IsField r.fields
    → Sized (report items r.id) r.fields
    → has_report_id items ≡ true
    → length bytes ≡ suc (bytes_for (total (report items r.id)))
    → Fits 0 (bytes_for (total (report items r.id))) (report items r.id)
    → bytes_bits bytes ≡ byte_bits r.id ++ (fields_bits r.fields ++ tail)
    → Decodes items r bytes spare
unfolding decode Option.bind
decode_with_id items r [] spare tail hid v w z has n h e = absurd (omega arith)
decode_with_id items r (x ∷ rest) spare tail hid (vx, vs) w z has n h e =
    let first : byte_bits x ≡ byte_bits r.id =
      sym (take-append_exact 8 (byte_bits x) (bytes_bits rest) (length-byte_bits x))
      ∙ ap (take 8) e
      ∙ take-append_exact 8 (byte_bits r.id) (fields_bits r.fields ++ tail)
          (length-byte_bits r.id) in
    let others : bytes_bits rest ≡ fields_bits r.fields ++ tail =
      sym (drop-append_exact 8 (byte_bits x) (bytes_bits rest) (length-byte_bits x))
      ∙ ap (drop 8) e
      ∙ drop-append_exact 8 (byte_bits r.id) (fields_bits r.fields ++ tail)
          (length-byte_bits r.id) in
    let id : x ≡ r.id = byte_bits_injective x r.id vx hid first in
    let n' : length rest ≡ bytes_for (total (report items r.id)) = omega (arith, n) in
    let (gs, run, same) = decode_rest items r.id rest spare r.fields tail vs w z (rw n' h) others in
    (gs, rw (has, id, run) refl, same)

bytes_for_more : (n : ℕ) → bytes_for (8 + n) ≡ suc (bytes_for n)
bytes_for_more n = omega (arith, bytes_for_bits (8 + n), bytes_for_bits n)

id_bits-one : (id : ℕ) → (id == 0) ≡ false → bits_of (id_bits id) ≡ byte_bits id
unfolding new
id_bits-one id h = rw h (
    ap (take 8) (append-nil (byte_bits id))
    ∙ take_all 8 (byte_bits id) (omega (arith, length-byte_bits id)))

id_bits-none : (id : ℕ) → (id == 0) ≡ true → bits_of (id_bits id) ≡ []
unfolding new
id_bits-none id h = rw h refl

-- A report with the device's fields is encoded and decoded to a report with the same id, whose fields
-- have the same bits, for any spare bytes behind the data, and neither side panics. The id is 0 just
-- where the device uses no report ids, the fields are well-formed with their missing bits clear and of
-- their data items' sizes, none is empty, and none that begins inside a byte reaches the last byte.
pub decode-encode_report :
    (items : DataItemSet) (r : Report) (spare : List ℕ)
    → IsByte r.id
    → All IsField r.fields
    → Sized (report items r.id) r.fields
    → has_report_id items ≡ not (r.id == 0)
    → Fits 0 (bytes_for (total (report items r.id))) (report items r.id)
    → (b : Bits) × (encode_report r ≡ some b) × Decodes items r b.bytes spare
decode-encode_report items r spare hid w z has h =
    let (b, run, bits, v) = encode_report_bits r hid w in
    let n = total (report items r.id) in
    let fields = length-fields_bits (report items r.id) r.fields w z in
    let tail = drop (len b) (bytes_bits b.bytes) in
    let whole : bytes_bits b.bytes ≡ bits_of b ++ tail =
      sym (append-cancel-take (len b) (bytes_bits b.bytes)) in
    elim (Bool-cases (r.id == 0)) [
      | inl zero_id ↦
          let p : r.id ≡ 0 = (==_iff _ _).0 zero_id in
          let e : bits_of b ≡ fields_bits r.fields =
            bits ∙ ap (λ l. l ++ fields_bits r.fields) (id_bits-none r.id zero_id) in
          let size : length b.bytes ≡ bytes_for n =
            length_bytes b v.0 ∙ ap bytes_for (sym (length-bits_of b v.0) ∙ ap length e ∙ fields) in
          (
            b,
            run,
            decode_no_id items r b.bytes spare tail v.0.bytes_valid w z (has ∙ ap not zero_id) p
                size h (whole ∙ ap (λ l. l ++ tail) e),
          )
      | inr other ↦
          let e : bits_of b ≡ byte_bits r.id ++ fields_bits r.fields =
            bits ∙ ap (λ l. l ++ fields_bits r.fields) (id_bits-one r.id other) in
          let size : length b.bytes ≡ suc (bytes_for n) =
            length_bytes b v.0
            ∙ ap bytes_for (
                sym (length-bits_of b v.0)
                ∙ ap length e
                ∙ length-append (byte_bits r.id) (fields_bits r.fields)
                ∙ ap (λ k. length (byte_bits r.id) + k) fields
                ∙ ap (λ k. k + n) (length-byte_bits r.id))
            ∙ bytes_for_more n in
          (
            b,
            run,
            decode_with_id items r b.bytes spare tail hid v.0.bytes_valid w z (has ∙ ap not other)
                size h
                (whole
                  ∙ ap (λ l. l ++ tail) e
                  ∙ append_assoc (byte_bits r.id) (fields_bits r.fields) tail),
          )
    ]
