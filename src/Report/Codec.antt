-- ===== src/Report/Codec.antt =====
-- hidapi/codec.go: a report from its bytes, and back.
use neio_agent.Prelude.{ℕ, ◌*◌, Option, none, some, List, [], ◌∷◌, if◌then◌else◌, ◌==◌}
use mathlib.Core.Option
use neio_agent.HidDesc.{DataItem}
use neio_agent.Bits.{Bits, len, new}
use neio_agent.Bits.Scanner.{Scanner, new_scanner, next}
use neio_agent.Bits.Concat.{concat_bits}
use neio_agent.Report.{Report}
use neio_agent.Report.DataItems.{DataItemSet, report, has_report_id}

-- The bits of a data item's field.
abbrev pub field_size : DataItem → ℕ
field_size d = d.report_size * d.report_count

-- The loop over the data items: `some none` where a field is empty.
unfoldable pub decode_fields : Scanner → List DataItem → Option (Option (List Bits))
decode_fields s [] = some (some [])
decode_fields s (d ∷ ds) = Option.bind (next s (field_size d)) (λ (b, s').
    if len b == 0
    then some none
    else Option.map (λ r. Option.map (λ fs. b ∷ fs) r) (decode_fields s' ds))

-- `data[0]` and `data[1:]`, where the reports have ids.
abbrev pub split_id : List ℕ → Option (ℕ × List ℕ)
split_id [] = none
split_id (x ∷ xs) = some (x, xs)

-- `spare` is what the array of `data` holds behind it.
unfoldable pub decode : DataItemSet → List ℕ → List ℕ → Option (Option Report)
unfolding decode_fields
decode items input spare =
    let start = if has_report_id items then split_id input else some (0, input) in
    Option.bind start (λ (id, rest).
      Option.map (λ r. Option.map (λ fs. record { id = id; fields = fs }) r)
        (decode_fields (new_scanner rest spare) (report items id)))

-- The loop of `EncodeReport` over the fields.
unfoldable pub concat_fields : Bits → List Bits → Option Bits
concat_fields all [] = some all
concat_fields all (f ∷ fs) = Option.bind (concat_bits all f) (λ b. concat_fields b fs)

-- What the report's own id adds in front.
abbrev pub id_bits : ℕ → Bits
id_bits id = if id == 0 then record { missing_bits = 0; bytes = [] } else new (id ∷ []) 0

unfoldable pub encode_report : Report → Option Bits
unfolding concat_fields
encode_report r = concat_fields (id_bits r.id) r.fields
