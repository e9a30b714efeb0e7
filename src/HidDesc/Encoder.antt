-- ===== src/HidDesc/Encoder.antt =====
-- hidapi/hiddesc/encoder.go. The writer of `Encode` is a bytes.Buffer, whose writes do not fail: the
-- bytes written so far are a field of the encoder.
use neio_agent.Prelude.{
  ℕ, Bool, false, not, ◌&&◌, ◌||◌, List, [], ◌∷◌, ◌++◌, if◌then◌else◌, ltb, leb, ◌==◌, byte_at,
}
use neio_agent.HidDesc.{
  MainItemType, input, output, feature, DataItem, Collection, collection, Items, nil, cons,
  MainItem, item, nested, ReportDescriptor,
}
use neio_agent.HidDesc.Tags.{
  tag_input, tag_output, tag_feature, tag_collection, tag_end_collection, tag_usage_page,
  tag_logical_minimum, tag_logical_maximum, tag_physical_minimum, tag_physical_maximum,
  tag_unit_exponent, tag_unit, tag_report_size, tag_report_id, tag_report_count, tag_usage,
  tag_usage_minimum, tag_usage_maximum, tag_designator_index, tag_designator_minimum,
  tag_designator_maximum, with_item_size,
}
use neio_agent.HidDesc.State.{GlobalState, LocalState, no_global, no_local}

-- The bytes that `encodeTag` and its variants write.
unfoldable pub encode_tag : ℕ → List ℕ
encode_tag t = with_item_size t 0 ∷ []

unfoldable pub encode_tag8 : ℕ → ℕ → List ℕ
encode_tag8 t v = with_item_size t 1 ∷ v ∷ []

unfoldable pub encode_tag16 : ℕ → ℕ → List ℕ
unfolding encode_tag8
encode_tag16 t v =
    if ltb v 0x100 then encode_tag8 t v else with_item_size t 2 ∷ byte_at 0 v ∷ byte_at 1 v ∷ []

unfoldable pub encode_tag32 : ℕ → ℕ → List ℕ
encode_tag32 t v =
    if ltb v 0x100
    then encode_tag8 t v
    else if ltb v 0x10000
    then encode_tag16 t v
    else with_item_size t 3 ∷ byte_at 0 v ∷ byte_at 1 v ∷ byte_at 2 v ∷ byte_at 3 v ∷ []

-- `value < 0` is the sign bit.
unfoldable pub encode_tagi32 : ℕ → ℕ → List ℕ
encode_tagi32 t v =
    let pad : ℕ = if leb 0x8000_0000 v then 0xff else 0 in
    if byte_at 1 v == pad && byte_at 2 v == pad && byte_at 3 v == pad
    then with_item_size t 1 ∷ byte_at 0 v ∷ []
    else if byte_at 2 v == pad && byte_at 3 v == pad
    then with_item_size t 2 ∷ byte_at 0 v ∷ byte_at 1 v ∷ []
    else with_item_size t 3 ∷ byte_at 0 v ∷ byte_at 1 v ∷ byte_at 2 v ∷ byte_at 3 v ∷ []

pub record Encoder : Type 0 where
  pub global : GlobalState
  pub local : LocalState
  pub out : List ℕ

abbrev pub set_global : Encoder → GlobalState → List ℕ → Encoder
set_global e g bs = record e { global = g; out = e.out ++ bs }

abbrev pub set_local : Encoder → LocalState → List ℕ → Encoder
set_local e l bs = record e { local = l; out = e.out ++ bs }

unfoldable pub encode_usage_page : ℕ → Encoder → Encoder
encode_usage_page v e =
    if v == e.global.usage_page
    then e
    else set_global e (record e.global { usage_page = v }) (encode_tag16 tag_usage_page v)

-- Is it the usage written last?
abbrev pub is_last_usage : List ℕ → ℕ → Bool
is_last_usage [] v = false
is_last_usage (u ∷ []) v = u == v
is_last_usage (u ∷ w ∷ r) v = is_last_usage (w ∷ r) v

unfoldable pub encode_usage_id : ℕ → Encoder → Encoder
encode_usage_id v e =
    if v == 0
    then e
    else if is_last_usage e.local.usage v
    then e
    else set_local e (record e.local { usage = v ∷ [] }) (encode_tag16 tag_usage v)

unfoldable pub encode_usages : List ℕ → Encoder → Encoder
encode_usages [] e = e
encode_usages (v ∷ vs) e = encode_usages vs (encode_usage_id v e)

unfoldable pub encode_usage_range : ℕ → ℕ → Encoder → Encoder
encode_usage_range lo hi e =
    if not (lo == e.local.usage_minimum) || not (hi == e.local.usage_maximum)
    then set_local e (record e.local { usage_minimum = lo; usage_maximum = hi })
        (encode_tag16 tag_usage_minimum lo ++ encode_tag16 tag_usage_maximum hi)
    else e

unfoldable pub encode_designator_index : ℕ → Encoder → Encoder
encode_designator_index v e =
    if v == e.local.designator_index
    then e
    else set_local e (record e.local { designator_index = v }) (encode_tag8 tag_designator_index v)

unfoldable pub encode_designator_range : ℕ → ℕ → Encoder → Encoder
encode_designator_range lo hi e =
    if not (lo == e.local.designator_minimum) || not (hi == e.local.designator_maximum)
    then set_local e (record e.local { designator_minimum = lo; designator_maximum = hi })
        (encode_tag8 tag_designator_minimum lo ++ encode_tag8 tag_designator_maximum hi)
    else e

unfoldable pub encode_logical : ℕ → ℕ → Encoder → Encoder
encode_logical lo hi e =
    if not (lo == e.global.logical_minimum) || not (hi == e.global.logical_maximum)
    then set_global e (record e.global { logical_minimum = lo; logical_maximum = hi })
        (encode_tagi32 tag_logical_minimum lo ++ encode_tagi32 tag_logical_maximum hi)
    else e

unfoldable pub encode_physical : ℕ → ℕ → Encoder → Encoder
encode_physical lo hi e =
    if not (lo == e.global.physical_minimum) || not (hi == e.global.physical_maximum)
    then set_global e (record e.global { physical_minimum = lo; physical_maximum = hi })
        (encode_tagi32 tag_physical_minimum lo ++ encode_tagi32 tag_physical_maximum hi)
    else e

unfoldable pub encode_unit_exponent : ℕ → Encoder → Encoder
encode_unit_exponent v e =
    if v == e.global.unit_exponent
    then e
    else set_global e (record e.global { unit_exponent = v }) (encode_tag32 tag_unit_exponent v)

unfoldable pub encode_unit : ℕ → Encoder → Encoder
encode_unit v e =
    if v == e.global.unit
    then e
    else set_global e (record e.global { unit = v }) (encode_tag32 tag_unit v)

unfoldable pub encode_report_id : ℕ → Encoder → Encoder
encode_report_id v e =
    if v == e.global.report_id
    then e
    else set_global e (record e.global { report_id = v }) (encode_tag8 tag_report_id v)

unfoldable pub encode_report_count : ℕ → Encoder → Encoder
encode_report_count v e =
    if v == e.global.report_count
    then e
    else set_global e (record e.global { report_count = v }) (encode_tag32 tag_report_count v)

unfoldable pub encode_report_size : ℕ → Encoder → Encoder
encode_report_size v e =
    if v == e.global.report_size
    then e
    else set_global e (record e.global { report_size = v }) (encode_tag32 tag_report_size v)

abbrev pub main_tag : MainItemType → ℕ
main_tag input = tag_input
main_tag output = tag_output
main_tag feature = tag_feature

-- The data item branch of `encodeMainItem`.
unfoldable pub encode_data_item : MainItemType → DataItem → Encoder → Encoder
encode_data_item t d e0 =
    let e1 = encode_usages d.usage_ids (encode_usage_page d.usage_page e0) in
    let e2 = encode_usage_range d.usage_minimum d.usage_maximum e1 in
    let e3 = encode_designator_index d.designator_index e2 in
    let e4 = encode_designator_range d.designator_minimum d.designator_maximum e3 in
    let e5 = encode_logical d.logical_minimum d.logical_maximum e4 in
    let e6 = encode_physical d.physical_minimum d.physical_maximum e5 in
    let e7 = encode_unit d.unit (encode_unit_exponent d.unit_exponent e6) in
    let e8 = encode_report_count d.report_count (encode_report_id d.report_id e7) in
    let e9 = encode_report_size d.report_size e8 in
    set_local e9 no_local (encode_tag32 (main_tag t) d.flags)

-- What `encodeCollection` writes before the items, and behind them.
unfoldable pub open_collection : ℕ → ℕ → ℕ → Encoder → Encoder
open_collection t p u e =
    set_local (encode_usage_id u (encode_usage_page p e)) no_local (encode_tag8 tag_collection t)

unfoldable pub close_collection : Encoder → Encoder
close_collection e = set_local e no_local (encode_tag tag_end_collection)

unfoldable mutual
  pub encode_collection : Collection → Encoder → Encoder
  encode_collection (collection t p u items) e =
      close_collection (encode_items items (open_collection t p u e))

  pub encode_items : Items → Encoder → Encoder
  encode_items nil e = e
  encode_items (cons x xs) e = encode_items xs (encode_main_item x e)

  pub encode_main_item : MainItem → Encoder → Encoder
  encode_main_item (item t d) e = encode_data_item t d e
  encode_main_item (nested c) e = encode_collection c e

unfoldable pub encode_collections : List Collection → Encoder → Encoder
encode_collections [] e = e
encode_collections (c ∷ cs) e = encode_collections cs (encode_collection c e)

unfoldable pub encode : ReportDescriptor → List ℕ
unfolding encode_collections
encode cs =
    let done = encode_collections cs (record { global = no_global; local = no_local; out = [] }) in
    done.out
