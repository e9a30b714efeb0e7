-- ===== src/HidDesc/Parts.antt =====
-- The parts that `encodeMainItem` writes before the item itself: the decoder gets all the values.
use neio_agent.Prelude.{ℕ, ◌≡◌, refl, sym, ap, ◌∙◌, [], ◌++◌, ◌==◌, Bool-cases, inl, inr}
use mathlib.Core.Path.{subst}
use neio_agent.HidDesc.{DataItem}
use neio_agent.HidDesc.State.{State, GlobalState, LocalState, no_local}
use neio_agent.HidDesc.Encoder.{
  Encoder, encode_usage_page, encode_usages, encode_usage_range, encode_designator_index,
  encode_designator_range, encode_logical, encode_physical, encode_unit_exponent, encode_unit,
  encode_report_id, encode_report_count, encode_report_size,
}
use neio_agent.HidDesc.Tracking.{Tracks, Step, Runs-trans}
use neio_agent.HidDesc.Globals.{
  encode_usage_page-Step, encode_logical-Step, encode_physical-Step, encode_unit_exponent-Step,
  encode_unit-Step, encode_report_id-Step, encode_report_count-Step, encode_report_size-Step,
}
use neio_agent.HidDesc.Locals.{
  encode_usage_range-Step, encode_designator_index-Step, encode_designator_range-Step,
  encode_usages-Step,
}
use neio_agent.HidDesc.Writable.{IsWritable}

abbrev pub item_global : DataItem → GlobalState
item_global d = record {
  usage_page = d.usage_page;
  logical_minimum = d.logical_minimum;
  logical_maximum = d.logical_maximum;
  physical_minimum = d.physical_minimum;
  physical_maximum = d.physical_maximum;
  unit_exponent = d.unit_exponent;
  unit = d.unit;
  report_id = d.report_id;
  report_count = d.report_count;
  report_size = d.report_size;
}

abbrev pub item_local : DataItem → LocalState
item_local d = record {
  usage = d.usage_ids;
  usage_minimum = d.usage_minimum;
  usage_maximum = d.usage_maximum;
  designator_index = d.designator_index;
  designator_minimum = d.designator_minimum;
  designator_maximum = d.designator_maximum;
  string_index = 0;
  string_minimum = 0;
  string_maximum = 0;
}

-- Between main items: both sides agree on the global state, and the local state is empty.
pub record IsFresh (e : Encoder) (s : State) : Type 0 where
  pub global : e.global ≡ s.global
  pub encoder : e.local ≡ no_local
  pub decoder : s.local ≡ no_local

pub IsFresh-Tracks : (e : Encoder) (s : State) → IsFresh e s → Tracks e s
IsFresh-Tracks e s f =
    let l : e.local ≡ s.local = f.encoder ∙ sym f.decoder in
    record {
      global = f.global;
      usage_minimum = ap (λ x. x.usage_minimum) l;
      usage_maximum = ap (λ x. x.usage_maximum) l;
      designator_index = ap (λ x. x.designator_index) l;
      designator_minimum = ap (λ x. x.designator_minimum) l;
      designator_maximum = ap (λ x. x.designator_maximum) l;
    }

pub Step-trans :
    (e : Encoder) (s : State) (e' : Encoder) (s' : State) (e'' : Encoder) (s'' : State)
    → Step e s e' s'
    → (Tracks e' s' → Step e' s' e'' s'')
    → Step e s e'' s''
Step-trans e s e' s' e'' s'' (run, t) next =
    let (run', t') = next t in (Runs-trans e s e' s' e'' s'' run run', t')

pub encode_usage_page-local : (v : ℕ) (e : Encoder) → (encode_usage_page v e).local ≡ e.local
unfolding encode_usage_page
encode_usage_page-local v e = elim (Bool-cases (v == e.global.usage_page)) [
  | inl h ↦ rw h refl
  | inr h ↦ rw h refl
]

abbrev local_parts : DataItem → Encoder → Encoder
local_parts d e = encode_designator_range d.designator_minimum d.designator_maximum (
    encode_designator_index d.designator_index (
      encode_usage_range d.usage_minimum d.usage_maximum
        (encode_usages d.usage_ids (encode_usage_page d.usage_page e))))

abbrev global_parts : DataItem → Encoder → Encoder
global_parts d e = encode_report_size d.report_size (
    encode_report_count d.report_count (
      encode_report_id d.report_id (
        encode_unit d.unit (
          encode_unit_exponent d.unit_exponent (
            encode_physical d.physical_minimum d.physical_maximum
              (encode_logical d.logical_minimum d.logical_maximum e))))))

abbrev pub item_parts : DataItem → Encoder → Encoder
item_parts d e = global_parts d (local_parts d e)

module _ (d : DataItem) (w : IsWritable d) where
  abbrev with_local : State → State
  with_local s = record s {
    global = record s.global { usage_page = d.usage_page };
    local = item_local d;
  }

  local_parts-Step :
      (e : Encoder) (s : State) → IsFresh e s → Step e s (local_parts d e) (with_local s)
  local_parts-Step e s f =
      let e1 = encode_usage_page d.usage_page e in
      let s1 : State = record s { global = record s.global { usage_page = d.usage_page } } in
      let e2 = encode_usages d.usage_ids e1 in
      let s2 : State = record s1 {
        local = record s1.local { usage = s1.local.usage ++ d.usage_ids };
      } in
      let e3 = encode_usage_range d.usage_minimum d.usage_maximum e2 in
      let s3 : State = record s2 {
        local = record s2.local {
          usage_minimum = d.usage_minimum;
          usage_maximum = d.usage_maximum;
        };
      } in
      let e4 = encode_designator_index d.designator_index e3 in
      let s4 : State = record s3 {
        local = record s3.local { designator_index = d.designator_index };
      } in
      let e5 = encode_designator_range d.designator_minimum d.designator_maximum e4 in
      let s5 : State = record s4 {
        local = record s4.local {
          designator_minimum = d.designator_minimum;
          designator_maximum = d.designator_maximum;
        };
      } in
      let fresh : e1.local.usage ≡ [] =
        ap (λ l. l.usage) (encode_usage_page-local d.usage_page e ∙ f.encoder) in
      let done : s5 ≡ with_local s =
        ap
          (λ l. record s5 {
            local = record s5.local {
              usage = l.usage ++ d.usage_ids;
              string_index = l.string_index;
              string_minimum = l.string_minimum;
              string_maximum = l.string_maximum;
            };
          })
          f.decoder in
      let (r1, t1) = encode_usage_page-Step d.usage_page e s (IsFresh-Tracks e s f) w.usage_page in
      let (r2, t2) = encode_usages-Step d.usage_ids 0 e1 s1 t1 fresh w.usage_ids in
      let (r3, t3) =
        encode_usage_range-Step d.usage_minimum d.usage_maximum e2 s2 t2 w.usage_minimum
          w.usage_maximum in
      let (r4, t4) = encode_designator_index-Step d.designator_index e3 s3 t3 in
      let (r5, t5) =
        encode_designator_range-Step d.designator_minimum d.designator_maximum e4 s4 t4 in
      subst (λ x. Step e s e5 x) done
        (
          Runs-trans e s e1 s1 e5 s5 r1 (
              Runs-trans e1 s1 e2 s2 e5 s5 r2
                (Runs-trans e2 s2 e3 s3 e5 s5 r3 (Runs-trans e3 s3 e4 s4 e5 s5 r4 r5))),
          t5,
        )

  global_parts-Step :
      (e : Encoder) (s : State)
      → Tracks e s
      → s.global.usage_page ≡ d.usage_page
      → Step e s (global_parts d e) (record s { global = item_global d })
  global_parts-Step e s t p =
      let e1 = encode_logical d.logical_minimum d.logical_maximum e in
      let s1 : State = record s {
        global = record s.global {
          logical_minimum = d.logical_minimum;
          logical_maximum = d.logical_maximum;
        };
      } in
      let e2 = encode_physical d.physical_minimum d.physical_maximum e1 in
      let s2 : State = record s1 {
        global = record s1.global {
          physical_minimum = d.physical_minimum;
          physical_maximum = d.physical_maximum;
        };
      } in
      let e3 = encode_unit_exponent d.unit_exponent e2 in
      let s3 : State = record s2 {
        global = record s2.global { unit_exponent = d.unit_exponent };
      } in
      let e4 = encode_unit d.unit e3 in
      let s4 : State = record s3 { global = record s3.global { unit = d.unit } } in
      let e5 = encode_report_id d.report_id e4 in
      let s5 : State = record s4 { global = record s4.global { report_id = d.report_id } } in
      let e6 = encode_report_count d.report_count e5 in
      let s6 : State = record s5 { global = record s5.global { report_count = d.report_count } } in
      let e7 = encode_report_size d.report_size e6 in
      let s7 : State = record s6 { global = record s6.global { report_size = d.report_size } } in
      let done : s7 ≡ record s { global = item_global d } =
        ap (λ u. record s { global = record (item_global d) { usage_page = u } }) p in
      let (r1, t1) =
        encode_logical-Step d.logical_minimum d.logical_maximum e s t w.logical_minimum
          w.logical_maximum in
      let (r2, t2) =
        encode_physical-Step d.physical_minimum d.physical_maximum e1 s1 t1 w.physical_minimum
          w.physical_maximum in
      let (r3, t3) = encode_unit_exponent-Step d.unit_exponent e2 s2 t2 w.unit_exponent in
      let (r4, t4) = encode_unit-Step d.unit e3 s3 t3 w.unit in
      let (r5, t5) = encode_report_id-Step d.report_id e4 s4 t4 w.report_id in
      let (r6, t6) = encode_report_count-Step d.report_count e5 s5 t5 w.report_count in
      let (r7, t7) = encode_report_size-Step d.report_size e6 s6 t6 w.report_size in
      subst (λ x. Step e s e7 x) done
        (
          Runs-trans e s e1 s1 e7 s7 r1 (
              Runs-trans e1 s1 e2 s2 e7 s7 r2 (
                Runs-trans e2 s2 e3 s3 e7 s7 r3 (
                  Runs-trans e3 s3 e4 s4 e7 s7 r4
                    (Runs-trans e4 s4 e5 s5 e7 s7 r5 (Runs-trans e5 s5 e6 s6 e7 s7 r6 r7))))),
          t7,
        )

  -- All parts of a data item, from a fresh state.
  pub item_parts-Step :
      (e : Encoder) (s : State)
      → IsFresh e s
      → Step e s (item_parts d e) (record s { global = item_global d; local = item_local d })
  item_parts-Step e s f =
      let (r, t) = local_parts-Step e s f in
      let (r', t') = global_parts-Step (local_parts d e) (with_local s) t refl in
      (
        Runs-trans e s (local_parts d e) (with_local s) (item_parts d e)
            (record s { global = item_global d; local = item_local d }) r r',
        t',
      )
