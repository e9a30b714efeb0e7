-- ===== src/HidDesc/Globals.antt =====
-- The global items that `encodeMainItem` writes: each leaves the decoder with the item's value.
use neio_agent.Prelude.{
  ℕ, ◌≡◌, refl, sym, ap, ◌∙◌, List, ◌++◌, arith, ◌==◌, ==_iff, not, ◌||◌, if◌then◌else◌, drop,
  IsByte, IsU16, IsU32, Bool-cases, inl, inr, u8, le32,
}
use neio_agent.HidDesc.Tags.{
  tag_usage_page, tag_logical_minimum, tag_logical_maximum, tag_physical_minimum,
  tag_physical_maximum, tag_unit_exponent, tag_unit, tag_report_size, tag_report_id,
  tag_report_count,
}
use neio_agent.HidDesc.Payload.{ok, to_uint32}
use neio_agent.HidDesc.State.{State, GlobalState}
use neio_agent.HidDesc.Commands.{
  Command, exec, command_of, usage_page, logical_minimum, logical_maximum, physical_minimum,
  physical_maximum, unit_exponent, unit, report_size, report_id, report_count,
}
use neio_agent.HidDesc.Encoder.{
  Encoder, encode_tag8, encode_tag16, encode_tag32, encode_tagi32, encode_usage_page,
  encode_logical, encode_physical, encode_unit_exponent, encode_unit, encode_report_id,
  encode_report_count, encode_report_size, set_global,
}
use neio_agent.HidDesc.Feed.{idle}
use neio_agent.HidDesc.Segments.{
  IsTag, Executes, parse_tag8, parse_tag16, parse_tag32, parse_tagi32,
}
use neio_agent.HidDesc.Numbers.{
  to_uint16-encode_tag16, to_uint32-encode_tag32, to_int32-encode_tagi32_iff, IsExact,
}
use neio_agent.HidDesc.Tracking.{Tracks, Step, stay, segment, segment2}

-- A change of the global state on both sides.
track_global :
    (f : GlobalState → GlobalState) (e : Encoder) (s : State) (out : List ℕ)
    → Tracks e s
    → Tracks (record e { global = f e.global; out = out }) (record s { global = f s.global })
track_global f e s out t = record {
  global = ap f t.global;
  usage_minimum = t.usage_minimum;
  usage_maximum = t.usage_maximum;
  designator_index = t.designator_index;
  designator_minimum = t.designator_minimum;
  designator_maximum = t.designator_maximum;
}

module _ (e : Encoder) (s : State) (t : Tracks e s) where
  -- A part of one number: `get` and `put` of its field, and the command's run.
  global_part :
      (c : Command) (tag : ℕ) (is_tag : IsTag c tag)
      → (get : GlobalState → ℕ) (put : ℕ → GlobalState → GlobalState) (v : ℕ) (bs : List ℕ)
      → ((g : GlobalState) → put (get g) g ≡ g)
      → Executes c tag is_tag s bs
      → exec c (idle s) (drop 1 bs) ≡ ok (idle (record s { global = put v s.global }))
      → Step e s
          (if v == get e.global then e else set_global e (put v e.global) bs)
          (record s { global = put v s.global })
  global_part c tag is_tag get put v bs same run x = elim (Bool-cases (v == get e.global)) [
    | inl old ↦ rw old (
        stay e s _
          (ap (λ g. record s { global = g }) (sym (same s.global))
            ∙ ap (λ y. record s { global = put y s.global })
                (ap get (sym t.global) ∙ sym ((==_iff _ _).0 old)))
          t)
    | inr new ↦ rw new (
      segment c tag is_tag e s (set_global e (put v e.global) bs)
          (record s { global = put v s.global }) bs refl run x,
      track_global (put v) e s _ t,
    )
  ]

  -- A part of two numbers, written where one of them is new.
  global_part2 :
      (c : Command) (tag : ℕ) (is_tag : IsTag c tag) (d : Command) (tag' : ℕ)
      (is_tag' : IsTag d tag')
      → (get get' : GlobalState → ℕ) (put put' : ℕ → GlobalState → GlobalState) (v w : ℕ)
      → (bs cs : List ℕ) → ((g : GlobalState) → put' (get' g) (put (get g) g) ≡ g)
      → Executes c tag is_tag s bs
      → exec c (idle s) (drop 1 bs) ≡ ok (idle (record s { global = put v s.global }))
      → Executes d tag' is_tag' (record s { global = put v s.global }) cs
      → exec d (idle (record s { global = put v s.global })) (drop 1 cs)
        ≡ ok (idle (record s { global = put' w (put v s.global) }))
      → Step e s
          (if not (v == get e.global) || not (w == get' e.global)
            then set_global e (put' w (put v e.global)) (bs ++ cs)
            else e)
          (record s { global = put' w (put v s.global) })
  global_part2 c tag is_tag d tag' is_tag' get get' put put' v w bs cs same run x run' x' =
      elim (Bool-cases (not (v == get e.global) || not (w == get' e.global))) [
        | inl new ↦ rw new (
          segment2 c tag is_tag d tag' is_tag' e s (record s { global = put v s.global })
              (set_global e (put' w (put v e.global)) (bs ++ cs))
              (record s { global = put' w (put v s.global) }) bs cs refl run x run' x',
          track_global (λ g. put' w (put v g)) e s _ t,
        )
        | inr old ↦
            let p : v ≡ get e.global = ground arith in
            let q : w ≡ get' e.global = ground arith in
            rw old (
              stay e s _
                (ap (λ g. record s { global = g }) (sym (same s.global))
                  ∙ ap (λ y. record s { global = put' (get' s.global) (put y s.global) })
                      (ap get (sym t.global) ∙ sym p)
                  ∙ ap (λ y. record s { global = put' y (put v s.global) })
                      (ap get' (sym t.global) ∙ sym q))
                t)
      ]

module _ (v : ℕ) (e : Encoder) (s : State) (t : Tracks e s) where
  pub encode_usage_page-Step :
      IsU16 v
      → Step e s (encode_usage_page v e) (record s { global = record s.global { usage_page = v } })
  unfolding encode_usage_page command_of exec
  encode_usage_page-Step h =
      let tag : IsTag usage_page tag_usage_page = (refl, omega arith, refl) in
      global_part e s t usage_page tag_usage_page tag (λ g. g.usage_page)
        (λ v g. record g { usage_page = v }) v (encode_tag16 tag_usage_page v) (λ g. refl)
        (parse_tag16 usage_page tag_usage_page tag s v)
        (rw (to_uint16-encode_tag16 tag_usage_page v h) refl)

  pub encode_unit_exponent-Step :
      IsU32 v
      → Step e s
          (encode_unit_exponent v e)
          (record s { global = record s.global { unit_exponent = v } })
  unfolding encode_unit_exponent command_of exec
  encode_unit_exponent-Step h =
      let tag : IsTag unit_exponent tag_unit_exponent = (refl, omega arith, refl) in
      global_part e s t unit_exponent tag_unit_exponent tag (λ g. g.unit_exponent)
        (λ v g. record g { unit_exponent = v }) v (encode_tag32 tag_unit_exponent v) (λ g. refl)
        (parse_tag32 unit_exponent tag_unit_exponent tag s v)
        (rw (to_uint32-encode_tag32 tag_unit_exponent v h) refl)

  pub encode_unit-Step :
      IsU32 v → Step e s (encode_unit v e) (record s { global = record s.global { unit = v } })
  unfolding encode_unit command_of exec
  encode_unit-Step h =
      let tag : IsTag unit tag_unit = (refl, omega arith, refl) in
      global_part e s t unit tag_unit tag (λ g. g.unit) (λ v g. record g { unit = v }) v
        (encode_tag32 tag_unit v) (λ g. refl) (parse_tag32 unit tag_unit tag s v)
        (rw (to_uint32-encode_tag32 tag_unit v h) refl)

  pub encode_report_count-Step :
      IsU32 v
      → Step e s
          (encode_report_count v e)
          (record s { global = record s.global { report_count = v } })
  unfolding encode_report_count command_of exec
  encode_report_count-Step h =
      let tag : IsTag report_count tag_report_count = (refl, omega arith, refl) in
      global_part e s t report_count tag_report_count tag (λ g. g.report_count)
        (λ v g. record g { report_count = v }) v (encode_tag32 tag_report_count v) (λ g. refl)
        (parse_tag32 report_count tag_report_count tag s v)
        (rw (to_uint32-encode_tag32 tag_report_count v h) refl)

  pub encode_report_size-Step :
      IsU32 v
      → Step e s
          (encode_report_size v e)
          (record s { global = record s.global { report_size = v } })
  unfolding encode_report_size command_of exec
  encode_report_size-Step h =
      let tag : IsTag report_size tag_report_size = (refl, omega arith, refl) in
      global_part e s t report_size tag_report_size tag (λ g. g.report_size)
        (λ v g. record g { report_size = v }) v (encode_tag32 tag_report_size v) (λ g. refl)
        (parse_tag32 report_size tag_report_size tag s v)
        (rw (to_uint32-encode_tag32 tag_report_size v h) refl)

  -- The report id is written as a byte, and read as a uint32 that is cut to a byte.
  pub encode_report_id-Step :
      IsByte v
      → Step e s (encode_report_id v e) (record s { global = record s.global { report_id = v } })
  unfolding encode_report_id command_of exec encode_tag8 to_uint32
  encode_report_id-Step h =
      let tag : IsTag report_id tag_report_id = (refl, omega arith, refl) in
      let cut : u8 (le32 v 0 0 0) ≡ v = omega arith in
      global_part e s t report_id tag_report_id tag (λ g. g.report_id)
        (λ v g. record g { report_id = v }) v (encode_tag8 tag_report_id v) (λ g. refl)
        (parse_tag8 report_id tag_report_id tag s v)
        (ap (λ x. ok (idle (record s { global = record s.global { report_id = x } }))) cut)

module _ (lo hi : ℕ) (e : Encoder) (s : State) (t : Tracks e s) where
  pub encode_logical-Step :
      IsU32 lo × IsExact lo
      → IsU32 hi × IsExact hi
      → Step e s
          (encode_logical lo hi e)
          (record s { global = record s.global { logical_minimum = lo; logical_maximum = hi } })
  unfolding encode_logical command_of exec
  encode_logical-Step h k =
      let tag : IsTag logical_minimum tag_logical_minimum = (refl, omega arith, refl) in
      let tag' : IsTag logical_maximum tag_logical_maximum = (refl, omega arith, refl) in
      let m : State = record s { global = record s.global { logical_minimum = lo } } in
      global_part2 e s t logical_minimum tag_logical_minimum tag logical_maximum tag_logical_maximum
        tag' (λ g. g.logical_minimum) (λ g. g.logical_maximum)
        (λ v g. record g { logical_minimum = v }) (λ v g. record g { logical_maximum = v }) lo hi
        (encode_tagi32 tag_logical_minimum lo) (encode_tagi32 tag_logical_maximum hi) (λ g. refl)
        (parse_tagi32 logical_minimum tag_logical_minimum tag s lo)
        (rw ((to_int32-encode_tagi32_iff tag_logical_minimum lo h.0).1 h.1) refl)
        (parse_tagi32 logical_maximum tag_logical_maximum tag' m hi)
        (rw ((to_int32-encode_tagi32_iff tag_logical_maximum hi k.0).1 k.1) refl)

  pub encode_physical-Step :
      IsU32 lo × IsExact lo
      → IsU32 hi × IsExact hi
      → Step e s
          (encode_physical lo hi e)
          (record s { global = record s.global { physical_minimum = lo; physical_maximum = hi } })
  unfolding encode_physical command_of exec
  encode_physical-Step h k =
      let tag : IsTag physical_minimum tag_physical_minimum = (refl, omega arith, refl) in
      let tag' : IsTag physical_maximum tag_physical_maximum = (refl, omega arith, refl) in
      let m : State = record s { global = record s.global { physical_minimum = lo } } in
      global_part2 e s t physical_minimum tag_physical_minimum tag physical_maximum
        tag_physical_maximum tag' (λ g. g.physical_minimum) (λ g. g.physical_maximum)
        (λ v g. record g { physical_minimum = v }) (λ v g. record g { physical_maximum = v }) lo hi
        (encode_tagi32 tag_physical_minimum lo) (encode_tagi32 tag_physical_maximum hi) (λ g. refl)
        (parse_tagi32 physical_minimum tag_physical_minimum tag s lo)
        (rw ((to_int32-encode_tagi32_iff tag_physical_minimum lo h.0).1 h.1) refl)
        (parse_tagi32 physical_maximum tag_physical_maximum tag' m hi)
        (rw ((to_int32-encode_tagi32_iff tag_physical_maximum hi k.0).1 k.1) refl)
