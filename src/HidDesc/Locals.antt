-- ===== src/HidDesc/Locals.antt =====
-- The local items that `encodeMainItem` writes.
use neio_agent.Prelude.{
  ℕ, zero, suc, ◌≡◌, ◌≢◌, ◌<◌, refl, sym, ap, ◌∙◌, List, [], ◌∷◌, ◌++◌, arith, ◌==◌, ==_iff, not,
  ◌||◌, false, IsU16, Bool-cases, inl, inr, append_assoc, append-nil, ==_of_ne,
}
use mathlib.Core.Path.{subst}
use neio_agent.HidDesc.Tags.{
  tag_usage, tag_usage_minimum, tag_usage_maximum, tag_designator_index, tag_designator_minimum,
  tag_designator_maximum,
}
use neio_agent.HidDesc.State.{State}
use neio_agent.HidDesc.Commands.{
  exec, command_of, usage, usage_minimum, usage_maximum, designator_index, designator_minimum,
  designator_maximum,
}
use neio_agent.HidDesc.Encoder.{
  Encoder, encode_tag8, encode_tag16, encode_usage_id, encode_usages, encode_usage_range,
  encode_designator_index, encode_designator_range, set_local, is_last_usage,
}
use neio_agent.HidDesc.Segments.{IsTag, parse_tag8, parse_tag16}
use neio_agent.HidDesc.Numbers.{to_uint16-encode_tag16}
use neio_agent.HidDesc.Tracking.{Tracks, Step, Runs-trans, stay, segment, segment2}

module _ (lo hi : ℕ) (e : Encoder) (s : State) (t : Tracks e s) where
  pub encode_usage_range-Step :
      IsU16 lo
      → IsU16 hi
      → Step e s
          (encode_usage_range lo hi e)
          (record s { local = record s.local { usage_minimum = lo; usage_maximum = hi } })
  unfolding encode_usage_range command_of exec
  encode_usage_range-Step h k =
      let tag : IsTag usage_minimum tag_usage_minimum = (refl, omega arith, refl) in
      let tag' : IsTag usage_maximum tag_usage_maximum = (refl, omega arith, refl) in
      let m : State = record s { local = record s.local { usage_minimum = lo } } in
      let bs = encode_tag16 tag_usage_minimum lo in
      let cs = encode_tag16 tag_usage_maximum hi in
      elim (Bool-cases (not (lo == e.local.usage_minimum) || not (hi == e.local.usage_maximum))) [
        | inl new ↦ rw new (
          segment2 usage_minimum tag_usage_minimum tag usage_maximum tag_usage_maximum tag' e s m
              (set_local e (record e.local { usage_minimum = lo; usage_maximum = hi }) (bs ++ cs))
              (record s { local = record s.local { usage_minimum = lo; usage_maximum = hi } }) bs cs
              refl (parse_tag16 usage_minimum tag_usage_minimum tag s lo)
              (rw (to_uint16-encode_tag16 tag_usage_minimum lo h) refl)
              (parse_tag16 usage_maximum tag_usage_maximum tag' m hi)
              (rw (to_uint16-encode_tag16 tag_usage_maximum hi k) refl),
          record {
            global = t.global;
            usage_minimum = refl;
            usage_maximum = refl;
            designator_index = t.designator_index;
            designator_minimum = t.designator_minimum;
            designator_maximum = t.designator_maximum;
          },
        )
        | inr old ↦
            let p : s.local.usage_minimum ≡ lo = ground (arith, t.usage_minimum) in
            let q : s.local.usage_maximum ≡ hi = ground (arith, t.usage_maximum) in
            rw old (
              stay e s _
                (ap (λ x. record s { local = record s.local { usage_minimum = x } }) p
                  ∙ ap
                      (λ x. record s {
                        local = record s.local { usage_minimum = lo; usage_maximum = x };
                      })
                      q)
                t)
      ]

  pub encode_designator_range-Step :
      Step e s
        (encode_designator_range lo hi e)
        (record s { local = record s.local { designator_minimum = lo; designator_maximum = hi } })
  unfolding encode_designator_range command_of exec encode_tag8
  encode_designator_range-Step =
      let tag : IsTag designator_minimum tag_designator_minimum = (refl, omega arith, refl) in
      let tag' : IsTag designator_maximum tag_designator_maximum = (refl, omega arith, refl) in
      let m : State = record s { local = record s.local { designator_minimum = lo } } in
      let bs = encode_tag8 tag_designator_minimum lo in
      let cs = encode_tag8 tag_designator_maximum hi in
      elim (Bool-cases
        (not (lo == e.local.designator_minimum) || not (hi == e.local.designator_maximum))) [
          | inl new ↦ rw new (
            segment2 designator_minimum tag_designator_minimum tag designator_maximum
                tag_designator_maximum tag' e s m
                (set_local e (record e.local { designator_minimum = lo; designator_maximum = hi })
                  (bs ++ cs))
                (record s {
                  local = record s.local { designator_minimum = lo; designator_maximum = hi };
                })
                bs cs refl (parse_tag8 designator_minimum tag_designator_minimum tag s lo) refl
                (parse_tag8 designator_maximum tag_designator_maximum tag' m hi) refl,
            record {
              global = t.global;
              usage_minimum = t.usage_minimum;
              usage_maximum = t.usage_maximum;
              designator_index = t.designator_index;
              designator_minimum = refl;
              designator_maximum = refl;
            },
          )
          | inr old ↦
              let p : s.local.designator_minimum ≡ lo = ground (arith, t.designator_minimum) in
              let q : s.local.designator_maximum ≡ hi = ground (arith, t.designator_maximum) in
              rw old (
                stay e s _
                  (ap (λ x. record s { local = record s.local { designator_minimum = x } }) p
                    ∙ ap
                        (λ x. record s {
                          local = record s.local {
                            designator_minimum = lo;
                            designator_maximum = x;
                          };
                        })
                        q)
                  t)
        ]

module _ (v : ℕ) (e : Encoder) (s : State) (t : Tracks e s) where
  pub encode_designator_index-Step :
      Step e s
        (encode_designator_index v e)
        (record s { local = record s.local { designator_index = v } })
  unfolding encode_designator_index command_of exec encode_tag8
  encode_designator_index-Step =
      let tag : IsTag designator_index tag_designator_index = (refl, omega arith, refl) in
      let bs = encode_tag8 tag_designator_index v in
      elim (Bool-cases (v == e.local.designator_index)) [
        | inl old ↦ rw old (
            stay e s _
              (ap (λ x. record s { local = record s.local { designator_index = x } })
                (sym t.designator_index ∙ sym ((==_iff _ _).0 old)))
              t)
        | inr new ↦ rw new (
          segment designator_index tag_designator_index tag e s
              (set_local e (record e.local { designator_index = v }) bs)
              (record s { local = record s.local { designator_index = v } }) bs refl
              (parse_tag8 designator_index tag_designator_index tag s v) refl,
          record {
            global = t.global;
            usage_minimum = t.usage_minimum;
            usage_maximum = t.usage_maximum;
            designator_index = refl;
            designator_minimum = t.designator_minimum;
            designator_maximum = t.designator_maximum;
          },
        )
      ]

-- The usage written last, as the encoder keeps it: none is 0.
abbrev pub last_list : ℕ → List ℕ
last_list zero = []
last_list (suc n) = suc n ∷ []

-- Usages that the encoder writes one by one: none is 0, and none repeats the one before it.
abbrev pub NoRepeat : ℕ → List ℕ → Type 0
NoRepeat last [] = Unit
NoRepeat last (v ∷ vs) = (0 < v) × IsU16 v × (v ≢ last) × NoRepeat v vs

is_last_usage-last_list : (last v : ℕ) → v ≢ last → is_last_usage (last_list last) v ≡ false
is_last_usage-last_list zero v h = refl
is_last_usage-last_list (suc n) v h = ==_of_ne (λ e. h (sym e))

last_list-pos : (v : ℕ) → 0 < v → v ∷ [] ≡ last_list v
last_list-pos zero h = elim h [ ]
last_list-pos (suc v) h = refl

abbrev with_usage : State → List ℕ → State
with_usage s us = record s { local = record s.local { usage = us } }

pub encode_usage_id-Step :
    (v last : ℕ) (e : Encoder) (s : State)
    → Tracks e s
    → e.local.usage ≡ last_list last
    → 0 < v
    → IsU16 v
    → v ≢ last
    → Step e s (encode_usage_id v e) (with_usage s (s.local.usage ++ (v ∷ [])))
      × ((encode_usage_id v e).local.usage ≡ last_list v)
unfolding encode_usage_id command_of exec
encode_usage_id-Step v last e s t u pos h ne =
    let tag : IsTag usage tag_usage = (refl, omega arith, refl) in
    let bs = encode_tag16 tag_usage v in
    let z : (v == 0) ≡ false = ground arith in
    let n : is_last_usage e.local.usage v ≡ false = rw u (is_last_usage-last_list last v ne) in
    rw (z, n)
      (
        (
          segment usage tag_usage tag e s (set_local e (record e.local { usage = v ∷ [] }) bs)
              (with_usage s (s.local.usage ++ (v ∷ []))) bs refl
              (parse_tag16 usage tag_usage tag s v)
              (rw (to_uint16-encode_tag16 tag_usage v h) refl),
          record {
            global = t.global;
            usage_minimum = t.usage_minimum;
            usage_maximum = t.usage_maximum;
            designator_index = t.designator_index;
            designator_minimum = t.designator_minimum;
            designator_maximum = t.designator_maximum;
          },
        ),
        last_list-pos v pos,
      )

pub encode_usages-Step :
    (vs : List ℕ) (last : ℕ) (e : Encoder) (s : State)
    → Tracks e s
    → e.local.usage ≡ last_list last
    → NoRepeat last vs
    → Step e s (encode_usages vs e) (with_usage s (s.local.usage ++ vs))
unfolding encode_usages
encode_usages-Step [] last e s t u h = stay e s _ (ap (with_usage s) (sym (append-nil _))) t
encode_usages-Step (v ∷ vs) last e s t u (pos, fits, ne, h) =
    let ((run, t'), u') = encode_usage_id-Step v last e s t u pos fits ne in
    let m = with_usage s (s.local.usage ++ (v ∷ [])) in
    let (run', t'') = encode_usages-Step vs v (encode_usage_id v e) m t' u' h in
    let same : (s.local.usage ++ (v ∷ [])) ++ vs ≡ s.local.usage ++ (v ∷ vs) =
      append_assoc s.local.usage (v ∷ []) vs in
    subst (λ us. Step e s (encode_usages vs (encode_usage_id v e)) (with_usage s us)) same
      (
        Runs-trans e s (encode_usage_id v e) m (encode_usages vs (encode_usage_id v e))
            (with_usage m (m.local.usage ++ vs)) run run',
        t'',
      )
