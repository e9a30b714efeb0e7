-- ===== src/Usages/ValueMap.antt =====
-- hidapi/usage_values.go: a field of values as a map from usages to numbers.
use neio_agent.Prelude.{
  ℕ, ◌+◌, ◌-◌, ◌*◌, ◌≤◌, ◌≡◌, ◌≢◌, sym, ap, ◌∙◌, Option, some, List, arith, length, Option-cases,
  inl, inr, IsU32, empty_map, get_elem?,
}
use mathlib.Core.Option
use neio_agent.Bits.{Bits}
use neio_agent.Usages.{index_ids}
use neio_agent.Usages.Flags.{index_ids_sound}
use neio_agent.Usages.Values.{new_usage_values, get_value, set_value, get_at, set_in}
use neio_agent.Usages.SlotBytes.{IsSize, width, narrow}
use neio_agent.Usages.ValueLaws.{get_slot-set_slot}

index_apart :
    (us : List ℕ) (u v i j : ℕ)
    → u ≢ v
    → index_ids 0 us empty_map u ≡ some i
    → index_ids 0 us empty_map v ≡ some j
    → i ≢ j
index_apart us u v i j ne p q e = ne (same_key (at u i p) (ap (get_elem? us) e ∙ at v j q))
  where
    at : (w k : ℕ) → index_ids 0 us empty_map w ≡ some k → get_elem? us k ≡ some w
    at w k h = elim (index_ids_sound 0 us empty_map w k h) [
      | inl impossible ↦ ground (arith, impossible)
      | inr (_, found) ↦ let n : k ≡ k - 0 = omega arith in ap (get_elem? us) n ∙ found
    ]

    same_key : {o : Option ℕ} → o ≡ some u → o ≡ some v → u ≡ v
    same_key h k = cc (h, k)

-- For an int32 and a usage whose slot lies in the field, `SetValue` does not panic, the values of the
-- other usages stay, and `GetValue` reads back what the slot keeps: for the sizes 8 and 16 the low byte or
-- the low two bytes with their sign, for 32 all of it. For 24 too it is the low two bytes with their sign
-- only, since neither side uses the third byte of the slot. For 7 it is the low seven bits without a sign,
-- and the slot is a byte of the field, as both sides take it, also where there are several usages. The
-- sizes are those for which the program makes such a field.
pub get_value-set_value :
    (us : List ℕ) (size lo hi : ℕ) (b : Bits) (u i x : ℕ)
    → IsSize size
    → IsU32 x
    → index_ids 0 us empty_map u ≡ some i
    → (i + 1) * width size ≤ length b.bytes
    → (let s = new_usage_values us size lo hi in
        (b' : Bits) × (set_value s b u x ≡ some b')
        × (get_value s b' u ≡ some (narrow size x))
        × ((v : ℕ) → u ≢ v → get_value s b' v ≡ get_value s b v))
unfolding get_value set_value
get_value-set_value us size lo hi b u i x hs hx h n =
    let (ys, put, get, others) = get_slot-set_slot size i x b.bytes hs hx n in
    let s = new_usage_values us size lo hi in
    (
      record b { bytes = ys },
      ap (λ o. Option.map (λ xs. record b { bytes = xs }) (set_in size b.bytes x o)) h
          ∙ ap (Option.map (λ xs. record b { bytes = xs })) put,
      ap (get_at size ys) h ∙ get,
      λ v ne. elim (Option-cases (index_ids 0 us empty_map v)) [
        | inl missing ↦ ap (get_at size ys) missing ∙ sym (ap (get_at size b.bytes) missing)
        | inr (j, q) ↦
            ap (get_at size ys) q
            ∙ others j (index_apart us u v i j ne h q)
            ∙ sym (ap (get_at size b.bytes) q)
      ],
    )
