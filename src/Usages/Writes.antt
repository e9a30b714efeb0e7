-- ===== src/Usages/Writes.antt =====
-- hidapi/usage_values.go: a slot that lies in the field is read and written without a panic, and a
-- write keeps the size of the field.
use mathlib.Core.Path.{subst}
use mathlib.Core.Option
use neio_agent.Prelude.{
  ℕ, zero, suc, ◌+◌, ◌*◌, ◌%◌, ◌≤◌, ◌≡◌, refl, sym, ap, ◌∙◌, Option, some, List, [], ◌∷◌, arith,
  inl, inr, IsByte, All, length, set, le→leb, sign_extend8, sign_extend16,
}
use neio_agent.Bits.{Bits}
use neio_agent.Usages.Values.{
  set_bytes, in_slot, get_slot, set_slot, UsageValues, get_value, set_value, get_at, set_in,
}
use neio_agent.Usages.SlotBytes.{IsSize, width, length-set_bytes}

All-set : (xs : List ℕ) (i x : ℕ) → IsByte x → All IsByte xs → All IsByte (set xs i x)
All-set [] i x h v = tt
All-set (y ∷ xs) zero x h v = (h, v.1)
All-set (y ∷ xs) (suc i) x h v = (v.0, All-set xs i x h v.1)

All-set_bytes :
    (i : ℕ) (bs xs : List ℕ) → All IsByte bs → All IsByte xs → All IsByte (set_bytes i bs xs)
unfolding set_bytes
All-set_bytes i [] xs h v = v
All-set_bytes i (b ∷ bs) xs h v = All-set_bytes (suc i) bs (set xs i b) h.1 (All-set xs i b h.0 v)

-- A result of a write: bytes as many as before.
abbrev pub Stores : List ℕ → Option (List ℕ) → Type 0
Stores xs o =
    (ys : List ℕ) × (o ≡ some ys) × (length ys ≡ length xs) × (All IsByte xs → All IsByte ys)

slot_Stores :
    (w i : ℕ) (bs xs : List ℕ)
    → (i + 1) * w ≤ length xs
    → All IsByte bs
    → Stores xs (in_slot w xs i (set_bytes (i * w) bs xs))
slot_Stores w i bs xs fits h = (
  set_bytes (i * w) bs xs,
  rw (le→leb _ _ fits) refl,
  length-set_bytes (i * w) bs xs,
  All-set_bytes (i * w) bs xs h,
)

abbrev Sized : ℕ → ℕ → ℕ → List ℕ → Type 0
Sized size i v xs =
    (i + 1) * width size ≤ length xs
    → Stores xs (set_slot size xs i v) × ((x : ℕ) × (get_slot size xs i ≡ some x))

in_slot-some : (w i a : ℕ) (xs : List ℕ) → (i + 1) * w ≤ length xs → in_slot w xs i a ≡ some a
in_slot-some w i a xs fits = rw (le→leb _ _ fits) refl

slot_lem : (size i v : ℕ) (xs : List ℕ) → IsSize size → Sized size i v xs
unfolding set_slot get_slot
slot_lem size i v xs (inl e) =
    subst (λ s. Sized s i v xs) (sym e)
      (λ n. (
        slot_Stores 1 i _ xs n (omega arith, tt),
        (
          _,
          ap (λ o. Option.map sign_extend8 (Option.map (λ x. x % 128) o)) (in_slot-some 1 i _ xs n),
        ),
      ))
slot_lem size i v xs (inr (inl e)) =
    subst (λ s. Sized s i v xs) (sym e)
      (λ n. (
        slot_Stores 1 i _ xs n (omega arith, tt),
        (_, ap (Option.map sign_extend8) (in_slot-some 1 i _ xs n)),
      ))
slot_lem size i v xs (inr (inr (inl e))) =
    subst (λ s. Sized s i v xs) (sym e)
      (λ n. (
        slot_Stores 2 i _ xs n (omega arith, (omega arith, tt)),
        (_, ap (Option.map sign_extend16) (in_slot-some 2 i _ xs n)),
      ))
slot_lem size i v xs (inr (inr (inr (inl e)))) =
    subst (λ s. Sized s i v xs) (sym e)
      (λ n. (
        slot_Stores 3 i _ xs n (omega arith, (omega arith, tt)),
        (_, ap (Option.map sign_extend16) (in_slot-some 3 i _ xs n)),
      ))
slot_lem size i v xs (inr (inr (inr (inr e)))) =
    subst (λ s. Sized s i v xs) (sym e)
      (λ n. (
        slot_Stores 4 i _ xs n (omega arith, (omega arith, (omega arith, (omega arith, tt)))),
        (_, in_slot-some 4 i _ xs n),
      ))

-- The slot of a usage lies in the field.
pub record HasSlot (s : UsageValues) (b : Bits) (u : ℕ) : Type 0 where
  pub sized : IsSize s.size
  pub slot : ℕ
  pub indexed : s.usage_index u ≡ some slot
  pub inside : (slot + 1) * width s.size ≤ length b.bytes

pub get_value_total :
    (s : UsageValues) (b : Bits) (u : ℕ) → HasSlot s b u → (x : ℕ) × (get_value s b u ≡ some x)
unfolding get_value
get_value_total s b u h =
    let (_, (x, e)) = slot_lem s.size h.slot 0 b.bytes h.sized h.inside in
    (x, ap (get_at s.size b.bytes) h.indexed ∙ e)

pub set_value_total :
    (s : UsageValues) (b : Bits) (u x : ℕ)
    → HasSlot s b u
    → (ys : List ℕ) × (set_value s b u x ≡ some (record b { bytes = ys }))
      × (length ys ≡ length b.bytes)
      × (All IsByte b.bytes → All IsByte ys)
unfolding set_value
set_value_total s b u x h =
    let ((ys, e, n, valid), _) = slot_lem s.size h.slot x b.bytes h.sized h.inside in
    (
      ys,
      ap (λ o. Option.map (λ xs. record b { bytes = xs }) (set_in s.size b.bytes x o)) h.indexed
          ∙ ap (Option.map (λ xs. record b { bytes = xs })) e,
      n,
      valid,
    )
