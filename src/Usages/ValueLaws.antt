-- ===== src/Usages/ValueLaws.antt =====
-- The slots of a field of values: what is set is read back, and the other slots stay.
use neio_agent.Prelude.{
  ℕ, ◌+◌, ◌*◌, ◌%◌, ◌<◌, ◌≤◌, ◌≡◌, ◌≢◌, ◌⊎◌, refl, sym, ap, ◌∙◌, true, some, List, [], ◌∷◌, leb,
  arith, length, get_or, set, byte_at, sign_extend8, sign_extend16, IsU32, inl, inr, le→leb,
  le32-byte_at,
}
use mathlib.Core.Option
use mathlib.Core.Path.{subst}
use neio_agent.Usages.Values.{set_bytes, get_slot, set_slot, set_uint8, set_uint16, uint8, uint16}
use neio_agent.Usages.SlotBytes.{
  length-set_bytes, set_bytes_inside, narrow, IsSize, width, set_bytes_apart,
}

-- What a slot has to do.
abbrev pub Keeps : ℕ → ℕ → ℕ → List ℕ → Type 0
Keeps size i v xs =
    (ys : List ℕ) × (set_slot size xs i v ≡ some ys)
    × (get_slot size ys i ≡ some (narrow size v))
    × ((j : ℕ) → i ≢ j → get_slot size ys j ≡ get_slot size xs j)

-- A slot of `w` bytes, of which the first are written. `far` says that no other slot meets these.
module _ (w i : ℕ) (bs xs : List ℕ) (fits : i * w + length bs ≤ length xs)
    (far : (j k : ℕ)
      → i ≢ j
      → k < length bs
      → i * w ≤ j * w + k
      → j * w + k < i * w + length bs
      → ⊥) where
  slot_here :
      (k : ℕ) → k < length bs → get_or (set_bytes (i * w) bs xs) (i * w + k) 0 ≡ get_or bs k 0
  slot_here k h = set_bytes_inside (i * w) k bs xs h fits

  slot_first : 0 < length bs → get_or (set_bytes (i * w) bs xs) (i * w) 0 ≡ get_or bs 0 0
  slot_first h =
      let z : i * w ≡ i * w + 0 = omega arith in
      ap (λ x. get_or (set_bytes (i * w) bs xs) x 0) z ∙ slot_here 0 h

  slot_other :
      (j k : ℕ)
      → i ≢ j
      → k < length bs
      → get_or (set_bytes (i * w) bs xs) (j * w + k) 0 ≡ get_or xs (j * w + k) 0
  slot_other j k ne h = set_bytes_apart (i * w) (j * w + k) bs xs (far j k ne h)

  slot_other_first :
      (j : ℕ)
      → i ≢ j
      → 0 < length bs
      → get_or (set_bytes (i * w) bs xs) (j * w) 0 ≡ get_or xs (j * w) 0
  slot_other_first j ne h =
      let z : j * w ≡ j * w + 0 = omega arith in
      ap (λ x. get_or (set_bytes (i * w) bs xs) x 0) z
      ∙ slot_other j 0 ne h
      ∙ ap (λ x. get_or xs x 0) (sym z)

keeps32 : (i v : ℕ) (xs : List ℕ) → IsU32 v → (i + 1) * 4 ≤ length xs → Keeps 32 i v xs
unfolding get_slot set_slot
keeps32 i v xs hv n =
    let bs = byte_at 0 v ∷ byte_at 1 v ∷ byte_at 2 v ∷ byte_at 3 v ∷ [] in
    let ys = set_bytes (i * 4) bs xs in
    let size : length ys ≡ length xs = length-set_bytes (i * 4) bs xs in
    let inside : leb ((i + 1) * 4) (length xs) ≡ true = le→leb _ _ n in
    let fits : i * 4 + 4 ≤ length xs = omega arith in
    let far : (j k : ℕ) → i ≢ j → k < 4 → i * 4 ≤ j * 4 + k → j * 4 + k < i * 4 + 4 → ⊥ =
      λ j k ne h p q. ne (omega (arith, h, p, q)) in
    let here = slot_here 4 i bs xs fits far in
    let other = slot_other 4 i bs xs fits far in
    (
      ys,
      rw inside refl,
      rw
          (
            size,
            inside,
            slot_first 4 i bs xs fits far (omega arith),
            here 1 (omega arith),
            here 2 (omega arith),
            here 3 (omega arith),
          )
          (ap some (le32-byte_at v hv)),
      λ j ne.
          rw
            (
              size,
              slot_other_first 4 i bs xs fits far j ne (omega arith),
              other j 1 ne (omega arith),
              other j 2 ne (omega arith),
              other j 3 ne (omega arith),
            )
            refl,
    )

-- The slots of two bytes in two or three, and of one byte.
keeps16 :
    (w i v : ℕ) (xs : List ℕ)
    → (w ≡ 2) ⊎ (w ≡ 3)
    → (i + 1) * w ≤ length xs
    → (ys : List ℕ) × (set_uint16 w xs i v ≡ some ys)
      × (uint16 w ys i ≡ some (v % 65536))
      × ((j : ℕ) → i ≢ j → uint16 w ys j ≡ uint16 w xs j)
keeps16 w i v xs e n =
    let bs = byte_at 0 v ∷ byte_at 1 v ∷ [] in
    let ys = set_bytes (i * w) bs xs in
    let size : length ys ≡ length xs = length-set_bytes (i * w) bs xs in
    let inside : leb ((i + 1) * w) (length xs) ≡ true = le→leb _ _ n in
    let fits : i * w + 2 ≤ length xs = wide w i (length xs) e n in
    let far = no_overlap w i e in
    (
      ys,
      rw inside refl,
      rw
          (
            size,
            inside,
            slot_first w i bs xs fits far (omega arith),
            slot_here w i bs xs fits far 1 (omega arith),
          )
          (ap some (omega arith)),
      λ j ne.
          rw
            (
              size,
              slot_other_first w i bs xs fits far j ne (omega arith),
              slot_other w i bs xs fits far j 1 ne (omega arith),
            )
            refl,
    )
  where
    wide : (w i m : ℕ) → (w ≡ 2) ⊎ (w ≡ 3) → (i + 1) * w ≤ m → i * w + 2 ≤ m
    wide w i m (inl e) n =
        rw e (let n' : (i + 1) * 2 ≤ m = subst (λ x. (i + 1) * x ≤ m) e n in omega (arith, n'))
    wide w i m (inr e) n =
        rw e (let n' : (i + 1) * 3 ≤ m = subst (λ x. (i + 1) * x ≤ m) e n in omega (arith, n'))

    no_overlap :
        (w i : ℕ)
        → (w ≡ 2) ⊎ (w ≡ 3)
        → (j k : ℕ) → i ≢ j
        → k < 2
        → i * w ≤ j * w + k
        → j * w + k < i * w + 2
        → ⊥
    no_overlap w i (inl e) j k ne h p q =
        let p' : i * 2 ≤ j * 2 + k = subst (λ x. i * x ≤ j * x + k) e p in
        let q' : j * 2 + k < i * 2 + 2 = subst (λ x. j * x + k < i * x + 2) e q in
        ne (omega (arith, p', q', h))
    no_overlap w i (inr e) j k ne h p q =
        let p' : i * 3 ≤ j * 3 + k = subst (λ x. i * x ≤ j * x + k) e p in
        let q' : j * 3 + k < i * 3 + 2 = subst (λ x. j * x + k < i * x + 2) e q in
        ne (omega (arith, p', q', h))

keeps8 :
    (i v : ℕ) (xs : List ℕ)
    → (i + 1) * 1 ≤ length xs
    → (ys : List ℕ) × (set_uint8 xs i v ≡ some ys)
      × (uint8 ys i ≡ some (v % 256))
      × ((j : ℕ) → i ≢ j → uint8 ys j ≡ uint8 xs j)
keeps8 i v xs n =
    let bs = byte_at 0 v ∷ [] in
    let ys = set_bytes (i * 1) bs xs in
    let size : length ys ≡ length xs = length-set_bytes (i * 1) bs xs in
    let inside : leb ((i + 1) * 1) (length xs) ≡ true = le→leb _ _ n in
    let fits : i * 1 + 1 ≤ length xs = omega arith in
    let far : (j k : ℕ) → i ≢ j → k < 1 → i * 1 ≤ j * 1 + k → j * 1 + k < i * 1 + 1 → ⊥ =
      λ j k ne h p q. ne (omega (arith, h, p, q)) in
    (
      ys,
      rw inside refl,
      rw (size, inside, slot_first 1 i bs xs fits far (omega arith)) (ap some (omega arith)),
      λ j ne. rw (size, slot_other_first 1 i bs xs fits far j ne (omega arith)) refl,
    )

keeps7 : (i v : ℕ) (xs : List ℕ) → (i + 1) * 1 ≤ length xs → Keeps 7 i v xs
unfolding get_slot set_slot
keeps7 i v xs n =
    let (ys, set, get, others) = keeps8 i (v % 128) xs n in
    (
      ys,
      set,
      rw get (ap some (ground arith)),
      λ j ne. ap (λ o. Option.map sign_extend8 (Option.map (λ x. x % 128) o)) (others j ne),
    )

byte_slot : (i v : ℕ) (xs : List ℕ) → (i + 1) * 1 ≤ length xs → Keeps 8 i v xs
unfolding get_slot set_slot
byte_slot i v xs n =
    let (ys, set, get, others) = keeps8 i v xs n in
    (ys, set, rw get refl, λ j ne. ap (Option.map sign_extend8) (others j ne))

word_slot : (i v : ℕ) (xs : List ℕ) → (i + 1) * 2 ≤ length xs → Keeps 16 i v xs
unfolding get_slot set_slot
word_slot i v xs n =
    let (ys, set, get, others) = keeps16 2 i v xs (inl refl) n in
    (ys, set, rw get refl, λ j ne. ap (Option.map sign_extend16) (others j ne))

wide_slot : (i v : ℕ) (xs : List ℕ) → (i + 1) * 3 ≤ length xs → Keeps 24 i v xs
unfolding get_slot set_slot
wide_slot i v xs n =
    let (ys, set, get, others) = keeps16 3 i v xs (inr refl) n in
    (ys, set, rw get refl, λ j ne. ap (Option.map sign_extend16) (others j ne))

-- A slot of 7, 8, 16, 24 or 32 bits that lies in the field: what is set for its index is read back,
-- cut to the slot, and the other slots stay. Setting does not panic.
pub get_slot-set_slot :
    (size i v : ℕ) (xs : List ℕ)
    → IsSize size
    → IsU32 v
    → (i + 1) * width size ≤ length xs
    → Keeps size i v xs
get_slot-set_slot size i v xs (inr (inr (inr (inr e)))) hv n =
    subst (λ s. Keeps s i v xs) (sym e)
      (keeps32 i v xs hv (subst (λ s. (i + 1) * width s ≤ length xs) e n))
get_slot-set_slot size i v xs (inl e) hv n =
    subst (λ s. Keeps s i v xs) (sym e)
      (keeps7 i v xs (subst (λ s. (i + 1) * width s ≤ length xs) e n))
get_slot-set_slot size i v xs (inr (inl e)) hv n =
    subst (λ s. Keeps s i v xs) (sym e)
      (byte_slot i v xs (subst (λ s. (i + 1) * width s ≤ length xs) e n))
get_slot-set_slot size i v xs (inr (inr (inl e))) hv n =
    subst (λ s. Keeps s i v xs) (sym e)
      (word_slot i v xs (subst (λ s. (i + 1) * width s ≤ length xs) e n))
get_slot-set_slot size i v xs (inr (inr (inr (inl e)))) hv n =
    subst (λ s. Keeps s i v xs) (sym e)
      (wide_slot i v xs (subst (λ s. (i + 1) * width s ≤ length xs) e n))
