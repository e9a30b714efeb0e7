-- ===== src/Bits/Shift.antt =====
-- The bytes that `Next` shifts together hold the bits from the offset on.
use neio_agent.Prelude.{
  ℕ, zero, suc, ◌+◌, ◌-◌, ◌*◌, ◌/◌, ◌^◌, ◌≤◌, ◌<◌, ◌≡◌, refl, sym, ap, ◌∙◌, none, some, List, [],
  ◌∷◌, ◌++◌, arith, bit_or, length, take, drop, u8, All, IsByte, append_assoc, append-cancel-take,
  length-append, take-append_add, drop-append_le,
}
use neio_agent.Bits.Scanner.{shifted_bytes}
use neio_agent.Bits.View.{
  byte_bits, bytes_bits, length-byte_bits, byte_bits-or, or_merge-lt, low_clear,
}
use neio_agent.Bits.Carry.{take_shl, drop_shl, length-drop_byte, length-take_byte}
use mathlib.Core.Path.{ap₂}

abbrev pub Reads : ℕ → List ℕ → List ℕ → Type 0
Reads n xs ys = (bytes_bits ys ≡ take (8 * n) xs) × All IsByte ys

shift_regroup : (d t u r : List ℕ) → (d ++ ((t ++ u) ++ r)) ≡ (d ++ t) ++ (u ++ r)
shift_regroup d t u r = simp append_assoc

module _ (k : ℕ) (hk : k < 8) where
  shifted_byte :
      (a b : ℕ)
      → a < 256
      → b < 256
      → byte_bits (bit_or (u8 (a * 2 ^ k)) (b / 2 ^ (8 - k)))
        ≡ drop k (byte_bits a) ++ take k (byte_bits b)
  shifted_byte a b ha hb =
      byte_bits-or k (u8 (a * 2 ^ k)) b hk (omega arith)
        (low_clear k (u8 (a * 2 ^ k)) hk (omega arith) (drop_shl k hk a ha)) hb
      ∙ ap (λ x. x ++ take k (byte_bits b)) (take_shl k hk a ha)

  shifted_front :
      (n a b : ℕ) (r : List ℕ)
      → take (8 * suc n) (drop k (byte_bits a ++ (byte_bits b ++ r)))
        ≡ (drop k (byte_bits a) ++ take k (byte_bits b)) ++ take (8 * n) (drop k (byte_bits b ++ r))
  shifted_front n a b r =
      let d = drop k (byte_bits a) in
      let t = take k (byte_bits b) in
      let u = drop k (byte_bits b) in
      let e : 8 * suc n ≡ 8 + 8 * n = omega arith in
      rw e (
        ap (take (8 + 8 * n)) (drop-append_le k (byte_bits a) _ (omega (arith, length-byte_bits a)))
        ∙ ap (λ x. take (8 + 8 * n) (d ++ (x ++ r))) (sym (append-cancel-take k (byte_bits b)))
        ∙ ap (take (8 + 8 * n)) (shift_regroup d t u r)
        ∙ take-append_add 8 (8 * n) (d ++ t) (u ++ r) (
            omega (
              arith,
              length-append d t,
              length-drop_byte k hk a,
              length-take_byte k hk k b (omega arith),
            ))
        ∙ ap (λ x. (d ++ t) ++ take (8 * n) x)
            (sym (drop-append_le k (byte_bits b) r (omega (arith, length-byte_bits b)))))

  pub shifted_bytes_bits :
      (n : ℕ) (xs : List ℕ)
      → All IsByte xs
      → n < length xs
      → (ys : List ℕ) × (shifted_bytes k n xs ≡ some ys)
        × Reads n (drop k (bytes_bits xs)) ys
        × (length ys ≡ n)
  unfolding shifted_bytes
  shifted_bytes_bits zero xs v h = ([], refl, (refl, tt), refl)
  shifted_bytes_bits (suc n) [] v h = elim h [ ]
  shifted_bytes_bits (suc n) (a ∷ []) v h = absurd (omega arith)
  shifted_bytes_bits (suc n) (a ∷ b ∷ xs) v h =
      let (ys, e, (bits, valid), size) = shifted_bytes_bits n (b ∷ xs) v.1 (omega arith) in
      (
        bit_or (u8 (a * 2 ^ k)) (b / 2 ^ (8 - k)) ∷ ys,
        rw e refl,
        (
          ap₂ ◌++◌ (shifted_byte a b v.0 v.1.0) bits ∙ sym (shifted_front n a b (bytes_bits xs)),
          (
            or_merge-lt k (u8 (a * 2 ^ k)) b hk (omega arith)
                (low_clear k (u8 (a * 2 ^ k)) hk (omega arith) (drop_shl k hk a v.0)) v.1.0,
            valid,
          ),
        ),
        omega arith,
      )

  -- A run of bytes that ends too early is a panic.
  pub shifted_bytes-none :
      (n : ℕ) (xs : List ℕ) → length xs ≤ n → 0 < n → shifted_bytes k n xs ≡ none
  unfolding shifted_bytes
  shifted_bytes-none zero xs h p = elim p [ ]
  shifted_bytes-none (suc n) [] h p = refl
  shifted_bytes-none (suc n) (a ∷ []) h p = refl
  shifted_bytes-none (suc n) (a ∷ b ∷ xs) h p =
      rw (shifted_bytes-none n (b ∷ xs) (omega arith) (omega arith)) refl
