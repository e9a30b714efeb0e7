-- ===== src/Bits/View.antt =====
-- The bits that bytes stand for, highest bit of a byte first: what pkg/bits/bits.go prints.
use neio_agent.Prelude.{
  ℕ, zero, suc, ◌+◌, ◌-◌, ◌*◌, ◌/◌, ◌%◌, ◌^◌, ◌<◌, ◌≡◌, refl, ap, ◌∙◌, List, [], ◌∷◌, ◌++◌, arith,
  bit_or, length, take, drop, replicate, u8, get_or, length-append, append_assoc,
}
use neio_agent.Bits.{Bits, len}
use neio_agent.Bits.Table.{all_below, same_list, shift_law}

unfoldable pub byte_bits : ℕ → List ℕ
byte_bits b =
    b / 128 % 2
    ∷ b / 64 % 2
    ∷ b / 32 % 2
    ∷ b / 16 % 2
    ∷ b / 8 % 2
    ∷ b / 4 % 2
    ∷ b / 2 % 2
    ∷ b % 2
    ∷ []

abbrev pub bytes_bits : List ℕ → List ℕ
bytes_bits [] = []
bytes_bits (b ∷ bs) = byte_bits b ++ bytes_bits bs

-- The bits that count.
abbrev pub bits_of : Bits → List ℕ
bits_of b = take (len b) (bytes_bits b.bytes)

pub length-byte_bits : (b : ℕ) → length (byte_bits b) ≡ 8
unfolding byte_bits
length-byte_bits b = refl

pub length-bytes_bits : (bs : List ℕ) → length (bytes_bits bs) ≡ 8 * length bs
length-bytes_bits [] = refl
length-bytes_bits (b ∷ bs) =
    omega
      (arith, length-append (byte_bits b) (bytes_bits bs), length-byte_bits b, length-bytes_bits bs)

pub bytes_bits-append : (xs ys : List ℕ) → bytes_bits (xs ++ ys) ≡ bytes_bits xs ++ bytes_bits ys
bytes_bits-append [] ys = refl
bytes_bits-append (x ∷ xs) ys = simp (bytes_bits-append xs ys, append_assoc)

-- `b << m` in a byte drops the m highest bits.
pub byte_bits_shl :
    (m b : ℕ) → m < 8 → b < 256 → byte_bits (u8 (b * 2 ^ m)) ≡ drop m (byte_bits b) ++ replicate m 0
unfolding all_below same_list byte_bits
byte_bits_shl = shift_law _ _ refl

or_table : (m x : ℕ) → m < 8 → x < 256 → bit_or (x / 2 ^ m * 2 ^ m) (x % 2 ^ m) ∷ [] ≡ x ∷ []
unfolding all_below same_list
or_table = shift_law _ _ refl

split_table :
    (m x : ℕ)
    → m < 8
    → x < 256
    → byte_bits x
      ≡ take (8 - m) (byte_bits (x / 2 ^ m * 2 ^ m)) ++ take m (byte_bits (x % 2 ^ m * 2 ^ (8 - m)))
unfolding all_below same_list byte_bits
split_table = shift_law _ _ refl

high_table :
    (m x : ℕ)
    → m < 8
    → x < 256
    → take m (byte_bits (x / 2 ^ (8 - m) * 2 ^ (8 - m))) ≡ take m (byte_bits x)
unfolding all_below same_list byte_bits
high_table = shift_law _ _ refl

-- The parts of a byte whose low `m` bits are clear and of the high bits of another.
merge :
    (m cur b : ℕ)
    → m < 8
    → cur < 256
    → cur % 2 ^ m ≡ 0
    → b < 256
    → let x = cur + b / 2 ^ (8 - m) in
      (x / 2 ^ m * 2 ^ m ≡ cur) × (x % 2 ^ m ≡ b / 2 ^ (8 - m)) × (x < 256)
merge zero cur b h hc clean hb = omega arith
merge (suc zero) cur b h hc clean hb = omega arith
merge (suc (suc zero)) cur b h hc clean hb = omega arith
merge (suc (suc (suc zero))) cur b h hc clean hb = omega arith
merge (suc (suc (suc (suc zero)))) cur b h hc clean hb = omega arith
merge (suc (suc (suc (suc (suc zero))))) cur b h hc clean hb = omega arith
merge (suc (suc (suc (suc (suc (suc zero)))))) cur b h hc clean hb = omega arith
merge (suc (suc (suc (suc (suc (suc (suc zero))))))) cur b h hc clean hb = omega arith
merge (suc (suc (suc (suc (suc (suc (suc (suc m)))))))) cur b h hc clean hb = absurd (omega arith)

-- `cur | b >> (8 - m)`, where the low `m` bits of `cur` are clear.
module _ (m cur b : ℕ) (hm : m < 8) (hc : cur < 256) (clean : cur % 2 ^ m ≡ 0) (hb : b < 256) where
  or_merge : bit_or cur (b / 2 ^ (8 - m)) ≡ cur + b / 2 ^ (8 - m)
  or_merge =
      let (high, low, fits) = merge m cur b hm hc clean hb in
      ap (λ l. get_or l 0 0) (rw (high, low) at (or_table m (cur + b / 2 ^ (8 - m)) hm fits))

  pub or_merge-lt : bit_or cur (b / 2 ^ (8 - m)) < 256
  or_merge-lt = rw or_merge (merge m cur b hm hc clean hb).2

  pub byte_bits-or :
      byte_bits (bit_or cur (b / 2 ^ (8 - m)))
      ≡ take (8 - m) (byte_bits cur) ++ take m (byte_bits b)
  byte_bits-or =
      let (high, low, fits) = merge m cur b hm hc clean hb in
      ap byte_bits or_merge
      ∙ (rw (high, low) at (split_table m (cur + b / 2 ^ (8 - m)) hm fits))
      ∙ ap (λ l. take (8 - m) (byte_bits cur) ++ l) (high_table m b hm hb)

abbrev bits_value : ℕ → List ℕ → ℕ
bits_value acc [] = acc
bits_value acc (x ∷ xs) = bits_value (2 * acc + x) xs

low_table :
    (m x : ℕ) → m < 8 → x < 256 → x % 2 ^ m ∷ [] ≡ bits_value 0 (drop (8 - m) (byte_bits x)) ∷ []
unfolding all_below same_list byte_bits
low_table = shift_law _ _ refl

bits_value-zeros : (m : ℕ) → bits_value 0 (replicate m 0) ≡ 0
bits_value-zeros zero = refl
bits_value-zeros (suc m) = bits_value-zeros m

-- The low bits of a byte are clear where the view says so, and the other way round.
pub low_clear :
    (m x : ℕ) → m < 8 → x < 256 → drop (8 - m) (byte_bits x) ≡ replicate m 0 → x % 2 ^ m ≡ 0
low_clear m x hm hx e =
    ap (λ l. get_or l 0 0) (low_table m x hm hx) ∙ ap (bits_value 0) e ∙ bits_value-zeros m
