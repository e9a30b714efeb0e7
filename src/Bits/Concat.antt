-- ===== src/Bits/Concat.antt =====
-- pkg/bits/bits.go, `ConcatBits`: the bits of one value behind those of another.
use neio_agent.Prelude.{
  ℕ, zero, suc, ◌+◌, ◌-◌, ◌*◌, ◌/◌, ◌%◌, ◌^◌, Option, none, some, List, [], ◌∷◌, ◌++◌, bit_or, ◌&&◌,
  if◌then◌else◌, leb, ◌==◌, length, take, replicate, u8,
}
use neio_agent.Bits.{Bits}
use mathlib.Core.Option

-- The loop over the right bytes from `result[i] = cur` on; `room` counts the bytes behind `i`. It
-- stops at the last byte.
unfoldable pub concat_loop : ℕ → ℕ → ℕ → List ℕ → List ℕ
concat_loop m room cur [] = cur ∷ replicate room 0
concat_loop m zero cur (b ∷ bs) = bit_or cur (b / 2 ^ (8 - m)) ∷ []
concat_loop m (suc room) cur (b ∷ bs) =
    bit_or cur (b / 2 ^ (8 - m)) ∷ concat_loop m room (u8 (b * 2 ^ m)) bs

-- The copy of the left bytes into `size` bytes, and the loop from the last of them on. With no
-- left byte the loop would begin at `result[-1]`.
unfoldable pub concat_bytes : ℕ → ℕ → List ℕ → List ℕ → Option (List ℕ)
concat_bytes m size l [] = some (take size l)
concat_bytes m size [] (b ∷ bs) = none
concat_bytes m size (a ∷ []) (b ∷ bs) = some (concat_loop m (size - 1) a (b ∷ bs))
concat_bytes m size (a ∷ c ∷ l) (b ∷ bs) =
    Option.map (λ r. a ∷ r) (concat_bytes m (size - 1) (c ∷ l) (b ∷ bs))

unfoldable pub concat_bits : Bits → Bits → Option Bits
concat_bits l r =
    let carry = leb 8 (l.missing_bits + r.missing_bits) in
    let total = length l.bytes + length r.bytes in
    let joined = concat_bytes l.missing_bits (if carry then total - 1 else total) l.bytes r.bytes in
    if l.missing_bits == 0
    then some (record { missing_bits = r.missing_bits; bytes = l.bytes ++ r.bytes })
    else if carry && total == 0
    then none
    else Option.map
        (λ bs. record { missing_bits = (l.missing_bits + r.missing_bits) % 8; bytes = bs }) joined
