-- ===== src/Bits/Update.antt =====
-- `IsSet`, `Set`, `Clear`, `ClearAll`, `IsEmpty` and `Equal`: what a bit reads after an update.
use neio_agent.Prelude.{
  ℕ, zero, suc, ◌/◌, ◌%◌, ◌^◌, ◌≤◌, ◌<◌, ◌≡◌, refl, sym, Bool, true, false, not, ◌&&◌, List, [],
  ◌∷◌, arith, ◌==◌, ==_iff, ltb, ltb→lt, leb, if◌then◌else◌, get_or, set, All, IsByte, length-set,
  get_or-set_self, get_or-set_ne, Bool-cases, inl, inr, ==_of_eq,
}
use neio_agent.Bits.{
  Bits, IsValid, len, test_bit, set_bit, clear_bit, is_set, set_at, clear_at, any_set, zero_bytes,
  clear_all, is_empty,
}
use Prim.Native.Nat.{bit_and, bit_and-bitwise}
use neio_agent.Bits.Table.{holds_below, bit_law}

abbrev same_bool : Bool → Bool → Bool
same_bool true b = b
same_bool false b = not b

same_bool→eq : (a b : Bool) → same_bool a b ≡ true → a ≡ b
same_bool→eq a b h = ground arith

pub test-set_bit :
    (i j b : ℕ)
    → i < 8
    → j < 8
    → b < 256
    → test_bit (set_bit b i) j ≡ (if i == j then true else test_bit b j)
unfolding holds_below
test-set_bit i j b hi hj hb = same_bool→eq _ _ (
    bit_law (λ i j b. same_bool (test_bit (set_bit b i) j) (if i == j then true else test_bit b j))
      refl i j b hi hj hb)

pub test-clear_bit :
    (i j b : ℕ)
    → i < 8
    → j < 8
    → b < 256
    → test_bit (clear_bit b i) j ≡ (if i == j then false else test_bit b j)
unfolding holds_below
test-clear_bit i j b hi hj hb = same_bool→eq _ _ (
    bit_law
      (λ i j b. same_bool (test_bit (clear_bit b i) j) (if i == j then false else test_bit b j))
      refl i j b hi hj hb)

set_bit-lt : (i b : ℕ) → i < 8 → b < 256 → set_bit b i < 256
unfolding holds_below
set_bit-lt i b hi hb =
    ltb→lt _ _ (bit_law (λ i j b. ltb (set_bit b i) 256) refl i 0 b hi (omega arith) hb)

clear_bit-lt : (i b : ℕ) → i < 8 → b < 256 → clear_bit b i < 256
unfolding holds_below
clear_bit-lt i b hi hb =
    ltb→lt _ _ (bit_law (λ i j b. ltb (clear_bit b i) 256) refl i 0 b hi (omega arith) hb)

-- Reading a bit after the byte that holds bit `i` is replaced.
module _ (b : Bits) (i j x : ℕ) (hi : i < len b) where
  read_after : is_set (record b { bytes = set b.bytes (i / 8) x }) j ≡ (
      if i / 8 == j / 8 then (if leb (len b) j then false else test_bit x (j % 8)) else is_set b j)
  unfolding is_set
  read_after = elim (Bool-cases (i / 8 == j / 8)) [
    | inl e ↦
        let same : j / 8 ≡ i / 8 = sym ((==_iff _ _).0 e) in
        rw
          (e, length-set b.bytes (i / 8) x, same, get_or-set_self b.bytes (i / 8) x 0 (omega arith))
          refl
    | inr e ↦
        rw
          (
            e,
            length-set b.bytes (i / 8) x,
            get_or-set_ne b.bytes (i / 8) (j / 8) x 0 (λ p. cc (==_of_eq p)),
          )
          refl
  ]

get_or-IsByte : (xs : List ℕ) (i : ℕ) → All IsByte xs → get_or xs i 0 < 256
get_or-IsByte [] i v = omega arith
get_or-IsByte (x ∷ xs) zero v = v.0
get_or-IsByte (x ∷ xs) (suc i) v = get_or-IsByte xs i v.1

-- A test of a bit in the byte of bit `i`.
is_set_here :
    (b : Bits) (i j : ℕ)
    → (i / 8 == j / 8) ≡ true
    → is_set b j ≡ (if leb (len b) j then false else test_bit (get_or b.bytes (i / 8) 0) (j % 8))
unfolding is_set
is_set_here b i j e = let same : i / 8 ≡ j / 8 = (==_iff _ _).0 e in rw same refl

-- In a well-formed value, after `Set` of a bit within the length that bit reads set, and every other bit as before.
pub is_set-set_at :
    (b : Bits) (i j : ℕ)
    → IsValid b
    → i < len b
    → is_set (set_at b i).0 j ≡ (if i == j then true else is_set b j)
unfolding set_at
is_set-set_at b i j v hi =
    let old = get_or b.bytes (i / 8) 0 in
    ground (
      arith,
      read_after b i j (set_bit old (i % 8)) hi,
      test-set_bit (i % 8) (j % 8) old (omega arith) (omega arith)
          (get_or-IsByte b.bytes (i / 8) v.bytes_valid),
      is_set_here b i j,
    )

-- In a well-formed value, after `Clear` of a bit within the length that bit reads clear, and every other bit as before.
pub is_set-clear_at :
    (b : Bits) (i j : ℕ)
    → IsValid b
    → i < len b
    → is_set (clear_at b i).0 j ≡ (if i == j then false else is_set b j)
unfolding clear_at
is_set-clear_at b i j v hi =
    let old = get_or b.bytes (i / 8) 0 in
    ground (
      arith,
      read_after b i j (clear_bit old (i % 8)) hi,
      test-clear_bit (i % 8) (j % 8) old (omega arith) (omega arith)
          (get_or-IsByte b.bytes (i / 8) v.bytes_valid),
      is_set_here b i j,
    )

All-set : (xs : List ℕ) (i x : ℕ) → x < 256 → All IsByte xs → All IsByte (set xs i x)
All-set [] i x h v = tt
All-set (y ∷ xs) zero x h v = (h, v.1)
All-set (y ∷ xs) (suc i) x h v = (v.0, All-set xs i x h v.1)

-- A write to one byte keeps the length and the well-formedness.
replace_byte-IsValid :
    (b : Bits) (q x : ℕ) → x < 256 → IsValid b → IsValid (record b { bytes = set b.bytes q x })
replace_byte-IsValid b q x h v = record {
  bytes_valid = All-set b.bytes q x h v.bytes_valid;
  missing_small = v.missing_small;
  missing_fits = rw (length-set b.bytes q x) v.missing_fits;
}

-- `Set` of any bit keeps a well-formed value well-formed.
pub set_at-IsValid : (b : Bits) (i : ℕ) → IsValid b → IsValid (set_at b i).0
unfolding set_at
set_at-IsValid b i v = elim (Bool-cases (leb (len b) i)) [
  | inl e ↦ rw e v
  | inr e ↦ rw e (
      replace_byte-IsValid b (i / 8) _
        (set_bit-lt (i % 8) _ (omega arith) (get_or-IsByte b.bytes (i / 8) v.bytes_valid)) v)
]

pub clear_at-IsValid : (b : Bits) (i : ℕ) → IsValid b → IsValid (clear_at b i).0
unfolding clear_at
clear_at-IsValid b i v = elim (Bool-cases (leb (len b) i)) [
  | inl e ↦ rw e v
  | inr e ↦ rw e (
      replace_byte-IsValid b (i / 8) _
        (clear_bit-lt (i % 8) _ (omega arith) (get_or-IsByte b.bytes (i / 8) v.bytes_valid)) v)
]

pub len-set_at : (b : Bits) (i : ℕ) → len (set_at b i).0 ≡ len b
unfolding set_at
len-set_at b i =
    ground (arith, length-set b.bytes (i / 8) (set_bit (get_or b.bytes (i / 8) 0) (i % 8)))

pub len-clear_at : (b : Bits) (i : ℕ) → len (clear_at b i).0 ≡ len b
unfolding clear_at
len-clear_at b i =
    ground (arith, length-set b.bytes (i / 8) (clear_bit (get_or b.bytes (i / 8) 0) (i % 8)))

-- The result of an update says whether the bit changed, and an update out of range does nothing.
pub set_at_changed : (b : Bits) (i : ℕ) → (set_at b i).1 ≡ (ltb i (len b) && not (is_set b i))
unfolding set_at is_set
set_at_changed b i = ground arith

pub clear_at_changed : (b : Bits) (i : ℕ) → (clear_at b i).1 ≡ is_set b i
unfolding clear_at is_set
clear_at_changed b i = ground arith

pub set_at_outside : (b : Bits) (i : ℕ) → len b ≤ i → (set_at b i).0 ≡ b
unfolding set_at
set_at_outside b i h = ground arith

pub clear_at_outside : (b : Bits) (i : ℕ) → len b ≤ i → (clear_at b i).0 ≡ b
unfolding clear_at
clear_at_outside b i h = ground arith

zero_bytes-zero : (xs : List ℕ) (i : ℕ) → get_or (zero_bytes xs) i 0 ≡ 0
unfolding zero_bytes
zero_bytes-zero [] i = refl
zero_bytes-zero (x ∷ xs) zero = refl
zero_bytes-zero (x ∷ xs) (suc i) = zero_bytes-zero xs i

any_set-zero_bytes : (xs : List ℕ) → any_set (zero_bytes xs) ≡ false
unfolding any_set zero_bytes
any_set-zero_bytes [] = refl
any_set-zero_bytes (x ∷ xs) = any_set-zero_bytes xs

zero-bit_and : (y : ℕ) → bit_and 0 y ≡ 0
zero-bit_and y = bit_and-bitwise 0 y

-- After `ClearAll` no bit is set, the value is empty, and the result says whether it was not before.
pub clear_all_lem :
    (b : Bits)
    → ((j : ℕ) → is_set (clear_all b).0 j ≡ false)
      × (is_empty (clear_all b).0 ≡ true)
      × ((clear_all b).1 ≡ not (is_empty b))
unfolding clear_all is_empty is_set
clear_all_lem b = (
  λ j. ground (arith, zero_bytes-zero b.bytes (j / 8), zero-bit_and (2 ^ (j % 8))),
  ground (arith, any_set-zero_bytes b.bytes),
  ground arith,
)
