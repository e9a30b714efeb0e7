-- ===== src/Usages/SlotBytes.antt =====
-- Bytes that are written from a place on, and what a slot keeps of a number.
use neio_agent.Prelude.{
  ℕ, zero, suc, ◌+◌, ◌/◌, ◌%◌, ◌<◌, ◌≤◌, ◌≡◌, ◌⊎◌, refl, ap, ◌∙◌, List, [], ◌∷◌, if◌then◌else◌, ltb,
  ◌==◌, arith, length, get_or, set, length-set, get_or-set_self, get_or-set_ne, sign_extend8,
  sign_extend16, Bool-cases, inl, inr, ltb→lt,
}
use neio_agent.Usages.Values.{set_bytes}

pub length-set_bytes : (i : ℕ) (bs xs : List ℕ) → length (set_bytes i bs xs) ≡ length xs
unfolding set_bytes
length-set_bytes i [] xs = refl
length-set_bytes i (b ∷ bs) xs = length-set_bytes (suc i) bs (set xs i b) ∙ length-set xs i b

set_bytes_before :
    (i j : ℕ) (bs xs : List ℕ) → j < i → get_or (set_bytes i bs xs) j 0 ≡ get_or xs j 0
unfolding set_bytes
set_bytes_before i j [] xs h = refl
set_bytes_before i j (b ∷ bs) xs h =
    set_bytes_before (suc i) j bs (set xs i b) (omega arith)
    ∙ get_or-set_ne xs i j b 0 (omega arith)

set_bytes_behind :
    (i j : ℕ) (bs xs : List ℕ) → i + length bs ≤ j → get_or (set_bytes i bs xs) j 0 ≡ get_or xs j 0
unfolding set_bytes
set_bytes_behind i j [] xs h = refl
set_bytes_behind i j (b ∷ bs) xs h =
    set_bytes_behind (suc i) j bs (set xs i b) (omega arith)
    ∙ get_or-set_ne xs i j b 0 (omega arith)

pub set_bytes_inside :
    (i k : ℕ) (bs xs : List ℕ)
    → k < length bs
    → i + length bs ≤ length xs
    → get_or (set_bytes i bs xs) (i + k) 0 ≡ get_or bs k 0
unfolding set_bytes
set_bytes_inside i k [] xs h n = absurd (omega arith)
set_bytes_inside i zero (b ∷ bs) xs h n =
    set_bytes_before (suc i) (i + 0) bs (set xs i b) (omega arith)
    ∙ ap (λ j. get_or (set xs i b) j 0) (omega arith)
    ∙ get_or-set_self xs i b 0 (omega arith)
set_bytes_inside i (suc k) (b ∷ bs) xs h n =
    ap (λ j. get_or (set_bytes (suc i) bs (set xs i b)) j 0) (omega arith)
    ∙ set_bytes_inside (suc i) k bs (set xs i b) (omega arith) (omega (arith, length-set xs i b))

-- What `GetValue` reads back of an int32 that `SetValue` wrote. A slot of 24 bits keeps the low 16 bits
-- only (`SetUint24` and `Uint24` have 16-bit values); one of 7 bits loses the sign.
abbrev pub narrow : ℕ → ℕ → ℕ
narrow size v =
    if size == 7
    then v % 128
    else if size == 8
    then sign_extend8 (v % 256)
    else if size == 32
    then v
    else sign_extend16 (v % 65536)

abbrev pub IsSize : ℕ → Type 0
IsSize size = (size ≡ 7) ⊎ (size ≡ 8) ⊎ (size ≡ 16) ⊎ (size ≡ 24) ⊎ (size ≡ 32)

-- The bytes of a slot.
abbrev pub width : ℕ → ℕ
width size = (size + 7) / 8

pub set_bytes_apart :
    (i k : ℕ) (bs xs : List ℕ)
    → (i ≤ k → k < i + length bs → ⊥)
    → get_or (set_bytes i bs xs) k 0 ≡ get_or xs k 0
set_bytes_apart i k bs xs h = elim (Bool-cases (ltb k i)) [
  | inl e ↦ set_bytes_before i k bs xs (ltb→lt k i e)
  | inr e ↦ elim (Bool-cases (ltb k (i + length bs))) [
    | inl f ↦ absurd (h (ground arith) (ltb→lt k (i + length bs) f))
    | inr f ↦ set_bytes_behind i k bs xs (ground arith)
  ]
]
